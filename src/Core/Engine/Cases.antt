-- ===== src/Core/Engine/Cases.antt =====
-- The outcomes of a command: refused, refused and recorded, or passed to a book.
use exchange_engine.Base.{◌≡◌, inl, inr, true, Option-cases, Bool-cases, lookup}
use exchange_engine.Core.Types.{
  RejectReason, duplicate_command, invalid_symbol, PlaceOrderCommand, CancelOrderCommand,
  SymbolConfig,
}
use exchange_engine.Core.Idempotency.{has_command}
use exchange_engine.Core.Validation.{validate_place_order}
use exchange_engine.Core.OrderBook.State.{OrderBook}
use exchange_engine.Core.OrderBook.Place.{process_place}
use exchange_engine.Core.OrderBook.Cancel.{process_cancel}
use exchange_engine.Core.Engine.State.{EngineCore}
use exchange_engine.Core.Engine.Process.{
  Reply, refuse, refuse_recorded, after_book, place_in, cancel_in, process_place_command,
  process_cancel_command, record_place, record_cancel,
}

-- What holds of a refusal, a recorded refusal and a place in a book holds of every place command.
pub place_command_cases {ℓ} :
    (e : EngineCore) (c : PlaceOrderCommand) (P : Reply → Type ℓ)
    → (has_command e.idempotency_index c.command_id ≡ true
        → P (refuse e c.command_id c.order_id c.user_id c.symbol_id duplicate_command))
    → ((reason : RejectReason)
        → P (refuse_recorded e c.command_id c.order_id c.user_id c.symbol_id reason))
    → ((book : OrderBook)
        → let outcome = process_place book c e.sequence_generator in
          P (after_book e c.symbol_id (record_place e.idempotency_index c outcome.1.0) outcome))
    → P (process_place_command e c)
unfolding process_place_command place_in
place_command_cases e c P seen refused placed =
    elim (Bool-cases (has_command e.idempotency_index c.command_id)) [
      | inl old ↦ rw old (seen old)
      | inr new ↦ rw new (elim (Option-cases (lookup c.symbol_id e.symbol_configs)) [
        | inl n ↦ rw n (refused invalid_symbol)
        | inr (config, y) ↦ rw y (elim (Option-cases (lookup c.symbol_id e.order_books)) [
          | inl n ↦ rw n (refused invalid_symbol)
          | inr (book, z) ↦ rw z (within config book)
        ])
      ])
    ]
  where
    within : (config : SymbolConfig) (book : OrderBook) → P (place_in e c config book)
    within config book =
        elim (Option-cases (validate_place_order c config e.idempotency_index).reason) [
          | inl n ↦ rw (n, place_in) (placed book)
          | inr (reason, y) ↦ rw (y, place_in) (refused reason)
        ]

pub cancel_command_cases {ℓ} :
    (e : EngineCore) (c : CancelOrderCommand) (P : Reply → Type ℓ)
    → (has_command e.idempotency_index c.command_id ≡ true
        → P (refuse e c.command_id c.order_id c.user_id c.symbol_id duplicate_command))
    → ((reason : RejectReason)
        → P (refuse_recorded e c.command_id c.order_id c.user_id c.symbol_id reason))
    → ((book : OrderBook)
        → let outcome = process_cancel book c e.sequence_generator in
          P (after_book e c.symbol_id (record_cancel e.idempotency_index c outcome.1.0) outcome))
    → P (process_cancel_command e c)
unfolding process_cancel_command cancel_in
cancel_command_cases e c P seen refused cancelled =
    elim (Bool-cases (has_command e.idempotency_index c.command_id)) [
      | inl old ↦ rw old (seen old)
      | inr new ↦ rw new (elim (Option-cases (lookup c.symbol_id e.symbol_configs)) [
        | inl n ↦ rw n (refused invalid_symbol)
        | inr (config, y) ↦ rw y (elim (Option-cases (lookup c.symbol_id e.order_books)) [
          | inl n ↦ rw n (refused invalid_symbol)
          | inr (book, z) ↦ rw z (cancelled book)
        ])
      ])
    ]
