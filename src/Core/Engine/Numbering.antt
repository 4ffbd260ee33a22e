-- ===== src/Core/Engine/Numbering.antt =====
-- The numbers of the events that the engine returns.
use exchange_engine.Base.{ℕ, Option, none, some}
use exchange_engine.Core.Types.{
  RejectReason, duplicate_command, invalid_symbol, EngineCommand, EngineCommandKind, place_order,
  cancel_order, PlaceOrderCommand, CancelOrderCommand,
}
use exchange_engine.Core.Idempotency.{IdempotencyIndex}
use exchange_engine.Core.OrderBook.Place.{Outcome}
use exchange_engine.Core.OrderBook.Numbering.{
  Numbered, reject-Numbered, process_place-Numbered, process_cancel-Numbered,
}
use exchange_engine.Core.Engine.State.{EngineCore}
use exchange_engine.Core.Engine.Process.{
  Reply, refuse, refuse_recorded, after_book, process_place_command, process_cancel_command,
  refuse_malformed, process_kind, process,
}
use exchange_engine.Core.Engine.Cases.{place_command_cases, cancel_command_cases}

-- The engine's generator before and after, with the events in between.
abbrev pub NumberedReply : EngineCore → Reply → Type 0
NumberedReply e (e', events) = Numbered e.sequence_generator (events, e'.sequence_generator)

refuse-Numbered :
    (e : EngineCore) (command_id order_id user_id symbol_id : ℕ) (reason : RejectReason)
    → NumberedReply e (refuse e command_id order_id user_id symbol_id reason)
unfolding refuse
refuse-Numbered e command_id order_id user_id symbol_id reason =
    reject-Numbered e.sequence_generator command_id order_id user_id symbol_id reason

refuse_recorded-Numbered :
    (e : EngineCore) (command_id order_id user_id symbol_id : ℕ) (reason : RejectReason)
    → NumberedReply e (refuse_recorded e command_id order_id user_id symbol_id reason)
unfolding refuse_recorded
refuse_recorded-Numbered e command_id order_id user_id symbol_id reason =
    refuse-Numbered e command_id order_id user_id symbol_id reason

after_book-Numbered :
    (e : EngineCore) (symbol_id : ℕ) (index : IdempotencyIndex) (outcome : Outcome)
    → Numbered e.sequence_generator outcome.1
    → NumberedReply e (after_book e symbol_id index outcome)
unfolding after_book
after_book-Numbered e symbol_id index (book, (events, g)) n = n

place-Numbered :
    (e : EngineCore) (c : PlaceOrderCommand) → NumberedReply e (process_place_command e c)
place-Numbered e c =
    place_command_cases e c (NumberedReply e)
      (λ _. refuse-Numbered e c.command_id c.order_id c.user_id c.symbol_id duplicate_command)
      (refuse_recorded-Numbered e c.command_id c.order_id c.user_id c.symbol_id)
      (λ book.
        after_book-Numbered e c.symbol_id _ _ (process_place-Numbered book c e.sequence_generator))

cancel-Numbered :
    (e : EngineCore) (c : CancelOrderCommand) → NumberedReply e (process_cancel_command e c)
cancel-Numbered e c =
    cancel_command_cases e c (NumberedReply e)
      (λ _. refuse-Numbered e c.command_id c.order_id c.user_id c.symbol_id duplicate_command)
      (refuse_recorded-Numbered e c.command_id c.order_id c.user_id c.symbol_id)
      (λ book.
        after_book-Numbered e c.symbol_id _ _ (process_cancel-Numbered book c e.sequence_generator))

process_kind-Numbered :
    (e : EngineCore) (kind : EngineCommandKind) (place : Option PlaceOrderCommand)
    (cancel : Option CancelOrderCommand)
    → NumberedReply e (process_kind e kind place cancel)
unfolding process_kind refuse_malformed
process_kind-Numbered e place_order (some c) cancel = place-Numbered e c
process_kind-Numbered e place_order none cancel = refuse-Numbered e 0 0 0 0 invalid_symbol
process_kind-Numbered e cancel_order place (some c) = cancel-Numbered e c
process_kind-Numbered e cancel_order place none = refuse-Numbered e 0 0 0 0 invalid_symbol

-- Every command, well formed or not and whatever comes of it, is answered by events whose event ids
-- and sequences count up without a gap from the engine's counters to its new ones (modulo 2 ^ 64),
-- and whose trades do so in their trade ids.
pub process-Numbered :
    (e : EngineCore) (command : EngineCommand)
    → let (e', events) = process e command in
      Numbered e.sequence_generator (events, e'.sequence_generator)
unfolding process
process-Numbered e command = process_kind-Numbered e command.kind command.place command.cancel
