-- ===== src/Core/Engine/Once.antt =====
-- Commands with a known id, and what a command leaves alone.
use exchange_engine.Base.{ℕ, ◌≡◌, refl, Option, some, [], ◌∷◌, inl, inr, true, ◌≢◌}
use exchange_engine.Core.Types.{
  order_rejected, duplicate_command, EngineCommand, place_order, cancel_order, PlaceOrderCommand,
  CancelOrderCommand,
}
use exchange_engine.Core.Sequence.{optional_order_id, make_rejection}
use exchange_engine.Core.Idempotency.{has_command}
use exchange_engine.Core.OrderBook.Log.{reject}
use exchange_engine.Core.Engine.State.{EngineCore, get_order_book}
use exchange_engine.Core.Engine.Process.{
  Reply, refuse, process_place_command, process_cancel_command, process_kind, process,
}
use exchange_engine.Core.Engine.Effects.{
  Confined, Carries, place-Confined, cancel-Confined, Remembers, place-Remembers, cancel-Remembers,
}

-- One rejection for a repeated id: nothing changes but the counters that number the rejection.
abbrev pub RefusesDuplicate : EngineCore → ℕ → Reply → Type 0
RefusesDuplicate e command_id (e', events) =
    (e'.order_books ≡ e.order_books)
    × (e'.symbol_configs ≡ e.symbol_configs)
    × (e'.idempotency_index ≡ e.idempotency_index)
    × ((order_id : Option ℕ) × (user_id : ℕ) × (symbol_id : ℕ) × (events
          ≡ order_rejected e.sequence_generator.next_event_id e.sequence_generator.next_sequence
              command_id order_id user_id symbol_id duplicate_command
            ∷ []))

refuse-RefusesDuplicate :
    (e : EngineCore) (command_id order_id user_id symbol_id : ℕ)
    → RefusesDuplicate e command_id
        (refuse e command_id order_id user_id symbol_id duplicate_command)
unfolding refuse reject make_rejection
refuse-RefusesDuplicate e command_id order_id user_id symbol_id =
    (refl, refl, refl, (optional_order_id order_id, user_id, symbol_id, refl))

place_known :
    (e : EngineCore) (c : PlaceOrderCommand)
    → has_command e.idempotency_index c.command_id ≡ true
    → RefusesDuplicate e c.command_id (process_place_command e c)
unfolding process_place_command
place_known e c h = rw h (refuse-RefusesDuplicate e c.command_id c.order_id c.user_id c.symbol_id)

cancel_known :
    (e : EngineCore) (c : CancelOrderCommand)
    → has_command e.idempotency_index c.command_id ≡ true
    → RefusesDuplicate e c.command_id (process_cancel_command e c)
unfolding process_cancel_command
cancel_known e c h = rw h (refuse-RefusesDuplicate e c.command_id c.order_id c.user_id c.symbol_id)

process-place :
    (e : EngineCore) (command : EngineCommand) (c : PlaceOrderCommand)
    → command.kind ≡ place_order
    → command.place ≡ some c
    → process e command ≡ process_place_command e c
unfolding process process_kind
process-place e command c k p = rw (k, p)

process-cancel :
    (e : EngineCore) (command : EngineCommand) (c : CancelOrderCommand)
    → command.kind ≡ cancel_order
    → command.cancel ≡ some c
    → process e command ≡ process_cancel_command e c
unfolding process process_kind
process-cancel e command c k p = rw (k, p)

Confined-Remembers :
    (e : EngineCore) (command : EngineCommand) (command_id symbol_id : ℕ)
    → Carries command command_id symbol_id
    → Confined e symbol_id (process e command) × Remembers e command_id (process e command)
Confined-Remembers e command command_id symbol_id (inl (c, k, p, i, y)) =
    rw (process-place e command c k p, ← i, ← y) (place-Confined e c, place-Remembers e c)
Confined-Remembers e command command_id symbol_id (inr (c, k, p, i, y)) =
    rw (process-cancel e command c k p, ← i, ← y) (cancel-Confined e c, cancel-Remembers e c)

-- A command whose kind and content match changes neither the book of another symbol nor a symbol's settings, and afterwards its id
-- is known.
pub process_confined :
    (e : EngineCore) (command : EngineCommand) (command_id symbol_id other : ℕ)
    → Carries command command_id symbol_id
    → other ≢ symbol_id
    → (get_order_book (process e command).0 other ≡ get_order_book e other)
      × ((process e command).0.symbol_configs ≡ e.symbol_configs)
      × (has_command (process e command).0.idempotency_index command_id ≡ true)
process_confined e command command_id symbol_id other h n =
    let (confined, known) = Confined-Remembers e command command_id symbol_id h in
    (confined.0 other n, confined.1, known.0)

-- No command whose kind and content match makes the engine forget the id of another.
pub process_remembers :
    (e : EngineCore) (command : EngineCommand) (command_id symbol_id known : ℕ)
    → Carries command command_id symbol_id
    → has_command e.idempotency_index known ≡ true
    → has_command (process e command).0.idempotency_index known ≡ true
process_remembers e command command_id symbol_id known h n =
    (Confined-Remembers e command command_id symbol_id h).1.1 known n

-- A command whose kind and content match and whose id is known, be it a repetition or another command that reuses the id, is answered
-- by one DuplicateCommand rejection, and changes neither a book nor the settings nor the index.
pub process_known :
    (e : EngineCore) (command : EngineCommand) (command_id symbol_id : ℕ)
    → Carries command command_id symbol_id
    → has_command e.idempotency_index command_id ≡ true
    → RefusesDuplicate e command_id (process e command)
process_known e command command_id symbol_id (inl (c, k, p, i, y)) h =
    rw (process-place e command c k p, ← i) (place_known e c (rw i h))
process_known e command command_id symbol_id (inr (c, k, p, i, y)) h =
    rw (process-cancel e command c k p, ← i) (cancel_known e c (rw i h))
