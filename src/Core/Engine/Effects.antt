-- ===== src/Core/Engine/Effects.antt =====
-- What a command changes in the engine besides the book of its symbol.
use exchange_engine.Base.{
  ◌⊎◌, ◌∙◌, Map, ℕ, ◌≡◌, refl, ap, some, List, arith, Bool, true, false, ◌≢◌, ◌==◌, if◌then◌else◌,
  lookup, insert, contains, lookup-insert,
}
use exchange_engine.Core.Types.{
  RejectReason, duplicate_command, EngineEvent, EngineCommand, place_order, cancel_order,
  PlaceOrderCommand, CancelOrderCommand,
}
use exchange_engine.Core.Sequence.{optional_order_id}
use exchange_engine.Core.Idempotency.{
  record_order_id, record_client_order_id, IdempotencyIndex, has_command, CommandResultSummary,
}
use exchange_engine.Core.OrderBook.Place.{Outcome, process_place}
use exchange_engine.Core.OrderBook.Cancel.{process_cancel}
use exchange_engine.Core.Engine.State.{
  rejected_reason, command_summary, EngineCore, get_order_book, has_event_order_accepted,
}
use exchange_engine.Core.Engine.Process.{
  Reply, refuse, refuse_recorded, after_book, process_place_command, process_cancel_command,
  record_place, record_cancel,
}
use exchange_engine.Core.Engine.Cases.{place_command_cases, cancel_command_cases}

-- The command is recorded under its id, in front of or in place of what was.
abbrev Records : EngineCore → ℕ → Reply → Type 0
Records e command_id reply =
    (summary : CommandResultSummary) × (reply.0.idempotency_index.processed_command_ids
      ≡ insert command_id summary e.idempotency_index.processed_command_ids)

-- No book is written but that of `symbol_id`, and no symbol's settings.
abbrev pub Confined : EngineCore → ℕ → Reply → Type 0
Confined e symbol_id reply =
    ((j : ℕ) → j ≢ symbol_id → get_order_book reply.0 j ≡ get_order_book e j)
    × (reply.0.symbol_configs ≡ e.symbol_configs)

contains-insert {ℓ} :
    {V : Type ℓ} (k j : ℕ) (v : V) (m : Map V)
    → contains j (insert k v m) ≡ (if k == j then true else contains j m)
contains-insert k j v m = rw (lookup-insert k j v m) (ground arith)

refuse-Confined :
    (e : EngineCore) (command_id order_id user_id symbol_id : ℕ) (reason : RejectReason) (home : ℕ)
    → Confined e home (refuse e command_id order_id user_id symbol_id reason)
unfolding refuse get_order_book
refuse-Confined e command_id order_id user_id symbol_id reason home = (λ j h. refl, refl)

refuse_recorded-Confined :
    (e : EngineCore) (command_id order_id user_id symbol_id : ℕ) (reason : RejectReason) (home : ℕ)
    → Confined e home (refuse_recorded e command_id order_id user_id symbol_id reason)
unfolding refuse_recorded refuse get_order_book
refuse_recorded-Confined e command_id order_id user_id symbol_id reason home = (λ j h. refl, refl)

refuse_recorded-Records :
    (e : EngineCore) (command_id order_id user_id symbol_id : ℕ) (reason : RejectReason)
    → Records e command_id (refuse_recorded e command_id order_id user_id symbol_id reason)
unfolding refuse_recorded refuse
refuse_recorded-Records e command_id order_id user_id symbol_id reason = (_, refl)

after_book-Confined :
    (e : EngineCore) (symbol_id : ℕ) (index : IdempotencyIndex) (outcome : Outcome)
    → Confined e symbol_id (after_book e symbol_id index outcome)
unfolding after_book get_order_book
after_book-Confined e symbol_id index (book, (events, g)) =
    (λ j h. lookup-insert symbol_id j book e.order_books ∙ other j h, refl)
  where
    other :
        (j : ℕ)
        → j ≢ symbol_id
        → (if symbol_id == j then some book else lookup j e.order_books) ≡ lookup j e.order_books
    other j h = ground arith

after_book-index :
    (e : EngineCore) (symbol_id : ℕ) (index : IdempotencyIndex) (outcome : Outcome)
    → (after_book e symbol_id index outcome).0.idempotency_index ≡ index
unfolding after_book
after_book-index e symbol_id index (book, (events, g)) = refl

record_place-insert :
    (index : IdempotencyIndex) (c : PlaceOrderCommand) (events : List EngineEvent)
    → (summary : CommandResultSummary) × ((record_place index c events).processed_command_ids
        ≡ insert c.command_id summary index.processed_command_ids)
record_place-insert index c events =
    let accepted = has_event_order_accepted events in
    let summary : CommandResultSummary =
      command_summary c.command_id accepted (optional_order_id c.order_id) (rejected_reason events)
        events in
    (summary, ap (insert c.command_id summary) (ids_only accepted))
  where
    ids_only :
        (b : Bool)
        → (if b
            then record_client_order_id
                (record_order_id index c.order_id)
                c.client_order_id
                c.order_id
            else index).processed_command_ids
          ≡ index.processed_command_ids
    ids_only true = refl
    ids_only false = refl

after_place-Records :
    (e : EngineCore) (c : PlaceOrderCommand) (outcome : Outcome)
    → Records e c.command_id
        (after_book e c.symbol_id (record_place e.idempotency_index c outcome.1.0) outcome)
after_place-Records e c outcome =
    let (summary, r) = record_place-insert e.idempotency_index c outcome.1.0 in
    (
      summary,
      ap (λ (i : IdempotencyIndex). i.processed_command_ids)
            (after_book-index e c.symbol_id (record_place e.idempotency_index c outcome.1.0)
              outcome)
          ∙ r,
    )

after_cancel-Records :
    (e : EngineCore) (c : CancelOrderCommand) (outcome : Outcome)
    → Records e c.command_id
        (after_book e c.symbol_id (record_cancel e.idempotency_index c outcome.1.0) outcome)
after_cancel-Records e c outcome = (
  _,
  ap (λ (i : IdempotencyIndex). i.processed_command_ids)
      (after_book-index e c.symbol_id (record_cancel e.idempotency_index c outcome.1.0) outcome),
)

-- A command that carries its content: its id, and the symbol that it is for.
abbrev pub Carries : EngineCommand → ℕ → ℕ → Type 0
Carries command command_id symbol_id =
    ((c : PlaceOrderCommand) × (command.kind ≡ place_order)
      × (command.place ≡ some c)
      × (c.command_id ≡ command_id)
      × (c.symbol_id ≡ symbol_id))
    ⊎ ((c : CancelOrderCommand) × (command.kind ≡ cancel_order)
        × (command.cancel ≡ some c)
        × (c.command_id ≡ command_id)
        × (c.symbol_id ≡ symbol_id))

pub place-Confined :
    (e : EngineCore) (c : PlaceOrderCommand) → Confined e c.symbol_id (process_place_command e c)
place-Confined e c =
    place_command_cases e c (Confined e c.symbol_id)
      (λ _. refuse-Confined e c.command_id c.order_id c.user_id c.symbol_id _ c.symbol_id)
      (λ reason.
        refuse_recorded-Confined e c.command_id c.order_id c.user_id c.symbol_id reason c.symbol_id)
      (λ book. after_book-Confined e c.symbol_id _ _)

pub cancel-Confined :
    (e : EngineCore) (c : CancelOrderCommand) → Confined e c.symbol_id (process_cancel_command e c)
cancel-Confined e c =
    cancel_command_cases e c (Confined e c.symbol_id)
      (λ _. refuse-Confined e c.command_id c.order_id c.user_id c.symbol_id _ c.symbol_id)
      (λ reason.
        refuse_recorded-Confined e c.command_id c.order_id c.user_id c.symbol_id reason c.symbol_id)
      (λ book. after_book-Confined e c.symbol_id _ _)

-- The id is known afterwards, and so is every id that was known.
abbrev pub Remembers : EngineCore → ℕ → Reply → Type 0
Remembers e command_id reply =
    (has_command reply.0.idempotency_index command_id ≡ true)
    × ((j : ℕ)
        → has_command e.idempotency_index j ≡ true
        → has_command reply.0.idempotency_index j ≡ true)

Records-Remembers :
    (e : EngineCore) (command_id : ℕ) (reply : Reply)
    → Records e command_id reply
    → Remembers e command_id reply
Records-Remembers e command_id reply (summary, r) = (
  rw (r, contains-insert command_id command_id summary e.idempotency_index.processed_command_ids)
      (ground arith),
  λ j h.
      rw (r, contains-insert command_id j summary e.idempotency_index.processed_command_ids)
        (ground (arith, h)),
)

refuse-Remembers :
    (e : EngineCore) (command_id order_id user_id symbol_id : ℕ) (reason : RejectReason)
    → has_command e.idempotency_index command_id ≡ true
    → Remembers e command_id (refuse e command_id order_id user_id symbol_id reason)
unfolding refuse
refuse-Remembers e command_id order_id user_id symbol_id reason h = (h, λ j k. k)

pub place-Remembers :
    (e : EngineCore) (c : PlaceOrderCommand) → Remembers e c.command_id (process_place_command e c)
place-Remembers e c =
    place_command_cases e c (Remembers e c.command_id)
      (refuse-Remembers e c.command_id c.order_id c.user_id c.symbol_id duplicate_command)
      (λ reason.
        Records-Remembers e c.command_id
          (refuse_recorded e c.command_id c.order_id c.user_id c.symbol_id reason)
          (refuse_recorded-Records e c.command_id c.order_id c.user_id c.symbol_id reason))
      (λ book. place_recorded (process_place book c e.sequence_generator))
  where
    place_recorded :
        (outcome : Outcome)
        → Remembers e c.command_id
            (after_book e c.symbol_id (record_place e.idempotency_index c outcome.1.0) outcome)
    place_recorded outcome =
        Records-Remembers e c.command_id
          (after_book e c.symbol_id (record_place e.idempotency_index c outcome.1.0) outcome)
          (after_place-Records e c outcome)

pub cancel-Remembers :
    (e : EngineCore) (c : CancelOrderCommand)
    → Remembers e c.command_id (process_cancel_command e c)
cancel-Remembers e c =
    cancel_command_cases e c (Remembers e c.command_id)
      (refuse-Remembers e c.command_id c.order_id c.user_id c.symbol_id duplicate_command)
      (λ reason.
        Records-Remembers e c.command_id
          (refuse_recorded e c.command_id c.order_id c.user_id c.symbol_id reason)
          (refuse_recorded-Records e c.command_id c.order_id c.user_id c.symbol_id reason))
      (λ book. cancel_recorded (process_cancel book c e.sequence_generator))
  where
    cancel_recorded :
        (outcome : Outcome)
        → Remembers e c.command_id
            (after_book e c.symbol_id (record_cancel e.idempotency_index c outcome.1.0) outcome)
    cancel_recorded outcome =
        Records-Remembers e c.command_id
          (after_book e c.symbol_id (record_cancel e.idempotency_index c outcome.1.0) outcome)
          (after_cancel-Records e c outcome)
