-- ===== src/Core/Engine/Process.antt =====
-- `EngineCore::process`: the dispatch of a command to its book.
use exchange_engine.Base.{ℕ, false, Option, none, some, List, lookup, insert, if◌then◌else◌}
use exchange_engine.Core.Types.{
  RejectReason, duplicate_command, invalid_symbol, PlaceOrderCommand, CancelOrderCommand,
  EngineCommand, EngineCommandKind, place_order, cancel_order, EngineEvent, SymbolConfig,
}
use exchange_engine.Core.Sequence.{optional_order_id}
use exchange_engine.Core.Idempotency.{
  IdempotencyIndex, has_command, record_command, record_order_id, record_client_order_id,
}
use exchange_engine.Core.Validation.{validate_place_order, validate_cancel_order}
use exchange_engine.Core.OrderBook.State.{OrderBook}
use exchange_engine.Core.OrderBook.Log.{reject}
use exchange_engine.Core.OrderBook.Place.{Outcome, process_place}
use exchange_engine.Core.OrderBook.Cancel.{process_cancel}
use exchange_engine.Core.Engine.State.{
  EngineCore, rejected_reason, has_event_order_accepted, has_event_order_cancelled, command_summary,
}

abbrev pub Reply : Type 0
Reply = EngineCore × List EngineEvent

-- One rejection, not recorded: a command id that was processed before.
unfoldable pub refuse :
    EngineCore → (command_id order_id user_id symbol_id : ℕ) → RejectReason → Reply
refuse e command_id order_id user_id symbol_id reason =
    let (events, g) = reject e.sequence_generator command_id order_id user_id symbol_id reason in
    (record e { sequence_generator = g }, events)

-- One rejection that is recorded under its command id.
unfoldable pub refuse_recorded :
    EngineCore → (command_id order_id user_id symbol_id : ℕ) → RejectReason → Reply
refuse_recorded e command_id order_id user_id symbol_id reason =
    let (e', events) = refuse e command_id order_id user_id symbol_id reason in
    (
      record e' {
        idempotency_index =
            record_command e'.idempotency_index command_id
              (command_summary command_id false (optional_order_id order_id) (some reason) events);
      },
      events,
    )

-- The index after a place command that reached its book.
abbrev pub record_place : IdempotencyIndex → PlaceOrderCommand → List EngineEvent → IdempotencyIndex
record_place index c events =
    let accepted = has_event_order_accepted events in
    let with_ids =
      if accepted
      then record_client_order_id (record_order_id index c.order_id) c.client_order_id c.order_id
      else index in
    record_command with_ids c.command_id (
      command_summary c.command_id accepted (optional_order_id c.order_id) (rejected_reason events)
        events)

abbrev pub record_cancel :
    IdempotencyIndex → CancelOrderCommand → List EngineEvent → IdempotencyIndex
record_cancel index c events = record_command index c.command_id (
    command_summary c.command_id (has_event_order_cancelled events) (optional_order_id c.order_id)
      (rejected_reason events) events)

-- The engine after its book of `symbol_id` returned an outcome; `bookIt->second` is written in place.
unfoldable pub after_book : EngineCore → ℕ → IdempotencyIndex → Outcome → Reply
after_book e symbol_id index (book, (events, g)) = (
  record e {
    order_books = insert symbol_id book e.order_books;
    sequence_generator = g;
    idempotency_index = index;
  },
  events,
)

-- A validation has a reason exactly when it is not valid.
unfoldable pub place_in : EngineCore → PlaceOrderCommand → SymbolConfig → OrderBook → Reply
place_in e c config book =
    let validation = validate_place_order c config e.idempotency_index in
    elim validation.reason [
      | some reason ↦ refuse_recorded e c.command_id c.order_id c.user_id c.symbol_id reason
      | none ↦
          let outcome = process_place book c e.sequence_generator in
          after_book e c.symbol_id (record_place e.idempotency_index c outcome.1.0) outcome
    ]

unfoldable pub cancel_in : EngineCore → CancelOrderCommand → OrderBook → Reply
cancel_in e c book =
    let outcome = process_cancel book c e.sequence_generator in
    after_book e c.symbol_id (record_cancel e.idempotency_index c outcome.1.0) outcome

unfoldable pub process_place_command : EngineCore → PlaceOrderCommand → Reply
process_place_command e c =
    if has_command e.idempotency_index c.command_id
    then refuse e c.command_id c.order_id c.user_id c.symbol_id duplicate_command
    else elim (lookup c.symbol_id e.symbol_configs) [
      | none ↦ refuse_recorded e c.command_id c.order_id c.user_id c.symbol_id invalid_symbol
      | some config ↦ elim (lookup c.symbol_id e.order_books) [
        | none ↦ refuse_recorded e c.command_id c.order_id c.user_id c.symbol_id invalid_symbol
        | some book ↦ place_in e c config book
      ]
    ]

-- `validate_cancel_order` accepts every command.
unfoldable pub process_cancel_command : EngineCore → CancelOrderCommand → Reply
process_cancel_command e c =
    if has_command e.idempotency_index c.command_id
    then refuse e c.command_id c.order_id c.user_id c.symbol_id duplicate_command
    else elim (lookup c.symbol_id e.symbol_configs) [
      | none ↦ refuse_recorded e c.command_id c.order_id c.user_id c.symbol_id invalid_symbol
      | some config ↦ elim (lookup c.symbol_id e.order_books) [
        | none ↦ refuse_recorded e c.command_id c.order_id c.user_id c.symbol_id invalid_symbol
        | some book ↦ elim (validate_cancel_order c config).reason [
          | some reason ↦ refuse_recorded e c.command_id c.order_id c.user_id c.symbol_id reason
          | none ↦ cancel_in e c book
        ]
      ]
    ]

-- A command whose kind and content do not match. Its order id is absent: `optional_order_id 0`.
unfoldable pub refuse_malformed : EngineCore → Reply
refuse_malformed e = refuse e 0 0 0 0 invalid_symbol

unfoldable pub process_kind :
    EngineCore → EngineCommandKind → Option PlaceOrderCommand → Option CancelOrderCommand → Reply
process_kind e place_order (some c) cancel = process_place_command e c
process_kind e place_order none cancel = refuse_malformed e
process_kind e cancel_order place (some c) = process_cancel_command e c
process_kind e cancel_order place none = refuse_malformed e

unfoldable pub process : EngineCore → EngineCommand → Reply
process e command = process_kind e command.kind command.place command.cancel
