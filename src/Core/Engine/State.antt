-- ===== src/Core/Engine/State.antt =====
-- The state of the engine, its symbols and the summaries of processed commands.
use exchange_engine.Base.{
  ℕ, Bool, true, false, ◌||◌, Option, none, some, List, [], ◌∷◌, Map, lookup, insert, erase,
}
use exchange_engine.Core.Types.{
  event_sequence, RejectReason, SymbolConfig, EngineEvent, order_accepted, order_rejected,
  order_cancelled,
}
use exchange_engine.Core.Sequence.{SequenceGenerator, initial}
use exchange_engine.Core.Idempotency.{IdempotencyIndex, empty_index, CommandResultSummary}
use exchange_engine.Core.OrderBook.State.{OrderBook, init}

pub record EngineCore : Type 0 where
  pub order_books : Map OrderBook
  pub symbol_configs : Map SymbolConfig
  pub sequence_generator : SequenceGenerator
  pub idempotency_index : IdempotencyIndex

abbrev pub empty_engine : EngineCore
empty_engine = record {
  order_books = [];
  symbol_configs = [];
  sequence_generator = initial;
  idempotency_index = empty_index;
}

-- A book of the same symbol is dropped with its orders.
unfoldable pub add_symbol : EngineCore → SymbolConfig → EngineCore
add_symbol e c = record e {
  order_books = insert c.symbol_id (init c) (erase c.symbol_id e.order_books);
  symbol_configs = insert c.symbol_id c e.symbol_configs;
}

unfoldable pub get_order_book : EngineCore → ℕ → Option OrderBook
get_order_book e symbol_id = lookup symbol_id e.order_books

abbrev pub reason_of : EngineEvent → Option RejectReason
reason_of (order_rejected e s c o u y r) = some r
reason_of _ = none

abbrev pub is_accepted : EngineEvent → Bool
is_accepted (order_accepted e s o c u y side p q) = true
is_accepted _ = false

abbrev pub is_cancelled : EngineEvent → Bool
is_cancelled (order_cancelled e s o r) = true
is_cancelled _ = false

unfoldable pub rejected_reason : List EngineEvent → Option RejectReason
rejected_reason [] = none
rejected_reason (e ∷ es) = elim (reason_of e) [ none ↦ rejected_reason es | some r ↦ some r ]

unfoldable pub has_event_order_accepted : List EngineEvent → Bool
has_event_order_accepted [] = false
has_event_order_accepted (e ∷ es) = is_accepted e || has_event_order_accepted es

unfoldable pub has_event_order_cancelled : List EngineEvent → Bool
has_event_order_cancelled [] = false
has_event_order_cancelled (e ∷ es) = is_cancelled e || has_event_order_cancelled es

abbrev pub first_sequence : List EngineEvent → ℕ
first_sequence [] = 0
first_sequence (e ∷ es) = event_sequence e

abbrev pub command_summary :
    ℕ → Bool → Option ℕ → Option RejectReason → List EngineEvent → CommandResultSummary
command_summary command_id accepted order_id reject_reason events = record {
  command_id = command_id;
  accepted = accepted;
  order_id = order_id;
  reject_reason = reject_reason;
  sequence = first_sequence events;
}
