-- ===== src/Core/Sequence.antt =====
-- include/core/SequenceGenerator.hpp and src/core/SequenceGenerator.cpp, and the constructor of
-- events that the engine and the book share. The counters are uint64_t and wrap.
use exchange_engine.Base.{ℕ, ◌+◌, ◌%◌, ◌^◌, Option, none, some, ◌==◌, if◌then◌else◌}
use exchange_engine.Core.Types.{EngineEvent, order_rejected, RejectReason}

pub record SequenceState : Type 0 where
  pub next_sequence : ℕ
  pub next_trade_id : ℕ
  pub next_event_id : ℕ

-- The generator has the fields of its snapshot.
abbrev pub SequenceGenerator : Type 0
SequenceGenerator = SequenceState

abbrev pub initial : SequenceGenerator
initial = record { next_sequence = 1; next_trade_id = 1; next_event_id = 1 }

abbrev pub increment : ℕ → ℕ
increment n = (n + 1) % 2 ^ 64

-- `next_sequence()`, `next_trade_id()` and `next_event_id()`: the counter before, and the generator
-- after.
unfoldable pub take_sequence : SequenceGenerator → ℕ × SequenceGenerator
take_sequence g = (g.next_sequence, record g { next_sequence = increment g.next_sequence })

unfoldable pub take_trade_id : SequenceGenerator → ℕ × SequenceGenerator
take_trade_id g = (g.next_trade_id, record g { next_trade_id = increment g.next_trade_id })

unfoldable pub take_event_id : SequenceGenerator → ℕ × SequenceGenerator
take_event_id g = (g.next_event_id, record g { next_event_id = increment g.next_event_id })

abbrev pub snapshot : SequenceGenerator → SequenceState
snapshot g = g

abbrev pub restore : SequenceGenerator → SequenceState → SequenceGenerator
restore g s = record {
  next_sequence = s.next_sequence;
  next_trade_id = s.next_trade_id;
  next_event_id = s.next_event_id;
}

-- An event that takes an event id, then a sequence: the order in which the braced initialisers of
-- the source are evaluated.
unfoldable pub stamp : SequenceGenerator → (ℕ → ℕ → EngineEvent) → EngineEvent × SequenceGenerator
unfolding take_event_id take_sequence
stamp g make =
    let (event_id, g1) = take_event_id g in
    let (sequence, g2) = take_sequence g1 in (make event_id sequence, g2)

unfoldable pub optional_order_id : ℕ → Option ℕ
optional_order_id order_id = if order_id == 0 then none else some order_id

unfoldable pub make_rejection :
    SequenceGenerator → ℕ → Option ℕ → ℕ → ℕ → RejectReason → EngineEvent × SequenceGenerator
unfolding stamp
make_rejection g command_id order_id user_id symbol_id reason =
    stamp g (λ e s. order_rejected e s command_id order_id user_id symbol_id reason)
