-- ===== src/Core/Tests/Commands.antt =====
-- The engine.
use exchange_engine.Base.{ℕ, ◌≡◌, refl, inl, true, false, none, some, [], ◌∷◌, arith}
use exchange_engine.Base.Maps.{lookup}
use exchange_engine.Core.Types.{limit, gtc, EngineCommand, place_order}
use exchange_engine.Core.Sequence.{initial}
use exchange_engine.Core.Idempotency.{empty_index, has_command}
use exchange_engine.Core.OrderBook.Numbering.{Numbered}
use exchange_engine.Core.Engine.State.{EngineCore, get_order_book}
use exchange_engine.Core.Engine.Process.{process}
use exchange_engine.Core.Engine.Numbering.{process-Numbered}
use exchange_engine.Core.Engine.Effects.{Carries}
use exchange_engine.Core.Engine.Once.{
  RefusesDuplicate, process_confined, process_remembers, process_known,
}
use exchange_engine.Core.Tests.{book, bid, config}

-- Command 4 was processed before.
abbrev engine : EngineCore
engine = record {
  order_books = (1, book) ∷ (2, book) ∷ [];
  symbol_configs = (1, config) ∷ [];
  sequence_generator = initial;
  idempotency_index = record empty_index {
    processed_command_ids =
        (
          4,
          record {
            command_id = 4;
            accepted = false;
            order_id = none;
            reject_reason = none;
            sequence = 0;
          },
        )
        ∷ [];
  };
}

abbrev command : ℕ → EngineCommand
command id = record { kind = place_order; place = some (bid id limit gtc 100); cancel = none }

abbrev carries : (id : ℕ) → Carries (command id) id 1
carries id = inl (bid id limit gtc 100, refl, refl, refl, refl)

process_known_example : RefusesDuplicate engine 4 (process engine (command 4))
unfolding lookup
process_known_example = process_known engine (command 4) 4 1 (carries 4) refl

process_confined_example :
    (get_order_book (process engine (command 5)).0 2 ≡ get_order_book engine 2)
    × ((process engine (command 5)).0.symbol_configs ≡ engine.symbol_configs)
    × (has_command (process engine (command 5)).0.idempotency_index 5 ≡ true)
process_confined_example =
    process_confined engine (command 5) 5 1 2 (carries 5) (λ e. absurd (omega (arith, e)))

process_remembers_example : has_command (process engine (command 5)).0.idempotency_index 4 ≡ true
unfolding lookup
process_remembers_example = process_remembers engine (command 5) 5 1 4 (carries 5) refl

process-Numbered_example :
    Numbered engine.sequence_generator
      ((process engine (command 5)).1, (process engine (command 5)).0.sequence_generator)
process-Numbered_example = process-Numbered engine (command 5)
