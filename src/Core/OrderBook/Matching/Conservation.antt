-- ===== src/Core/OrderBook/Matching/Conservation.antt =====
-- The lots that the matching loop moves.
use exchange_engine.Base.{
  ◌∙◌, ℕ, ◌+◌, ◌^◌, ◌<◌, ◌≡◌, refl, List, [], ◌∷◌, ◌++◌, arith, inl, inr, Bool-cases,
}
use exchange_engine.Core.FixedPoint.{Quantity}
use exchange_engine.Core.Types.{EngineEvent, trade_executed, Order, is_filled}
use exchange_engine.Core.SideBook.{Place}
use exchange_engine.Core.OrderBook.Log.{Log, push_event, push_trade, push_fill}
use exchange_engine.Core.OrderBook.Matching.{Matching, fill_maker, match_incoming_order}
use exchange_engine.Core.OrderBook.Matching.Round.{fill}
use exchange_engine.Core.OrderBook.Matching.Termination.{match_incoming_rule}

-- The lots that an event moves.
abbrev pub lots_of : EngineEvent → ℕ
lots_of (trade_executed e s t y m k p q) = q
lots_of _ = 0

abbrev pub traded_lots : List EngineEvent → ℕ
traded_lots [] = 0
traded_lots (e ∷ es) = lots_of e + traded_lots es

traded-snoc :
    (es : List EngineEvent) (e : EngineEvent)
    → traded_lots (es ++ (e ∷ [])) ≡ traded_lots es + lots_of e
traded-snoc [] e = omega arith
traded-snoc (x ∷ es) e = omega (arith, traded-snoc es e)

pub traded-push_event :
    (log : Log) (make : ℕ → ℕ → EngineEvent)
    → ((e s : ℕ) → lots_of (make e s) ≡ 0)
    → traded_lots (push_event log make).0 ≡ traded_lots log.0
unfolding push_event
traded-push_event (events, g) make h = omega (
  arith,
  traded-snoc events (make g.next_event_id g.next_sequence),
  h g.next_event_id g.next_sequence,
)

traded-push_trade :
    (log : Log) (make : ℕ → ℕ → ℕ → EngineEvent) (q : Quantity)
    → ((e s t : ℕ) → lots_of (make e s t) ≡ q)
    → traded_lots (push_trade log make).0 ≡ traded_lots log.0 + q
unfolding push_trade
traded-push_trade (events, g) make q h = omega (
  arith,
  traded-snoc events (make g.next_event_id g.next_sequence g.next_trade_id),
  h g.next_event_id g.next_sequence g.next_trade_id,
)

traded-push_fill : (log : Log) (o : Order) → traded_lots (push_fill log o).0 ≡ traded_lots log.0
unfolding push_fill
traded-push_fill log o = elim (Bool-cases (is_filled o)) [
  | inl e ↦ rw e (traded-push_event log _ (λ e s. refl))
  | inr e ↦ rw e (traded-push_event log _ (λ e s. refl))
]

traded-fill_maker :
    (m : Matching) (place : Place) (maker : Order)
    → traded_lots (fill_maker m place maker).log.0 ≡ traded_lots m.log.0 + fill m maker
unfolding fill_maker
traded-fill_maker m place maker =
    traded-push_event _ _ (λ e s. refl)
    ∙ (traded-push_fill _ _ ∙ (traded-push_fill _ _ ∙ traded-push_trade m.log _ _ (λ e s t. refl)))

left-fill_maker :
    (m : Matching) (place : Place) (maker : Order)
    → m.incoming.remaining_quantity < 2 ^ 64
    → (fill_maker m place maker).incoming.remaining_quantity + fill m maker
      ≡ m.incoming.remaining_quantity
unfolding fill_maker
left-fill_maker m place maker h = ground arith

-- The lots traded since `start`, with those left, are the lots that were there.
record Balanced (total : ℕ) (m : Matching) : Type 0 where
  sum : traded_lots m.log.0 + m.incoming.remaining_quantity ≡ total
  word : m.incoming.remaining_quantity < 2 ^ 64

fill_maker-Balanced :
    (total : ℕ) (m : Matching) (place : Place) (maker : Order)
    → Balanced total m
    → Balanced total (fill_maker m place maker)
fill_maker-Balanced total m place maker b = record {
  sum = omega (arith, traded-fill_maker m place maker, left-fill_maker m place maker b.word);
  word = omega (arith, left-fill_maker m place maker b.word);
}

-- For an incoming order below 2 ^ 64 lots: over the whole loop, the lots in the new trades make up
-- what the incoming order has lost, and what is left of it stays below 2 ^ 64.
pub match_incoming_balance :
    (m : Matching)
    → m.incoming.remaining_quantity < 2 ^ 64
    → let done = match_incoming_order m in
      (traded_lots done.log.0 + done.incoming.remaining_quantity
        ≡ traded_lots m.log.0 + m.incoming.remaining_quantity)
      × (done.incoming.remaining_quantity < 2 ^ 64)
match_incoming_balance m h =
    let total = traded_lots m.log.0 + m.incoming.remaining_quantity in
    let kept =
      match_incoming_rule (Balanced total)
        (λ k place maker b e. fill_maker-Balanced total k place maker b) m
        (record { sum = refl; word = h }) in
    (kept.0.sum, kept.0.word)
