-- ===== src/Core/OrderBook/Matching/Prices.antt =====
-- The prices of trades against the limit of the incoming order.
use exchange_engine.Base.{
  ◌∙◌, ◌==◌, ℕ, ◌≡◌, refl, sym, ap, subst, List, [], ◌∷◌, ◌++◌, arith, inl, inr, true, Bool-cases,
  some,
}
use exchange_engine.Core.FixedPoint.{Price, Quantity}
use exchange_engine.Core.Types.{Side, EngineEvent, trade_executed, Order, reduce, is_filled}
use exchange_engine.Core.Level.{PriceLevel, unlink}
use exchange_engine.Core.SideBook.{
  SideBook, Place, level_at, best_level, best_order, price_crosses, price_at, update, take_out,
}
use exchange_engine.Core.SideBook.Sides.{side-remove_order, side-update, side-update_after}
use exchange_engine.Core.SideBook.Every.{
  Every, Every-level_at, Every-update, Every-update_after, Every-remove_order,
}
use exchange_engine.Core.OrderBook.State.{OrderBook, opposing_book, opposite_side}
use exchange_engine.Core.OrderBook.Liquidity.{crosses_level}
use exchange_engine.Core.OrderBook.Log.{Log, push_event, push_trade, push_fill}
use exchange_engine.Core.OrderBook.Matching.{
  Matching, fill_maker, fill_front, reduce_first, match_incoming_order, next_maker,
}
use exchange_engine.Core.OrderBook.Matching.Round.{
  opposing-fill_maker, incoming-fill_maker, fill, settled, best_order-front, next_maker-best,
}
use exchange_engine.Core.OrderBook.Matching.Termination.{match_incoming_rule}

-- Every order of a level rests at the level's price.
abbrev pub AtPrice : Price → List Order → Type 0
AtPrice p [] = Unit {0}
AtPrice p (o ∷ os) = (o.price ≡ p) × AtPrice p os

abbrev pub Priced : PriceLevel → Type 0
Priced v = AtPrice v.price v.orders

-- The trades of a log are at prices that an order of the side with the limit accepts.
abbrev pub WithinLimit : Side → Price → List EngineEvent → Type 0
WithinLimit side limit [] = Unit {0}
WithinLimit side limit (trade_executed e s t y m k p q ∷ es) =
    (crosses_level (opposite_side side) limit p ≡ true) × WithinLimit side limit es
WithinLimit side limit (e ∷ es) = WithinLimit side limit es

reduce_first-AtPrice :
    (p : Price) (q : Quantity) (os : List Order) → AtPrice p os → AtPrice p (reduce_first q os)
reduce_first-AtPrice p q [] h = tt
reduce_first-AtPrice p q (o ∷ os) h = h

unlink-AtPrice : (p : Price) (id : ℕ) (os : List Order) → AtPrice p os → AtPrice p (unlink id os)
unfolding unlink
unlink-AtPrice p id [] h = tt
unlink-AtPrice p id (o ∷ os) h = elim (Bool-cases (o.order_id == id)) [
  | inl e ↦ rw e (h.1)
  | inr e ↦ rw e (h.0, unlink-AtPrice p id os h.1)
]

fill_front-Priced : (q : Quantity) (v : PriceLevel) → Priced v → Priced (fill_front q v)
unfolding fill_front
fill_front-Priced q v h = reduce_first-AtPrice v.price q v.orders h

pub take_out-Priced : (id : ℕ) (v : PriceLevel) (q : Quantity) → Priced v → Priced (take_out id q v)
take_out-Priced id v q h = unlink-AtPrice v.price id v.orders h

WithinLimit-snoc :
    (side : Side) (limit : Price) (es : List EngineEvent) (e : EngineEvent)
    → WithinLimit side limit es
    → WithinLimit side limit (e ∷ [])
    → WithinLimit side limit (es ++ (e ∷ []))
WithinLimit-snoc side limit [] e h k = k
WithinLimit-snoc side limit (trade_executed _ _ _ _ _ _ _ _ ∷ es) e h k =
    (h.0, WithinLimit-snoc side limit es e h.1 k)
WithinLimit-snoc side limit (x ∷ es) e h k = WithinLimit-snoc side limit es e h k

WithinLimit-push_event :
    (side : Side) (limit : Price) (log : Log) (make : ℕ → ℕ → EngineEvent)
    → ((e s : ℕ) → WithinLimit side limit (make e s ∷ []))
    → WithinLimit side limit log.0
    → WithinLimit side limit (push_event log make).0
unfolding push_event
WithinLimit-push_event side limit (events, g) make k h =
    WithinLimit-snoc side limit events (make g.next_event_id g.next_sequence) h
      (k g.next_event_id g.next_sequence)

WithinLimit-push_trade :
    (side : Side) (limit : Price) (log : Log) (make : ℕ → ℕ → ℕ → EngineEvent)
    → ((e s t : ℕ) → WithinLimit side limit (make e s t ∷ []))
    → WithinLimit side limit log.0
    → WithinLimit side limit (push_trade log make).0
unfolding push_trade
WithinLimit-push_trade side limit (events, g) make k h =
    WithinLimit-snoc side limit events (make g.next_event_id g.next_sequence g.next_trade_id) h
      (k g.next_event_id g.next_sequence g.next_trade_id)

WithinLimit-push_fill :
    (side : Side) (limit : Price) (log : Log) (o : Order)
    → WithinLimit side limit log.0
    → WithinLimit side limit (push_fill log o).0
unfolding push_fill
WithinLimit-push_fill side limit log o h = elim (Bool-cases (is_filled o)) [
  | inl e ↦ rw e (WithinLimit-push_event side limit log _ (λ e s. tt) h)
  | inr e ↦ rw e (WithinLimit-push_event side limit log _ (λ e s. tt) h)
]

next_maker-crosses :
    (b : OrderBook) (incoming : Order) (place : Place) (o : Order)
    → next_maker b incoming ≡ some (place, o)
    → price_crosses (opposing_book b incoming.side) incoming.price ≡ true
unfolding next_maker
next_maker-crosses b incoming place o e = ground arith

best_order-best_level :
    (s : SideBook) (place : Place) (o : Order)
    → best_order s ≡ some (place, o)
    → best_level s ≡ some place
unfolding best_order
best_order-best_level s place o e = ground arith

price_crosses-best :
    (s : SideBook) (place : Place) (incoming : Price)
    → best_level s ≡ some place
    → price_crosses s incoming ≡ crosses_level s.side incoming (price_at s place)
unfolding price_crosses
price_crosses-best s place incoming e = rw (e, price_crosses)

front-AtPrice :
    (v : PriceLevel) (o : Order) (rest : List Order)
    → v.orders ≡ o ∷ rest
    → Priced v
    → o.price ≡ v.price
front-AtPrice v o rest e h = (subst (AtPrice v.price) e h).0

price_at-level :
    (s : SideBook) (place : Place) (v : PriceLevel)
    → level_at s place ≡ some v
    → price_at s place ≡ v.price
unfolding price_at
price_at-level s place v e = rw (e, price_at)

-- What the loop keeps: the terms of the incoming order, the other side's levels, the log's trades.
record Fair (side : Side) (limit : Price) (m : Matching) : Type 0 where
  own_side : m.incoming.side ≡ side
  own_limit : m.incoming.price ≡ limit
  other_side : (opposing_book m.book m.incoming.side).side ≡ opposite_side side
  priced : Every Priced (opposing_book m.book m.incoming.side)
  within : WithinLimit side limit m.log.0

settled-Priced :
    (s : SideBook) (place : Place) (left : Order)
    → Every Priced s
    → Every Priced (settled s place left)
settled-Priced s place left h = elim (Bool-cases (is_filled left)) [
  | inl e ↦ rw e (Every-remove_order Priced s place left.order_id (take_out-Priced left.order_id) h)
  | inr e ↦ rw e (Every-update_after Priced s place h)
]

settled-side : (s : SideBook) (place : Place) (left : Order) → (settled s place left).side ≡ s.side
settled-side s place left = elim (Bool-cases (is_filled left)) [
  | inl e ↦ rw e (side-remove_order s place left.order_id)
  | inr e ↦ rw e (side-update_after s place)
]

-- The maker's price crosses the limit.
maker_crosses :
    (b : OrderBook) (incoming : Order) (place : Place) (o : Order)
    → next_maker b incoming ≡ some (place, o)
    → Every Priced (opposing_book b incoming.side)
    → crosses_level (opposing_book b incoming.side).side incoming.price o.price ≡ true
maker_crosses b incoming place o e h =
    let s = opposing_book b incoming.side in
    let best = next_maker-best b incoming place o e in
    let (v, rest, there, front) = best_order-front s place o best in
    let same : o.price ≡ price_at s place =
      front-AtPrice v o rest front (Every-level_at Priced s place v h there)
      ∙ sym (price_at-level s place v there) in
    subst (λ (p : Price). crosses_level s.side incoming.price p ≡ true) (sym same)
      (sym (price_crosses-best s place incoming.price (best_order-best_level s place o best))
        ∙ next_maker-crosses b incoming place o e)

fill_maker-Within :
    (side : Side) (limit : Price) (m : Matching) (place : Place) (maker : Order)
    → crosses_level (opposite_side side) limit maker.price ≡ true
    → WithinLimit side limit m.log.0
    → WithinLimit side limit (fill_maker m place maker).log.0
unfolding fill_maker
fill_maker-Within side limit m place maker c h =
    WithinLimit-push_event side limit _ _ (λ e s. tt)
      (WithinLimit-push_fill side limit _ _ (
        WithinLimit-push_fill side limit _ _
          (WithinLimit-push_trade side limit m.log _ (λ e s t. (c, tt)) h)))

fill_maker-Fair :
    (side : Side) (limit : Price) (m : Matching) (place : Place) (maker : Order)
    → Fair side limit m
    → next_maker m.book m.incoming ≡ some (place, maker)
    → Fair side limit (fill_maker m place maker)
fill_maker-Fair side limit m place maker f e = record {
  own_side = ap (λ (o : Order). o.side) (incoming-fill_maker m place maker) ∙ f.own_side;
  own_limit = ap (λ (o : Order). o.price) (incoming-fill_maker m place maker) ∙ f.own_limit;
  other_side =
      ap (λ (t : SideBook). t.side) (opposing-fill_maker m place maker)
      ∙ (settled-side filled place left ∙ (side-update s place (fill_front q) ∙ f.other_side));
  priced = subst (Every Priced) (sym (opposing-fill_maker m place maker)) (
      settled-Priced filled place left
        (Every-update Priced s place (fill_front q) (λ v _. fill_front-Priced q v) f.priced));
  within = fill_maker-Within side limit m place maker crosses f.within;
}
  where
    s : SideBook
    s = opposing_book m.book m.incoming.side

    q : Quantity
    q = fill m maker

    filled : SideBook
    filled = update s place (fill_front q)

    left : Order
    left = reduce maker q

    crosses : crosses_level (opposite_side side) limit maker.price ≡ true
    crosses =
        subst (λ (p : Price). crosses_level (opposite_side side) p maker.price ≡ true) f.own_limit
          (subst (λ (t : Side). crosses_level t m.incoming.price maker.price ≡ true) f.other_side
            (maker_crosses m.book m.incoming place maker e f.priced))

-- Where the other side's book is of the other side, its orders rest at the price of their level, and
-- the trades so far are within the limit: every trade that the loop adds is at a price that the limit of the incoming order accepts: at most
-- the limit for a buy, at least for a sell. Afterwards the other side's orders still rest at the
-- price of their level.
pub match_incoming_prices :
    (m : Matching)
    → (opposing_book m.book m.incoming.side).side ≡ opposite_side m.incoming.side
    → Every Priced (opposing_book m.book m.incoming.side)
    → WithinLimit m.incoming.side m.incoming.price m.log.0
    → let done = match_incoming_order m in
      WithinLimit m.incoming.side m.incoming.price done.log.0
      × Every Priced (opposing_book done.book done.incoming.side)
match_incoming_prices m other priced within =
    let kept =
      match_incoming_rule (Fair m.incoming.side m.incoming.price)
        (λ k place maker f e. fill_maker-Fair m.incoming.side m.incoming.price k place maker f e) m
        (record {
          own_side = refl;
          own_limit = refl;
          other_side = other;
          priced = priced;
          within = within;
        }) in
    (kept.0.within, kept.0.priced)
