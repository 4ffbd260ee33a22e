-- ===== src/Core/OrderBook/Matching/Termination.antt =====
-- Termination of `match_incoming_order`, by a measure of its variables.
use exchange_engine.Base.{
  some_inv, subst, ℕ, zero, suc, ◌+◌, ◌≤◌, ◌<◌, ◌≡◌, ap₂, true, false, none, some, List, ◌∷◌, arith,
  inl, inr, ◌⊎◌, Option-cases, Bool-cases,
}
use exchange_engine.Core.FixedPoint.{Quantity, subtract_lots}
use exchange_engine.Core.Types.{Order, reduce, is_filled}
use exchange_engine.Core.Level.{PriceLevel}
use exchange_engine.Core.SideBook.{SideBook, Place, level_at, update, resting_count}
use exchange_engine.Core.OrderBook.State.{OrderBook, opposing_book}
use exchange_engine.Core.OrderBook.Matching.{
  Matching, next_maker, fill_maker, fill_front, match_loop, match_fuel, match_incoming_order,
}
use exchange_engine.Core.OrderBook.Matching.Round.{
  best_order-front, next_maker-best, settled, settled_le, settled_lt, pending, measure, fill,
  one_filled, opposing-fill_maker, incoming-fill_maker,
}

next_maker-open :
    (b : OrderBook) (incoming : Order) (place : Place) (o : Order)
    → next_maker b incoming ≡ some (place, o)
    → is_filled incoming ≡ false
unfolding next_maker
next_maker-open b incoming place o e = ground arith

measure_after :
    (m : Matching) (place : Place) (maker : Order)
    → measure (fill_maker m place maker)
      ≡ resting_count (
          settled
            (update (opposing_book m.book m.incoming.side) place (fill_front (fill m maker)))
            place
            (reduce maker (fill m maker)))
        + pending (reduce m.incoming (fill m maker))
unfolding measure
measure_after m place maker =
    ap₂ (λ (s : SideBook) (o : Order). resting_count s + pending o)
      (opposing-fill_maker m place maker) (incoming-fill_maker m place maker)

pending_zero : (o : Order) → o.remaining_quantity ≡ 0 → pending o ≡ 1
pending_zero o e = ground arith

pending_open : (o : Order) → is_filled o ≡ false → pending o ≡ 2
pending_open o e = rw e

pending_le : (o : Order) → pending o ≤ 2
pending_le o = ground arith

filled_zero : (o : Order) → o.remaining_quantity ≡ 0 → is_filled o ≡ true
filled_zero o e = ground arith

measure-fill_maker :
    (m : Matching) (place : Place) (maker : Order)
    → next_maker m.book m.incoming ≡ some (place, maker)
    → measure (fill_maker m place maker) < measure m
unfolding measure
measure-fill_maker m place maker e = rw (measure_after m place maker) (elim halves [
  | inl taken ↦ omega (
    arith,
    settled_le s place v maker rest q there front,
    pending_zero (reduce m.incoming q) taken,
    pending_open m.incoming open_now,
  )
  | inr given ↦ omega (
    arith,
    settled_lt s place v maker rest q there front (filled_zero (reduce maker q) given),
    pending_le (reduce m.incoming q),
    pending_open m.incoming open_now,
  )
])
  where
    s : SideBook
    s = opposing_book m.book m.incoming.side

    q : Quantity
    q = fill m maker

    found :
        (v : PriceLevel) × (rest : List Order) × (level_at s place ≡ some v)
        × (v.orders ≡ maker ∷ rest)
    found = best_order-front s place maker (next_maker-best m.book m.incoming place maker e)

    v : PriceLevel
    v = found.0

    rest : List Order
    rest = found.1

    there : level_at s place ≡ some v
    there = found.2

    front : v.orders ≡ maker ∷ rest
    front = found.3

    open_now : is_filled m.incoming ≡ false
    open_now = next_maker-open m.book m.incoming place maker e

    halves :
        (subtract_lots m.incoming.remaining_quantity q ≡ 0)
        ⊎ (subtract_lots maker.remaining_quantity q ≡ 0)
    halves = one_filled m.incoming.remaining_quantity maker.remaining_quantity

measure_pos : (m : Matching) → 1 ≤ measure m
unfolding measure
measure_pos m = elim (Bool-cases (is_filled m.incoming)) [
  | inl full ↦ rw full (omega arith)
  | inr more ↦ rw more (omega arith)
]

match_loop_total :
    (fuel : ℕ) (m : Matching)
    → measure m ≤ fuel
    → (done : Matching) × (match_loop fuel m ≡ some done)
unfolding match_loop
match_loop_total zero m h = absurd (omega (arith, measure_pos m))
match_loop_total (suc fuel) m h = elim (Option-cases (next_maker m.book m.incoming)) [
  | inl stop ↦ (m, rw (stop, match_loop))
  | inr ((place, maker), go) ↦
      rw (go, match_loop)
        (match_loop_total fuel (fill_maker m place maker)
          (omega (arith, measure-fill_maker m place maker go)))
]

measure_fuel : (m : Matching) → measure m ≤ match_fuel m
unfolding measure
measure_fuel m = omega (arith, pending_le m.incoming)

-- The loop always ends within its fuel, on any book, so `match_incoming_order` is its result.
pub match_loop-match_fuel :
    (m : Matching) → match_loop (match_fuel m) m ≡ some (match_incoming_order m)
unfolding match_incoming_order
match_loop-match_fuel m =
    let (done, e) = match_loop_total (match_fuel m) m (measure_fuel m) in
    rw (e, match_incoming_order)

match_loop_rule {ℓ} :
    (P : Matching → Type ℓ)
    → ((m : Matching) (place : Place) (maker : Order)
        → P m
        → next_maker m.book m.incoming ≡ some (place, maker)
        → P (fill_maker m place maker))
    → (fuel : ℕ) (m done : Matching) → P m
    → match_loop fuel m ≡ some done
    → P done × (next_maker done.book done.incoming ≡ none)
unfolding match_loop
match_loop_rule P keep zero m done p e = cc
match_loop_rule P keep (suc fuel) m done p e = elim (Option-cases (next_maker m.book m.incoming)) [
  | inl stop ↦
      let same : m ≡ done = some_inv (rw (stop, match_loop) at e) in
      (subst P same p, subst (λ d. next_maker d.book d.incoming ≡ none) same stop)
  | inr ((place, maker), go) ↦
      match_loop_rule P keep fuel (fill_maker m place maker) done (keep m place maker p go)
        (rw (go, match_loop) at e)
]

-- What every round keeps holds at the end, where no maker is left to fill.
pub match_incoming_rule {ℓ} :
    (P : Matching → Type ℓ)
    → ((m : Matching) (place : Place) (maker : Order)
        → P m
        → next_maker m.book m.incoming ≡ some (place, maker)
        → P (fill_maker m place maker))
    → (m : Matching) → P m
    → let done = match_incoming_order m in P done × (next_maker done.book done.incoming ≡ none)
match_incoming_rule P keep m p =
    match_loop_rule P keep (match_fuel m) m (match_incoming_order m) p (match_loop-match_fuel m)
