-- ===== src/Core/OrderBook/Matching/Round.antt =====
-- One round of the matching loop: the maker that it meets and the book that it leaves.
use exchange_engine.Base.{
  ℕ, ◌+◌, ◌≤◌, ◌<◌, ◌≡◌, refl, true, none, some, List, [], ◌∷◌, arith, inl, inr, ◌⊎◌, length,
  if◌then◌else◌, Option-cases, Bool-cases,
}
use exchange_engine.Core.FixedPoint.{Quantity, min_quantity, subtract_lots}
use exchange_engine.Core.Types.{Side, buy, sell, Order, reduce, is_filled}
use exchange_engine.Core.Level.{PriceLevel, find_id, first}
use exchange_engine.Core.SideBook.{
  SideBook, Place, level_at, update, best_order, order_front, remove_order,
  update_after_fill_or_cancel, resting_count,
}
use exchange_engine.Core.SideBook.Count.{
  count-update, count-update_after, count-remove_order, level_at-update,
}
use exchange_engine.Core.OrderBook.State.{OrderBook, book_for_side, opposing_book, opposite_side}
use exchange_engine.Core.OrderBook.Matching.{
  Matching, next_maker, fill_maker, fill_front, reduce_first, settle,
}

first-cons :
    (os : List Order) (o : Order) → first os ≡ some o → (rest : List Order) × (os ≡ o ∷ rest)
first-cons [] o e = cc
first-cons (x ∷ rest) o e = (rest, cc)

best_order-order_front :
    (s : SideBook) (place : Place) (o : Order)
    → best_order s ≡ some (place, o)
    → order_front s place ≡ some o
unfolding best_order
best_order-order_front s place o e = ground arith

order_front-none :
    (s : SideBook) (place : Place) (o : Order)
    → level_at s place ≡ none
    → ¬ (order_front s place ≡ some o)
unfolding order_front
order_front-none s place o e f = ground arith

order_front-some :
    (s : SideBook) (place : Place) (o : Order) (v : PriceLevel)
    → level_at s place ≡ some v
    → order_front s place ≡ some o
    → first v.orders ≡ some o
unfolding order_front
order_front-some s place o v e f = ground arith

-- A maker is the front of the level at its place.
pub best_order-front :
    (s : SideBook) (place : Place) (o : Order)
    → best_order s ≡ some (place, o)
    → (v : PriceLevel) × (rest : List Order) × (level_at s place ≡ some v) × (v.orders ≡ o ∷ rest)
best_order-front s place o e = elim (Option-cases (level_at s place)) [
  | inl none_there ↦ absurd (never none_there)
  | inr (v, there) ↦ (v, (at_front v there).0, there, (at_front v there).1)
]
  where
    fronted : order_front s place ≡ some o
    fronted = best_order-order_front s place o e

    never : ¬ (level_at s place ≡ none)
    never n = order_front-none s place o n fronted

    at_front :
        (v : PriceLevel) → level_at s place ≡ some v → (rest : List Order) × (v.orders ≡ o ∷ rest)
    at_front v there = first-cons v.orders o (order_front-some s place o v there fronted)

pub next_maker-best :
    (b : OrderBook) (incoming : Order) (place : Place) (o : Order)
    → next_maker b incoming ≡ some (place, o)
    → best_order (opposing_book b incoming.side) ≡ some (place, o)
unfolding next_maker
next_maker-best b incoming place o e = ground arith

-- The other side of the book after a round.
abbrev pub settled : SideBook → Place → Order → SideBook
settled s place left =
    if is_filled left
    then remove_order s place left.order_id
    else update_after_fill_or_cancel s place

opposing-settle :
    (b : OrderBook) (side : Side) (s : SideBook) (place : Place) (left : Order)
    → book_for_side (settle b side s place left) side ≡ settled s place left
unfolding settle
opposing-settle b buy s place left = ground arith
opposing-settle b sell s place left = ground arith

length-reduce_first : (q : Quantity) (os : List Order) → length (reduce_first q os) ≡ length os
length-reduce_first q [] = refl
length-reduce_first q (o ∷ os) = refl

resting-fill_front :
    (s : SideBook) (place : Place) (v : PriceLevel) (q : Quantity)
    → level_at s place ≡ some v
    → resting_count (update s place (fill_front q)) ≡ resting_count s
unfolding fill_front
resting-fill_front s place v q e =
    omega (arith, count-update s place v (fill_front q) e, length-reduce_first q v.orders)

find_id-head :
    (v : PriceLevel) (o : Order) (rest : List Order) (q : Quantity)
    → v.orders ≡ o ∷ rest
    → find_id o.order_id (fill_front q v).orders ≡ some (reduce o q)
unfolding fill_front find_id
find_id-head v o rest q e = rw e (ground arith)

-- No round adds an order, and one that leaves the maker filled takes it out.
pub settled_le :
    (s : SideBook) (place : Place) (v : PriceLevel) (o : Order) (rest : List Order) (q : Quantity)
    → level_at s place ≡ some v
    → v.orders ≡ o ∷ rest
    → resting_count (settled (update s place (fill_front q)) place (reduce o q)) ≤ resting_count s
settled_le s place v o rest q e f =
    let s' = update s place (fill_front q) in
    elim (Bool-cases (is_filled (reduce o q))) [
      | inl full ↦ rw full (
          omega (
            arith,
            resting-fill_front s place v q e,
            count-remove_order s' place o.order_id (fill_front q v) (reduce o q)
                (level_at-update s place v (fill_front q) e) (find_id-head v o rest q f),
          ))
      | inr more ↦
          rw more (omega (arith, resting-fill_front s place v q e, count-update_after s' place))
    ]

pub settled_lt :
    (s : SideBook) (place : Place) (v : PriceLevel) (o : Order) (rest : List Order) (q : Quantity)
    → level_at s place ≡ some v
    → v.orders ≡ o ∷ rest
    → is_filled (reduce o q) ≡ true
    → resting_count (settled (update s place (fill_front q)) place (reduce o q)) < resting_count s
settled_lt s place v o rest q e f full = rw full (
    omega (
      arith,
      resting-fill_front s place v q e,
      count-remove_order (update s place (fill_front q)) place o.order_id (fill_front q v)
          (reduce o q) (level_at-update s place v (fill_front q) e) (find_id-head v o rest q f),
    ))

-- What falls in every round: the orders on the other side, and one while the taker is not filled.
abbrev pub pending : Order → ℕ
pending o = if is_filled o then 1 else 2

unfoldable pub measure : Matching → ℕ
measure m = resting_count (opposing_book m.book m.incoming.side) + pending m.incoming

abbrev pub fill : Matching → Order → Quantity
fill m maker = min_quantity m.incoming.remaining_quantity maker.remaining_quantity

pub one_filled :
    (a b : Quantity)
    → (subtract_lots a (min_quantity a b) ≡ 0) ⊎ (subtract_lots b (min_quantity a b) ≡ 0)
one_filled a b = ground arith

pub opposing-fill_maker :
    (m : Matching) (place : Place) (maker : Order)
    → opposing_book (fill_maker m place maker).book (fill_maker m place maker).incoming.side
      ≡ settled
          (update (opposing_book m.book m.incoming.side) place (fill_front (fill m maker)))
          place
          (reduce maker (fill m maker))
unfolding fill_maker
opposing-fill_maker m place maker =
    opposing-settle (record (m.book) { last_trade_price = some maker.price })
      (opposite_side m.incoming.side)
      (update (opposing_book m.book m.incoming.side) place (fill_front (fill m maker))) place
      (reduce maker (fill m maker))

pub incoming-fill_maker :
    (m : Matching) (place : Place) (maker : Order)
    → (fill_maker m place maker).incoming ≡ reduce m.incoming (fill m maker)
unfolding fill_maker
incoming-fill_maker m place maker = refl
