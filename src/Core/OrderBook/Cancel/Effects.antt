-- ===== src/Core/OrderBook/Cancel/Effects.antt =====
-- What a cancellation does to the book.
use exchange_engine.Base.{
  if◌then◌else◌, ◌++◌, ℕ, ◌<◌, ◌≡◌, refl, sym, ap, ◌∙◌, subst, Bool, true, false, Option, none,
  some, List, [], ◌∷◌, arith, inl, inr, Option-cases, Bool-cases, ◌==◌, lookup, lookup-erase,
  some_inv, Map, ◌⊎◌,
}
use exchange_engine.Core.FixedPoint.{Quantity}
use exchange_engine.Core.Types.{
  Side, buy, sell, CancelOrderCommand, EngineEvent, order_cancelled, order_book_delta,
  order_not_found, Order,
}
use exchange_engine.Core.Sequence.{SequenceGenerator}
use exchange_engine.Core.Level.{PriceLevel, find_id}
use exchange_engine.Core.SideBook.{SideBook, Place, same_place, level_at, find_at, resting_count}
use exchange_engine.Core.SideBook.Count.{count-remove_order}
use exchange_engine.Core.SideBook.Queues.{IsTidy, orders_of, orders_at, unlink_splits}
use exchange_engine.Core.SideBook.Queues.Removal.{orders-remove_order, remove_order-IsTidy}
use exchange_engine.Core.OrderBook.State.{
  OrderBook, OrderRef, book_for_side, opposite_side, with_side, find_order, has_order,
}
use exchange_engine.Core.OrderBook.Log.{push_event, reject}
use exchange_engine.Core.OrderBook.Place.{Outcome}
use exchange_engine.Core.OrderBook.Cancel.{
  remove_order, cancel_found, cancel_existing_order, cancel_target, process_cancel,
}

find_id-id : (id : ℕ) (os : List Order) (o : Order) → find_id id os ≡ some o → o.order_id ≡ id
unfolding find_id
find_id-id id [] o e = cc
find_id-id id (x ∷ os) o e = elim (Bool-cases (x.order_id == id)) [
  | inl h ↦ ap (λ (y : Order). y.order_id) (sym (some_inv (rw h at e))) ∙ ground arith
  | inr h ↦ find_id-id id os o (rw h at e)
]

-- The level that holds the order that is found.
find_at_level :
    (s : SideBook) (place : Place) (id : ℕ) (o : Order)
    → find_at s place id ≡ some o
    → (v : PriceLevel) × (level_at s place ≡ some v) × (find_id id v.orders ≡ some o)
unfolding find_at
find_at_level s place id o e = elim (Option-cases (level_at s place)) [
  | inl none_at ↦ cc (rw (none_at, find_at) at e)
  | inr (v, at) ↦ (v, at, rw (at, find_at) at e)
]

find_order_at :
    (b : OrderBook) (id : ℕ) (side : Side) (place : Place) (o : Order)
    → find_order b id ≡ some (side, place, o)
    → find_at (book_for_side b side) place id ≡ some o
unfolding find_order
find_order_at b id side place o e = elim (Option-cases (lookup id b.order_by_id)) [
  | inl gone ↦ cc (rw (gone, find_order) at e)
  | inr ((t, p), there) ↦ elim (Option-cases (find_at (book_for_side b t) p id)) [
    | inl missing ↦ cc (rw (there, find_order, missing) at e)
    | inr (x, found) ↦
        subst (λ (r : Side × Place × Order). find_at (book_for_side b r.0) r.1 id ≡ some r.2)
          (some_inv (rw (there, find_order, found) at e)) found
  ]
]

own_side :
    (b : OrderBook) (side : Side) (s : SideBook) → book_for_side (with_side b side s) side ≡ s
own_side b buy s = refl
own_side b sell s = refl

other_side :
    (b : OrderBook) (side : Side) (s : SideBook) (index : Map OrderRef) (ids : Map ℕ)
    → book_for_side
        (with_side (record b { order_by_id = index; client_order_id_to_order_id = ids }) side s)
        (opposite_side side)
      ≡ book_for_side b (opposite_side side)
other_side b buy s index ids = refl
other_side b sell s index ids = refl

index-with_side :
    (b : OrderBook) (side : Side) (s : SideBook) → (with_side b side s).order_by_id ≡ b.order_by_id
index-with_side b buy s = refl
index-with_side b sell s = refl

-- The lots that the answer to a cancellation says are released, if it says so.
abbrev pub released_lots : List EngineEvent → Option Quantity
released_lots (order_cancelled e s id q ∷ order_book_delta _ _ _ _ _ _ ∷ []) = some q
released_lots _ = none

-- The order of an id leaves the book: the queue of its level loses it and keeps the orders ahead of it
-- and behind it, every other queue of its side is as it was and so is the other side, its id alone is
-- taken from the index, the answer releases all that was left of it, and its side stays tidy.
pub record Leaves (b : OrderBook) (id : ℕ) (side : Side) (place : Place) (o : Order)
    (outcome : Outcome) : Type 0 where
  pub named : o.order_id ≡ id
  pub ahead : List Order
  pub behind : List Order
  pub before : orders_at (book_for_side b side) place ≡ (ahead ++ (o ∷ behind))
  pub after :
      (q : Place)
      → orders_at (book_for_side outcome.0 side) q
        ≡ (if same_place q place then ahead ++ behind else orders_at (book_for_side b side) q)
  pub index :
      (k : ℕ) → lookup k outcome.0.order_by_id ≡ (if id == k then none else lookup k b.order_by_id)
  pub tidy : IsTidy (book_for_side outcome.0 side)
  pub fewer : resting_count (book_for_side outcome.0 side) < resting_count (book_for_side b side)
  pub other : book_for_side outcome.0 (opposite_side side) ≡ book_for_side b (opposite_side side)
  pub free : has_order outcome.0 id ≡ false
  pub told : released_lots outcome.1.0 ≡ some o.remaining_quantity

cancel_found-Leaves :
    (b : OrderBook) (id : ℕ) (side : Side) (place : Place) (o : Order) (g : SequenceGenerator)
    → IsTidy (book_for_side b side)
    → find_order b id ≡ some (side, place, o)
    → Leaves b id side place o (cancel_found b id side place o g)
unfolding cancel_found push_event
cancel_found-Leaves b id side place o g tidy e =
    let found = find_order_at b id side place o e in
    let (v, at, held) = find_at_level (book_for_side b side) place id o found in
    let same = find_id-id id v.orders o held in
    let (ahead, behind, before, after) = unlink_splits id v.orders o held in
    record {
      named = same;
      ahead = ahead;
      behind = behind;
      before = ap orders_of at ∙ before;
      after = λ q.
          ap (λ t. orders_at t q) (own_side _ side _)
          ∙ ap (λ i. orders_at (remove_order (book_for_side b side) place i) q) same
          ∙ orders-remove_order (book_for_side b side) place id v o q tidy at held
          ∙ ap (λ os. if same_place q place then os else orders_at (book_for_side b side) q) after;
      index = λ k. rw (index-with_side _ side _, same) (lookup-erase id k b.order_by_id);
      tidy =
          rw (own_side _ side _, same)
            (remove_order-IsTidy (book_for_side b side) place id v o tidy at held);
      fewer =
          rw (own_side _ side _, same)
            (count-remove_order (book_for_side b side) place id v o at held);
      other = other_side b side _ _ _;
      free = rw (index-with_side _ side _, same, lookup-erase id id b.order_by_id) (ground arith);
      told = refl;
    }

-- Whether the order that a command names is there and is its user's.
abbrev pub may_cancel : OrderBook → CancelOrderCommand → Bool
may_cancel b c = elim (find_order b (cancel_target b c)) [
  | none ↦ false
  | some (side, place, o) ↦ o.user_id == c.user_id
]

-- In a book whose sides keep exact totals of open orders and sorted far levels, a cancel command
-- takes exactly the order that it names off the book if that order is there and belongs to the
-- command's user: the queue of its level is the old one without it, in the same order, every other
-- queue of its side and the whole other side are unchanged, its side keeps exact totals and sorted
-- far levels, the index loses its id alone, and the answer releases all of its remaining lots.
-- Otherwise the book is unchanged and the answer is one OrderNotFound rejection.
pub process_cancel_cases :
    (b : OrderBook) (c : CancelOrderCommand) (g : SequenceGenerator)
    → ((side : Side) → IsTidy (book_for_side b side))
    → ((may_cancel b c ≡ true)
        × ((side : Side) × (place : Place) × (o : Order) × (find_order b (cancel_target b c)
              ≡ some (side, place, o))
            × Leaves b (cancel_target b c) side place o (process_cancel b c g)))
      ⊎ ((may_cancel b c ≡ false)
          × (process_cancel b c g ≡ (
            b,
            reject g c.command_id (cancel_target b c) c.user_id c.symbol_id order_not_found,
          )))
unfolding process_cancel cancel_existing_order
process_cancel_cases b c g tidy = elim (Option-cases (find_order b (cancel_target b c))) [
  | inl missing ↦ inr (rw (missing, may_cancel) refl, rw (missing, process_cancel) refl)
  | inr ((side, place, o), found) ↦ elim (Bool-cases (o.user_id == c.user_id)) [
    | inl own ↦ inl (
      rw (found, may_cancel) own,
      (
        side,
        place,
        o,
        found,
        rw (found, process_cancel, own)
            (rw (found, cancel_existing_order)
              (cancel_found-Leaves b (cancel_target b c) side place o g (tidy side) found)),
      ),
    )
    | inr foreign ↦ inr (rw (found, may_cancel) foreign, rw (found, process_cancel, foreign) refl)
  ]
]
