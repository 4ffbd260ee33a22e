-- ===== src/Core/SideBook/Count.antt =====
-- How the operations of a side change the number of orders that rest on it.
use exchange_engine.Base.{
  ℕ, zero, suc, ◌+◌, ◌≤◌, ◌<◌, ◌≡◌, refl, ap, Option, none, some, List, [], ◌∷◌, arith, inl, inr,
  length, get_or, set, if◌then◌else◌, Option-cases, Bool-cases, eqb_ℤ,
}
use exchange_engine.Core.FixedPoint.{Price}
use exchange_engine.Core.Types.{Order}
use exchange_engine.Core.Level.{PriceLevel, unlink, find_id}
use exchange_engine.Core.Ladder
use exchange_engine.Core.Ladder.{
  RingPriceLadder, clear_slot, mark_inactive, remove_at, slot_of_price,
}
use exchange_engine.Core.Ladder.Frame.{best_level-IsFrame}
use exchange_engine.Core.FarMap
use exchange_engine.Core.FarMap.{FarPriceMap, Entries, find, assign, erase}
use exchange_engine.Core.SideBook.{
  SideBook, Place, ring, far, level_at, store, update, drop_level, refresh_cached_best,
  update_after_fill_or_cancel, remove_order, take_out, find_at, count_orders, count_entries,
  resting_count, is_ring_level, price_at, spent_at,
}

count-set :
    (slots : List (Option PriceLevel)) (i : ℕ) (v w : PriceLevel)
    → get_or slots i none ≡ some v
    → count_orders (set slots i (some w)) + length v.orders ≡ count_orders slots + length w.orders
count-set [] i v w e = cc
count-set (none ∷ slots) zero v w e = cc
count-set (some u ∷ slots) zero v w e =
    omega (arith, ap (λ (o : Option PriceLevel). count_orders (o ∷ [])) e)
count-set (none ∷ slots) (suc i) v w e = count-set slots i v w e
count-set (some u ∷ slots) (suc i) v w e = omega (arith, count-set slots i v w e)

count-set_none :
    (slots : List (Option PriceLevel)) (i : ℕ)
    → count_orders (set slots i none) ≤ count_orders slots
count-set_none [] i = omega arith
count-set_none (none ∷ slots) zero = omega arith
count-set_none (some u ∷ slots) zero = omega arith
count-set_none (none ∷ slots) (suc i) = count-set_none slots i
count-set_none (some u ∷ slots) (suc i) = omega (arith, count-set_none slots i)

count-assign :
    (p : Price) (m : Entries) (v w : PriceLevel)
    → find p m ≡ some v
    → count_entries (assign p w m) + length v.orders ≡ count_entries m + length w.orders
unfolding find assign
count-assign p [] v w e = cc
count-assign p ((k, u) ∷ m) v w e = elim (Bool-cases (eqb_ℤ k p)) [
  | inl same ↦
      let hit : u ≡ v = ground arith in
      rw same (omega (arith, ap (λ (x : PriceLevel). length x.orders) hit))
  | inr other ↦
      let tail : find p m ≡ some v = ground arith in
      rw other (omega (arith, count-assign p m v w tail))
]

count-erase : (p : Price) (m : Entries) → count_entries (erase p m) ≤ count_entries m
unfolding erase
count-erase p [] = omega arith
count-erase p ((k, u) ∷ m) = elim (Bool-cases (eqb_ℤ k p)) [
  | inl same ↦ rw same (omega arith)
  | inr other ↦ rw other (omega (arith, count-erase p m))
]

get_or-set :
    (slots : List (Option PriceLevel)) (i : ℕ) (v w : PriceLevel)
    → get_or slots i none ≡ some v
    → get_or (set slots i (some w)) i none ≡ some w
get_or-set [] i v w e = cc
get_or-set (x ∷ slots) zero v w e = refl
get_or-set (x ∷ slots) (suc i) v w e = get_or-set slots i v w e

find-assign :
    (p : Price) (m : Entries) (v w : PriceLevel)
    → find p m ≡ some v
    → find p (assign p w m) ≡ some w
unfolding find assign
find-assign p [] v w e = cc
find-assign p ((k, u) ∷ m) v w e = ground (arith, find-assign p m v w)

-- A level that is written through its pointer counts its new orders for its old ones.
pub count-update :
    (s : SideBook) (place : Place) (v : PriceLevel) (change : PriceLevel → PriceLevel)
    → level_at s place ≡ some v
    → resting_count (update s place change) + length v.orders
      ≡ resting_count s + length (change v).orders
unfolding update level_at store resting_count
count-update s (ring slot) v change e =
    rw (e, update) (omega (arith, count-set s.ladder.slots slot v (change v) e))
count-update s (far p) v change e =
    rw (e, update) (omega (arith, count-assign p s.far_map.levels v (change v) e))

count-remove_at :
    (l : RingPriceLadder) (slot : ℕ) (v : Option PriceLevel)
    → count_orders (remove_at l slot v).slots ≤ count_orders l.slots
unfolding remove_at clear_slot mark_inactive
count-remove_at l slot none = ground arith
count-remove_at l slot (some v) = ground (arith, count-set_none l.slots slot)

count-remove_ring :
    (l : RingPriceLadder) (p : Price)
    → count_orders (Ladder.remove_level_if_empty l p).slots ≤ count_orders l.slots
unfolding Ladder.remove_level_if_empty
count-remove_ring l p = elim (Option-cases (slot_of_price l p)) [
  | inl e ↦ rw (e, Ladder.remove_level_if_empty) (omega arith)
  | inr (slot, e) ↦
      rw (e, Ladder.remove_level_if_empty) (count-remove_at l slot (Ladder.slot_level l slot))
]

count-remove_far :
    (f : FarPriceMap) (p : Price)
    → count_entries (FarMap.remove_level_if_empty f p).levels ≤ count_entries f.levels
unfolding FarMap.remove_level_if_empty
count-remove_far f p = ground (arith, count-erase p f.levels)

count-drop_level :
    (s : SideBook) (place : Place) → resting_count (drop_level s place) ≤ resting_count s
unfolding drop_level resting_count
count-drop_level s place = elim (Bool-cases (is_ring_level s (price_at s place) place)) [
  | inl e ↦ rw e (omega (arith, count-remove_ring s.ladder (price_at s place)))
  | inr e ↦ rw e (omega (arith, count-remove_far s.far_map (price_at s place)))
]

count-refresh : (s : SideBook) → resting_count (refresh_cached_best s) ≡ resting_count s
unfolding refresh_cached_best resting_count
count-refresh s =
    ap (λ (slots : List (Option PriceLevel)). count_orders slots + count_entries s.far_map.levels)
      (best_level-IsFrame s.ladder).slots

-- Looking at a level after a fill or a cancellation adds no order.
pub count-update_after :
    (s : SideBook) (place : Place)
    → resting_count (update_after_fill_or_cancel s place) ≤ resting_count s
unfolding update_after_fill_or_cancel
count-update_after s place =
    let kept = if spent_at s place then drop_level s place else s in
    let fewer : resting_count kept ≤ resting_count s = ground (arith, count-drop_level s place) in
    ground (arith, count-refresh kept)

length-unlink :
    (id : ℕ) (os : List Order) (o : Order)
    → find_id id os ≡ some o
    → suc (length (unlink id os)) ≡ length os
unfolding find_id unlink
length-unlink id [] o e = cc
length-unlink id (x ∷ os) o e = ground (arith, length-unlink id os o)

-- An order that is found leaves: there is at least one order less.
pub count-remove_order :
    (s : SideBook) (place : Place) (id : ℕ) (v : PriceLevel) (o : Order)
    → level_at s place ≡ some v
    → find_id id v.orders ≡ some o
    → resting_count (remove_order s place id) < resting_count s
unfolding remove_order find_at
count-remove_order s place id v o e f =
    let change = take_out id o.remaining_quantity in
    rw (e, remove_order, find_at)
      (rw (f, remove_order)
        (omega (
          arith,
          count-update_after (update s place change) place,
          count-update s place v change e,
          length-unlink id v.orders o f,
        )))

-- What is written through a pointer is read through it.
pub level_at-update :
    (s : SideBook) (place : Place) (v : PriceLevel) (change : PriceLevel → PriceLevel)
    → level_at s place ≡ some v
    → level_at (update s place change) place ≡ some (change v)
unfolding update level_at store
level_at-update s (ring slot) v change e =
    rw (e, update) (get_or-set s.ladder.slots slot v (change v) e)
level_at-update s (far p) v change e =
    rw (e, update) (find-assign p s.far_map.levels v (change v) e)
