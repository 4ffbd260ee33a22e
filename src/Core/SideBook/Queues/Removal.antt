-- ===== src/Core/SideBook/Queues/Removal.antt =====
-- The queues of a side under `remove_order`.
use exchange_engine.Base.{
  ◌||◌, ℕ, zero, suc, ◌≡◌, refl, sym, ap, ◌∙◌, subst, Bool, true, false, Option, none, some, List,
  [], ◌∷◌, arith, inl, inr, get_or, set, if◌then◌else◌, Bool-cases, eqb_ℤ, some_inv, ◌==◌,
}
use exchange_engine.Core.FixedPoint.{Price}
use exchange_engine.Core.Types.{Order}
use exchange_engine.Core.Level.{PriceLevel, find_id, unlink}
use exchange_engine.Core.FarMap.{Entries, find, assign}
use exchange_engine.Core.FarMap.Sorted.{IsAbove, IsSorted, get_or_create_level-IsSorted}
use exchange_engine.Core.SideBook.{
  SideBook, Place, ring, far, same_place, level_at, store, update, drop_level, refresh_cached_best,
  update_after_fill_or_cancel, remove_order, take_out, find_at, is_ring_level, price_at, is_cached,
  is_stale, spent_at,
}
use exchange_engine.Core.SideBook.Count.{level_at-update}
use exchange_engine.Core.SideBook.Every.{Every-update_after, Every-update}
use exchange_engine.Core.SideBook.Queues.Dropped.{orders-update_after}
use exchange_engine.Core.SideBook.Queues.{
  orders_of, orders_at, IsTotalled, IsTidy, take_out-IsTotalled,
}

other_slot :
    (slots : List (Option PriceLevel)) (i j : ℕ) (x : Option PriceLevel)
    → (j == i) ≡ false
    → get_or (set slots i x) j none ≡ get_or slots j none
other_slot [] i j x e = refl
other_slot (y ∷ slots) zero zero x e = absurd (ground arith)
other_slot (y ∷ slots) zero (suc j) x e = refl
other_slot (y ∷ slots) (suc i) zero x e = refl
other_slot (y ∷ slots) (suc i) (suc j) x e = other_slot slots i j x (ground arith)

other_entry :
    (p q : Price) (v : PriceLevel) (m : Entries)
    → eqb_ℤ q p ≡ false
    → find q (assign p v m) ≡ find q m
unfolding find assign
other_entry p q v [] e = refl
other_entry p q v ((k, w) ∷ m) e = ground (arith, other_entry p q v m e)

orders-store :
    (s : SideBook) (place q : Place) (v : PriceLevel)
    → same_place q place ≡ false
    → orders_at (store s place v) q ≡ orders_at s q
unfolding store level_at
orders-store s (ring i) (ring j) v e = ap orders_of (other_slot s.ladder.slots i j (some v) e)
orders-store s (ring i) (far q) v e = refl
orders-store s (far p) (ring j) v e = refl
orders-store s (far p) (far q) v e = ap orders_of (other_entry p q v s.far_map.levels e)

IsAbove-assign :
    (k p : Price) (v : PriceLevel) (m : Entries) → IsAbove k m → IsAbove k (assign p v m)
unfolding assign
IsAbove-assign k p v [] a = tt
IsAbove-assign k p v ((j, w) ∷ m) a = elim (Bool-cases (eqb_ℤ j p)) [
  | inl e ↦ rw e a
  | inr e ↦ rw e (a.0, IsAbove-assign k p v m a.1)
]

assign-IsSorted : (p : Price) (v : PriceLevel) (m : Entries) → IsSorted m → IsSorted (assign p v m)
unfolding assign
assign-IsSorted p v [] s = tt
assign-IsSorted p v ((k, w) ∷ m) s = elim (Bool-cases (eqb_ℤ k p)) [
  | inl e ↦ rw e s
  | inr e ↦ rw e (IsAbove-assign k p v m s.0, assign-IsSorted p v m s.1)
]

store-IsSorted :
    (s : SideBook) (place : Place) (v : PriceLevel)
    → IsSorted s.far_map.levels
    → IsSorted (store s place v).far_map.levels
unfolding store
store-IsSorted s (ring i) v h = h
store-IsSorted s (far p) v h = assign-IsSorted p v s.far_map.levels h

same_place_refl : (q : Place) → same_place q q ≡ true
same_place_refl (ring i) = ground arith
same_place_refl (far p) = ground arith

same_place_sound : (q place : Place) → same_place q place ≡ true → q ≡ place
same_place_sound (ring i) (ring j) e = ap ring (ground arith)
same_place_sound (ring i) (far p) e = cc
same_place_sound (far p) (ring i) e = cc
same_place_sound (far p) (far q) e = ap far (ground arith)

-- The order taken out of its level, before the level is looked at.
abbrev taken : SideBook → Place → ℕ → Order → SideBook
taken s place id o = update s place (take_out id o.remaining_quantity)

taken-IsTidy :
    (s : SideBook) (place : Place) (id : ℕ) (v : PriceLevel) (o : Order)
    → IsTidy s
    → level_at s place ≡ some v
    → find_id id v.orders ≡ some o
    → IsTidy (taken s place id o)
unfolding update
taken-IsTidy s place id v o t at found = record {
  levels =
      Every-update IsTotalled s place (take_out id o.remaining_quantity)
        (λ w here h.
          take_out-IsTotalled id w o
            (subst (λ (x : PriceLevel). find_id id x.orders ≡ some o) (some_inv (sym at ∙ here))
              found)
            h)
        t.levels;
  sorted = rw (at, update) (store-IsSorted s place _ t.sorted);
}

refresh-IsSorted :
    (s : SideBook) → IsSorted s.far_map.levels → IsSorted (refresh_cached_best s).far_map.levels
unfolding refresh_cached_best
refresh-IsSorted s h = h

drop_level-IsSorted :
    (s : SideBook) (place : Place)
    → IsSorted s.far_map.levels
    → IsSorted (drop_level s place).far_map.levels
unfolding drop_level
drop_level-IsSorted s place h = elim (Bool-cases (is_ring_level s (price_at s place) place)) [
  | inl e ↦ rw e h
  | inr e ↦ rw e (get_or_create_level-IsSorted s.far_map (price_at s place) (price_at s place) h).1
]

update_after-IsSorted :
    (s : SideBook) (place : Place)
    → IsSorted s.far_map.levels
    → IsSorted (update_after_fill_or_cancel s place).far_map.levels
unfolding update_after_fill_or_cancel
update_after-IsSorted s place h = refreshed (is_cached s place || is_stale kept)
  where
    kept : SideBook
    kept = if spent_at s place then drop_level s place else s

    dropped : (b : Bool) → IsSorted (if b then drop_level s place else s).far_map.levels
    dropped true = drop_level-IsSorted s place h
    dropped false = h

    refreshed : (b : Bool) → IsSorted (if b then refresh_cached_best kept else kept).far_map.levels
    refreshed true = refresh-IsSorted kept (dropped (spent_at s place))
    refreshed false = dropped (spent_at s place)

-- A tidy side stays tidy when an order is removed.
pub remove_order-IsTidy :
    (s : SideBook) (place : Place) (id : ℕ) (v : PriceLevel) (o : Order)
    → IsTidy s
    → level_at s place ≡ some v
    → find_id id v.orders ≡ some o
    → IsTidy (remove_order s place id)
unfolding remove_order find_at
remove_order-IsTidy s place id v o t at found =
    let after = taken-IsTidy s place id v o t at found in
    rw (at, remove_order, find_at)
      (rw (found, remove_order)
        (record {
          levels = Every-update_after IsTotalled (taken s place id o) place after.levels;
          sorted = update_after-IsSorted (taken s place id o) place after.sorted;
        }))

-- Where the order is found, it is taken out of the queue of its place; every other queue stays.
pub orders-remove_order :
    (s : SideBook) (place : Place) (id : ℕ) (v : PriceLevel) (o : Order) (q : Place)
    → IsTidy s
    → level_at s place ≡ some v
    → find_id id v.orders ≡ some o
    → orders_at (remove_order s place id) q
      ≡ (if same_place q place then unlink id v.orders else orders_at s q)
unfolding remove_order find_at update
orders-remove_order s place id v o q t at found =
    rw (at, remove_order, find_at)
      (rw (found, remove_order)
        (orders-update_after written place q (taken-IsTidy s place id v o t at found)
          ∙ elim (Bool-cases (same_place q place)) [
            | inl e ↦ rw e (
                subst (λ p. orders_at written p ≡ unlink id v.orders)
                  (sym (same_place_sound q place e))
                  (ap orders_of (level_at-update s place v change at)))
            | inr e ↦ rw (e, at, update) (orders-store s place q (change v) e)
          ]))
  where
    change : PriceLevel → PriceLevel
    change = take_out id o.remaining_quantity

    written : SideBook
    written = update s place change
