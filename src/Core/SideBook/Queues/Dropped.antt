-- ===== src/Core/SideBook/Queues/Dropped.antt =====
-- The queues of a side under `update_after_fill_or_cancel`.
use exchange_engine.Base.{
  ◌||◌, ℕ, zero, suc, ◌≡◌, refl, sym, ap, ◌∙◌, Bool, true, false, Option, none, some, List, [], ◌∷◌,
  arith, inl, inr, get_or, set, if◌then◌else◌, Option-cases, Bool-cases, eqb_ℤ, some_inv,
}
use exchange_engine.Core.FixedPoint.{Price}
use exchange_engine.Core.Level.{PriceLevel}
use exchange_engine.Core.Ladder
use exchange_engine.Core.Ladder.{
  RingPriceLadder, clear_slot, mark_inactive, remove_at, slot_of_price, is_spent,
}
use exchange_engine.Core.Ladder.Frame.{best_level-IsFrame}
use exchange_engine.Core.FarMap
use exchange_engine.Core.FarMap.{FarPriceMap, Entries, find, assign, erase}
use exchange_engine.Core.FarMap.Sorted.{IsAbove, IsSorted}
use exchange_engine.Core.SideBook.{
  SideBook, Place, ring, far, level_at, drop_level, refresh_cached_best,
  update_after_fill_or_cancel, is_ring_level, price_at, is_cached, is_stale, spent_at,
}
use exchange_engine.Core.SideBook.Every.{EverySlot, EveryEntry, EverySlot-get, EveryEntry-find}
use exchange_engine.Core.SideBook.Queues.{orders_of, orders_at, IsTotalled, IsTidy, spent_empty}

emptied_slot :
    (slots : List (Option PriceLevel)) (i j : ℕ) (v : PriceLevel)
    → get_or slots i none ≡ some v
    → v.orders ≡ []
    → orders_of (get_or (set slots i none) j none) ≡ orders_of (get_or slots j none)
emptied_slot [] i j v e n = refl
emptied_slot (x ∷ slots) zero zero v e n = sym (ap orders_of e ∙ n)
emptied_slot (x ∷ slots) zero (suc j) v e n = refl
emptied_slot (x ∷ slots) (suc i) zero v e n = refl
emptied_slot (x ∷ slots) (suc i) (suc j) v e n = emptied_slot slots i j v e n

above_absent : (k q : Price) (m : Entries) → IsAbove k m → eqb_ℤ k q ≡ true → find q m ≡ none
unfolding find
above_absent k q [] a e = refl
above_absent k q ((j, w) ∷ m) a e =
    let other : eqb_ℤ j q ≡ false = ground (arith, a.0) in rw other (above_absent k q m a.1 e)

emptied_entry :
    (p q : Price) (m : Entries) (v : PriceLevel)
    → IsSorted m
    → find p m ≡ some v
    → v.orders ≡ []
    → orders_of (find q (erase p m)) ≡ orders_of (find q m)
unfolding find erase
emptied_entry p q [] v s e n = refl
emptied_entry p q ((k, w) ∷ m) v s e n = elim (Bool-cases (eqb_ℤ k p)) [
  | inl same ↦ elim (Bool-cases (eqb_ℤ k q)) [
    | inl here ↦
        let hit : w ≡ v = some_inv (rw same at e) in
        rw (same, here, above_absent k q m s.0 here)
          (sym (ap (λ (x : PriceLevel). x.orders) hit ∙ n))
    | inr there ↦ rw (same, there) refl
  ]
  | inr other ↦ elim (Bool-cases (eqb_ℤ k q)) [
    | inl here ↦ rw (other, here) refl
    | inr there ↦ rw (other, there) (emptied_entry p q m v s.1 (rw other at e) n)
  ]
]

orders-remove_at :
    (l : RingPriceLadder) (i j : ℕ)
    → EverySlot IsTotalled l.slots
    → orders_of (Ladder.slot_level (remove_at l i (Ladder.slot_level l i)) j)
      ≡ orders_of (Ladder.slot_level l j)
unfolding remove_at clear_slot mark_inactive
orders-remove_at l i j h = elim (Option-cases (Ladder.slot_level l i)) [
  | inl e ↦ rw (e, remove_at) (ground arith)
  | inr (v, e) ↦ elim (Bool-cases (is_spent v)) [
    | inl spent ↦
        rw (e, remove_at, spent)
          (ground (
            arith,
            emptied_slot l.slots i j v e
                (spent_empty v (EverySlot-get IsTotalled l.slots i v h e) spent),
          ))
    | inr kept ↦ rw (e, remove_at, kept) refl
  ]
]

orders-remove_ring :
    (l : RingPriceLadder) (p : Price) (j : ℕ)
    → EverySlot IsTotalled l.slots
    → orders_of (Ladder.slot_level (Ladder.remove_level_if_empty l p) j)
      ≡ orders_of (Ladder.slot_level l j)
unfolding Ladder.remove_level_if_empty
orders-remove_ring l p j h = elim (Option-cases (slot_of_price l p)) [
  | inl e ↦ rw (e, Ladder.remove_level_if_empty) refl
  | inr (i, e) ↦ rw (e, Ladder.remove_level_if_empty) (orders-remove_at l i j h)
]

orders-remove_far :
    (f : FarPriceMap) (p q : Price)
    → EveryEntry IsTotalled f.levels
    → IsSorted f.levels
    → orders_of (find q (FarMap.remove_level_if_empty f p).levels) ≡ orders_of (find q f.levels)
unfolding FarMap.remove_level_if_empty
orders-remove_far f p q h s = elim (Option-cases (find p f.levels)) [
  | inl e ↦ rw (e, FarMap.remove_level_if_empty) refl
  | inr (v, e) ↦ elim (Bool-cases (is_spent v)) [
    | inl spent ↦
        rw (e, FarMap.remove_level_if_empty, spent)
          (emptied_entry p q f.levels v s e
            (spent_empty v (EveryEntry-find IsTotalled p f.levels v h e) spent))
    | inr kept ↦ rw (e, FarMap.remove_level_if_empty, kept) refl
  ]
]

orders-drop_level :
    (s : SideBook) (place q : Place) → IsTidy s → orders_at (drop_level s place) q ≡ orders_at s q
unfolding drop_level level_at
orders-drop_level s place (ring j) t =
    elim (Bool-cases (is_ring_level s (price_at s place) place)) [
      | inl e ↦ rw e (orders-remove_ring s.ladder (price_at s place) j t.levels.slots)
      | inr e ↦ rw e refl
    ]
orders-drop_level s place (far q) t = elim (Bool-cases (is_ring_level s (price_at s place) place)) [
  | inl e ↦ rw e refl
  | inr e ↦ rw e (orders-remove_far s.far_map (price_at s place) q t.levels.entries t.sorted)
]

orders-refresh : (s : SideBook) (q : Place) → orders_at (refresh_cached_best s) q ≡ orders_at s q
unfolding refresh_cached_best level_at
orders-refresh s (ring j) =
    ap (λ (slots : List (Option PriceLevel)). orders_of (get_or slots j none))
      (best_level-IsFrame s.ladder).slots
orders-refresh s (far q) = refl

-- Looking at a level after a fill or a cancellation changes no queue.
pub orders-update_after :
    (s : SideBook) (place q : Place)
    → IsTidy s
    → orders_at (update_after_fill_or_cancel s place) q ≡ orders_at s q
unfolding update_after_fill_or_cancel
orders-update_after s place q t =
    refreshed (is_cached s place || is_stale kept) ∙ dropped (spent_at s place)
  where
    kept : SideBook
    kept = if spent_at s place then drop_level s place else s

    refreshed :
        (b : Bool) → orders_at (if b then refresh_cached_best kept else kept) q ≡ orders_at kept q
    refreshed true = orders-refresh kept q
    refreshed false = refl

    dropped : (b : Bool) → orders_at (if b then drop_level s place else s) q ≡ orders_at s q
    dropped true = orders-drop_level s place q t
    dropped false = refl
