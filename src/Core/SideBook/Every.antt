-- ===== src/Core/SideBook/Every.antt =====
-- Facts about every level of a side, and the operations that keep them.
use exchange_engine.Base.{
  ◌||◌, ℕ, zero, suc, ◌≡◌, sym, subst, Bool, true, false, Option, none, some, List, [], ◌∷◌, arith,
  inl, inr, get_or, set, if◌then◌else◌, Option-cases, Bool-cases, eqb_ℤ, some_inv,
}
use exchange_engine.Core.FixedPoint.{Quantity, Price}
use exchange_engine.Core.Level.{PriceLevel}
use exchange_engine.Core.Ladder
use exchange_engine.Core.Ladder.{
  RingPriceLadder, clear_slot, mark_inactive, remove_at, slot_of_price,
}
use exchange_engine.Core.Ladder.Frame.{best_level-IsFrame}
use exchange_engine.Core.FarMap
use exchange_engine.Core.FarMap.{FarPriceMap, Entries, find, assign, erase}
use exchange_engine.Core.SideBook.{
  SideBook, Place, ring, far, level_at, store, update, drop_level, refresh_cached_best,
  update_after_fill_or_cancel, remove_order, take_out, find_at, is_ring_level, price_at, is_cached,
  is_stale, spent_at,
}

module _ (P : PriceLevel → Type 0) where
  abbrev pub EverySlot : List (Option PriceLevel) → Type 0
  EverySlot [] = Unit {0}
  EverySlot (none ∷ slots) = EverySlot slots
  EverySlot (some v ∷ slots) = P v × EverySlot slots

  abbrev pub EveryEntry : Entries → Type 0
  EveryEntry [] = Unit {0}
  EveryEntry ((p, v) ∷ m) = P v × EveryEntry m

  pub record Every (s : SideBook) : Type 0 where
    pub slots : EverySlot s.ladder.slots
    pub entries : EveryEntry s.far_map.levels

  pub EverySlot-get :
      (slots : List (Option PriceLevel)) (i : ℕ) (v : PriceLevel)
      → EverySlot slots
      → get_or slots i none ≡ some v
      → P v
  EverySlot-get [] i v h e = cc
  EverySlot-get (none ∷ slots) zero v h e = cc
  EverySlot-get (some u ∷ slots) zero v h e = subst P (some_inv e) h.0
  EverySlot-get (none ∷ slots) (suc i) v h e = EverySlot-get slots i v h e
  EverySlot-get (some u ∷ slots) (suc i) v h e = EverySlot-get slots i v h.1 e

  EverySlot-set :
      (slots : List (Option PriceLevel)) (i : ℕ) (v : PriceLevel)
      → EverySlot slots
      → P v
      → EverySlot (set slots i (some v))
  EverySlot-set [] i v h p = tt
  EverySlot-set (none ∷ slots) zero v h p = (p, h)
  EverySlot-set (some u ∷ slots) zero v h p = (p, h.1)
  EverySlot-set (none ∷ slots) (suc i) v h p = EverySlot-set slots i v h p
  EverySlot-set (some u ∷ slots) (suc i) v h p = (h.0, EverySlot-set slots i v h.1 p)

  EverySlot-clear :
      (slots : List (Option PriceLevel)) (i : ℕ) → EverySlot slots → EverySlot (set slots i none)
  EverySlot-clear [] i h = tt
  EverySlot-clear (none ∷ slots) zero h = h
  EverySlot-clear (some u ∷ slots) zero h = h.1
  EverySlot-clear (none ∷ slots) (suc i) h = EverySlot-clear slots i h
  EverySlot-clear (some u ∷ slots) (suc i) h = (h.0, EverySlot-clear slots i h.1)

  pub EveryEntry-find :
      (p : Price) (m : Entries) (v : PriceLevel) → EveryEntry m → find p m ≡ some v → P v
  unfolding find
  EveryEntry-find p [] v h e = cc
  EveryEntry-find p ((k, u) ∷ m) v h e = elim (Bool-cases (eqb_ℤ k p)) [
    | inl same ↦ subst P (ground arith) h.0
    | inr other ↦ EveryEntry-find p m v h.1 (ground arith)
  ]

  EveryEntry-assign :
      (p : Price) (m : Entries) (v : PriceLevel) → EveryEntry m → P v → EveryEntry (assign p v m)
  unfolding assign
  EveryEntry-assign p [] v h q = tt
  EveryEntry-assign p ((k, u) ∷ m) v h q = elim (Bool-cases (eqb_ℤ k p)) [
    | inl same ↦ rw same (q, h.1)
    | inr other ↦ rw other (h.0, EveryEntry-assign p m v h.1 q)
  ]

  EveryEntry-erase : (p : Price) (m : Entries) → EveryEntry m → EveryEntry (erase p m)
  unfolding erase
  EveryEntry-erase p [] h = tt
  EveryEntry-erase p ((k, u) ∷ m) h = elim (Bool-cases (eqb_ℤ k p)) [
    | inl same ↦ rw same (h.1)
    | inr other ↦ rw other (h.0, EveryEntry-erase p m h.1)
  ]

  pub Every-level_at :
      (s : SideBook) (place : Place) (v : PriceLevel) → Every s → level_at s place ≡ some v → P v
  unfolding level_at
  Every-level_at s (ring slot) v h e = EverySlot-get s.ladder.slots slot v h.slots e
  Every-level_at s (far p) v h e = EveryEntry-find p s.far_map.levels v h.entries e

  Every-store :
      (s : SideBook) (place : Place) (v : PriceLevel) → Every s → P v → Every (store s place v)
  unfolding store
  Every-store s (ring slot) v h p = record {
    slots = EverySlot-set s.ladder.slots slot v h.slots p;
    entries = h.entries;
  }
  Every-store s (far q) v h p = record {
    slots = h.slots;
    entries = EveryEntry-assign q s.far_map.levels v h.entries p;
  }

  pub Every-update :
      (s : SideBook) (place : Place) (change : PriceLevel → PriceLevel)
      → ((v : PriceLevel) → level_at s place ≡ some v → P v → P (change v))
      → Every s
      → Every (update s place change)
  unfolding update
  Every-update s place change keep h = elim (Option-cases (level_at s place)) [
    | inl e ↦ rw (e, update) h
    | inr (v, e) ↦
        rw (e, update) (Every-store s place (change v) h (keep v e (Every-level_at s place v h e)))
  ]

  Every-remove_at :
      (l : RingPriceLadder) (slot : ℕ) (v : Option PriceLevel)
      → EverySlot l.slots
      → EverySlot (remove_at l slot v).slots
  unfolding remove_at clear_slot mark_inactive
  Every-remove_at l slot none h = ground (arith, h)
  Every-remove_at l slot (some v) h = ground (arith, h, EverySlot-clear l.slots slot h)

  Every-remove_ring :
      (l : RingPriceLadder) (p : Price)
      → EverySlot l.slots
      → EverySlot (Ladder.remove_level_if_empty l p).slots
  unfolding Ladder.remove_level_if_empty
  Every-remove_ring l p h = elim (Option-cases (slot_of_price l p)) [
    | inl e ↦ rw (e, Ladder.remove_level_if_empty) h
    | inr (slot, e) ↦
        rw (e, Ladder.remove_level_if_empty) (Every-remove_at l slot (Ladder.slot_level l slot) h)
  ]

  Every-remove_far :
      (f : FarPriceMap) (p : Price)
      → EveryEntry f.levels
      → EveryEntry (FarMap.remove_level_if_empty f p).levels
  unfolding FarMap.remove_level_if_empty
  Every-remove_far f p h = ground (arith, h, EveryEntry-erase p f.levels h)

  Every-drop_level : (s : SideBook) (place : Place) → Every s → Every (drop_level s place)
  unfolding drop_level
  Every-drop_level s place h = elim (Bool-cases (is_ring_level s (price_at s place) place)) [
    | inl e ↦ rw e (record {
      slots = Every-remove_ring s.ladder (price_at s place) h.slots;
      entries = h.entries;
    })
    | inr e ↦ rw e (record {
      slots = h.slots;
      entries = Every-remove_far s.far_map (price_at s place) h.entries;
    })
  ]

  Every-refresh : (s : SideBook) → Every s → Every (refresh_cached_best s)
  unfolding refresh_cached_best
  Every-refresh s h = record {
    slots = subst EverySlot (sym (best_level-IsFrame s.ladder).slots) h.slots;
    entries = h.entries;
  }

  pub Every-update_after :
      (s : SideBook) (place : Place) → Every s → Every (update_after_fill_or_cancel s place)
  unfolding update_after_fill_or_cancel
  Every-update_after s place h = refreshed (kept (spent_at s place))
    where
      kept : (b : Bool) → Every (if b then drop_level s place else s)
      kept true = Every-drop_level s place h
      kept false = h

      refreshed :
          {t : SideBook}
          → Every t
          → Every (if is_cached s place || is_stale t then refresh_cached_best t else t)
      refreshed {t} k = elim (Bool-cases (is_cached s place || is_stale t)) [
        | inl e ↦ rw e (Every-refresh t k)
        | inr e ↦ rw e k
      ]

  pub Every-remove_order :
      (s : SideBook) (place : Place) (id : ℕ)
      → ((v : PriceLevel) (q : Quantity) → P v → P (take_out id q v))
      → Every s
      → Every (remove_order s place id)
  unfolding remove_order
  Every-remove_order s place id keep h = elim (Option-cases (find_at s place id)) [
    | inl e ↦ rw (e, remove_order) h
    | inr (o, e) ↦
        rw (e, remove_order)
          (Every-update_after (update s place (take_out id o.remaining_quantity)) place (
            Every-update s place (take_out id o.remaining_quantity)
              (λ v _. keep v o.remaining_quantity) h))
  ]
