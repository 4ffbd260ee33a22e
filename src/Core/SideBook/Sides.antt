-- ===== src/Core/SideBook/Sides.antt =====
-- The side of a book, under its operations.
use exchange_engine.Base.{◌∙◌, ◌≡◌, refl, arith, inl, inr, Option-cases, if◌then◌else◌, ℕ}
use exchange_engine.Core.Level.{PriceLevel}
use exchange_engine.Core.SideBook.{
  SideBook, Place, ring, far, level_at, store, update, drop_level, refresh_cached_best,
  update_after_fill_or_cancel, remove_order, take_out, find_at, spent_at,
}

pub side-update :
    (s : SideBook) (place : Place) (change : PriceLevel → PriceLevel)
    → (update s place change).side ≡ s.side
unfolding update store
side-update s place change = elim (Option-cases (level_at s place)) [
  | inl e ↦ rw (e, update)
  | inr (v, e) ↦ rw (e, update) (side-store place (change v))
]
  where
    side-store : (p : Place) (v : PriceLevel) → (store s p v).side ≡ s.side
    side-store (ring slot) v = refl
    side-store (far p) v = refl

side-refresh : (s : SideBook) → (refresh_cached_best s).side ≡ s.side
unfolding refresh_cached_best
side-refresh s = refl

side-drop_level : (s : SideBook) (place : Place) → (drop_level s place).side ≡ s.side
unfolding drop_level
side-drop_level s place = ground arith

pub side-update_after :
    (s : SideBook) (place : Place) → (update_after_fill_or_cancel s place).side ≡ s.side
unfolding update_after_fill_or_cancel
side-update_after s place =
    let kept = if spent_at s place then drop_level s place else s in
    let same : kept.side ≡ s.side = ground (arith, side-drop_level s place) in
    ground (arith, side-refresh kept)

pub side-remove_order :
    (s : SideBook) (place : Place) (id : ℕ) → (remove_order s place id).side ≡ s.side
unfolding remove_order
side-remove_order s place id = elim (Option-cases (find_at s place id)) [
  | inl e ↦ rw (e, remove_order)
  | inr (o, e) ↦
      rw (e, remove_order)
        (side-update_after (update s place (take_out id o.remaining_quantity)) place
          ∙ side-update s place (take_out id o.remaining_quantity))
]
