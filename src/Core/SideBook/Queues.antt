-- ===== src/Core/SideBook/Queues.antt =====
-- The queues of a side: the orders at every place, under the removal of one order.
pub mod Dropped
pub mod Removal
use exchange_engine.Base.{
  ◌||◌, ℕ, zero, suc, ◌+◌, ◌<◌, ◌^◌, ◌≡◌, refl, sym, ap, ◌∙◌, subst, Bool, true, false, Option,
  none, some, List, [], ◌∷◌, ◌++◌, arith, inl, inr, get_or, set, if◌then◌else◌, Option-cases,
  Bool-cases, eqb_ℤ, some_inv, ◌==◌,
}
use exchange_engine.Core.FixedPoint.{Price}
use exchange_engine.Core.Types.{Order}
use exchange_engine.Core.Level.{PriceLevel, find_id, unlink, is_nil}
use exchange_engine.Core.Ladder
use exchange_engine.Core.Ladder.{
  RingPriceLadder, clear_slot, mark_inactive, remove_at, slot_of_price, is_spent,
}
use exchange_engine.Core.Ladder.Frame.{best_level-IsFrame}
use exchange_engine.Core.FarMap
use exchange_engine.Core.FarMap.{FarPriceMap, Entries, find, assign, erase}
use exchange_engine.Core.FarMap.Sorted.{IsAbove, IsSorted}
use exchange_engine.Core.SideBook.{
  SideBook, Place, ring, far, same_place, level_at, store, update, drop_level, refresh_cached_best,
  update_after_fill_or_cancel, remove_order, take_out, find_at, is_ring_level, price_at, is_cached,
  is_stale, spent_at,
}
use exchange_engine.Core.SideBook.Count.{level_at-update}
use exchange_engine.Core.SideBook.Every.{
  EverySlot, EveryEntry, Every, EverySlot-get, EveryEntry-find, Every-update,
}

abbrev pub orders_of : Option PriceLevel → List Order
orders_of none = []
orders_of (some v) = v.orders

-- The orders at a place, oldest first.
abbrev pub orders_at : SideBook → Place → List Order
orders_at s q = orders_of (level_at s q)

abbrev pub lots : List Order → ℕ
lots [] = 0
lots (o ∷ os) = o.remaining_quantity + lots os

abbrev pub AllOpen : List Order → Type 0
AllOpen [] = Unit {0}
AllOpen (o ∷ os) = (0 < o.remaining_quantity) × AllOpen os

-- A level whose total is that of its orders, each of which has lots left.
pub record IsTotalled (v : PriceLevel) : Type 0 where
  pub total : v.total_quantity ≡ lots v.orders
  pub bound : v.total_quantity < 2 ^ 64
  pub live : AllOpen v.orders

pub record IsTidy (s : SideBook) : Type 0 where
  pub levels : Every IsTotalled s
  pub sorted : IsSorted s.far_map.levels

pub spent_empty : (v : PriceLevel) → IsTotalled v → is_spent v ≡ true → v.orders ≡ []
spent_empty v h e = go v.orders h.live h.total e
  where
    go :
        (os : List Order)
        → AllOpen os
        → v.total_quantity ≡ lots os
        → (is_nil os || v.total_quantity == 0) ≡ true
        → os ≡ []
    go [] a t e = refl
    go (o ∷ os) a t e = absurd (ground (arith, a.0))

lots-unlink :
    (id : ℕ) (os : List Order) (o : Order)
    → find_id id os ≡ some o
    → lots (unlink id os) + o.remaining_quantity ≡ lots os
unfolding find_id unlink
lots-unlink id [] o e = cc
lots-unlink id (x ∷ os) o e = elim (Bool-cases (x.order_id == id)) [
  | inl h ↦
      let same : x ≡ o = some_inv (rw h at e) in
      rw h (omega (arith, ap (λ (y : Order). y.remaining_quantity) same))
  | inr h ↦ rw h (omega (arith, lots-unlink id os o (rw h at e)))
]

AllOpen-unlink : (id : ℕ) (os : List Order) → AllOpen os → AllOpen (unlink id os)
unfolding unlink
AllOpen-unlink id [] a = tt
AllOpen-unlink id (x ∷ os) a = elim (Bool-cases (x.order_id == id)) [
  | inl h ↦ rw h (a.1)
  | inr h ↦ rw h (a.0, AllOpen-unlink id os a.1)
]

pub take_out-IsTotalled :
    (id : ℕ) (v : PriceLevel) (o : Order)
    → find_id id v.orders ≡ some o
    → IsTotalled v
    → IsTotalled (take_out id o.remaining_quantity v)
take_out-IsTotalled id v o e h =
    let sum = lots-unlink id v.orders o e in
    record {
      total = ground (arith, sum, h.total, h.bound);
      bound = ground (arith, h.bound);
      live = AllOpen-unlink id v.orders h.live;
    }

-- The order that is found is taken out of its queue, and the others keep their order.
pub unlink_splits :
    (id : ℕ) (os : List Order) (o : Order)
    → find_id id os ≡ some o
    → (ahead : List Order) × (behind : List Order) × (os ≡ (ahead ++ (o ∷ behind)))
      × (unlink id os ≡ (ahead ++ behind))
unfolding find_id unlink
unlink_splits id [] o e = cc
unlink_splits id (x ∷ os) o e = elim (Bool-cases (x.order_id == id)) [
  | inl h ↦ ([], os, ap (λ y. y ∷ os) (some_inv (rw h at e)), rw h refl)
  | inr h ↦
      let (ahead, behind, before, after) = unlink_splits id os o (rw h at e) in
      (x ∷ ahead, behind, ap (λ ys. x ∷ ys) before, rw h (ap (λ ys. x ∷ ys) after))
]
