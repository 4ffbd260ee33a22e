-- ===== src/Core/Ladder/Best.antt =====
-- `best_level` of a consistent ladder that starts at its first slot, as every ladder does: nothing in
-- the program moves `headIndex` from 0.
use exchange_engine.Base.{
  if◌then◌else◌, ℕ, ◌-◌, ◌<◌, ◌≡◌, refl, false, Option, none, some, arith, inl, inr, Bool-cases,
  ◌==◌, get_or-beyond, is_some,
}
use exchange_engine.Core.Types.{is_buy, Side, buy, sell}
use exchange_engine.Core.Ladder.{
  RingPriceLadder, slot_level, best_level, best_buy, best_sell, first_active_level_in_range,
  last_active_level_in_range,
}
use exchange_engine.Core.Ladder.Consistent.{IsConsistent}
use exchange_engine.Core.Ladder.Scan.{Finds}
use exchange_engine.Core.Ladder.Search.{Lowest, Highest, active_levels_in_range}

-- The best slot: the highest on the bids, the lowest on the asks.
abbrev pub BestSlot : RingPriceLadder → Side → Option ℕ → Type 0
BestSlot l buy r = Highest l 0 (l.capacity - 1) r
BestSlot l sell r = Lowest l 0 (l.capacity - 1) r

best_buy_lem :
    (l : RingPriceLadder)
    → l.head_index ≡ 0
    → best_buy l ≡ last_active_level_in_range l 0 (l.capacity - 1)
unfolding best_buy
best_buy_lem l h = simp h

best_sell_lem :
    (l : RingPriceLadder)
    → l.head_index ≡ 0
    → best_sell l ≡ first_active_level_in_range l 0 (l.capacity - 1)
unfolding best_sell
best_sell_lem l h = simp h (kept (first_active_level_in_range l 0 (l.capacity - 1)))
  where
    kept :
        (r : RingPriceLadder × Option ℕ)
        → (if is_some r.1
            then r
            else (if false then first_active_level_in_range r.0 0 (0 - 1) else (r.0, none)))
          ≡ r
    kept (k, none) = refl
    kept (k, some i) = refl

no_slots : (l : RingPriceLadder) (j : ℕ) → IsConsistent l → l.capacity ≡ 0 → slot_level l j ≡ none
no_slots l j c e = get_or-beyond l.slots j none (omega (arith, c.sized))

best_of_none :
    (l : RingPriceLadder) (side : Side) → IsConsistent l → l.capacity ≡ 0 → BestSlot l side none
best_of_none l buy c e = λ j h k. no_slots l j c e
best_of_none l sell c e = λ j h k. no_slots l j c e

-- The search for the best level of a consistent ladder leaves it as it is and returns the slot of
-- the best level, the highest in use on the bids and the lowest on the asks, or none if no slot is
-- in use.
pub best_level_lem :
    (l : RingPriceLadder)
    → IsConsistent l
    → l.head_index ≡ 0
    → Finds l (BestSlot l l.side) (best_level l)
unfolding best_level
best_level_lem l c h = elim (Bool-cases (l.capacity == 0)) [
  | inl e ↦ rw e (refl, best_of_none l l.side c (ground arith))
  | inr e ↦ rw e (sided l.side refl (ground arith))
]
  where
    sided :
        (side : Side)
        → l.side ≡ side
        → l.capacity - 1 < l.capacity
        → Finds l (BestSlot l side) (if is_buy side then best_buy l else best_sell l)
    sided buy e k =
        rw (best_buy_lem l h) ((active_levels_in_range l 0 (l.capacity - 1) c (omega arith) k).1)
    sided sell e k =
        rw (best_sell_lem l h) ((active_levels_in_range l 0 (l.capacity - 1) c (omega arith) k).0)
