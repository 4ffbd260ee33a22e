-- ===== src/Core/Tests/Numbers.antt =====
-- Prices and the ladder.
use exchange_engine.Base.{neg_ℕ, ℕ, ◌<◌, ◌≡◌, refl, List, [], ◌∷◌, ◌++◌, arith, pos}
use exchange_engine.Core.Types.{sell, price_to_ladder_tick}
use exchange_engine.Core.FixedPoint.{ok, price, is_space}
use exchange_engine.Core.FixedPoint.Digits.{AreDigits, value_from}
use exchange_engine.Core.FixedPoint.Parse.{Sign, minus, decimal, price_exact, price_wraps}
use exchange_engine.Core.Ladder.{
  RingPriceLadder, init, best_level, get_or_create_level, remove_level_if_empty, slot_of_price,
  contains_tick, mark_active, ensure_level, price_tick_to_slot, first_active_level_in_range,
  last_active_level_in_range,
}
use exchange_engine.Core.Ladder.Consistent.{IsConsistent}
use exchange_engine.Core.Ladder.Scan.{Finds}
use exchange_engine.Core.Ladder.Operations.{init-IsConsistent, get_or_create-IsConsistent}
use exchange_engine.Core.Ladder.Search.{Lowest, Highest, active_levels_in_range}
use exchange_engine.Core.Ladder.Best.{BestSlot, best_level_lem}

-- Seventy slots, two words of the bitmap, with levels made at the prices 20 and 345.
abbrev fresh : RingPriceLadder
fresh = init sell (pos 5) (pos 2) 70

abbrev one_level : RingPriceLadder
one_level = (get_or_create_level fresh (pos 20)).0

abbrev two_levels : RingPriceLadder
two_levels = (get_or_create_level one_level (pos 345)).0

one_level-IsConsistent : IsConsistent one_level
one_level-IsConsistent =
    (get_or_create-IsConsistent fresh (pos 20)
      (init-IsConsistent sell (pos 5) (pos 2) 70 (omega arith))).0

two_levels-IsConsistent : IsConsistent two_levels
two_levels-IsConsistent = (get_or_create-IsConsistent one_level (pos 345) one_level-IsConsistent).0

get_or_create_example :
    IsConsistent (get_or_create_level one_level (pos 345)).0
    × IsConsistent (remove_level_if_empty one_level (pos 345))
get_or_create_example = get_or_create-IsConsistent one_level (pos 345) one_level-IsConsistent

best_level_example : Finds two_levels (BestSlot two_levels sell) (best_level two_levels)
unfolding init get_or_create_level slot_of_price contains_tick price_to_ladder_tick mark_active
    ensure_level price_tick_to_slot
best_level_example = best_level_lem two_levels two_levels-IsConsistent refl

active_levels_example :
    Finds two_levels (Lowest two_levels 3 69) (first_active_level_in_range two_levels 3 69)
    × Finds two_levels (Highest two_levels 3 69) (last_active_level_in_range two_levels 3 69)
unfolding init get_or_create_level slot_of_price contains_tick price_to_ladder_tick mark_active
    ensure_level price_tick_to_slot
active_levels_example =
    active_levels_in_range two_levels 3 69 two_levels-IsConsistent (omega arith)
      (let last : 69 < 70 = omega arith in last)

-- " -12.5", at a scale of 2.
price_exact_example :
    price ((32 ∷ []) ++ (decimal minus (1 ∷ 2 ∷ []) (5 ∷ []) ++ [])) (pos 2) ≡ ok (neg_ℕ 1250)
unfolding value_from is_space
price_exact_example =
    price_exact 2 minus (1 ∷ 2 ∷ []) (5 ∷ []) (32 ∷ []) [] (omega arith, (omega arith, tt))
      (omega arith, tt) (omega arith) (omega arith) (refl, tt) tt (omega arith)

-- 340282366920938463463374607431768211463 is 2 ^ 128 + 7.
abbrev large : List ℕ
large =
    3 ∷ 4 ∷ 0 ∷ 2 ∷ 8 ∷ 2 ∷ 3 ∷ 6 ∷ 6 ∷ 9 ∷ 2 ∷ 0 ∷ 9 ∷ 3 ∷ 8 ∷ 4 ∷ 6 ∷ 3 ∷ 4 ∷ 6 ∷ 3 ∷ 3 ∷ 7 ∷ 4
    ∷ 6 ∷ 0 ∷ 7 ∷ 4 ∷ 3 ∷ 1 ∷ 7 ∷ 6 ∷ 8 ∷ 2 ∷ 1 ∷ 1 ∷ 4 ∷ 6 ∷ 3 ∷ []

large-AreDigits : AreDigits large
large-AreDigits = ground arith

price_wraps_example : price (decimal Sign.none large []) (pos 0) ≡ ok (pos 7)
unfolding value_from
price_wraps_example =
    price_wraps 0 large [] 0 7 large-AreDigits tt (omega arith) (omega arith) refl (omega arith)
