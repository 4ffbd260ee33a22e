-- ===== src/Core/FarMap.antt =====
-- include/core/FarPriceMap.hpp and src/core/FarPriceMap.cpp: the levels outside the ladder, in a
-- `std::map`, here the list of its entries by rising price. A level is named by its key.
pub mod Sorted
pub mod Best
use exchange_engine.Base.{Option, none, some, List, [], ◌∷◌, if◌then◌else◌, ltb_ℤ, eqb_ℤ, is_some}
use mathlib.Core.List.{reverse}
use exchange_engine.Core.FixedPoint.{Price}
use exchange_engine.Core.Types.{Side, is_buy}
use exchange_engine.Core.Level.{PriceLevel, new_level, empty}
use exchange_engine.Core.Ladder.{is_spent}

abbrev pub Entries : Type 0
Entries = List (Price × PriceLevel)

pub record FarPriceMap : Type 0 where
  pub side : Side
  pub levels : Entries

abbrev pub init : Side → FarPriceMap
init side = record { side = side; levels = [] }

unfoldable pub find : Price → Entries → Option PriceLevel
find p [] = none
find p ((k, v) ∷ m) = if eqb_ℤ k p then some v else find p m

-- `levels[p] = v`
unfoldable pub insert : Price → PriceLevel → Entries → Entries
insert p v [] = (p, v) ∷ []
insert p v ((k, w) ∷ m) =
    if eqb_ℤ k p
    then (p, v) ∷ m
    else (if ltb_ℤ p k then (p, v) ∷ (k, w) ∷ m else (k, w) ∷ insert p v m)

-- A write through the pointer to the level of a key.
unfoldable pub assign : Price → PriceLevel → Entries → Entries
assign p v [] = []
assign p v ((k, w) ∷ m) = if eqb_ℤ k p then (k, v) ∷ m else (k, w) ∷ assign p v m

unfoldable pub erase : Price → Entries → Entries
erase p [] = []
erase p ((k, w) ∷ m) = if eqb_ℤ k p then m else (k, w) ∷ erase p m

unfoldable pub get_or_create_level : FarPriceMap → Price → FarPriceMap
get_or_create_level f p =
    if is_some (find p f.levels) then f else record f { levels = insert p (new_level p) f.levels }

unfoldable pub remove_level_if_empty : FarPriceMap → Price → FarPriceMap
remove_level_if_empty f p = elim (find p f.levels) [
  | none ↦ f
  | some v ↦ if is_spent v then record f { levels = erase p f.levels } else f
]

unfoldable pub first_filled : Entries → Option Price
first_filled [] = none
first_filled ((k, v) ∷ m) = if empty v then first_filled m else some k

unfoldable pub best_level : FarPriceMap → Option Price
best_level f = if is_buy f.side then first_filled (reverse f.levels) else first_filled f.levels
