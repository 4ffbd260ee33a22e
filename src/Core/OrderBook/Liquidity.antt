-- ===== src/Core/OrderBook/Liquidity.antt =====
-- `available_crossing_lots`: what a fill-or-kill order could trade.
use exchange_engine.Base.{
  ℕ, ◌+◌, ◌-◌, ◌^◌, Bool, not, Option, none, some, List, [], ◌∷◌, ◌++◌, ltb, leb, if◌then◌else◌,
  ltb_ℤ, leb_ℤ,
}
use exchange_engine.Core.FixedPoint.{Price}
use exchange_engine.Core.Types.{Side, is_buy}
use exchange_engine.Core.Level.{PriceLevel, empty}
use exchange_engine.Core.SideBook.{SideBook}

abbrev pub crosses_level : Side → Price → Price → Bool
crosses_level side incoming resting =
    if is_buy side then leb_ℤ incoming resting else leb_ℤ resting incoming

-- `left->price>right->price` on the bids, `<` on the asks.
abbrev pub sorts_before : Side → Price → Price → Bool
sorts_before side p q = if is_buy side then ltb_ℤ q p else ltb_ℤ p q

-- `std::sort` by a comparator.
unfoldable pub insert_by {ℓ} : {A : Type ℓ} → (A → A → Bool) → A → List A → List A
insert_by before x [] = x ∷ []
insert_by before x (y ∷ ys) = if before y x then y ∷ insert_by before x ys else x ∷ y ∷ ys

unfoldable pub sort_by {ℓ} : {A : Type ℓ} → (A → A → Bool) → List A → List A
unfolding insert_by
sort_by before [] = []
sort_by before (x ∷ xs) = insert_by before x (sort_by before xs)

unfoldable pub filled_slots : List (Option PriceLevel) → List PriceLevel
filled_slots [] = []
filled_slots (none ∷ slots) = filled_slots slots
filled_slots (some v ∷ slots) = if empty v then filled_slots slots else v ∷ filled_slots slots

unfoldable pub filled_entries : List (Price × PriceLevel) → List PriceLevel
filled_entries [] = []
filled_entries ((p, v) ∷ m) = if empty v then filled_entries m else v ∷ filled_entries m

unfoldable pub active_levels_sorted : SideBook → List PriceLevel
unfolding sort_by filled_slots filled_entries
active_levels_sorted s =
    sort_by (λ v w. sorts_before s.side v.price w.price)
      (filled_slots s.ladder.slots ++ filled_entries s.far_map.levels)

abbrev pub max_u64 : ℕ
max_u64 = 2 ^ 64 - 1

-- The loop of `available_crossing_lots` over the levels that are left, with its running total.
unfoldable pub crossing_lots : Side → Price → ℕ → ℕ → List PriceLevel → ℕ
crossing_lots side incoming stop_at total [] = total
crossing_lots side incoming stop_at total (v ∷ vs) =
    let total' = total + v.total_quantity in
    let rest = crossing_lots side incoming stop_at total' vs in
    if not (crosses_level side incoming v.price)
    then total
    else (if ltb (max_u64 - total) v.total_quantity
        then max_u64
        else (if leb stop_at total' then total' else rest))

unfoldable pub available_crossing_lots : SideBook → Price → ℕ → ℕ
unfolding crossing_lots active_levels_sorted
available_crossing_lots s incoming stop_at =
    crossing_lots s.side incoming stop_at 0 (active_levels_sorted s)
