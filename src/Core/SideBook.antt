-- ===== src/Core/SideBook.antt =====
-- include/core/SideBook.hpp and src/core/SideBook.cpp: one side of a book. A `PriceLevel*` is the
-- place of the level, a slot of the ladder or a key of the map; an `Order*` is the place of its
-- level with the order's id.
pub mod Count
pub mod Queues
pub mod Every
pub mod Sides
use exchange_engine.Base.{
  [], ◌∷◌, length, ◌+◌, List, ℕ, ◌-◌, Bool, true, false, ◌||◌, Option, none, some, ltb, ◌==◌,
  if◌then◌else◌, ℤ, pos, ltb_ℤ, leb_ℤ, eqb_ℤ,
}
use exchange_engine.Core.FixedPoint.{Price, Quantity}
use exchange_engine.Core.Types.{Side, is_buy, Order, price_to_ladder_tick}
use exchange_engine.Core.Level.{
  PriceLevel, empty, front, push_back, decrease_total, find_id, unlink,
}
use mathlib.Core.Option
use exchange_engine.Core.Ladder
use exchange_engine.Core.Ladder.{RingPriceLadder, is_spent, slot_level, set_slot}
use exchange_engine.Core.FarMap
use exchange_engine.Core.FarMap.{FarPriceMap}

pub data Place : Type 0 where
  ring : ℕ → Place
  far : Price → Place

abbrev pub same_place : Place → Place → Bool
same_place (ring i) (ring j) = i == j
same_place (ring i) (far p) = false
same_place (far p) (ring i) = false
same_place (far p) (far q) = eqb_ℤ p q

pub record SideBook : Type 0 where
  pub side : Side
  pub ladder : RingPriceLadder
  pub far_map : FarPriceMap
  pub cached_best : Option Place

unfoldable pub init : Side → ℤ → ℤ → ℕ → SideBook
unfolding Ladder.init
init side tick_size base_tick capacity = record {
  side = side;
  ladder = Ladder.init side tick_size base_tick capacity;
  far_map = FarMap.init side;
  cached_best = none;
}

abbrev pub is_better_price : Side → Price → Price → Bool
is_better_price side candidate current =
    if is_buy side then ltb_ℤ current candidate else ltb_ℤ candidate current

-- Reading and writing through a `PriceLevel*`.
unfoldable pub level_at : SideBook → Place → Option PriceLevel
level_at b (ring slot) = slot_level b.ladder slot
level_at b (far p) = FarMap.find p b.far_map.levels

unfoldable pub store : SideBook → Place → PriceLevel → SideBook
store b (ring slot) v = record b { ladder = set_slot b.ladder slot (some v) }
store b (far p) v = record b {
  far_map = record (b.far_map) { levels = FarMap.assign p v b.far_map.levels };
}

unfoldable pub update : SideBook → Place → (PriceLevel → PriceLevel) → SideBook
update b place change = elim (level_at b place) [ none ↦ b | some v ↦ store b place (change v) ]

unfoldable pub price_at : SideBook → Place → Price
price_at b place = elim (level_at b place) [ none ↦ pos 0 | some v ↦ v.price ]

unfoldable pub empty_at : SideBook → Place → Bool
empty_at b place = elim (level_at b place) [ none ↦ true | some v ↦ empty v ]

unfoldable pub spent_at : SideBook → Place → Bool
spent_at b place = elim (level_at b place) [ none ↦ true | some v ↦ is_spent v ]

unfoldable pub get_or_create_level_for_price : SideBook → Price → SideBook × Option Place
get_or_create_level_for_price b p =
    if Ladder.contains_tick b.ladder (price_to_ladder_tick p b.ladder.tick_size_ticks)
    then (
      record b { ladder = (Ladder.get_or_create_level b.ladder p).0 },
      Option.map ring (Ladder.get_or_create_level b.ladder p).1,
    )
    else (record b { far_map = FarMap.get_or_create_level b.far_map p }, some (far p))

-- The cache after an order was put at `place`.
unfoldable pub improve : SideBook → Place → SideBook
improve b place =
    let better = record b { cached_best = some place } in
    elim b.cached_best [
      | none ↦ better
      | some best ↦
          if is_better_price b.side (price_at b place) (price_at b best) then better else b
    ]

unfoldable pub insert_resting_order : SideBook → Order → SideBook
insert_resting_order b o =
    let (created, target) = get_or_create_level_for_price b o.price in
    elim target [ none ↦ created | some place ↦ improve (update created place (push_back o)) place ]

unfoldable pub best_level : SideBook → Option Place
best_level b = elim b.cached_best [
  | none ↦ none
  | some place ↦ if empty_at b place then none else some place
]

unfoldable pub order_front : SideBook → Place → Option Order
order_front b place = elim (level_at b place) [ none ↦ none | some v ↦ front v ]

unfoldable pub best_order : SideBook → Option (Place × Order)
best_order b = elim (best_level b) [
  | none ↦ none
  | some place ↦ elim (order_front b place) [ none ↦ none | some o ↦ some (place, o) ]
]

-- Which of the two best levels the cache takes.
unfoldable pub choose : SideBook → Option ℕ → Option Price → Option Place
choose b none none = none
choose b none (some p) = some (far p)
choose b (some slot) none = some (ring slot)
choose b (some slot) (some p) =
    if is_better_price b.side (price_at b (ring slot)) (price_at b (far p))
    then some (ring slot)
    else some (far p)

unfoldable pub refresh_cached_best : SideBook → SideBook
refresh_cached_best b =
    let (ladder, ring_best) = Ladder.best_level b.ladder in
    let scanned = record b { ladder = ladder } in
    record scanned { cached_best = choose scanned ring_best (FarMap.best_level b.far_map) }

-- `ringPriceLadder.get_level(price)==priceLevel`
unfoldable pub is_ring_level : SideBook → Price → Place → Bool
is_ring_level b p (far q) = false
is_ring_level b p (ring slot) = elim (Ladder.get_level b.ladder p) [
  | none ↦ false
  | some i ↦ i == slot
]

unfoldable pub drop_level : SideBook → Place → SideBook
drop_level b place =
    let p = price_at b place in
    if is_ring_level b p place
    then record b { ladder = Ladder.remove_level_if_empty b.ladder p }
    else record b { far_map = FarMap.remove_level_if_empty b.far_map p }

unfoldable pub is_cached : SideBook → Place → Bool
is_cached b place = elim b.cached_best [ none ↦ false | some best ↦ same_place best place ]

-- `cachedBestLevel==nullptr || cachedBestLevel->empty()`
unfoldable pub is_stale : SideBook → Bool
is_stale b = elim b.cached_best [ none ↦ true | some best ↦ empty_at b best ]

unfoldable pub update_after_fill_or_cancel : SideBook → Place → SideBook
update_after_fill_or_cancel b place =
    let kept = if spent_at b place then drop_level b place else b in
    if is_cached b place || is_stale kept then refresh_cached_best kept else kept

abbrev pub take_out : ℕ → Quantity → PriceLevel → PriceLevel
take_out id remaining v = record (decrease_total v remaining) {
  orders = unlink id v.orders;
  order_count = if ltb 0 v.order_count then v.order_count - 1 else v.order_count;
}

unfoldable pub find_at : SideBook → Place → ℕ → Option Order
find_at b place id = elim (level_at b place) [ none ↦ none | some v ↦ find_id id v.orders ]

-- An `Order*` that is null, or detached from its level, is one that is not found.
unfoldable pub remove_order : SideBook → Place → ℕ → SideBook
remove_order b place id = elim (find_at b place id) [
  | none ↦ b
  | some o ↦ update_after_fill_or_cancel (update b place (take_out id o.remaining_quantity)) place
]

unfoldable pub price_crosses : SideBook → Price → Bool
price_crosses b incoming = elim (best_level b) [
  | none ↦ false
  | some place ↦
      if is_buy b.side then leb_ℤ incoming (price_at b place) else leb_ℤ (price_at b place) incoming
]

abbrev pub count_orders : List (Option PriceLevel) → ℕ
count_orders [] = 0
count_orders (none ∷ slots) = count_orders slots
count_orders (some v ∷ slots) = length v.orders + count_orders slots

abbrev pub count_entries : List (Price × PriceLevel) → ℕ
count_entries [] = 0
count_entries ((p, v) ∷ m) = length v.orders + count_entries m

-- The number of orders that rest on a side.
unfoldable pub resting_count : SideBook → ℕ
resting_count s = count_orders s.ladder.slots + count_entries s.far_map.levels
