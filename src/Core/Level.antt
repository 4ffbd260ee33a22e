-- ===== src/Core/Level.antt =====
-- include/core/PriceLevel.hpp and src/core/PriceLevel.cpp. The chain from `head` by `nextOrder` is
-- the list of the orders, oldest first; `previousOrder` is its reverse and `priceLevel` the level
-- that holds it, so that `push_back` appends and unlinking takes one order out.
use exchange_engine.Base.{
  ℕ, ◌+◌, ◌%◌, ◌^◌, Bool, true, false, Option, none, some, List, [], ◌∷◌, ◌++◌, leb, ◌==◌,
  if◌then◌else◌,
}
use exchange_engine.Core.FixedPoint.{Price, Quantity, add_lots, subtract_lots}
use exchange_engine.Core.Types.{Order}

pub record PriceLevel : Type 0 where
  pub price : Price
  pub total_quantity : Quantity
  pub orders : List Order
  pub order_count : ℕ

abbrev pub new_level : Price → PriceLevel
new_level p = record { price = p; total_quantity = 0; orders = []; order_count = 0 }

abbrev pub is_nil {ℓ} : {A : Type ℓ} → List A → Bool
is_nil [] = true
is_nil (x ∷ xs) = false

abbrev pub empty : PriceLevel → Bool
empty l = is_nil l.orders

abbrev pub first {ℓ} : {A : Type ℓ} → List A → Option A
first [] = none
first (x ∷ xs) = some x

abbrev pub front : PriceLevel → Option Order
front l = first l.orders

abbrev pub increase_total : PriceLevel → Quantity → PriceLevel
increase_total l q = record l { total_quantity = add_lots l.total_quantity q }

abbrev pub decrease_total : PriceLevel → Quantity → PriceLevel
decrease_total l q = record l {
  total_quantity = if leb l.total_quantity q then 0 else subtract_lots l.total_quantity q;
}

unfoldable pub push_back : Order → PriceLevel → PriceLevel
push_back o l = increase_total linked o.remaining_quantity
  where
    linked : PriceLevel
    linked = record l { orders = l.orders ++ (o ∷ []); order_count = (l.order_count + 1) % 2 ^ 64 }

-- The order of the level with an id: the target of an `Order*`.
unfoldable pub find_id : ℕ → List Order → Option Order
find_id id [] = none
find_id id (o ∷ os) = if o.order_id == id then some o else find_id id os

-- The links of SideBook::remove_order: the neighbours of the order are joined.
unfoldable pub unlink : ℕ → List Order → List Order
unlink id [] = []
unlink id (o ∷ os) = if o.order_id == id then os else o ∷ unlink id os
