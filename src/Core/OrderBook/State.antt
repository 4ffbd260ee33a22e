-- ===== src/Core/OrderBook/State.antt =====
-- The state of a book, include/core/OrderBook.hpp, with its index and its sides. The index maps an
-- id to the side and the place of the order's level; the order is the one of that level with the id.
use exchange_engine.Base.{ℕ, Bool, Option, none, some, [], Map, lookup, insert, contains}
use exchange_engine.Core.FixedPoint.{Price, Quantity}
use exchange_engine.Core.Types.{Side, buy, sell, Order, SymbolConfig}
use exchange_engine.Core.SideBook
use exchange_engine.Core.SideBook.{
  SideBook, Place, update, remove_order, update_after_fill_or_cancel, price_crosses, best_order,
  insert_resting_order, find_at, level_at,
}

-- An `Order*` of the index: its side and the place of its level, beside the id that is the key.
abbrev pub OrderRef : Type 0
OrderRef = Side × Place

pub record OrderBook : Type 0 where
  pub symbol_config : SymbolConfig
  pub bids : SideBook
  pub asks : SideBook
  pub order_by_id : Map OrderRef
  pub client_order_id_to_order_id : Map ℕ
  pub last_trade_price : Option Price

unfoldable pub init : SymbolConfig → OrderBook
unfolding SideBook.init
init c = record {
  symbol_config = c;
  bids = SideBook.init buy c.tick_size c.initial_base_tick c.ring_capacity_ticks;
  asks = SideBook.init sell c.tick_size c.initial_base_tick c.ring_capacity_ticks;
  order_by_id = [];
  client_order_id_to_order_id = [];
  last_trade_price = none;
}

abbrev pub book_for_side : OrderBook → Side → SideBook
book_for_side b buy = b.bids
book_for_side b sell = b.asks

abbrev pub opposite_side : Side → Side
opposite_side buy = sell
opposite_side sell = buy

abbrev pub opposing_book : OrderBook → Side → SideBook
opposing_book b side = book_for_side b (opposite_side side)

-- The book after a change of one of its sides.
abbrev pub with_side : OrderBook → Side → SideBook → OrderBook
with_side b buy s = record b { bids = s }
with_side b sell s = record b { asks = s }

unfoldable pub level_total : SideBook → Place → Quantity
level_total s place = elim (level_at s place) [ none ↦ 0 | some v ↦ v.total_quantity ]

unfoldable pub insert_remaining_as_resting : OrderBook → Order → OrderBook
insert_remaining_as_resting b o =
    let side = book_for_side b o.side in
    let place = (SideBook.get_or_create_level_for_price side o.price).1 in
    let indexed = record b {
      order_by_id = elim place [
        | none ↦ b.order_by_id
        | some p ↦ insert o.order_id (o.side, p) b.order_by_id
      ];
      client_order_id_to_order_id =
          insert o.client_order_id o.order_id b.client_order_id_to_order_id;
    } in
    with_side indexed o.side (insert_resting_order side o)

-- `find_order`: the target of the pointer that is indexed.
unfoldable pub find_order : OrderBook → ℕ → Option (Side × Place × Order)
find_order b id = elim (lookup id b.order_by_id) [
  | none ↦ none
  | some (side, place) ↦ elim (find_at (book_for_side b side) place id) [
    | none ↦ none
    | some o ↦ some (side, place, o)
  ]
]

-- The index holds no null pointer.
abbrev pub has_order : OrderBook → ℕ → Bool
has_order b id = contains id b.order_by_id

-- `restingOrder->priceLevel->totalQuantity`
unfoldable pub placed_total : OrderBook → Order → Quantity
placed_total b o = elim (lookup o.order_id b.order_by_id) [
  | none ↦ 0
  | some (side, place) ↦ level_total (book_for_side b side) place
]

unfoldable pub best_bid : OrderBook → Option Place
best_bid b = SideBook.best_level b.bids

unfoldable pub best_ask : OrderBook → Option Place
best_ask b = SideBook.best_level b.asks
