-- ===== src/Core/Engine/Snapshots.antt =====
-- include/core/Snapshot.hpp, `EngineCore::snapshot` and `EngineCore::restore`.
use exchange_engine.Base.{
  ℕ, Option, none, some, List, [], ◌∷◌, ◌++◌, map, Map, lookup, insert, ltb, if◌then◌else◌,
}
use exchange_engine.Core.FixedPoint.{Price, Quantity}
use exchange_engine.Core.Types.{Order, SymbolConfig}
use exchange_engine.Core.Level.{PriceLevel, empty}
use exchange_engine.Core.Sequence
use exchange_engine.Core.Sequence.{SequenceState}
use exchange_engine.Core.Idempotency
use exchange_engine.Core.Idempotency.{IdempotencySnapshot}
use exchange_engine.Core.SideBook.{SideBook, find_at}
use exchange_engine.Core.OrderBook.State.{
  OrderBook, OrderRef, init, book_for_side, insert_remaining_as_resting,
}
use exchange_engine.Core.OrderBook.Liquidity.{sort_by, sorts_before}
use exchange_engine.Core.Engine.State.{EngineCore}

pub record PriceLevelSnapshot : Type 0 where
  pub price : Price
  pub total_quantity : Quantity
  pub order_ids : List ℕ

-- `OrderSnapshot` has the fields of an order less its links, which `Order` leaves out.
abbrev pub OrderSnapshot : Type 0
OrderSnapshot = Order

abbrev pub snapshot_order : Order → OrderSnapshot
snapshot_order o = record {
  order_id = o.order_id;
  client_order_id = o.client_order_id;
  user_id = o.user_id;
  symbol_id = o.symbol_id;
  side = o.side;
  price = o.price;
  original_quantity = o.original_quantity;
  remaining_quantity = o.remaining_quantity;
  sequence_accepted = o.sequence_accepted;
}

abbrev pub restore_order : OrderSnapshot → Order
restore_order s = record {
  order_id = s.order_id;
  client_order_id = s.client_order_id;
  user_id = s.user_id;
  symbol_id = s.symbol_id;
  side = s.side;
  price = s.price;
  original_quantity = s.original_quantity;
  remaining_quantity = s.remaining_quantity;
  sequence_accepted = s.sequence_accepted;
}

pub record OrderBookSnapshot : Type 0 where
  pub symbol_id : ℕ
  pub symbol_config : SymbolConfig
  pub bid_levels : List PriceLevelSnapshot
  pub ask_levels : List PriceLevelSnapshot
  pub active_orders : List OrderSnapshot
  pub client_order_id_to_order_id : Map ℕ

pub record EngineSnapshot : Type 0 where
  pub symbol_snapshots : List OrderBookSnapshot
  pub sequence_state : SequenceState
  pub idempotency_state : IdempotencySnapshot

abbrev pub level_snapshot : PriceLevel → PriceLevelSnapshot
level_snapshot v = record {
  price = v.price;
  total_quantity = v.total_quantity;
  order_ids = map (λ o. o.order_id) v.orders;
}

-- `append_level_snapshot` over the slots, then over the entries of the map.
unfoldable pub slot_snapshots : List (Option PriceLevel) → List PriceLevelSnapshot
slot_snapshots [] = []
slot_snapshots (none ∷ slots) = slot_snapshots slots
slot_snapshots (some v ∷ slots) =
    if empty v then slot_snapshots slots else level_snapshot v ∷ slot_snapshots slots

unfoldable pub entry_snapshots : List (Price × PriceLevel) → List PriceLevelSnapshot
entry_snapshots [] = []
entry_snapshots ((p, v) ∷ m) =
    if empty v then entry_snapshots m else level_snapshot v ∷ entry_snapshots m

unfoldable pub side_snapshots : SideBook → List PriceLevelSnapshot
unfolding slot_snapshots entry_snapshots sort_by
side_snapshots s =
    sort_by (λ v w. sorts_before s.side v.price w.price)
      (slot_snapshots s.ladder.slots ++ entry_snapshots s.far_map.levels)

-- The orders that `orderById` points to; a pointer here always has a target.
unfoldable pub indexed_orders : OrderBook → Map OrderRef → List OrderSnapshot
indexed_orders b [] = []
indexed_orders b ((id, (side, place)) ∷ m) = elim (find_at (book_for_side b side) place id) [
  | none ↦ indexed_orders b m
  | some o ↦ snapshot_order o ∷ indexed_orders b m
]

unfoldable pub active_orders : OrderBook → List OrderSnapshot
unfolding indexed_orders sort_by
active_orders b = sort_by (λ x y. ltb x.order_id y.order_id) (indexed_orders b b.order_by_id)

unfoldable pub book_snapshot : ℕ → OrderBook → OrderBookSnapshot
unfolding side_snapshots active_orders
book_snapshot symbol_id b = record {
  symbol_id = symbol_id;
  symbol_config = b.symbol_config;
  bid_levels = side_snapshots b.bids;
  ask_levels = side_snapshots b.asks;
  active_orders = active_orders b;
  client_order_id_to_order_id = b.client_order_id_to_order_id;
}

unfoldable pub book_snapshots : Map OrderBook → List OrderBookSnapshot
unfolding book_snapshot
book_snapshots [] = []
book_snapshots ((id, b) ∷ m) = book_snapshot id b ∷ book_snapshots m

unfoldable pub snapshot : EngineCore → EngineSnapshot
unfolding book_snapshots sort_by
snapshot e = record {
  symbol_snapshots = sort_by (λ v w. ltb v.symbol_id w.symbol_id) (book_snapshots e.order_books);
  sequence_state = Sequence.snapshot e.sequence_generator;
  idempotency_state = Idempotency.snapshot e.idempotency_index;
}

unfoldable pub restore_orders : OrderBook → List OrderSnapshot → OrderBook
restore_orders b [] = b
restore_orders b (s ∷ rest) = restore_orders (insert_remaining_as_resting b (restore_order s)) rest

unfoldable pub restore_book : OrderBookSnapshot → OrderBook
unfolding restore_orders
restore_book s = record (restore_orders (init s.symbol_config) s.active_orders) {
  client_order_id_to_order_id = s.client_order_id_to_order_id;
}

-- `emplace` keeps the book that is there.
abbrev pub emplace {ℓ} : {V : Type ℓ} → ℕ → V → Map V → Map V
emplace k v m = elim (lookup k m) [ none ↦ insert k v m | some w ↦ m ]

unfoldable pub restore_symbols : EngineCore → List OrderBookSnapshot → EngineCore
unfolding restore_book
restore_symbols e [] = e
restore_symbols e (s ∷ rest) =
    restore_symbols
      (record e {
        symbol_configs = insert s.symbol_id s.symbol_config e.symbol_configs;
        order_books = emplace s.symbol_id (restore_book s) e.order_books;
      })
      rest

unfoldable pub restore : EngineCore → EngineSnapshot → EngineCore
unfolding restore_symbols
restore e s = restore_symbols cleared s.symbol_snapshots
  where
    cleared : EngineCore
    cleared = record {
      order_books = [];
      symbol_configs = [];
      sequence_generator = Sequence.restore e.sequence_generator s.sequence_state;
      idempotency_index = Idempotency.restore e.idempotency_index s.idempotency_state;
    }
