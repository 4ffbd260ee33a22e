-- ===== src/Core/OrderBook/Matching.antt =====
-- `match_incoming_order`: the loop that fills an incoming order from the best levels.
pub mod Round
pub mod Termination
pub mod Conservation
pub mod Prices
use exchange_engine.Base.{
  ℕ, zero, suc, ◌+◌, Option, none, some, List, [], ◌∷◌, length, if◌then◌else◌, erase,
}
use exchange_engine.Core.FixedPoint.{Price, Quantity, min_quantity}
use exchange_engine.Core.Types.{Side, trade_executed, order_book_delta, Order, is_filled, reduce}
use exchange_engine.Core.Level.{PriceLevel, decrease_total}
use exchange_engine.Core.SideBook.{
  resting_count, SideBook, Place, update, remove_order, update_after_fill_or_cancel, price_crosses,
  best_order,
}
use exchange_engine.Core.OrderBook.State.{
  OrderBook, book_for_side, opposite_side, opposing_book, with_side, level_total,
}
use exchange_engine.Core.OrderBook.Log.{Log, push_event, push_trade, push_fill}

-- The variables of the matching loop.
pub record Matching : Type 0 where
  pub book : OrderBook
  pub incoming : Order
  pub log : Log

-- The head of the level, reduced by a fill, and the level's total with it.
abbrev pub reduce_first : Quantity → List Order → List Order
reduce_first q [] = []
reduce_first q (o ∷ os) = reduce o q ∷ os

unfoldable pub fill_front : Quantity → PriceLevel → PriceLevel
fill_front q v = record (decrease_total v q) { orders = reduce_first q v.orders }

-- The book after the maker was filled: it leaves, or its level is looked at again.
unfoldable pub settle : OrderBook → Side → SideBook → Place → Order → OrderBook
settle b side s place maker =
    if is_filled maker
    then with_side
        (record b {
          order_by_id = erase maker.order_id b.order_by_id;
          client_order_id_to_order_id = erase maker.client_order_id b.client_order_id_to_order_id;
        })
        side (remove_order s place maker.order_id)
    else with_side b side (update_after_fill_or_cancel s place)

-- One round of the loop against the maker at the front of `place`.
unfoldable pub fill_maker : Matching → Place → Order → Matching
fill_maker m place maker =
    let b = m.book in
    let side = opposite_side m.incoming.side in
    let fill = min_quantity m.incoming.remaining_quantity maker.remaining_quantity in
    let taker = reduce m.incoming fill in
    let left = reduce maker fill in
    let s = update (book_for_side b side) place (fill_front fill) in
    let traded = push_trade m.log (λ e q t.
      trade_executed e q t b.symbol_config.symbol_id maker.order_id taker.order_id maker.price
        fill) in
    let told = push_fill (push_fill traded left) taker in
    let log = push_event told (λ e q.
      order_book_delta e q b.symbol_config.symbol_id maker.side maker.price
        (level_total s place)) in
    record {
      book = settle (record b { last_trade_price = some maker.price }) side s place left;
      incoming = taker;
      log = log;
    }

-- The tests at the head of a round: the maker to fill, or none at a `break` or at the loop's end.
unfoldable pub next_maker : OrderBook → Order → Option (Place × Order)
next_maker b incoming =
    if is_filled incoming
    then none
    else (if price_crosses (opposing_book b incoming.side) incoming.price
        then best_order (opposing_book b incoming.side)
        else none)

-- The loop; `none` means that the fuel ran out.
unfoldable pub match_loop : ℕ → Matching → Option Matching
match_loop zero m = none
match_loop (suc fuel) m = elim (next_maker m.book m.incoming) [
  | none ↦ some m
  | some (place, maker) ↦ match_loop fuel (fill_maker m place maker)
]

-- The rounds that the loop is given: one for each order that it can meet, one to see none, and one
-- to see the incoming order filled.
abbrev pub match_fuel : Matching → ℕ
match_fuel m = resting_count (opposing_book m.book m.incoming.side) + 2

unfoldable pub match_incoming_order : Matching → Matching
match_incoming_order m = elim (match_loop (match_fuel m) m) [ none ↦ m | some done ↦ done ]
