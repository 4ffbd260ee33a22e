-- ===== src/Core/OrderBook/Place.antt =====
-- `process_place`: the guards of an order, its acceptance, the match and the rest that stays.
pub mod Terms
pub mod Resting
use exchange_engine.Base.{
  ℕ, Bool, not, ◌&&◌, ◌||◌, Option, none, some, [], ◌∷◌, ltb, if◌then◌else◌, contains,
}
use exchange_engine.Core.FixedPoint.{Price, max_price, min_price}
use exchange_engine.Core.Types.{
  is_buy, is_limit, is_fok, is_po, may_rest, RejectReason, duplicate_order, market_closed,
  invalid_quantity, invalid_price, insufficient_balance_liquidity, PlaceOrderCommand,
  order_accepted, order_book_delta, Order, is_filled, validate_symbol_price,
  validate_symbol_quantity,
}
use exchange_engine.Core.Sequence.{SequenceGenerator, take_sequence, take_event_id}
use exchange_engine.Core.SideBook.{price_crosses}
use exchange_engine.Core.OrderBook.State.{
  OrderBook, opposing_book, insert_remaining_as_resting, has_order, placed_total,
}
use exchange_engine.Core.OrderBook.Log.{Log, push_event, reject}
use exchange_engine.Core.OrderBook.Liquidity.{available_crossing_lots}
use exchange_engine.Core.OrderBook.Matching.{Matching, match_incoming_order}

unfoldable pub matching_price_for_command : PlaceOrderCommand → Price
matching_price_for_command c =
    if is_limit c.order_type then c.price else (if is_buy c.side then max_price else min_price)

-- The early returns of `process_place`, in their order.
unfoldable pub place_rejection : OrderBook → PlaceOrderCommand → Option RejectReason
place_rejection b c =
    let opposite = opposing_book b c.side in
    if has_order b c.order_id || contains c.client_order_id b.client_order_id_to_order_id
    then some duplicate_order
    else (if not b.symbol_config.trading_enabled
        then some market_closed
        else (if not (validate_symbol_quantity c.quantity b.symbol_config)
            then some invalid_quantity
            else (if is_limit c.order_type && not (validate_symbol_price c.price b.symbol_config)
                then some invalid_price
                else (if is_po c.time_in_force && price_crosses opposite c.price
                    then some invalid_price
                    else (if is_fok c.time_in_force
                          && ltb
                              (available_crossing_lots opposite (matching_price_for_command c)
                                c.quantity)
                              c.quantity
                        then some insufficient_balance_liquidity
                        else none)))))

abbrev pub incoming_order : PlaceOrderCommand → ℕ → Order
incoming_order c accepted_sequence = record {
  order_id = c.order_id;
  client_order_id = c.client_order_id;
  user_id = c.user_id;
  symbol_id = c.symbol_id;
  side = c.side;
  price = matching_price_for_command c;
  original_quantity = c.quantity;
  remaining_quantity = c.quantity;
  sequence_accepted = accepted_sequence;
}

-- OrderAccepted takes its sequence before its event id.
unfoldable pub accept : OrderBook → PlaceOrderCommand → SequenceGenerator → Matching
unfolding take_sequence take_event_id
accept b c g =
    let (sequence, g1) = take_sequence g in
    let (event_id, g2) = take_event_id g1 in
    let accepted =
      order_accepted event_id sequence c.order_id c.client_order_id c.user_id c.symbol_id c.side
        c.price c.quantity in
    record { book = b; incoming = incoming_order c sequence; log = (accepted ∷ [], g2) }

abbrev pub Outcome : Type 0
Outcome = OrderBook × Log

unfoldable pub rest_remaining : PlaceOrderCommand → Matching → Outcome
rest_remaining c m =
    let resting = record (m.incoming) { price = c.price } in
    let book = insert_remaining_as_resting m.book resting in
    (
      book,
      push_event m.log
          (λ e s. order_book_delta e s c.symbol_id c.side c.price (placed_total book resting)),
    )

abbrev pub can_rest : PlaceOrderCommand → Bool
can_rest c = is_limit c.order_type && may_rest c.time_in_force

unfoldable pub finish_place : PlaceOrderCommand → Matching → Outcome
finish_place c m =
    if can_rest c && not (is_filled m.incoming) then rest_remaining c m else (m.book, m.log)

unfoldable pub process_place : OrderBook → PlaceOrderCommand → SequenceGenerator → Outcome
process_place b c g = elim (place_rejection b c) [
  | some reason ↦ (b, reject g c.command_id c.order_id c.user_id c.symbol_id reason)
  | none ↦ finish_place c (match_incoming_order (accept b c g))
]
