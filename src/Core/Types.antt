-- ===== src/Core/Types.antt =====
-- include/core/Types.hpp, Command.hpp, Event.hpp, Order.hpp and SymbolConfig.hpp: the identifiers,
-- commands, events, orders and symbol settings of the core. Every identifier is an unsigned word.

use exchange_engine.Base.{
  ℕ, ◌%◌, Bool, true, false, ◌&&◌, Option, ltb, leb, ◌==◌, if◌then◌else◌, ℤ, pos, pos_part, leb_ℤ,
  eqb_ℤ, ltb_ℤ, mod_trunc, div_trunc,
}
use exchange_engine.Core.FixedPoint.{
  Price, Quantity, is_valid_price, is_valid_quantity, subtract_lots, is_zero,
}

pub data Side : Type 0 where
  buy sell : Side

pub data OrderType : Type 0 where
  limit market : OrderType

-- Good till cancelled, immediate or cancel, fill or kill, post only.
pub data TimeInForce : Type 0 where
  gtc ioc fok po : TimeInForce

pub data RejectReason : Type 0 where
  invalid_symbol invalid_price invalid_quantity duplicate_command duplicate_order : RejectReason
  order_not_found would_self_trade market_closed insufficient_balance_liquidity : RejectReason

abbrev pub is_buy : Side → Bool
is_buy buy = true
is_buy sell = false

abbrev pub is_limit : OrderType → Bool
is_limit limit = true
is_limit market = false

abbrev pub is_fok : TimeInForce → Bool
is_fok fok = true
is_fok _ = false

abbrev pub is_po : TimeInForce → Bool
is_po po = true
is_po _ = false

-- `timeInForce==GTC || timeInForce==PO`
abbrev pub may_rest : TimeInForce → Bool
may_rest gtc = true
may_rest ioc = false
may_rest fok = false
may_rest po = true

pub record PlaceOrderCommand : Type 0 where
  pub command_id : ℕ
  pub client_order_id : ℕ
  pub order_id : ℕ
  pub user_id : ℕ
  pub symbol_id : ℕ
  pub side : Side
  pub order_type : OrderType
  pub time_in_force : TimeInForce
  pub price : Price
  pub quantity : Quantity
  pub received_sequence : ℕ

pub record CancelOrderCommand : Type 0 where
  pub command_id : ℕ
  pub user_id : ℕ
  pub symbol_id : ℕ
  pub order_id : ℕ
  pub client_order_id : ℕ
  pub received_sequence : ℕ

pub data EngineCommandKind : Type 0 where
  place_order cancel_order : EngineCommandKind

pub record EngineCommand : Type 0 where
  pub kind : EngineCommandKind
  pub place : Option PlaceOrderCommand
  pub cancel : Option CancelOrderCommand

-- The variants of `EngineEvent`; each begins with its event id and its sequence.
pub data EngineEvent : Type 0 where
  order_accepted :
      (event_id sequence order_id client_order_id user_id symbol_id : ℕ)
      → Side
      → Price
      → Quantity
      → EngineEvent
  order_rejected :
      (event_id sequence command_id : ℕ)
      → Option ℕ
      → (user_id symbol_id : ℕ) → RejectReason
      → EngineEvent
  trade_executed :
      (event_id sequence trade_id symbol_id maker_order_id taker_order_id : ℕ)
      → Price
      → Quantity
      → EngineEvent
  order_partial : (event_id sequence order_id filled remaining : ℕ) → EngineEvent
  order_filled : (event_id sequence order_id : ℕ) → EngineEvent
  order_cancelled : (event_id sequence order_id released : ℕ) → EngineEvent
  order_book_delta : (event_id sequence symbol_id : ℕ) → Side → Price → Quantity → EngineEvent

-- `value.sequence` of whichever event it is.
abbrev pub event_sequence : EngineEvent → ℕ
event_sequence (order_accepted e s o c u y side p q) = s
event_sequence (order_rejected e s c o u y r) = s
event_sequence (trade_executed e s t y m k p q) = s
event_sequence (order_partial e s o f r) = s
event_sequence (order_filled e s o) = s
event_sequence (order_cancelled e s o r) = s
event_sequence (order_book_delta e s y side p q) = s

abbrev pub event_id : EngineEvent → ℕ
event_id (order_accepted e s o c u y side p q) = e
event_id (order_rejected e s c o u y r) = e
event_id (trade_executed e s t y m k p q) = e
event_id (order_partial e s o f r) = e
event_id (order_filled e s o) = e
event_id (order_cancelled e s o r) = e
event_id (order_book_delta e s y side p q) = e

-- `Order`, less its links: the order's neighbours are those of the list that holds it.
pub record Order : Type 0 where
  pub order_id : ℕ
  pub client_order_id : ℕ
  pub user_id : ℕ
  pub symbol_id : ℕ
  pub side : Side
  pub price : Price
  pub original_quantity : Quantity
  pub remaining_quantity : Quantity
  pub sequence_accepted : ℕ

abbrev pub is_filled : Order → Bool
is_filled o = is_zero o.remaining_quantity

abbrev pub reduce : Order → Quantity → Order
reduce o q = record o { remaining_quantity = subtract_lots o.remaining_quantity q }

pub record SymbolConfig : Type 0 where
  pub symbol_id : ℕ
  pub base_asset_id : ℕ
  pub quote_asset_id : ℕ
  pub tick_size : Price
  pub lot_size : Quantity
  pub min_quantity : Quantity
  pub max_quantity : Quantity
  pub min_price : Price
  pub max_price : Price
  pub ring_capacity_ticks : ℕ
  pub threshold_percentage : ℕ
  pub initial_base_tick : ℤ
  pub price_scale : ℕ
  pub quantity_scale : ℕ
  pub maker_fee_rate : ℕ
  pub taker_fee_rate : ℕ
  pub trading_enabled : Bool

-- `&&` tests the size before the remainder is taken, so the divisor is positive.
unfoldable pub validate_symbol_price : Price → SymbolConfig → Bool
validate_symbol_price p c =
    is_valid_price p
    && (ltb_ℤ (pos 0) c.tick_size
        && (leb_ℤ c.min_price p
            && (leb_ℤ p c.max_price && eqb_ℤ (mod_trunc p (pos_part c.tick_size)) (pos 0))))

unfoldable pub validate_symbol_quantity : Quantity → SymbolConfig → Bool
validate_symbol_quantity q c =
    is_valid_quantity q
    && (ltb 0 c.lot_size && (leb c.min_quantity q && (leb q c.max_quantity && q % c.lot_size == 0)))

-- `price_to_ladder_tick` of RingPriceLadder.cpp and SideBook.cpp.
unfoldable pub price_to_ladder_tick : Price → ℤ → ℤ
price_to_ladder_tick p tick_size =
    if leb_ℤ tick_size (pos 0) then p else div_trunc p (pos_part tick_size)
