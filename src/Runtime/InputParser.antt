-- ===== src/Runtime/InputParser.antt =====
-- include/runtime/EngineInputParser.hpp and src/runtime/EngineInputParser.cpp: typed inputs of a
-- message. An exception is a value of `InputError`, with the path and the field its text names.
pub mod Fields
pub mod Ranges
pub mod Inputs
pub mod Kinds
use exchange_engine.Base.{
  ℕ, Bool, not, List, [], ◌∷◌, bytes, same_text, if◌then◌else◌, ℤ, pos, none, leb_ℤ,
}
use exchange_engine.Base.Result.{Result, returns, raises, ◌>>=◌, raise_if}
use exchange_engine.Protocol.Message.{ProtocolMessage, ProtocolError, parse_protocol_message}
use exchange_engine.Adapter.{PlaceOrderInput, CancelOrderInput}
use exchange_engine.Adapter.Inputs.{
  LiquidatePositionInput, MarkPriceUpdatedInput, FundingRateUpdatedInput,
  FundingSettlementTickInput,
}
use exchange_engine.Runtime.InputParser.Fields.{
  InputError, bad_message, expected_type, unsupported_type, rate_scale_not_positive,
  interval_not_rising, require_payload_string, optional_payload_string, require_i64, require_i32,
  require_bool, require_envelope, parse_side, parse_position_side, parse_order_type,
  optional_time_in_force, require_string,
}

pub data ParsedEngineInputKind : Type 0 where
  place_order cancel_order liquidate_position : ParsedEngineInputKind
  mark_price_updated funding_rate_updated funding_settlement_tick : ParsedEngineInputKind

-- The alternatives of the `std::variant`.
pub data ParsedEngineInputValue : Type 0 where
  place_order_input : PlaceOrderInput → ParsedEngineInputValue
  cancel_order_input : CancelOrderInput → ParsedEngineInputValue
  liquidate_position_input : LiquidatePositionInput → ParsedEngineInputValue
  mark_price_updated_input : MarkPriceUpdatedInput → ParsedEngineInputValue
  funding_rate_updated_input : FundingRateUpdatedInput → ParsedEngineInputValue
  funding_settlement_tick_input : FundingSettlementTickInput → ParsedEngineInputValue

pub record ParsedEngineInput : Type 0 where
  pub kind : ParsedEngineInputKind
  pub value : ParsedEngineInputValue

-- `message.type != expected`
abbrev pub expect_type : ProtocolMessage → List ℕ → Result InputError (Unit {0})
expect_type message kind = raise_if (not (same_text message.kind kind)) (expected_type kind)

unfoldable pub parse_place_order : ProtocolMessage → Result InputError PlaceOrderInput
unfolding require_payload_string optional_payload_string require_i64 require_i32 require_bool
    require_envelope parse_order_type optional_time_in_force parse_side parse_position_side
parse_place_order message = do
  let path = bytes "payload"
  u ← expect_type message (bytes "PlaceOrder")
  let payload = message.payload
  input_id ← optional_payload_string payload (bytes "input_id")
  envelope ← require_envelope payload
  order_id ← require_i64 payload (bytes "order_id") path
  reservation_id ← require_payload_string payload (bytes "reservation_id")
  market_id ← require_i64 payload (bytes "market_id") path
  market_name ← require_payload_string payload (bytes "market_name")
  side_text ← require_payload_string payload (bytes "side")
  side ← parse_side side_text
  order_type_text ← require_payload_string payload (bytes "order_type")
  order_type ← parse_order_type order_type_text
  time_in_force ← optional_time_in_force payload
  price ← require_i64 payload (bytes "price") path
  quantity ← require_i64 payload (bytes "quantity") path
  reduce_only ← require_bool payload (bytes "reduce_only") path
  margin_asset ← require_payload_string payload (bytes "margin_asset")
  reserved_margin_amount ← require_i64 payload (bytes "reserved_margin_amount") path
  leverage ← require_i32 payload (bytes "leverage") path
  returns (record {
    input_id = input_id;
    envelope = envelope;
    order_id = order_id;
    reservation_id = reservation_id;
    market_id = market_id;
    market_name = market_name;
    side = side;
    order_type = order_type;
    time_in_force = time_in_force;
    price = price;
    quantity = quantity;
    reduce_only = reduce_only;
    margin_asset = margin_asset;
    reserved_margin_amount = reserved_margin_amount;
    leverage = leverage;
    source = none;
  })

unfoldable pub parse_cancel_order : ProtocolMessage → Result InputError CancelOrderInput
unfolding require_payload_string optional_payload_string require_i64 require_i32 require_bool
    require_envelope parse_order_type optional_time_in_force parse_side parse_position_side
parse_cancel_order message = do
  let path = bytes "payload"
  u ← expect_type message (bytes "CancelOrder")
  let payload = message.payload
  input_id ← optional_payload_string payload (bytes "input_id")
  envelope ← require_envelope payload
  market_id ← require_i64 payload (bytes "market_id") path
  order_id ← require_i64 payload (bytes "order_id") path
  returns (record {
    input_id = input_id;
    envelope = envelope;
    market_id = market_id;
    order_id = order_id;
    source = none;
  })

unfoldable pub parse_liquidate_position : ProtocolMessage → Result InputError LiquidatePositionInput
unfolding require_payload_string optional_payload_string require_i64 require_i32 require_bool
    require_envelope parse_order_type optional_time_in_force parse_side parse_position_side
parse_liquidate_position message = do
  let path = bytes "payload"
  u ← expect_type message (bytes "LiquidatePosition")
  let payload = message.payload
  input_id ← optional_payload_string payload (bytes "input_id")
  envelope ← require_envelope payload
  liquidation_id ← require_payload_string payload (bytes "liquidation_id")
  market_id ← require_i64 payload (bytes "market_id") path
  market_name ← require_payload_string payload (bytes "market_name")
  liquidated_user_id ← require_i64 payload (bytes "liquidated_user_id") path
  position_side_text ← require_payload_string payload (bytes "position_side")
  position_side ← parse_position_side position_side_text
  quantity ← require_i64 payload (bytes "quantity") path
  price ← require_i64 payload (bytes "price") path
  request_source ← optional_payload_string payload (bytes "request_source")
  returns (record {
    input_id = input_id;
    envelope = envelope;
    liquidation_id = liquidation_id;
    market_id = market_id;
    market_name = market_name;
    liquidated_user_id = liquidated_user_id;
    position_side = position_side;
    quantity = quantity;
    price = price;
    request_source = request_source;
    source = none;
  })

unfoldable pub parse_mark_price_updated : ProtocolMessage → Result InputError MarkPriceUpdatedInput
unfolding require_payload_string optional_payload_string require_i64 require_i32 require_bool
    require_envelope parse_order_type optional_time_in_force parse_side parse_position_side
parse_mark_price_updated message = do
  let path = bytes "payload"
  u ← expect_type message (bytes "MarkPriceUpdated")
  let payload = message.payload
  input_id ← optional_payload_string payload (bytes "input_id")
  market_id ← require_i64 payload (bytes "market_id") path
  mark_price ← require_i64 payload (bytes "mark_price") path
  index_price ← require_i64 payload (bytes "index_price") path
  source_timestamp_ms ← require_i64 payload (bytes "source_timestamp_ms") path
  published_at_ms ← require_i64 payload (bytes "published_at_ms") path
  valid_until_ms ← require_i64 payload (bytes "valid_until_ms") path
  source_sequence ← require_i64 payload (bytes "source_sequence") path
  source_status ← require_payload_string payload (bytes "source_status")
  returns (record {
    input_id = input_id;
    market_id = market_id;
    mark_price = mark_price;
    index_price = index_price;
    source_timestamp_ms = source_timestamp_ms;
    published_at_ms = published_at_ms;
    valid_until_ms = valid_until_ms;
    source_sequence = source_sequence;
    source_status = source_status;
    source = none;
  })

unfoldable pub parse_funding_rate_updated :
    ProtocolMessage → Result InputError FundingRateUpdatedInput
unfolding require_payload_string optional_payload_string require_i64 require_i32 require_bool
    require_envelope parse_order_type optional_time_in_force parse_side parse_position_side
parse_funding_rate_updated message = do
  let path = bytes "payload"
  u ← expect_type message (bytes "FundingRateUpdated")
  let payload = message.payload
  input_id ← optional_payload_string payload (bytes "input_id")
  market_id ← require_i64 payload (bytes "market_id") path
  funding_interval_id ← require_payload_string payload (bytes "funding_interval_id")
  rate ← require_i64 payload (bytes "rate") path
  rate_scale ← require_i64 payload (bytes "rate_scale") path
  interval_start_ms ← require_i64 payload (bytes "interval_start_ms") path
  interval_end_ms ← require_i64 payload (bytes "interval_end_ms") path
  source_timestamp_ms ← require_i64 payload (bytes "source_timestamp_ms") path
  w ← raise_if (leb_ℤ rate_scale (pos 0)) rate_scale_not_positive
  x ← raise_if (leb_ℤ interval_end_ms interval_start_ms) interval_not_rising
  returns (record {
    input_id = input_id;
    market_id = market_id;
    funding_interval_id = funding_interval_id;
    rate = rate;
    rate_scale = rate_scale;
    interval_start_ms = interval_start_ms;
    interval_end_ms = interval_end_ms;
    source_timestamp_ms = source_timestamp_ms;
    source = none;
  })

unfoldable pub parse_funding_settlement_tick :
    ProtocolMessage → Result InputError FundingSettlementTickInput
unfolding require_payload_string optional_payload_string require_i64 require_i32 require_bool
    require_envelope parse_order_type optional_time_in_force parse_side parse_position_side
parse_funding_settlement_tick message = do
  let path = bytes "payload"
  u ← expect_type message (bytes "FundingSettlementTick")
  let payload = message.payload
  input_id ← optional_payload_string payload (bytes "input_id")
  market_id ← require_i64 payload (bytes "market_id") path
  funding_interval_id ← require_payload_string payload (bytes "funding_interval_id")
  settle_at_ms ← require_i64 payload (bytes "settle_at_ms") path
  returns (record {
    input_id = input_id;
    market_id = market_id;
    funding_interval_id = funding_interval_id;
    settle_at_ms = settle_at_ms;
    source = none;
  })

-- What a message says it is.
pub data Kind : Type 0 where
  is_place_order is_cancel_order is_liquidate_position is_mark_price_updated is_funding_rate_updated
        is_funding_settlement_tick is_unsupported :
      Kind

abbrev pub kind_of : List ℕ → Kind
kind_of kind =
    if same_text kind (bytes "PlaceOrder")
    then is_place_order
    else (if same_text kind (bytes "CancelOrder")
        then is_cancel_order
        else (if same_text kind (bytes "LiquidatePosition")
            then is_liquidate_position
            else (if same_text kind (bytes "MarkPriceUpdated")
                then is_mark_price_updated
                else (if same_text kind (bytes "FundingRateUpdated")
                    then is_funding_rate_updated
                    else (if same_text kind (bytes "FundingSettlementTick")
                        then is_funding_settlement_tick
                        else is_unsupported)))))

-- `EngineInputParser::parse` of a message.
unfoldable pub parse_message : ProtocolMessage → Result InputError ParsedEngineInput
unfolding parse_place_order parse_cancel_order parse_liquidate_position parse_mark_price_updated
    parse_funding_rate_updated parse_funding_settlement_tick
parse_message message = elim (kind_of message.kind) [
  | is_place_order ↦ do
    input ← parse_place_order message
    returns (record { kind = place_order; value = place_order_input input })
  | is_cancel_order ↦ do
    input ← parse_cancel_order message
    returns (record { kind = cancel_order; value = cancel_order_input input })
  | is_liquidate_position ↦ do
    input ← parse_liquidate_position message
    returns (record { kind = liquidate_position; value = liquidate_position_input input })
  | is_mark_price_updated ↦ do
    input ← parse_mark_price_updated message
    returns (record { kind = mark_price_updated; value = mark_price_updated_input input })
  | is_funding_rate_updated ↦ do
    input ← parse_funding_rate_updated message
    returns (record { kind = funding_rate_updated; value = funding_rate_updated_input input })
  | is_funding_settlement_tick ↦ do
    input ← parse_funding_settlement_tick message
    returns (record { kind = funding_settlement_tick; value = funding_settlement_tick_input input })
  | is_unsupported ↦ raises (unsupported_type message.kind)
]

abbrev pub message_or : Result ProtocolError ProtocolMessage → Result InputError ProtocolMessage
message_or (returns m) = returns m
message_or (raises e) = raises (bad_message e)

unfoldable pub parse : List ℕ → Result InputError ParsedEngineInput
unfolding parse_protocol_message parse_message
parse raw_json = message_or (parse_protocol_message raw_json) >>= parse_message
