-- ===== src/Adapter/Commands.antt =====
-- `map_place_order_to_core` and `map_cancel_order_to_core`.
pub mod Checks
pub mod Same
pub mod Faithful
use exchange_engine.Base.{ℕ, none, some}
use exchange_engine.Core.Types.{
  PlaceOrderCommand, CancelOrderCommand, EngineCommand, place_order, cancel_order,
}
use exchange_engine.Adapter.{
  PlaceOrderInput, CancelOrderInput, OrderMetadata, MappedCommand, Checked, done, ◌>>=◌,
  empty_reservation_id, validate_envelope, require_non_empty, command_id_from_request_id,
  client_order_id_from_idempotency_key, to_core_order_id, to_core_user_id, to_core_symbol_id,
  to_core_price, to_core_quantity, to_core_side, to_core_order_type, to_core_time_in_force,
}

abbrev pub place_command : PlaceOrderCommand → EngineCommand
place_command c = record { kind = place_order; place = some c; cancel = none }

abbrev pub cancel_command : CancelOrderCommand → EngineCommand
cancel_command c = record { kind = cancel_order; place = none; cancel = some c }

abbrev pub metadata_of : PlaceOrderInput → PlaceOrderCommand → OrderMetadata
metadata_of input c = record {
  order_id = c.order_id;
  market_id = input.market_id;
  user_id = input.envelope.user_id;
  side = input.side;
  original_quantity = input.quantity;
  remaining_quantity = input.quantity;
  reduce_only = input.reduce_only;
  margin_asset = input.margin_asset;
  reserved_margin_amount = input.reserved_margin_amount;
  remaining_reserved_margin = input.reserved_margin_amount;
  leverage = input.leverage;
  reservation_id = input.reservation_id;
  place_request_id = input.envelope.request_id;
  place_idempotency_key = input.envelope.idempotency_key;
  place_input_id = input.input_id;
  reply_partition = input.envelope.reply_partition;
  core_client_order_id = c.client_order_id;
  core_place_command_id = c.command_id;
}

unfoldable pub map_place_order_to_core : PlaceOrderInput → ℕ → Checked MappedCommand
map_place_order_to_core input received_sequence = do
  v ← validate_envelope input.envelope
  r ← require_non_empty input.reservation_id empty_reservation_id
  command_id ← command_id_from_request_id input.envelope.request_id
  client_order_id ← client_order_id_from_idempotency_key input.envelope.idempotency_key
  order_id ← to_core_order_id input.order_id
  user_id ← to_core_user_id input.envelope.user_id
  symbol_id ← to_core_symbol_id input.market_id
  price ← to_core_price input.price input.order_type
  quantity ← to_core_quantity input.quantity
  let c : PlaceOrderCommand = record {
    command_id = command_id;
    client_order_id = client_order_id;
    order_id = order_id;
    user_id = user_id;
    symbol_id = symbol_id;
    side = to_core_side input.side;
    order_type = to_core_order_type input.order_type;
    time_in_force = to_core_time_in_force input.time_in_force;
    price = price;
    quantity = quantity;
    received_sequence = received_sequence;
  } in
      done (record { command = place_command c; metadata_to_record = some (metadata_of input c) })

unfoldable pub map_cancel_order_to_core : CancelOrderInput → ℕ → Checked MappedCommand
map_cancel_order_to_core input received_sequence = do
  v ← validate_envelope input.envelope
  command_id ← command_id_from_request_id input.envelope.request_id
  user_id ← to_core_user_id input.envelope.user_id
  symbol_id ← to_core_symbol_id input.market_id
  order_id ← to_core_order_id input.order_id
  client_order_id ← client_order_id_from_idempotency_key input.envelope.idempotency_key
  let c : CancelOrderCommand = record {
    command_id = command_id;
    user_id = user_id;
    symbol_id = symbol_id;
    order_id = order_id;
    client_order_id = client_order_id;
    received_sequence = received_sequence;
  } in
      done (record { command = cancel_command c; metadata_to_record = none })
