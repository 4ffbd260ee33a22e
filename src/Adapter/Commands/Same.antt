-- ===== src/Adapter/Commands/Same.antt =====
-- What the data of a command and of its metadata have to say, next to those of the input.
use exchange_engine.Base.{◌≡◌, refl}
use exchange_engine.Core.Types.{
  PlaceOrderCommand, Side, buy, sell, OrderType, limit, market, TimeInForce, gtc, ioc, fok, po,
}
use exchange_engine.Adapter.{
  AdapterSide, long, short, AdapterOrderType, limit_order, market_order, AdapterTimeInForce,
  till_cancelled, immediate, fill_or_kill, post_only, OrderMetadata, PlaceOrderInput, to_core_side,
  to_core_order_type, to_core_time_in_force,
}
use exchange_engine.Adapter.Commands.{metadata_of}

-- The sides that mean the same, and so on.
abbrev pub SameSide : AdapterSide → Side → Type 0
SameSide long s = s ≡ buy
SameSide short s = s ≡ sell

abbrev pub SameOrderType : AdapterOrderType → OrderType → Type 0
SameOrderType limit_order t = t ≡ limit
SameOrderType market_order t = t ≡ market

abbrev pub SameTimeInForce : AdapterTimeInForce → TimeInForce → Type 0
SameTimeInForce till_cancelled t = t ≡ gtc
SameTimeInForce immediate t = t ≡ ioc
SameTimeInForce fill_or_kill t = t ≡ fok
SameTimeInForce post_only t = t ≡ po

pub same_side : (s : AdapterSide) → SameSide s (to_core_side s)
same_side long = refl
same_side short = refl

pub same_order_type : (t : AdapterOrderType) → SameOrderType t (to_core_order_type t)
same_order_type limit_order = refl
same_order_type market_order = refl

pub same_time_in_force : (t : AdapterTimeInForce) → SameTimeInForce t (to_core_time_in_force t)
same_time_in_force till_cancelled = refl
same_time_in_force immediate = refl
same_time_in_force fill_or_kill = refl
same_time_in_force post_only = refl

-- The metadata of a new order, nothing of which is filled or released: what the input says of it and
-- the ids of the command.
pub record IsMetadataOf (i : PlaceOrderInput) (c : PlaceOrderCommand) (m : OrderMetadata)
    : Type 0 where
  pub order_id : m.order_id ≡ c.order_id
  pub market_id : m.market_id ≡ i.market_id
  pub user_id : m.user_id ≡ i.envelope.user_id
  pub side : m.side ≡ i.side
  pub quantities : (m.original_quantity ≡ i.quantity) × (m.remaining_quantity ≡ i.quantity)
  pub reduce_only : m.reduce_only ≡ i.reduce_only
  pub margin_asset : m.margin_asset ≡ i.margin_asset
  pub margins :
      (m.reserved_margin_amount ≡ i.reserved_margin_amount)
      × (m.remaining_reserved_margin ≡ i.reserved_margin_amount)
  pub leverage : m.leverage ≡ i.leverage
  pub reservation_id : m.reservation_id ≡ i.reservation_id
  pub request : m.place_request_id ≡ i.envelope.request_id
  pub idempotency_key : m.place_idempotency_key ≡ i.envelope.idempotency_key
  pub input_id : m.place_input_id ≡ i.input_id
  pub reply_partition : m.reply_partition ≡ i.envelope.reply_partition
  pub client_order_id : m.core_client_order_id ≡ c.client_order_id
  pub command_id : m.core_place_command_id ≡ c.command_id

pub metadata_of-IsMetadataOf :
    (i : PlaceOrderInput) (c : PlaceOrderCommand) → IsMetadataOf i c (metadata_of i c)
metadata_of-IsMetadataOf i c = record {
  order_id = refl;
  market_id = refl;
  user_id = refl;
  side = refl;
  quantities = (refl, refl);
  reduce_only = refl;
  margin_asset = refl;
  margins = (refl, refl);
  leverage = refl;
  reservation_id = refl;
  request = refl;
  idempotency_key = refl;
  input_id = refl;
  reply_partition = refl;
  client_order_id = refl;
  command_id = refl;
}
