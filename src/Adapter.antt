-- ===== src/Adapter.antt =====
-- include/adapter/EngineAdapter.hpp and src/adapter/EngineAdapter.cpp: inputs of the outside become
-- commands of the core, and what the core does not keep of an order is stored beside it. A text is
-- the list of its bytes, an exception a value of `AdapterError`.
pub mod Commands
pub mod Inputs
pub mod Stores
pub mod Tests
use Prim.Native.Nat.{bit_xor}
use exchange_engine.Base.{
  ℕ, ◌+◌, ◌-◌, ◌*◌, ◌%◌, ◌^◌, Bool, true, false, ◌&&◌, ◌||◌, Option, none, some, List, [], ◌∷◌, ltb,
  ◌==◌, if◌then◌else◌, is_some, length, ℤ, pos, pos_part, neg_part, ltb_ℤ, leb_ℤ, eqb_ℤ, Map,
  lookup, insert, erase,
}
use exchange_engine.Core.FixedPoint.{Price, Quantity}
use exchange_engine.Core.Types.{
  Side, buy, sell, OrderType, limit, market, TimeInForce, gtc, ioc, fok, po, PlaceOrderCommand,
  CancelOrderCommand, EngineCommand, place_order, cancel_order,
}

pub data BrokerTopic : Type 0 where
  engine_input engine_replies engine_events : BrokerTopic

pub record BrokerRecordContext : Type 0 where
  pub topic : BrokerTopic
  pub partition : ℤ
  pub offset : ℤ
  pub key : Option (List ℕ)

pub data AdapterSide : Type 0 where
  long short : AdapterSide

pub data AdapterOrderType : Type 0 where
  limit_order market_order : AdapterOrderType

pub data AdapterTimeInForce : Type 0 where
  till_cancelled immediate fill_or_kill post_only : AdapterTimeInForce

pub record CommandEnvelope : Type 0 where
  pub request_id : List ℕ
  pub idempotency_key : List ℕ
  pub user_id : ℤ
  pub reply_partition : ℤ

pub record PlaceOrderInput : Type 0 where
  pub input_id : Option (List ℕ)
  pub envelope : CommandEnvelope
  pub order_id : ℤ
  pub reservation_id : List ℕ
  pub market_id : ℤ
  pub market_name : List ℕ
  pub side : AdapterSide
  pub order_type : AdapterOrderType
  pub time_in_force : AdapterTimeInForce
  pub price : ℤ
  pub quantity : ℤ
  pub reduce_only : Bool
  pub margin_asset : List ℕ
  pub reserved_margin_amount : ℤ
  pub leverage : ℤ
  pub source : Option BrokerRecordContext

pub record CancelOrderInput : Type 0 where
  pub input_id : Option (List ℕ)
  pub envelope : CommandEnvelope
  pub market_id : ℤ
  pub order_id : ℤ
  pub source : Option BrokerRecordContext

pub record OrderMetadata : Type 0 where
  pub order_id : ℕ
  pub market_id : ℤ
  pub user_id : ℤ
  pub side : AdapterSide
  pub original_quantity : ℤ
  pub remaining_quantity : ℤ
  pub reduce_only : Bool
  pub margin_asset : List ℕ
  pub reserved_margin_amount : ℤ
  pub remaining_reserved_margin : ℤ
  pub leverage : ℤ
  pub reservation_id : List ℕ
  pub place_request_id : List ℕ
  pub place_idempotency_key : List ℕ
  pub place_input_id : Option (List ℕ)
  pub reply_partition : ℤ
  pub core_client_order_id : ℕ
  pub core_place_command_id : ℕ

pub record MappedCommand : Type 0 where
  pub command : EngineCommand
  pub metadata_to_record : Option OrderMetadata

pub data AdapterError : Type 0 where
  empty_request_id empty_idempotency_key empty_reservation_id : AdapterError
  market_outside_range user_outside_range order_id_not_positive : AdapterError
  negative_price limit_price_zero quantity_not_positive : AdapterError
  market_not_positive sequence_not_positive : AdapterError

pub data Checked {ℓ} (A : Type ℓ) : Type ℓ where
  done : A → Checked A
  throws : AdapterError → Checked A

infixl 5 ◌>>=◌
abbrev pub ◌>>=◌ {ℓ κ} : {A : Type ℓ} {B : Type κ} → Checked A → (A → Checked B) → Checked B
done a >>= f = f a
throws e >>= f = throws e

-- One byte of the FNV-1a hash; the word wraps at 2 ^ 64.
abbrev pub hash_byte : ℕ → ℕ → ℕ
hash_byte hash c = bit_xor hash c * 1099511628211 % 2 ^ 64

unfoldable pub hash_bytes : ℕ → List ℕ → ℕ
hash_bytes hash [] = hash
hash_bytes hash (c ∷ cs) = hash_bytes (hash_byte hash c) cs

unfoldable pub stable_string_id : List ℕ → ℕ
stable_string_id value =
    let hash = hash_bytes 14695981039346656037 value in if hash == 0 then 1 else hash

unfoldable pub require_non_empty : List ℕ → AdapterError → Checked (Unit {0})
require_non_empty [] e = throws e
require_non_empty (c ∷ cs) e = done tt

unfoldable pub to_core_symbol_id : ℤ → Checked ℕ
to_core_symbol_id m =
    if leb_ℤ m (pos 0) || ltb_ℤ (pos (2 ^ 32 - 1)) m
    then throws market_outside_range
    else done (pos_part m % 2 ^ 32)

-- The second comparison is made on unsigned words.
unfoldable pub to_core_user_id : ℤ → Checked ℕ
to_core_user_id u =
    if ltb_ℤ u (pos 0) || ltb (2 ^ 64 - 1) (pos_part u % 2 ^ 64)
    then throws user_outside_range
    else done (pos_part u % 2 ^ 64)

unfoldable pub to_core_order_id : ℤ → Checked ℕ
to_core_order_id id =
    if leb_ℤ id (pos 0) then throws order_id_not_positive else done (pos_part id % 2 ^ 64)

unfoldable pub to_core_price : ℤ → AdapterOrderType → Checked Price
to_core_price p market_order = if ltb_ℤ p (pos 0) then throws negative_price else done p
to_core_price p limit_order =
    if ltb_ℤ p (pos 0)
    then throws negative_price
    else (if eqb_ℤ p (pos 0) then throws limit_price_zero else done p)

unfoldable pub to_core_quantity : ℤ → Checked Quantity
to_core_quantity q =
    if leb_ℤ q (pos 0) then throws quantity_not_positive else done (pos_part q % 2 ^ 64)

unfoldable pub validate_envelope : CommandEnvelope → Checked (Unit {0})
validate_envelope e = do
  r ← require_non_empty e.request_id empty_request_id
  k ← require_non_empty e.idempotency_key empty_idempotency_key
  u ← to_core_user_id e.user_id
  done tt

unfoldable pub command_id_from_request_id : List ℕ → Checked ℕ
command_id_from_request_id request_id = do
  r ← require_non_empty request_id empty_request_id
  done (stable_string_id request_id)

unfoldable pub client_order_id_from_idempotency_key : List ℕ → Checked ℕ
client_order_id_from_idempotency_key idempotency_key = do
  r ← require_non_empty idempotency_key empty_idempotency_key
  done (stable_string_id idempotency_key)

abbrev pub to_core_side : AdapterSide → Side
to_core_side long = buy
to_core_side short = sell

abbrev pub to_core_order_type : AdapterOrderType → OrderType
to_core_order_type limit_order = limit
to_core_order_type market_order = market

abbrev pub to_core_time_in_force : AdapterTimeInForce → TimeInForce
to_core_time_in_force till_cancelled = gtc
to_core_time_in_force immediate = ioc
to_core_time_in_force fill_or_kill = fok
to_core_time_in_force post_only = po
