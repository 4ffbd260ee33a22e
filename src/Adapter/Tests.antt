-- ===== src/Adapter/Tests.antt =====
-- Concrete inputs, and the theorems of the adapter applied to them.
use exchange_engine.Base.{
  ◌+◌, ◌%◌, ◌^◌, ◌≡◌, true, false, none, some, [], ◌∷◌, arith, ◌==◌, if◌then◌else◌, pos, contains,
}
use exchange_engine.Adapter.{
  CommandEnvelope, PlaceOrderInput, CancelOrderInput, OrderMetadata, done, long, limit_order,
  till_cancelled,
}
use exchange_engine.Adapter.Commands.{map_place_order_to_core, map_cancel_order_to_core}
use exchange_engine.Adapter.Commands.Checks.{Agrees}
use exchange_engine.Adapter.Commands.Faithful.{
  is_place, is_cancel, IsPlaceOf, IsCancelOf, map_place_order_lem, map_cancel_order_lem,
}
use exchange_engine.Adapter.Stores.{
  MarketSequenceGenerator, sequences_from, next_of, next, peek, insert_metadata, find_metadata,
  erase_metadata, next-peek, insert_metadata_lem,
}

abbrev envelope : CommandEnvelope
envelope = record {
  request_id = b'r' ∷ [];
  idempotency_key = b'k' ∷ [];
  user_id = pos 3;
  reply_partition = pos 0;
}

abbrev place_input : PlaceOrderInput
place_input = record {
  input_id = none;
  envelope = envelope;
  order_id = pos 20;
  reservation_id = b'v' ∷ [];
  market_id = pos 1;
  market_name = [];
  side = long;
  order_type = limit_order;
  time_in_force = till_cancelled;
  price = pos 100;
  quantity = pos 5;
  reduce_only = false;
  margin_asset = [];
  reserved_margin_amount = pos 500;
  leverage = pos 1;
  source = none;
}

abbrev cancel_input : CancelOrderInput
cancel_input = record {
  input_id = none;
  envelope = envelope;
  market_id = pos 1;
  order_id = pos 20;
  source = none;
}

abbrev metadata : OrderMetadata
metadata = record {
  order_id = 20;
  market_id = pos 1;
  user_id = pos 3;
  side = long;
  original_quantity = pos 5;
  remaining_quantity = pos 5;
  reduce_only = false;
  margin_asset = [];
  reserved_margin_amount = pos 500;
  remaining_reserved_margin = pos 500;
  leverage = pos 1;
  reservation_id = [];
  place_request_id = [];
  place_idempotency_key = [];
  place_input_id = none;
  reply_partition = pos 0;
  core_client_order_id = 1;
  core_place_command_id = 1;
}

map_place_order_example :
    Agrees (is_place place_input) (IsPlaceOf place_input 7) (map_place_order_to_core place_input 7)
map_place_order_example =
    map_place_order_lem place_input 7 (omega arith) (omega arith) (omega arith)

map_cancel_order_example :
    Agrees
      (is_cancel cancel_input)
      (IsCancelOf cancel_input 7)
      (map_cancel_order_to_core cancel_input 7)
map_cancel_order_example = map_cancel_order_lem cancel_input 7 (omega arith) (omega arith)

next-peek_example :
    (g' : MarketSequenceGenerator) × (next (sequences_from 1) (pos 4)
      ≡ done (next_of (sequences_from 1) 4, g'))
    × (peek (sequences_from 1) (pos 4) ≡ done (next_of (sequences_from 1) 4))
    × (peek g' (pos 5)
        ≡ done (
            if 4 == 5
            then (next_of (sequences_from 1) 4 + 1) % 2 ^ 64
            else next_of (sequences_from 1) 5))
next-peek_example = next-peek (sequences_from 1) 4 5 (omega arith) (omega arith)

insert_metadata_example :
    let (stored, fresh) = insert_metadata [] metadata in
    (fresh ≡ (if contains {V = OrderMetadata} 20 [] then false else true))
    × (find_metadata stored 20 ≡ (
        if fresh
        then (if 20 == 20 then some metadata else find_metadata [] 20)
        else find_metadata [] 20))
    × (find_metadata (erase_metadata stored 20).0 20
        ≡ (if 20 == 20 then none else find_metadata [] 20))
insert_metadata_example = insert_metadata_lem [] metadata 20
