-- ===== src/Runtime/Tests.antt =====
-- Records, texts and inputs at concrete values.
use exchange_engine.Base.{
  ◌⊎◌, true, is_some, zero, suc, ℕ, ◌+◌, ◌≡◌, refl, false, some, none, List, [], ◌∷◌, ◌++◌, bytes,
  pos, negsuc, length, arith,
}
use exchange_engine.Base.Result.{raises, returns}
use exchange_engine.Protocol.Json.{
  find_member, JsonValue, Members, object, array, string, number, boolean, member, no_members, item,
  no_items,
}
use exchange_engine.Protocol.Parser.Lexer.{ok}
use exchange_engine.Protocol.Parser.Strings.{parse_string}
use exchange_engine.Protocol.Parser.Numbers.{parse_number}
use exchange_engine.Protocol.Parser.{parse_value}
use exchange_engine.Protocol.Message.{ProtocolMessage, parse_protocol_message}
use exchange_engine.Runtime.Records.{
  InboundEngineRecord, PayloadFields, EngineOutputRecord, EngineProcessResult, processed,
  number_text, text, value, no_values,
}
use exchange_engine.Runtime.Records as Records
use exchange_engine.Runtime.Serializer.{
  json_string, is_json_number, append_payload_value, serialize_engine_output_record, fields_of,
  sorted_fields,
}
use exchange_engine.Runtime.Serializer.Strings.{parse_string-json_string}
use exchange_engine.Runtime.Serializer.Numbers.{parse_number-is_json_number}
use exchange_engine.Runtime.Serializer.Distinct.{distinct_fields}
use exchange_engine.Runtime.Serializer.Image.{value_image, value_image, fields_image}
use exchange_engine.Runtime.Serializer.Records.{
  parse_value-append_payload_value, parse_protocol_message-serialize_engine_output_record,
}
use exchange_engine.Runtime.Requests.{
  ProcessedRequests, place_request, duplicate_result_for, mark_processed,
}
use exchange_engine.Runtime.Requests.Remembered.{
  IsRepeat, duplicate_result_for-mark_processed, duplicate_result_for-repeated,
}
use exchange_engine.Adapter.Stores.{sequences_from, next_of}
use exchange_engine.Base.Maps.{insert, lookup}
use exchange_engine.Runtime.Events.{
  emplace_text, market_event_fields, number_value, make_runtime_market_event,
}
use exchange_engine.Runtime.Events.Read.{IsRead, make_runtime_market_event-IsRead}
use exchange_engine.Runtime.Outbox.{Publish, publish}
use exchange_engine.Runtime.Outbox.Delivery.{delivered, publish-delivered, publish_counts}
use exchange_engine.Runtime.InputParser.{
  ParsedEngineInputKind, cancel_order_input, parse_place_order, parse_funding_rate_updated,
  parse_message, cancel_order,
}
use exchange_engine.Runtime.InputParser.Fields.{unsupported_type, parse_integer_text}
use exchange_engine.Runtime.InputParser.Inputs.{
  FitsPlaceOrder, FundingInOrder, parse_place_order_fits, parse_funding_rate_updated_in_order,
}
use exchange_engine.Runtime.InputParser.Kinds.{read_as, message_type, parse_message-message_type}
use exchange_engine.Runtime.Text.{to_string}
use exchange_engine.Runtime.Text.RoundTrip.{parse_integer_text-to_string}
use exchange_engine.Adapter.{
  PlaceOrderInput, CancelOrderInput, CommandEnvelope, long, limit_order, till_cancelled,
}
use exchange_engine.Adapter.Inputs.{FundingRateUpdatedInput}

abbrev trade_payload : PayloadFields
trade_payload =
    (bytes "price", text (bytes "-12"))
    ∷ (
      bytes "levels",
      Records.array (value (number_text (bytes "1.50")) (value Records.null no_values)),
    )
    ∷ (bytes "note", text (bytes "a\"b\\\n"))
    ∷ []

abbrev trade_record : EngineOutputRecord
trade_record = record {
  topic = bytes "engine.events";
  kind = bytes "TradeExecuted";
  key = bytes "7";
  partition = none;
  payload = trade_payload;
}

trade_serialized :
    serialize_engine_output_record trade_record
    ≡ bytes
        "{\"type\":\"TradeExecuted\",\"payload\":{\"levels\":[1.50,null],\"note\":\"a\\\"b\\\\\\n\",\"price\":-12}}"
unfolding serialize_engine_output_record
trade_serialized = refl

parse_protocol_message-serialize_engine_output_record_example :
    (m : Members) × (fields_image no_members (fields_of (sorted_fields trade_payload)) ≡ some m)
    × (parse_protocol_message (serialize_engine_output_record trade_record)
        ≡ returns (record { kind = bytes "TradeExecuted"; payload = object m }))
unfolding distinct_fields
parse_protocol_message-serialize_engine_output_record_example =
    parse_protocol_message-serialize_engine_output_record trade_record refl refl

abbrev levels : Records.PayloadValue
levels = Records.array (value (number_text (bytes "1.50")) (value (text (bytes "x")) no_values))

parse_value-append_payload_value_example :
    parse_value 100 (append_payload_value (bytes "levels") levels ++ bytes ",")
    ≡ ok (array (item (number (bytes "1.50")) (item (string (bytes "x")) no_items)), bytes ",")
unfolding value_image append_payload_value
parse_value-append_payload_value_example =
    parse_value-append_payload_value (bytes "levels") levels
      (array (item (number (bytes "1.50")) (item (string (bytes "x")) no_items))) (bytes ",") 100
      refl refl (omega arith)

parse_string-json_string_example :
    parse_string (json_string (bytes "a\"\\\n") ++ bytes ",") ≡ ok (bytes "a\"\\\n", bytes ",")
parse_string-json_string_example = parse_string-json_string (bytes "a\"\\\n") (bytes ",")

parse_number-is_json_number_example :
    parse_number (bytes "-0.5e+10" ++ bytes "}") ≡ ok (bytes "-0.5e+10", bytes "}")
unfolding is_json_number
parse_number-is_json_number_example =
    parse_number-is_json_number (bytes "-0.5e+10") (bytes "}") refl refl

-- A publisher that counts its calls and refuses the second.
abbrev second_refused : Publish ℕ
second_refused zero o json = (1, none)
second_refused (suc zero) o json = (2, some (bytes "busy"))
second_refused (suc (suc n)) o json = (3 + n, none)

abbrev outcome : EngineProcessResult
outcome = record {
  status = processed;
  duplicate_info = none;
  replies = trade_record ∷ trade_record ∷ [];
  events = trade_record ∷ [];
}

publish-delivered_example : publish second_refused 0 outcome ≡ delivered second_refused 0 outcome
publish-delivered_example = publish-delivered second_refused 0 outcome (omega arith)

publish_counts_example :
    ((publish second_refused 0 outcome).1.attempted ≡ 3)
    × ((publish second_refused 0 outcome).1.published
          + length (publish second_refused 0 outcome).1.failures
        ≡ (publish second_refused 0 outcome).1.attempted)
publish_counts_example = publish_counts second_refused 0 outcome refl (omega arith)

abbrev with_string : List ℕ → List ℕ → Members → Members
with_string k s m = member k (string s) m

abbrev envelope_value : JsonValue
envelope_value = object (
    with_string (bytes "idempotency_key") (bytes "k1") (
      with_string (bytes "reply_partition") (bytes "-1") (
        with_string (bytes "request_id") (bytes "r1")
          (member (bytes "user_id") (number (bytes "42")) no_members))))

abbrev place_message : ProtocolMessage
place_message = record {
  kind = bytes "PlaceOrder";
  payload = object (
      member (bytes "envelope") envelope_value (
        with_string (bytes "leverage") (bytes "10") (
          with_string (bytes "margin_asset") (bytes "USDC") (
            member (bytes "market_id") (number (bytes "1")) (
              with_string (bytes "market_name") (bytes "BTC") (
                member (bytes "order_id") (number (bytes "7")) (
                  with_string (bytes "order_type") (bytes "LIMIT") (
                    with_string (bytes "price") (bytes "-9223372036854775808") (
                      with_string (bytes "quantity") (bytes "9223372036854775807") (
                        member (bytes "reduce_only") (boolean false) (
                          with_string (bytes "reservation_id") (bytes "v1") (
                            with_string (bytes "reserved_margin_amount") (bytes "5")
                              (with_string (bytes "side") (bytes "LONG") no_members)))))))))))));
}

abbrev envelope : CommandEnvelope
envelope = record {
  request_id = bytes "r1";
  idempotency_key = bytes "k1";
  user_id = pos 42;
  reply_partition = negsuc 0;
}

abbrev placed : PlaceOrderInput
placed = record {
  input_id = none;
  envelope = envelope;
  order_id = pos 7;
  reservation_id = bytes "v1";
  market_id = pos 1;
  market_name = bytes "BTC";
  side = long;
  order_type = limit_order;
  time_in_force = till_cancelled;
  price = negsuc 9223372036854775807;
  quantity = pos 9223372036854775807;
  reduce_only = false;
  margin_asset = bytes "USDC";
  reserved_margin_amount = pos 5;
  leverage = pos 10;
  source = none;
}

parse_place_order_fits_example : FitsPlaceOrder placed
unfolding parse_place_order find_member
parse_place_order_fits_example = parse_place_order_fits place_message placed refl

abbrev cancel_message : ProtocolMessage
cancel_message = record {
  kind = bytes "CancelOrder";
  payload = object (
      member (bytes "envelope") envelope_value (
        member (bytes "market_id") (number (bytes "1"))
          (member (bytes "order_id") (number (bytes "7")) no_members)));
}

abbrev cancelled : CancelOrderInput
cancelled = record {
  input_id = none;
  envelope = envelope;
  market_id = pos 1;
  order_id = pos 7;
  source = none;
}

cancel_message_parsed :
    parse_message cancel_message
    ≡ returns (record { kind = cancel_order; value = cancel_order_input cancelled })
unfolding parse_message find_member
cancel_message_parsed = refl

parse_message-message_type_example :
    ((k : ParsedEngineInputKind) × (bytes "CancelOrder" ≡ message_type k)
      × (parse_message cancel_message ≡ read_as k cancel_message))
    ⊎ (((k : ParsedEngineInputKind) → ¬ (bytes "CancelOrder" ≡ message_type k))
        × (parse_message cancel_message ≡ raises (unsupported_type (bytes "CancelOrder"))))
parse_message-message_type_example = parse_message-message_type cancel_message

abbrev funding_message : ProtocolMessage
funding_message = record {
  kind = bytes "FundingRateUpdated";
  payload = object (
      with_string (bytes "funding_interval_id") (bytes "f1") (
        with_string (bytes "input_id") (bytes "i1") (
          member (bytes "interval_end_ms") (number (bytes "20")) (
            member (bytes "interval_start_ms") (number (bytes "10")) (
              member (bytes "market_id") (number (bytes "1")) (
                member (bytes "rate") (number (bytes "-3")) (
                  member (bytes "rate_scale") (number (bytes "100"))
                    (member (bytes "source_timestamp_ms") (number (bytes "9")) no_members))))))));
}

abbrev funding : FundingRateUpdatedInput
funding = record {
  input_id = some (bytes "i1");
  market_id = pos 1;
  funding_interval_id = bytes "f1";
  rate = negsuc 2;
  rate_scale = pos 100;
  interval_start_ms = pos 10;
  interval_end_ms = pos 20;
  source_timestamp_ms = pos 9;
  source = none;
}

parse_funding_rate_updated_in_order_example : FundingInOrder funding
unfolding parse_funding_rate_updated find_member
parse_funding_rate_updated_in_order_example =
    parse_funding_rate_updated_in_order funding_message funding refl

parse_integer_text-to_string_example :
    parse_integer_text (to_string (negsuc 9223372036854775807)) ≡ some (negsuc 9223372036854775807)
parse_integer_text-to_string_example =
    parse_integer_text-to_string (negsuc 9223372036854775807) (omega arith, omega arith)

abbrev inbound : InboundEngineRecord
inbound = record {
  topic = bytes "engine.input";
  partition = pos 3;
  offset = pos 40;
  key = none;
  raw_json = [];
}

abbrev no_requests : ProcessedRequests
no_requests = record { processed_input_ids = []; processed_idempotency_keys = [] }

duplicate_result_for-mark_processed_example :
    is_some (
      duplicate_result_for
        (some (bytes "i"))
        (bytes "k2")
        (mark_processed place_request inbound (some (bytes "i")) (bytes "k") no_requests))
    ≡ true
unfolding duplicate_result_for
duplicate_result_for-mark_processed_example =
    duplicate_result_for-mark_processed place_request inbound (some (bytes "i")) (some (bytes "i"))
      (bytes "k") (bytes "k2") no_requests

duplicate_result_for-repeated_example :
    (answer : EngineProcessResult) × (duplicate_result_for
        (some (bytes "i"))
        (bytes "k")
        (mark_processed place_request inbound (some (bytes "i")) (bytes "k") no_requests)
      ≡ some answer)
    × IsRepeat inbound (some (bytes "i")) (bytes "k") answer
unfolding duplicate_result_for
duplicate_result_for-repeated_example =
    duplicate_result_for-repeated place_request inbound (some (bytes "i")) (bytes "k") no_requests
      refl

abbrev delta_payload : PayloadFields
delta_payload =
    (bytes "bad_debt", number_text (bytes "0")) ∷ (bytes "final_status", text (bytes "FLAT")) ∷ []

abbrev market_event : EngineOutputRecord
market_event = record {
  topic = bytes "engine.events";
  kind = bytes "LiquidationCompleted";
  key = bytes "1";
  partition = none;
  payload =
      market_event_fields (pos 1) inbound (some (bytes "i")) (some (bytes "q")) 5 (pos 77)
        delta_payload;
}

market_event_serialized :
    serialize_engine_output_record market_event
    ≡ bytes
        "{\"type\":\"LiquidationCompleted\",\"payload\":{\"bad_debt\":0,\"engine_event_id\":\"eng_1_5\",\"engine_sequence\":5,\"engine_timestamp_ms\":77,\"final_status\":\"FLAT\",\"market_id\":1,\"request_id\":\"q\",\"source_input_id\":\"i\",\"source_input_offset\":40,\"source_input_partition\":3,\"source_input_topic\":\"engine.input\"}}"
unfolding serialize_engine_output_record market_event_fields number_value emplace_text
market_event_serialized = refl

make_runtime_market_event-IsRead_example :
    IsRead
      (bytes "LiquidationCompleted")
      (pos 1)
      inbound
      (some (bytes "i"))
      (some (bytes "q"))
      (sequences_from 5)
      (record { first_sequence = 5; next_by_market = (1, 6) ∷ [] })
      (pos 77)
      delta_payload
      market_event
unfolding make_runtime_market_event distinct_fields next_of exchange_engine.Base.Maps.insert
    exchange_engine.Base.Maps.lookup
make_runtime_market_event-IsRead_example =
    make_runtime_market_event-IsRead (bytes "LiquidationCompleted") (pos 1) inbound
      (some (bytes "i")) (some (bytes "q")) (sequences_from 5)
      (record { first_sequence = 5; next_by_market = (1, 6) ∷ [] }) (pos 77) delta_payload
      market_event refl refl refl
