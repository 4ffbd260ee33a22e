-- ===== src/Runtime/InputParser/Fields.antt =====
-- The fields of an input: the anonymous functions of src/runtime/EngineInputParser.cpp.
use exchange_engine.Base.{
  ℕ, ◌+◌, ◌-◌, ◌*◌, ◌^◌, Bool, not, ◌||◌, Option, none, some, List, [], ◌∷◌, bytes, same_text,
  if◌then◌else◌, leb, ◌==◌, ℤ, pos, negsuc, neg_ℕ, ltb_ℤ,
}
use exchange_engine.Base.Result.{Result, returns, raises, ◌>>=◌, raise_if}
use exchange_engine.Core.Level.{is_nil}
use exchange_engine.Protocol.Json.{JsonValue, null, boolean, number, string, find, is_object}
use exchange_engine.Protocol.Parser.Lexer.{consume_digits}
use exchange_engine.Protocol.Message.{ProtocolError}
use exchange_engine.Adapter.{
  CommandEnvelope, AdapterSide, long, short, AdapterOrderType, limit_order, market_order,
  AdapterTimeInForce, till_cancelled, immediate, fill_or_kill, post_only,
}

pub data InputError : Type 0 where
  bad_message : ProtocolError → InputError
  is_required not_filled_string not_filled_when_present : List ℕ → List ℕ → InputError
  not_integer outside_int32 not_boolean : List ℕ → List ℕ → InputError
  envelope_not_object side_unknown position_side_unknown order_type_unknown : InputError
  time_in_force_unknown time_in_force_empty : InputError
  expected_type unsupported_type : List ℕ → InputError
  rate_scale_not_positive interval_not_rising : InputError

abbrev pub Field {ℓ} : Type ℓ → Type ℓ
Field A = JsonValue → List ℕ → List ℕ → Result InputError A

unfoldable pub require_field : Field JsonValue
require_field value field path = elim (find value field) [
  | none ↦ raises (is_required path field)
  | some v ↦ returns v
]

-- A non-empty string.
abbrev pub filled_text : JsonValue → Option (List ℕ)
filled_text (string (c ∷ cs)) = some (c ∷ cs)
filled_text _ = none

unfoldable pub require_string : Field (List ℕ)
unfolding require_field
require_string value field path = do
  v ← require_field value field path
  (elim (filled_text v) [ none ↦ raises (not_filled_string path field) | some s ↦ returns s ])

-- `require_payload_string`
unfoldable pub require_payload_string : JsonValue → List ℕ → Result InputError (List ℕ)
unfolding require_string
require_payload_string payload field = require_string payload field (bytes "payload")

-- The value of a field that is there and not null.
abbrev pub present : Option JsonValue → Option JsonValue
present none = none
present (some null) = none
present (some v) = some v

unfoldable pub optional_payload_string : JsonValue → List ℕ → Result InputError (Option (List ℕ))
optional_payload_string payload field = elim (present (find payload field)) [
  | none ↦ returns none
  | some v ↦ elim (filled_text v) [
    | none ↦ raises (not_filled_when_present (bytes "payload") field)
    | some s ↦ returns (some s)
  ]
]

unfoldable pub digits_value : ℕ → List ℕ → ℕ
digits_value n [] = n
digits_value n (c ∷ cs) = digits_value (n * 10 + (c - b'0')) cs

-- The number of the digits, up to a bound.
unfoldable pub bounded : ℕ → List ℕ → Option ℕ
unfolding digits_value
bounded top digits =
    if is_nil digits
    then none
    else (if leb (digits_value 0 digits) top then some (digits_value 0 digits) else none)

-- `std::from_chars` of an int64_t: the number, and what is left; none for its errors.
unfoldable pub from_chars : List ℕ → Option (ℤ × List ℕ)
unfolding bounded consume_digits
from_chars [] = none
from_chars (c ∷ cs) =
    if c == b'-'
    then (let (ds, rest) = consume_digits cs in
        elim (bounded (2 ^ 63) ds) [ none ↦ none | some n ↦ some (neg_ℕ n, rest) ])
    else (let (ds, rest) = consume_digits (c ∷ cs) in
        elim (bounded (2 ^ 63 - 1) ds) [ none ↦ none | some n ↦ some (pos n, rest) ])

unfoldable pub parse_integer_text : List ℕ → Option ℤ
unfolding from_chars
parse_integer_text text = elim (from_chars text) [
  | none ↦ none
  | some (n, rest) ↦ if is_nil rest then some n else none
]

-- The text of a number or of a string.
abbrev pub integer_text : JsonValue → Option (List ℕ)
integer_text (number text) = some text
integer_text (string s) = some s
integer_text _ = none

unfoldable pub integer_of : Option (List ℕ) → Option ℤ
unfolding parse_integer_text
integer_of none = none
integer_of (some text) = parse_integer_text text

unfoldable pub require_i64 : Field ℤ
unfolding require_field integer_of
require_i64 value field path = do
  v ← require_field value field path
  (elim (integer_of (integer_text v)) [
    | none ↦ raises (not_integer path field)
    | some n ↦ returns n
  ])

unfoldable pub require_i32 : Field ℤ
unfolding require_i64
require_i32 value field path = do
  n ← require_i64 value field path
  (if ltb_ℤ n (negsuc (2 ^ 31 - 1)) || ltb_ℤ (pos (2 ^ 31 - 1)) n
      then raises (outside_int32 path field)
      else returns n)

unfoldable pub require_bool : Field Bool
unfolding require_field
require_bool value field path = do
  v ← require_field value field path
  (elim v [ boolean b ↦ returns b | _ ↦ raises (not_boolean path field) ])

unfoldable pub require_envelope : JsonValue → Result InputError CommandEnvelope
unfolding require_field require_string require_i64 require_i32
require_envelope payload = do
  let path = bytes "payload.envelope"
  envelope ← require_field payload (bytes "envelope") (bytes "payload")
  u ← raise_if (not (is_object envelope)) envelope_not_object
  request_id ← require_string envelope (bytes "request_id") path
  idempotency_key ← require_string envelope (bytes "idempotency_key") path
  user_id ← require_i64 envelope (bytes "user_id") path
  reply_partition ← require_i32 envelope (bytes "reply_partition") path
  returns (record {
    request_id = request_id;
    idempotency_key = idempotency_key;
    user_id = user_id;
    reply_partition = reply_partition;
  })

unfoldable pub side_of : InputError → List ℕ → Result InputError AdapterSide
side_of e value =
    if same_text value (bytes "LONG")
    then returns long
    else (if same_text value (bytes "SHORT") then returns short else raises e)

unfoldable pub parse_side : List ℕ → Result InputError AdapterSide
unfolding side_of
parse_side = side_of side_unknown

unfoldable pub parse_position_side : List ℕ → Result InputError AdapterSide
unfolding side_of
parse_position_side = side_of position_side_unknown

unfoldable pub parse_order_type : List ℕ → Result InputError AdapterOrderType
parse_order_type value =
    if same_text value (bytes "LIMIT")
    then returns limit_order
    else (if same_text value (bytes "MARKET")
        then returns market_order
        else raises order_type_unknown)

unfoldable pub parse_time_in_force : List ℕ → Result InputError AdapterTimeInForce
parse_time_in_force value =
    if same_text value (bytes "GTC")
    then returns till_cancelled
    else (if same_text value (bytes "IOC")
        then returns immediate
        else (if same_text value (bytes "FOK")
            then returns fill_or_kill
            else (if same_text value (bytes "POST_ONLY") || same_text value (bytes "PO")
                then returns post_only
                else raises time_in_force_unknown)))

unfoldable pub optional_time_in_force : JsonValue → Result InputError AdapterTimeInForce
unfolding parse_time_in_force
optional_time_in_force payload = elim (present (find payload (bytes "time_in_force"))) [
  | none ↦ returns till_cancelled
  | some v ↦ elim (filled_text v) [
    | none ↦ raises time_in_force_empty
    | some s ↦ parse_time_in_force s
  ]
]
