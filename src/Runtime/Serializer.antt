-- ===== src/Runtime/Serializer.antt =====
-- src/runtime/EngineOutputSerializer.cpp: the text of an output record.
pub mod Strings
pub mod Numbers
pub mod Image
pub mod Distinct
pub mod Scalars
pub mod RoundTrip
pub mod Records
use exchange_engine.Base.{
  ℕ, zero, suc, ◌+◌, ◌-◌, ◌/◌, ◌%◌, Bool, true, false, not, ◌&&◌, ◌||◌, List, [], ◌∷◌, ◌++◌, ltb,
  leb, ◌==◌, if◌then◌else◌, bytes, same_text, text_before,
}
use exchange_engine.Core.Level.{is_nil}
use exchange_engine.Core.OrderBook.Liquidity.{sort_by}
use exchange_engine.Protocol.Parser.Lexer.{is_digit, is_non_zero_digit, consume_digits}
use exchange_engine.Protocol.Parser.Numbers.{is_exponent, is_exponent_sign}
use exchange_engine.Runtime.Records.{
  PayloadValue, Values, Fields, null, boolean, number_text, text, array, object, no_values, value,
  no_fields, field, PayloadFields, EngineOutputRecord,
}

-- A digit of `hex`.
abbrev pub hex_digit : ℕ → ℕ
hex_digit n = if ltb n 10 then b'0' + n else b'a' + (n - 10)

unfoldable pub escape_byte : ℕ → List ℕ
escape_byte c =
    if c == 34
    then bytes "\\\""
    else (if c == 92
        then bytes "\\\\"
        else (if c == 8
            then bytes "\\b"
            else (if c == 12
                then bytes "\\f"
                else (if c == 10
                    then bytes "\\n"
                    else (if c == 13
                        then bytes "\\r"
                        else (if c == 9
                            then bytes "\\t"
                            else (if ltb c 32
                                then bytes "\\u00" ++ (hex_digit (c / 16) ∷ hex_digit (c % 16) ∷ [])
                                else c ∷ [])))))))

unfoldable pub escape : List ℕ → List ℕ
unfolding escape_byte
escape [] = []
escape (c ∷ cs) = escape_byte c ++ escape cs

unfoldable pub json_string : List ℕ → List ℕ
unfolding escape
json_string s = 34 ∷ (escape s ++ (34 ∷ []))

abbrev pub integer_fields : List (List ℕ)
integer_fields =
    bytes "account_id"
    ∷ bytes "amount"
    ∷ bytes "base_asset_id"
    ∷ bytes "credit_amount"
    ∷ bytes "debit_amount"
    ∷ bytes "engine_sequence"
    ∷ bytes "engine_timestamp_ms"
    ∷ bytes "fill_id"
    ∷ bytes "index_price"
    ∷ bytes "interval_end_ms"
    ∷ bytes "interval_start_ms"
    ∷ bytes "leverage"
    ∷ bytes "maker_order_id"
    ∷ bytes "maker_user_id"
    ∷ bytes "market_id"
    ∷ bytes "order_id"
    ∷ bytes "position_id"
    ∷ bytes "price"
    ∷ bytes "quantity"
    ∷ bytes "quote_asset_id"
    ∷ bytes "released_amount"
    ∷ bytes "released_quantity"
    ∷ bytes "source_input_offset"
    ∷ bytes "source_sequence"
    ∷ bytes "source_timestamp_ms"
    ∷ bytes "taker_order_id"
    ∷ bytes "taker_user_id"
    ∷ bytes "trade_id"
    ∷ bytes "user_id"
    ∷ bytes "wallet_id"
    ∷ bytes "entry_price"
    ∷ bytes "exit_price"
    ∷ bytes "mark_price"
    ∷ bytes "published_at_ms"
    ∷ bytes "rate"
    ∷ bytes "rate_scale"
    ∷ bytes "valid_until_ms"
    ∷ []

unfoldable pub is_one_of : List ℕ → List (List ℕ) → Bool
is_one_of s [] = false
is_one_of s (t ∷ ts) = same_text t s || is_one_of s ts

unfoldable pub is_integer_payload_field : List ℕ → Bool
unfolding is_one_of
is_integer_payload_field s = is_one_of s integer_fields

unfoldable pub all_digits : List ℕ → Bool
all_digits [] = true
all_digits (c ∷ cs) = is_digit c && all_digits cs

-- From `offset` on.
abbrev pub is_integral : List ℕ → Bool
is_integral [] = false
is_integral (c ∷ cs) = if c == b'0' && not (is_nil cs) then false else all_digits (c ∷ cs)

unfoldable pub is_json_integer : List ℕ → Bool
unfolding all_digits
is_json_integer [] = false
is_json_integer (c ∷ cs) = if c == b'-' then is_integral cs else is_integral (c ∷ cs)

-- The exponent at the end of a number, or nothing.
unfoldable pub ends_number : List ℕ → Bool
unfolding consume_digits
ends_number [] = true
ends_number (c ∷ []) = false
ends_number (c ∷ d ∷ cs) =
    if is_exponent c
    then (let digits = if is_exponent_sign d then cs else d ∷ cs in
        let (ds, rest) = consume_digits digits in not (is_nil ds) && is_nil rest)
    else false

unfoldable pub is_fraction : List ℕ → Bool
unfolding consume_digits ends_number
is_fraction [] = true
is_fraction (c ∷ cs) =
    if c == b'.'
    then (let (ds, rest) = consume_digits cs in not (is_nil ds) && ends_number rest)
    else ends_number (c ∷ cs)

unfoldable pub is_unsigned_number : List ℕ → Bool
unfolding consume_digits is_fraction
is_unsigned_number [] = false
is_unsigned_number (c ∷ cs) =
    if c == b'0'
    then is_fraction cs
    else (if is_non_zero_digit c then is_fraction (consume_digits (c ∷ cs)).1 else false)

unfoldable pub is_json_number : List ℕ → Bool
unfolding is_unsigned_number
is_json_number [] = false
is_json_number (c ∷ cs) = if c == b'-' then is_unsigned_number cs else is_unsigned_number (c ∷ cs)

unfoldable pub append_payload_text : List ℕ → List ℕ → List ℕ
unfolding is_integer_payload_field is_json_integer json_string
append_payload_text key s =
    if is_integer_payload_field key && is_json_integer s then s else json_string s

abbrev pub comma_unless : Bool → List ℕ
comma_unless true = []
comma_unless false = b',' ∷ []

unfoldable mutual
  unfolding append_payload_text is_json_number json_string

  pub append_payload_value : List ℕ → PayloadValue → List ℕ
  append_payload_value key null = bytes "null"
  append_payload_value key (boolean b) = if b then bytes "true" else bytes "false"
  append_payload_value key (number_text n) = if is_json_number n then n else json_string n
  append_payload_value key (text s) = append_payload_text key s
  append_payload_value key (array vs) = b'[' ∷ append_values true vs
  append_payload_value key (object fs) = b'{' ∷ append_fields true fs

  -- The loops, each with the flag `first` and the bracket behind it.
  pub append_values : Bool → Values → List ℕ
  append_values first no_values = b']' ∷ []
  append_values first (value v vs) =
      comma_unless first ++ (append_payload_value [] v ++ append_values false vs)

  pub append_fields : Bool → Fields → List ℕ
  append_fields first no_fields = b'}' ∷ []
  append_fields first (field k v fs) =
      comma_unless first
      ++ (json_string k ++ (b':' ∷ (append_payload_value k v ++ append_fields false fs)))

-- The entries as the members of an object.
abbrev pub fields_of : PayloadFields → Fields
fields_of [] = no_fields
fields_of ((k, v) ∷ entries) = field k v (fields_of entries)

abbrev pub sorted_fields : PayloadFields → PayloadFields
sorted_fields = sort_by (λ a b. text_before a.0 b.0)

-- The braces of the payload are those of `append_fields`.
unfoldable pub serialize_engine_output_record : EngineOutputRecord → List ℕ
unfolding json_string append_payload_value sort_by
serialize_engine_output_record r =
    bytes "{\"type\":"
    ++ (json_string r.kind
        ++ (bytes ",\"payload\":{"
            ++ (append_fields true (fields_of (sorted_fields r.payload)) ++ bytes "}")))
