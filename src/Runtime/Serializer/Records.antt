-- ===== src/Runtime/Serializer/Records.antt =====
-- Printed output records, read as messages.
use exchange_engine.Base.{
  ℕ, ◌+◌, ◌*◌, ◌<◌, ◌≤◌, ◌≡◌, refl, sym, ◌∙◌, ap, subst, Bool, true, false, some, List, [], ◌∷◌,
  ◌++◌, arith, length, length-append, bytes, append-nil,
}
use exchange_engine.Base.Result.{returns}
use exchange_engine.Core.Level.{is_nil}
use exchange_engine.Protocol.Json.{
  find_member, emplace, JsonValue, Members, string, object, no_members, member,
}
use exchange_engine.Protocol.Parser.Lexer.{ok, skip_whitespace}
use exchange_engine.Protocol.Parser.{parse_value, parse_json, json_fuel}
use exchange_engine.Protocol.Message.{message_of, parse_protocol_message}
use exchange_engine.Runtime.Records.{
  PayloadValue, Values, Fields, no_values, value, no_fields, field, EngineOutputRecord,
  PayloadFields,
}
use exchange_engine.Runtime.Records as Records
use exchange_engine.Runtime.Serializer.{
  escape_byte, escape, append_payload_text, json_string, append_payload_value, append_values,
  append_fields, comma_unless, sorted_fields, fields_of, serialize_engine_output_record,
  is_integer_payload_field,
}
use exchange_engine.Runtime.Serializer.Numbers.{stops}
use exchange_engine.Runtime.Serializer.Image.{value_image, fields_image}
use exchange_engine.Runtime.Serializer.Distinct.{distinct_fields, payload_has_image}
use exchange_engine.Runtime.Serializer.Scalars.{Begins, begins}
use exchange_engine.Runtime.Serializer.RoundTrip.{
  ReadAs, need_value, need_values, need_fields, value_reads,
}

Begins-long : (text : List ℕ) → Begins text → 0 < length text
Begins-long [] h = absurd h
Begins-long (c ∷ cs) h = omega arith

mutual
  unfolding need_value append_payload_value

  need_value_bound :
      (v : PayloadValue) (key : List ℕ) → need_value v + 1 ≤ 4 * length (append_payload_value key v)
  need_value_bound Records.null key = omega arith
  need_value_bound (Records.boolean true) key = omega arith
  need_value_bound (Records.boolean false) key = omega arith
  need_value_bound (Records.number_text n) key =
      let long = Begins-long _ (begins key (Records.number_text n)) in omega arith
  need_value_bound (Records.text s) key =
      let long = Begins-long _ (begins key (Records.text s)) in omega arith
  need_value_bound (Records.array vs) key = let more = need_values_bound vs true in omega arith
  need_value_bound (Records.object fs) key = let more = need_fields_bound fs true in omega arith

  need_values_bound :
      (vs : Values) (first : Bool) → need_values vs ≤ 4 * length (append_values first vs)
  need_values_bound no_values first = omega arith
  need_values_bound (value v vs) first =
      let one = need_value_bound v [] in
      let more = need_values_bound vs false in
      rw
        (
          length-append (comma_unless first) (append_payload_value [] v ++ append_values false vs),
          length-append (append_payload_value [] v) (append_values false vs),
        )
        (omega arith)

  need_fields_bound :
      (fs : Fields) (first : Bool) → need_fields fs ≤ 4 * length (append_fields first fs)
  need_fields_bound no_fields first = omega arith
  need_fields_bound (field k v fs) first =
      let one = need_value_bound v k in
      let more = need_fields_bound fs false in
      rw
        (
          length-append (comma_unless first)
              (json_string k ++ (b':' ∷ (append_payload_value k v ++ append_fields false fs))),
          length-append (json_string k)
              (b':' ∷ (append_payload_value k v ++ append_fields false fs)),
          length-append (append_payload_value k v) (append_fields false fs),
        )
        (omega arith)

-- A payload value whose image is a JSON value is printed as a text that the parser reads as that
-- value, where no byte that a number goes on with follows it and the fuel is four calls for each
-- byte of the text.
pub parse_value-append_payload_value :
    (key : List ℕ) (v : PayloadValue) (j : JsonValue) (rest : List ℕ) (fuel : ℕ)
    → value_image key v ≡ some j
    → stops rest ≡ true
    → 4 * length (append_payload_value key v) ≤ fuel
    → parse_value fuel (append_payload_value key v ++ rest) ≡ ok (j, rest)
parse_value-append_payload_value key v j rest fuel image stop enough =
    let bound = need_value_bound v key in
    subst (λ o. ReadAs o rest (parse_value fuel (append_payload_value key v ++ rest))) image
      (value_reads fuel key v rest (omega arith) stop)

-- The record as an object with two members.
record_fields : EngineOutputRecord → Fields
record_fields r =
    field (bytes "type") (Records.text r.kind)
      (field (bytes "payload") (Records.object (fields_of (sorted_fields r.payload))) no_fields)

serialized :
    (r : EngineOutputRecord)
    → serialize_engine_output_record r ≡ append_payload_value [] (Records.object (record_fields r))
unfolding serialize_engine_output_record record_fields append_payload_value append_payload_text
    is_integer_payload_field json_string escape escape_byte
serialized r = refl

-- The members by rising key.
abbrev root_of_record : EngineOutputRecord → Members → JsonValue
root_of_record r m =
    object (member (bytes "payload") (object m) (member (bytes "type") (string r.kind) no_members))

record_image :
    (r : EngineOutputRecord) (m : Members)
    → fields_image no_members (fields_of (sorted_fields r.payload)) ≡ some m
    → value_image [] (Records.object (record_fields r)) ≡ some (root_of_record r m)
unfolding value_image record_fields emplace is_integer_payload_field
record_image r m e = two_members (fields_of (sorted_fields r.payload)) e
  where
    two_members :
        (fs : Fields)
        → fields_image no_members fs ≡ some m
        → value_image [] (
            Records.object (
              field
                (bytes "type")
                (Records.text r.kind)
                (field (bytes "payload") (Records.object fs) no_fields)))
          ≡ some (root_of_record r m)
    two_members fs e = rw e refl

json_read :
    (r : EngineOutputRecord) (m : Members)
    → fields_image no_members (fields_of (sorted_fields r.payload)) ≡ some m
    → parse_json (serialize_engine_output_record r) ≡ ok (root_of_record r m)
unfolding parse_json skip_whitespace
json_read r m e =
    let text = append_payload_value [] (Records.object (record_fields r)) in
    let reads : parse_value (json_fuel text) text ≡ ok (root_of_record r m, []) =
      ap (parse_value (json_fuel text)) (sym (append-nil text))
      ∙ parse_value-append_payload_value [] (Records.object (record_fields r)) (root_of_record r m)
          [] (json_fuel text) (record_image r m e) refl (omega arith) in
    ap parse_json (serialized r) ∙ rw reads refl

-- An output record that has a type and in whose payload no key stands twice in an object is printed
-- as a text that is read back as the message of the same type, whose payload is the object of the
-- payload's entries by rising key.
pub parse_protocol_message-serialize_engine_output_record :
    (r : EngineOutputRecord)
    → is_nil r.kind ≡ false
    → distinct_fields (fields_of r.payload) ≡ true
    → (m : Members) × (fields_image no_members (fields_of (sorted_fields r.payload)) ≡ some m)
      × (parse_protocol_message (serialize_engine_output_record r)
          ≡ returns (record { kind = r.kind; payload = object m }))
unfolding parse_protocol_message message_of find_member
parse_protocol_message-serialize_engine_output_record r typed distinct =
    let (m, image) = payload_has_image r.payload distinct in
    (m, image, rw (json_read r m image, typed) refl)
