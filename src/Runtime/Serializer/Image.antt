-- ===== src/Runtime/Serializer/Image.antt =====
-- What a printed payload value is as a JSON value.
use exchange_engine.Base.{ℕ, ◌&&◌, Option, none, some, List, [], if◌then◌else◌}
use exchange_engine.Protocol.Json.{
  JsonValue, Items, Members, null, boolean, number, string, array, object, no_items, no_members,
  emplace, push_item,
}
use exchange_engine.Runtime.Records.{
  PayloadValue, Values, Fields, no_values, value, no_fields, field,
}
use exchange_engine.Runtime.Records as Records
use exchange_engine.Runtime.Serializer.{is_integer_payload_field, is_json_integer, is_json_number}

-- The members of an object, one after the other; a key that is there already gives none. A value
-- printed bare is a number, a quoted one a string.
abbrev pub plain_value : List ℕ → PayloadValue → Option JsonValue
plain_value key Records.null = some null
plain_value key (Records.boolean b) = some (boolean b)
plain_value key (Records.number_text n) = some (if is_json_number n then number n else string n)
plain_value key (Records.text s) =
    some (if is_integer_payload_field key && is_json_integer s then number s else string s)
plain_value key _ = none

unfoldable mutual
  unfolding emplace is_integer_payload_field is_json_integer is_json_number

  pub value_image : List ℕ → PayloadValue → Option JsonValue
  value_image key (Records.array vs) = elim (values_image no_items vs) [
    | none ↦ none
    | some xs ↦ some (array xs)
  ]
  value_image key (Records.object fs) = elim (fields_image no_members fs) [
    | none ↦ none
    | some m ↦ some (object m)
  ]
  value_image key v = plain_value key v

  pub values_image : Items → Values → Option Items
  values_image xs no_values = some xs
  values_image xs (value v vs) = elim (value_image [] v) [
    | none ↦ none
    | some j ↦ values_image (push_item j xs) vs
  ]

  pub fields_image : Members → Fields → Option Members
  fields_image m no_fields = some m
  fields_image m (field k v fs) = elim (value_image k v) [
    | none ↦ none
    | some j ↦ elim (emplace k j m) [ none ↦ none | some n ↦ fields_image n fs ]
  ]
