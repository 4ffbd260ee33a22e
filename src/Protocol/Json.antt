-- ===== src/Protocol/Json.antt =====
-- include/protocol/Json.hpp and the members of `JsonValue` in src/protocol/Json.cpp. A text is the
-- list of its bytes. The `std::map` of an object is the list of its members by rising key.
use exchange_engine.Base.{
  ℕ, Bool, true, false, Option, none, some, List, same_text, text_before, if◌then◌else◌,
}

mutual
  pub data JsonValue : Type 0 where
    null : JsonValue
    boolean : Bool → JsonValue
    number : List ℕ → JsonValue
    string : List ℕ → JsonValue
    array : Items → JsonValue
    object : Members → JsonValue

  pub data Items : Type 0 where
    no_items : Items
    item : JsonValue → Items → Items

  pub data Members : Type 0 where
    no_members : Members
    member : List ℕ → JsonValue → Members → Members

abbrev pub is_null : JsonValue → Bool
is_null null = true
is_null _ = false

abbrev pub is_string : JsonValue → Bool
is_string (string s) = true
is_string _ = false

abbrev pub is_object : JsonValue → Bool
is_object (object m) = true
is_object _ = false

abbrev pub as_bool : JsonValue → Option Bool
as_bool (boolean b) = some b
as_bool _ = none

abbrev pub as_number : JsonValue → Option (List ℕ)
as_number (number text) = some text
as_number _ = none

abbrev pub as_string : JsonValue → Option (List ℕ)
as_string (string s) = some s
as_string _ = none

abbrev pub as_array : JsonValue → Option Items
as_array (array xs) = some xs
as_array _ = none

abbrev pub as_object : JsonValue → Option Members
as_object (object m) = some m
as_object _ = none

-- `object->find(key)`
unfoldable pub find_member : List ℕ → Members → Option JsonValue
find_member key no_members = none
find_member key (member k v m) = if same_text k key then some v else find_member key m

abbrev pub find : JsonValue → List ℕ → Option JsonValue
find (object m) key = find_member key m
find _ key = none

-- `array.push_back(value)`
abbrev pub push_item : JsonValue → Items → Items
push_item v no_items = item v no_items
push_item v (item w xs) = item w (push_item v xs)

-- `object.emplace(key, value)`: none if the key is there.
unfoldable pub emplace : List ℕ → JsonValue → Members → Option Members
emplace key v no_members = some (member key v no_members)
emplace key v (member k w m) =
    if same_text key k
    then none
    else (if text_before key k
        then some (member key v (member k w m))
        else (elim (emplace key v m) [ none ↦ none | some n ↦ some (member k w n) ]))
