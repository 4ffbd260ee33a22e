-- ===== src/Runtime/Records.antt =====
-- include/runtime/EnginePayloadValue.hpp and EngineRuntimeConfig.hpp: the values of a payload and
-- the records that the engine publishes. A `std::map` is the list of its members by rising key, a
-- `PayloadFields`, an unordered map, the list of its entries in the order of iteration.
use exchange_engine.Base.{
  bytes, ℕ, Bool, true, false, Option, none, some, List, [], ◌∷◌, ◌++◌, same_text, if◌then◌else◌, ℤ,
  ◌&&◌, length,
}
use exchange_engine.Core.Level.{is_nil}

mutual
  pub data PayloadValue : Type 0 where
    null : PayloadValue
    boolean : Bool → PayloadValue
    number_text : List ℕ → PayloadValue
    text : List ℕ → PayloadValue
    array : Values → PayloadValue
    object : Fields → PayloadValue

  pub data Values : Type 0 where
    no_values : Values
    value : PayloadValue → Values → Values

  pub data Fields : Type 0 where
    no_fields : Fields
    field : List ℕ → PayloadValue → Fields → Fields

abbrev pub as_string : PayloadValue → Option (List ℕ)
as_string (text s) = some s
as_string _ = none

abbrev pub payload_value_equals_string : PayloadValue → List ℕ → Bool
payload_value_equals_string (text s) right = same_text s right
payload_value_equals_string _ right = false

abbrev pub PayloadFields : Type 0
PayloadFields = List (List ℕ × PayloadValue)

unfoldable pub payload_find : List ℕ → PayloadFields → Option PayloadValue
payload_find key [] = none
payload_find key ((k, v) ∷ fields) = if same_text k key then some v else payload_find key fields

pub record InboundEngineRecord : Type 0 where
  pub topic : List ℕ
  pub partition : ℤ
  pub offset : ℤ
  pub key : Option (List ℕ)
  pub raw_json : List ℕ

pub record EngineOutputRecord : Type 0 where
  pub topic : List ℕ
  pub kind : List ℕ
  pub key : List ℕ
  pub partition : Option ℤ
  pub payload : PayloadFields

pub data EngineProcessStatus : Type 0 where
  processed duplicate rejected : EngineProcessStatus

pub data EngineDuplicateReason : Type 0 where
  no_reason input_id idempotency_key : EngineDuplicateReason

pub record EngineDuplicateInfo : Type 0 where
  pub reason : EngineDuplicateReason
  pub key : List ℕ
  pub original_topic : List ℕ
  pub original_partition : ℤ
  pub original_offset : ℤ
  pub original_input_id : Option (List ℕ)
  pub original_idempotency_key : List ℕ

pub record EngineProcessResult : Type 0 where
  pub status : EngineProcessStatus
  pub duplicate_info : Option EngineDuplicateInfo
  pub replies : List EngineOutputRecord
  pub events : List EngineOutputRecord

abbrev pub is_empty : EngineProcessResult → Bool
is_empty r = is_nil r.replies && is_nil r.events

pub record EngineTraceSummary : Type 0 where
  pub request_id : Option (List ℕ)
  pub source_input_id : Option (List ℕ)
  pub reply_count : ℕ
  pub event_count : ℕ
  pub is_duplicate : Bool
  pub no_output : Bool

abbrev pub is_duplicate_status : EngineProcessStatus → Bool
is_duplicate_status duplicate = true
is_duplicate_status _ = false

-- A non-empty string under the key.
unfoldable pub filled_string : List ℕ → EngineOutputRecord → Option (List ℕ)
unfolding payload_find
filled_string key r = elim (payload_find key r.payload) [
  | none ↦ none
  | some v ↦ elim (as_string v) [ none ↦ none | some s ↦ if is_nil s then none else some s ]
]

-- `capture` over the records: the first that has the string.
unfoldable pub first_filled_string : List ℕ → List EngineOutputRecord → Option (List ℕ)
unfolding filled_string
first_filled_string key [] = none
first_filled_string key (r ∷ rs) = elim (filled_string key r) [
  | none ↦ first_filled_string key rs
  | some s ↦ some s
]

unfoldable pub trace_summary : EngineProcessResult → EngineTraceSummary
unfolding first_filled_string
trace_summary r = record {
  request_id = first_filled_string (bytes "request_id") (r.replies ++ r.events);
  source_input_id = first_filled_string (bytes "source_input_id") (r.replies ++ r.events);
  reply_count = length r.replies;
  event_count = length r.events;
  is_duplicate = is_duplicate_status r.status;
  no_output = is_empty r;
}
