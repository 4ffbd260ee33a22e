-- ===== src/Runtime/Requests.antt =====
-- The requests that the runtime remembers: `duplicate_result_for`, `mark_processed` and what they
-- call in src/runtime/EngineRuntime.cpp. An unordered map by text is an association list.
pub mod Remembered
use exchange_engine.Base.{
  ℕ, ℤ, Bool, true, false, Option, none, some, List, [], ◌∷◌, same_text, if◌then◌else◌,
}
use exchange_engine.Runtime.Records.{
  InboundEngineRecord, EngineOutputRecord, EngineProcessStatus, processed, duplicate, rejected,
  EngineDuplicateReason, input_id, idempotency_key, EngineDuplicateInfo, EngineProcessResult,
}

pub data RuntimeCommandKind : Type 0 where
  place_request cancel_request mark_price_request funding_rate_request : RuntimeCommandKind
  settlement_request liquidation_request : RuntimeCommandKind

pub data ProcessingMode : Type 0 where
  live replay_silent : ProcessingMode

pub record ProcessedRuntimeRequest : Type 0 where
  pub command_kind : RuntimeCommandKind
  pub topic : List ℕ
  pub partition : ℤ
  pub offset : ℤ
  pub request_input_id : Option (List ℕ)
  pub request_idempotency_key : List ℕ

abbrev pub RequestMap : Type 0
RequestMap = List (List ℕ × ProcessedRuntimeRequest)

pub record ProcessedRequests : Type 0 where
  pub processed_input_ids : RequestMap
  pub processed_idempotency_keys : RequestMap

unfoldable pub find_request : List ℕ → RequestMap → Option ProcessedRuntimeRequest
find_request key [] = none
find_request key ((k, r) ∷ entries) = if same_text k key then some r else find_request key entries

-- `emplace`: the entry that is there stays.
unfoldable pub emplace_request : List ℕ → ProcessedRuntimeRequest → RequestMap → RequestMap
emplace_request key r [] = (key, r) ∷ []
emplace_request key r ((k, q) ∷ entries) =
    if same_text k key then (k, q) ∷ entries else (k, q) ∷ emplace_request key r entries

abbrev pub make_duplicate_result :
    EngineDuplicateReason → List ℕ → ProcessedRuntimeRequest → EngineProcessResult
make_duplicate_result reason key original = record {
  status = duplicate;
  duplicate_info = some (record {
    reason = reason;
    key = key;
    original_topic = original.topic;
    original_partition = original.partition;
    original_offset = original.offset;
    original_input_id = original.request_input_id;
    original_idempotency_key = original.request_idempotency_key;
  });
  replies = [];
  events = [];
}

-- The answer under a key of one of the maps.
abbrev pub found_duplicate :
    EngineDuplicateReason → List ℕ → RequestMap → Option EngineProcessResult
found_duplicate reason key entries = elim (find_request key entries) [
  | none ↦ none
  | some r ↦ some (make_duplicate_result reason key r)
]

unfoldable pub duplicate_input_result_for :
    Option (List ℕ) → ProcessedRequests → Option EngineProcessResult
unfolding find_request
duplicate_input_result_for none p = none
duplicate_input_result_for (some id) p = found_duplicate input_id id p.processed_input_ids

unfoldable pub duplicate_result_for :
    Option (List ℕ) → List ℕ → ProcessedRequests → Option EngineProcessResult
unfolding find_request duplicate_input_result_for
duplicate_result_for id key p = elim (duplicate_input_result_for id p) [
  | some d ↦ some d
  | none ↦ found_duplicate idempotency_key key p.processed_idempotency_keys
]

abbrev pub request_of :
    RuntimeCommandKind → InboundEngineRecord → Option (List ℕ) → List ℕ → ProcessedRuntimeRequest
request_of kind r id key = record {
  command_kind = kind;
  topic = r.topic;
  partition = r.partition;
  offset = r.offset;
  request_input_id = id;
  request_idempotency_key = key;
}

-- The entry of an input id, where the input has one.
abbrev pub emplace_input : Option (List ℕ) → ProcessedRuntimeRequest → RequestMap → RequestMap
emplace_input none r entries = entries
emplace_input (some id) r entries = emplace_request id r entries

unfoldable pub mark_processed :
    RuntimeCommandKind
    → InboundEngineRecord
    → Option (List ℕ)
    → List ℕ
    → ProcessedRequests
    → ProcessedRequests
unfolding emplace_request
mark_processed kind r id key p = record {
  processed_input_ids = emplace_input id (request_of kind r id key) p.processed_input_ids;
  processed_idempotency_keys =
      emplace_request key (request_of kind r id key) p.processed_idempotency_keys;
}

unfoldable pub mark_input_processed :
    RuntimeCommandKind
    → InboundEngineRecord
    → Option (List ℕ)
    → ProcessedRequests
    → ProcessedRequests
unfolding emplace_request
mark_input_processed kind r id p = record {
  processed_input_ids = emplace_input id (request_of kind r id []) p.processed_input_ids;
  processed_idempotency_keys = p.processed_idempotency_keys;
}

abbrev pub rejected_no_output : EngineProcessResult
rejected_no_output = record { status = rejected; duplicate_info = none; replies = []; events = [] }

unfoldable pub apply_processing_mode : EngineProcessResult → ProcessingMode → EngineProcessResult
apply_processing_mode r live = r
apply_processing_mode r replay_silent = record {
  status = r.status;
  duplicate_info = r.duplicate_info;
  replies = [];
  events = [];
}
