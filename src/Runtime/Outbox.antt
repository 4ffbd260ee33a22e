-- ===== src/Runtime/Outbox.antt =====
-- include/runtime/EngineOutbox.hpp and src/runtime/EngineOutbox.cpp. The publisher is a parameter:
-- its state, and the error of a record and its text. A counter is a word of 64 bits.
pub mod Delivery
use exchange_engine.Base.{
  ℕ, ◌+◌, ◌%◌, ◌^◌, ℤ, Bool, true, false, ◌||◌, Option, none, some, List, [], ◌∷◌, ◌++◌,
  if◌then◌else◌,
}
use exchange_engine.Core.Level.{is_nil}
use exchange_engine.Runtime.Records.{
  is_duplicate_status, EngineOutputRecord, EngineProcessStatus, processed, duplicate, rejected,
  EngineProcessResult, is_empty,
}
use exchange_engine.Runtime.Serializer.{serialize_engine_output_record}

pub record EnginePublishFailure : Type 0 where
  pub topic : List ℕ
  pub key : List ℕ
  pub partition : Option ℤ
  pub kind : List ℕ
  pub error : List ℕ

pub record EnginePublishResult : Type 0 where
  pub attempted : ℕ
  pub published : ℕ
  pub failures : List EnginePublishFailure

abbrev pub is_ok : EnginePublishResult → Bool
is_ok r = is_nil r.failures

abbrev pub no_publish : EnginePublishResult
no_publish = record { attempted = 0; published = 0; failures = [] }

-- `IEnginePublisher::publish`: the new state of the publisher, and its error.
abbrev pub Publish {ℓ} : Type ℓ → Type ℓ
Publish S = S → EngineOutputRecord → List ℕ → S × Option (List ℕ)

abbrev pub failure_of : EngineOutputRecord → List ℕ → EnginePublishFailure
failure_of r e = record {
  topic = r.topic;
  key = r.key;
  partition = r.partition;
  kind = r.kind;
  error = e;
}

abbrev pub attempt : EnginePublishResult → EnginePublishResult
attempt r = record {
  attempted = (r.attempted + 1) % 2 ^ 64;
  published = r.published;
  failures = r.failures;
}

-- What the outcome of one record does to the counts.
abbrev pub count : EngineOutputRecord → Option (List ℕ) → EnginePublishResult → EnginePublishResult
count o none r = record {
  attempted = r.attempted;
  published = (r.published + 1) % 2 ^ 64;
  failures = r.failures;
}
count o (some e) r = record {
  attempted = r.attempted;
  published = r.published;
  failures = r.failures ++ (failure_of o e ∷ []);
}

unfoldable pub publish_records {ℓ} :
    {S : Type ℓ}
    → Publish S
    → S
    → List EngineOutputRecord
    → EnginePublishResult
    → S × EnginePublishResult
unfolding serialize_engine_output_record
publish_records send s [] result = (s, result)
publish_records send s (o ∷ os) result =
    let (s', error) = send s o (serialize_engine_output_record o) in
    publish_records send s' os (count o error (attempt result))

abbrev pub is_rejected_status : EngineProcessStatus → Bool
is_rejected_status rejected = true
is_rejected_status _ = false

unfoldable pub publish {ℓ} :
    {S : Type ℓ} → Publish S → S → EngineProcessResult → S × EnginePublishResult
unfolding publish_records
publish send s result =
    if is_duplicate_status result.status || (is_rejected_status result.status || is_empty result)
    then (s, no_publish)
    else (let (s1, replied) = publish_records send s result.replies no_publish in
        publish_records send s1 result.events replied)
