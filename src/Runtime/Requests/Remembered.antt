-- ===== src/Runtime/Requests/Remembered.antt =====
-- Requests that come again.
use exchange_engine.Base.{
  ℕ, ◌≡◌, refl, sym, ◌∙◌, ap, subst, Bool, true, false, ◌||◌, Option, none, some, List, [], ◌∷◌,
  same_text, same_text_sound, same_text_refl, if◌then◌else◌, is_some, inl, inr, Bool-cases,
}
use exchange_engine.Runtime.Records.{
  InboundEngineRecord, EngineProcessResult, EngineDuplicateReason, input_id, idempotency_key,
  duplicate, EngineDuplicateInfo,
}
use exchange_engine.Runtime.Requests.{
  RuntimeCommandKind, ProcessedRuntimeRequest, RequestMap, ProcessedRequests, find_request,
  emplace_request, make_duplicate_result, found_duplicate, duplicate_input_result_for,
  duplicate_result_for, request_of, mark_processed,
}

-- What is there, or else a new entry.
abbrev or_new :
    Option ProcessedRuntimeRequest → Bool → ProcessedRuntimeRequest → Option ProcessedRuntimeRequest
or_new (some q) b r = some q
or_new none b r = if b then some r else none

find_request-emplace_request :
    (key other : List ℕ) (r : ProcessedRuntimeRequest) (entries : RequestMap)
    → find_request other (emplace_request key r entries)
      ≡ or_new (find_request other entries) (same_text key other) r
unfolding find_request emplace_request
find_request-emplace_request key other r [] = refl
find_request-emplace_request key other r ((k, q) ∷ entries) = elim (Bool-cases (same_text k key)) [
  | inl e ↦ elim (Bool-cases (same_text k other)) [
    | inl here ↦ rw (e, here) refl
    | inr other_one ↦
        let differs : same_text key other ≡ false =
          subst (λ t. same_text t other ≡ false) (same_text_sound k key e) other_one in
        rw (e, other_one, differs) (unchanged (find_request other entries))
  ]
  | inr e ↦ elim (Bool-cases (same_text k other)) [
    | inl here ↦ rw (e, here) refl
    | inr other_one ↦ rw (e, other_one) (find_request-emplace_request key other r entries)
  ]
]
  where
    unchanged : (o : Option ProcessedRuntimeRequest) → o ≡ or_new o false r
    unchanged none = refl
    unchanged (some x) = refl

abbrev pub same_id : Option (List ℕ) → Option (List ℕ) → Bool
same_id (some i) (some j) = same_text i j
same_id _ _ = false

is_some-or_new :
    (o : Option ProcessedRuntimeRequest) (b : Bool) (r : ProcessedRuntimeRequest)
    → is_some (or_new o b r) ≡ (is_some o || b)
is_some-or_new none true r = refl
is_some-or_new none false r = refl
is_some-or_new (some q) b r = refl

-- What the two maps say decides whether there is an answer.
found_is_some :
    (reason : EngineDuplicateReason) (key : List ℕ) (entries : RequestMap)
    → is_some (found_duplicate reason key entries) ≡ is_some (find_request key entries)
found_is_some reason key entries = go (find_request key entries)
  where
    go :
        (o : Option ProcessedRuntimeRequest)
        → is_some (elim o [ none ↦ none | some r ↦ some (make_duplicate_result reason key r) ])
          ≡ is_some o
    go none = refl
    go (some r) = refl

answer_is_some :
    (o : Option EngineProcessResult) (q : Option EngineProcessResult)
    → is_some (elim o [ some d ↦ some d | none ↦ q ]) ≡ (is_some o || is_some q)
answer_is_some none q = refl
answer_is_some (some d) q = refl

known :
    (id : Option (List ℕ)) (key : List ℕ) (p : ProcessedRequests)
    → is_some (duplicate_result_for id key p) ≡ (
        is_some (duplicate_input_result_for id p)
        || is_some (find_request key p.processed_idempotency_keys))
unfolding duplicate_result_for
known id key p =
    answer_is_some (duplicate_input_result_for id p)
      (found_duplicate idempotency_key key p.processed_idempotency_keys)
    ∙ ap (λ b. is_some (duplicate_input_result_for id p) || b)
        (found_is_some idempotency_key key p.processed_idempotency_keys)

input_known :
    (kind : RuntimeCommandKind) (r : InboundEngineRecord) (id other : Option (List ℕ))
    (key : List ℕ) (p : ProcessedRequests)
    → is_some (duplicate_input_result_for other (mark_processed kind r id key p))
      ≡ (is_some (duplicate_input_result_for other p) || same_id id other)
unfolding duplicate_input_result_for mark_processed
input_known kind r none none key p = refl
input_known kind r (some i) none key p = refl
input_known kind r none (some j) key p =
    or_false (is_some (found_duplicate input_id j p.processed_input_ids))
  where
    or_false : (b : Bool) → b ≡ (b || false)
    or_false true = refl
    or_false false = refl
input_known kind r (some i) (some j) key p =
    found_is_some input_id j
      (emplace_request i (request_of kind r (some i) key) p.processed_input_ids)
    ∙ ap is_some
        (find_request-emplace_request i j (request_of kind r (some i) key) p.processed_input_ids)
    ∙ is_some-or_new (find_request j p.processed_input_ids) (same_text i j)
        (request_of kind r (some i) key)
    ∙ ap (λ b. b || same_text i j) (sym (found_is_some input_id j p.processed_input_ids))

or_shuffle : (a b c d : Bool) → ((a || b) || (c || d)) ≡ ((a || c) || (b || d))
or_shuffle true b c d = refl
or_shuffle false true true d = refl
or_shuffle false true false d = refl
or_shuffle false false c d = refl

-- After a request is marked as processed, a request is taken for a duplicate exactly when it was one
-- before, or it has the same input id, where both have one, or the same idempotency key.
pub duplicate_result_for-mark_processed :
    (kind : RuntimeCommandKind) (r : InboundEngineRecord) (id other : Option (List ℕ))
    (key other_key : List ℕ) (p : ProcessedRequests)
    → is_some (duplicate_result_for other other_key (mark_processed kind r id key p)) ≡ (
        is_some (duplicate_result_for other other_key p)
        || (same_id id other || same_text key other_key))
unfolding mark_processed
duplicate_result_for-mark_processed kind r id other key other_key p =
    let request = request_of kind r id key in
    let q = mark_processed kind r id key p in
    known other other_key q
    ∙ ap (λ b. b || is_some (find_request other_key q.processed_idempotency_keys))
        (input_known kind r id other key p)
    ∙ ap (λ b. (is_some (duplicate_input_result_for other p) || same_id id other) || b)
        (ap is_some
            (find_request-emplace_request key other_key request p.processed_idempotency_keys)
          ∙ is_some-or_new (find_request other_key p.processed_idempotency_keys)
              (same_text key other_key) request)
    ∙ or_shuffle (is_some (duplicate_input_result_for other p)) (same_id id other)
        (is_some (find_request other_key p.processed_idempotency_keys)) (same_text key other_key)
    ∙ ap (λ b. b || (same_id id other || same_text key other_key)) (sym (known other other_key p))

-- By what a request is known again.
abbrev pub known_by : Option (List ℕ) → List ℕ → EngineDuplicateReason × List ℕ
known_by none key = (idempotency_key, key)
known_by (some i) key = (input_id, i)

-- What the answer to a request says that comes again, field by field.
pub record IsRepeat (r : InboundEngineRecord) (id : Option (List ℕ)) (key : List ℕ)
    (answer : EngineProcessResult) : Type 0 where
  pub status : answer.status ≡ duplicate
  pub no_replies : answer.replies ≡ []
  pub no_events : answer.events ≡ []
  pub info : EngineDuplicateInfo
  pub told : answer.duplicate_info ≡ some info
  pub reason : info.reason ≡ (known_by id key).0
  pub under : info.key ≡ (known_by id key).1
  pub topic : info.original_topic ≡ r.topic
  pub partition : info.original_partition ≡ r.partition
  pub offset : info.original_offset ≡ r.offset
  pub first_id : info.original_input_id ≡ id
  pub first_key : info.original_idempotency_key ≡ key

by_key :
    (kind : RuntimeCommandKind) (r : InboundEngineRecord) (key : List ℕ)
    → IsRepeat r none key (make_duplicate_result idempotency_key key (request_of kind r none key))
by_key kind r key = record {
  status = refl;
  no_replies = refl;
  no_events = refl;
  info = _;
  told = refl;
  reason = refl;
  under = refl;
  topic = refl;
  partition = refl;
  offset = refl;
  first_id = refl;
  first_key = refl;
}

by_id :
    (kind : RuntimeCommandKind) (r : InboundEngineRecord) (i key : List ℕ)
    → IsRepeat r (some i) key (make_duplicate_result input_id i (request_of kind r (some i) key))
by_id kind r i key = record {
  status = refl;
  no_replies = refl;
  no_events = refl;
  info = _;
  told = refl;
  reason = refl;
  under = refl;
  topic = refl;
  partition = refl;
  offset = refl;
  first_id = refl;
  first_key = refl;
}

new_entry :
    (key : List ℕ) (r : ProcessedRuntimeRequest) (entries : RequestMap)
    → is_some (find_request key entries) ≡ false
    → find_request key (emplace_request key r entries) ≡ some r
new_entry key r entries h =
    find_request-emplace_request key key r entries
    ∙ rw (same_text_refl key) (go (find_request key entries) h)
  where
    go : (o : Option ProcessedRuntimeRequest) → is_some o ≡ false → or_new o true r ≡ some r
    go none h = refl
    go (some q) h = cc

found_new :
    (reason : EngineDuplicateReason) (key : List ℕ) (entries : RequestMap)
    (q : ProcessedRuntimeRequest)
    → find_request key entries ≡ some q
    → found_duplicate reason key entries ≡ some (make_duplicate_result reason key q)
found_new reason key entries q e =
    ap (λ o. elim o [ none ↦ none | some r ↦ some (make_duplicate_result reason key r) ]) e

or_false_left : (a b : Bool) → (a || b) ≡ false → a ≡ false
or_false_left true b h = h
or_false_left false b h = refl

or_false_right : (a b : Bool) → (a || b) ≡ false → b ≡ false
or_false_right true b h = cc
or_false_right false b h = h

-- A request that was no duplicate and is marked as processed is answered when it comes again: the
-- status is duplicate, there are no replies and no events, the reason and the key are those of its
-- input id if it has one and else of its idempotency key, and the answer names the topic, the
-- partition and the offset of the record that it was first read from, its input id and its
-- idempotency key.
pub duplicate_result_for-repeated :
    (kind : RuntimeCommandKind) (r : InboundEngineRecord) (id : Option (List ℕ)) (key : List ℕ)
    (p : ProcessedRequests)
    → is_some (duplicate_result_for id key p) ≡ false
    → (answer : EngineProcessResult) × (duplicate_result_for id key (mark_processed kind r id key p)
        ≡ some answer)
      × IsRepeat r id key answer
unfolding duplicate_result_for duplicate_input_result_for mark_processed
duplicate_result_for-repeated kind r none key p h =
    let absent = sym (known none key p) ∙ h in
    (
      _,
      found_new idempotency_key key _ (request_of kind r none key)
          (new_entry key (request_of kind r none key) p.processed_idempotency_keys absent),
      by_key kind r key,
    )
duplicate_result_for-repeated kind r (some i) key p h =
    let absent : is_some (duplicate_input_result_for (some i) p) ≡ false =
      or_false_left (is_some (duplicate_input_result_for (some i) p))
        (is_some (find_request key p.processed_idempotency_keys))
        (sym (known (some i) key p) ∙ h) in
    (
      _,
      ap
          (λ o. elim o [
            | some d ↦ some d
            | none ↦
                found_duplicate idempotency_key key (
                  emplace_request key (request_of kind r (some i) key) p.processed_idempotency_keys)
          ])
          (found_new input_id i _ (request_of kind r (some i) key) (
            new_entry i (request_of kind r (some i) key) p.processed_input_ids
              (sym (found_is_some input_id i p.processed_input_ids) ∙ absent))),
      by_id kind r i key,
    )
