-- ===== src/Runtime/Outbox/Delivery.antt =====
-- The outbox as a delivery of records, one after the other.
use exchange_engine.Base.{
  ◌&&◌, ℕ, suc, ◌+◌, ◌^◌, ◌<◌, ◌≡◌, refl, sym, ◌∙◌, ap, Bool, true, false, ◌||◌, Option, none, some,
  List, [], ◌∷◌, ◌++◌, append_assoc, append-nil, arith, length, if◌then◌else◌,
}
use exchange_engine.Core.Level.{is_nil}
use exchange_engine.Runtime.Records.{
  EngineOutputRecord, EngineProcessStatus, processed, duplicate, rejected, EngineProcessResult,
  is_duplicate_status,
}
use exchange_engine.Runtime.Serializer.{serialize_engine_output_record}
use exchange_engine.Runtime.Outbox.{
  EnginePublishFailure, EnginePublishResult, no_publish, Publish, failure_of, attempt, count,
  publish_records, is_rejected_status, publish,
}

-- Each record is sent once, in order, with its text: the publisher's last state, and what it said
-- to each.
unfoldable pub deliver {ℓ} :
    {S : Type ℓ}
    → Publish S
    → S
    → List EngineOutputRecord
    → S × List (EngineOutputRecord × Option (List ℕ))
unfolding serialize_engine_output_record
deliver send s [] = (s, [])
deliver send s (o ∷ os) =
    let (s', error) = send s o (serialize_engine_output_record o) in
    let (s'', outcomes) = deliver send s' os in (s'', (o, error) ∷ outcomes)

unfoldable pub successes : List (EngineOutputRecord × Option (List ℕ)) → ℕ
successes [] = 0
successes ((o, none) ∷ outcomes) = suc (successes outcomes)
successes ((o, some e) ∷ outcomes) = successes outcomes

unfoldable pub failed : List (EngineOutputRecord × Option (List ℕ)) → List EnginePublishFailure
failed [] = []
failed ((o, none) ∷ outcomes) = failed outcomes
failed ((o, some e) ∷ outcomes) = failure_of o e ∷ failed outcomes

unfoldable pub add_outcomes :
    EnginePublishResult → List (EngineOutputRecord × Option (List ℕ)) → EnginePublishResult
unfolding successes failed
add_outcomes r outcomes = record {
  attempted = r.attempted + length outcomes;
  published = r.published + successes outcomes;
  failures = r.failures ++ failed outcomes;
}

abbrev tally : ℕ → ℕ → List EnginePublishFailure → EnginePublishResult
tally a p f = record { attempted = a; published = p; failures = f }

tally_equal :
    {a a' p p' : ℕ} {f f' : List EnginePublishFailure}
    → a ≡ a'
    → p ≡ p'
    → f ≡ f'
    → tally a p f ≡ tally a' p' f'
tally_equal e e' e'' = rw (e, e', e'') refl

-- The counts of one record and then those of the others.
count_outcomes :
    (o : EngineOutputRecord) (e : Option (List ℕ)) (r : EnginePublishResult)
    (outcomes : List (EngineOutputRecord × Option (List ℕ)))
    → r.attempted + 1 < 2 ^ 64
    → r.published + 1 < 2 ^ 64
    → add_outcomes (count o e (attempt r)) outcomes ≡ add_outcomes r ((o, e) ∷ outcomes)
unfolding successes failed add_outcomes
count_outcomes o none r outcomes a p = tally_equal (omega arith) (omega arith) refl
count_outcomes o (some e) r outcomes a p =
    tally_equal (omega arith) refl (append_assoc r.failures (failure_of o e ∷ []) (failed outcomes))

counted_attempted :
    (o : EngineOutputRecord) (e : Option (List ℕ)) (r : EnginePublishResult) (n : ℕ)
    → r.attempted + suc n < 2 ^ 64
    → (count o e (attempt r)).attempted + n < 2 ^ 64
counted_attempted o none r n a = omega arith
counted_attempted o (some e) r n a = omega arith

counted_published :
    (o : EngineOutputRecord) (e : Option (List ℕ)) (r : EnginePublishResult) (n : ℕ)
    → r.published + suc n < 2 ^ 64
    → (count o e (attempt r)).published + n < 2 ^ 64
counted_published o none r n p = omega arith
counted_published o (some e) r n p = omega arith

publish_records-deliver {ℓ} :
    {S : Type ℓ} (send : Publish S) (os : List EngineOutputRecord) (s : S) (r : EnginePublishResult)
    → r.attempted + length os < 2 ^ 64
    → r.published + length os < 2 ^ 64
    → publish_records send s os r ≡ ((deliver send s os).0, add_outcomes r (deliver send s os).1)
unfolding publish_records deliver successes failed add_outcomes
publish_records-deliver send [] s r a p =
    ap (λ x. (s, x)) (tally_equal (omega arith) (omega arith) (sym (append-nil r.failures)))
publish_records-deliver send (o ∷ os) s r a p =
    let (s', e) = send s o (serialize_engine_output_record o) in
    publish_records-deliver send os s' (count o e (attempt r))
      (counted_attempted o e r (length os) a) (counted_published o e r (length os) p)
    ∙ ap (λ x. ((deliver send s' os).0, x))
        (count_outcomes o e r (deliver send s' os).1 (omega arith) (omega arith))

publish_records-append {ℓ} :
    {S : Type ℓ} (send : Publish S) (os ps : List EngineOutputRecord) (s : S)
    (r : EnginePublishResult)
    → publish_records send s (os ++ ps) r
      ≡ publish_records send (publish_records send s os r).0 ps (publish_records send s os r).1
unfolding publish_records
publish_records-append send [] ps s r = refl
publish_records-append send (o ∷ os) ps s r =
    let (s', e) = send s o (serialize_engine_output_record o) in
    publish_records-append send os ps s' (count o e (attempt r))

length-deliver {ℓ} :
    {S : Type ℓ} (send : Publish S) (os : List EngineOutputRecord) (s : S)
    → length (deliver send s os).1 ≡ length os
unfolding deliver
length-deliver send [] s = refl
length-deliver send (o ∷ os) s =
    ap suc (length-deliver send os (send s o (serialize_engine_output_record o)).0)

all_counted :
    (outcomes : List (EngineOutputRecord × Option (List ℕ)))
    → successes outcomes + length (failed outcomes) ≡ length outcomes
unfolding successes failed
all_counted [] = refl
all_counted ((o, none) ∷ outcomes) = let rest = all_counted outcomes in omega arith
all_counted ((o, some e) ∷ outcomes) = let rest = all_counted outcomes in omega arith

abbrev pub is_processed : EngineProcessStatus → Bool
is_processed processed = true
is_processed _ = false

-- What a result is published as.
unfoldable pub delivered {ℓ} :
    {S : Type ℓ} → Publish S → S → EngineProcessResult → S × EnginePublishResult
unfolding deliver add_outcomes
delivered send s r =
    if is_processed r.status
    then (let (s', outcomes) = deliver send s (r.replies ++ r.events) in
        (s', add_outcomes no_publish outcomes))
    else (s, no_publish)

delivered_all {ℓ} :
    {S : Type ℓ} (send : Publish S) (s : S) (os ps : List EngineOutputRecord)
    → length (os ++ ps) < 2 ^ 64
    → publish_records send
        (publish_records send s os no_publish).0
        ps
        (publish_records send s os no_publish).1
      ≡ ((deliver send s (os ++ ps)).0, add_outcomes no_publish (deliver send s (os ++ ps)).1)
delivered_all send s os ps h =
    sym (publish_records-append send os ps s no_publish)
    ∙ publish_records-deliver send (os ++ ps) s no_publish (omega arith) (omega arith)

delivered_by_status {ℓ} :
    {S : Type ℓ} (send : Publish S) (s : S) (status : EngineProcessStatus)
    (os ps : List EngineOutputRecord)
    → length (os ++ ps) < 2 ^ 64
    → (if is_duplicate_status status || (is_rejected_status status || (is_nil os && is_nil ps))
        then (s, no_publish)
        else publish_records send
            (publish_records send s os no_publish).0
            ps
            (publish_records send s os no_publish).1)
      ≡ (if is_processed status
          then (
            (deliver send s (os ++ ps)).0,
            add_outcomes no_publish (deliver send s (os ++ ps)).1,
          )
          else (s, no_publish))
unfolding deliver successes failed add_outcomes
delivered_by_status send s duplicate os ps h = refl
delivered_by_status send s rejected os ps h = refl
delivered_by_status send s processed [] [] h = refl
delivered_by_status send s processed [] (p ∷ ps) h = delivered_all send s [] (p ∷ ps) h
delivered_by_status send s processed (o ∷ os) ps h = delivered_all send s (o ∷ os) ps h

-- For every publisher, and for fewer than 2 ^ 64 records: the outbox publishes a processed result by
-- sending each reply and then each event once, in order, with its serialized text, whatever the
-- publisher said to those before, and reports the successes and the failed records in that order; of
-- a duplicate or a rejected result it sends nothing and reports nothing.
pub publish-delivered {ℓ} :
    {S : Type ℓ} (send : Publish S) (s : S) (r : EngineProcessResult)
    → length (r.replies ++ r.events) < 2 ^ 64
    → publish send s r ≡ delivered send s r
unfolding publish delivered
publish-delivered send s r h = delivered_by_status send s r.status r.replies r.events h

-- For every publisher, and for fewer than 2 ^ 64 records: of a processed result the outbox attempts
-- as many records as the result has replies and events, and each attempt is counted either as
-- published or as a failure.
pub publish_counts {ℓ} :
    {S : Type ℓ} (send : Publish S) (s : S) (r : EngineProcessResult)
    → r.status ≡ processed
    → length (r.replies ++ r.events) < 2 ^ 64
    → ((publish send s r).1.attempted ≡ length (r.replies ++ r.events))
      × ((publish send s r).1.published + length (publish send s r).1.failures
          ≡ (publish send s r).1.attempted)
unfolding delivered add_outcomes
publish_counts send s r status h =
    let all : publish send s r ≡ (
      (deliver send s (r.replies ++ r.events)).0,
      add_outcomes no_publish (deliver send s (r.replies ++ r.events)).1,
    ) =
      publish-delivered send s r h ∙ rw status refl in
    rw all (
      let sent = length-deliver send (r.replies ++ r.events) s in
      let counted = all_counted (deliver send s (r.replies ++ r.events)).1 in
      (omega arith, omega arith))
