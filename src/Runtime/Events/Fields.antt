-- ===== src/Runtime/Events/Fields.antt =====
-- What the common fields of a market event are.
use exchange_engine.Base.{
  append-nil, append_assoc, ◌≡◌, refl, sym, ◌∙◌, ap, false, Option, none, some, List, [], ◌∷◌, ◌++◌,
  ℕ, ℤ, pos, bytes, same_text, same_text_sound, inl, inr, Bool-cases, if◌then◌else◌,
}
use exchange_engine.Runtime.Records.{
  PayloadValue, text, number_text, PayloadFields, InboundEngineRecord,
}
use exchange_engine.Runtime.Text.{to_string}
use exchange_engine.Runtime.Events.{
  emplace_field, number_value, emplace_text, filled_or_none, add_runtime_source_fields,
  add_runtime_engine_fields, market_event_fields,
}

-- The value under a key.
abbrev pub field_at : List ℕ → PayloadFields → Option PayloadValue
field_at key [] = none
field_at key ((k, v) ∷ fs) = if same_text k key then some v else field_at key fs

-- A text that may be missing.
abbrev pub text_if_any : List ℕ → Option (List ℕ) → PayloadFields
text_if_any key none = []
text_if_any key (some s) = (key, text s) ∷ []

-- A text that may be missing, or empty and then not stated.
abbrev pub text_if_filled : List ℕ → Option (List ℕ) → PayloadFields
text_if_filled key (some (c ∷ cs)) = (key, text (c ∷ cs)) ∷ []
text_if_filled key _ = []

-- What the runtime states of an event: its number in the market and when it was made, the record that
-- it comes of, the request and the market.
abbrev pub stated :
    ℤ → InboundEngineRecord → Option (List ℕ) → Option (List ℕ) → ℕ → ℤ → PayloadFields
stated market_id r input_id request_id sequence now =
    (bytes "engine_sequence", number_text (to_string (pos sequence)))
    ∷ (
      bytes "engine_event_id",
      text (bytes "eng_" ++ (to_string market_id ++ (bytes "_" ++ to_string (pos sequence)))),
    )
    ∷ (bytes "engine_timestamp_ms", number_text (to_string now))
    ∷ (text_if_any (bytes "source_input_id") input_id
        ++ ((bytes "source_input_topic", text r.topic)
            ∷ (bytes "source_input_partition", number_text (to_string r.partition))
            ∷ (bytes "source_input_offset", number_text (to_string r.offset))
            ∷ (text_if_filled (bytes "request_id") request_id
                ++ ((bytes "market_id", number_text (to_string market_id)) ∷ []))))

-- Two payloads with the same fields.
abbrev Agree : PayloadFields → PayloadFields → Type 0
Agree fs gs = (key : List ℕ) → field_at key fs ≡ field_at key gs

cons-Agree :
    (k : List ℕ) (v : PayloadValue) (fs gs : PayloadFields)
    → Agree fs gs
    → Agree ((k, v) ∷ fs) ((k, v) ∷ gs)
cons-Agree k v fs gs h key = ap (λ o. if same_text k key then some v else o) (h key)

-- A field that is emplaced stands behind those that are there.
emplace_last :
    (k : List ℕ) (v : PayloadValue) (fs : PayloadFields)
    → Agree (emplace_field k v fs) (fs ++ ((k, v) ∷ []))
unfolding emplace_field
emplace_last k v [] key = refl
emplace_last k v ((j, w) ∷ fs) key = elim (Bool-cases (same_text j k)) [
  | inl e ↦ rw e (taken (same_text_sound j k e))
  | inr e ↦ rw e (cons-Agree j w _ _ (emplace_last k v fs) key)
]
  where
    hidden :
        (gs : PayloadFields)
        → same_text k key ≡ false
        → field_at key gs ≡ field_at key (gs ++ ((k, v) ∷ []))
    hidden [] n = rw n refl
    hidden ((i, x) ∷ gs) n = ap (λ o. if same_text i key then some x else o) (hidden gs n)

    taken : j ≡ k → field_at key ((j, w) ∷ fs) ≡ field_at key ((j, w) ∷ (fs ++ ((k, v) ∷ [])))
    taken same = elim (Bool-cases (same_text j key)) [
      | inl here ↦ rw here refl
      | inr there ↦ rw there (hidden fs (ap (λ t. same_text t key) (sym same) ∙ there))
    ]

append-Agree : (fs gs hs : PayloadFields) → Agree fs gs → Agree (fs ++ hs) (gs ++ hs)
append-Agree fs gs hs h key = split fs ∙ ap or_later (h key) ∙ sym (split gs)
  where
    or_later : Option PayloadValue → Option PayloadValue
    or_later none = field_at key hs
    or_later (some v) = some v

    split : (xs : PayloadFields) → field_at key (xs ++ hs) ≡ or_later (field_at key xs)
    split [] = refl
    split ((k, v) ∷ xs) = elim (Bool-cases (same_text k key)) [
      | inl e ↦ rw e refl
      | inr e ↦ rw e (split xs)
    ]

extended :
    (k : List ℕ) (v : PayloadValue) (es xs fs : PayloadFields)
    → Agree fs (es ++ xs)
    → Agree (emplace_field k v fs) (es ++ (xs ++ ((k, v) ∷ [])))
extended k v es xs fs h key =
    emplace_last k v fs key
    ∙ append-Agree fs (es ++ xs) ((k, v) ∷ []) h key
    ∙ ap (field_at key) (append_assoc es xs ((k, v) ∷ []))

extended_text :
    (k : List ℕ) (o : Option (List ℕ)) (es xs fs : PayloadFields)
    → Agree fs (es ++ xs)
    → Agree (emplace_text k o fs) (es ++ (xs ++ text_if_any k o))
unfolding emplace_text
extended_text k none es xs fs h key =
    h key ∙ ap (λ ys. field_at key (es ++ ys)) (sym (append-nil xs))
extended_text k (some s) es xs fs h key = extended k (text s) es xs fs h key

-- The fields in the order in which they are put there.
abbrev put : ℤ → InboundEngineRecord → Option (List ℕ) → Option (List ℕ) → ℕ → ℤ → PayloadFields
put market_id r input_id request_id sequence now =
    (((((((bytes "engine_sequence", number_text (to_string (pos sequence)))
                ∷ (
                  bytes "engine_event_id",
                  text (
                      bytes "eng_"
                      ++ (to_string market_id ++ (bytes "_" ++ to_string (pos sequence)))),
                )
                ∷ (bytes "engine_timestamp_ms", number_text (to_string now))
                ∷ [])
              ++ text_if_any (bytes "source_input_id") input_id)
            ++ ((bytes "source_input_topic", text r.topic) ∷ []))
          ++ ((bytes "source_input_partition", number_text (to_string r.partition)) ∷ []))
        ++ ((bytes "source_input_offset", number_text (to_string r.offset)) ∷ []))
      ++ text_if_any (bytes "request_id") (filled_or_none request_id))
    ++ ((bytes "market_id", number_text (to_string market_id)) ∷ [])

put-stated :
    (market_id : ℤ) (r : InboundEngineRecord) (input_id request_id : Option (List ℕ)) (sequence : ℕ)
    (now : ℤ)
    → put market_id r input_id request_id sequence now
      ≡ stated market_id r input_id request_id sequence now
put-stated market_id r none none sequence now = refl
put-stated market_id r none (some []) sequence now = refl
put-stated market_id r none (some (c ∷ cs)) sequence now = refl
put-stated market_id r (some i) none sequence now = refl
put-stated market_id r (some i) (some []) sequence now = refl
put-stated market_id r (some i) (some (c ∷ cs)) sequence now = refl

engine-Agree :
    (market_id : ℤ) (sequence : ℕ) (now : ℤ) (es : PayloadFields)
    → Agree (add_runtime_engine_fields market_id sequence now es) (
        es
        ++ ((bytes "engine_sequence", number_text (to_string (pos sequence)))
            ∷ (
              bytes "engine_event_id",
              text (
                  bytes "eng_" ++ (to_string market_id ++ (bytes "_" ++ to_string (pos sequence)))),
            )
            ∷ (bytes "engine_timestamp_ms", number_text (to_string now))
            ∷ []))
unfolding add_runtime_engine_fields number_value
engine-Agree market_id sequence now es =
    extended _ _ es _ _ (extended _ _ es _ _ (extended _ _ es [] es none_yet))
  where
    none_yet : Agree es (es ++ [])
    none_yet key = ap (field_at key) (sym (append-nil es))

source-Agree :
    (r : InboundEngineRecord) (input_id : Option (List ℕ)) (es xs fs : PayloadFields)
    → Agree fs (es ++ xs)
    → Agree (add_runtime_source_fields r input_id fs) (
        es
        ++ ((((xs ++ text_if_any (bytes "source_input_id") input_id)
                ++ ((bytes "source_input_topic", text r.topic) ∷ []))
              ++ ((bytes "source_input_partition", number_text (to_string r.partition)) ∷ []))
            ++ ((bytes "source_input_offset", number_text (to_string r.offset)) ∷ [])))
unfolding add_runtime_source_fields number_value
source-Agree r input_id es xs fs h =
    extended _ _ es _ _
      (extended _ _ es _ _ (extended _ _ es _ _ (extended_text _ input_id es xs fs h)))

-- A field is the caller's, or else the one that the runtime states.
pub field_at-market_event_fields :
    (market_id : ℤ) (r : InboundEngineRecord) (input_id request_id : Option (List ℕ)) (sequence : ℕ)
    (now : ℤ) (es : PayloadFields) (key : List ℕ)
    → field_at key (market_event_fields market_id r input_id request_id sequence now es)
      ≡ field_at key (es ++ stated market_id r input_id request_id sequence now)
unfolding market_event_fields number_value
field_at-market_event_fields market_id r input_id request_id sequence now es key =
    extended _ _ es _ _
      (extended_text _ (filled_or_none request_id) es _ _
        (source-Agree r input_id es _ _ (engine-Agree market_id sequence now es)))
      key
    ∙ ap (λ xs. field_at key (es ++ xs)) (put-stated market_id r input_id request_id sequence now)
