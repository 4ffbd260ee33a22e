-- ===== src/Runtime/Events/Read.antt =====
-- The runtime's market events, read back.
use exchange_engine.Base.{
  ◌++◌, ℕ, ◌≡◌, refl, subst, Bool, true, false, not, ◌&&◌, Option, none, some, List, [], ◌∷◌, bytes,
  same_text, ℤ, pos, inl, inr, Bool-cases, and_left, and_right,
}
use exchange_engine.Base.Result.{returns}
use exchange_engine.Core.Level.{is_nil}
use exchange_engine.Adapter.{Checked, done, throws, ◌>>=◌}
use exchange_engine.Adapter.Stores.{MarketSequenceGenerator, next}
use exchange_engine.Protocol.Json.{Members, object, no_members}
use exchange_engine.Protocol.Message.{parse_protocol_message}
use exchange_engine.Runtime.Records.{
  PayloadValue, text, PayloadFields, InboundEngineRecord, EngineOutputRecord,
}
use exchange_engine.Runtime.Serializer.{fields_of, sorted_fields, serialize_engine_output_record}
use exchange_engine.Runtime.Serializer.Image.{fields_image}
use exchange_engine.Runtime.Serializer.Distinct.{fresh, distinct_value, distinct_fields}
use exchange_engine.Runtime.Serializer.Records.{
  parse_protocol_message-serialize_engine_output_record,
}
use exchange_engine.Runtime.Text.{to_string}
use exchange_engine.Runtime.Events.Fields.{field_at, stated, field_at-market_event_fields}
use exchange_engine.Runtime.Events.{
  emplace_field, number_value, emplace_text, filled_or_none, add_runtime_source_fields,
  add_runtime_engine_fields, market_event_fields, make_runtime_market_event,
}

not_both : (b c : Bool) → b ≡ false → c ≡ true → (not b && c) ≡ true
not_both false c e h = h
not_both true c e h = cc

fresh-emplace_field :
    (key k : List ℕ) (v : PayloadValue) (es : PayloadFields)
    → same_text key k ≡ false
    → fresh key (fields_of es) ≡ true
    → fresh key (fields_of (emplace_field k v es)) ≡ true
unfolding fresh emplace_field
fresh-emplace_field key k v [] ne f = rw ne refl
fresh-emplace_field key k v ((k', w) ∷ es) ne f = elim (Bool-cases (same_text k' k)) [
  | inl e ↦ rw e f
  | inr e ↦
      let here = and_left (not (same_text key k')) (fresh key (fields_of es)) f in
      let later = and_right (not (same_text key k')) (fresh key (fields_of es)) f in
      rw (e, here, fresh-emplace_field key k v es ne later) refl
]

-- No key comes twice by an emplace.
distinct-emplace_field :
    (k : List ℕ) (v : PayloadValue) (es : PayloadFields)
    → distinct_value v ≡ true
    → distinct_fields (fields_of es) ≡ true
    → distinct_fields (fields_of (emplace_field k v es)) ≡ true
unfolding distinct_value fresh emplace_field
distinct-emplace_field k v [] one d = rw one refl
distinct-emplace_field k v ((k', w) ∷ es) one d = elim (Bool-cases (same_text k' k)) [
  | inl e ↦ rw e d
  | inr e ↦
      let f =
        and_left (fresh k' (fields_of es)) (distinct_value w && distinct_fields (fields_of es)) d in
      let d' =
        and_right (fresh k' (fields_of es)) (distinct_value w && distinct_fields (fields_of es))
          d in
      let inner = and_left (distinct_value w) (distinct_fields (fields_of es)) d' in
      let later = and_right (distinct_value w) (distinct_fields (fields_of es)) d' in
      rw (e, fresh-emplace_field k' k v es e f, inner, distinct-emplace_field k v es one later) refl
]

distinct-emplace_text :
    (k : List ℕ) (s : Option (List ℕ)) (es : PayloadFields)
    → distinct_fields (fields_of es) ≡ true
    → distinct_fields (fields_of (emplace_text k s es)) ≡ true
unfolding emplace_text distinct_value
distinct-emplace_text k none es d = d
distinct-emplace_text k (some s) es d = distinct-emplace_field k (text s) es refl d

distinct-number :
    (k : List ℕ) (n : ℤ) (es : PayloadFields)
    → distinct_fields (fields_of es) ≡ true
    → distinct_fields (fields_of (emplace_field k (number_value n) es)) ≡ true
unfolding number_value distinct_value
distinct-number k n es d = distinct-emplace_field k (number_value n) es refl d

distinct-text :
    (k s : List ℕ) (es : PayloadFields)
    → distinct_fields (fields_of es) ≡ true
    → distinct_fields (fields_of (emplace_field k (text s) es)) ≡ true
unfolding distinct_value
distinct-text k s es d = distinct-emplace_field k (text s) es refl d

distinct-source :
    (r : InboundEngineRecord) (input_id : Option (List ℕ)) (es : PayloadFields)
    → distinct_fields (fields_of es) ≡ true
    → distinct_fields (fields_of (add_runtime_source_fields r input_id es)) ≡ true
unfolding add_runtime_source_fields
distinct-source r input_id es d = distinct-number _ r.offset _ (
    distinct-number _ r.partition _
      (distinct-text _ r.topic _ (distinct-emplace_text (bytes "source_input_id") input_id es d)))

distinct-engine :
    (market_id : ℤ) (sequence : ℕ) (now : ℤ) (es : PayloadFields)
    → distinct_fields (fields_of es) ≡ true
    → distinct_fields (fields_of (add_runtime_engine_fields market_id sequence now es)) ≡ true
unfolding add_runtime_engine_fields
distinct-engine market_id sequence now es d =
    distinct-number _ now _ (distinct-text _ _ _ (distinct-number _ (pos sequence) es d))

distinct-market_event :
    (market_id : ℤ) (r : InboundEngineRecord) (input_id request_id : Option (List ℕ)) (sequence : ℕ)
    (now : ℤ) (es : PayloadFields)
    → distinct_fields (fields_of es) ≡ true
    → distinct_fields
        (fields_of (market_event_fields market_id r input_id request_id sequence now es))
      ≡ true
unfolding market_event_fields
distinct-market_event market_id r input_id request_id sequence now es d =
    distinct-number _ market_id _ (
      distinct-emplace_text _ (filled_or_none request_id) _
        (distinct-source r input_id _ (distinct-engine market_id sequence now es d)))

-- The event under the next sequence of its market: keyed by the market, with the caller's fields and
-- behind them what the runtime states, and its text is the message of its type and payload.
pub record IsRead (kind : List ℕ) (market_id : ℤ) (r : InboundEngineRecord)
    (input_id request_id : Option (List ℕ)) (sequences sequences' : MarketSequenceGenerator)
    (now : ℤ) (es : PayloadFields) (o : EngineOutputRecord) : Type 0 where
  pub sequence : ℕ
  pub numbered : next sequences market_id ≡ done (sequence, sequences')
  pub topic : o.topic ≡ bytes "engine.events"
  pub keyed : o.key ≡ to_string market_id
  pub fields :
      (key : List ℕ)
      → field_at key o.payload
        ≡ field_at key (es ++ stated market_id r input_id request_id sequence now)
  pub members : Members
  pub image : fields_image no_members (fields_of (sorted_fields o.payload)) ≡ some members
  pub read :
      parse_protocol_message (serialize_engine_output_record o)
      ≡ returns (record { kind = kind; payload = object members })

abbrev OnDone {ℓ} : {A : Type ℓ} → (A → Type 0) → Checked A → Type 0
OnDone P (done a) = P a
OnDone P (throws e) = Unit {0}

done_then {ℓ κ} :
    {A : Type ℓ} {B : Type κ} (P : B → Type 0) (p : Checked A) (f : A → Checked B)
    → ((a : A) → p ≡ done a → OnDone P (f a))
    → OnDone P (p >>= f)
done_then P (done a) f h = h a refl
done_then P (throws e) f h = tt

-- A market event that the runtime makes under a type that is not empty, of fields among which no key
-- stands twice in an object, goes to the topic of events under its market's key and takes the market's
-- next sequence. Every field is the caller's, or else what the runtime states: that sequence, the
-- event id of the market and the sequence, the time, the source's id, topic, partition and offset,
-- the request where it is not empty, and the market. Its text is read back as a message of its type
-- and fields.
pub make_runtime_market_event-IsRead :
    (kind : List ℕ) (market_id : ℤ) (r : InboundEngineRecord)
    (input_id request_id : Option (List ℕ)) (sequences sequences' : MarketSequenceGenerator)
    (now : ℤ) (es : PayloadFields) (o : EngineOutputRecord)
    → is_nil kind ≡ false
    → distinct_fields (fields_of es) ≡ true
    → make_runtime_market_event kind market_id r input_id request_id sequences now es
      ≡ done (o, sequences')
    → IsRead kind market_id r input_id request_id sequences sequences' now es o
unfolding make_runtime_market_event
make_runtime_market_event-IsRead kind market_id r input_id request_id sequences sequences' now es o
      typed d e =
    subst (OnDone Made) e (
      done_then Made (next sequences market_id) _ (λ x taken.
        let (members, image, read) =
          parse_protocol_message-serialize_engine_output_record
            (record {
              topic = bytes "engine.events";
              kind = kind;
              key = to_string market_id;
              partition = none;
              payload = market_event_fields market_id r input_id request_id x.0 now es;
            })
            typed (distinct-market_event market_id r input_id request_id x.0 now es d) in
        record {
          sequence = x.0;
          numbered = taken;
          topic = refl;
          keyed = refl;
          fields = field_at-market_event_fields market_id r input_id request_id x.0 now es;
          members = members;
          image = image;
          read = read;
        }))
  where
    Made : EngineOutputRecord × MarketSequenceGenerator → Type 0
    Made x = IsRead kind market_id r input_id request_id sequences x.1 now es x.0
