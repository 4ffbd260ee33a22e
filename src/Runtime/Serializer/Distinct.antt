-- ===== src/Runtime/Serializer/Distinct.antt =====
-- Payloads without a duplicate key have an image.
use exchange_engine.Base.{
  and_left, and_right, and_left, and_right, ℕ, ◌≡◌, refl, sym, ◌∙◌, Bool, true, false, not, ◌&&◌,
  some, List, [], ◌∷◌, arith, same_text, text_before, inl, inr, Bool-cases,
}
use exchange_engine.Core.OrderBook.Liquidity.{insert_by, sort_by}
use exchange_engine.Protocol.Json.{
  JsonValue, Items, Members, array, object, no_items, no_members, member, emplace, push_item,
}
use exchange_engine.Runtime.Records.{
  PayloadValue, Values, Fields, no_values, value, no_fields, field, PayloadFields,
}
use exchange_engine.Runtime.Records as Records
use exchange_engine.Runtime.Serializer.{sorted_fields, fields_of}
use exchange_engine.Runtime.Serializer.Image.{value_image, values_image, fields_image}

not-true : {b : Bool} → not b ≡ true → b ≡ false
not-true {b = true} h = sym h
not-true {b = false} h = refl

-- No field has the key.
unfoldable pub fresh : List ℕ → Fields → Bool
fresh key no_fields = true
fresh key (field k v fs) = not (same_text key k) && fresh key fs

-- No key stands twice in an object, at any depth.
unfoldable mutual
  unfolding fresh

  pub distinct_value : PayloadValue → Bool
  distinct_value (Records.array vs) = distinct_values vs
  distinct_value (Records.object fs) = distinct_fields fs
  distinct_value _ = true

  pub distinct_values : Values → Bool
  distinct_values no_values = true
  distinct_values (value v vs) = distinct_value v && distinct_values vs

  pub distinct_fields : Fields → Bool
  distinct_fields no_fields = true
  distinct_fields (field k v fs) = fresh k fs && (distinct_value v && distinct_fields fs)

unfoldable pub unused : List ℕ → Members → Bool
unused key no_members = true
unused key (member k v m) = not (same_text k key) && unused key m

-- No field has a key of the members.
unfoldable pub apart : Members → Fields → Bool
unfolding unused
apart m no_fields = true
apart m (field k v fs) = unused k m && apart m fs

same_text-sym : (s t : List ℕ) → same_text s t ≡ same_text t s
same_text-sym [] [] = refl
same_text-sym [] (d ∷ ds) = refl
same_text-sym (c ∷ cs) [] = refl
same_text-sym (c ∷ cs) (d ∷ ds) = rw (same_text-sym cs ds) (ground arith)

emplace_first :
    (key : List ℕ) (v : JsonValue) (k : List ℕ) (w : JsonValue) (m : Members)
    → same_text k key ≡ false
    → text_before key k ≡ true
    → emplace key v (member k w m) ≡ some (member key v (member k w m))
unfolding emplace
emplace_first key v k w m differs b = rw (same_text-sym key k, differs, b) refl

emplace_later :
    (key : List ℕ) (v : JsonValue) (k : List ℕ) (w : JsonValue) (m n : Members)
    → same_text k key ≡ false
    → text_before key k ≡ false
    → emplace key v m ≡ some n
    → emplace key v (member k w m) ≡ some (member k w n)
unfolding emplace
emplace_later key v k w m n differs b there = rw (same_text-sym key k, differs, b, there) refl

-- A key that is not there gets in, and no other key does.
emplace-unused :
    (key : List ℕ) (v : JsonValue) (m : Members)
    → unused key m ≡ true
    → (n : Members) × (emplace key v m ≡ some n)
      × ((other : List ℕ)
          → unused other m ≡ true
          → same_text key other ≡ false
          → unused other n ≡ true)
unfolding emplace unused
emplace-unused key v no_members h = (member key v no_members, refl, λ other u ne. rw ne refl)
emplace-unused key v (member k w m) h =
    let differs : same_text k key ≡ false =
      not-true (and_left (not (same_text k key)) (unused key m) h) in
    elim (Bool-cases (text_before key k)) [
      | inl b ↦ (
        member key v (member k w m),
        emplace_first key v k w m differs b,
        λ other u ne. rw (ne, u) refl,
      )
      | inr b ↦
          let (n, there, others) =
            emplace-unused key v m (and_right (not (same_text k key)) (unused key m) h) in
          (
            member k w n,
            emplace_later key v k w m n differs b there,
            λ other u ne.
                let still =
                  others other (and_right (not (same_text k other)) (unused other m) u) ne in
                let here = and_left (not (same_text k other)) (unused other m) u in
                rw (here, still) refl,
          )
    ]

apart_more :
    (m n : Members) (k : List ℕ) (fs : Fields)
    → ((other : List ℕ) → unused other m ≡ true → same_text k other ≡ false → unused other n ≡ true)
    → fresh k fs ≡ true
    → apart m fs ≡ true
    → apart n fs ≡ true
unfolding apart fresh
apart_more m n k no_fields others f a = refl
apart_more m n k (field k' v fs) others f a =
    let apart_here = and_left (unused k' m) (apart m fs) a in
    let fresh_here : same_text k k' ≡ false =
      not-true (and_left (not (same_text k k')) (fresh k fs) f) in
    let here = others k' apart_here fresh_here in
    let later =
      apart_more m n k fs others (and_right (not (same_text k k')) (fresh k fs) f)
        (and_right (unused k' m) (apart m fs) a) in
    rw (here, later) refl

pub apart_none : (fs : Fields) → apart no_members fs ≡ true
unfolding apart unused
apart_none no_fields = refl
apart_none (field k v fs) = apart_none fs

mutual
  unfolding value_image distinct_value apart

  value_has_image :
      (v : PayloadValue) (key : List ℕ)
      → distinct_value v ≡ true
      → (j : JsonValue) × (value_image key v ≡ some j)
  value_has_image Records.null key h = (_, refl)
  value_has_image (Records.boolean b) key h = (_, refl)
  value_has_image (Records.number_text n) key h = (_, refl)
  value_has_image (Records.text s) key h = (_, refl)
  value_has_image (Records.array vs) key h =
      let (xs, e) = values_have_image vs no_items h in (array xs, rw e refl)
  value_has_image (Records.object fs) key h =
      let (m, e) = fields_have_image fs no_members h (apart_none fs) in (object m, rw e refl)

  values_have_image :
      (vs : Values) (xs : Items)
      → distinct_values vs ≡ true
      → (ys : Items) × (values_image xs vs ≡ some ys)
  values_have_image no_values xs h = (xs, refl)
  values_have_image (value v vs) xs h =
      let (j, e) = value_has_image v [] (and_left (distinct_value v) (distinct_values vs) h) in
      let (ys, e') =
        values_have_image vs (push_item j xs)
          (and_right (distinct_value v) (distinct_values vs) h) in
      (ys, rw (e, e') refl)

  pub fields_have_image :
      (fs : Fields) (m : Members)
      → distinct_fields fs ≡ true
      → apart m fs ≡ true
      → (n : Members) × (fields_image m fs ≡ some n)
  fields_have_image no_fields m h a = (m, refl)
  fields_have_image (field k v fs) m h a =
      let f = and_left (fresh k fs) (distinct_value v && distinct_fields fs) h in
      let d = and_right (fresh k fs) (distinct_value v && distinct_fields fs) h in
      let (j, e) = value_has_image v k (and_left (distinct_value v) (distinct_fields fs) d) in
      let (n, there, others) = emplace-unused k j m (and_left (unused k m) (apart m fs) a) in
      let still = apart_more m n k fs others f (and_right (unused k m) (apart m fs) a) in
      let (n', e') =
        fields_have_image fs n (and_right (distinct_value v) (distinct_fields fs) d) still in
      (n', rw (e, there, e') refl)

abbrev Entry : Type 0
Entry = List ℕ × PayloadValue

fresh-insert :
    (before : Entry → Entry → Bool) (key k : List ℕ) (v : PayloadValue) (es : PayloadFields)
    → same_text key k ≡ false
    → fresh key (fields_of es) ≡ true
    → fresh key (fields_of (insert_by before (k, v) es)) ≡ true
unfolding fresh insert_by
fresh-insert before key k v [] ne f = rw ne refl
fresh-insert before key k v ((k', v') ∷ es) ne f =
    let later =
      fresh-insert before key k v es ne
        (and_right (not (same_text key k')) (fresh key (fields_of es)) f) in
    elim (Bool-cases (before (k', v') (k, v))) [
      | inl b ↦
          let here : same_text key k' ≡ false =
            not-true (and_left (not (same_text key k')) (fresh key (fields_of es)) f) in
          rw (b, here, later) refl
      | inr b ↦ rw (b, ne, f) refl
    ]

distinct-insert :
    (before : Entry → Entry → Bool) (k : List ℕ) (v : PayloadValue) (es : PayloadFields)
    → fresh k (fields_of es) ≡ true
    → distinct_value v ≡ true
    → distinct_fields (fields_of es) ≡ true
    → distinct_fields (fields_of (insert_by before (k, v) es)) ≡ true
unfolding distinct_value fresh insert_by
distinct-insert before k v [] f one d = rw one refl
distinct-insert before k v ((k', v') ∷ es) f one d =
    let ne : same_text k' k ≡ false =
      same_text-sym k' k ∙ not-true (and_left (not (same_text k k')) (fresh k (fields_of es)) f) in
    let f' =
      and_left (fresh k' (fields_of es)) (distinct_value v' && distinct_fields (fields_of es)) d in
    let d' =
      and_right (fresh k' (fields_of es)) (distinct_value v' && distinct_fields (fields_of es)) d in
    let here = fresh-insert before k' k v es ne f' in
    let later =
      distinct-insert before k v es (and_right (not (same_text k k')) (fresh k (fields_of es)) f)
        one (and_right (distinct_value v') (distinct_fields (fields_of es)) d') in
    let inner = and_left (distinct_value v') (distinct_fields (fields_of es)) d' in
    elim (Bool-cases (before (k', v') (k, v))) [
      | inl b ↦ rw (b, here, inner, later) refl
      | inr b ↦ rw (b, f, one, d) refl
    ]

fresh-sort :
    (before : Entry → Entry → Bool) (key : List ℕ) (es : PayloadFields)
    → fresh key (fields_of es) ≡ true
    → fresh key (fields_of (sort_by before es)) ≡ true
unfolding fresh sort_by
fresh-sort before key [] f = refl
fresh-sort before key ((k, v) ∷ es) f =
    fresh-insert before key k v (sort_by before es)
      (not-true (and_left (not (same_text key k)) (fresh key (fields_of es)) f))
      (fresh-sort before key es (and_right (not (same_text key k)) (fresh key (fields_of es)) f))

distinct-sort :
    (before : Entry → Entry → Bool) (es : PayloadFields)
    → distinct_fields (fields_of es) ≡ true
    → distinct_fields (fields_of (sort_by before es)) ≡ true
unfolding distinct_value sort_by
distinct-sort before [] d = refl
distinct-sort before ((k, v) ∷ es) d =
    let f =
      and_left (fresh k (fields_of es)) (distinct_value v && distinct_fields (fields_of es)) d in
    let d' =
      and_right (fresh k (fields_of es)) (distinct_value v && distinct_fields (fields_of es)) d in
    distinct-insert before k v (sort_by before es) (fresh-sort before k es f)
      (and_left (distinct_value v) (distinct_fields (fields_of es)) d')
      (distinct-sort before es (and_right (distinct_value v) (distinct_fields (fields_of es)) d'))

-- The sorted entries have an image, where no key stands twice.
pub payload_has_image :
    (es : PayloadFields)
    → distinct_fields (fields_of es) ≡ true
    → (m : Members) × (fields_image no_members (fields_of (sorted_fields es)) ≡ some m)
payload_has_image es d =
    fields_have_image (fields_of (sorted_fields es)) no_members (distinct-sort _ es d)
      (apart_none (fields_of (sorted_fields es)))
