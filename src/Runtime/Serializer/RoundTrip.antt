-- ===== src/Runtime/Serializer/RoundTrip.antt =====
-- Printed payload values, read by the parser of messages.
use exchange_engine.Base.{
  ℕ, zero, suc, ◌+◌, ◌≤◌, ◌≡◌, refl, sym, ◌∙◌, ap, subst, true, false, Option, none, some, List, [],
  ◌∷◌, ◌++◌, append_assoc, arith,
}
use exchange_engine.Protocol.Json.{
  JsonValue, Items, Members, array, object, no_items, no_members, emplace, push_item,
}
use exchange_engine.Protocol.Parser.Lexer.{
  duplicate_key, Parsing, ok, fail, ◌>>=◌, is_blank, skip_whitespace, consume, expect,
}
use exchange_engine.Protocol.Parser.{
  parse_value, parse_object, parse_members, parse_array, parse_elements, emplaced,
}
use exchange_engine.Runtime.Records.{
  PayloadValue, Values, Fields, no_values, value, no_fields, field,
}
use exchange_engine.Runtime.Records as Records
use exchange_engine.Runtime.Serializer.{
  json_string, append_payload_text, append_payload_value, append_values, append_fields,
}
use exchange_engine.Runtime.Serializer.Numbers.{stops}
use exchange_engine.Runtime.Serializer.Image.{value_image, values_image, fields_image}
use exchange_engine.Runtime.Serializer.Scalars.{
  number_text_read, text_read, key_read, array-Begins, begins,
}

-- The calls that reading the text of a value takes.
unfoldable mutual
  pub need_value : PayloadValue → ℕ
  need_value (Records.array vs) = 3 + need_values vs
  need_value (Records.object fs) = 3 + need_fields fs
  need_value _ = 2

  pub need_values : Values → ℕ
  need_values no_values = 0
  need_values (value v vs) = 1 + (need_value v + need_values vs)

  pub need_fields : Fields → ℕ
  need_fields no_fields = 0
  need_fields (field k v fs) = 1 + (need_value v + need_fields fs)

-- The text is read as the value, where there is one.
abbrev pub ReadAs {ℓ} : {A : Type ℓ} → Option A → List ℕ → Parsing (A × List ℕ) → Type ℓ
ReadAs none rest p = Unit
ReadAs (some a) rest p = p ≡ ok (a, rest)

-- A value and what is made of it.
abbrev pub omap {ℓ κ} : {A : Type ℓ} {B : Type κ} → (A → B) → Option A → Option B
omap f none = none
omap f (some a) = some (f a)

then_read {ℓ κ μ} :
    {A : Type ℓ} {B : Type κ} {C : Type μ} (h : B → C) (o : Option A) (g : A → Option B)
    (p : Parsing (A × List ℕ)) (k : A × List ℕ → Parsing (C × List ℕ)) (mid rest : List ℕ)
    → ReadAs o mid p
    → ((a : A) → ReadAs (omap h (g a)) rest (k (a, mid)))
    → ReadAs (omap h (elim o [ none ↦ none | some a ↦ g a ])) rest (p >>= k)
then_read h none g p k mid rest e more = tt
then_read h (some a) g p k mid rest e more = rw e (more a)

emplaced_read :
    (key : List ℕ) (v : JsonValue) (m : Members) (g : Members → Option Members)
    (k : Members → Parsing (JsonValue × List ℕ)) (rest : List ℕ)
    → ((n : Members) → ReadAs (omap object (g n)) rest (k n))
    → ReadAs
        (omap object (elim (emplace key v m) [ none ↦ none | some n ↦ g n ]))
        rest
        (emplaced key v m >>= k)
emplaced_read key v m g k rest more = go (emplace key v m)
  where
    go :
        (o : Option Members)
        → ReadAs
            (omap object (elim o [ none ↦ none | some n ↦ g n ]))
            rest
            (elim o [ none ↦ fail duplicate_key | some n ↦ ok n ] >>= k)
    go none = tt
    go (some n) = more n

-- What follows an item ends the array or goes on with the next.
after_item :
    (fuel : ℕ) (xs : Items) (vs : Values) (rest : List ℕ)
    → need_values vs ≤ fuel
    → ((w : PayloadValue) (ws : Values)
        → need_values (value w ws) ≤ fuel
        → ReadAs (omap array (values_image xs (value w ws))) rest (
            parse_elements fuel xs (append_payload_value [] w ++ (append_values false ws ++ rest))))
    → ReadAs
        (omap array (values_image xs vs))
        rest
        (elim (consume b']' (skip_whitespace (append_values false vs ++ rest))) [
          | some r ↦ ok (array xs, r)
          | none ↦ expect b',' (skip_whitespace (append_values false vs ++ rest)) >>= λ r.
              parse_elements fuel xs r
        ])
unfolding append_values values_image skip_whitespace is_blank
after_item fuel xs no_values rest h later = refl
after_item fuel xs (value w ws) rest h later =
    subst (λ t. ReadAs (omap array (values_image xs (value w ws))) rest (parse_elements fuel xs t))
      (sym (append_assoc (append_payload_value [] w) (append_values false ws) rest)) (later w ws h)

-- The text of a field and of what follows.
field_text : (k : List ℕ) (v : PayloadValue) (fs : Fields) (rest : List ℕ) → List ℕ
field_text k v fs rest =
    json_string k ++ (b':' ∷ (append_payload_value k v ++ (append_fields false fs ++ rest)))

field_text_lem :
    (k : List ℕ) (v : PayloadValue) (fs : Fields) (rest : List ℕ)
    → (json_string k ++ (b':' ∷ (append_payload_value k v ++ append_fields false fs))) ++ rest
      ≡ field_text k v fs rest
unfolding field_text
field_text_lem k v fs rest =
    append_assoc (json_string k) (b':' ∷ (append_payload_value k v ++ append_fields false fs)) rest
    ∙ ap (λ t. json_string k ++ (b':' ∷ t))
        (append_assoc (append_payload_value k v) (append_fields false fs) rest)

after_field :
    (fuel : ℕ) (m : Members) (fs : Fields) (rest : List ℕ)
    → need_fields fs ≤ fuel
    → ((k : List ℕ) (v : PayloadValue) (gs : Fields)
        → need_fields (field k v gs) ≤ fuel
        → ReadAs
            (omap object (fields_image m (field k v gs)))
            rest
            (parse_members fuel m (field_text k v gs rest)))
    → ReadAs
        (omap object (fields_image m fs))
        rest
        (elim (consume b'}' (skip_whitespace (append_fields false fs ++ rest))) [
          | some r ↦ ok (object m, r)
          | none ↦ expect b',' (skip_whitespace (append_fields false fs ++ rest)) >>= λ r.
              parse_members fuel m r
        ])
unfolding append_fields fields_image skip_whitespace is_blank field_text
after_field fuel m no_fields rest h later = refl
after_field fuel m (field k v gs) rest h later =
    subst (λ t. ReadAs (omap object (fields_image m (field k v gs))) rest (parse_members fuel m t))
      (sym (field_text_lem k v gs rest)) (later k v gs h)

values_stop : (vs : Values) (rest : List ℕ) → stops (append_values false vs ++ rest) ≡ true
unfolding append_values
values_stop no_values rest = refl
values_stop (value v vs) rest = refl

fields_stop : (fs : Fields) (rest : List ℕ) → stops (append_fields false fs ++ rest) ≡ true
unfolding append_fields
fields_stop no_fields rest = refl
fields_stop (field k v fs) rest = refl

mutual
  unfolding parse_value append_payload_value append_payload_text value_image need_value
      skip_whitespace is_blank field_text

  pub value_reads :
      (fuel : ℕ) (key : List ℕ) (v : PayloadValue) (rest : List ℕ)
      → need_value v ≤ fuel
      → stops rest ≡ true
      → ReadAs (value_image key v) rest (parse_value fuel (append_payload_value key v ++ rest))
  value_reads zero key Records.null rest h stop = absurd (omega arith)
  value_reads zero key (Records.boolean b) rest h stop = absurd (omega arith)
  value_reads zero key (Records.number_text n) rest h stop = absurd (omega arith)
  value_reads zero key (Records.text s) rest h stop = absurd (omega arith)
  value_reads zero key (Records.array vs) rest h stop = absurd (omega arith)
  value_reads zero key (Records.object fs) rest h stop = absurd (omega arith)
  value_reads (suc zero) key Records.null rest h stop = absurd (omega arith)
  value_reads (suc zero) key (Records.boolean b) rest h stop = absurd (omega arith)
  value_reads (suc zero) key (Records.number_text n) rest h stop = absurd (omega arith)
  value_reads (suc zero) key (Records.text s) rest h stop = absurd (omega arith)
  value_reads (suc zero) key (Records.array vs) rest h stop = absurd (omega arith)
  value_reads (suc zero) key (Records.object fs) rest h stop = absurd (omega arith)
  value_reads (suc (suc fuel)) key Records.null rest h stop = refl
  value_reads (suc (suc fuel)) key (Records.boolean true) rest h stop = refl
  value_reads (suc (suc fuel)) key (Records.boolean false) rest h stop = refl
  value_reads (suc (suc fuel)) key (Records.number_text n) rest h stop =
      number_text_read fuel n rest stop
  value_reads (suc (suc fuel)) key (Records.text s) rest h stop = text_read fuel key s rest stop
  value_reads (suc (suc fuel)) key (Records.array vs) rest h stop =
      array_reads fuel vs rest (omega arith)
  value_reads (suc (suc fuel)) key (Records.object fs) rest h stop =
      object_reads fuel fs rest (omega arith)

  array_reads :
      (fuel : ℕ) (vs : Values) (rest : List ℕ)
      → 1 + need_values vs ≤ fuel
      → ReadAs
          (omap array (values_image no_items vs))
          rest
          (parse_array fuel (append_values true vs ++ rest))
  array_reads zero vs rest h = absurd (omega arith)
  array_reads (suc fuel) no_values rest h = refl
  array_reads (suc fuel) (value v vs) rest h =
      subst (ReadAs (omap array (values_image no_items (value v vs))) rest)
        (sym (
          ap (parse_array (suc fuel))
            (append_assoc (append_payload_value [] v) (append_values false vs) rest)
          ∙ array-Begins fuel (append_payload_value [] v) (append_values false vs ++ rest)
              (begins [] v)))
        (elements_read fuel no_items v vs rest (omega arith))

  elements_read :
      (fuel : ℕ) (xs : Items) (v : PayloadValue) (vs : Values) (rest : List ℕ)
      → need_values (value v vs) ≤ fuel
      → ReadAs
          (omap array (values_image xs (value v vs)))
          rest
          (parse_elements fuel xs (append_payload_value [] v ++ (append_values false vs ++ rest)))
  elements_read zero xs v vs rest h = absurd (omega arith)
  elements_read (suc fuel) xs v vs rest h =
      then_read array (value_image [] v) (λ j. values_image (push_item j xs) vs) _ _
        (append_values false vs ++ rest) rest
        (value_reads fuel [] v (append_values false vs ++ rest) (omega arith) (values_stop vs rest))
        (λ j.
          after_item fuel (push_item j xs) vs rest (omega arith)
            (λ w ws enough. elements_read fuel (push_item j xs) w ws rest enough))

  pub object_reads :
      (fuel : ℕ) (fs : Fields) (rest : List ℕ)
      → 1 + need_fields fs ≤ fuel
      → ReadAs
          (omap object (fields_image no_members fs))
          rest
          (parse_object fuel (append_fields true fs ++ rest))
  object_reads zero fs rest h = absurd (omega arith)
  object_reads (suc fuel) no_fields rest h = refl
  object_reads (suc fuel) (field k v fs) rest h =
      subst
        (λ t.
          ReadAs (omap object (fields_image no_members (field k v fs))) rest
            (parse_members fuel no_members t))
        (sym (field_text_lem k v fs rest)) (members_read fuel no_members k v fs rest (omega arith))

  members_read :
      (fuel : ℕ) (m : Members) (k : List ℕ) (v : PayloadValue) (fs : Fields) (rest : List ℕ)
      → need_fields (field k v fs) ≤ fuel
      → ReadAs
          (omap object (fields_image m (field k v fs)))
          rest
          (parse_members fuel m (field_text k v fs rest))
  members_read zero m k v fs rest h = absurd (omega arith)
  members_read (suc fuel) m k v fs rest h =
      rw (key_read k (append_payload_value k v ++ (append_fields false fs ++ rest))) (
        then_read object (value_image k v)
          (λ j. elim (emplace k j m) [ none ↦ none | some n ↦ fields_image n fs ]) _ _
          (append_fields false fs ++ rest) rest
          (value_reads fuel k v (append_fields false fs ++ rest) (omega arith)
            (fields_stop fs rest))
          (λ j.
            emplaced_read k j m (λ n. fields_image n fs) _ rest
              (λ n.
                after_field fuel n fs rest (omega arith)
                  (λ k' v' gs enough. members_read fuel n k' v' gs rest enough))))
