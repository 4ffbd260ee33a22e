-- ===== src/Runtime/Serializer/Scalars.antt =====
-- Printed payload values of one token, and keys, read by the parser of messages.
use exchange_engine.Base.{
  and_right, ℕ, suc, ◌≡◌, refl, ◌∙◌, ap, true, false, ◌&&◌, none, some, List, [], ◌∷◌, ◌++◌, arith,
  inl, inr, Bool-cases, ◌==◌, if◌then◌else◌,
}
use exchange_engine.Protocol.Json.{number, string, array, no_items}
use exchange_engine.Protocol.Parser.Lexer.{ok, is_blank, skip_whitespace, consume}
use exchange_engine.Protocol.Parser.{
  opening, numeric, parse_scalar, parse_value, parse_at, parse_array, parse_elements, parse_key,
}
use exchange_engine.Runtime.Records.{
  PayloadValue, Values, Fields, no_values, value, no_fields, field,
}
use exchange_engine.Runtime.Records as Records
use exchange_engine.Runtime.Serializer.{
  json_string, is_integer_payload_field, is_json_integer, is_json_number, is_unsigned_number,
  append_payload_text, append_payload_value,
}
use exchange_engine.Runtime.Serializer.Strings.{parse_string-json_string}
use exchange_engine.Runtime.Serializer.Numbers.{
  stops, parse_number-is_json_number, is_json_number-is_json_integer,
}

skip_solid : (c : ℕ) (cs : List ℕ) → is_blank c ≡ false → skip_whitespace (c ∷ cs) ≡ c ∷ cs
unfolding skip_whitespace
skip_solid c cs h = rw h refl

at_number :
    (fuel c : ℕ) (cs : List ℕ)
    → opening c ≡ numeric
    → parse_at (suc fuel) (c ∷ cs) ≡ parse_scalar numeric (c ∷ cs)
unfolding parse_at
at_number fuel c cs h = rw (parse_at, h) refl

number_read :
    (fuel : ℕ) (n rest : List ℕ)
    → is_json_number n ≡ true
    → stops rest ≡ true
    → parse_value (suc (suc fuel)) (n ++ rest) ≡ ok (number n, rest)
unfolding parse_value parse_at parse_scalar skip_whitespace is_json_number is_unsigned_number
    is_blank
number_read fuel [] rest h stop = cc
number_read fuel (c ∷ cs) rest h stop =
    let solid : is_blank c ≡ false = ground arith in
    let opens : opening c ≡ numeric = ground arith in
    ap (parse_at (suc fuel)) (skip_solid c (cs ++ rest) solid)
    ∙ at_number fuel c (cs ++ rest) opens
    ∙ rw (parse_number-is_json_number (c ∷ cs) rest h stop) refl

string_read :
    (fuel : ℕ) (s rest : List ℕ)
    → parse_value (suc (suc fuel)) (json_string s ++ rest) ≡ ok (string s, rest)
unfolding parse_value parse_at parse_scalar skip_whitespace json_string
string_read fuel s rest = rw (parse_string-json_string s rest) refl

pub text_read :
    (fuel : ℕ) (key s rest : List ℕ)
    → stops rest ≡ true
    → parse_value (suc (suc fuel)) (append_payload_text key s ++ rest)
      ≡ ok (if is_integer_payload_field key && is_json_integer s then number s else string s, rest)
unfolding append_payload_text
text_read fuel key s rest stop =
    elim (Bool-cases (is_integer_payload_field key && is_json_integer s)) [
      | inl e ↦ rw e (
          number_read fuel s rest
            (is_json_number-is_json_integer s
              (and_right (is_integer_payload_field key) (is_json_integer s) e))
            stop)
      | inr e ↦ rw e (string_read fuel s rest)
    ]

pub number_text_read :
    (fuel : ℕ) (n rest : List ℕ)
    → stops rest ≡ true
    → parse_value (suc (suc fuel)) ((if is_json_number n then n else json_string n) ++ rest)
      ≡ ok (if is_json_number n then number n else string n, rest)
number_text_read fuel n rest stop = elim (Bool-cases (is_json_number n)) [
  | inl e ↦ rw e (number_read fuel n rest e stop)
  | inr e ↦ rw e (string_read fuel n rest)
]

pub key_read : (k more : List ℕ) → parse_key (json_string k ++ (b':' ∷ more)) ≡ ok (k, more)
unfolding parse_key skip_whitespace json_string
key_read k more = rw (parse_string-json_string k (b':' ∷ more)) refl

-- A text whose first byte is neither blank nor the end of an array.
abbrev pub Begins : List ℕ → Type 0
Begins [] = ⊥
Begins (c ∷ cs) = (is_blank c ≡ false) × ((c == b']') ≡ false)

number-Begins : (n : List ℕ) → is_json_number n ≡ true → Begins n
unfolding is_json_number is_unsigned_number is_blank
number-Begins [] h = cc
number-Begins (c ∷ cs) h = (ground arith, ground arith)

pub begins : (key : List ℕ) (v : PayloadValue) → Begins (append_payload_value key v)
unfolding append_payload_value append_payload_text json_string is_blank
begins key Records.null = (refl, refl)
begins key (Records.boolean true) = (refl, refl)
begins key (Records.boolean false) = (refl, refl)
begins key (Records.number_text n) = elim (Bool-cases (is_json_number n)) [
  | inl e ↦ rw e (number-Begins n e)
  | inr e ↦ rw e (refl, refl)
]
begins key (Records.text s) =
    elim (Bool-cases (is_integer_payload_field key && is_json_integer s)) [
      | inl e ↦ rw e (
          number-Begins s (
            is_json_number-is_json_integer s
              (and_right (is_integer_payload_field key) (is_json_integer s) e)))
      | inr e ↦ rw e (refl, refl)
    ]
begins key (Records.array vs) = (refl, refl)
begins key (Records.object fs) = (refl, refl)

pub array-Begins :
    (fuel : ℕ) (text more : List ℕ)
    → Begins text
    → parse_array (suc fuel) (text ++ more) ≡ parse_elements fuel no_items (text ++ more)
unfolding parse_array
array-Begins fuel [] more h = absurd h
array-Begins fuel (c ∷ cs) more (solid, no_end) =
    ap
      (λ t. elim (consume b']' t) [
        | some rest ↦ ok (array no_items, rest)
        | none ↦ parse_elements fuel no_items t
      ])
      (skip_solid c (cs ++ more) solid)
    ∙ rw no_end refl
