-- ===== src/Runtime/Serializer/Strings.antt =====
-- Printed strings, read by the parser of messages.
use exchange_engine.Base.{
  ℕ, zero, suc, ◌+◌, ◌/◌, ◌%◌, ◌<◌, ◌≤◌, ◌≡◌, refl, ◌∙◌, true, false, List, [], ◌∷◌, ◌++◌,
  append_assoc, append-nil, arith, inl, inr, Bool-cases, ltb, leb, ◌==◌, length, length-append,
}
use exchange_engine.Protocol.Parser.Strings.{
  shift_in, is_high_surrogate, is_low_surrogate, hex_value, append_utf8, append_unicode_escape,
  parse_chars, parse_string,
}
use exchange_engine.Protocol.Parser.Lexer.{ok}
use exchange_engine.Runtime.Serializer.{hex_digit, escape_byte, escape, json_string}

hex_value-hex_digit : (n : ℕ) → n < 16 → hex_value (hex_digit n) ≡ ok n
unfolding hex_value
hex_value-hex_digit n h = ground arith

-- The escape of a control character.
control_escape :
    (c : ℕ) (rest : List ℕ)
    → c < 32
    → append_unicode_escape (b'0' ∷ b'0' ∷ hex_digit (c / 16) ∷ hex_digit (c % 16) ∷ rest)
      ≡ ok (c ∷ [], rest)
unfolding append_unicode_escape
control_escape c rest h =
    let code : shift_in (shift_in 0 (c / 16)) (c % 16) ≡ c = omega arith in
    let high : is_high_surrogate c ≡ false = ground arith in
    let low : is_low_surrogate c ≡ false = ground arith in
    let ascii : leb c 0x7F ≡ true = ground arith in
    rw (hex_value-hex_digit (c / 16) (omega arith), hex_value-hex_digit (c % 16) (omega arith))
      (rw code (rw (high, low, append_utf8, ascii) refl))

-- One byte, one round.
round :
    (fuel : ℕ) (result : List ℕ) (c : ℕ) (rest : List ℕ)
    → parse_chars (suc fuel) result (escape_byte c ++ rest)
      ≡ parse_chars fuel (result ++ (c ∷ [])) rest
unfolding parse_chars escape_byte
round fuel result c rest = elim (Bool-cases (c == 34)) [
  | inl e ↦ let q : c ≡ 34 = ground arith in rw q refl
  | inr quote ↦ elim (Bool-cases (c == 92)) [
    | inl e ↦ let q : c ≡ 92 = ground arith in rw q refl
    | inr slash ↦ elim (Bool-cases (c == 8)) [
      | inl e ↦ let q : c ≡ 8 = ground arith in rw q refl
      | inr b ↦ elim (Bool-cases (c == 12)) [
        | inl e ↦ let q : c ≡ 12 = ground arith in rw q refl
        | inr f ↦ elim (Bool-cases (c == 10)) [
          | inl e ↦ let q : c ≡ 10 = ground arith in rw q refl
          | inr n ↦ elim (Bool-cases (c == 13)) [
            | inl e ↦ let q : c ≡ 13 = ground arith in rw q refl
            | inr r ↦ elim (Bool-cases (c == 9)) [
              | inl e ↦ let q : c ≡ 9 = ground arith in rw q refl
              | inr t ↦ elim (Bool-cases (ltb c 32)) [
                | inl low ↦
                    rw (quote, slash, b, f, n, r, t, low)
                      (rw (control_escape c rest (ground arith)) refl)
                | inr high ↦
                    rw (quote, slash, b, f, n, r, t, high)
                      (rw (parse_chars, quote, slash, high) refl)
              ]
            ]
          ]
        ]
      ]
    ]
  ]
]

-- The printed bytes of a text, read in as many rounds.
read_escaped :
    (fuel : ℕ) (result : List ℕ) (s : List ℕ) (rest : List ℕ)
    → length s < fuel
    → parse_chars fuel result (escape s ++ (34 ∷ rest)) ≡ ok (result ++ s, rest)
unfolding parse_chars escape
read_escaped zero result s rest h = absurd (omega arith)
read_escaped (suc fuel) result [] rest h = rw (append-nil result) refl
read_escaped (suc fuel) result (c ∷ s) rest h =
    rw (append_assoc (escape_byte c) (escape s) (34 ∷ rest)) (
      round fuel result c (escape s ++ (34 ∷ rest))
      ∙ read_escaped fuel (result ++ (c ∷ [])) s rest (omega arith)
      ∙ rw (append_assoc result (c ∷ []) s) refl)

length-escape_byte : (c : ℕ) → 0 < length (escape_byte c)
unfolding escape_byte
length-escape_byte c = ground arith

length-escape : (s : List ℕ) → length s ≤ length (escape s)
unfolding escape
length-escape [] = omega arith
length-escape (c ∷ s) =
    rw (length-append (escape_byte c) (escape s))
      (let one = length-escape_byte c in let more = length-escape s in omega arith)

-- A text printed by the serializer is read by the parser as the same text, whatever follows it.
pub parse_string-json_string :
    (s rest : List ℕ) → parse_string (json_string s ++ rest) ≡ ok (s, rest)
unfolding parse_string json_string
parse_string-json_string s rest = rw (append_assoc (escape s) (34 ∷ []) rest) (
    read_escaped (length (escape s ++ (34 ∷ rest)) + 1) [] s rest
      (rw (length-append (escape s) (34 ∷ rest)) (let more = length-escape s in omega arith)))
