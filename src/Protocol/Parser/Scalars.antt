-- ===== src/Protocol/Parser/Scalars.antt =====
-- What the readers of strings, numbers, literals and keys leave of the text.
use exchange_engine.Base.{
  bytes, ℕ, zero, suc, ◌+◌, ◌<◌, ◌≤◌, List, [], ◌∷◌, ◌++◌, arith, inl, inr, Bool-cases, ◌==◌,
  length,
}
use exchange_engine.Protocol.Parser.{
  Opening, brace, bracket, quotes, letter_t, letter_f, letter_n, numeric, other, parse_scalar,
  parse_key,
}
use exchange_engine.Protocol.Parser.Strings.{
  StringByte, quote, backslash, control, plain, parse_chars, parse_string, parse_literal,
  parse_escape, string_byte,
}
use exchange_engine.Protocol.Parser.Numbers.{
  parse_sign, parse_integral, require_digits, parse_fraction, parse_exponent, parse_number,
  is_exponent, is_exponent_sign,
}
use exchange_engine.Protocol.Parser.Lexer.{
  ok, fail, ◌>>=◌, JsonError, control_character, is_digit, is_non_zero_digit, expected_fraction,
  expected_exponent, skip_whitespace, peek, consume, expect,
}
use exchange_engine.Protocol.Parser.Shorter.{
  text_more, ReadsPart, ReadsText, bind_leaves, bind_text, option_leaves, leaves_more, skip_leaves,
  consume_leaves, expect_leaves, digits_leave, digits_shrink, parse_escape_leaves,
}

-- One round, whichever byte it meets.
round_leaves :
    (fuel : ℕ) (result : List ℕ) (c : ℕ) (cs : List ℕ)
    → ((acc rest : List ℕ)
        → length rest < suc (length cs)
        → ReadsPart (suc (length rest)) (parse_chars fuel acc rest))
    → (b : StringByte)
    → ReadsPart (suc (suc (length cs))) (elim b [
      | quote ↦ ok (result, cs)
      | backslash ↦ parse_escape cs >>= λ (more, rest). parse_chars fuel (result ++ more) rest
      | control ↦ fail control_character
      | plain ↦ parse_chars fuel (result ++ (c ∷ [])) cs
    ])
round_leaves fuel result c cs later quote = omega arith
round_leaves fuel result c cs later backslash =
    bind_leaves (length cs) (suc (suc (length cs))) (parse_escape cs) _ (parse_escape_leaves cs)
      (λ more rest less.
        leaves_more (suc (length rest)) (suc (suc (length cs)))
          (parse_chars fuel (result ++ more) rest) (later (result ++ more) rest (omega arith))
          (omega arith))
round_leaves fuel result c cs later control = tt
round_leaves fuel result c cs later plain =
    leaves_more (suc (length cs)) (suc (suc (length cs))) (parse_chars fuel (result ++ (c ∷ [])) cs)
      (later (result ++ (c ∷ [])) cs (omega arith)) (omega arith)

chars_leave :
    (fuel : ℕ) (result : List ℕ) (text : List ℕ)
    → length text < fuel
    → ReadsPart (suc (length text)) (parse_chars fuel result text)
unfolding parse_chars
chars_leave zero result text h = absurd (omega arith)
chars_leave (suc fuel) result [] h = tt
chars_leave (suc fuel) result (c ∷ cs) h =
    round_leaves fuel result c cs (λ acc rest less. chars_leave fuel acc rest (omega arith))
      (string_byte c)

pub string_leaves : (text : List ℕ) → ReadsPart (length text) (parse_string text)
unfolding parse_string
string_leaves text =
    bind_text (length text) (length text) (expect 34 text) _ (expect_leaves 34 text) (λ rest less.
      leaves_more _ _ (parse_chars (length rest + 1) [] rest)
        (chars_leave (length rest + 1) [] rest (omega arith)) (omega arith))

sign_leaves : (text : List ℕ) → length (parse_sign text).1 ≤ length text
sign_leaves [] = omega arith
sign_leaves (c ∷ cs) = ground arith

integral_leaves : (text : List ℕ) → ReadsPart (length text) (parse_integral text)
unfolding parse_integral
integral_leaves [] = tt
integral_leaves (c ∷ cs) = elim (Bool-cases (c == b'0')) [
  | inl e ↦ rw e (ground arith)
  | inr e ↦ elim (Bool-cases (is_non_zero_digit c)) [
    | inl d ↦ rw (e, d) (digits_shrink c cs (ground arith))
    | inr d ↦ rw (e, d) tt
  ]
]

required_leaves :
    (e : JsonError) (mark text : List ℕ) → ReadsPart (length text) (require_digits e mark text)
unfolding require_digits
required_leaves e mark [] = tt
required_leaves e mark (c ∷ cs) = elim (Bool-cases (is_digit c)) [
  | inl d ↦ rw d (let less = digits_leave cs in omega arith)
  | inr d ↦ rw d tt
]

required_more :
    (n : ℕ) (e : JsonError) (mark text : List ℕ)
    → length text ≤ n
    → ReadsPart n (require_digits e mark text)
required_more n e mark text le =
    leaves_more (length text) n (require_digits e mark text) (required_leaves e mark text) le

fraction_leaves : (text : List ℕ) → ReadsPart (suc (length text)) (parse_fraction text)
unfolding parse_fraction
fraction_leaves text =
    option_leaves (length text) _ (consume b'.' text) _ _ (consume_leaves b'.' text) (omega arith)
      (λ rest less. required_more _ expected_fraction (b'.' ∷ []) rest (omega arith))

exponent_leaves : (text : List ℕ) → ReadsPart (suc (length text)) (parse_exponent text)
unfolding parse_exponent
exponent_leaves [] = omega arith
exponent_leaves (c ∷ []) = elim (Bool-cases (is_exponent c)) [
  | inl e ↦ rw e (required_more 2 expected_exponent (c ∷ []) [] (omega arith))
  | inr e ↦ rw e (omega arith)
]
exponent_leaves (c ∷ d ∷ cs) = elim (Bool-cases (is_exponent c)) [
  | inl e ↦ elim (Bool-cases (is_exponent_sign d)) [
    | inl s ↦
        rw (e, s)
          (required_more (suc (suc (suc (length cs)))) expected_exponent (c ∷ d ∷ []) cs
            (omega arith))
    | inr s ↦
        rw (e, s)
          (required_more (suc (suc (suc (length cs)))) expected_exponent (c ∷ []) (d ∷ cs)
            (omega arith))
  ]
  | inr e ↦ rw e (omega arith)
]

pub number_leaves : (text : List ℕ) → ReadsPart (length text) (parse_number text)
unfolding parse_number
number_leaves text =
    let signed = sign_leaves text in
    bind_leaves (length (parse_sign text).1) _ (parse_integral (parse_sign text).1) _
      (integral_leaves (parse_sign text).1)
      (λ i t2 h2.
        bind_leaves (suc (length t2)) _ (parse_fraction t2) _ (fraction_leaves t2) (λ f t3 h3.
          bind_leaves (suc (length t3)) _ (parse_exponent t3) _ (exponent_leaves t3)
            (λ e t4 h4. omega arith)))

literal_leaves :
    (literal text : List ℕ) → ReadsText (suc (length text)) (parse_literal literal text)
unfolding parse_literal
literal_leaves [] text = omega arith
literal_leaves (l ∷ ls) [] = tt
literal_leaves (l ∷ ls) (c ∷ cs) = elim (Bool-cases (l == c)) [
  | inl e ↦ rw e (text_more _ _ (parse_literal ls cs) (literal_leaves ls cs) (omega arith))
  | inr e ↦ rw e tt
]

-- A literal that is not empty.
word_leaves : (l : ℕ) (ls text : List ℕ) → ReadsText (length text) (parse_literal (l ∷ ls) text)
unfolding parse_literal
word_leaves l ls [] = tt
word_leaves l ls (c ∷ cs) = elim (Bool-cases (l == c)) [
  | inl e ↦ rw e (literal_leaves ls cs)
  | inr e ↦ rw e tt
]

pub scalar_leaves : (o : Opening) (text : List ℕ) → ReadsPart (length text) (parse_scalar o text)
unfolding parse_scalar
scalar_leaves quotes text =
    bind_leaves _ _ (parse_string text) _ (string_leaves text) (λ s rest h. h)
scalar_leaves letter_t text =
    bind_text _ _ (parse_literal (bytes "true") text) _ (word_leaves b't' (bytes "rue") text)
      (λ rest h. h)
scalar_leaves letter_f text =
    bind_text _ _ (parse_literal (bytes "false") text) _ (word_leaves b'f' (bytes "alse") text)
      (λ rest h. h)
scalar_leaves letter_n text =
    bind_text _ _ (parse_literal (bytes "null") text) _ (word_leaves b'n' (bytes "ull") text)
      (λ rest h. h)
scalar_leaves numeric text =
    bind_leaves _ _ (parse_number text) _ (number_leaves text) (λ n rest h. h)
scalar_leaves brace text = tt
scalar_leaves bracket text = tt
scalar_leaves other text = tt

pub key_leaves : (text : List ℕ) → ReadsPart (length text) (parse_key text)
unfolding parse_key
key_leaves text = elim (Bool-cases (peek (skip_whitespace text) == 34)) [
  | inl e ↦
      let skipped = skip_leaves text in
      rw e (
        bind_leaves _ _ (parse_string (skip_whitespace text)) _
          (string_leaves (skip_whitespace text))
          (λ k after h.
            let skipped_after = skip_leaves after in
            bind_text _ _ (expect b':' (skip_whitespace after)) _
              (expect_leaves b':' (skip_whitespace after)) (λ rest less. omega arith)))
  | inr e ↦ rw e tt
]
