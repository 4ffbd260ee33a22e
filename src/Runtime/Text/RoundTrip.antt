-- ===== src/Runtime/Text/RoundTrip.antt =====
-- Printed integers, read by the parser of inputs.
use exchange_engine.Base.{
  ℕ, zero, suc, ◌+◌, ◌-◌, ◌*◌, ◌/◌, ◌%◌, ◌^◌, ◌<◌, ◌≤◌, ◌≡◌, refl, ◌∙◌, ap, true, false, some, List,
  [], ◌∷◌, ◌++◌, arith, ltb, leb, ◌==◌, inl, inr, Bool-cases, ℤ, pos, negsuc, neg_ℕ, and_left,
  and_right,
}
use exchange_engine.Core.Level.{is_nil}
use exchange_engine.Protocol.Parser.Lexer.{is_digit, consume_digits}
use exchange_engine.Runtime.Serializer.{all_digits}
use exchange_engine.Runtime.InputParser.Fields.{
  digits_value, bounded, from_chars, parse_integer_text,
}
use exchange_engine.Runtime.InputParser.Ranges.{InRange}
use exchange_engine.Runtime.Text.{digits, to_string}

digits_value-append :
    (n : ℕ) (ds : List ℕ) (d : ℕ)
    → digits_value n (ds ++ (d ∷ [])) ≡ digits_value n ds * 10 + (d - b'0')
unfolding digits_value
digits_value-append n [] d = refl
digits_value-append n (c ∷ ds) d = digits_value-append (n * 10 + (c - b'0')) ds d

all_digits-append :
    (ds : List ℕ) (d : ℕ)
    → all_digits ds ≡ true
    → is_digit d ≡ true
    → all_digits (ds ++ (d ∷ [])) ≡ true
unfolding all_digits
all_digits-append [] d h e = rw e refl
all_digits-append (c ∷ ds) d h e =
    let here = and_left (is_digit c) (all_digits ds) h in
    rw (here, all_digits-append ds d (and_right (is_digit c) (all_digits ds) h) e) refl

all_digits-digits : (fuel n : ℕ) → all_digits (digits fuel n) ≡ true
unfolding digits all_digits
all_digits-digits zero n = refl
all_digits-digits (suc fuel) n = elim (Bool-cases (ltb n 10)) [
  | inl h ↦ let d : is_digit (b'0' + n) ≡ true = ground arith in rw (h, d) refl
  | inr h ↦ rw h (
      all_digits-append (digits fuel (n / 10)) (b'0' + n % 10) (all_digits-digits fuel (n / 10))
        (ground arith))
]

digits_value-digits : (fuel n : ℕ) → n < fuel → digits_value 0 (digits fuel n) ≡ n
unfolding digits digits_value
digits_value-digits zero n h = absurd (omega arith)
digits_value-digits (suc fuel) n h = elim (Bool-cases (ltb n 10)) [
  | inl low ↦ rw low (omega arith)
  | inr high ↦
      let smaller : n / 10 < fuel = ground arith in
      rw
        (
          high,
          digits_value-append 0 (digits fuel (n / 10)) (b'0' + n % 10),
          digits_value-digits fuel (n / 10) smaller,
        )
        (omega arith)
]

some_digit : (fuel n : ℕ) → is_nil (digits (suc fuel) n) ≡ false
unfolding digits
some_digit fuel n = elim (Bool-cases (ltb n 10)) [
  | inl h ↦ rw h refl
  | inr h ↦ rw h (no_nil (digits fuel (n / 10)) (b'0' + n % 10))
]
  where
    no_nil : (ds : List ℕ) (d : ℕ) → is_nil (ds ++ (d ∷ [])) ≡ false
    no_nil [] d = refl
    no_nil (c ∷ ds) d = refl

consume_all : (ds : List ℕ) → all_digits ds ≡ true → consume_digits ds ≡ (ds, [])
unfolding all_digits consume_digits
consume_all [] h = refl
consume_all (c ∷ ds) h =
    rw
      (
        and_left (is_digit c) (all_digits ds) h,
        consume_all ds (and_right (is_digit c) (all_digits ds) h),
      )
      refl

bounded_digits :
    (top : ℕ) (ds : List ℕ)
    → is_nil ds ≡ false
    → digits_value 0 ds ≤ top
    → bounded top ds ≡ some (digits_value 0 ds)
unfolding bounded
bounded_digits top ds some_there le =
    let e : leb (digits_value 0 ds) top ≡ true = ground arith in rw (some_there, e) refl

-- A text that is read as a whole.
whole : (text : List ℕ) (z : ℤ) → from_chars text ≡ some (z, []) → parse_integer_text text ≡ some z
unfolding parse_integer_text
whole text z e = rw (parse_integer_text, e) refl

plain_text :
    (ds : List ℕ)
    → all_digits ds ≡ true
    → is_nil ds ≡ false
    → digits_value 0 ds ≤ 2 ^ 63 - 1
    → from_chars ds ≡ some (pos (digits_value 0 ds), [])
unfolding from_chars all_digits
plain_text [] h some_there le = cc
plain_text (c ∷ ds) h some_there le =
    let d = and_left (is_digit c) (all_digits ds) h in
    let e : (c == b'-') ≡ false = ground arith in
    rw
      (
        from_chars,
        e,
        consume_all (c ∷ ds) h,
        bounded_digits (2 ^ 63 - 1) (c ∷ ds) refl le,
        consume_all (c ∷ ds) h,
      )
      refl

minus_text :
    (ds : List ℕ)
    → all_digits ds ≡ true
    → is_nil ds ≡ false
    → digits_value 0 ds ≤ 2 ^ 63
    → from_chars (b'-' ∷ ds) ≡ some (neg_ℕ (digits_value 0 ds), [])
unfolding from_chars
minus_text ds h some_there le =
    rw (from_chars, consume_all ds h, bounded_digits (2 ^ 63) ds some_there le, consume_all ds h)
      refl

negative : (n : ℕ) → neg_ℕ (suc n) ≡ negsuc n
negative n =
    let e : leb (suc n) 0 ≡ false = ground arith in
    let less : suc n - 0 - 1 ≡ n = omega arith in rw (e, less) refl

-- A 64-bit integer that the runtime prints is read by the parser of inputs as the same integer.
pub parse_integer_text-to_string :
    (z : ℤ) → InRange (2 ^ 63) z → parse_integer_text (to_string z) ≡ some z
unfolding to_string
parse_integer_text-to_string (pos n) (low, high) =
    let e = digits_value-digits (suc n) n (omega arith) in
    whole (digits (suc n) n) (pos n) (
      plain_text (digits (suc n) n) (all_digits-digits (suc n) n) (some_digit n n) (omega arith)
      ∙ ap (λ k. some (pos k, [])) e)
parse_integer_text-to_string (negsuc n) (low, high) =
    let ds = digits (suc (suc n)) (suc n) in
    let e = digits_value-digits (suc (suc n)) (suc n) (omega arith) in
    whole (b'-' ∷ ds) (negsuc n) (
      minus_text ds (all_digits-digits (suc (suc n)) (suc n)) (some_digit (suc n) (suc n))
        (omega arith)
      ∙ ap (λ k. some (neg_ℕ k, [])) e
      ∙ ap (λ z. some (z, [])) (negative n))
