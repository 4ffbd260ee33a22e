-- ===== src/Runtime/Serializer/Numbers.antt =====
-- Printed numbers, read by the parser of messages.
use exchange_engine.Base.{
  ℕ, ◌≡◌, refl, sym, ◌∙◌, ap, ap₂, Bool, true, false, not, ◌&&◌, ◌||◌, List, [], ◌∷◌, ◌++◌,
  append-nil, arith, inl, inr, Bool-cases, ◌==◌,
}
use exchange_engine.Core.Level.{is_nil}
use exchange_engine.Protocol.Parser.Lexer.{
  ok, JsonError, is_digit, is_non_zero_digit, starts_with_digit, consume_digits, expected_exponent,
  expected_fraction,
}
use exchange_engine.Protocol.Parser.Numbers.{
  is_exponent, is_exponent_sign, parse_sign, parse_integral, require_digits, parse_fraction,
  parse_exponent, parse_number,
}
use exchange_engine.Runtime.Serializer.{
  all_digits, is_integral, is_json_integer, ends_number, is_fraction, is_unsigned_number,
  is_json_number,
}

-- No byte that a number goes on with is next.
abbrev pub stops : List ℕ → Bool
stops [] = true
stops (c ∷ cs) = not (is_digit c || (c == b'.' || is_exponent c))

stops_digit : (rest : List ℕ) → stops rest ≡ true → starts_with_digit rest ≡ false
stops_digit [] h = refl
stops_digit (c ∷ cs) h = ground arith

digits_append :
    (text rest : List ℕ)
    → starts_with_digit rest ≡ false
    → consume_digits (text ++ rest) ≡ ((consume_digits text).0, (consume_digits text).1 ++ rest)
unfolding consume_digits
digits_append [] [] h = refl
digits_append [] (c ∷ cs) h = rw h refl
digits_append (c ∷ cs) rest h = elim (Bool-cases (is_digit c)) [
  | inl d ↦ rw (d, digits_append cs rest h) refl
  | inr d ↦ rw d refl
]

digits_join : (text : List ℕ) → (consume_digits text).0 ++ (consume_digits text).1 ≡ text
unfolding consume_digits
digits_join [] = refl
digits_join (c ∷ cs) = elim (Bool-cases (is_digit c)) [
  | inl d ↦ rw d (ap (◌∷◌ c) (digits_join cs))
  | inr d ↦ rw d refl
]

starts_append :
    (text rest : List ℕ)
    → not (is_nil (consume_digits text).0) ≡ true
    → starts_with_digit (text ++ rest) ≡ true
unfolding consume_digits
starts_append [] rest h = absurd (ground arith)
starts_append (c ∷ cs) rest h = ground arith

nil_of : (text : List ℕ) → is_nil text ≡ true → text ≡ []
nil_of [] h = refl
nil_of (c ∷ cs) h = cc

required :
    (e : JsonError) (mark text rest : List ℕ)
    → not (is_nil (consume_digits text).0) ≡ true
    → starts_with_digit rest ≡ false
    → require_digits e mark (text ++ rest)
      ≡ ok (mark ++ (consume_digits text).0, (consume_digits text).1 ++ rest)
unfolding require_digits
required e mark text rest h stop = rw (starts_append text rest h, digits_append text rest stop) refl

-- Nothing but digits.
required_all :
    (e : JsonError) (mark text rest : List ℕ)
    → (not (is_nil (consume_digits text).0) && is_nil (consume_digits text).1) ≡ true
    → starts_with_digit rest ≡ false
    → require_digits e mark (text ++ rest) ≡ ok (mark ++ text, rest)
required_all e mark text rest h stop =
    let none_left : (consume_digits text).1 ≡ [] = nil_of (consume_digits text).1 (ground arith) in
    let all : (consume_digits text).0 ≡ text =
      sym (append-nil (consume_digits text).0)
      ∙ ap (λ more. (consume_digits text).0 ++ more) (sym none_left)
      ∙ digits_join text in
    required e mark text rest (ground arith) stop
    ∙ ap₂ (λ ds more. ok (mark ++ ds, more ++ rest)) all none_left

no_exponent : (rest : List ℕ) → stops rest ≡ true → parse_exponent rest ≡ ok ([], rest)
unfolding parse_exponent
no_exponent [] h = refl
no_exponent (c ∷ []) h = let e : is_exponent c ≡ false = ground arith in rw e refl
no_exponent (c ∷ d ∷ cs) h = let e : is_exponent c ≡ false = ground arith in rw e refl

read_exponent :
    (text rest : List ℕ)
    → ends_number text ≡ true
    → stops rest ≡ true
    → parse_exponent (text ++ rest) ≡ ok (text, rest)
unfolding parse_exponent ends_number
read_exponent [] rest h stop = no_exponent rest stop
read_exponent (c ∷ []) rest h stop = cc
read_exponent (c ∷ d ∷ cs) rest h stop = elim (Bool-cases (is_exponent c)) [
  | inl e ↦ elim (Bool-cases (is_exponent_sign d)) [
    | inl s ↦
        rw (e, s)
          (required_all expected_exponent (c ∷ d ∷ []) cs rest (ground arith)
            (stops_digit rest stop))
    | inr s ↦
        rw (e, s)
          (required_all expected_exponent (c ∷ []) (d ∷ cs) rest (ground arith)
            (stops_digit rest stop))
  ]
  | inr e ↦ absurd (ground arith)
]

no_fraction : (text : List ℕ) → stops text ≡ true → parse_fraction text ≡ ok ([], text)
unfolding parse_fraction
no_fraction [] h = refl
no_fraction (c ∷ cs) h = let e : (c == b'.') ≡ false = ground arith in rw (parse_fraction, e) refl

-- The end of a number: a fraction and an exponent.
read_fraction :
    (text rest : List ℕ)
    → is_fraction text ≡ true
    → stops rest ≡ true
    → (fraction : List ℕ) × (exponent : List ℕ) × (parse_fraction (text ++ rest)
        ≡ ok (fraction, exponent ++ rest))
      × (fraction ++ exponent ≡ text)
      × (ends_number exponent ≡ true)
unfolding parse_fraction is_fraction ends_number
read_fraction [] rest h stop = ([], [], no_fraction rest stop, refl, refl)
read_fraction (c ∷ cs) rest h stop = elim (Bool-cases (c == b'.')) [
  | inl e ↦
      let point : c ≡ b'.' = ground arith in
      (
        b'.' ∷ (consume_digits cs).0,
        (consume_digits cs).1,
        rw (parse_fraction, e)
            (required expected_fraction (b'.' ∷ []) cs rest (ground arith) (stops_digit rest stop)),
        rw point (ap (◌∷◌ b'.') (digits_join cs)),
        ground arith,
      )
  | inr e ↦ ([], c ∷ cs, rw (parse_fraction, e) refl, refl, ground arith)
]

-- What a fraction starts with is no digit.
no_digit :
    (text rest : List ℕ)
    → is_fraction text ≡ true
    → stops rest ≡ true
    → starts_with_digit (text ++ rest) ≡ false
unfolding is_fraction ends_number
no_digit [] rest h stop = stops_digit rest stop
no_digit (c ∷ []) rest h stop = ground arith
no_digit (c ∷ d ∷ cs) rest h stop = ground arith

read_integral :
    (text rest : List ℕ)
    → is_unsigned_number text ≡ true
    → stops rest ≡ true
    → (integral : List ℕ) × (more : List ℕ) × (parse_integral (text ++ rest)
        ≡ ok (integral, more ++ rest))
      × (integral ++ more ≡ text)
      × (is_fraction more ≡ true)
unfolding parse_integral is_unsigned_number
read_integral [] rest h stop = cc
read_integral (c ∷ cs) rest h stop = elim (Bool-cases (c == b'0')) [
  | inl e ↦
      let fraction : is_fraction cs ≡ true = ground arith in
      (c ∷ [], cs, rw (e, no_digit cs rest fraction stop) refl, refl, fraction)
  | inr e ↦
      let digit : is_non_zero_digit c ≡ true = ground arith in
      (
        (consume_digits (c ∷ cs)).0,
        (consume_digits (c ∷ cs)).1,
        rw (e, digit) (ap ok (digits_append (c ∷ cs) rest (stops_digit rest stop))),
        digits_join (c ∷ cs),
        ground arith,
      )
]

read_signed :
    (t sign text rest : List ℕ)
    → parse_sign t ≡ (sign, text ++ rest)
    → is_unsigned_number text ≡ true
    → stops rest ≡ true
    → parse_number t ≡ ok (sign ++ text, rest)
unfolding parse_number
read_signed t sign text rest signed h stop =
    let (i, more, read_i, join_i, fraction) = read_integral text rest h stop in
    let (f, x, read_f, join_f, exponent) = read_fraction more rest fraction stop in
    rw (signed, read_i, read_f, read_exponent x rest exponent stop, join_f, join_i) refl

-- A text that the serializer takes for a JSON number is read by the parser as that number, where no
-- byte that a number goes on with follows it.
pub parse_number-is_json_number :
    (n rest : List ℕ)
    → is_json_number n ≡ true
    → stops rest ≡ true
    → parse_number (n ++ rest) ≡ ok (n, rest)
unfolding is_json_number is_unsigned_number
parse_number-is_json_number [] rest h stop = cc
parse_number-is_json_number (c ∷ cs) rest h stop = elim (Bool-cases (c == b'-')) [
  | inl e ↦
      let minus : c ≡ b'-' = ground arith in
      rw minus (read_signed (b'-' ∷ (cs ++ rest)) (b'-' ∷ []) cs rest refl (ground arith) stop)
  | inr e ↦
      read_signed (c ∷ (cs ++ rest)) [] (c ∷ cs) rest (rw (parse_sign, e) refl) (ground arith) stop
]

digits_of : (text : List ℕ) → all_digits text ≡ true → (consume_digits text).1 ≡ []
unfolding all_digits consume_digits
digits_of [] h = refl
digits_of (c ∷ cs) h =
    let d : is_digit c ≡ true = ground arith in rw d (digits_of cs (ground arith))

unsigned_of : (text : List ℕ) → is_integral text ≡ true → is_unsigned_number text ≡ true
unfolding is_unsigned_number all_digits
unsigned_of [] h = cc
unsigned_of (c ∷ []) h = elim (Bool-cases (c == b'0')) [
  | inl e ↦ rw e refl
  | inr e ↦
      let digit : is_non_zero_digit c ≡ true = ground arith in
      rw (e, digit, digits_of (c ∷ []) (ground arith)) refl
]
unsigned_of (c ∷ d ∷ cs) h = elim (Bool-cases (c == b'0')) [
  | inl e ↦ absurd (ground arith)
  | inr e ↦
      let digit : is_non_zero_digit c ≡ true = ground arith in
      rw (e, digit, digits_of (c ∷ d ∷ cs) (ground arith)) refl
]

pub is_json_number-is_json_integer :
    (n : List ℕ) → is_json_integer n ≡ true → is_json_number n ≡ true
unfolding is_json_integer is_json_number
is_json_number-is_json_integer [] h = cc
is_json_number-is_json_integer (c ∷ cs) h = elim (Bool-cases (c == b'-')) [
  | inl e ↦ rw e (unsigned_of cs (ground arith))
  | inr e ↦ rw e (unsigned_of (c ∷ cs) (ground arith))
]
