-- ===== src/Protocol/Parser/Numbers.antt =====
-- `parse_number` of src/protocol/Json.cpp.
use exchange_engine.Base.{ℕ, Bool, ◌||◌, none, some, List, [], ◌∷◌, ◌++◌, ◌==◌, if◌then◌else◌}
use exchange_engine.Protocol.Parser.Lexer.{
  JsonError, Parsing, ◌>>=◌, is_non_zero_digit, consume, starts_with_digit, consume_digits, Part,
  incomplete_number, leading_zero, expected_number_digits, expected_fraction, expected_exponent, ok,
  fail,
}

abbrev pub parse_sign : List ℕ → Part
parse_sign text = elim (consume b'-' text) [ none ↦ ([], text) | some rest ↦ (b'-' ∷ [], rest) ]

unfoldable pub parse_integral : List ℕ → Parsing Part
unfolding consume_digits
parse_integral [] = fail incomplete_number
parse_integral (c ∷ cs) =
    if c == b'0'
    then (if starts_with_digit cs then fail leading_zero else ok (c ∷ [], cs))
    else (if is_non_zero_digit c then ok (consume_digits (c ∷ cs)) else fail expected_number_digits)

-- Digits that have to be there, behind the passed `mark`.
unfoldable pub require_digits : JsonError → List ℕ → List ℕ → Parsing Part
unfolding consume_digits
require_digits e mark text =
    if starts_with_digit text
    then (let (ds, rest) = consume_digits text in ok (mark ++ ds, rest))
    else fail e

unfoldable pub parse_fraction : List ℕ → Parsing Part
unfolding require_digits
parse_fraction text = elim (consume b'.' text) [
  | none ↦ ok ([], text)
  | some rest ↦ require_digits expected_fraction (b'.' ∷ []) rest
]

abbrev pub is_exponent : ℕ → Bool
is_exponent c = c == b'e' || c == b'E'

abbrev pub is_exponent_sign : ℕ → Bool
is_exponent_sign c = c == b'+' || c == b'-'

unfoldable pub parse_exponent : List ℕ → Parsing Part
unfolding require_digits
parse_exponent [] = ok ([], [])
parse_exponent (c ∷ []) =
    if is_exponent c then require_digits expected_exponent (c ∷ []) [] else ok ([], c ∷ [])
parse_exponent (c ∷ d ∷ cs) =
    if is_exponent c
    then (if is_exponent_sign d
        then require_digits expected_exponent (c ∷ d ∷ []) cs
        else require_digits expected_exponent (c ∷ []) (d ∷ cs))
    else ok ([], c ∷ d ∷ cs)

-- The text of the number, from where it starts to where it ends.
unfoldable pub parse_number : List ℕ → Parsing Part
unfolding parse_integral parse_fraction parse_exponent
parse_number text = do
  let (sign, t1) = parse_sign text
  (integral, t2) ← parse_integral t1
  (fraction, t3) ← parse_fraction t2
  (exponent, t4) ← parse_exponent t3
  ok (sign ++ (integral ++ (fraction ++ exponent)), t4)
