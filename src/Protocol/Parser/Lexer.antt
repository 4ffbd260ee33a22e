-- ===== src/Protocol/Parser/Lexer.antt =====
-- The parser of src/protocol/Json.cpp: its errors, single bytes, blanks and runs of digits.
use exchange_engine.Base.{
  ℕ, Bool, false, ◌&&◌, ◌||◌, Option, none, some, List, [], ◌∷◌, leb, ◌==◌, if◌then◌else◌,
}

pub data JsonError : Type 0 where
  trailing_content expected_value expected_key duplicate_key control_character : JsonError
  unterminated_string unterminated_escape invalid_escape expected_low_surrogate_escape : JsonError
  expected_low_surrogate unexpected_low_surrogate incomplete_unicode invalid_unicode : JsonError
  incomplete_number leading_zero expected_number_digits expected_fraction : JsonError
  expected_exponent invalid_literal : JsonError
  expected : ℕ → JsonError

pub data Parsing {ℓ} (A : Type ℓ) : Type ℓ where
  ok : A → Parsing A
  fail : JsonError → Parsing A
  out_of_fuel : Parsing A

infixl 5 ◌>>=◌
abbrev pub ◌>>=◌ {ℓ κ} : {A : Type ℓ} {B : Type κ} → Parsing A → (A → Parsing B) → Parsing B
ok a >>= f = f a
fail e >>= f = fail e
out_of_fuel >>= f = out_of_fuel

abbrev pub is_digit : ℕ → Bool
is_digit c = leb b'0' c && leb c b'9'

abbrev pub is_non_zero_digit : ℕ → Bool
is_non_zero_digit c = leb b'1' c && leb c b'9'

unfoldable pub is_blank : ℕ → Bool
is_blank c = c == 32 || (c == 9 || (c == 10 || c == 13))

unfoldable pub skip_whitespace : List ℕ → List ℕ
unfolding is_blank
skip_whitespace [] = []
skip_whitespace (c ∷ cs) = if is_blank c then skip_whitespace cs else c ∷ cs

-- The next byte, 0 at the end.
abbrev pub peek : List ℕ → ℕ
peek [] = 0
peek (c ∷ cs) = c

-- What is left if the byte is next.
abbrev pub consume : ℕ → List ℕ → Option (List ℕ)
consume c [] = none
consume c (d ∷ ds) = if d == c then some ds else none

abbrev pub expect : ℕ → List ℕ → Parsing (List ℕ)
expect c text = elim (consume c text) [ none ↦ fail (expected c) | some rest ↦ ok rest ]

abbrev pub starts_with_digit : List ℕ → Bool
starts_with_digit [] = false
starts_with_digit (c ∷ cs) = is_digit c

-- The digits that `consume_digits` passes, and what is left.
unfoldable pub consume_digits : List ℕ → List ℕ × List ℕ
consume_digits [] = ([], [])
consume_digits (c ∷ cs) =
    let (ds, rest) = consume_digits cs in if is_digit c then (c ∷ ds, rest) else ([], c ∷ cs)

-- The parts of a number: what was passed of the text, and what is left.
abbrev pub Part : Type 0
Part = List ℕ × List ℕ
