-- ===== src/Protocol/Parser.antt =====
-- The class `Parser` of src/protocol/Json.cpp. Its position is the text that is left; an exception
-- is a value of `JsonError`, whose offset the source drops. `out_of_fuel` stands for no outcome of
-- the program.
pub mod Lexer
pub mod Numbers
pub mod Strings
pub mod Shorter
pub mod Scalars
pub mod Total
use exchange_engine.Base.{
  ◌^◌, ℕ, zero, suc, ◌+◌, ◌-◌, ◌*◌, ◌/◌, ◌%◌, Bool, true, false, not, ◌&&◌, ◌||◌, Option, none,
  some, List, [], ◌∷◌, ◌++◌, length, ltb, leb, ◌==◌, if◌then◌else◌, bytes,
}
use exchange_engine.Protocol.Json.{
  JsonValue, Items, Members, null, boolean, number, string, array, object, no_items, no_members,
  push_item, emplace,
}
use exchange_engine.Protocol.Parser.Lexer.{
  JsonError, Parsing, ◌>>=◌, is_digit, is_non_zero_digit, is_blank, skip_whitespace, peek, consume,
  expect, starts_with_digit, consume_digits, Part, trailing_content, expected_value, expected_key,
  duplicate_key, control_character, unterminated_string, unterminated_escape, invalid_escape,
  expected_low_surrogate_escape, expected_low_surrogate, unexpected_low_surrogate,
  incomplete_unicode, invalid_unicode, incomplete_number, leading_zero, expected_number_digits,
  expected_fraction, expected_exponent, invalid_literal, expected, ok, fail, out_of_fuel,
}
use exchange_engine.Protocol.Parser.Numbers.{
  parse_sign, parse_integral, require_digits, parse_fraction, is_exponent, is_exponent_sign,
  parse_exponent, parse_number,
}
use exchange_engine.Protocol.Parser.Strings.{
  hex_value, shift_in, parse_hex_code_unit, is_high_surrogate, is_low_surrogate, append_utf8,
  combine, consume_escape_u, parse_low_surrogate, parse_codepoint, append_unicode_escape,
  parse_escape, StringByte, string_byte, parse_chars, parse_string, parse_literal, quote, backslash,
  control, plain,
}

-- Which branch of `parse_value` a byte opens.
pub data Opening : Type 0 where
  brace bracket quotes letter_t letter_f letter_n numeric other : Opening

abbrev pub opening : ℕ → Opening
opening c =
    if c == b'{'
    then brace
    else (if c == b'['
        then bracket
        else (if c == 34
            then quotes
            else (if c == b't'
                then letter_t
                else (if c == b'f'
                    then letter_f
                    else (if c == b'n'
                        then letter_n
                        else (if c == b'-' || is_digit c then numeric else other))))))

abbrev pub Reader {ℓ} : Type ℓ → Type ℓ
Reader A = List ℕ → Parsing (A × List ℕ)

-- The branches that call no other value.
unfoldable pub parse_scalar : Opening → Reader JsonValue
unfolding parse_string parse_literal parse_number
parse_scalar quotes text = do (s, rest) ← parse_string text; ok (string s, rest)
parse_scalar letter_t text = do rest ← parse_literal (bytes "true") text; ok (boolean true, rest)
parse_scalar letter_f text = do rest ← parse_literal (bytes "false") text; ok (boolean false, rest)
parse_scalar letter_n text = do rest ← parse_literal (bytes "null") text; ok (null, rest)
parse_scalar numeric text = do (n, rest) ← parse_number text; ok (number n, rest)
parse_scalar _ text = fail expected_value

-- A key, the colon behind it, and what is left.
unfoldable pub parse_key : List ℕ → Parsing (List ℕ × List ℕ)
unfolding skip_whitespace parse_string
parse_key text =
    let t = skip_whitespace text in
    if not (peek t == 34) then fail expected_key else (do
      (key, after) ← parse_string t
      rest ← expect b':' (skip_whitespace after)
      ok (key, rest))

abbrev pub emplaced : List ℕ → JsonValue → Members → Parsing Members
emplaced key v m = elim (emplace key v m) [ none ↦ fail duplicate_key | some n ↦ ok n ]

-- `parse_members` and `parse_elements` are the loops of `parse_object` and `parse_array`.
unfoldable mutual
  unfolding skip_whitespace parse_scalar parse_key emplace

  pub parse_value : ℕ → Reader JsonValue
  parse_value zero text = out_of_fuel
  parse_value (suc fuel) text = parse_at fuel (skip_whitespace text)

  pub parse_at : ℕ → Reader JsonValue
  parse_at zero text = out_of_fuel
  parse_at (suc fuel) [] = fail expected_value
  parse_at (suc fuel) (c ∷ cs) = elim (opening c) [
    | brace ↦ parse_object fuel cs
    | bracket ↦ parse_array fuel cs
    | o ↦ parse_scalar o (c ∷ cs)
  ]

  -- Behind the opening bracket.
  pub parse_object : ℕ → Reader JsonValue
  parse_object zero text = out_of_fuel
  parse_object (suc fuel) text = elim (consume b'}' (skip_whitespace text)) [
    | some rest ↦ ok (object no_members, rest)
    | none ↦ parse_members fuel no_members (skip_whitespace text)
  ]

  pub parse_members : ℕ → Members → Reader JsonValue
  parse_members zero m text = out_of_fuel
  parse_members (suc fuel) m text = parse_key text >>= λ (key, after).
      parse_value fuel after >>= λ (v, behind). emplaced key v m >>= λ m'.
      elim (consume b'}' (skip_whitespace behind)) [
        | some rest ↦ ok (object m', rest)
        | none ↦ expect b',' (skip_whitespace behind) >>= λ rest. parse_members fuel m' rest
      ]

  pub parse_array : ℕ → Reader JsonValue
  parse_array zero text = out_of_fuel
  parse_array (suc fuel) text = elim (consume b']' (skip_whitespace text)) [
    | some rest ↦ ok (array no_items, rest)
    | none ↦ parse_elements fuel no_items (skip_whitespace text)
  ]

  pub parse_elements : ℕ → Items → Reader JsonValue
  parse_elements zero xs text = out_of_fuel
  parse_elements (suc fuel) xs text = parse_value fuel text >>= λ (v, behind).
      elim (consume b']' (skip_whitespace behind)) [
        | some rest ↦ ok (array (push_item v xs), rest)
        | none ↦ expect b',' (skip_whitespace behind) >>= λ rest.
            parse_elements fuel (push_item v xs) rest
      ]

-- Four calls for each byte.
abbrev pub json_fuel : List ℕ → ℕ
json_fuel text = 4 * length text + 4

unfoldable pub parse_json : List ℕ → Parsing JsonValue
unfolding parse_value skip_whitespace
parse_json text = do
  (v, rest) ← parse_value (json_fuel text) text
  (elim (skip_whitespace rest) [ [] ↦ ok v | c ∷ cs ↦ fail trailing_content ])
