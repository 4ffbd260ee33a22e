-- ===== src/Protocol/Parser/Strings.antt =====
-- `parse_string` of src/protocol/Json.cpp with its escapes, and `parse_literal`.
use exchange_engine.Base.{
  ◌^◌, ℕ, zero, suc, ◌+◌, ◌-◌, ◌*◌, ◌/◌, ◌%◌, Bool, not, ◌&&◌, ◌||◌, Option, none, some, List, [],
  ◌∷◌, ◌++◌, length, ltb, leb, ◌==◌, if◌then◌else◌,
}
use exchange_engine.Protocol.Parser.Lexer.{
  Parsing, ◌>>=◌, consume, expect, Part, control_character, unterminated_string,
  unterminated_escape, invalid_escape, expected_low_surrogate_escape, expected_low_surrogate,
  unexpected_low_surrogate, incomplete_unicode, invalid_unicode, invalid_literal, ok, fail,
  out_of_fuel,
}

unfoldable pub hex_value : ℕ → Parsing ℕ
hex_value c =
    if leb b'0' c && leb c b'9'
    then ok (c - b'0')
    else (if leb b'a' c && leb c b'f'
        then ok (10 + c - b'a')
        else (if leb b'A' c && leb c b'F' then ok (10 + c - b'A') else fail invalid_unicode))

-- The operands of `|` have no bit in common, here and below.
abbrev pub shift_in : ℕ → ℕ → ℕ
shift_in value hex = value * 16 % 2 ^ 16 + hex

unfoldable pub parse_hex_code_unit : List ℕ → Parsing (ℕ × List ℕ)
unfolding hex_value
parse_hex_code_unit (a ∷ b ∷ c ∷ d ∷ rest) = do
  w ← hex_value a
  x ← hex_value b
  y ← hex_value c
  z ← hex_value d
  ok (shift_in (shift_in (shift_in (shift_in 0 w) x) y) z, rest)
parse_hex_code_unit _ = fail incomplete_unicode

abbrev pub is_high_surrogate : ℕ → Bool
is_high_surrogate v = leb 0xD800 v && leb v 0xDBFF

abbrev pub is_low_surrogate : ℕ → Bool
is_low_surrogate v = leb 0xDC00 v && leb v 0xDFFF

unfoldable pub append_utf8 : ℕ → List ℕ
append_utf8 cp =
    if leb cp 0x7F
    then cp ∷ []
    else (if leb cp 0x7FF
        then (0xC0 + cp / 2 ^ 6) ∷ (0x80 + cp % 2 ^ 6) ∷ []
        else (if leb cp 0xFFFF
            then (0xE0 + cp / 2 ^ 12) ∷ (0x80 + cp / 2 ^ 6 % 2 ^ 6) ∷ (0x80 + cp % 2 ^ 6) ∷ []
            else (0xF0 + cp / 2 ^ 18)
              ∷ (0x80 + cp / 2 ^ 12 % 2 ^ 6)
              ∷ (0x80 + cp / 2 ^ 6 % 2 ^ 6)
              ∷ (0x80 + cp % 2 ^ 6)
              ∷ []))

-- The code point of a surrogate pair.
abbrev pub combine : ℕ → ℕ → ℕ
combine first second = 0x10000 + ((first - 0xD800) * 2 ^ 10 + (second - 0xDC00))

-- `!consume('\\') || !consume('u')`
abbrev pub consume_escape_u : List ℕ → Option (List ℕ)
consume_escape_u text = elim (consume 92 text) [ none ↦ none | some rest ↦ consume b'u' rest ]

unfoldable pub parse_low_surrogate : ℕ → List ℕ → Parsing (ℕ × List ℕ)
unfolding parse_hex_code_unit
parse_low_surrogate first text = elim (consume_escape_u text) [
  | none ↦ fail expected_low_surrogate_escape
  | some rest ↦ do
    (second, after) ← parse_hex_code_unit rest
    (if not (is_low_surrogate second)
        then fail expected_low_surrogate
        else ok (combine first second, after))
]

-- The code point of `\uXXXX`, and of the pair that it opens.
unfoldable pub parse_codepoint : List ℕ → Parsing (ℕ × List ℕ)
unfolding parse_hex_code_unit parse_low_surrogate
parse_codepoint text = do
  (first, rest) ← parse_hex_code_unit text
  (if is_high_surrogate first
      then parse_low_surrogate first rest
      else (if is_low_surrogate first then fail unexpected_low_surrogate else ok (first, rest)))

unfoldable pub append_unicode_escape : List ℕ → Parsing Part
unfolding parse_codepoint append_utf8
append_unicode_escape text = do
  (codepoint, rest) ← parse_codepoint text
  ok (append_utf8 codepoint, rest)

-- The bytes that an escape stands for, and what is left.
unfoldable pub parse_escape : List ℕ → Parsing Part
unfolding append_unicode_escape
parse_escape [] = fail unterminated_escape
parse_escape (c ∷ cs) =
    if c == 34 || (c == 92 || c == b'/')
    then ok (c ∷ [], cs)
    else (if c == b'b'
        then ok (8 ∷ [], cs)
        else (if c == b'f'
            then ok (12 ∷ [], cs)
            else (if c == b'n'
                then ok (10 ∷ [], cs)
                else (if c == b'r'
                    then ok (13 ∷ [], cs)
                    else (if c == b't'
                        then ok (9 ∷ [], cs)
                        else (if c == b'u'
                            then append_unicode_escape cs
                            else fail invalid_escape))))))

-- What a byte of a string is to the loop.
pub data StringByte : Type 0 where
  quote backslash control plain : StringByte

abbrev pub string_byte : ℕ → StringByte
string_byte c =
    if c == 34
    then quote
    else (if c == 92 then backslash else (if ltb c 32 then control else plain))

-- The loop of `parse_string`.
unfoldable pub parse_chars : ℕ → List ℕ → List ℕ → Parsing Part
unfolding parse_escape
parse_chars zero result text = out_of_fuel
parse_chars (suc fuel) result [] = fail unterminated_string
parse_chars (suc fuel) result (c ∷ cs) = elim (string_byte c) [
  | quote ↦ ok (result, cs)
  | backslash ↦ parse_escape cs >>= λ (more, rest). parse_chars fuel (result ++ more) rest
  | control ↦ fail control_character
  | plain ↦ parse_chars fuel (result ++ (c ∷ [])) cs
]

-- Each round takes a byte, and the last one sees the end.
unfoldable pub parse_string : List ℕ → Parsing Part
unfolding parse_chars
parse_string text = expect 34 text >>= λ rest. parse_chars (length rest + 1) [] rest

-- `text_.substr(pos_, literal.size()) != literal`
unfoldable pub parse_literal : List ℕ → List ℕ → Parsing (List ℕ)
parse_literal [] text = ok text
parse_literal (l ∷ ls) [] = fail invalid_literal
parse_literal (l ∷ ls) (c ∷ cs) =
    let rest = parse_literal ls cs in if l == c then rest else fail invalid_literal
