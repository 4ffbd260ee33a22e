-- ===== src/Core/FixedPoint.antt =====
-- include/core/FixedPoint.hpp and src/core/FixedPoint.cpp: prices, quantities and the parser of
-- decimal prices. A text is the list of its bytes.
pub mod Digits
pub mod Parse
use exchange_engine.Base.{
  ℕ, zero, suc, ◌+◌, ◌-◌, ◌*◌, ◌%◌, ◌^◌, Bool, true, false, not, ◌&&◌, ◌||◌, List, [], ◌∷◌, ltb,
  leb, ◌==◌, if◌then◌else◌, ℤ, pos, negsuc, neg_ℕ, ltb_ℤ,
}
use mathlib.Core.List.{reverse}

-- `Price` holds an int64_t number of ticks.
abbrev pub Price : Type 0
Price = ℤ

abbrev pub max_price : Price
max_price = pos (2 ^ 63 - 1)

abbrev pub min_price : Price
min_price = negsuc (2 ^ 63 - 1)

abbrev pub is_valid_price : Price → Bool
is_valid_price p = ltb_ℤ (pos 0) p

-- `Quantity` holds a uint64_t number of lots.
abbrev pub Quantity : Type 0
Quantity = ℕ

abbrev pub is_zero : Quantity → Bool
is_zero q = q == 0

abbrev pub is_valid_quantity : Quantity → Bool
is_valid_quantity q = ltb 0 q

abbrev pub add_lots : Quantity → ℕ → Quantity
add_lots q lots = (q + lots) % 2 ^ 64

abbrev pub subtract_lots : Quantity → ℕ → Quantity
subtract_lots q lots = (q + 2 ^ 64 - lots) % 2 ^ 64

abbrev pub min_quantity : Quantity → Quantity → Quantity
min_quantity a b = if ltb a b then a else b

-- The exceptions of the parser, one for each message.
pub data ParseError : Type 0 where
  negative_scale empty_value negative_quantity no_digits : ParseError
  many_points non_digit too_much_precision outside_int64 : ParseError

pub data Parsed {ℓ} (A : Type ℓ) : Type ℓ where
  ok : A → Parsed A
  err : ParseError → Parsed A

infixl 5 ◌>>=◌
abbrev pub ◌>>=◌ {ℓ κ} : {A : Type ℓ} {B : Type κ} → Parsed A → (A → Parsed B) → Parsed B
ok a >>= f = f a
err e >>= f = err e

unfoldable pub is_space : ℕ → Bool
is_space c = c == 32 || (c == 9 || (c == 10 || c == 13))

unfoldable pub drop_space : List ℕ → List ℕ
drop_space [] = []
drop_space (c ∷ cs) = if is_space c then drop_space cs else c ∷ cs

unfoldable pub trim_ascii_space : List ℕ → List ℕ
trim_ascii_space cs = reverse (drop_space (reverse (drop_space cs)))

-- unsigned __int128 arithmetic wraps at 2^128.
abbrev pub append_digit : ℕ → ℕ → ℕ
append_digit value digit = (value * 10 + digit) % 2 ^ 128

-- The variables of the scanning loop.
pub record Scan : Type 0 where
  pub result : ℕ
  pub seen_digit : Bool
  pub seen_decimal_point : Bool
  pub fractional_digits : ℕ

abbrev pub start : Scan
start = record { result = 0; seen_digit = false; seen_decimal_point = false; fractional_digits = 0 }

-- One round of `for (char ch : value)`.
unfoldable pub scan_char : ℕ → Scan → ℕ → Parsed Scan
scan_char scale s c =
    if c == b'.'
    then (if s.seen_decimal_point
        then err many_points
        else ok (record s { seen_decimal_point = true }))
    else (if ltb c b'0' || ltb b'9' c
        then err non_digit
        else (if s.seen_decimal_point
            then (if leb scale s.fractional_digits
                then (if not (c - b'0' == 0)
                    then err too_much_precision
                    else ok (record s { seen_digit = true }))
                else ok (record s {
                  seen_digit = true;
                  fractional_digits = s.fractional_digits + 1;
                  result = append_digit s.result (c - b'0');
                }))
            else ok (record s { seen_digit = true; result = append_digit s.result (c - b'0') })))

unfoldable pub scan_chars : ℕ → Scan → List ℕ → Parsed Scan
scan_chars scale s [] = ok s
scan_chars scale s (c ∷ cs) = scan_char scale s c >>= λ s'. scan_chars scale s' cs

-- `while (fractionalDigits < scale)`, by the rounds that are left.
unfoldable pub pad_zeros : ℕ → ℕ → ℕ
pad_zeros zero result = result
pad_zeros (suc n) result = pad_zeros n (append_digit result 0)

unfoldable pub finish : ℕ → Scan → Parsed ℕ
finish scale s =
    if not s.seen_digit
    then err no_digits
    else ok (pad_zeros (scale - s.fractional_digits) s.result)

unfoldable pub is_sign : ℕ → Bool
is_sign c = c == b'+' || c == b'-'

-- From the first digit on.
unfoldable pub parse_digits : ℕ → Bool → List ℕ → Parsed (ℕ × Bool)
parse_digits scale negative [] = err no_digits
parse_digits scale negative (d ∷ ds) = do
  s ← scan_chars scale start (d ∷ ds)
  m ← finish scale s
  ok (m, negative)

-- From the sign on: the magnitude and the flag `negative`.
unfoldable pub parse_signed : ℕ → Bool → List ℕ → Parsed (ℕ × Bool)
parse_signed scale allow_negative [] = err empty_value
parse_signed scale allow_negative (c ∷ cs) =
    let negative = c == b'-' in
    let digits = if is_sign c then cs else c ∷ cs in
    if negative && not allow_negative
    then err negative_quantity
    else parse_digits scale negative digits

unfoldable pub parse_scaled_magnitude : List ℕ → ℤ → Bool → Parsed (ℕ × Bool)
parse_scaled_magnitude input (negsuc n) allow_negative = err negative_scale
parse_scaled_magnitude input (pos scale) allow_negative =
    parse_signed scale allow_negative (trim_ascii_space input)

unfoldable pub to_price : ℕ × Bool → Parsed Price
to_price (magnitude, negative) =
    if ltb (2 ^ 63 - 1) magnitude
    then err outside_int64
    else ok (if negative then neg_ℕ magnitude else pos magnitude)

-- The free function `price`.
unfoldable pub price : List ℕ → ℤ → Parsed Price
price value scale = parse_scaled_magnitude value scale true >>= to_price
