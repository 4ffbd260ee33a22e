-- ===== src/Core/FixedPoint/Parse.antt =====
-- What `price` returns on a decimal text: blanks, a sign, digits, a point, digits.
use mathlib.Core.List.{reverse, reverse-append, reverse-reverse, reverse-cons}
use exchange_engine.Base.{
  ℕ, suc, ◌+◌, ◌-◌, ◌*◌, ◌%◌, ◌^◌, ◌≤◌, ◌<◌, ◌≡◌, refl, sym, ◌∙◌, ap, Bool, true, false, List, [],
  ◌∷◌, ◌++◌, append-nil, append_assoc, length, replicate, arith, ℤ, pos, neg_ℕ,
}
use exchange_engine.Core.FixedPoint.{
  ok, is_space, drop_space, trim_ascii_space, start, scan_chars, scan_char, finish, is_sign,
  parse_digits, parse_signed, parse_scaled_magnitude, to_price, price,
}
use exchange_engine.Core.FixedPoint.Digits.{
  AreDigits, spelled, value_from, value_from-append, at, seen_after, scan_integral, scan_fractional,
  pad_zeros-value_from,
}

abbrev pub All : (ℕ → Type 0) → List ℕ → Type 0
All P [] = Unit {0}
All P (c ∷ cs) = P c × All P cs

abbrev pub Blank : ℕ → Type 0
Blank c = is_space c ≡ true

abbrev pub Dark : ℕ → Type 0
Dark c = is_space c ≡ false

All-append : (P : ℕ → Type 0) (xs ys : List ℕ) → All P xs → All P ys → All P (xs ++ ys)
All-append P [] ys a b = b
All-append P (x ∷ xs) ys a b = (a.0, All-append P xs ys a.1 b)

All-reverse : (P : ℕ → Type 0) (xs : List ℕ) → All P xs → All P (reverse xs)
All-reverse P [] a = tt
All-reverse P (x ∷ xs) a =
    rw (reverse-cons x xs) (All-append P (reverse xs) (x ∷ []) (All-reverse P xs a.1) (a.0, tt))

drop_space-append :
    (pre : List ℕ) (cs : List ℕ) → All Blank pre → drop_space (pre ++ cs) ≡ drop_space cs
unfolding drop_space
drop_space-append [] cs a = refl
drop_space-append (c ∷ pre) cs a = rw (a.0) (drop_space-append pre cs a.1)

drop_space-Dark : (cs : List ℕ) → All Dark cs → drop_space cs ≡ cs
unfolding drop_space
drop_space-Dark [] a = refl
drop_space-Dark (c ∷ cs) a = rw (a.0) refl

drop_space-Dark_cons : (c : ℕ) (cs : List ℕ) → Dark c → drop_space (c ∷ cs) ≡ c ∷ cs
unfolding drop_space
drop_space-Dark_cons c cs d = rw d refl

-- Blanks round a text with none inside are dropped.
trim-blanks :
    (pre : List ℕ) (c : ℕ) (cs post : List ℕ)
    → All Blank pre
    → All Dark (c ∷ cs)
    → All Blank post
    → trim_ascii_space (pre ++ ((c ∷ cs) ++ post)) ≡ c ∷ cs
unfolding trim_ascii_space
trim-blanks pre c cs post a d b = rw (drop_space-append pre (c ∷ (cs ++ post)) a) (
    rw (drop_space-Dark_cons c (cs ++ post) d.0) (
      rw (reverse-append (c ∷ cs) post) (
        rw (drop_space-append (reverse post) (reverse (c ∷ cs)) (All-reverse Blank post b)) (
          rw (drop_space-Dark (reverse (c ∷ cs)) (All-reverse Dark (c ∷ cs) d))
            (reverse-reverse (c ∷ cs))))))

pub data Sign : Type 0 where
  none plus minus : Sign

abbrev pub is_minus : Sign → Bool
is_minus none = false
is_minus plus = false
is_minus minus = true

abbrev pub signed : Sign → List ℕ → List ℕ
signed none cs = cs
signed plus cs = b'+' ∷ cs
signed minus cs = b'-' ∷ cs

-- The text of a decimal number: sign, integral digits, point, fractional digits.
abbrev pub decimal : Sign → List ℕ → List ℕ → List ℕ
decimal sign ds fs = signed sign (spelled ds ++ b'.' ∷ spelled fs)

-- What it stands for, counted in units of 10 ^ -scale.
abbrev pub units : ℕ → List ℕ → List ℕ → ℕ
units scale ds fs = value_from 0 (ds ++ (fs ++ replicate (scale - length fs) 0))

Dark-digit : (d : ℕ) → d < 10 → is_space (b'0' + d) ≡ false
unfolding is_space
Dark-digit d h = ground arith

Dark-spelled : (ds : List ℕ) → AreDigits ds → All Dark (spelled ds)
Dark-spelled [] v = tt
Dark-spelled (d ∷ ds) v = (Dark-digit d v.0, Dark-spelled ds v.1)

Dark-digits :
    (ds fs : List ℕ) → AreDigits ds → AreDigits fs → All Dark (spelled ds ++ b'.' ∷ spelled fs)
unfolding is_space
Dark-digits ds fs v w =
    All-append Dark (spelled ds) (b'.' ∷ spelled fs) (Dark-spelled ds v) (refl, Dark-spelled fs w)

point_step :
    (scale acc : ℕ) (seen : Bool)
    → scan_char scale (at acc seen false 0) b'.' ≡ ok (at acc seen true 0)
unfolding scan_char
point_step scale acc seen = refl

seen_some :
    (ds fs : List ℕ) → 0 < length ds + length fs → seen_after (seen_after false ds) fs ≡ true
seen_some [] [] h = absurd (omega arith)
seen_some [] (f ∷ fs) h = refl
seen_some (d ∷ ds) [] h = refl
seen_some (d ∷ ds) (f ∷ fs) h = refl

scan_point :
    (scale : ℕ) (ds fs : List ℕ)
    → AreDigits ds
    → AreDigits fs
    → length fs ≤ scale
    → 0 < length ds + length fs
    → scan_chars scale start (spelled ds ++ b'.' ∷ spelled fs)
      ≡ ok (at (value_from 0 (ds ++ fs)) true true (length fs))
unfolding scan_chars
scan_point scale ds fs v w h k =
    scan_integral scale ds (b'.' ∷ spelled fs) 0 0 false v
    ∙ rw (point_step scale (value_from 0 ds) (seen_after false ds)) (
        scan_fractional scale fs (value_from 0 ds) 0 (seen_after false ds) w (omega arith)
        ∙ rw (seen_some ds fs k, value_from-append 0 ds fs)
            (ap (λ (n : ℕ). ok (at (value_from (value_from 0 ds) fs) true true n)) (omega arith)))

units-append :
    (scale : ℕ) (ds fs : List ℕ)
    → units scale ds fs ≡ value_from (value_from 0 (ds ++ fs)) (replicate (scale - length fs) 0)
units-append scale ds fs =
    ap (value_from 0) (sym (append_assoc ds fs (replicate (scale - length fs) 0)))
    ∙ value_from-append 0 (ds ++ fs) (replicate (scale - length fs) 0)

finish_point :
    (scale : ℕ) (ds fs : List ℕ)
    → finish scale (at (value_from 0 (ds ++ fs)) true true (length fs))
      ≡ ok (units scale ds fs % 2 ^ 128)
unfolding finish
finish_point scale ds fs = ap ok (
    pad_zeros-value_from (scale - length fs) (value_from 0 (ds ++ fs))
    ∙ ap (λ (m : ℕ). m % 2 ^ 128) (sym (units-append scale ds fs)))

parse_digits-decimal :
    (scale : ℕ) (ds fs : List ℕ) (negative : Bool)
    → AreDigits ds
    → AreDigits fs
    → length fs ≤ scale
    → 0 < length ds + length fs
    → parse_digits scale negative (spelled ds ++ b'.' ∷ spelled fs)
      ≡ ok (units scale ds fs % 2 ^ 128, negative)
unfolding parse_digits
parse_digits-decimal scale [] fs negative v w h k =
    rw (scan_point scale [] fs v w h k) (rw (finish_point scale [] fs) refl)
parse_digits-decimal scale (d ∷ ds) fs negative v w h k =
    rw (scan_point scale (d ∷ ds) fs v w h k) (rw (finish_point scale (d ∷ ds) fs) refl)

parse_signed-decimal :
    (scale : ℕ) (sign : Sign) (ds fs : List ℕ)
    → AreDigits ds
    → AreDigits fs
    → length fs ≤ scale
    → 0 < length ds + length fs
    → parse_signed scale true (decimal sign ds fs) ≡ ok (units scale ds fs % 2 ^ 128, is_minus sign)
unfolding parse_signed is_sign
parse_signed-decimal scale none [] fs v w h k = parse_digits-decimal scale [] fs false v w h k
parse_signed-decimal scale none (d ∷ ds) fs v w h k =
    ground (arith, v.0, parse_digits-decimal scale (d ∷ ds) fs false v w h k)
parse_signed-decimal scale plus ds fs v w h k = parse_digits-decimal scale ds fs false v w h k
parse_signed-decimal scale minus ds fs v w h k = parse_digits-decimal scale ds fs true v w h k

-- A sign and digits have no blank inside.
trim-decimal :
    (sign : Sign) (ds fs pre post : List ℕ)
    → AreDigits ds
    → AreDigits fs
    → All Blank pre
    → All Blank post
    → trim_ascii_space (pre ++ (decimal sign ds fs ++ post)) ≡ decimal sign ds fs
unfolding is_space
trim-decimal none [] fs pre post v w a b =
    trim-blanks pre b'.' (spelled fs) post a (refl, Dark-spelled fs w) b
trim-decimal none (d ∷ ds) fs pre post v w a b =
    trim-blanks pre (b'0' + d) (spelled ds ++ b'.' ∷ spelled fs) post a
      (Dark-digit d v.0, Dark-digits ds fs v.1 w) b
trim-decimal plus ds fs pre post v w a b =
    trim-blanks pre b'+' (spelled ds ++ b'.' ∷ spelled fs) post a (refl, Dark-digits ds fs v w) b
trim-decimal minus ds fs pre post v w a b =
    trim-blanks pre b'-' (spelled ds ++ b'.' ∷ spelled fs) post a (refl, Dark-digits ds fs v w) b

-- A decimal text in range of its scale, blanks round it included, is never a format error: the
-- price is its number of units modulo 2 ^ 128 with the sign, or it is outside the int64 range.
pub price-decimal :
    (scale : ℕ) (sign : Sign) (ds fs pre post : List ℕ)
    → AreDigits ds
    → AreDigits fs
    → length fs ≤ scale
    → 0 < length ds + length fs
    → All Blank pre
    → All Blank post
    → price (pre ++ (decimal sign ds fs ++ post)) (pos scale)
      ≡ to_price (units scale ds fs % 2 ^ 128, is_minus sign)
unfolding price parse_scaled_magnitude
price-decimal scale sign ds fs pre post v w h k a b =
    rw (trim-decimal sign ds fs pre post v w a b, parse_signed-decimal scale sign ds fs v w h k)

abbrev pub with_sign : Sign → ℕ → ℤ
with_sign none n = pos n
with_sign plus n = pos n
with_sign minus n = neg_ℕ n

-- A decimal text of at least one digit, with at most `scale` digits behind the point, a sign or none
-- and blanks or none round it, whose number of units is below 2 ^ 63 is read exactly, with its sign.
pub price_exact :
    (scale : ℕ) (sign : Sign) (ds fs pre post : List ℕ)
    → AreDigits ds
    → AreDigits fs
    → length fs ≤ scale
    → 0 < length ds + length fs
    → All Blank pre
    → All Blank post
    → units scale ds fs < 2 ^ 63
    → price (pre ++ (decimal sign ds fs ++ post)) (pos scale)
      ≡ ok (with_sign sign (units scale ds fs))
unfolding to_price
price_exact scale none ds fs pre post v w h k a b small =
    price-decimal scale none ds fs pre post v w h k a b ∙ ground arith
price_exact scale plus ds fs pre post v w h k a b small =
    price-decimal scale plus ds fs pre post v w h k a b ∙ ground arith
price_exact scale minus ds fs pre post v w h k a b small =
    price-decimal scale minus ds fs pre post v w h k a b ∙ ground arith

-- The 128-bit accumulator wraps before the range is tested: an unsigned decimal text with at least one
-- digit, and at most `scale` behind the point, worth 2 ^ 128 units or more is accepted as the price of
-- its remainder whenever that remainder is below 2 ^ 63.
pub price_wraps :
    (scale : ℕ) (ds fs : List ℕ) (turns rest : ℕ)
    → AreDigits ds
    → AreDigits fs
    → length fs ≤ scale
    → 0 < length ds + length fs
    → units scale ds fs ≡ suc turns * 2 ^ 128 + rest
    → rest < 2 ^ 63
    → price (decimal none ds fs) (pos scale) ≡ ok (pos rest)
unfolding to_price
price_wraps scale ds fs turns rest v w h k e small =
    ap (λ (cs : List ℕ). price cs (pos scale)) (sym (append-nil (decimal none ds fs)))
    ∙ (price-decimal scale none ds fs [] [] v w h k tt tt ∙ ground arith)
