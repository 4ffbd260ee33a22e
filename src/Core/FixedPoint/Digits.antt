-- ===== src/Core/FixedPoint/Digits.antt =====
-- The scanning loop of `parse_scaled_magnitude` on digits: what it computes, and modulo what.
use exchange_engine.Base.{
  ℕ, zero, suc, ◌+◌, ◌*◌, ◌%◌, ◌^◌, ◌≤◌, ◌<◌, ◌≡◌, refl, ◌∙◌, ap, Bool, true, false, List, [], ◌∷◌,
  ◌++◌, length, replicate, arith,
}
use exchange_engine.Core.FixedPoint.{Scan, ok, scan_char, scan_chars, pad_zeros}

-- A digit is its value; `b'0' + d` is its byte.
abbrev pub AreDigits : List ℕ → Type 0
AreDigits [] = Unit {0}
AreDigits (d ∷ ds) = (d < 10) × AreDigits ds

abbrev pub spelled : List ℕ → List ℕ
spelled [] = []
spelled (d ∷ ds) = (b'0' + d) ∷ spelled ds

-- The number that the digits stand for, after the digits of `acc`.
unfoldable pub value_from : ℕ → List ℕ → ℕ
value_from acc [] = acc
value_from acc (d ∷ ds) = value_from (acc * 10 + d) ds

pub value_from-append :
    (acc : ℕ) (ds es : List ℕ) → value_from acc (ds ++ es) ≡ value_from (value_from acc ds) es
unfolding value_from
value_from-append acc [] es = refl
value_from-append acc (d ∷ ds) es = value_from-append (acc * 10 + d) ds es

-- The scan after digits worth `acc`, `f` of them behind the point.
abbrev pub at : ℕ → Bool → Bool → ℕ → Scan
at acc seen point f = record {
  result = acc % 2 ^ 128;
  seen_digit = seen;
  seen_decimal_point = point;
  fractional_digits = f;
}

abbrev pub seen_after : Bool → List ℕ → Bool
seen_after seen [] = seen
seen_after seen (d ∷ ds) = true

seen_after-true : (ds : List ℕ) → seen_after true ds ≡ true
seen_after-true [] = refl
seen_after-true (d ∷ ds) = refl

integral_digit :
    (scale acc f d : ℕ) (seen : Bool)
    → d < 10
    → scan_char scale (at acc seen false f) (b'0' + d) ≡ ok (at (acc * 10 + d) true false f)
unfolding scan_char
integral_digit scale acc f d seen h = ground arith

fractional_digit :
    (scale acc f d : ℕ) (seen : Bool)
    → d < 10
    → f < scale
    → scan_char scale (at acc seen true f) (b'0' + d) ≡ ok (at (acc * 10 + d) true true (f + 1))
unfolding scan_char
fractional_digit scale acc f d seen h k = ground arith

pub scan_integral :
    (scale : ℕ) (ds rest : List ℕ) (acc f : ℕ) (seen : Bool)
    → AreDigits ds
    → scan_chars scale (at acc seen false f) (spelled ds ++ rest)
      ≡ scan_chars scale (at (value_from acc ds) (seen_after seen ds) false f) rest
unfolding scan_chars value_from
scan_integral scale [] rest acc f seen v = refl
scan_integral scale (d ∷ ds) rest acc f seen v =
    rw (integral_digit scale acc f d seen v.0)
      (scan_integral scale ds rest (acc * 10 + d) f true v.1 ∙ rw (seen_after-true ds) refl)

pub scan_fractional :
    (scale : ℕ) (ds : List ℕ) (acc f : ℕ) (seen : Bool)
    → AreDigits ds
    → f + length ds ≤ scale
    → scan_chars scale (at acc seen true f) (spelled ds)
      ≡ ok (at (value_from acc ds) (seen_after seen ds) true (f + length ds))
unfolding scan_chars value_from
scan_fractional scale [] acc f seen v h = ap (λ (k : ℕ). ok (at acc seen true k)) (omega arith)
scan_fractional scale (d ∷ ds) acc f seen v h =
    rw (fractional_digit scale acc f d seen v.0 (omega arith)) (
      scan_fractional scale ds (acc * 10 + d) (f + 1) true v.1 (omega arith)
      ∙ rw (seen_after-true ds)
          (ap (λ (k : ℕ). ok (at (value_from (acc * 10 + d) ds) true true k)) (omega arith)))

pub pad_zeros-value_from :
    (n acc : ℕ) → pad_zeros n (acc % 2 ^ 128) ≡ value_from acc (replicate n 0) % 2 ^ 128
unfolding pad_zeros value_from
pad_zeros-value_from zero acc = refl
pad_zeros-value_from (suc n) acc =
    ap (pad_zeros n) (omega arith) ∙ pad_zeros-value_from n (acc * 10 + 0)
