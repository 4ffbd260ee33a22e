-- ===== src/Protocol/Parser/Shorter.antt =====
-- What each reader of a part leaves of the text.
use exchange_engine.Base.{
  ℕ, suc, ◌<◌, ◌≤◌, ◌≡◌, true, Option, none, some, List, [], ◌∷◌, arith, inl, inr, Bool-cases, ◌==◌,
  length,
}
use exchange_engine.Protocol.Parser.Strings.{
  is_high_surrogate, hex_value, parse_hex_code_unit, consume_escape_u, parse_low_surrogate,
  parse_codepoint, append_unicode_escape, parse_escape,
}
use exchange_engine.Protocol.Parser.Lexer.{
  expected, Parsing, ok, fail, out_of_fuel, ◌>>=◌, is_digit, is_blank, skip_whitespace, consume,
  expect, consume_digits,
}

-- Fewer than n bytes are left.
abbrev pub ReadsPart {ℓ} : {A : Type ℓ} → ℕ → Parsing (A × List ℕ) → Type 0
ReadsPart n (ok (a, rest)) = length rest < n
ReadsPart n (fail e) = Unit {0}
ReadsPart n out_of_fuel = ⊥

abbrev pub ReadsText : ℕ → Parsing (List ℕ) → Type 0
ReadsText n (ok rest) = length rest < n
ReadsText n (fail e) = Unit {0}
ReadsText n out_of_fuel = ⊥

abbrev pub ReadsSome : ℕ → Option (List ℕ) → Type 0
ReadsSome n none = Unit {0}
ReadsSome n (some rest) = length rest < n

abbrev pub Ends {ℓ} : {A : Type ℓ} → Parsing A → Type 0
Ends out_of_fuel = ⊥
Ends _ = Unit {0}

pub bind_leaves {ℓ κ} :
    {A : Type ℓ} {B : Type κ} (m n : ℕ) (p : Parsing (A × List ℕ))
    (f : A × List ℕ → Parsing (B × List ℕ))
    → ReadsPart m p
    → ((a : A) (rest : List ℕ) → length rest < m → ReadsPart n (f (a, rest)))
    → ReadsPart n (p >>= f)
bind_leaves m n (ok (a, rest)) f h k = k a rest h
bind_leaves m n (fail e) f h k = tt
bind_leaves m n out_of_fuel f h k = h

pub bind_text {κ} :
    {B : Type κ} (m n : ℕ) (p : Parsing (List ℕ)) (f : List ℕ → Parsing (B × List ℕ))
    → ReadsText m p
    → ((rest : List ℕ) → length rest < m → ReadsPart n (f rest))
    → ReadsPart n (p >>= f)
bind_text m n (ok rest) f h k = k rest h
bind_text m n (fail e) f h k = tt
bind_text m n out_of_fuel f h k = h

pub bind-Ends {ℓ κ} :
    {A : Type ℓ} {B : Type κ} (n : ℕ) (p : Parsing A) (f : A → Parsing (B × List ℕ))
    → Ends p
    → ((a : A) → ReadsPart n (f a))
    → ReadsPart n (p >>= f)
bind-Ends n (ok a) f h k = k a
bind-Ends n (fail e) f h k = tt
bind-Ends n out_of_fuel f h k = h

-- What is done with the rest, or without it.
pub option_leaves {ℓ} :
    {A : Type ℓ} (m n : ℕ) (o : Option (List ℕ)) (p : Parsing (A × List ℕ))
    (f : List ℕ → Parsing (A × List ℕ))
    → ReadsSome m o
    → ReadsPart n p
    → ((rest : List ℕ) → length rest < m → ReadsPart n (f rest))
    → ReadsPart n (elim o [ none ↦ p | some rest ↦ f rest ])
option_leaves m n none p f h q k = q
option_leaves m n (some rest) p f h q k = k rest h

pub leaves_more {ℓ} :
    {A : Type ℓ} (m n : ℕ) (p : Parsing (A × List ℕ)) → ReadsPart m p → m ≤ n → ReadsPart n p
leaves_more m n (ok (a, rest)) h le = omega arith
leaves_more m n (fail e) h le = tt
leaves_more m n out_of_fuel h le = h

pub some_more : (m n : ℕ) (o : Option (List ℕ)) → ReadsSome m o → m ≤ n → ReadsSome n o
some_more m n none h le = tt
some_more m n (some rest) h le = omega arith

pub skip_leaves : (text : List ℕ) → length (skip_whitespace text) ≤ length text
unfolding skip_whitespace
skip_leaves [] = omega arith
skip_leaves (c ∷ cs) = elim (Bool-cases (is_blank c)) [
  | inl e ↦ rw e (let less = skip_leaves cs in omega arith)
  | inr e ↦ rw e (omega arith)
]

pub consume_leaves : (c : ℕ) (text : List ℕ) → ReadsSome (length text) (consume c text)
consume_leaves c [] = tt
consume_leaves c (d ∷ ds) = elim (Bool-cases (d == c)) [
  | inl e ↦ rw e (omega arith)
  | inr e ↦ rw e tt
]

-- What is left by an `expect` is what the `consume` leaves.
expected_leaves :
    (c n : ℕ) (rest : Option (List ℕ))
    → ReadsSome n rest
    → ReadsText n (elim rest [ none ↦ fail (expected c) | some r ↦ ok r ])
expected_leaves c n none h = tt
expected_leaves c n (some r) h = h

pub expect_leaves : (c : ℕ) (text : List ℕ) → ReadsText (length text) (expect c text)
expect_leaves c text = expected_leaves c (length text) (consume c text) (consume_leaves c text)

-- The digits are passed, and the text does not grow.
pub digits_leave : (text : List ℕ) → length (consume_digits text).1 ≤ length text
unfolding consume_digits
digits_leave [] = omega arith
digits_leave (c ∷ cs) = elim (Bool-cases (is_digit c)) [
  | inl e ↦ rw e (let less = digits_leave cs in omega arith)
  | inr e ↦ rw e (omega arith)
]

-- With a digit in front it shrinks.
pub digits_shrink :
    (c : ℕ) (cs : List ℕ) → is_digit c ≡ true → length (consume_digits (c ∷ cs)).1 < suc (length cs)
unfolding consume_digits
digits_shrink c cs e = rw e (let less = digits_leave cs in omega arith)

hex_value-Ends : (c : ℕ) → Ends (hex_value c)
unfolding hex_value
hex_value-Ends c = ground arith

hex_leaves : (text : List ℕ) → ReadsPart (suc (length text)) (parse_hex_code_unit text)
unfolding parse_hex_code_unit
hex_leaves (a ∷ b ∷ c ∷ d ∷ rest) = bind-Ends _ (hex_value a) _ (hex_value-Ends a) (λ w.
    bind-Ends _ (hex_value b) _ (hex_value-Ends b) (λ x.
      bind-Ends _ (hex_value c) _ (hex_value-Ends c)
        (λ y. bind-Ends _ (hex_value d) _ (hex_value-Ends d) (λ z. omega arith))))
hex_leaves [] = tt
hex_leaves (a ∷ []) = tt
hex_leaves (a ∷ b ∷ []) = tt
hex_leaves (a ∷ b ∷ c ∷ []) = tt

some_then :
    (n : ℕ) (o : Option (List ℕ)) (f : List ℕ → Option (List ℕ))
    → ReadsSome n o
    → ((rest : List ℕ) → length rest < n → ReadsSome n (f rest))
    → ReadsSome n (elim o [ none ↦ none | some rest ↦ f rest ])
some_then n none f h k = tt
some_then n (some rest) f h k = k rest h

u_leaves : (text : List ℕ) → ReadsSome (length text) (consume_escape_u text)
u_leaves text =
    some_then (length text) (consume 92 text) (consume b'u') (consume_leaves 92 text) (λ rest h.
      some_more (length rest) (length text) (consume b'u' rest) (consume_leaves b'u' rest)
        (omega arith))

low_surrogate_leaves :
    (first : ℕ) (text : List ℕ) → ReadsPart (length text) (parse_low_surrogate first text)
unfolding parse_low_surrogate
low_surrogate_leaves first text =
    option_leaves (length text) (length text) (consume_escape_u text) _ _ (u_leaves text) tt
      (λ rest less.
        bind_leaves (suc (length rest)) (length text) (parse_hex_code_unit rest) _ (hex_leaves rest)
          (λ second after h. ground arith))

codepoint_leaves : (text : List ℕ) → ReadsPart (suc (length text)) (parse_codepoint text)
unfolding parse_codepoint
codepoint_leaves text =
    bind_leaves _ _ (parse_hex_code_unit text) _ (hex_leaves text) (λ first rest h.
      elim (Bool-cases (is_high_surrogate first)) [
        | inl e ↦ rw e (
            leaves_more _ _ (parse_low_surrogate first rest) (low_surrogate_leaves first rest)
              (omega arith))
        | inr e ↦ rw e (ground arith)
      ])

escape_leaves : (text : List ℕ) → ReadsPart (suc (length text)) (append_unicode_escape text)
unfolding append_unicode_escape
escape_leaves text =
    bind_leaves _ _ (parse_codepoint text) _ (codepoint_leaves text) (λ codepoint rest h. h)

pub parse_escape_leaves : (text : List ℕ) → ReadsPart (length text) (parse_escape text)
unfolding parse_escape
parse_escape_leaves [] = tt
parse_escape_leaves (c ∷ cs) = let unicode = escape_leaves cs in ground arith

pub text_more : (m n : ℕ) (p : Parsing (List ℕ)) → ReadsText m p → m ≤ n → ReadsText n p
text_more m n (ok rest) h le = omega arith
text_more m n (fail e) h le = tt
text_more m n out_of_fuel h le = h
