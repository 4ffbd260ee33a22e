-- ===== src/Runtime/InputParser/Ranges.antt =====
-- The integers of inputs.
use exchange_engine.Base.{
  ℕ, ◌-◌, ◌^◌, ◌≤◌, ◌≡◌, refl, false, ◌||◌, Option, none, some, List, [], ◌∷◌, arith, leb, ◌==◌,
  if◌then◌else◌, inl, inr, Bool-cases, ℤ, pos, negsuc, neg_ℕ, ◌≤ℤ◌, ltb_ℤ,
}
use exchange_engine.Base.Result.{Result, returns, raises, ◌>>=◌}
use exchange_engine.Core.Level.{is_nil}
use exchange_engine.Protocol.Json.{
  number, boolean, JsonValue, null, boolean, number, string, array, object,
}
use exchange_engine.Protocol.Parser.Lexer.{consume_digits}
use exchange_engine.Runtime.InputParser.Fields.{
  not_filled_string, filled_text, require_string, InputError, not_integer, outside_int32,
  digits_value, bounded, from_chars, parse_integer_text, integer_of, integer_text, require_field,
  require_i64, require_i32,
}

-- -bound ≤ n ≤ bound - 1
abbrev pub InRange : ℕ → ℤ → Type 0
InRange bound n = (neg_ℕ bound ≤ℤ n) × (n ≤ℤ pos (bound - 1))

abbrev OnSome {ℓ} : {A : Type ℓ} → (A → Type 0) → Option A → Type 0
OnSome P none = Unit {0}
OnSome P (some a) = P a

abbrev pub OnReturn {ℓ κ} : {E : Type ℓ} {A : Type κ} → (A → Type 0) → Result E A → Type 0
OnReturn P (raises e) = Unit {0}
OnReturn P (returns a) = P a

map_some {ℓ κ} :
    {A : Type ℓ} {B : Type κ} (P : A → Type 0) (Q : B → Type 0) (f : A → B) (o : Option A)
    → OnSome P o
    → ((a : A) → P a → Q (f a))
    → OnSome Q (elim o [ none ↦ none | some a ↦ some (f a) ])
map_some P Q f none h k = tt
map_some P Q f (some a) h k = k a h

pub bind_return {ℓ κ μ} :
    {E : Type ℓ} {A : Type κ} {B : Type μ} (Q : B → Type 0) (p : Result E A) (f : A → Result E B)
    → ((a : A) → OnReturn Q (f a))
    → OnReturn Q (p >>= f)
bind_return Q (returns a) f k = k a
bind_return Q (raises e) f k = tt

-- Where what was read first has a property.
pub bind_with {ℓ κ μ} :
    {E : Type ℓ} {A : Type κ} {B : Type μ} (P : A → Type 0) (Q : B → Type 0) (p : Result E A)
    (f : A → Result E B)
    → OnReturn P p
    → ((a : A) → P a → OnReturn Q (f a))
    → OnReturn Q (p >>= f)
bind_with P Q (returns a) f h k = k a h
bind_with P Q (raises e) f h k = tt

bounded_range : (top : ℕ) (ds : List ℕ) → OnSome (λ n. n ≤ top) (bounded top ds)
unfolding bounded
bounded_range top ds = elim (Bool-cases (is_nil ds)) [
  | inl e ↦ rw e tt
  | inr e ↦ elim (Bool-cases (leb (digits_value 0 ds) top)) [
    | inl h ↦ rw (e, h) (ground arith)
    | inr h ↦ rw (e, h) tt
  ]
]

negative_word : (n : ℕ) → n ≤ 2 ^ 63 → InRange (2 ^ 63) (neg_ℕ n)
negative_word n h = ground arith

from_chars_range : (text : List ℕ) → OnSome (λ x. InRange (2 ^ 63) x.0) (from_chars text)
unfolding from_chars
from_chars_range [] = tt
from_chars_range (c ∷ cs) = elim (Bool-cases (c == b'-')) [
  | inl e ↦ rw e (
      map_some (λ n. n ≤ 2 ^ 63) (λ x. InRange (2 ^ 63) x.0) (λ n. (neg_ℕ n, (consume_digits cs).1))
        (bounded (2 ^ 63) (consume_digits cs).0) (bounded_range (2 ^ 63) (consume_digits cs).0)
        negative_word)
  | inr e ↦ rw e (
      map_some (λ n. n ≤ 2 ^ 63 - 1) (λ x. InRange (2 ^ 63) x.0)
        (λ n. (pos n, (consume_digits (c ∷ cs)).1))
        (bounded (2 ^ 63 - 1) (consume_digits (c ∷ cs)).0)
        (bounded_range (2 ^ 63 - 1) (consume_digits (c ∷ cs)).0)
        (λ n h. (omega arith, omega arith)))
]

whole_text :
    (o : Option (ℤ × List ℕ))
    → OnSome (λ x. InRange (2 ^ 63) x.0) o
    → OnSome
        (InRange (2 ^ 63))
        (elim o [ none ↦ none | some (n, rest) ↦ if is_nil rest then some n else none ])
whole_text none h = tt
whole_text (some (n, [])) h = h
whole_text (some (n, c ∷ rest)) h = tt

integer_range : (o : Option (List ℕ)) → OnSome (InRange (2 ^ 63)) (integer_of o)
unfolding integer_of parse_integer_text
integer_range none = tt
integer_range (some text) = whole_text (from_chars text) (from_chars_range text)

or_raise_range :
    (e : InputError) (o : Option ℤ)
    → OnSome (InRange (2 ^ 63)) o
    → OnReturn (InRange (2 ^ 63)) (elim o [ none ↦ raises e | some n ↦ returns n ])
or_raise_range e none h = tt
or_raise_range e (some n) h = h

-- Whatever is read by it is an int64_t.
pub i64_range :
    (v : JsonValue) (name path : List ℕ) → OnReturn (InRange (2 ^ 63)) (require_i64 v name path)
unfolding require_i64
i64_range v name path = bind_return (InRange (2 ^ 63)) (require_field v name path) _ (λ w.
    or_raise_range (not_integer path name) (integer_of (integer_text w))
      (integer_range (integer_text w)))

narrowed :
    (n : ℤ) (e : InputError)
    → OnReturn (InRange (2 ^ 31)) (
        if ltb_ℤ n (negsuc (2 ^ 31 - 1)) || ltb_ℤ (pos (2 ^ 31 - 1)) n then raises e else returns n)
narrowed n e = elim (Bool-cases (ltb_ℤ n (negsuc (2 ^ 31 - 1)) || ltb_ℤ (pos (2 ^ 31 - 1)) n)) [
  | inl h ↦ rw h tt
  | inr h ↦ rw h (ground arith, ground arith)
]

-- Whatever is read by it is an int32_t.
pub i32_range :
    (v : JsonValue) (name path : List ℕ) → OnReturn (InRange (2 ^ 31)) (require_i32 v name path)
unfolding require_i32
i32_range v name path =
    bind_return (InRange (2 ^ 31)) (require_i64 v name path) _
      (λ m. narrowed m (outside_int32 path name))

pub string_filled :
    (v : JsonValue) (name path : List ℕ)
    → OnReturn (λ s. is_nil s ≡ false) (require_string v name path)
unfolding require_string
string_filled v name path =
    bind_return (λ s. is_nil s ≡ false) (require_field v name path) _ (λ w. filled_string w)
  where
    filled_string :
        (w : JsonValue)
        → OnReturn
            (λ s. is_nil s ≡ false)
            (elim (filled_text w) [
              | none ↦ raises (not_filled_string path name)
              | some s ↦ returns s
            ])
    filled_string null = tt
    filled_string (boolean b) = tt
    filled_string (number n) = tt
    filled_string (string []) = tt
    filled_string (string (c ∷ cs)) = refl
    filled_string (array xs) = tt
    filled_string (object m) = tt
