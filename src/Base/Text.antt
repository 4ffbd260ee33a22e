-- ===== src/Base/Text.antt =====
-- Texts as lists of bytes, their equality and their order.
use Prim.Native.Nat.{ℕ}
use Prim.Native.String.{String}
use Prim.Native.Char.{code}
use mathlib.Core.Path.{◌≡◌, refl, ap₂}
use mathlib.Core.Bool.{Bool, true, false, ◌&&◌}
use mathlib.Core.List.{List, [], ◌∷◌}
use native.Mathlib.Omega.{arith}
use exchange_engine.Base.Tests.{and_left, and_right, ◌==◌, ltb, if◌then◌else◌}

-- The bytes of a literal; every literal of the source is ASCII.
abbrev pub bytes : String → List ℕ
bytes String.[] = []
bytes (String.◌∷◌ c s) = code c ∷ bytes s

abbrev pub same_text : List ℕ → List ℕ → Bool
same_text [] [] = true
same_text [] (d ∷ ds) = false
same_text (c ∷ cs) [] = false
same_text (c ∷ cs) (d ∷ ds) = c == d && same_text cs ds

-- `operator<` of std::string.
abbrev pub text_before : List ℕ → List ℕ → Bool
text_before [] [] = false
text_before [] (d ∷ ds) = true
text_before (c ∷ cs) [] = false
text_before (c ∷ cs) (d ∷ ds) = if c == d then text_before cs ds else ltb c d

pub same_text_sound : (s t : List ℕ) → same_text s t ≡ true → s ≡ t
same_text_sound [] [] h = refl
same_text_sound [] (d ∷ ds) h = cc
same_text_sound (c ∷ cs) [] h = cc
same_text_sound (c ∷ cs) (d ∷ ds) h =
    let here : c ≡ d = let e = and_left (c == d) (same_text cs ds) h in ground arith in
    ap₂ (◌∷◌) here (same_text_sound cs ds (and_right (c == d) (same_text cs ds) h))

pub same_text_refl : (s : List ℕ) → same_text s s ≡ true
same_text_refl [] = refl
same_text_refl (c ∷ cs) = let e : (c == c) ≡ true = ground arith in rw (e, same_text_refl cs) refl
