-- ===== src/Core/Ladder/Masks.antt =====
-- The masked words of a scan over a range of slots.
use exchange_engine.Base.{
  ℕ, zero, suc, ◌+◌, ◌*◌, ◌/◌, ◌%◌, ◌<◌, ◌≤◌, ◌≡◌, refl, ap, Bool, true, false, ◌&&◌, [], ◌∷◌,
  arith, inl, inr, length, get_or, leb, if◌then◌else◌, ◌==◌, Bool-cases,
}
use exchange_engine.Core.Ladder.{Word, clear_below, keep_through, cleared}

-- What a masked word holds: the bits of the slots from `first` to `last`.
get_or-cleared : (w : Word) (j : ℕ) → get_or (cleared w) j false ≡ false
get_or-cleared [] j = refl
get_or-cleared (b ∷ w) zero = refl
get_or-cleared (b ∷ w) (suc j) = get_or-cleared w j

get_or-clear_below :
    (k : ℕ) (w : Word) (j : ℕ) → get_or (clear_below k w) j false ≡ (leb k j && get_or w j false)
get_or-clear_below zero w j = ground arith
get_or-clear_below (suc k) [] j = ground arith
get_or-clear_below (suc k) (b ∷ w) zero = ground arith
get_or-clear_below (suc k) (b ∷ w) (suc j) = ground (arith, get_or-clear_below k w j)

get_or-keep_through :
    (k : ℕ) (w : Word) (j : ℕ) → get_or (keep_through k w) j false ≡ (leb j k && get_or w j false)
get_or-keep_through k [] j = ground arith
get_or-keep_through zero (b ∷ w) zero = ground arith
get_or-keep_through zero (b ∷ w) (suc j) = ground (arith, get_or-cleared w j)
get_or-keep_through (suc k) (b ∷ w) zero = ground arith
get_or-keep_through (suc k) (b ∷ w) (suc j) = ground (arith, get_or-keep_through k w j)

length-cleared : (w : Word) → length (cleared w) ≡ length w
length-cleared [] = refl
length-cleared (b ∷ w) = ap suc (length-cleared w)

pub length-clear_below : (k : ℕ) (w : Word) → length (clear_below k w) ≡ length w
length-clear_below zero w = refl
length-clear_below (suc k) [] = refl
length-clear_below (suc k) (b ∷ w) = ap suc (length-clear_below k w)

pub length-keep_through : (k : ℕ) (w : Word) → length (keep_through k w) ≡ length w
length-keep_through k [] = refl
length-keep_through zero (b ∷ w) = ap suc (length-cleared w)
length-keep_through (suc k) (b ∷ w) = ap suc (length-keep_through k w)

pub masked_bits :
    (bits : Word) (first last w k : ℕ)
    → k < 64
    → first / 64 ≤ w
    → w ≤ last / 64
    → let low = if w == first / 64 then clear_below (first % 64) bits else bits in
      get_or (if w == last / 64 then keep_through (last % 64) low else low) k false
      ≡ (leb first (w * 64 + k) && (leb (w * 64 + k) last && get_or bits k false))
masked_bits bits first last w k h f g = elim (Bool-cases (w == last / 64)) [
  | inl top ↦
      rw (top, get_or-keep_through (last % 64) (low_bits) k)
        (rw low_bit (
          meet (leb k (last % 64)) (leb first (w * 64 + k)) (leb (w * 64 + k) last)
            (get_or bits k false) (upper_top top)))
  | inr below ↦ rw (below, low_bit) (rw (upper_below below) refl)
]
  where
    low_bits : Word
    low_bits = if w == first / 64 then clear_below (first % 64) bits else bits

    low_bit : get_or low_bits k false ≡ (leb first (w * 64 + k) && get_or bits k false)
    low_bit = elim (Bool-cases (w == first / 64)) [
      | inl e ↦
          rw (e, get_or-clear_below (first % 64) bits k)
            (ap (λ (b : Bool). b && get_or bits k false) (lower_top e))
      | inr e ↦ rw (e, lower_above e)
    ]
      where
        lower_top : (w == first / 64) ≡ true → leb (first % 64) k ≡ leb first (w * 64 + k)
        lower_top e = ground arith

        lower_above : (w == first / 64) ≡ false → leb first (w * 64 + k) ≡ true
        lower_above e = ground arith

    upper_top : (w == last / 64) ≡ true → leb k (last % 64) ≡ leb (w * 64 + k) last
    upper_top e = ground arith

    upper_below : (w == last / 64) ≡ false → leb (w * 64 + k) last ≡ true
    upper_below e = ground arith

    meet : (a b c d : Bool) → a ≡ c → (a && (b && d)) ≡ (b && (c && d))
    meet a b c d e = ground arith
