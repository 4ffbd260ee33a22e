-- ===== src/Core/Ladder/Search.antt =====
-- The scans of a consistent ladder against the slots in use.
use exchange_engine.Base.{
  ℕ, zero, suc, ◌+◌, ◌-◌, ◌*◌, ◌/◌, ◌%◌, ◌<◌, ◌≤◌, ◌≡◌, refl, sym, ap, ◌∙◌, subst, Bool, true,
  false, ◌&&◌, Option, none, some, List, [], ◌∷◌, arith, inl, inr, length, get_or, is_some, ltb,
  leb, if◌then◌else◌, ◌==◌, Bool-cases,
}
use exchange_engine.Core.Level.{is_nil}
use exchange_engine.Core.Ladder.{
  RingPriceLadder, Word, zero_word, bit_at, slot_level, clear_below, masked, scan_bits_up,
  scan_bits_down, scan_words_up, scan_words_down, first_active_level_in_range,
  last_active_level_in_range,
}
use exchange_engine.Core.Ladder.Consistent.{IsConsistent}
use exchange_engine.Core.Ladder.Masks.{masked_bits, length-clear_below, length-keep_through}
use exchange_engine.Core.Ladder.Scan.{
  IsFirst, IsLast, Shows, Finds, IsFirst-join, IsFirst-widen, IsLast-join, IsLast-widen,
  scan_bits_up-IsFirst, scan_bits_down-IsLast,
}

-- The slots of a range that hold a level.
abbrev pub in_use : RingPriceLadder → ℕ → ℕ → ℕ → Bool
in_use l first last i = leb first i && (leb i last && is_some (slot_level l i))

Shows-intro :
    (l : RingPriceLadder) (act : ℕ → Bool) (slot : ℕ) (bits : Word)
    → ((k : ℕ) → k < length bits → act (slot + k) ≡ get_or bits k false)
    → ((i : ℕ) → act i ≡ true → (i < l.capacity) × (is_some (slot_level l i) ≡ true))
    → Shows l act slot bits
Shows-intro l act slot [] agree live = tt
Shows-intro l act slot (b ∷ bits) agree live =
    (here, λ e. live slot (here ∙ e), Shows-intro l act (slot + 1) bits rest live)
  where
    here : act slot ≡ b
    here = ap act (let q : slot ≡ slot + 0 = omega arith in q) ∙ agree 0 (omega arith)

    rest : (k : ℕ) → k < length bits → act (slot + 1 + k) ≡ get_or bits k false
    rest k h =
        ap act (let q : slot + 1 + k ≡ slot + suc k = omega arith in q)
        ∙ agree (suc k) (omega arith)

module _ (l : RingPriceLadder) (c : IsConsistent l) (first last : ℕ)
    (in_range : last < l.capacity) where
  live :
      (i : ℕ) → in_use l first last i ≡ true → (i < l.capacity) × (is_some (slot_level l i) ≡ true)
  live i e = ground (arith, in_range)

  length-masked : (w : ℕ) → length (masked l first last w) ≡ 64
  unfolding masked
  length-masked w =
      let bits = get_or l.active_slot_bitmap w zero_word in
      elim (Bool-cases (w == first / 64)) [
        | inl e ↦ rw e (elim (Bool-cases (w == last / 64)) [
          | inl f ↦ rw f (
              length-keep_through (last % 64) (clear_below (first % 64) bits)
              ∙ (length-clear_below (first % 64) bits ∙ c.wide w))
          | inr f ↦ rw f (length-clear_below (first % 64) bits ∙ c.wide w)
        ])
        | inr e ↦ rw e (elim (Bool-cases (w == last / 64)) [
          | inl f ↦ rw f (length-keep_through (last % 64) bits ∙ c.wide w)
          | inr f ↦ rw f (c.wide w)
        ])
      ]

  -- A masked word shows the slots in use.
  masked-in_use :
      (w k : ℕ)
      → first / 64 ≤ w
      → w ≤ last / 64
      → k < 64
      → in_use l first last (w * 64 + k) ≡ get_or (masked l first last w) k false
  unfolding masked
  masked-in_use w k f g h =
      level_bit ∙ sym (masked_bits (get_or l.active_slot_bitmap w zero_word) first last w k h f g)
    where
      bit : Bool
      bit = get_or (get_or l.active_slot_bitmap w zero_word) k false

      same_bit : bit_at l.active_slot_bitmap (w * 64 + k) ≡ bit
      same_bit =
          let q : (w * 64 + k) / 64 ≡ w = omega arith in
          let r : (w * 64 + k) % 64 ≡ k = omega arith in rw (q, r)

      level_bit :
          in_use l first last (w * 64 + k)
          ≡ (leb first (w * 64 + k) && (leb (w * 64 + k) last && bit))
      level_bit = elim (Bool-cases (leb (w * 64 + k) last)) [
        | inl low ↦
            let inside : w * 64 + k < l.capacity = ground (arith, in_range) in
            rw low (
              ap (λ (b : Bool). leb first (w * 64 + k) && b)
                (sym (c.marked (w * 64 + k) inside) ∙ same_bit))
        | inr high ↦ rw high
      ]

  word-Shows :
      (w : ℕ)
      → first / 64 ≤ w
      → w ≤ last / 64
      → Shows l (in_use l first last) (w * 64) (masked l first last w)
  word-Shows w f g =
      Shows-intro l (in_use l first last) (w * 64) (masked l first last w)
        (λ k h. masked-in_use w k f g (omega (arith, length-masked w))) live

  scan_word-IsFirst :
      (w : ℕ)
      → first / 64 ≤ w
      → w ≤ last / 64
      → Finds l
          (IsFirst (in_use l first last) (w * 64) 64)
          (scan_bits_up l (w * 64) (masked l first last w))
  scan_word-IsFirst w f g =
      subst
        (λ (n : ℕ).
          Finds l (IsFirst (in_use l first last) (w * 64) n)
            (scan_bits_up l (w * 64) (masked l first last w)))
        (length-masked w)
        (scan_bits_up-IsFirst l (in_use l first last) (w * 64) (masked l first last w)
          (word-Shows w f g))

  up_step :
      (r : RingPriceLadder × Option ℕ) (w n : ℕ)
      → r.0 ≡ l
      → IsFirst (in_use l first last) (w * 64) 64 r.1
      → Finds l
          (IsFirst (in_use l first last) ((w + 1) * 64) (n * 64))
          (scan_words_up l first last (w + 1) n)
      → Finds l
          (IsFirst (in_use l first last) (w * 64) (suc n * 64))
          (if is_some r.1 then r else scan_words_up r.0 first last (w + 1) n)
  up_step (k, none) w n same found rest = rw same (
    rest.0,
    subst
        (λ (m : ℕ).
          IsFirst (in_use l first last) (w * 64) m (scan_words_up l first last (w + 1) n).1)
        (let q : 64 + n * 64 ≡ suc n * 64 = omega arith in q)
        (IsFirst-join (in_use l first last) (w * 64) 64 (n * 64)
          (scan_words_up l first last (w + 1) n).1 found
          (subst
            (λ (a : ℕ).
              IsFirst (in_use l first last) a (n * 64) (scan_words_up l first last (w + 1) n).1)
            (let q : (w + 1) * 64 ≡ w * 64 + 64 = omega arith in q) rest.1)),
  )
  up_step (k, some i) w n same found rest = (
    same,
    subst (λ (m : ℕ). IsFirst (in_use l first last) (w * 64) m (some i))
        (let q : 64 + n * 64 ≡ suc n * 64 = omega arith in q)
        (IsFirst-widen (in_use l first last) (w * 64) 64 (n * 64) i found),
  )

  scan_words-IsFirst :
      (w n : ℕ)
      → first / 64 ≤ w
      → w + n ≤ last / 64 + 1
      → Finds l (IsFirst (in_use l first last) (w * 64) (n * 64)) (scan_words_up l first last w n)
  unfolding scan_words_up
  scan_words-IsFirst w zero f g = (refl, λ j h k. absurd (omega arith))
  scan_words-IsFirst w (suc n) f g =
      let (same, found) = scan_word-IsFirst w f (omega arith) in
      up_step (scan_bits_up l (w * 64) (masked l first last w)) w n same found
        (scan_words-IsFirst (w + 1) n (omega arith) (omega arith))

  scan_word-IsLast :
      (w : ℕ)
      → first / 64 ≤ w
      → w ≤ last / 64
      → Finds l
          (IsLast (in_use l first last) (w * 64) 64)
          (scan_bits_down l (w * 64) (masked l first last w))
  scan_word-IsLast w f g =
      subst
        (λ (n : ℕ).
          Finds l (IsLast (in_use l first last) (w * 64) n)
            (scan_bits_down l (w * 64) (masked l first last w)))
        (length-masked w)
        (scan_bits_down-IsLast l (in_use l first last) (w * 64) (masked l first last w)
          (word-Shows w f g))

  down_step :
      (r : RingPriceLadder × Option ℕ) (w n : ℕ)
      → r.0 ≡ l
      → IsLast (in_use l first last) (w * 64 + n * 64) 64 r.1
      → Finds l (IsLast (in_use l first last) (w * 64) (n * 64)) (scan_words_down l first last w n)
      → Finds l
          (IsLast (in_use l first last) (w * 64) (suc n * 64))
          (if is_some r.1 then r else scan_words_down r.0 first last w n)
  down_step (k, none) w n same found rest = rw same (
    rest.0,
    subst (λ (m : ℕ). IsLast (in_use l first last) (w * 64) m (scan_words_down l first last w n).1)
        (let q : n * 64 + 64 ≡ suc n * 64 = omega arith in q)
        (IsLast-join (in_use l first last) (w * 64) (n * 64) 64 (scan_words_down l first last w n).1
          found rest.1),
  )
  down_step (k, some i) w n same found rest = (
    same,
    subst (λ (m : ℕ). IsLast (in_use l first last) (w * 64) m (some i))
        (let q : n * 64 + 64 ≡ suc n * 64 = omega arith in q)
        (IsLast-widen (in_use l first last) (w * 64) (n * 64) 64 i found),
  )

  scan_words-IsLast :
      (w n : ℕ)
      → first / 64 ≤ w
      → w + n ≤ last / 64 + 1
      → Finds l (IsLast (in_use l first last) (w * 64) (n * 64)) (scan_words_down l first last w n)
  unfolding scan_words_down
  scan_words-IsLast w zero f g = (refl, λ j h k. absurd (omega arith))
  scan_words-IsLast w (suc n) f g =
      let (same, found) = scan_word-IsLast (w + n) (omega arith) (omega arith) in
      down_step (scan_bits_down l ((w + n) * 64) (masked l first last (w + n))) w n same
        (subst
          (λ (a : ℕ).
            IsLast (in_use l first last) a 64
              (scan_bits_down l ((w + n) * 64) (masked l first last (w + n))).1)
          (let q : (w + n) * 64 ≡ w * 64 + n * 64 = omega arith in q) found)
        (scan_words-IsLast w n f (omega arith))

  not_nil : is_nil l.active_slot_bitmap ≡ false
  not_nil = some_words l.active_slot_bitmap (omega (arith, c.words, in_range))
    where
      some_words : (ws : List Word) → 0 < length ws → is_nil ws ≡ false
      some_words [] h = absurd (omega arith)
      some_words (w ∷ ws) h = refl

-- The lowest slot from `first` to `last` that holds a level; none if all are empty.
abbrev pub Lowest : RingPriceLadder → ℕ → ℕ → Option ℕ → Type 0
Lowest l first last none = (j : ℕ) → first ≤ j → j ≤ last → slot_level l j ≡ none
Lowest l first last (some i) =
    (first ≤ i)
    × (i ≤ last)
    × (is_some (slot_level l i) ≡ true)
    × ((j : ℕ) → first ≤ j → j < i → slot_level l j ≡ none)

abbrev pub Highest : RingPriceLadder → ℕ → ℕ → Option ℕ → Type 0
Highest l first last none = (j : ℕ) → first ≤ j → j ≤ last → slot_level l j ≡ none
Highest l first last (some i) =
    (first ≤ i)
    × (i ≤ last)
    × (is_some (slot_level l i) ≡ true)
    × ((j : ℕ) → i < j → j ≤ last → slot_level l j ≡ none)

unused :
    (l : RingPriceLadder) (first last j : ℕ)
    → first ≤ j
    → j ≤ last
    → in_use l first last j ≡ false
    → slot_level l j ≡ none
unused l first last j h k e = ground arith

used :
    (l : RingPriceLadder) (first last i : ℕ)
    → in_use l first last i ≡ true
    → (first ≤ i) × (i ≤ last) × (is_some (slot_level l i) ≡ true)
used l first last i e = ground arith

IsFirst-Lowest :
    (l : RingPriceLadder) (first last a n : ℕ) (r : Option ℕ)
    → a ≤ first
    → last < a + n
    → IsFirst (in_use l first last) a n r
    → Lowest l first last r
IsFirst-Lowest l first last a n none h k f =
    λ j p q. unused l first last j p q (f j (omega arith) (omega arith))
IsFirst-Lowest l first last a n (some i) h k f =
    let (p, q, s) = used l first last i f.2 in
    (p, q, s, λ j x y. unused l first last j x (omega arith) (f.3 j (omega arith) y))

IsLast-Highest :
    (l : RingPriceLadder) (first last a n : ℕ) (r : Option ℕ)
    → a ≤ first
    → last < a + n
    → IsLast (in_use l first last) a n r
    → Highest l first last r
IsLast-Highest l first last a n none h k f =
    λ j p q. unused l first last j p q (f j (omega arith) (omega arith))
IsLast-Highest l first last a n (some i) h k f =
    let (p, q, s) = used l first last i f.2 in
    (p, q, s, λ j x y. unused l first last j (omega arith) y (f.3 j x (omega arith)))

-- Over a range inside a consistent ladder, the scan upwards returns the lowest slot that holds a
-- level, or none if the range is empty, and leaves the ladder as it is; the scan downwards returns
-- the highest.
pub active_levels_in_range :
    (l : RingPriceLadder) (first last : ℕ)
    → IsConsistent l
    → first ≤ last
    → last < l.capacity
    → Finds l (Lowest l first last) (first_active_level_in_range l first last)
      × Finds l (Highest l first last) (last_active_level_in_range l first last)
unfolding first_active_level_in_range last_active_level_in_range
active_levels_in_range l first last c h k =
    let ordered : ltb last first ≡ false = ground arith in
    let n = last / 64 + 1 - first / 64 in
    let up = scan_words-IsFirst l c first last k (first / 64) n (omega arith) (omega arith) in
    let down = scan_words-IsLast l c first last k (first / 64) n (omega arith) (omega arith) in
    rw (ordered, not_nil l c first last k)
      (
        (
          up.0,
          IsFirst-Lowest l first last (first / 64 * 64) (n * 64) _ (omega arith) (omega arith) up.1,
        ),
        (
          down.0,
          IsLast-Highest l first last (first / 64 * 64) (n * 64) _ (omega arith) (omega arith)
              down.1,
        ),
      )
