-- ===== src/Core/Ladder/Scan.antt =====
-- The scans of a consistent ladder find the lowest and the highest slot in use, and change nothing.
use exchange_engine.Base.{
  ℕ, suc, ◌+◌, ◌<◌, ◌≤◌, ◌≡◌, refl, ap, ◌∙◌, Bool, true, false, Option, none, some, [], ◌∷◌, arith,
  inl, inr, length, is_some, ltb, if◌then◌else◌, ◌==◌, Bool-cases,
}
use exchange_engine.Core.Ladder.{
  RingPriceLadder, Word, slot_level, check_slot, scan_bits_up, scan_bits_down,
}

-- The lowest index from `a` on, in a window of `n`, at which `act` holds; and the highest.
abbrev pub IsFirst : (ℕ → Bool) → ℕ → ℕ → Option ℕ → Type 0
IsFirst act a n none = (j : ℕ) → a ≤ j → j < a + n → act j ≡ false
IsFirst act a n (some i) =
    (a ≤ i) × (i < a + n) × (act i ≡ true) × ((j : ℕ) → a ≤ j → j < i → act j ≡ false)

abbrev pub IsLast : (ℕ → Bool) → ℕ → ℕ → Option ℕ → Type 0
IsLast act a n none = (j : ℕ) → a ≤ j → j < a + n → act j ≡ false
IsLast act a n (some i) =
    (a ≤ i) × (i < a + n) × (act i ≡ true) × ((j : ℕ) → i < j → j < a + n → act j ≡ false)

-- The bits of a word from `slot` on say where `act` holds, and `act` holds at levels only.
abbrev pub Shows : RingPriceLadder → (ℕ → Bool) → ℕ → Word → Type 0
Shows l act slot [] = Unit {0}
Shows l act slot (b ∷ bits) =
    (act slot ≡ b)
    × (b ≡ true → (slot < l.capacity) × (is_some (slot_level l slot) ≡ true))
    × Shows l act (slot + 1) bits

check_slot-live :
    (l : RingPriceLadder) (slot : ℕ)
    → slot < l.capacity
    → is_some (slot_level l slot) ≡ true
    → check_slot l slot ≡ (l, some slot)
unfolding check_slot
check_slot-live l slot h k =
    let inside : ltb slot l.capacity ≡ true = ground arith in rw (inside, k)

-- A scan that leaves the ladder as it is, with a result of which `P` holds.
abbrev pub Finds : RingPriceLadder → (Option ℕ → Type 0) → RingPriceLadder × Option ℕ → Type 0
Finds l P r = (r.0 ≡ l) × P r.1

pub scan_bits_up-IsFirst :
    (l : RingPriceLadder) (act : ℕ → Bool) (slot : ℕ) (bits : Word)
    → Shows l act slot bits
    → Finds l (IsFirst act slot (length bits)) (scan_bits_up l slot bits)
unfolding scan_bits_up
scan_bits_up-IsFirst l act slot [] s = (refl, λ j h k. absurd (omega arith))
scan_bits_up-IsFirst l act slot (false ∷ bits) s =
    let (same, found) = scan_bits_up-IsFirst l act (slot + 1) bits s.2 in
    (same, skip (scan_bits_up l (slot + 1) bits).1 found)
  where
    skip :
        (r : Option ℕ)
        → IsFirst act (slot + 1) (length bits) r
        → IsFirst act slot (suc (length bits)) r
    skip none f = λ j h k. elim (Bool-cases (j == slot)) [
      | inl e ↦ ap act (let q : j ≡ slot = ground arith in q) ∙ s.0
      | inr e ↦ f j (ground arith) (omega arith)
    ]
    skip (some i) f = (
      omega arith,
      omega arith,
      f.2,
      λ j h k. elim (Bool-cases (j == slot)) [
        | inl e ↦ ap act (let q : j ≡ slot = ground arith in q) ∙ s.0
        | inr e ↦ f.3 j (ground arith) k
      ],
    )
scan_bits_up-IsFirst l act slot (true ∷ bits) s =
    let (inside, there) = s.1 refl in
    rw (check_slot-live l slot inside there)
      (refl, (omega arith, omega arith, s.0, λ j h k. absurd (omega arith)))

-- Windows that meet make one.
pub IsFirst-join :
    (act : ℕ → Bool) (a n m : ℕ) (r : Option ℕ)
    → IsFirst act a n none
    → IsFirst act (a + n) m r
    → IsFirst act a (n + m) r
IsFirst-join act a n m none f g = λ j h k. elim (Bool-cases (ltb j (a + n))) [
  | inl e ↦ f j h (ground arith)
  | inr e ↦ g j (ground arith) (omega arith)
]
IsFirst-join act a n m (some i) f g = (
  omega arith,
  omega arith,
  g.2,
  λ j h k. elim (Bool-cases (ltb j (a + n))) [
    | inl e ↦ f j h (ground arith)
    | inr e ↦ g.3 j (ground arith) k
  ],
)

pub IsFirst-widen :
    (act : ℕ → Bool) (a n m i : ℕ) → IsFirst act a n (some i) → IsFirst act a (n + m) (some i)
IsFirst-widen act a n m i f = (f.0, omega arith, f.2, f.3)

pub scan_bits_down-IsLast :
    (l : RingPriceLadder) (act : ℕ → Bool) (slot : ℕ) (bits : Word)
    → Shows l act slot bits
    → Finds l (IsLast act slot (length bits)) (scan_bits_down l slot bits)
unfolding scan_bits_down
scan_bits_down-IsLast l act slot [] s = (refl, λ j h k. absurd (omega arith))
scan_bits_down-IsLast l act slot (b ∷ bits) s =
    let (same, found) = scan_bits_down-IsLast l act (slot + 1) bits s.2 in
    here (scan_bits_down l (slot + 1) bits) same found
  where
    at_slot : (j : ℕ) → slot ≤ j → ¬ (slot + 1 ≤ j) → act j ≡ b
    at_slot j h k = ap act (let q : j ≡ slot = omega arith in q) ∙ s.0

    none_above :
        (k : RingPriceLadder) (c : Bool)
        → k ≡ l
        → b ≡ c
        → IsLast act (slot + 1) (length bits) none
        → Finds l (IsLast act slot (suc (length bits))) (if c then check_slot k slot else (k, none))
    none_above k true same e f =
        let (inside, there) = s.1 e in
        rw (same, check_slot-live l slot inside there)
          (refl, (omega arith, omega arith, s.0 ∙ e, λ j h i. f j (omega arith) (omega arith)))
    none_above k false same e f = (
      same,
      λ j h i. elim (Bool-cases (ltb slot j)) [
        | inl above ↦ f j (ground arith) (omega arith)
        | inr below ↦ at_slot j h (ground arith) ∙ e
      ],
    )

    here :
        (r : RingPriceLadder × Option ℕ)
        → r.0 ≡ l
        → IsLast act (slot + 1) (length bits) r.1
        → Finds l
            (IsLast act slot (suc (length bits)))
            (if is_some r.1 then r else (if b then check_slot r.0 slot else (r.0, none)))
    here (k, none) same f = none_above k b same refl f
    here (k, some i) same f =
        (same, (omega (arith, f.0), omega (arith, f.1), f.2, λ j h m. f.3 j h (omega arith)))

pub IsLast-join :
    (act : ℕ → Bool) (a n m : ℕ) (r : Option ℕ)
    → IsLast act (a + n) m none
    → IsLast act a n r
    → IsLast act a (n + m) r
IsLast-join act a n m none g f = λ j h k. elim (Bool-cases (ltb j (a + n))) [
  | inl e ↦ f j h (ground arith)
  | inr e ↦ g j (ground arith) (omega arith)
]
IsLast-join act a n m (some i) g f = (
  f.0,
  omega (arith, f.1),
  f.2,
  λ j h k. elim (Bool-cases (ltb j (a + n))) [
    | inl e ↦ f.3 j h (ground arith)
    | inr e ↦ g j (ground arith) (omega arith)
  ],
)

pub IsLast-widen :
    (act : ℕ → Bool) (a n m i : ℕ) → IsLast act (a + n) m (some i) → IsLast act a (n + m) (some i)
IsLast-widen act a n m i g =
    (omega (arith, g.0), omega (arith, g.1), g.2, λ j h k. g.3 j h (omega arith))
