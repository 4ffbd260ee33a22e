-- ===== src/Core/Ladder/Consistent.antt =====
-- Consistency of the bitmap with the slots, and the writes of a bit and a slot.
use exchange_engine.Base.{
  ℕ, ◌*◌, ◌/◌, ◌%◌, ◌^◌, ◌<◌, ◌≤◌, ◌≡◌, sym, ap, ◌∙◌, Bool, false, Option, none, List, arith, inl,
  inr, length, get_or, set, is_some, if◌then◌else◌, ◌==◌, Bool-cases, length-set, get_or-set_self,
  get_or-set_ne,
}
use exchange_engine.Core.Level.{PriceLevel}
use exchange_engine.Core.Ladder.{RingPriceLadder, Word, zero_word, bit_at, set_bit, slot_level}

-- Every word has 64 bits, and a bit is set where the slot holds a level.
pub record IsConsistent (l : RingPriceLadder) : Type 0 where
  pub sized : length l.slots ≡ l.capacity
  pub small : l.capacity < 2 ^ 63
  pub words : l.capacity ≤ length l.active_slot_bitmap * 64
  pub wide : (w : ℕ) → length (get_or l.active_slot_bitmap w zero_word) ≡ 64
  pub marked : (i : ℕ) → i < l.capacity → bit_at l.active_slot_bitmap i ≡ is_some (slot_level l i)

pub get_or-set {ℓ} :
    {A : Type ℓ} (xs : List A) (i j : ℕ) (v d : A)
    → i < length xs
    → get_or (set xs i v) j d ≡ (if i == j then v else get_or xs j d)
get_or-set xs i j v d h = elim (Bool-cases (i == j)) [
  | inl e ↦
      rw e (ap (λ (k : ℕ). get_or (set xs i v) k d) (ground arith) ∙ get_or-set_self xs i v d h)
  | inr e ↦ rw e (get_or-set_ne xs i j v d (ground arith))
]

pub wide-set_bit :
    (bitmap : List Word) (i : ℕ) (v : Bool) (w : ℕ)
    → i / 64 < length bitmap
    → ((k : ℕ) → length (get_or bitmap k zero_word) ≡ 64)
    → length (get_or (set_bit bitmap i v) w zero_word) ≡ 64
wide-set_bit bitmap i v w h wide =
    rw
      (get_or-set bitmap (i / 64) w (set (get_or bitmap (i / 64) zero_word) (i % 64) v) zero_word h)
      (elim (Bool-cases (i / 64 == w)) [
        | inl e ↦ rw e (length-set (get_or bitmap (i / 64) zero_word) (i % 64) v ∙ wide (i / 64))
        | inr e ↦ rw e (wide w)
      ])

same_slot : (i j : ℕ) → i / 64 ≡ j / 64 → i % 64 ≡ j % 64 → i ≡ j
same_slot i j h k = omega arith

in_word :
    (i j : ℕ) (v b : Bool)
    → i / 64 ≡ j / 64
    → (if i % 64 == j % 64 then v else b) ≡ (if i == j then v else b)
in_word i j v b h = elim (Bool-cases (i == j)) [
  | inl e ↦ ground arith
  | inr e ↦ ground (arith, same_slot i j h)
]

other_word : (i j : ℕ) (v b : Bool) → (i / 64 == j / 64) ≡ false → b ≡ (if i == j then v else b)
other_word i j v b h = elim (Bool-cases (i == j)) [
  | inl e ↦ let same : i ≡ j = ground arith in absurd (distinct same)
  | inr e ↦ rw e
]
  where
    distinct : ¬ (i ≡ j)
    distinct same = let words : i / 64 ≡ j / 64 = ap (λ (n : ℕ). n / 64) same in ground arith

-- One bit is written, and no other.
pub bit_at-set_bit :
    (bitmap : List Word) (i j : ℕ) (v : Bool)
    → i / 64 < length bitmap
    → length (get_or bitmap (i / 64) zero_word) ≡ 64
    → bit_at (set_bit bitmap i v) j ≡ (if i == j then v else bit_at bitmap j)
bit_at-set_bit bitmap i j v h wide =
    let word = get_or bitmap (i / 64) zero_word in
    rw (get_or-set bitmap (i / 64) (j / 64) (set word (i % 64) v) zero_word h)
      (elim (Bool-cases (i / 64 == j / 64)) [
        | inl e ↦ rw e (
            get_or-set word (i % 64) (j % 64) v false (omega (arith, wide))
            ∙ (in_word i j v (get_or word (j % 64) false) (ground arith)
                ∙ ap
                    (λ (w : ℕ).
                      if i == j then v else get_or (get_or bitmap w zero_word) (j % 64) false)
                    (ground arith)))
        | inr e ↦ rw e (other_word i j v (bit_at bitmap j) e)
      ])

-- A write of slot and bit together keeps the ladder consistent.
pub write-IsConsistent :
    (l : RingPriceLadder) (slot : ℕ) (v : Option PriceLevel)
    → slot < l.capacity
    → IsConsistent l
    → IsConsistent (record l {
      slots = set l.slots slot v;
      active_slot_bitmap = set_bit l.active_slot_bitmap slot (is_some v);
    })
write-IsConsistent l slot v h c = record {
  sized = length-set l.slots slot v ∙ c.sized;
  small = c.small;
  words = omega (arith, c.words, length-set l.active_slot_bitmap (slot / 64) word);
  wide = λ w. wide-set_bit l.active_slot_bitmap slot (is_some v) w inside c.wide;
  marked = λ i k.
      bit_at-set_bit l.active_slot_bitmap slot i (is_some v) inside (c.wide (slot / 64))
      ∙ (read i k ∙ sym (ap is_some (get_or-set l.slots slot i v none in_slots)));
}
  where
    word : Word
    word = set (get_or l.active_slot_bitmap (slot / 64) zero_word) (slot % 64) (is_some v)

    inside : slot / 64 < length l.active_slot_bitmap
    inside = omega (arith, c.words)

    in_slots : slot < length l.slots
    in_slots = omega (arith, c.sized)

    read :
        (i : ℕ)
        → i < l.capacity
        → (if slot == i then is_some v else bit_at l.active_slot_bitmap i)
          ≡ is_some (if slot == i then v else get_or l.slots i none)
    read i k = elim (Bool-cases (slot == i)) [ inl e ↦ rw e | inr e ↦ rw e (c.marked i k) ]
