-- ===== src/Core/Ladder/Operations.antt =====
-- Consistency of the bitmap, under the operations of the ladder.
use exchange_engine.Base.{
  length-set, leb, ℕ, ◌/◌, ◌%◌, ◌^◌, ◌<◌, ◌≡◌, refl, sym, ap, ◌∙◌, Bool, true, false, Option, none,
  some, arith, inl, inr, length, get_or, set, is_some, if◌then◌else◌, ◌==◌, Option-cases,
  Bool-cases, length-replicate, get_or-replicate, ℤ,
}
use native.Mathlib.Nat.{mod-lt}
use exchange_engine.Core.FixedPoint.{Price}
use exchange_engine.Core.Types.{Side}
use exchange_engine.Core.Level.{PriceLevel, new_level}
use exchange_engine.Core.Ladder.{
  price_to_ladder_tick, RingPriceLadder, Word, zero_word, init, bit_at, set_bit, slot_level,
  set_slot, mark_active, mark_inactive, clear_slot, ensure_level, get_or_create_level, remove_at,
  remove_level_if_empty, slot_of_price, price_tick_to_slot, bitmap_word_count, is_spent,
}
use exchange_engine.Core.Ladder.Consistent.{
  IsConsistent, write-IsConsistent, bit_at-set_bit, wide-set_bit,
}

tick_slot-lt :
    (l : RingPriceLadder) (t : ℤ) → (l.capacity == 0) ≡ false → price_tick_to_slot l t < l.capacity
unfolding price_tick_to_slot
tick_slot-lt l t h = let positive : 0 < l.capacity = ground arith in mod-lt _ positive

pub slot_of_price-lt :
    (l : RingPriceLadder) (p : Price) (slot : ℕ) → slot_of_price l p ≡ some slot → slot < l.capacity
unfolding slot_of_price
slot_of_price-lt l p slot e =
    ground (arith, tick_slot-lt l (price_to_ladder_tick p l.tick_size_ticks))

-- A new ladder is consistent, at any capacity below 2 ^ 63.
pub init-IsConsistent :
    (side : Side) (tick_size base : ℤ) (capacity : ℕ)
    → capacity < 2 ^ 63
    → IsConsistent (init side tick_size base capacity)
unfolding init
init-IsConsistent side tick_size base capacity h = record {
  sized = length-replicate capacity none;
  small = h;
  words = omega (arith, length-replicate (bitmap_word_count capacity) zero_word);
  wide = λ w. ap length (get_or-replicate (bitmap_word_count capacity) w zero_word);
  marked = λ i k.
      ap (λ (w : Word). get_or w (i % 64) false)
        (get_or-replicate (bitmap_word_count capacity) (i / 64) zero_word)
      ∙ (get_or-replicate 64 (i % 64) false ∙ sym (ap is_some (get_or-replicate capacity i none)));
}

-- A bit that is written with what its slot says.
mark-IsConsistent :
    (l : RingPriceLadder) (slot : ℕ) (b : Bool)
    → slot < l.capacity
    → b ≡ is_some (slot_level l slot)
    → IsConsistent l
    → IsConsistent (record l { active_slot_bitmap = set_bit l.active_slot_bitmap slot b })
mark-IsConsistent l slot b h e c = record {
  sized = c.sized;
  small = c.small;
  words = omega (arith, c.words, length-set l.active_slot_bitmap (slot / 64) word);
  wide = λ w. wide-set_bit l.active_slot_bitmap slot b w inside c.wide;
  marked =
      λ i k. bit_at-set_bit l.active_slot_bitmap slot i b inside (c.wide (slot / 64)) ∙ read i k;
}
  where
    word : Word
    word = set (get_or l.active_slot_bitmap (slot / 64) zero_word) (slot % 64) b

    inside : slot / 64 < length l.active_slot_bitmap
    inside = omega (arith, c.words)

    read :
        (i : ℕ)
        → i < l.capacity
        → (if slot == i then b else bit_at l.active_slot_bitmap i) ≡ is_some (slot_level l i)
    read i k = elim (Bool-cases (slot == i)) [
      | inl same ↦
          rw same
            (e ∙ ap (λ (j : ℕ). is_some (slot_level l j)) (let q : slot ≡ i = ground arith in q))
      | inr other ↦ rw other (c.marked i k)
    ]

mark_active-lt :
    (l : RingPriceLadder) (slot : ℕ)
    → slot < l.capacity
    → mark_active l slot ≡ record l { active_slot_bitmap = set_bit l.active_slot_bitmap slot true }
unfolding mark_active
mark_active-lt l slot h = let inside : leb l.capacity slot ≡ false = ground arith in rw inside

mark_inactive-lt :
    (l : RingPriceLadder) (slot : ℕ)
    → slot < l.capacity
    → mark_inactive l slot
      ≡ record l { active_slot_bitmap = set_bit l.active_slot_bitmap slot false }
unfolding mark_inactive
mark_inactive-lt l slot h = let inside : leb l.capacity slot ≡ false = ground arith in rw inside

ensured-IsConsistent :
    (l : RingPriceLadder) (slot : ℕ) (p : Price)
    → slot < l.capacity
    → IsConsistent l
    → IsConsistent (mark_active (ensure_level l slot p) slot)
unfolding ensure_level
ensured-IsConsistent l slot p h c = elim (Bool-cases (is_some (slot_level l slot))) [
  | inl there ↦
      rw there (rw (mark_active-lt l slot h) (mark-IsConsistent l slot true h (sym there) c))
  | inr new ↦ rw new (
      rw (mark_active-lt (set_slot l slot (some (new_level p))) slot h)
        (write-IsConsistent l slot (some (new_level p)) h c))
]

clear_slot-IsConsistent :
    (l : RingPriceLadder) (slot : ℕ)
    → slot < l.capacity
    → IsConsistent l
    → IsConsistent (clear_slot l slot)
unfolding clear_slot
clear_slot-IsConsistent l slot h c =
    let inside : leb l.capacity slot ≡ false = ground arith in
    rw inside (write-IsConsistent l slot none h c)

remove_at-IsConsistent :
    (l : RingPriceLadder) (slot : ℕ) (v : Option PriceLevel)
    → slot < l.capacity
    → slot_level l slot ≡ v
    → IsConsistent l
    → IsConsistent (remove_at l slot v)
unfolding remove_at
remove_at-IsConsistent l slot none h e c =
    rw (mark_inactive-lt l slot h) (mark-IsConsistent l slot false h (sym (ap is_some e)) c)
remove_at-IsConsistent l slot (some v) h e c = elim (Bool-cases (is_spent v)) [
  | inl spent ↦ rw spent (clear_slot-IsConsistent l slot h c)
  | inr kept ↦ rw kept c
]

-- Finding or making the level of a price, and dropping a spent one, keep the bitmap exact.
pub get_or_create-IsConsistent :
    (l : RingPriceLadder) (p : Price)
    → IsConsistent l
    → IsConsistent (get_or_create_level l p).0 × IsConsistent (remove_level_if_empty l p)
unfolding get_or_create_level remove_level_if_empty
get_or_create-IsConsistent l p c = elim (Option-cases (slot_of_price l p)) [
  | inl e ↦ rw (e, get_or_create_level, remove_level_if_empty) (c, c)
  | inr (slot, e) ↦
      let h = slot_of_price-lt l p slot e in
      rw (e, get_or_create_level, remove_level_if_empty)
        (ensured-IsConsistent l slot p h c, removed (slot_level l slot) slot h refl)
]
  where
    removed :
        (v : Option PriceLevel) (slot : ℕ)
        → slot < l.capacity
        → slot_level l slot ≡ v
        → IsConsistent (remove_at l slot v)
    removed v slot h e = remove_at-IsConsistent l slot v h e c
