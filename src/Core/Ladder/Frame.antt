-- ===== src/Core/Ladder/Frame.antt =====
-- What the scans of the ladder may write.
use exchange_engine.Base.{
  ℕ, zero, suc, ◌+◌, ◌-◌, ◌*◌, if◌then◌else◌, ◌≡◌, refl, ◌∙◌, Bool, true, false, Option, [], ◌∷◌,
  arith,
}
use exchange_engine.Core.Ladder.{
  RingPriceLadder, Word, masked, mark_inactive, check_slot, scan_bits_up, scan_bits_down,
  scan_words_up, scan_words_down, first_active_level_in_range, last_active_level_in_range, best_buy,
  best_sell, best_level,
}

-- Two ladders that differ in the bitmap alone.
pub record IsFrame (l k : RingPriceLadder) : Type 0 where
  pub side : k.side ≡ l.side
  pub tick_size : k.tick_size_ticks ≡ l.tick_size_ticks
  pub base : k.base_tick ≡ l.base_tick
  pub head : k.head_index ≡ l.head_index
  pub capacity : k.capacity ≡ l.capacity
  pub slots : k.slots ≡ l.slots

pub IsFrame-refl : (l : RingPriceLadder) → IsFrame l l
IsFrame-refl l = record {
  side = refl;
  tick_size = refl;
  base = refl;
  head = refl;
  capacity = refl;
  slots = refl;
}

pub IsFrame-trans : {l k j : RingPriceLadder} → IsFrame l k → IsFrame k j → IsFrame l j
IsFrame-trans f g = record {
  side = g.side ∙ f.side;
  tick_size = g.tick_size ∙ f.tick_size;
  base = g.base ∙ f.base;
  head = g.head ∙ f.head;
  capacity = g.capacity ∙ f.capacity;
  slots = g.slots ∙ f.slots;
}

pub IsFrame-if :
    {l : RingPriceLadder} (b : Bool) (x y : RingPriceLadder × Option ℕ)
    → IsFrame l x.0
    → IsFrame l y.0
    → IsFrame l (if b then x else y).0
IsFrame-if true x y f g = f
IsFrame-if false x y f g = g

mark_inactive-IsFrame : (l : RingPriceLadder) (slot : ℕ) → IsFrame l (mark_inactive l slot)
unfolding mark_inactive
mark_inactive-IsFrame l slot = ground arith

check_slot-IsFrame : (l : RingPriceLadder) (slot : ℕ) → IsFrame l (check_slot l slot).0
unfolding check_slot
check_slot-IsFrame l slot =
    IsFrame-if _ _ _ (IsFrame-if _ _ _ (IsFrame-refl l) (mark_inactive-IsFrame l slot))
      (IsFrame-refl l)

scan_bits_up-IsFrame :
    (l : RingPriceLadder) (slot : ℕ) (bits : Word) → IsFrame l (scan_bits_up l slot bits).0
unfolding scan_bits_up
scan_bits_up-IsFrame l slot [] = IsFrame-refl l
scan_bits_up-IsFrame l slot (false ∷ bits) = scan_bits_up-IsFrame l (slot + 1) bits
scan_bits_up-IsFrame l slot (true ∷ bits) = IsFrame-if _ _ _ (check_slot-IsFrame l slot) (
    IsFrame-trans (check_slot-IsFrame l slot)
      (scan_bits_up-IsFrame (check_slot l slot).0 (slot + 1) bits))

scan_bits_down-IsFrame :
    (l : RingPriceLadder) (slot : ℕ) (bits : Word) → IsFrame l (scan_bits_down l slot bits).0
unfolding scan_bits_down
scan_bits_down-IsFrame l slot [] = IsFrame-refl l
scan_bits_down-IsFrame l slot (b ∷ bits) =
    let above = scan_bits_down-IsFrame l (slot + 1) bits in
    IsFrame-if _ _ _ above (
      IsFrame-if b _ _
        (IsFrame-trans above (check_slot-IsFrame (scan_bits_down l (slot + 1) bits).0 slot)) above)

scan_words_up-IsFrame :
    (l : RingPriceLadder) (first last word n : ℕ) → IsFrame l (scan_words_up l first last word n).0
unfolding scan_words_up
scan_words_up-IsFrame l first last word zero = IsFrame-refl l
scan_words_up-IsFrame l first last word (suc n) =
    let here = scan_bits_up-IsFrame l (word * 64) (masked l first last word) in
    IsFrame-if _ _ _ here (
      IsFrame-trans here (
        scan_words_up-IsFrame (scan_bits_up l (word * 64) (masked l first last word)).0 first last
          (word + 1) n))

scan_words_down-IsFrame :
    (l : RingPriceLadder) (first last word n : ℕ)
    → IsFrame l (scan_words_down l first last word n).0
unfolding scan_words_down
scan_words_down-IsFrame l first last word zero = IsFrame-refl l
scan_words_down-IsFrame l first last word (suc n) =
    let here = scan_bits_down-IsFrame l ((word + n) * 64) (masked l first last (word + n)) in
    IsFrame-if _ _ _ here (
      IsFrame-trans here (
        scan_words_down-IsFrame
          (scan_bits_down l ((word + n) * 64) (masked l first last (word + n))).0 first last word
          n))

first_active-IsFrame :
    (l : RingPriceLadder) (first last : ℕ) → IsFrame l (first_active_level_in_range l first last).0
unfolding first_active_level_in_range
first_active-IsFrame l first last =
    IsFrame-if _ _ _ (IsFrame-refl l) (scan_words_up-IsFrame l first last _ _)

last_active-IsFrame :
    (l : RingPriceLadder) (first last : ℕ) → IsFrame l (last_active_level_in_range l first last).0
unfolding last_active_level_in_range
last_active-IsFrame l first last =
    IsFrame-if _ _ _ (IsFrame-refl l) (scan_words_down-IsFrame l first last _ _)

best_buy-IsFrame : (l : RingPriceLadder) → IsFrame l (best_buy l).0
unfolding best_buy
best_buy-IsFrame l =
    let wrapped = last_active-IsFrame l 0 (l.head_index - 1) in
    IsFrame-if _ _ _
      (IsFrame-if _ _ _ wrapped (IsFrame-trans wrapped (last_active-IsFrame _ l.head_index _)))
      (last_active-IsFrame l l.head_index _)

best_sell-IsFrame : (l : RingPriceLadder) → IsFrame l (best_sell l).0
unfolding best_sell
best_sell-IsFrame l =
    let ahead = first_active-IsFrame l l.head_index (l.capacity - 1) in
    IsFrame-if _ _ _ ahead
      (IsFrame-if _ _ _ (IsFrame-trans ahead (first_active-IsFrame _ 0 (l.head_index - 1))) ahead)

-- Looking for the best level changes no level, and none of the ladder's settings.
pub best_level-IsFrame : (l : RingPriceLadder) → IsFrame l (best_level l).0
unfolding best_level
best_level-IsFrame l =
    IsFrame-if _ _ _ (IsFrame-refl l) (IsFrame-if _ _ _ (best_buy-IsFrame l) (best_sell-IsFrame l))
