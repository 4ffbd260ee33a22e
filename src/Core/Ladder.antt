-- ===== src/Core/Ladder.antt =====
-- include/core/RingPriceLadder.hpp and src/core/RingPriceLadder.cpp: the levels near the base tick,
-- in an array with a bitmap of the slots in use. A 64-bit word of the bitmap is the list of its
-- bits, the lowest first; a level is named by its slot.
pub mod Frame
pub mod Consistent
pub mod Operations
pub mod Scan
pub mod Masks
pub mod Search
pub mod Best
use exchange_engine.Base.{
  ℕ, zero, suc, ◌+◌, ◌-◌, ◌*◌, ◌/◌, ◌%◌, ◌^◌, Bool, true, false, ◌||◌, Option, none, some, List, [],
  ◌∷◌, ltb, leb, ◌==◌, if◌then◌else◌, is_some, get_or, set, replicate, ℤ, ltb_ℤ, diff_u64,
}
use exchange_engine.Core.FixedPoint.{Price}
use exchange_engine.Core.Types.{Side, is_buy, price_to_ladder_tick}
use exchange_engine.Core.Level.{PriceLevel, new_level, empty, is_nil}

abbrev pub Word : Type 0
Word = List Bool

abbrev pub word_bits : ℕ
word_bits = 64

abbrev pub zero_word : Word
zero_word = replicate word_bits false

pub record RingPriceLadder : Type 0 where
  pub side : Side
  pub tick_size_ticks : ℤ
  pub base_tick : ℤ
  pub head_index : ℕ
  pub capacity : ℕ
  pub slots : List (Option PriceLevel)
  pub active_slot_bitmap : List Word

abbrev pub bitmap_word_count : ℕ → ℕ
bitmap_word_count capacity = (capacity + word_bits - 1) % 2 ^ 64 / word_bits

unfoldable pub init : Side → ℤ → ℤ → ℕ → RingPriceLadder
init side tick_size base_tick capacity = record {
  side = side;
  tick_size_ticks = tick_size;
  base_tick = base_tick;
  head_index = 0;
  capacity = capacity;
  slots = replicate capacity none;
  active_slot_bitmap = replicate (bitmap_word_count capacity) zero_word;
}

unfoldable pub contains_tick : RingPriceLadder → ℤ → Bool
contains_tick l tick =
    if l.capacity == 0
    then false
    else (if ltb_ℤ tick l.base_tick then false else ltb (diff_u64 tick l.base_tick) l.capacity)

unfoldable pub price_tick_to_slot : RingPriceLadder → ℤ → ℕ
price_tick_to_slot l tick = (l.head_index + diff_u64 tick l.base_tick) % 2 ^ 64 % l.capacity

-- `slots[slot].get()`
abbrev pub slot_level : RingPriceLadder → ℕ → Option PriceLevel
slot_level l slot = get_or l.slots slot none

abbrev pub set_slot : RingPriceLadder → ℕ → Option PriceLevel → RingPriceLadder
set_slot l slot v = record l { slots = set l.slots slot v }

abbrev pub bit_at : List Word → ℕ → Bool
bit_at bitmap slot = get_or (get_or bitmap (slot / word_bits) zero_word) (slot % word_bits) false

abbrev pub set_bit : List Word → ℕ → Bool → List Word
set_bit bitmap slot v =
    set bitmap (slot / word_bits)
      (set (get_or bitmap (slot / word_bits) zero_word) (slot % word_bits) v)

unfoldable pub mark_active : RingPriceLadder → ℕ → RingPriceLadder
mark_active l slot =
    if leb l.capacity slot
    then l
    else record l { active_slot_bitmap = set_bit l.active_slot_bitmap slot true }

unfoldable pub mark_inactive : RingPriceLadder → ℕ → RingPriceLadder
mark_inactive l slot =
    if leb l.capacity slot
    then l
    else record l { active_slot_bitmap = set_bit l.active_slot_bitmap slot false }

unfoldable pub clear_slot : RingPriceLadder → ℕ → RingPriceLadder
unfolding mark_inactive
clear_slot l slot = if leb l.capacity slot then l else mark_inactive (set_slot l slot none) slot

-- The slot of a price inside the ladder.
unfoldable pub slot_of_price : RingPriceLadder → Price → Option ℕ
slot_of_price l p =
    if l.capacity == 0
    then none
    else (if contains_tick l (price_to_ladder_tick p l.tick_size_ticks)
        then some (price_tick_to_slot l (price_to_ladder_tick p l.tick_size_ticks))
        else none)

-- The slot of the level, if there is one.
unfoldable pub get_level : RingPriceLadder → Price → Option ℕ
get_level l p = elim (slot_of_price l p) [
  | none ↦ none
  | some slot ↦ if is_some (slot_level l slot) then some slot else none
]

unfoldable pub ensure_level : RingPriceLadder → ℕ → Price → RingPriceLadder
ensure_level l slot p =
    if is_some (slot_level l slot) then l else set_slot l slot (some (new_level p))

unfoldable pub get_or_create_level : RingPriceLadder → Price → RingPriceLadder × Option ℕ
get_or_create_level l p = elim (slot_of_price l p) [
  | none ↦ (l, none)
  | some slot ↦ (mark_active (ensure_level l slot p) slot, some slot)
]

-- `level->empty() || level->totalQuantity.is_zero()`
abbrev pub is_spent : PriceLevel → Bool
is_spent v = empty v || v.total_quantity == 0

unfoldable pub remove_at : RingPriceLadder → ℕ → Option PriceLevel → RingPriceLadder
remove_at l slot none = mark_inactive l slot
remove_at l slot (some v) = if is_spent v then clear_slot l slot else l

unfoldable pub remove_level_if_empty : RingPriceLadder → Price → RingPriceLadder
unfolding remove_at
remove_level_if_empty l p = elim (slot_of_price l p) [
  | none ↦ l
  | some slot ↦ remove_at l slot (slot_level l slot)
]

-- `bits &= ~0ULL << k`
abbrev pub clear_below : ℕ → Word → Word
clear_below zero w = w
clear_below (suc k) [] = []
clear_below (suc k) (b ∷ w) = false ∷ clear_below k w

abbrev pub cleared : Word → Word
cleared [] = []
cleared (b ∷ w) = false ∷ cleared w

-- `bits &= bits_through(k)`
abbrev pub keep_through : ℕ → Word → Word
keep_through k [] = []
keep_through zero (b ∷ w) = b ∷ cleared w
keep_through (suc k) (b ∷ w) = b ∷ keep_through k w

unfoldable pub masked : RingPriceLadder → ℕ → ℕ → ℕ → Word
masked l first last word =
    let bits = get_or l.active_slot_bitmap word zero_word in
    let low = if word == first / word_bits then clear_below (first % word_bits) bits else bits in
    if word == last / word_bits then keep_through (last % word_bits) low else low

-- What the scans do at a bit that is set.
unfoldable pub check_slot : RingPriceLadder → ℕ → RingPriceLadder × Option ℕ
check_slot l slot =
    if ltb slot l.capacity
    then (if is_some (slot_level l slot) then (l, some slot) else (mark_inactive l slot, none))
    else (l, none)

-- `while (bits != 0)` from the lowest bit up, at the slots from `slot` on.
unfoldable pub scan_bits_up : RingPriceLadder → ℕ → Word → RingPriceLadder × Option ℕ
scan_bits_up l slot [] = (l, none)
scan_bits_up l slot (false ∷ bits) = scan_bits_up l (slot + 1) bits
scan_bits_up l slot (true ∷ bits) =
    let rest = scan_bits_up (check_slot l slot).0 (slot + 1) bits in
    if is_some (check_slot l slot).1 then check_slot l slot else rest

-- The same from the highest bit down.
unfoldable pub scan_bits_down : RingPriceLadder → ℕ → Word → RingPriceLadder × Option ℕ
scan_bits_down l slot [] = (l, none)
scan_bits_down l slot (b ∷ bits) =
    let above = scan_bits_down l (slot + 1) bits in
    if is_some above.1 then above else (if b then check_slot above.0 slot else (above.0, none))

-- The loops over `n` words, from `word` up and from `word + n - 1` down.
unfoldable pub scan_words_up : RingPriceLadder → ℕ → ℕ → ℕ → ℕ → RingPriceLadder × Option ℕ
scan_words_up l first last word zero = (l, none)
scan_words_up l first last word (suc n) =
    let here = scan_bits_up l (word * word_bits) (masked l first last word) in
    let rest = scan_words_up here.0 first last (word + 1) n in if is_some here.1 then here else rest

unfoldable pub scan_words_down : RingPriceLadder → ℕ → ℕ → ℕ → ℕ → RingPriceLadder × Option ℕ
scan_words_down l first last word zero = (l, none)
scan_words_down l first last word (suc n) =
    let here = scan_bits_down l ((word + n) * word_bits) (masked l first last (word + n)) in
    let rest = scan_words_down here.0 first last word n in if is_some here.1 then here else rest

unfoldable pub first_active_level_in_range : RingPriceLadder → ℕ → ℕ → RingPriceLadder × Option ℕ
first_active_level_in_range l first last =
    if ltb last first || is_nil l.active_slot_bitmap
    then (l, none)
    else scan_words_up l first last (first / word_bits) (last / word_bits + 1 - first / word_bits)

unfoldable pub last_active_level_in_range : RingPriceLadder → ℕ → ℕ → RingPriceLadder × Option ℕ
last_active_level_in_range l first last =
    if ltb last first || is_nil l.active_slot_bitmap
    then (l, none)
    else scan_words_down l first last (first / word_bits) (last / word_bits + 1 - first / word_bits)

unfoldable pub best_buy : RingPriceLadder → RingPriceLadder × Option ℕ
best_buy l =
    if ltb 0 l.head_index
    then (let wrapped = last_active_level_in_range l 0 (l.head_index - 1) in
        if is_some wrapped.1
        then wrapped
        else last_active_level_in_range wrapped.0 l.head_index (l.capacity - 1))
    else last_active_level_in_range l l.head_index (l.capacity - 1)

unfoldable pub best_sell : RingPriceLadder → RingPriceLadder × Option ℕ
best_sell l =
    let ahead = first_active_level_in_range l l.head_index (l.capacity - 1) in
    if is_some ahead.1
    then ahead
    else (if ltb 0 l.head_index
        then first_active_level_in_range ahead.0 0 (l.head_index - 1)
        else (ahead.0, none))

unfoldable pub advance_best_after_empty : RingPriceLadder → RingPriceLadder × Option ℕ
unfolding best_buy best_sell
advance_best_after_empty l =
    if l.capacity == 0 then (l, none) else (if is_buy l.side then best_buy l else best_sell l)

unfoldable pub best_level : RingPriceLadder → RingPriceLadder × Option ℕ
unfolding advance_best_after_empty
best_level l = advance_best_after_empty l
