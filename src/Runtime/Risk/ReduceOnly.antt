-- ===== src/Runtime/Risk/ReduceOnly.antt =====
-- Reduce-only orders.
use exchange_engine.Base.{
  ◌≡◌, refl, subst, Bool, true, false, not, some, arith, if◌then◌else◌, ℤ, pos, negsuc, ◌≤ℤ◌, ◌<ℤ◌,
  ◌+ℤ◌, ◌-ℤ◌, min_ℤ,
}
use exchange_engine.Adapter.{AdapterSide, long, short, PlaceOrderInput}
use exchange_engine.Runtime.Risk.{
  IsolatedPositionState, RiskMap, find_entry, abs_quantity, side_reduces_position, is_zero_quantity,
  key_of_order, check_reduce_only_order, ReduceOnlyCheck, no_position, wrong_side, no_objection,
}

-- The position after a fill of an order.
abbrev pub after_fill : AdapterSide → ℤ → ℤ → ℤ
after_fill long quantity fill = quantity +ℤ fill
after_fill short quantity fill = quantity -ℤ fill

-- No larger, and not on the other side.
abbrev pub Shrinks : ℤ → ℤ → Type 0
Shrinks before after =
    (abs_quantity after ≤ℤ abs_quantity before)
    × (pos 0 <ℤ before → pos 0 ≤ℤ after)
    × (before <ℤ pos 0 → after ≤ℤ pos 0)

pub Shrinks-within :
    (side : AdapterSide) (quantity fill : ℤ)
    → side_reduces_position side quantity ≡ true
    → pos 0 ≤ℤ fill
    → fill ≤ℤ abs_quantity quantity
    → Shrinks quantity (after_fill side quantity fill)
Shrinks-within side quantity (negsuc f) r low high = absurd (omega arith)
Shrinks-within long (pos n) (pos f) r low high = absurd (ground arith)
Shrinks-within long (negsuc n) (pos f) r low high = (ground arith, ground arith, ground arith)
Shrinks-within short (negsuc n) (pos f) r low high = absurd (ground arith)
Shrinks-within short (pos n) (pos f) r low high = (ground arith, ground arith, ground arith)

min_left : (a b : ℤ) → min_ℤ a b ≤ℤ a
min_left a b = ground arith

pub min_right : (a b : ℤ) → min_ℤ a b ≤ℤ b
min_right a b = ground arith

-- The check of a position, by its two tests.
abbrev by_tests : Bool → Bool → ℤ → ReduceOnlyCheck
by_tests z r cap =
    if z
    then record { allowed = false; reason = no_position; capped_quantity = pos 0 }
    else (if not r
        then record { allowed = false; reason = wrong_side; capped_quantity = pos 0 }
        else record { allowed = true; reason = no_objection; capped_quantity = cap })

allowed_by_tests :
    (z r : Bool) (cap : ℤ)
    → (by_tests z r cap).allowed ≡ true
    → (r ≡ true) × ((by_tests z r cap).capped_quantity ≡ cap)
allowed_by_tests true r cap h = cc
allowed_by_tests false true cap h = (refl, refl)
allowed_by_tests false false cap h = cc

at_most : (a b c : ℤ) → a ≤ℤ b → b ≤ℤ c → a ≤ℤ c
at_most a b c h k = omega arith

against :
    (input : PlaceOrderInput) (positions : RiskMap IsolatedPositionState)
    (position : IsolatedPositionState)
    → input.reduce_only ≡ true
    → find_entry (key_of_order input) positions ≡ some position
    → check_reduce_only_order input positions
      ≡ by_tests
          (is_zero_quantity position.signed_quantity)
          (side_reduces_position input.side position.signed_quantity)
          (min_ℤ input.quantity (abs_quantity position.signed_quantity))
unfolding check_reduce_only_order
against input positions position only found = rw (only, found) refl

-- A reduce-only order that passes the check against a position, filled by any amount up to the
-- quantity that the check allows, leaves a position that is no larger and not on the other side, and
-- the amount is at most the quantity of the order.
pub check_reduce_only_order-Shrinks :
    (input : PlaceOrderInput) (positions : RiskMap IsolatedPositionState)
    (position : IsolatedPositionState) (fill : ℤ)
    → input.reduce_only ≡ true
    → find_entry (key_of_order input) positions ≡ some position
    → (check_reduce_only_order input positions).allowed ≡ true
    → pos 0 ≤ℤ fill
    → fill ≤ℤ (check_reduce_only_order input positions).capped_quantity
    → Shrinks position.signed_quantity (after_fill input.side position.signed_quantity fill)
      × (fill ≤ℤ input.quantity)
check_reduce_only_order-Shrinks input positions position fill only found passed low high =
    let q = position.signed_quantity in
    let cap = min_ℤ input.quantity (abs_quantity q) in
    let e = against input positions position only found in
    let (reduces, capped) =
      allowed_by_tests (is_zero_quantity q) (side_reduces_position input.side q) cap
        (subst (λ c. c.allowed ≡ true) e passed) in
    let within : fill ≤ℤ cap =
      subst (λ c. fill ≤ℤ c) capped (subst (λ c. fill ≤ℤ c.capped_quantity) e high) in
    (
      Shrinks-within input.side q fill reduces low
          (at_most fill cap (abs_quantity q) within (min_right input.quantity (abs_quantity q))),
      at_most fill cap input.quantity within (min_left input.quantity (abs_quantity q)),
    )
