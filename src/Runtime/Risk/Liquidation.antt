-- ===== src/Runtime/Risk/Liquidation.antt =====
-- The order of a liquidation.
use exchange_engine.Base.{
  ◌≡◌, true, false, inl, inr, Bool-cases, arith, ℤ, pos, negsuc, ◌≤ℤ◌, ◌<ℤ◌, leb_ℤ, min_ℤ,
}
use exchange_engine.Adapter.Inputs.{LiquidatePositionInput}
use exchange_engine.Runtime.Risk.{
  IsolatedPositionState, abs_quantity, is_zero_quantity, side_reduces_position,
  liquidation_order_side, liquidation_quantity,
}
use exchange_engine.Runtime.Risk.ReduceOnly.{Shrinks, after_fill, Shrinks-within, min_right}

liquidation_side_reduces :
    (q : ℤ) → is_zero_quantity q ≡ false → side_reduces_position (liquidation_order_side q) q ≡ true
liquidation_side_reduces (negsuc n) h = ground arith
liquidation_side_reduces (pos n) h = ground arith

positive_abs : (q : ℤ) → is_zero_quantity q ≡ false → pos 0 <ℤ abs_quantity q
positive_abs (pos n) h = ground arith
positive_abs (negsuc n) h = ground arith

min_positive : (a b : ℤ) → pos 0 <ℤ a → pos 0 <ℤ b → pos 0 <ℤ min_ℤ a b
min_positive a b h k = ground arith

quantity_bounds :
    (input : LiquidatePositionInput) (p : IsolatedPositionState)
    → is_zero_quantity p.signed_quantity ≡ false
    → (pos 0 <ℤ liquidation_quantity input p)
      × (liquidation_quantity input p ≤ℤ abs_quantity p.signed_quantity)
unfolding liquidation_quantity
quantity_bounds input p h = elim (Bool-cases (leb_ℤ input.quantity (pos 0))) [
  | inl e ↦ rw e (positive_abs p.signed_quantity h, omega arith)
  | inr e ↦ rw e (
    min_positive input.quantity (abs_quantity p.signed_quantity) (above input.quantity e)
        (positive_abs p.signed_quantity h),
    min_right input.quantity (abs_quantity p.signed_quantity),
  )
]
  where
    above : (n : ℤ) → leb_ℤ n (pos 0) ≡ false → pos 0 <ℤ n
    above n e = ground arith

-- The order that liquidates an open position is for a positive quantity, and filled whole it leaves a
-- position that is no larger and not on the other side, whatever quantity the request names.
pub liquidation_quantity-Shrinks :
    (input : LiquidatePositionInput) (p : IsolatedPositionState)
    → is_zero_quantity p.signed_quantity ≡ false
    → (pos 0 <ℤ liquidation_quantity input p)
      × Shrinks p.signed_quantity (
          after_fill
            (liquidation_order_side p.signed_quantity)
            p.signed_quantity
            (liquidation_quantity input p))
liquidation_quantity-Shrinks input p h =
    let (low, high) = quantity_bounds input p h in
    (
      low,
      Shrinks-within (liquidation_order_side p.signed_quantity) p.signed_quantity
          (liquidation_quantity input p) (liquidation_side_reduces p.signed_quantity h)
          (weaken (liquidation_quantity input p) low) high,
    )
  where
    weaken : (n : ℤ) → pos 0 <ℤ n → pos 0 ≤ℤ n
    weaken n k = omega arith
