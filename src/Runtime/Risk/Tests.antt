-- ===== src/Runtime/Risk/Tests.antt =====
-- Positions at concrete values.
use exchange_engine.Base.{
  ◌<ℤ◌, ℕ, ◌≡◌, refl, true, none, [], ◌∷◌, bytes, ℤ, pos, negsuc, arith, min, ◌≤ℤ◌,
}
use exchange_engine.Adapter.{PlaceOrderInput, CommandEnvelope, long, short, limit_order, immediate}
use exchange_engine.Adapter.Inputs.{LiquidatePositionInput}
use exchange_engine.Runtime.Risk.{
  liquidation_quantity, find_entry, PositionRiskKey, IsolatedPositionState, IsolatedRiskState,
  RiskMap, healthy, liquidatable, check_reduce_only_order, adl_candidates_for, total_adl_available,
  risk_from_position,
}
use exchange_engine.Runtime.Risk.Liquidation.{liquidation_quantity-Shrinks}
use exchange_engine.Runtime.Risk.ReduceOnly.{Shrinks, after_fill, check_reduce_only_order-Shrinks}
use exchange_engine.Runtime.Risk.Deleveraging.{
  AllOf, Eligible, exposure, adl_candidates_for-AllOf, total_adl_available_lem,
}

abbrev position : ℕ → ℤ → IsolatedPositionState
position user quantity = record {
  user_id = pos user;
  market_id = pos 1;
  signed_quantity = quantity;
  average_entry_price = pos 100;
  margin_asset = [];
  isolated_margin = pos 50;
  leverage = pos 10;
  updated_at_ms = pos 0;
}

abbrev entry : ℕ → ℤ → PositionRiskKey × IsolatedPositionState
entry user quantity = (record { user_id = pos user; market_id = pos 1 }, position user quantity)

abbrev positions : RiskMap IsolatedPositionState
positions = entry 1 (negsuc 4) ∷ entry 2 (pos 7) ∷ entry 3 (pos 2) ∷ []

abbrev risk : ℕ → ℤ → IsolatedRiskState
risk user quantity = risk_from_position (position user quantity) (pos 120) (pos 9) none

short_position_liquidatable : (risk 1 (negsuc 4)).status ≡ liquidatable
unfolding risk_from_position
short_position_liquidatable = refl

long_position_healthy : (risk 2 (pos 7)).status ≡ healthy
unfolding risk_from_position
long_position_healthy = refl

abbrev risks : RiskMap IsolatedRiskState
risks =
    (record { user_id = pos 1; market_id = pos 1 }, risk 1 (negsuc 4))
    ∷ (record { user_id = pos 2; market_id = pos 1 }, risk 2 (pos 7))
    ∷ (record { user_id = pos 3; market_id = pos 1 }, risk 3 (pos 2))
    ∷ []

abbrev envelope : CommandEnvelope
envelope = record {
  request_id = bytes "r";
  idempotency_key = bytes "k";
  user_id = pos 1;
  reply_partition = pos 0;
}

abbrev reduce_order : PlaceOrderInput
reduce_order = record {
  input_id = none;
  envelope = envelope;
  order_id = pos 7;
  reservation_id = bytes "v";
  market_id = pos 1;
  market_name = bytes "BTC";
  side = long;
  order_type = limit_order;
  time_in_force = immediate;
  price = pos 100;
  quantity = pos 9;
  reduce_only = true;
  margin_asset = [];
  reserved_margin_amount = pos 0;
  leverage = pos 1;
  source = none;
}

check_reduce_only_order-Shrinks_example :
    Shrinks (negsuc 4) (after_fill long (negsuc 4) (pos 5)) × (pos 5 ≤ℤ pos 9)
unfolding check_reduce_only_order find_entry
check_reduce_only_order-Shrinks_example =
    check_reduce_only_order-Shrinks reduce_order positions (position 1 (negsuc 4)) (pos 5) refl refl
      refl (omega arith) (omega arith)

abbrev liquidation : LiquidatePositionInput
liquidation = record {
  input_id = none;
  envelope = envelope;
  liquidation_id = bytes "l";
  market_id = pos 1;
  market_name = bytes "BTC";
  liquidated_user_id = pos 1;
  position_side = short;
  quantity = pos 5;
  price = pos 0;
  request_source = none;
  source = none;
}

adl_candidates_for-AllOf_example :
    AllOf
      (Eligible liquidation (position 1 (negsuc 4)) positions risks)
      (adl_candidates_for liquidation (position 1 (negsuc 4)) positions risks)
adl_candidates_for-AllOf_example =
    adl_candidates_for-AllOf liquidation (position 1 (negsuc 4)) positions risks

total_adl_available_example :
    total_adl_available
      (adl_candidates_for liquidation (position 1 (negsuc 4)) positions risks)
      (pos 5)
    ≡ pos
        (min 5 (exposure (adl_candidates_for liquidation (position 1 (negsuc 4)) positions risks)))
total_adl_available_example =
    total_adl_available_lem liquidation (position 1 (negsuc 4)) positions risks 5 (omega arith)

liquidation_quantity-Shrinks_example :
    (pos 0 <ℤ liquidation_quantity liquidation (position 2 (pos 7)))
    × Shrinks
        (pos 7)
        (after_fill short (pos 7) (liquidation_quantity liquidation (position 2 (pos 7))))
liquidation_quantity-Shrinks_example =
    liquidation_quantity-Shrinks liquidation (position 2 (pos 7)) refl
