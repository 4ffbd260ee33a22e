-- ===== src/Runtime/Risk.antt =====
-- Positions and their risk: the anonymous functions of src/runtime/EngineRuntime.cpp on the states of
-- include/runtime/EngineEventTranslator.hpp. Integers are those of int64_t without overflow.
pub mod ReduceOnly
pub mod Deleveraging
pub mod Liquidation
pub mod Tests
use exchange_engine.Base.{
  ℕ, ◌*◌, Bool, true, false, not, ◌&&◌, ◌||◌, Option, none, some, List, [], ◌∷◌, bytes,
  if◌then◌else◌, ℤ, pos, ltb_ℤ, leb_ℤ, eqb_ℤ, neg_ℤ, ◌+ℤ◌, ◌-ℤ◌, ◌*ℤ◌, div_ℤ, min_ℤ, is_some,
}
use exchange_engine.Core.Level.{is_nil}
use exchange_engine.Core.OrderBook.Liquidity.{sort_by}
use exchange_engine.Adapter.{AdapterSide, long, short, PlaceOrderInput}
use exchange_engine.Adapter.Inputs.{
  LiquidatePositionInput, MarkPriceUpdatedInput, FundingRateUpdatedInput,
}

pub record PositionRiskKey : Type 0 where
  pub user_id : ℤ
  pub market_id : ℤ

abbrev pub same_key : PositionRiskKey → PositionRiskKey → Bool
same_key a b = eqb_ℤ a.user_id b.user_id && eqb_ℤ a.market_id b.market_id

pub record IsolatedPositionState : Type 0 where
  pub user_id : ℤ
  pub market_id : ℤ
  pub signed_quantity : ℤ
  pub average_entry_price : ℤ
  pub margin_asset : List ℕ
  pub isolated_margin : ℤ
  pub leverage : ℤ
  pub updated_at_ms : ℤ

pub data RiskStatus : Type 0 where
  flat liquidatable healthy : RiskStatus

pub record IsolatedRiskState : Type 0 where
  pub user_id : ℤ
  pub market_id : ℤ
  pub status : RiskStatus
  pub margin_asset : List ℕ
  pub signed_quantity : ℤ
  pub average_entry_price : ℤ
  pub mark_price : ℤ
  pub isolated_margin : ℤ
  pub unrealized_pnl : ℤ
  pub equity : ℤ
  pub maintenance_margin : ℤ
  pub margin_ratio : ℤ
  pub leverage : ℤ
  pub updated_at_ms : ℤ

pub record MarkPriceState : Type 0 where
  pub market_id : ℤ
  pub mark_price : ℤ
  pub index_price : ℤ
  pub source_timestamp_ms : ℤ
  pub published_at_ms : ℤ
  pub valid_until_ms : ℤ
  pub source_sequence : ℤ
  pub source_status : List ℕ

pub record FundingRateState : Type 0 where
  pub market_id : ℤ
  pub funding_interval_id : List ℕ
  pub rate : ℤ
  pub rate_scale : ℤ
  pub interval_start_ms : ℤ
  pub interval_end_ms : ℤ
  pub source_timestamp_ms : ℤ

-- `std::map<PositionRiskKey, V>`: the entries by rising key.
abbrev pub RiskMap {ℓ} : Type ℓ → Type ℓ
RiskMap V = List (PositionRiskKey × V)

unfoldable pub find_entry {ℓ} : {V : Type ℓ} → PositionRiskKey → RiskMap V → Option V
find_entry key [] = none
find_entry key ((k, v) ∷ entries) = if same_key k key then some v else find_entry key entries

abbrev pub mark_state_from_input : MarkPriceUpdatedInput → MarkPriceState
mark_state_from_input i = record {
  market_id = i.market_id;
  mark_price = i.mark_price;
  index_price = i.index_price;
  source_timestamp_ms = i.source_timestamp_ms;
  published_at_ms = i.published_at_ms;
  valid_until_ms = i.valid_until_ms;
  source_sequence = i.source_sequence;
  source_status = i.source_status;
}

abbrev pub funding_rate_state_from_input : FundingRateUpdatedInput → FundingRateState
funding_rate_state_from_input i = record {
  market_id = i.market_id;
  funding_interval_id = i.funding_interval_id;
  rate = i.rate;
  rate_scale = i.rate_scale;
  interval_start_ms = i.interval_start_ms;
  interval_end_ms = i.interval_end_ms;
  source_timestamp_ms = i.source_timestamp_ms;
}

abbrev pub is_negative : ℤ → Bool
is_negative n = ltb_ℤ n (pos 0)

abbrev pub is_positive : ℤ → Bool
is_positive n = ltb_ℤ (pos 0) n

abbrev pub is_zero_quantity : ℤ → Bool
is_zero_quantity n = eqb_ℤ n (pos 0)

abbrev pub abs_quantity : ℤ → ℤ
abs_quantity n = if is_negative n then neg_ℤ n else n

abbrev pub side_reduces_position : AdapterSide → ℤ → Bool
side_reduces_position long quantity = is_negative quantity
side_reduces_position short quantity = is_positive quantity

abbrev pub side_matches_position : AdapterSide → ℤ → Bool
side_matches_position long quantity = is_positive quantity
side_matches_position short quantity = is_negative quantity

abbrev pub liquidation_order_side : ℤ → AdapterSide
liquidation_order_side quantity = if is_positive quantity then short else long

unfoldable pub liquidation_quantity : LiquidatePositionInput → IsolatedPositionState → ℤ
liquidation_quantity input position =
    if leb_ℤ input.quantity (pos 0)
    then abs_quantity position.signed_quantity
    else min_ℤ input.quantity (abs_quantity position.signed_quantity)

abbrev pub maintenance_margin_for : ℤ → ℤ → ℤ
maintenance_margin_for quantity price = div_ℤ (abs_quantity quantity *ℤ price) (pos 20)

abbrev pub margin_ratio_for : ℤ → ℤ → ℤ
margin_ratio_for equity margin =
    if is_zero_quantity margin then pos 0 else div_ℤ (equity *ℤ pos 10000) margin

abbrev pub notional_for : ℤ → ℤ → ℤ
notional_for quantity price = abs_quantity quantity *ℤ price

abbrev pub risk_status_for : ℤ → ℤ → ℤ → RiskStatus
risk_status_for quantity equity margin =
    if is_zero_quantity quantity
    then flat
    else (if leb_ℤ equity margin then liquidatable else healthy)

abbrev pub asset_or_default : List ℕ → List ℕ
asset_or_default asset = if is_nil asset then bytes "USDC" else asset

abbrev pub equity_adjustment : Option IsolatedRiskState → ℤ
equity_adjustment none = pos 0
equity_adjustment (some r) = r.equity -ℤ (r.isolated_margin +ℤ r.unrealized_pnl)

unfoldable pub risk_from_position :
    IsolatedPositionState → ℤ → ℤ → Option IsolatedRiskState → IsolatedRiskState
risk_from_position p mark_price updated_at_ms previous =
    let pnl = (mark_price -ℤ p.average_entry_price) *ℤ p.signed_quantity in
    let margin = maintenance_margin_for p.signed_quantity mark_price in
    let equity = p.isolated_margin +ℤ pnl +ℤ equity_adjustment previous in
    record {
      user_id = p.user_id;
      market_id = p.market_id;
      status = risk_status_for p.signed_quantity equity margin;
      margin_asset = asset_or_default p.margin_asset;
      signed_quantity = p.signed_quantity;
      average_entry_price = p.average_entry_price;
      mark_price = mark_price;
      isolated_margin = p.isolated_margin;
      unrealized_pnl = pnl;
      equity = equity;
      maintenance_margin = margin;
      margin_ratio = margin_ratio_for equity margin;
      leverage = p.leverage;
      updated_at_ms = updated_at_ms;
    }

-- The reasons of a refused reduce-only order.
pub data ReduceOnlyReason : Type 0 where
  no_objection no_position wrong_side : ReduceOnlyReason

pub record ReduceOnlyCheck : Type 0 where
  pub allowed : Bool
  pub reason : ReduceOnlyReason
  pub capped_quantity : ℤ

-- The position that a reduce-only order is checked against.
abbrev pub reduce_only_of : PlaceOrderInput → Option IsolatedPositionState → ReduceOnlyCheck
reduce_only_of input none = record {
  allowed = false;
  reason = no_position;
  capped_quantity = pos 0;
}
reduce_only_of input (some p) =
    if is_zero_quantity p.signed_quantity
    then record { allowed = false; reason = no_position; capped_quantity = pos 0 }
    else (if not (side_reduces_position input.side p.signed_quantity)
        then record { allowed = false; reason = wrong_side; capped_quantity = pos 0 }
        else record {
          allowed = true;
          reason = no_objection;
          capped_quantity = min_ℤ input.quantity (abs_quantity p.signed_quantity);
        })

abbrev pub key_of_order : PlaceOrderInput → PositionRiskKey
key_of_order input = record { user_id = input.envelope.user_id; market_id = input.market_id }

unfoldable pub check_reduce_only_order :
    PlaceOrderInput → RiskMap IsolatedPositionState → ReduceOnlyCheck
unfolding find_entry
check_reduce_only_order input positions =
    if not input.reduce_only
    then record { allowed = true; reason = no_objection; capped_quantity = input.quantity }
    else reduce_only_of input (find_entry (key_of_order input) positions)

pub record AdlCandidate : Type 0 where
  pub key : PositionRiskKey
  pub position : IsolatedPositionState
  pub available_quantity : ℤ
  pub unrealized_pnl : ℤ
  pub leverage : ℤ
  pub margin_ratio : ℤ

abbrev pub has_opposing_exposure : ℤ → ℤ → Bool
has_opposing_exposure liquidated candidate =
    (is_positive liquidated && is_negative candidate)
    || (is_negative liquidated && is_positive candidate)

abbrev pub candidate_of : PositionRiskKey → IsolatedPositionState → IsolatedRiskState → AdlCandidate
candidate_of key p r = record {
  key = key;
  position = p;
  available_quantity = abs_quantity p.signed_quantity;
  unrealized_pnl = r.unrealized_pnl;
  leverage = r.leverage;
  margin_ratio = r.margin_ratio;
}

-- The entry of the loop, before its risk is looked up.
abbrev pub is_excluded :
    LiquidatePositionInput → IsolatedPositionState → PositionRiskKey → IsolatedPositionState → Bool
is_excluded input liquidated key p =
    not (eqb_ℤ key.market_id input.market_id)
    || (eqb_ℤ key.user_id input.liquidated_user_id
        || (is_zero_quantity p.signed_quantity
            || not (has_opposing_exposure liquidated.signed_quantity p.signed_quantity)))

-- A risk that makes a candidate.
abbrev pub in_profit :
    PositionRiskKey → IsolatedPositionState → Option IsolatedRiskState → Option AdlCandidate
in_profit key p none = none
in_profit key p (some r) =
    if leb_ℤ r.unrealized_pnl (pos 0) then none else some (candidate_of key p r)

abbrev pub adl_candidate :
    LiquidatePositionInput
    → IsolatedPositionState
    → RiskMap IsolatedRiskState
    → PositionRiskKey
    → IsolatedPositionState
    → Option AdlCandidate
adl_candidate input liquidated risks key p =
    if is_excluded input liquidated key p then none else in_profit key p (find_entry key risks)

abbrev pub push_some {ℓ} : {A : Type ℓ} → Option A → List A → List A
push_some none xs = xs
push_some (some x) xs = x ∷ xs

-- The loop over the positions, in their order.
unfoldable pub collect_candidates :
    LiquidatePositionInput
    → IsolatedPositionState
    → RiskMap IsolatedRiskState
    → RiskMap IsolatedPositionState
    → List AdlCandidate
unfolding find_entry
collect_candidates input liquidated risks [] = []
collect_candidates input liquidated risks ((key, p) ∷ positions) =
    push_some (adl_candidate input liquidated risks key p)
      (collect_candidates input liquidated risks positions)

-- The comparator of the candidates.
abbrev pub ranks_before : AdlCandidate → AdlCandidate → Bool
ranks_before a b =
    if not (eqb_ℤ a.unrealized_pnl b.unrealized_pnl)
    then ltb_ℤ b.unrealized_pnl a.unrealized_pnl
    else (if not (eqb_ℤ a.leverage b.leverage)
        then ltb_ℤ b.leverage a.leverage
        else (if not (eqb_ℤ a.margin_ratio b.margin_ratio)
            then ltb_ℤ a.margin_ratio b.margin_ratio
            else (if not (eqb_ℤ a.available_quantity b.available_quantity)
                then ltb_ℤ b.available_quantity a.available_quantity
                else ltb_ℤ a.key.user_id b.key.user_id)))

unfoldable pub adl_candidates_for :
    LiquidatePositionInput
    → IsolatedPositionState
    → RiskMap IsolatedPositionState
    → RiskMap IsolatedRiskState
    → List AdlCandidate
unfolding collect_candidates sort_by
adl_candidates_for input liquidated positions risks =
    sort_by ranks_before (collect_candidates input liquidated risks positions)

-- The loop of `total_adl_available`, with its running total.
unfoldable pub adl_available : ℤ → ℤ → List AdlCandidate → ℤ
adl_available limit available [] = available
adl_available limit available (c ∷ cs) =
    let available' = available +ℤ c.available_quantity in
    let rest = adl_available limit available' cs in if leb_ℤ limit available' then limit else rest

unfoldable pub total_adl_available : List AdlCandidate → ℤ → ℤ
unfolding adl_available
total_adl_available candidates limit = adl_available limit (pos 0) candidates
