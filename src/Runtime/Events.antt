-- ===== src/Runtime/Events.antt =====
-- The market events that the runtime itself makes: `make_runtime_market_event` and its callers in
-- src/runtime/EngineRuntime.cpp. What the clock returns is an argument.
pub mod Fields
pub mod Read
use exchange_engine.Base.{
  ℕ, Bool, Option, none, some, List, [], ◌∷◌, ◌++◌, bytes, same_text, if◌then◌else◌, ℤ, pos, eqb_ℤ,
}
use exchange_engine.Core.Level.{is_nil}
use exchange_engine.Adapter.{Checked, done, throws, ◌>>=◌, PlaceOrderInput, OrderMetadata}
use exchange_engine.Adapter.Inputs.{LiquidatePositionInput, FundingSettlementTickInput}
use exchange_engine.Adapter.Stores.{MarketSequenceGenerator, next}
use exchange_engine.Runtime.Records.{
  PayloadValue, Values, number_text, text, PayloadFields, InboundEngineRecord, EngineOutputRecord,
}
use exchange_engine.Runtime.Records as Records
use exchange_engine.Runtime.Text.{to_string}
use exchange_engine.Runtime.Risk.{
  RiskStatus, flat, liquidatable, healthy, IsolatedPositionState, IsolatedRiskState, abs_quantity,
  is_positive, is_negative, is_zero_quantity, asset_or_default,
}

-- `payload.emplace(key, value)`
unfoldable pub emplace_field : List ℕ → PayloadValue → PayloadFields → PayloadFields
emplace_field key v [] = (key, v) ∷ []
emplace_field key v ((k, w) ∷ fields) =
    if same_text k key then (k, w) ∷ fields else (k, w) ∷ emplace_field key v fields

unfoldable pub number_value : ℤ → PayloadValue
unfolding to_string
number_value n = number_text (to_string n)

-- A string that is there.
unfoldable pub emplace_text : List ℕ → Option (List ℕ) → PayloadFields → PayloadFields
unfolding emplace_field
emplace_text key none fields = fields
emplace_text key (some s) fields = emplace_field key (text s) fields

abbrev pub filled_or_none : Option (List ℕ) → Option (List ℕ)
filled_or_none none = none
filled_or_none (some s) = if is_nil s then none else some s

unfoldable pub add_runtime_source_fields :
    InboundEngineRecord → Option (List ℕ) → PayloadFields → PayloadFields
unfolding emplace_field to_string
add_runtime_source_fields r input_id fields =
    emplace_field (bytes "source_input_offset") (number_value r.offset) (
      emplace_field (bytes "source_input_partition") (number_value r.partition) (
        emplace_field (bytes "source_input_topic") (text r.topic)
          (emplace_text (bytes "source_input_id") input_id fields)))

-- Under the sequence that the market has next.
unfoldable pub add_runtime_engine_fields : ℤ → ℕ → ℤ → PayloadFields → PayloadFields
unfolding emplace_field to_string
add_runtime_engine_fields market_id sequence now fields =
    emplace_field (bytes "engine_timestamp_ms") (number_value now) (
      emplace_field (bytes "engine_event_id")
        (text (bytes "eng_" ++ (to_string market_id ++ (bytes "_" ++ to_string (pos sequence)))))
        (emplace_field (bytes "engine_sequence") (number_value (pos sequence)) fields))

unfoldable pub market_event_fields :
    ℤ
    → InboundEngineRecord
    → Option (List ℕ)
    → Option (List ℕ)
    → ℕ
    → ℤ
    → PayloadFields
    → PayloadFields
unfolding add_runtime_source_fields add_runtime_engine_fields
market_event_fields market_id r input_id request_id sequence now fields =
    emplace_field (bytes "market_id") (number_value market_id) (
      emplace_text (bytes "request_id") (filled_or_none request_id) (
        add_runtime_source_fields r input_id
          (add_runtime_engine_fields market_id sequence now fields)))

unfoldable pub make_runtime_market_event :
    List ℕ
    → ℤ
    → InboundEngineRecord
    → Option (List ℕ)
    → Option (List ℕ)
    → MarketSequenceGenerator
    → ℤ
    → PayloadFields
    → Checked (EngineOutputRecord × MarketSequenceGenerator)
unfolding next market_event_fields to_string
make_runtime_market_event kind market_id r input_id request_id sequences now payload = do
  (sequence, sequences') ← next sequences market_id
  done (
    record {
      topic = bytes "engine.events";
      kind = kind;
      key = to_string market_id;
      partition = none;
      payload = market_event_fields market_id r input_id request_id sequence now payload;
    },
    sequences',
  )

unfoldable pub position_id_text : ℤ → ℤ → List ℕ
unfolding to_string
position_id_text user_id market_id =
    bytes "pos_" ++ (to_string user_id ++ (bytes "_" ++ to_string market_id))

abbrev pub position_side_text : ℤ → List ℕ
position_side_text quantity =
    if is_positive quantity
    then bytes "LONG"
    else (if is_negative quantity then bytes "SHORT" else bytes "FLAT")

abbrev pub status_text : RiskStatus → List ℕ
status_text flat = bytes "FLAT"
status_text liquidatable = bytes "LIQUIDATABLE"
status_text healthy = bytes "HEALTHY"

-- What a caller adds to the common fields.
abbrev pub Maker : Type 0
Maker = MarketSequenceGenerator → ℤ → Checked (EngineOutputRecord × MarketSequenceGenerator)

abbrev pub released_payload : PlaceOrderInput → ℤ → List ℕ → PayloadFields
released_payload input amount reason =
    (bytes "reservation_id", text input.reservation_id)
    ∷ (bytes "user_id", number_value input.envelope.user_id)
    ∷ (bytes "asset", text (asset_or_default input.margin_asset))
    ∷ (bytes "released_amount", number_value amount)
    ∷ (bytes "reason", text reason)
    ∷ []

unfoldable pub make_reservation_released_event :
    InboundEngineRecord → PlaceOrderInput → ℤ → List ℕ → Maker
unfolding make_runtime_market_event number_value
make_reservation_released_event r input amount reason sequences now =
    make_runtime_market_event (bytes "ReservationReleased") input.market_id r input.input_id
      (some input.envelope.request_id) sequences now (released_payload input amount reason)

abbrev pub expired_payload : OrderMetadata → ℤ → PayloadFields
expired_payload m expired =
    (bytes "order_id", number_value (pos m.order_id))
    ∷ (bytes "reservation_id", text m.reservation_id)
    ∷ (bytes "user_id", number_value m.user_id)
    ∷ (bytes "expired_quantity", number_value expired)
    ∷ (bytes "released_amount", number_value m.remaining_reserved_margin)
    ∷ (bytes "reason", text (bytes "REDUCE_ONLY_REMAINDER"))
    ∷ []

unfoldable pub make_reduce_only_expired_event : InboundEngineRecord → OrderMetadata → ℤ → Maker
unfolding make_runtime_market_event number_value
make_reduce_only_expired_event r m expired sequences now =
    make_runtime_market_event (bytes "OrderExpired") m.market_id r m.place_input_id none sequences
      now (expired_payload m expired)

abbrev pub payments_payload : FundingSettlementTickInput → Values → PayloadFields
payments_payload input payments =
    (bytes "funding_interval_id", text input.funding_interval_id)
    ∷ (bytes "payments", Records.array payments)
    ∷ []

unfoldable pub make_funding_payment_applied_event :
    InboundEngineRecord → FundingSettlementTickInput → Values → Maker
unfolding make_runtime_market_event
make_funding_payment_applied_event r input payments sequences now =
    make_runtime_market_event (bytes "FundingPaymentApplied") input.market_id r input.input_id none
      sequences now (payments_payload input payments)

abbrev pub risk_payload : IsolatedRiskState → PayloadFields
risk_payload risk =
    (bytes "user_id", number_value risk.user_id)
    ∷ (bytes "position_id", text (position_id_text risk.user_id risk.market_id))
    ∷ (bytes "status", text (status_text risk.status))
    ∷ (bytes "signed_quantity", number_value risk.signed_quantity)
    ∷ (bytes "quantity", number_value (abs_quantity risk.signed_quantity))
    ∷ (bytes "average_entry_price", number_value risk.average_entry_price)
    ∷ (bytes "entry_price", number_value risk.average_entry_price)
    ∷ (bytes "mark_price", number_value risk.mark_price)
    ∷ (bytes "isolated_margin", number_value risk.isolated_margin)
    ∷ (bytes "unrealized_pnl", number_value risk.unrealized_pnl)
    ∷ (bytes "equity", number_value risk.equity)
    ∷ (bytes "maintenance_margin", number_value risk.maintenance_margin)
    ∷ (bytes "margin_ratio", number_value risk.margin_ratio)
    ∷ (bytes "margin_asset", text risk.margin_asset)
    ∷ (bytes "leverage", number_value risk.leverage)
    ∷ []

unfoldable pub make_runtime_risk_state_updated_event :
    InboundEngineRecord → Option (List ℕ) → IsolatedRiskState → Maker
unfolding make_runtime_market_event number_value position_id_text
make_runtime_risk_state_updated_event r input_id risk sequences now =
    make_runtime_market_event (bytes "RiskStateUpdated") risk.market_id r input_id none sequences
      now (risk_payload risk)

abbrev pub started_payload :
    LiquidatePositionInput → IsolatedPositionState → IsolatedRiskState → PayloadFields
started_payload input p risk =
    (bytes "liquidation_id", text input.liquidation_id)
    ∷ (bytes "user_id", number_value input.liquidated_user_id)
    ∷ (bytes "position_id", text (position_id_text input.liquidated_user_id input.market_id))
    ∷ (bytes "side", text (position_side_text p.signed_quantity))
    ∷ (bytes "quantity", number_value (abs_quantity p.signed_quantity))
    ∷ (bytes "mark_price", number_value risk.mark_price)
    ∷ (bytes "maintenance_margin", number_value risk.maintenance_margin)
    ∷ (bytes "equity", number_value risk.equity)
    ∷ (bytes "reason", text (bytes "MAINTENANCE_MARGIN_BREACH"))
    ∷ []

unfoldable pub make_liquidation_started_event :
    InboundEngineRecord → LiquidatePositionInput → IsolatedPositionState → IsolatedRiskState → Maker
unfolding make_runtime_market_event number_value position_id_text
make_liquidation_started_event r input p risk sequences now =
    make_runtime_market_event (bytes "LiquidationStarted") input.market_id r input.input_id
      (some input.envelope.request_id) sequences now (started_payload input p risk)

abbrev pub completed_payload : LiquidatePositionInput → ℤ → PayloadFields
completed_payload input remaining =
    (bytes "liquidation_id", text input.liquidation_id)
    ∷ (bytes "user_id", number_value input.liquidated_user_id)
    ∷ (bytes "position_id", text (position_id_text input.liquidated_user_id input.market_id))
    ∷ (
      bytes "final_status",
      text (if is_zero_quantity remaining then bytes "FLAT" else bytes "PARTIAL"),
    )
    ∷ (bytes "remaining_quantity", number_value remaining)
    ∷ (bytes "insurance_fund_delta", number_value (pos 0))
    ∷ (bytes "bad_debt", number_value (pos 0))
    ∷ []

unfoldable pub make_liquidation_completed_event :
    InboundEngineRecord → LiquidatePositionInput → ℤ → Maker
unfolding make_runtime_market_event number_value position_id_text
make_liquidation_completed_event r input remaining sequences now =
    make_runtime_market_event (bytes "LiquidationCompleted") input.market_id r input.input_id
      (some input.envelope.request_id) sequences now (completed_payload input remaining)
