-- ===== src/Adapter/Inputs.antt =====
-- include/adapter/EngineAdapter.hpp: the inputs that no order command comes of.
use exchange_engine.Base.{ℕ, ℤ, Option, List}
use exchange_engine.Adapter.{CommandEnvelope, AdapterSide, BrokerRecordContext}

pub record LiquidatePositionInput : Type 0 where
  pub input_id : Option (List ℕ)
  pub envelope : CommandEnvelope
  pub liquidation_id : List ℕ
  pub market_id : ℤ
  pub market_name : List ℕ
  pub liquidated_user_id : ℤ
  pub position_side : AdapterSide
  pub quantity : ℤ
  pub price : ℤ
  pub request_source : Option (List ℕ)
  pub source : Option BrokerRecordContext

pub record MarkPriceUpdatedInput : Type 0 where
  pub input_id : Option (List ℕ)
  pub market_id : ℤ
  pub mark_price : ℤ
  pub index_price : ℤ
  pub source_timestamp_ms : ℤ
  pub published_at_ms : ℤ
  pub valid_until_ms : ℤ
  pub source_sequence : ℤ
  pub source_status : List ℕ
  pub source : Option BrokerRecordContext

pub record FundingRateUpdatedInput : Type 0 where
  pub input_id : Option (List ℕ)
  pub market_id : ℤ
  pub funding_interval_id : List ℕ
  pub rate : ℤ
  pub rate_scale : ℤ
  pub interval_start_ms : ℤ
  pub interval_end_ms : ℤ
  pub source_timestamp_ms : ℤ
  pub source : Option BrokerRecordContext

pub record FundingSettlementTickInput : Type 0 where
  pub input_id : Option (List ℕ)
  pub market_id : ℤ
  pub funding_interval_id : List ℕ
  pub settle_at_ms : ℤ
  pub source : Option BrokerRecordContext
