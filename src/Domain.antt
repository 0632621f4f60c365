-- ===== src/Domain.antt =====
-- src/crypto_agent/domain.py: the data that the components exchange.
-- A field whose type the code checks by itself holds any `Value`; every other field holds what its
-- annotation says.
use agent_crypto.Base.{String, Bool, Option, List}
use agent_crypto.Numbers.{Value}
use agent_crypto.Clock.{Datetime}

pub data Decision : Type 0 where
  no_signal alert : Decision

pub data Regime : Type 0 where
  unknown range trend_up trend_down high_volatility : Regime

pub data MetricStatus : Type 0 where
  available unavailable invalid not_applicable : MetricStatus

pub data SessionStatus : Type 0 where
  open_session closed_session halted_session : SessionStatus

pub record Candle (N : Type 0) : Type 0 where
  pub symbol : String
  pub interval_minutes : Value N
  pub open_time : Datetime
  pub close_time : Datetime
  pub open_price : Value N
  pub high : Value N
  pub low : Value N
  pub close : Value N
  pub volume : Value N
  pub source : String
  pub available_at : Datetime
  pub ingested_at : Datetime

pub record ReferencePriceObservation (N : Type 0) : Type 0 where
  pub symbol : String
  pub price : Value N
  pub event_time : Datetime
  pub available_at : Datetime
  pub ingested_at : Datetime
  pub source : String

pub record ReferencePriceSnapshot (N : Type 0) : Type 0 where
  pub symbol : String
  pub observations : List (ReferencePriceObservation N)

pub record OrderBookLevel (N : Type 0) : Type 0 where
  pub level : Value N
  pub price : Value N
  pub quantity : Value N

pub record BasisReference (N : Type 0) : Type 0 where
  pub symbol : String
  pub reference_type : String
  pub source : String
  pub price : Value N
  pub observed_at : Datetime
  pub available_at : Datetime
  pub ingested_at : Datetime

pub record ContractTransitionEvidence (N : Type 0) : Type 0 where
  pub from_contract_id : String
  pub to_contract_id : String
  pub price_type : String
  pub from_price : Value N
  pub to_price : Value N
  pub source : String
  pub observed_at : Datetime
  pub available_at : Datetime
  pub ingested_at : Datetime

pub record FuturesEvidence (N : Type 0) : Type 0 where
  pub contract_id : String
  pub source : String
  pub session_status : SessionStatus
  pub is_full_snapshot : Bool
  pub observed_at : Datetime
  pub available_at : Datetime
  pub ingested_at : Datetime
  pub bids : List (OrderBookLevel N)
  pub asks : List (OrderBookLevel N)
  pub basis_reference : BasisReference N
  pub contract_transition : Option (ContractTransitionEvidence N)

pub record DataQualityReport (N : Type 0) : Type 0 where
  pub score : Value N
  pub sample_count : Value N
  pub flags : List String
  pub critical_flags : List String
  pub newest_observed_at : Option Datetime
  pub newest_available_at : Option Datetime

pub record MarketMetrics (N : Type 0) : Type 0 where
  pub last_price : Value N
  pub period_return : Value N
  pub return_7_periods : Value N
  pub annualized_volatility : Value N
  pub max_drawdown : Value N
  pub sma_20 : Value N
  pub sma_50 : Value N
  pub volume_zscore : Value N
  pub regime : Regime

pub record FuturesMetrics (N : Type 0) : Type 0 where
  pub volume_status : MetricStatus
  pub volume_zscore : Option N
  pub relative_volume : Option N
  pub spread_status : MetricStatus
  pub spread_bps : Option N
  pub depth_status : MetricStatus
  pub bid_depth : Option N
  pub ask_depth : Option N
  pub book_imbalance : Option N
  pub basis_status : MetricStatus
  pub basis_bps : Option N
  pub annualized_basis : Option N
  pub lifecycle_status : MetricStatus
  pub seconds_to_roll : Option N
  pub seconds_to_expiry : Option N
  pub expiry_risk : Option String
  pub roll_impact_status : MetricStatus
  pub roll_impact_bps : Option N
  pub session_status : Option SessionStatus
  pub flags : List String

-- A reason of the gate: a fixed text, or one that shows the symbol or the interval.
pub data Reason (N : Type 0) : Type 0 where
  plain : String → Reason N
  -- f"Asset {symbol} is outside the V1 allowlist."
  asset_outside : String → Reason N
  -- f"Interval {interval_minutes} is outside the V1 allowlist."
  interval_outside : Value N → Reason N

pub record RiskAssessment (N : Type 0) : Type 0 where
  pub assessment_id : String
  pub policy_id : Value N
  pub policy_hash : String
  pub as_of : Datetime
  pub expires_at : Datetime
  pub input_fingerprint_sha256 : String
  pub decision : Decision
  pub vetoed : Bool
  pub flags : List String
  pub reasons : List (Reason N)
