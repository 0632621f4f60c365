-- ===== src/Samples.antt =====
-- Sample policies and inputs on concrete numbers: the policies are those of configs/.
use agent_crypto.Base.{ℕ, ◌+◌, true, false, none, some, List, [], ◌∷◌, pos}
use agent_crypto.Numbers.{Value, absent, boolean, number, text}
use agent_crypto.Numbers.Sample.{Decimal, int, fixed, decimals}
use agent_crypto.Clock.{Datetime, utc, seconds}
use agent_crypto.Domain.{
  alert, high_volatility, open_session, Candle, ReferencePriceObservation, ReferencePriceSnapshot,
  OrderBookLevel, ContractTransitionEvidence, FuturesEvidence, MarketMetrics,
}
use agent_crypto.Policy.{RiskPolicy}
use agent_crypto.Gate.{Request}
use agent_crypto.Futures.Policy.{FuturesAnalysisPolicy}
use agent_crypto.Futures.Lifecycle.{Contract, Parser, moment}

abbrev pub whole_value : ℕ → Value Decimal
whole_value n = number (int (pos n))

-- Ten-thousandths.
abbrev pub part_value : ℕ → Value Decimal
part_value n = number (fixed (pos n))

-- configs/risk_policy.v1.json
abbrev pub v1_policy : RiskPolicy Decimal
v1_policy = record {
  policy_id = text "v1-read-only-plus500-t4-2026-08-11";
  policy_schema_version = whole_value 3;
  mode = text "V1_READ_ONLY";
  execution_enabled = boolean false;
  allowed_decisions = text "NO_SIGNAL" ∷ text "ALERT" ∷ [];
  allowed_assets = text "BTC/USD" ∷ text "ETH/USD" ∷ [];
  allowed_intervals_minutes = whole_value 240 ∷ whole_value 1440 ∷ whole_value 10080 ∷ [];
  min_samples = whole_value 60;
  min_data_quality = part_value 8500;
  max_staleness_multiplier = part_value 12500;
  max_reference_price_age_seconds = whole_value 300;
  max_gap_multiplier = part_value 15000;
  max_annualized_volatility = part_value 12000;
  max_absolute_period_return = part_value 2000;
  report_ttl_seconds = whole_value 3600;
  max_clock_skew_seconds = whole_value 30;
  required_source_count = whole_value 1;
  required_history_candles = whole_value 120;
  max_market_price = part_value 10000000000000;
  max_base_volume = part_value 10000000000000000;
  leverage_allowed = boolean false;
  martingale_allowed = boolean false;
  exchange_credentials_allowed = boolean false;
  human_approval_required_for_execution = boolean true;
}

-- configs/futures_analysis_policy.v1.json, with shorter volume windows.
abbrev pub futures_policy : FuturesAnalysisPolicy Decimal
futures_policy = record {
  policy_id = text "futures-analysis-v1-2026-08-12";
  schema_version = whole_value 1;
  required_book_depth = whole_value 5;
  max_snapshot_age_seconds = whole_value 60;
  max_basis_age_seconds = whole_value 60;
  max_timestamp_skew_seconds = whole_value 5;
  max_spread_bps = part_value 2500000;
  min_depth_per_side = part_value 10000;
  max_absolute_basis_bps = part_value 25000000;
  max_absolute_roll_impact_bps = part_value 15000000;
  basis_reference_type = text "index";
  basis_source_id = text "plus500_t4_index_v1";
  roll_warning_seconds = whole_value 86400;
  roll_high_risk_seconds = whole_value 3600;
  expiry_warning_seconds = whole_value 604800;
  expiry_high_risk_seconds = whole_value 172800;
  volume_window = whole_value 4;
  relative_volume_window = whole_value 3;
}

abbrev pub at_second : ℕ → Datetime
at_second n = utc (seconds n)

abbrev pub observation : ReferencePriceObservation Decimal
observation = record {
  symbol = "BTC/USD";
  price = whole_value 50000;
  event_time = at_second 1000;
  available_at = at_second 1001;
  ingested_at = at_second 1002;
  source = "plus500_t4_futures_v1";
}

abbrev pub snapshot : ReferencePriceSnapshot Decimal
snapshot = record { symbol = "BTC/USD"; observations = observation ∷ [] }

abbrev pub metrics : MarketMetrics Decimal
metrics = record {
  last_price = whole_value 50000;
  period_return = part_value 600;
  return_7_periods = part_value 100;
  annualized_volatility = part_value 5000;
  max_drawdown = number (fixed (pos 0));
  sma_20 = whole_value 49000;
  sma_50 = whole_value 48000;
  volume_zscore = part_value 1000;
  regime = high_volatility;
}

abbrev pub request : Request Decimal
request = record {
  symbol = "BTC/USD";
  interval_minutes = whole_value 240;
  quality = record {
    score = part_value 10000;
    sample_count = whole_value 120;
    flags = [];
    critical_flags = [];
    newest_observed_at = some (at_second 900);
    newest_available_at = some (at_second 901);
  };
  metrics = some metrics;
  reference_price = some snapshot;
  as_of = at_second 1100;
  expires_at = at_second 2000;
  input_fingerprint_sha256 = "00000000000000000000000000000000000000000000000000000000000000ab";
  source_attested = boolean true;
  proposed_decision = alert;
  proposal_reasons = "High volatility." ∷ [];
  additional_veto_flags = [];
  additional_veto_reasons = [];
}

abbrev candle : ℕ → ℕ → Candle Decimal
candle n volume = record {
  symbol = "BTC/USD";
  interval_minutes = whole_value 240;
  open_time = at_second n;
  close_time = at_second (n + 1);
  open_price = whole_value 50000;
  high = whole_value 50000;
  low = whole_value 50000;
  close = whole_value 50000;
  volume = whole_value volume;
  source = "plus500_t4_futures_v1";
  available_at = at_second (n + 2);
  ingested_at = at_second (n + 3);
}

abbrev pub candles : List (Candle Decimal)
candles = candle 10 7 ∷ candle 20 8 ∷ candle 30 7 ∷ candle 40 9 ∷ candle 50 8 ∷ []

abbrev level : ℕ → ℕ → OrderBookLevel Decimal
level n price = record {
  level = whole_value n;
  price = whole_value price;
  quantity = whole_value 2;
}

abbrev pub bids : List (OrderBookLevel Decimal)
bids = level 1 49995 ∷ level 2 49990 ∷ level 3 49985 ∷ level 4 49980 ∷ level 5 49975 ∷ []

abbrev pub asks : List (OrderBookLevel Decimal)
asks = level 1 50005 ∷ level 2 50010 ∷ level 3 50015 ∷ level 4 50020 ∷ level 5 50025 ∷ []

abbrev pub evidence : FuturesEvidence Decimal
evidence = record {
  contract_id = "BTCZ6";
  source = "plus500_t4_futures_v1";
  session_status = open_session;
  is_full_snapshot = true;
  observed_at = at_second 1090;
  available_at = at_second 1091;
  ingested_at = at_second 1092;
  bids = bids;
  asks = asks;
  basis_reference = record {
    symbol = "BTC/USD";
    reference_type = "index";
    source = "plus500_t4_index_v1";
    price = whole_value 49900;
    observed_at = at_second 1090;
    available_at = at_second 1091;
    ingested_at = at_second 1092;
  };
  contract_transition = none;
}

abbrev pub transition : ContractTransitionEvidence Decimal
transition = record {
  from_contract_id = "BTCX6";
  to_contract_id = "BTCZ6";
  price_type = "mid";
  from_price = whole_value 49900;
  to_price = whole_value 50000;
  source = "plus500_t4_futures_v1";
  observed_at = at_second 1090;
  available_at = at_second 1091;
  ingested_at = at_second 1092;
}

abbrev pub contract : Contract Decimal
contract = record {
  contract_id = text "BTCZ6";
  expires_at = moment (at_second 2000000);
  roll_at = moment (at_second 1000000);
  selection = text "front_month";
  rolled_from = absent;
}

-- No text is read as a time: the contract's times are given as such.
abbrev pub parse : Parser
parse s = none
