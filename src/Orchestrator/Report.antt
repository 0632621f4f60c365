-- ===== src/Orchestrator/Report.antt =====
-- The parts of a report that src/crypto_agent/orchestrator.py writes, and `ResearchReport` of
-- src/crypto_agent/domain.py. Texts with formatted numbers are data that hold the numbers.
use Prim.Native.String.{◌++◌ as append}
use agent_crypto.Base.{
  ℕ, String, Bool, true, ◌&&◌, not, Option, none, some, List, [], ◌∷◌, dedupe, text_eq,
  if◌then◌else◌, ◌==◌,
}
use agent_crypto.Numbers.{Numbers, Value, number, whole, number_of}
use agent_crypto.Clock.{Datetime}
use agent_crypto.Domain.{
  Decision, no_signal, alert, Regime, unknown, range, trend_up, trend_down, high_volatility,
  DataQualityReport, MarketMetrics, FuturesMetrics, RiskAssessment,
}
use agent_crypto.Deadline.{Outcome, returned, zero_division}
use agent_crypto.Futures.{FuturesAnalysis, CounterLine}
use agent_crypto.Providers.{Metadata}
use agent_crypto.Orchestrator.Evidence.{Cell, Entry}

-- One line of `counter_evidence`.
pub data EvidenceLine (N : Type 0) : Type 0 where
  quality_line : List String → EvidenceLine N
  drawdown_line : Value N → EvidenceLine N
  volatility_line : Value N → EvidenceLine N
  regime_caution : EvidenceLine N
  futures_line : CounterLine N → EvidenceLine N

-- A value of the report's metadata.
pub data Detail (N : Type 0) : Type 0 where
  cell : Cell N → Detail N
  entry : Entry N → Detail N

-- Every scenario's probability is None.
pub record Scenario : Type 0 where
  pub name : String
  pub condition : String
  pub active : Bool

-- `regime_probabilities` is always empty and `narrative` always None.
pub record ResearchReport (N : Type 0) : Type 0 where
  pub decision_id : String
  pub trace_id : String
  pub as_of : Datetime
  pub expires_at : Datetime
  pub asset_id : String
  pub instrument_id : String
  pub horizon : String
  pub decision : Decision
  pub reason_codes : List String
  pub model_version : String
  pub policy_version : Value N
  pub data_snapshot_id : String
  pub thesis : String
  pub counter_evidence : List (EvidenceLine N)
  pub scenarios : List Scenario
  pub invalidation_conditions : List String
  pub data_quality : DataQualityReport N
  pub risk : RiskAssessment N
  pub sources : List (Metadata N)
  pub metrics : Option (MarketMetrics N)
  pub futures_metrics : FuturesMetrics N
  pub metadata : List (String × Detail N)

abbrev joined : String → String → String
joined a b = append a b

-- `Regime.value`
abbrev regime_text : Regime → String
regime_text unknown = "UNKNOWN"
regime_text range = "RANGE"
regime_text trend_up = "TREND_UP"
regime_text trend_down = "TREND_DOWN"
regime_text high_volatility = "HIGH_VOLATILITY"

-- `_canonical_asset_id`
pub canonical_asset_id : String → String
canonical_asset_id symbol =
    if text_eq symbol "BTC/USD"
    then "bip122:000000000019d6689c085ae165831e93:native"
    else (if text_eq symbol "ETH/USD" then "eip155:1:native" else joined "unresolved:" symbol)

-- `_horizon`; `show` writes a number in decimal.
pub horizon_of : (ℕ → String) → ℕ → String
horizon_of show interval =
    if interval == 240
    then "4h"
    else (if interval == 1440
        then "1d"
        else (if interval == 10080 then "1w" else joined (show interval) "m"))

abbrev no_alert_thesis : String
no_alert_thesis = "Brak kwalifikowanego alertu badawczego; system pozostaje w NO_SIGNAL."

module _ {N : Type 0} where
  -- `_thesis`
  pub thesis_of : Option (MarketMetrics N) → RiskAssessment N → String
  thesis_of metrics risk =
      if risk.vetoed
      then "Brak wiarygodnego sygnału: risk gate zatrzymał interpretację rynku."
      else elim metrics [
        | none ↦ no_alert_thesis
        | some m ↦ elim risk.decision [
          | no_signal ↦ no_alert_thesis
          | alert ↦ joined "Wykryty reżim " (
              joined (regime_text m.regime)
                "; raport ma status ALERT wyłącznie jako alert badawczy, nie rekomendacja kupna ani sprzedaży.")
        ]
      ]

  -- `_counter_evidence`
  pub counter_evidence_of : Option (MarketMetrics N) → List String → List (EvidenceLine N)
  counter_evidence_of none flags = quality_line flags ∷ []
  counter_evidence_of (some m) flags =
      quality_line flags
      ∷ drawdown_line m.max_drawdown
      ∷ volatility_line m.annualized_volatility
      ∷ regime_caution
      ∷ []

abbrev scenario : String → String → Bool → Scenario
scenario name condition active = record { name = name; condition = condition; active = active }

module _ {N : Type 0} ⦃o : Numbers N⦄ where
  -- `_failure_quality`
  unfoldable pub failure_quality : List String → DataQualityReport N
  failure_quality flags = record {
    score = number (o.decimal 0 0);
    sample_count = number (whole 0);
    flags = dedupe flags;
    critical_flags = dedupe flags;
    newest_observed_at = none;
    newest_available_at = none;
  }

  market_scenarios : MarketMetrics N → Bool → N → List Scenario
  market_scenarios m passed ratio =
      scenario "bull" "SMA20/SMA50 > 1.02, close > SMA20 i zwrot 7 okresów > 0." (
        passed
        && (o.lt (o.decimal 102 2) ratio
            && (o.lt (number_of m.sma_20) (number_of m.last_price)
                && o.lt (whole 0) (number_of m.return_7_periods))))
      ∷ scenario "base" "SMA20/SMA50 pozostaje w przedziale [0.98, 1.02]."
          (passed && (o.le (o.decimal 98 2) ratio && o.le ratio (o.decimal 102 2)))
      ∷ scenario "bear" "SMA20/SMA50 < 0.98, close < SMA20 i zwrot 7 okresów < 0." (
          passed
          && (o.lt ratio (o.decimal 98 2)
              && (o.lt (number_of m.last_price) (number_of m.sma_20)
                  && o.lt (number_of m.return_7_periods) (whole 0))))
      ∷ scenario "data_failure" "Dowody są opóźnione, sprzeczne, niepełne albo niedostępne."
          (not passed)
      ∷ []

  -- `_scenarios`: the ratio of the rounded averages may divide by zero.
  unfoldable pub scenarios_of :
      Option (MarketMetrics N) → FuturesAnalysis N → Outcome (List Scenario)
  unfolding market_scenarios
  scenarios_of none futures =
      returned (
        scenario "data_failure" "Dane nie przechodzą kontroli jakości lub bramki futures." true
        ∷ [])
  scenarios_of (some m) futures =
      if o.eq (number_of m.sma_50) (whole 0)
      then zero_division
      else returned
          (market_scenarios m futures.gate_passed (o.div (number_of m.sma_20) (number_of m.sma_50)))
