-- ===== src/Signals.antt =====
-- src/crypto_agent/signals.py: the proposal of a research alert, and the futures gate over it.
pub mod Triggers
use agent_crypto.Base.{
  String, Bool, true, false, ◌&&◌, Option, none, some, List, [], ◌∷◌, ◌++◌, when, is_empty, dedupe,
  if◌then◌else◌,
}
use agent_crypto.Numbers.{Numbers, number_of}
use agent_crypto.Domain.{Decision, no_signal, alert, Regime, high_volatility, MarketMetrics}
use agent_crypto.Futures.{FuturesAnalysis}

pub record ResearchProposal : Type 0 where
  pub decision : Decision
  pub reason_codes : List String
  pub reasons : List String

abbrev pub is_high_volatility : Regime → Bool
is_high_volatility high_volatility = true
is_high_volatility _ = false

module _ {N : Type 0} ⦃o : Numbers N⦄ where
  -- `abs(metrics.period_return) >= 0.05`
  pub large_move : MarketMetrics N → Bool
  large_move m = o.le (o.decimal 5 2) (o.abs (number_of m.period_return))

  -- `abs(metrics.return_7_periods) >= 0.12`
  pub large_seven_move : MarketMetrics N → Bool
  large_seven_move m = o.le (o.decimal 12 2) (o.abs (number_of m.return_7_periods))

  -- `volume_anomaly_attested and abs(metrics.volume_zscore) >= VOLUME_ALERT_ZSCORE`
  pub volume_anomaly : Bool → MarketMetrics N → Bool
  volume_anomaly attested m = attested && o.le (o.decimal 2 0) (o.abs (number_of m.volume_zscore))

  triggers : Bool → MarketMetrics N → List String
  triggers attested m =
      when (is_high_volatility m.regime) ("Wykryto reżim wysokiej zmienności." ∷ [])
      ++ (when (large_move m) ("Bezwzględna zmiana ostatniego okresu przekracza 5%." ∷ [])
          ++ (when (large_seven_move m) ("Bezwzględna zmiana siedmiu okresów przekracza 12%." ∷ [])
              ++ when (volume_anomaly attested m)
                  ("Wolumen odchyla się od ostatniego okna o co najmniej 2 sigma." ∷ [])))

  trigger_codes : Bool → MarketMetrics N → List String
  trigger_codes attested m =
      when (is_high_volatility m.regime) ("HIGH_VOLATILITY_REGIME" ∷ [])
      ++ (when (large_move m) ("LARGE_PERIOD_MOVE" ∷ [])
          ++ (when (large_seven_move m) ("LARGE_SEVEN_PERIOD_MOVE" ∷ [])
              ++ when (volume_anomaly attested m) ("VOLUME_ANOMALY" ∷ [])))

  unfoldable pub propose_research_alert : Option (MarketMetrics N) → Bool → ResearchProposal
  unfolding large_move large_seven_move volume_anomaly triggers trigger_codes
  propose_research_alert none attested = record {
    decision = no_signal;
    reason_codes = "METRICS_UNAVAILABLE" ∷ [];
    reasons = "Metryki są niedostępne." ∷ [];
  }
  propose_research_alert (some m) attested =
      if is_empty (triggers attested m)
      then record {
        decision = no_signal;
        reason_codes = "NO_ALERT_THRESHOLD" ∷ [];
        reasons = "Żaden próg alertu badawczego nie został przekroczony." ∷ [];
      }
      else record {
        decision = alert;
        reason_codes = trigger_codes attested m;
        reasons = triggers attested m;
      }

  unfoldable pub apply_futures_gate : ResearchProposal → FuturesAnalysis N → ResearchProposal
  apply_futures_gate proposal futures =
      let codes = dedupe (proposal.reason_codes ++ futures.reason_codes) in
      if futures.gate_passed
      then record { decision = proposal.decision; reason_codes = codes; reasons = proposal.reasons }
      else record {
        decision = no_signal;
        reason_codes = codes;
        reasons =
            proposal.reasons
            ++ "Pełny zestaw atestowanych dowodów futures nie przeszedł bramki." ∷ [];
      }
