-- ===== src/Orchestrator/Signal.antt =====
-- What src/crypto_agent/orchestrator.py makes of the data: metrics, attestation, the futures analysis,
-- the proposal and the request to the risk gate.
use agent_crypto.Base.{
  String, Bool, false, ◌&&◌, not, Option, none, some, List, [], ◌∷◌, ◌++◌, all, when, is_empty,
  length, ltb, if◌then◌else◌,
}
use agent_crypto.Numbers.{Numbers, Value, boolean, text, number_of, count_of, is_finite_number}
use agent_crypto.Clock.{Datetime, seconds, later}
use agent_crypto.Domain.{
  Candle, MarketMetrics, FuturesEvidence, ReferencePriceSnapshot, RiskAssessment,
}
use agent_crypto.Policy.{RiskPolicy}
use agent_crypto.Providers.{Metadata, get_value, Provider}
use agent_crypto.Quality.{deduplicate_exact_candles}
use agent_crypto.Analytics.{calculate_metrics}
use agent_crypto.Futures.{FuturesAnalysis}
use agent_crypto.Futures.Policy.{FuturesAnalysisPolicy}
use agent_crypto.Futures.Lifecycle.{Stamp, written, no_stamp, Contract}
use agent_crypto.Futures.Analysis.{analyze_futures}
use agent_crypto.Signals.{ResearchProposal, propose_research_alert, apply_futures_gate}
use agent_crypto.Gate.{Request, evaluate}
use agent_crypto.Orchestrator.Attested.{source_attested, lifecycle_id, rolled_from_id}
use agent_crypto.Orchestrator.Evidence.{leaf, raw, Entry, canonical_input, canonical_evidence}
use agent_crypto.Orchestrator.{AnalysisRequest, Surroundings, Gathered, interval}

abbrev stamp_of : {N : Type 0} → Value N → Stamp
stamp_of (text s) = written s
stamp_of _ = no_stamp

module _ {N : Type 0} ⦃o : Numbers N⦄ (w : Surroundings N) (p : RiskPolicy N)
    (provider : Provider N) (q : AnalysisRequest) where
  module _ (f : FuturesAnalysisPolicy N) (g : Gathered N) where
    abbrev pub input_candles : List (Candle N)
    input_candles = elim g.fetched [ none ↦ g.candles | some b ↦ b.input_candles ]

    abbrev pub reference_price : Option (ReferencePriceSnapshot N)
    reference_price = elim g.fetched [ none ↦ none | some b ↦ b.reference_price ]

    abbrev pub provider_metadata : Metadata N
    provider_metadata = elim g.fetched [ none ↦ [] | some b ↦ b.metadata ]

    unfoldable pub input_snapshot : List (Entry N)
    input_snapshot =
        canonical_evidence w.isoformat (canonical_input w.isoformat input_candles) reference_price
          g.fetched
        ++ (("record_type", leaf (raw (text "analysis_context")))
            ∷ ("as_of", leaf (raw (text (w.isoformat g.analysis_time))))
            ∷ ("futures_policy_id", leaf (raw f.policy_id))
            ∷ ("futures_policy_hash_sha256", leaf (raw (text w.futures_policy_hash)))
            ∷ [])
          ∷ []

    unfoldable pub metrics_allowed : Bool
    metrics_allowed =
        is_empty g.quality.critical_flags
        && o.le (number_of p.min_data_quality) (number_of g.quality.score)

    unfoldable pub analytics_candles : List (Candle N)
    unfolding metrics_allowed
    analytics_candles = if metrics_allowed then deduplicate_exact_candles g.candles else []

    unfoldable pub all_finite : MarketMetrics N → Bool
    all_finite m = all is_finite_number (
        m.last_price ∷ m.period_return ∷ m.return_7_periods ∷ m.annualized_volatility
        ∷ m.max_drawdown ∷ m.sma_20 ∷ m.sma_50 ∷ m.volume_zscore ∷ [])

    -- `_safe_metrics`
    unfoldable pub safe_metrics : Option (MarketMetrics N)
    unfolding metrics_allowed analytics_candles all_finite
    safe_metrics =
        if not metrics_allowed
        then none
        else (if ltb (length analytics_candles) 50
            then none
            else elim (calculate_metrics w.math analytics_candles) [
              | none ↦ none
              | some m ↦ if all_finite m then some m else none
            ])

    abbrev pub attested : Bool
    attested = source_attested provider.provider_type g.fetched p.required_source_count

    abbrev pub contract_of : Contract N
    contract_of = record {
      contract_id = lifecycle_id provider_metadata;
      expires_at = stamp_of (get_value provider_metadata "t4_contract_expires_at");
      roll_at = stamp_of (get_value provider_metadata "t4_contract_roll_at");
      selection = get_value provider_metadata "t4_contract_selection";
      rolled_from = rolled_from_id provider_metadata;
    }

    abbrev pub futures_evidence : Option (FuturesEvidence N)
    futures_evidence = elim g.fetched [ none ↦ none | some b ↦ b.futures_evidence ]

    unfoldable pub futures_analysis : FuturesAnalysis N
    unfolding analytics_candles
    futures_analysis =
        analyze_futures w.parse analytics_candles futures_evidence g.analysis_time q.symbol
          contract_of f

    -- `_volume_anomaly_attested`
    unfoldable pub volume_anomaly_attested : Bool
    unfolding futures_analysis
    volume_anomaly_attested = attested && elim futures_analysis.metrics.volume_zscore [
      | none ↦ false
      | some z ↦ o.is_finite (o.to_float z) && o.le (o.decimal 2 0) (o.abs (o.to_float z))
    ]

    unfoldable pub proposal : ResearchProposal
    unfolding safe_metrics volume_anomaly_attested futures_analysis
    proposal =
        apply_futures_gate (propose_research_alert safe_metrics volume_anomaly_attested)
          futures_analysis

    abbrev pub expires_at : Datetime
    expires_at = later g.analysis_time (seconds (count_of p.report_ttl_seconds))

    unfoldable pub gate_request : String → Request N
    unfolding proposal
    gate_request input_fingerprint = record {
      symbol = q.symbol;
      interval_minutes = interval w p provider q;
      quality = g.quality;
      metrics = safe_metrics;
      reference_price = reference_price;
      as_of = g.analysis_time;
      expires_at = expires_at;
      input_fingerprint_sha256 = input_fingerprint;
      source_attested = boolean attested;
      proposed_decision = proposal.decision;
      proposal_reasons = proposal.reasons;
      additional_veto_flags = futures_analysis.veto_flags;
      additional_veto_reasons =
          when (not (is_empty futures_analysis.veto_flags))
            ("The deterministic futures-evidence gate did not pass." ∷ []);
    }

    abbrev pub risk_of : String → RiskAssessment N
    risk_of input_fingerprint =
        evaluate p (gate_request input_fingerprint) w.assessment_id w.policy_hash
