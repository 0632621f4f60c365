-- ===== src/Orchestrator/Analyze.antt =====
-- `ResearchOrchestrator.analyze` of src/crypto_agent/orchestrator.py.
use Prim.Native.String.{◌++◌ as append}
use agent_crypto.Base.{
  String, Bool, true, false, ◌&&◌, Option, none, some, is_some, List, [], ◌∷◌, ◌++◌, map, length,
  dedupe, text_lt, if◌then◌else◌,
}
use agent_crypto.Numbers.{Numbers, Value, absent, boolean, number, text, whole, is_text}
use agent_crypto.Clock.{is_utc}
use agent_crypto.Policy.{RiskPolicy}
use agent_crypto.Deadline.{Outcome, returned, value_error, ◌>>=◌, ensure_analysis_deadline}
use agent_crypto.Providers.{get_value, Provider, market_source, get}
use agent_crypto.Futures.Policy.{FuturesAnalysisPolicy}
use agent_crypto.Orchestrator.Evidence.{
  leaf, item, diagnostics, raw, Entry, canonical_reference_price,
}
use agent_crypto.Orchestrator.Report.{
  ResearchReport, Scenario, Detail, cell, entry, futures_line, horizon_of, canonical_asset_id,
  thesis_of, counter_evidence_of, scenarios_of,
}
use agent_crypto.Orchestrator.{
  AnalysisRequest, Surroundings, Gathered, requested_cutoff, trace_of, gather,
}
use agent_crypto.Orchestrator.Signal.{
  input_candles, reference_price, provider_metadata, input_snapshot, safe_metrics, attested,
  futures_analysis, volume_anomaly_attested, proposal, expires_at, gate_request, risk_of,
}

abbrev system_version : String
system_version = "0.10.0-plus500-t4-v1"

abbrev model_version : String
model_version = "deterministic-futures-research-v2"

-- `min(values)`, `max(values)`
abbrev text_bound : Bool → String → List String → String
text_bound minimum s [] = s
text_bound minimum s (t ∷ ts) =
    text_bound minimum (if (if minimum then text_lt t s else text_lt s t) then t else s) ts

module _ {N : Type 0} ⦃o : Numbers N⦄ (w : Surroundings N) (p : RiskPolicy N)
    (provider : Provider N) (q : AnalysisRequest) where
  module _ (f : FuturesAnalysisPolicy N) (g : Gathered N) where
    abbrev instrument_id : String
    instrument_id =
        append provider.source_id
          (append ":" (append q.symbol (append ":" (append (w.show q.interval_minutes) "m"))))

    -- `_timestamp_bound`
    available_bound : Bool → Value N
    available_bound minimum =
        elim (map (λ c. w.isoformat c.available_at) (input_candles w p provider q f g)) [
          | [] ↦ absent
          | s ∷ rest ↦ text (text_bound minimum s rest)
        ]

    -- `external_delivery_eligible`
    pub delivery_eligible : Bool
    delivery_eligible = (attested w p provider q f g) && elim g.fetched [
      | none ↦ false
      | some b ↦
          b.external_delivery_eligible && is_text "live_t4" (get_value b.metadata "t4_environment")
    ]

    abbrev plain_detail : Value N → Detail N
    plain_detail v = cell (leaf (raw v))

    abbrev text_detail : Option String → Detail N
    text_detail none = plain_detail absent
    text_detail (some s) = plain_detail (text s)

    abbrev passed_on : String → String × Detail N
    passed_on key = (key, cell (item (get (provider_metadata w p provider q f g) key)))

    reference_detail : Detail N
    reference_detail = elim (reference_price w p provider q f g) [
      | none ↦ plain_detail absent
      | some s ↦ entry (canonical_reference_price w.isoformat s)
    ]

    report_metadata : String → List (String × Detail N)
    unfolding available_bound delivery_eligible volume_anomaly_attested futures_analysis
        reference_detail
    report_metadata input_fingerprint =
        ("system_version", plain_detail (text system_version))
        ∷ ("mode", plain_detail p.mode)
        ∷ ("execution_enabled", plain_detail (boolean false))
        ∷ ("not_financial_advice", plain_detail (boolean true))
        ∷ ("v1_gate_passed", plain_detail (boolean false))
        ∷ ("plus500_t4_source_attested", plain_detail (boolean (attested w p provider q f g)))
        ∷ ("external_delivery_eligible", plain_detail (boolean delivery_eligible))
        ∷ passed_on "t4_bridge_schema_version"
        ∷ passed_on "t4_environment"
        ∷ passed_on "t4_replay"
        ∷ passed_on "t4_replay_as_of"
        ∷ passed_on "t4_replay_fingerprint_sha256"
        ∷ passed_on "t4_replay_source_batch_ids"
        ∷ passed_on "t4_replay_source_batch_hashes"
        ∷ passed_on "t4_replay_provenance_sha256"
        ∷ (
          "plus500_t4_volume_anomaly_attested",
          plain_detail (boolean (volume_anomaly_attested w p provider q f g)),
        )
        ∷ (
          "futures_gate_passed",
          plain_detail (boolean (futures_analysis w p provider q f g).gate_passed),
        )
        ∷ ("futures_policy_id", plain_detail f.policy_id)
        ∷ ("futures_policy_hash_sha256", plain_detail (text w.futures_policy_hash))
        ∷ ("market", plain_detail (text instrument_id))
        ∷ ("requested_as_of", plain_detail (text (w.isoformat (requested_cutoff w p provider q))))
        ∷ ("input_fingerprint_sha256", plain_detail (text input_fingerprint))
        ∷ (
          "input_candle_count",
          plain_detail (number (whole (length (input_candles w p provider q f g)))),
        )
        ∷ ("analysis_candle_count", plain_detail (number (whole (length g.candles))))
        ∷ ("input_first_available_at", plain_detail (available_bound true))
        ∷ ("input_last_available_at", plain_detail (available_bound false))
        ∷ (
          "reference_price_present",
          plain_detail (boolean (is_some (reference_price w p provider q f g))),
        )
        ∷ ("reference_price_evidence", reference_detail)
        ∷ ("provider_error", text_detail g.provider_error)
        ∷ ("provider_error_code", text_detail g.provider_error_code)
        ∷ ("provider_diagnostics", cell (diagnostics (provider_metadata w p provider q f g)))
        ∷ []

    unfoldable pub report_of : String → String → List Scenario → ResearchReport N
    unfolding gate_request report_metadata proposal futures_analysis safe_metrics
    report_of trace_id input_fingerprint scenarios =
        let risk = (risk_of w p provider q f g) input_fingerprint in
        record {
          decision_id = w.decision_id;
          trace_id = trace_id;
          as_of = g.analysis_time;
          expires_at = (expires_at w p provider q f g);
          asset_id = canonical_asset_id q.symbol;
          instrument_id = instrument_id;
          horizon = horizon_of w.show q.interval_minutes;
          decision = risk.decision;
          reason_codes = dedupe (
              risk.flags
              ++ ((proposal w p provider q f g).reason_codes
                  ++ (futures_analysis w p provider q f g).reason_codes));
          model_version = model_version;
          policy_version = p.policy_id;
          data_snapshot_id = append "sha256:" input_fingerprint;
          thesis = thesis_of (safe_metrics w p provider q f g) risk;
          counter_evidence =
              counter_evidence_of (safe_metrics w p provider q f g) g.quality.flags
              ++ map futures_line (futures_analysis w p provider q f g).counter_evidence;
          scenarios = scenarios;
          invalidation_conditions = (futures_analysis w p provider q f g).invalidation_conditions;
          data_quality = g.quality;
          risk = risk;
          sources = elim g.fetched [
            | none ↦ market_source provider.source_id ∷ []
            | some b ↦ b.sources
          ];
          metrics = (safe_metrics w p provider q f g);
          futures_metrics = (futures_analysis w p provider q f g).metrics;
          metadata = report_metadata input_fingerprint;
        }

    -- `_input_fingerprint` of the records, or its ValueError.
    abbrev pub fingerprinted : Outcome String
    fingerprinted = elim (w.fingerprint (input_snapshot w p provider q f g)) [
      | none ↦ value_error "Out of range float values are not JSON compliant"
      | some s ↦ returned s
    ]

    -- What follows the fetch: the report, with the records that its fingerprint is taken of.
    unfoldable pub concluded : String → Outcome (ResearchReport N × List (Entry N))
    unfolding input_snapshot report_of safe_metrics futures_analysis
    concluded trace_id = do
      _ ← ensure_analysis_deadline w.deadline (w.monotonic 1)
      input_fingerprint ← fingerprinted
      scenarios ←
          scenarios_of (safe_metrics w p provider q f g) (futures_analysis w p provider q f g)
      _ ← ensure_analysis_deadline w.deadline (w.monotonic 2)
      returned (report_of trace_id input_fingerprint scenarios, (input_snapshot w p provider q f g))

  -- `analyze`: the report, and what is given to `repository.save`, where there is a repository.
  unfoldable pub analyze : FuturesAnalysisPolicy N → Outcome (ResearchReport N × List (Entry N))
  unfolding concluded
  analyze f = do
    _ ← ensure_analysis_deadline w.deadline (w.monotonic 0)
    trace_id ← trace_of w p provider q
    g ←
        (if is_utc (requested_cutoff w p provider q)
          then gather w p provider q
          else value_error "as_of must be timezone-aware and normalized to UTC")
    concluded f g trace_id
