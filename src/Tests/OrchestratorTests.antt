-- ===== src/Tests/OrchestratorTests.antt =====
-- A run of the whole analysis on sample data.
use agent_crypto.Base.{
  ℕ, zero, suc, ◌+◌, ◌*◌, ◌%◌, ◌==◌, String, true, false, ◌≡◌, refl, none, some, List, [], ◌∷◌, pos,
  text_eq, if◌then◌else◌, dedupe, sort_by,
}
use agent_crypto.Numbers.{
  Value, boolean, text, is_finite_number, is_int, holds_text, finite_between, int_at_least,
  is_inked, strict_int_between, finite_positive, finite_nonnegative,
}
use agent_crypto.Numbers.Sample.{Decimal, int, fixed, decimals}
use agent_crypto.Clock.{is_utc, is_aware}
use agent_crypto.Patterns.{is_sha256, is_flag_code, has_ink}
use agent_crypto.Domain.{alert, Candle, ReferencePriceSnapshot, FuturesEvidence}
use agent_crypto.Deadline.{returned, ensure_analysis_deadline}
use agent_crypto.Providers.{
  Item, single, Metadata, ProviderBatch, Provider, answered, plus500_t4, market_source, get,
  fetch_provider_batch,
}
use agent_crypto.Orchestrator.{AnalysisRequest, Surroundings}
use agent_crypto.Orchestrator.Evidence.{Entry}
use agent_crypto.Orchestrator.Report.{ResearchReport}
use agent_crypto.Orchestrator.Analyze.{analyze}
use agent_crypto.Orchestrator.Alert.{IsGrounded, analyze-IsGrounded}
use agent_crypto.Orchestrator.Refusal.{answering, analyze-refused}
use agent_crypto.Deadline.{bounded_analysis_timeout, remaining_analysis_timeout}
use agent_crypto.Deadline.Bounds.{IsWithin, bounded_analysis_timeout-IsWithin}
use agent_crypto.Numbers.Sample.{decimals-BoundLaws}
use agent_crypto.Base.{◌≢◌}
use agent_crypto.Domain.{no_signal}
use agent_crypto.Providers.{other_error}
use agent_crypto.Orchestrator.{preflight_flags}
use agent_crypto.Samples.{v1_policy, futures_policy, at_second, whole_value, evidence, observation}
use agent_crypto.Orchestrator.{gather}
use agent_crypto.Quality.{assess_data_quality}
use agent_crypto.Orchestrator.Report.{scenarios_of}
use agent_crypto.Quality.{deduplicate_exact_candles}
use agent_crypto.Analytics.{calculate_metrics}
use agent_crypto.Orchestrator.Analyze.{report_of}
use agent_crypto.Orchestrator.Signal.{gate_request}
use agent_crypto.Orchestrator.Signal.{proposal}
use agent_crypto.Orchestrator.Signal.{safe_metrics}
use agent_crypto.Orchestrator.Signal.{futures_analysis}
use agent_crypto.Orchestrator.Signal.{volume_anomaly_attested}
use agent_crypto.Orchestrator.Signal.{analytics_candles}
use agent_crypto.Orchestrator.Signal.{metrics_allowed}
use agent_crypto.Orchestrator.Signal.{all_finite}
use agent_crypto.Gate.{evaluate}
use agent_crypto.Gate.Inputs.{reference_price_failures}
use agent_crypto.Gate.Inputs.{valid_quality_input}
use agent_crypto.Gate.Inputs.{valid_metrics_input}
use agent_crypto.Orchestrator.Attested.{source_attested}
use agent_crypto.Futures.Analysis.{analyze_futures}
use agent_crypto.Futures.Volume.{volume_metrics}
use agent_crypto.Futures.Snapshot.{snapshot_metrics}
use agent_crypto.Futures.Transition.{transition_metrics}
use agent_crypto.Futures.Lifecycle.{lifecycle_metrics}
use agent_crypto.Futures.Lifecycle.{utc_datetime}
use agent_crypto.Futures.Book.{valid_book}
use agent_crypto.Futures.Book.{current_mid}
use agent_crypto.Futures.Book.{timestamp_chain}
use agent_crypto.Signals.{propose_research_alert}
use agent_crypto.Signals.{apply_futures_gate}
use agent_crypto.Patterns.{ends_with}

-- Four hours from the n-th on; the last candle closes 6 percent higher.
abbrev candle_at : ℕ → Candle Decimal
candle_at n =
    let price = if n == 119 then 53000 else 50000 in
    record {
      symbol = "BTC/USD";
      interval_minutes = whole_value 240;
      open_time = at_second (n * 14400);
      close_time = at_second (n * 14400 + 14400);
      open_price = whole_value 50000;
      high = whole_value 53000;
      low = whole_value 49000;
      close = whole_value price;
      volume = whole_value (7 + n % 3);
      source = "plus500_t4_futures_v1";
      available_at = at_second (n * 14400 + 14401);
      ingested_at = at_second (n * 14400 + 14402);
    }

abbrev candles_from : ℕ → ℕ → List (Candle Decimal)
candles_from start zero = []
candles_from start (suc k) = candle_at start ∷ candles_from (suc start) k

-- The time of the run, eight seconds after the last candle came in.
abbrev now : ℕ
now = 1728010

abbrev seen_at_now : FuturesEvidence Decimal
seen_at_now = record evidence {
  observed_at = at_second 1728000;
  available_at = at_second 1728001;
  ingested_at = at_second 1728002;
  basis_reference = record {
    symbol = "BTC/USD";
    reference_type = "index";
    source = "plus500_t4_index_v1";
    price = whole_value 49900;
    observed_at = at_second 1728000;
    available_at = at_second 1728001;
    ingested_at = at_second 1728002;
  };
}

abbrev reference_now : ReferencePriceSnapshot Decimal
reference_now = record {
  symbol = "BTC/USD";
  observations =
      record observation {
        event_time = at_second 1727990;
        available_at = at_second 1727991;
        ingested_at = at_second 1727992;
      }
      ∷ [];
}

abbrev tagged : String → Value Decimal → String × Item Decimal
tagged key v = (key, single v)

abbrev metadata_now : Metadata Decimal
metadata_now =
    tagged "t4_bridge_schema_version" (whole_value 3)
    ∷ tagged "t4_futures_evidence_attested" (boolean true)
    ∷ tagged "t4_read_only_attested" (boolean true)
    ∷ tagged "t4_source_id" (text "plus500_t4_futures_v1")
    ∷ tagged "t4_venue_id" (text "plus500_t4")
    ∷ tagged "t4_order_routes_exposed" (boolean false)
    ∷ tagged "t4_contract_id" (text "BTCZ6")
    ∷ tagged "t4_contract_roll_at" (text "roll")
    ∷ tagged "t4_contract_expires_at" (text "expiry")
    ∷ tagged "t4_contract_selection" (text "front_month")
    ∷ []

abbrev batch_now : ProviderBatch Decimal
batch_now = record {
  candles = candles_from 0 120;
  input_candles = candles_from 0 120;
  sources = market_source "plus500_t4_futures_v1" ∷ [];
  metadata = metadata_now;
  reference_price = some reference_now;
  futures_evidence = some seen_at_now;
  external_delivery_eligible = false;
}

abbrev sample_provider : Provider Decimal
sample_provider = record {
  provider_type = plus500_t4;
  source_id = "plus500_t4_futures_v1";
  fetch_batch = some (λ r. answered (some batch_now));
  fetch_candles = λ r. answered [];
}

abbrev sample_request : AnalysisRequest
sample_request = record {
  symbol = "BTC/USD";
  interval_minutes = 240;
  as_of = some (at_second now);
  limit = 120;
  trace_id = none;
}

-- `x - 1` stands in for the logarithm, and 46 for the square root of 2190.
abbrev sample_surroundings : Surroundings Decimal
sample_surroundings = record {
  started_at = at_second now;
  sealed_at = at_second now;
  deadline = some (int (pos 100));
  monotonic = λ n. int (pos n);
  new_trace_id = "trace";
  decision_id = "decision";
  assessment_id = "assessment";
  is_uuid = λ s. true;
  policy_hash = "policy";
  futures_policy_hash = "futures";
  fingerprint = λ entries. some "00000000000000000000000000000000000000000000000000000000000000ab";
  isoformat = λ t. "time";
  parse = λ s. if text_eq s "roll" then some (at_second 3000000) else some (at_second 4000000);
  math = record { log = λ x. some (decimals.sub x (int (pos 1))); sqrt = λ x. int (pos 46) };
  show = λ n. "240";
}

alerts_now :
    (r : ResearchReport Decimal) × (saved : List (Entry Decimal)) × (analyze sample_surroundings
        v1_policy sample_provider sample_request futures_policy
      ≡ returned (r, saved))
    × (r.decision ≡ alert)
unfolding report_of gate_request proposal safe_metrics futures_analysis volume_anomaly_attested
    analytics_candles metrics_allowed all_finite evaluate reference_price_failures
    valid_quality_input finite_between int_at_least valid_metrics_input is_sha256 is_flag_code
    has_ink source_attested get analyze_futures volume_metrics snapshot_metrics transition_metrics
    lifecycle_metrics utc_datetime valid_book current_mid timestamp_chain propose_research_alert
    apply_futures_gate finite_positive finite_nonnegative is_int is_inked strict_int_between
    ends_with scenarios_of fetch_provider_batch assess_data_quality gather holds_text analyze
    ensure_analysis_deadline is_utc dedupe is_finite_number is_aware sort_by
    deduplicate_exact_candles calculate_metrics
alerts_now = (_, _, refl, refl)

analyze-IsGrounded_example :
    IsGrounded sample_surroundings v1_policy sample_provider sample_request futures_policy
      alerts_now.0
analyze-IsGrounded_example =
    analyze-IsGrounded sample_surroundings v1_policy sample_provider sample_request futures_policy
      alerts_now.0 alerts_now.1 alerts_now.2 alerts_now.3

abbrev outside_request : AnalysisRequest
outside_request = record sample_request { symbol = "DOGE/USD" }

outside_flags : preflight_flags sample_surroundings v1_policy sample_provider outside_request ≢ []
unfolding preflight_flags holds_text
outside_flags e = cc

analyze-refused_example :
    let run = λ (provider : Provider Decimal).
      analyze sample_surroundings v1_policy provider outside_request futures_policy in
    (run sample_provider ≡ run (answering sample_provider none (λ r. other_error)))
    × ((r : ResearchReport Decimal) (saved : List (Entry Decimal))
        → run sample_provider ≡ returned (r, saved)
        → r.decision ≡ no_signal)
analyze-refused_example =
    analyze-refused sample_surroundings v1_policy outside_request futures_policy sample_provider
      none (λ r. other_error) outside_flags

bounded_analysis_timeout-IsWithin_example :
    (decimals.le (fixed (pos 50000)) (decimals.to_float (int (pos 10))) ≡ true)
    × IsWithin (fixed (pos 50000)) (some (int (pos 25))) (int (pos 20))
unfolding bounded_analysis_timeout is_finite_number remaining_analysis_timeout
bounded_analysis_timeout-IsWithin_example =
    bounded_analysis_timeout-IsWithin decimals-BoundLaws (whole_value 10) (some (int (pos 25)))
      (int (pos 20)) (fixed (pos 50000)) refl refl
