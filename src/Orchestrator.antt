-- ===== src/Orchestrator.antt =====
-- src/crypto_agent/orchestrator.py: one run from the request to the report. This file has what the run
-- is given and how it gets its data; Orchestrator/Signal evaluates them, Orchestrator/Analyze writes the
-- report.
pub mod Attested
pub mod Evidence
pub mod Report
pub mod Signal
pub mod Analyze
pub mod Chain
pub mod Gathering
pub mod Alert
pub mod Refusal
pub mod Payloads
pub mod Readings
pub mod Usable
pub mod Accepted
use Prim.Native.String.{◌++◌ as append}
use agent_crypto.Base.{
  ℕ, ◌+◌, max, String, Bool, true, false, ◌&&◌, not, Option, none, some, is_some, List, [], ◌∷◌,
  ◌++◌, map, any, all, when, is_empty, length, ltb, dedupe, text_lt, if◌then◌else◌,
}
use agent_crypto.Numbers.{
  Numbers, Value, absent, boolean, number, text, whole, number_of, count_of, holds_text, eq_value,
  is_text, is_finite_number,
}
use agent_crypto.Clock.{Datetime, is_utc, seconds, later, before}
use agent_crypto.Domain.{
  Candle, DataQualityReport, MarketMetrics, FuturesEvidence, ReferencePriceSnapshot, RiskAssessment,
}
use agent_crypto.Policy.{RiskPolicy}
use agent_crypto.Checked.{Checked, accepted, rejected, crashed}
use agent_crypto.Deadline.{
  Outcome, returned, value_error, zero_division, deadline_exceeded, ◌>>=◌, ensure_analysis_deadline,
}
use agent_crypto.Providers.{
  Item, single, Metadata, get_value, put, ProviderFailureEvidence, ProviderError, ProviderBatch,
  FetchRequest, Provider, Fetched, batch, failure, fetch_provider_batch, market_source, get,
}
use agent_crypto.Quality.{assess_data_quality, deduplicate_exact_candles}
use agent_crypto.Analytics.{MathFunctions, calculate_metrics}
use agent_crypto.Futures.{FuturesAnalysis}
use agent_crypto.Futures.Policy.{FuturesAnalysisPolicy}
use agent_crypto.Futures.Lifecycle.{Parser, Stamp, written, no_stamp, Contract}
use agent_crypto.Futures.Analysis.{analyze_futures}
use agent_crypto.Signals.{ResearchProposal, propose_research_alert, apply_futures_gate}
use agent_crypto.Gate.{Request, evaluate}
use agent_crypto.Orchestrator.Attested.{source_attested, is_v5, lifecycle_id, rolled_from_id}
use agent_crypto.Orchestrator.Evidence.{
  Cell, leaf, item, diagnostics, raw, Entry, canonical_input, canonical_evidence,
  canonical_reference_price,
}
use agent_crypto.Orchestrator.Report.{
  ResearchReport, Scenario, Detail, cell, entry, futures_line, failure_quality, horizon_of,
  canonical_asset_id, thesis_of, counter_evidence_of, scenarios_of,
}

-- The arguments of `analyze`.
pub record AnalysisRequest : Type 0 where
  pub symbol : String
  pub interval_minutes : ℕ
  pub as_of : Option Datetime
  pub limit : ℕ
  pub trace_id : Option String

-- What the run takes from elsewhere: the wall clock at its start and after the fetch, the deadline
-- with the monotonic clock at each of its three tests, fresh UUIDs, and the functions of the
-- standard library.
pub record Surroundings (N : Type 0) : Type 0 where
  pub started_at : Datetime
  pub sealed_at : Datetime
  pub deadline : Option N
  pub monotonic : ℕ → N
  pub new_trace_id : String
  pub decision_id : String
  pub assessment_id : String
  -- `str(UUID(value)) == value`
  pub is_uuid : String → Bool
  pub policy_hash : String
  pub futures_policy_hash : String
  -- `hashlib.sha256(json.dumps(snapshot, ..., allow_nan=False))`; `none` is ValueError.
  pub fingerprint : List (Entry N) → Option String
  pub isoformat : Datetime → String
  pub parse : Parser
  pub math : MathFunctions N
  -- `str` of an int.
  pub show : ℕ → String

-- What `analyze` knows of the market after the fetch.
pub record Gathered (N : Type 0) : Type 0 where
  pub fetched : Option (ProviderBatch N)
  pub candles : List (Candle N)
  pub quality : DataQualityReport N
  pub analysis_time : Datetime
  pub provider_error : Option String
  pub provider_error_code : Option String

abbrev or_else : {A : Type 0} → Option A → A → A
or_else (some a) d = a
or_else none d = d

module _ {N : Type 0} ⦃o : Numbers N⦄ (w : Surroundings N) (p : RiskPolicy N)
    (provider : Provider N) (q : AnalysisRequest) where
  -- `as_of or datetime.now(UTC)`, at the start of the run and after the fetch.
  abbrev pub requested_cutoff : Datetime
  requested_cutoff = or_else q.as_of w.started_at

  abbrev pub sealed_time : Datetime
  sealed_time = or_else q.as_of w.sealed_at

  -- `_trace_id`
  abbrev pub trace_of : Outcome String
  trace_of = elim q.trace_id [
    | none ↦ returned w.new_trace_id
    | some t ↦ if w.is_uuid t then returned t else value_error "trace_id must be a canonical UUID"
  ]

  abbrev pub interval : Value N
  interval = number (whole q.interval_minutes)

  unfoldable pub preflight_flags : List String
  preflight_flags =
      when
        (before (later w.started_at (seconds (count_of p.max_clock_skew_seconds))) requested_cutoff)
        ("FUTURE_AS_OF" ∷ [])
      ++ (when (not (holds_text p.allowed_assets q.symbol)) ("REQUEST_OUTSIDE_POLICY" ∷ [])
          ++ when (not (any (λ v. eq_value v interval) p.allowed_intervals_minutes))
              ("REQUEST_OUTSIDE_POLICY" ∷ []))

  -- The batch that is kept of a failure.
  pub failure_batch : ProviderError N → Option (ProviderBatch N)
  failure_batch e = elim e.evidence [
    | none ↦ none
    | some kept ↦ some (record {
      candles = [];
      input_candles = kept.input_candles;
      sources = kept.sources;
      metadata = put kept.metadata "provider_failure_code" (single (text e.code));
      reference_price = kept.reference_price;
      futures_evidence = kept.futures_evidence;
      external_delivery_eligible = false;
    })
  ]

  abbrev pub assessed : ProviderBatch N → Checked (DataQualityReport N) → Outcome (Gathered N)
  assessed b (accepted quality) = returned (record {
    fetched = some b;
    candles = b.candles;
    quality = quality;
    analysis_time = sealed_time;
    provider_error = none;
    provider_error_code = none;
  })
  assessed b (rejected errors) = value_error "as_of must be timezone-aware and normalized to UTC"
  assessed b crashed = value_error ""

  unfoldable pub settled : Fetched N → Outcome (Gathered N)
  unfolding failure_batch
  settled (batch b) =
      assessed b
        (assess_data_quality sealed_time q.interval_minutes q.symbol provider.source_id p b.candles)
  settled (failure e) = returned (record {
    fetched = failure_batch e;
    candles = [];
    quality = failure_quality (e.code ∷ []);
    analysis_time = sealed_time;
    provider_error = some e.message;
    provider_error_code = some e.code;
  })

  -- The request is outside the policy: nothing is fetched.
  abbrev pub refused : Gathered N
  refused = record {
    fetched = none;
    candles = [];
    quality = failure_quality preflight_flags;
    analysis_time = w.started_at;
    provider_error = none;
    provider_error_code = none;
  }

  abbrev pub fetch_request : FetchRequest
  fetch_request = record {
    symbol = q.symbol;
    interval_minutes = q.interval_minutes;
    as_of = requested_cutoff;
    limit = max q.limit (count_of p.min_samples);
  }

  unfoldable pub gather : Outcome (Gathered N)
  unfolding preflight_flags settled failure_quality
  gather =
      if is_empty preflight_flags
      then (fetch_provider_batch provider fetch_request >>= settled)
      else returned refused
