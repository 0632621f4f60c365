-- ===== src/Gate.antt =====
-- `RiskGate` of src/crypto_agent/policy.py: the deterministic veto over a proposed decision.
pub mod Inputs
pub mod Hits
pub mod Verdict
pub mod Output
use agent_crypto.Base.{
  ℕ, ◌*◌, String, Bool, true, false, ◌&&◌, ◌||◌, not, Option, none, some, List, [], ◌∷◌, ◌++◌, map,
  any, all, when, is_empty, is_none, if◌then◌else◌, contains, dedupe,
}
use agent_crypto.Numbers.{
  Numbers, Value, is_true, is_boolean, holds_text, count_of, number_of, eq_value,
}
use agent_crypto.Clock.{Datetime, is_utc, seconds, before, not_after, later, utc}
use agent_crypto.Domain.{
  Decision, no_signal, alert, DataQualityReport, MarketMetrics, ReferencePriceSnapshot, Reason,
  plain, asset_outside, interval_outside, RiskAssessment,
}
use agent_crypto.Patterns.{is_sha256, is_flag_code, has_ink}
use agent_crypto.Policy.{RiskPolicy}
use Inputs.{valid_quality_input, reference_price_failures, valid_metrics_input}

-- The arguments of `RiskGate.evaluate`.
pub record Request (N : Type 0) : Type 0 where
  pub symbol : String
  pub interval_minutes : Value N
  pub quality : DataQualityReport N
  pub metrics : Option (MarketMetrics N)
  pub reference_price : Option (ReferencePriceSnapshot N)
  pub as_of : Datetime
  pub expires_at : Datetime
  pub input_fingerprint_sha256 : String
  pub source_attested : Value N
  pub proposed_decision : Decision
  pub proposal_reasons : List String
  pub additional_veto_flags : List String
  pub additional_veto_reasons : List String

-- `Decision.value`
abbrev pub decision_text : Decision → String
decision_text no_signal = "NO_SIGNAL"
decision_text alert = "ALERT"

-- The flags that veto whatever else is said.
abbrev pub standing_vetoes : List String
standing_vetoes =
    "ASSET_NOT_ALLOWED" ∷ "INTERVAL_NOT_ALLOWED" ∷ "INSUFFICIENT_HISTORY" ∷ "LOW_DATA_QUALITY"
    ∷ "METRICS_UNAVAILABLE" ∷ "EXTREME_VOLATILITY" ∷ "EXTREME_PERIOD_MOVE"
    ∷ "SOURCE_ATTESTATION_REQUIRED" ∷ "INVALID_RISK_INPUT" ∷ "REFERENCE_PRICE_INVALID"
    ∷ "REFERENCE_PRICE_MISSING" ∷ "STALE_DATA" ∷ "DATA_CONFLICT" ∷ []

module _ {N : Type 0} ⦃o : Numbers N⦄ (policy : RiskPolicy N) (r : Request N) where
  pub quality_valid : Bool
  quality_valid = valid_quality_input r.quality r.as_of

  pub reference_flags : List String
  reference_flags = (reference_price_failures r.reference_price r.symbol r.as_of policy).0

  pub metrics_valid : Bool
  metrics_valid = elim r.metrics [ none ↦ false | some m ↦ valid_metrics_input m ]

  pub time_valid : Bool
  time_valid =
      is_utc r.as_of
      && (is_utc r.expires_at
          && (before r.as_of r.expires_at
              && not_after r.expires_at
                  (later r.as_of (seconds (count_of policy.report_ttl_seconds)))))

  pub fingerprint_valid : Bool
  fingerprint_valid = is_sha256 r.input_fingerprint_sha256

  pub decision_valid : Bool
  decision_valid = holds_text policy.allowed_decisions (decision_text r.proposed_decision)

  pub additional_veto_valid : Bool
  additional_veto_valid =
      all is_flag_code r.additional_veto_flags && all has_ink r.additional_veto_reasons

  -- `invalid_input_reasons`
  invalid_input_reasons : List String
  invalid_input_reasons =
      when (not quality_valid) ("DataQualityReport failed independent validation." ∷ [])
      ++ (when (not (is_none r.metrics) && not metrics_valid)
            ("MarketMetrics contains invalid or non-finite values." ∷ [])
          ++ (when (not time_valid) ("Risk assessment timestamps are invalid or expired." ∷ [])
              ++ (when (not fingerprint_valid)
                    ("Input fingerprint is not a lowercase SHA-256 value." ∷ [])
                  ++ (when (not decision_valid)
                        ("Proposed decision is outside the V1 allowlist." ∷ [])
                      ++ (when (not (is_boolean r.source_attested))
                            ("Source attestation must be a strict boolean." ∷ [])
                          ++ when (not additional_veto_valid)
                              ("Additional deterministic veto input is invalid." ∷ []))))))

  pub input_invalid : Bool
  input_invalid = not (is_empty invalid_input_reasons)

  pub asset_allowed : Bool
  asset_allowed = holds_text policy.allowed_assets r.symbol

  pub interval_allowed : Bool
  interval_allowed = any (λ v. eq_value v r.interval_minutes) policy.allowed_intervals_minutes

  pub history_short : Bool
  history_short =
      not quality_valid || o.lt (number_of r.quality.sample_count) (number_of policy.min_samples)

  pub quality_low : Bool
  quality_low =
      not quality_valid || o.lt (number_of r.quality.score) (number_of policy.min_data_quality)

  pub volatility_extreme : MarketMetrics N → Bool
  volatility_extreme m =
      o.lt (number_of policy.max_annualized_volatility) (number_of m.annualized_volatility)

  pub move_extreme : MarketMetrics N → Bool
  move_extreme m =
      o.lt (number_of policy.max_absolute_period_return) (o.abs (number_of m.period_return))

  pub metric_flags : Option (MarketMetrics N) → List String
  metric_flags none = "METRICS_UNAVAILABLE" ∷ []
  metric_flags (some m) =
      if valid_metrics_input m
      then when (volatility_extreme m) ("EXTREME_VOLATILITY" ∷ [])
        ++ when (move_extreme m) ("EXTREME_PERIOD_MOVE" ∷ [])
      else "METRICS_UNAVAILABLE" ∷ []

  metric_reasons : Option (MarketMetrics N) → List String
  metric_reasons none = "Metrics could not be calculated safely." ∷ []
  metric_reasons (some m) =
      if valid_metrics_input m
      then when (volatility_extreme m)
          ("Annualized volatility exceeds the V1 safety threshold." ∷ [])
        ++ when (move_extreme m) ("Latest period move exceeds the V1 safety threshold." ∷ [])
      else "Metrics could not be calculated safely." ∷ []

  -- `flags` at the end of the tests, before repeats are dropped.
  pub raised_flags : List String
  raised_flags =
      (if quality_valid then r.quality.flags else [])
      ++ (reference_flags
          ++ (when input_invalid ("INVALID_RISK_INPUT" ∷ [])
              ++ (when (not (is_true r.source_attested)) ("SOURCE_ATTESTATION_REQUIRED" ∷ [])
                  ++ (when additional_veto_valid r.additional_veto_flags
                      ++ (when (not asset_allowed) ("ASSET_NOT_ALLOWED" ∷ [])
                          ++ (when (not interval_allowed) ("INTERVAL_NOT_ALLOWED" ∷ [])
                              ++ (when history_short ("INSUFFICIENT_HISTORY" ∷ [])
                                  ++ (when quality_low ("LOW_DATA_QUALITY" ∷ [])
                                      ++ metric_flags r.metrics))))))))

  -- `reasons` before the default is put in.
  pub raised_reasons : List (Reason N)
  raised_reasons =
      map plain (reference_price_failures r.reference_price r.symbol r.as_of policy).1
      ++ (map plain invalid_input_reasons
          ++ (when (not (is_true r.source_attested))
                (plain "The read-only Plus500 T4 market-data source was not attested." ∷ [])
              ++ (when additional_veto_valid (map plain r.additional_veto_reasons)
                  ++ (when (not asset_allowed) (asset_outside r.symbol ∷ [])
                      ++ (when (not interval_allowed) (interval_outside r.interval_minutes ∷ [])
                          ++ (when history_short
                                (plain "Not enough point-in-time observations." ∷ [])
                              ++ (when quality_low
                                    (plain "Data quality score is below policy threshold." ∷ [])
                                  ++ (when
                                        (quality_valid && not (is_empty r.quality.critical_flags))
                                        (plain "Critical data-quality veto is active." ∷ [])
                                      ++ map plain (metric_reasons r.metrics)))))))))

  pub veto_flags : List String
  veto_flags =
      standing_vetoes
      ++ ((if quality_valid then r.quality.critical_flags else [])
          ++ (if additional_veto_valid then r.additional_veto_flags else []))

  pub vetoed : Bool
  vetoed = not (is_empty reference_flags) || any (contains veto_flags) raised_flags

  pub decision : Decision
  decision = if vetoed || not decision_valid then no_signal else r.proposed_decision

  abbrev pub or_default : List String → List String
  or_default [] = "Brak kwalifikowanego alertu badawczego; NO_SIGNAL jest stanem domyślnym." ∷ []
  or_default (x ∷ xs) = x ∷ xs

  -- `if not reasons: reasons.extend(proposal_reasons or (default,))`
  abbrev pub or_proposal : List (Reason N) → List (Reason N)
  or_proposal [] = map plain (or_default r.proposal_reasons)
  or_proposal (x ∷ xs) = x ∷ xs

  pub safe_as_of : Datetime
  safe_as_of = if is_utc r.as_of then r.as_of else utc (seconds (719163 * 86400))

  pub safe_expires_at : Datetime
  unfolding safe_as_of
  safe_expires_at =
      if time_valid
      then r.expires_at
      else later safe_as_of (seconds (count_of policy.report_ttl_seconds))

  pub safe_fingerprint : String
  safe_fingerprint =
      if fingerprint_valid
      then r.input_fingerprint_sha256
      else "0000000000000000000000000000000000000000000000000000000000000000"

  -- `RiskGate.evaluate`, with the identifier that `uuid4()` gives and the policy's fingerprint.
  unfoldable pub evaluate : String → String → RiskAssessment N
  unfolding quality_valid reference_flags metrics_valid time_valid fingerprint_valid decision_valid
      additional_veto_valid invalid_input_reasons input_invalid asset_allowed interval_allowed
      history_short quality_low volatility_extreme move_extreme metric_flags metric_reasons
      raised_flags raised_reasons veto_flags vetoed decision safe_as_of safe_expires_at
      safe_fingerprint
  evaluate assessment_id policy_hash = record {
    assessment_id = assessment_id;
    policy_id = policy.policy_id;
    policy_hash = policy_hash;
    as_of = safe_as_of;
    expires_at = safe_expires_at;
    input_fingerprint_sha256 = safe_fingerprint;
    decision = decision;
    vetoed = vetoed;
    flags = dedupe raised_flags;
    reasons = or_proposal raised_reasons;
  }
