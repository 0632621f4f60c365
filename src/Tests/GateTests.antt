-- ===== src/Tests/GateTests.antt =====
-- The risk gate and its policy on the sample request.
use agent_crypto.Base.{◌<◌, ◌≤◌, ◌+◌, ◌≢◌, Distinct, true, ◌≡◌, refl, some, []}
use agent_crypto.Numbers.{
  is_int, holds_text, finite_between, strict_int_between, is_finite_number, int_at_least,
}
use agent_crypto.Clock.{is_utc, seconds}
use agent_crypto.Numbers.{count_of}
use agent_crypto.Patterns.{is_sha256}
use agent_crypto.Checked.{accepted}
use agent_crypto.Numbers.Sample.{Decimal, decimals}
use agent_crypto.Domain.{alert, ReferencePriceSnapshot, ReferencePriceObservation}
use agent_crypto.Policy.{validate_v1_safety}
use agent_crypto.Policy.Safe.{IsSafe}
use agent_crypto.Policy.Accepts.{validate_v1_safety_iff}
use agent_crypto.Gate.{evaluate}
use agent_crypto.Gate.Inputs.{reference_price_failures, valid_quality_input, valid_metrics_input}
use agent_crypto.Gate.Inputs.Reference.{IsFresh, reference_price_failures-eq-nil_iff}
use agent_crypto.Gate.Verdict.{evaluate-eq-alert_iff}
use agent_crypto.Gate.Hits.{Passes}
use agent_crypto.Gate.Output.{evaluate-IsWellFormed}
use agent_crypto.Samples.{v1_policy, request, snapshot, at_second}

accepts_v1 : validate_v1_safety v1_policy ≡ accepted tt
unfolding validate_v1_safety is_int holds_text finite_between strict_int_between
accepts_v1 = refl

alerts : (evaluate v1_policy request "id" "hash").decision ≡ alert
unfolding evaluate reference_price_failures is_utc is_finite_number valid_quality_input
    finite_between int_at_least valid_metrics_input is_sha256 holds_text
alerts = refl

fresh : (reference_price_failures (some snapshot) "BTC/USD" (at_second 1100) v1_policy).0 ≡ []
unfolding reference_price_failures is_utc is_finite_number
fresh = refl

validate_v1_safety_iff_example : IsSafe v1_policy
validate_v1_safety_iff_example = (validate_v1_safety_iff v1_policy).0 accepts_v1

reference_price_failures-eq-nil_iff_example :
    (s : ReferencePriceSnapshot Decimal) × (x : ReferencePriceObservation Decimal) × (some snapshot
      ≡ some s)
    × IsFresh "BTC/USD" (at_second 1100) v1_policy s x
reference_price_failures-eq-nil_iff_example =
    (reference_price_failures-eq-nil_iff "BTC/USD" (at_second 1100) v1_policy (some snapshot)).0
      fresh

evaluate-eq-alert_iff_example : (alert ≡ alert) × Passes v1_policy request
evaluate-eq-alert_iff_example = (evaluate-eq-alert_iff v1_policy request "id" "hash").0 alerts

evaluate-IsWellFormed_example :
    let a = evaluate v1_policy request "id" "hash" in
    (is_utc a.as_of ≡ true)
    × (is_utc a.expires_at ≡ true)
    × (a.as_of.instant < a.expires_at.instant)
    × (a.expires_at.instant ≤ a.as_of.instant + seconds (count_of v1_policy.report_ttl_seconds))
    × (is_sha256 a.input_fingerprint_sha256 ≡ true)
    × Distinct a.flags
    × (a.reasons ≢ [])
evaluate-IsWellFormed_example =
    evaluate-IsWellFormed v1_policy request validate_v1_safety_iff_example "id" "hash"
