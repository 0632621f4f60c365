-- ===== src/Tests/ObservationTests.antt =====
-- The policy of configs/observation_policy.v1.json with a campaign that meets it.
use agent_crypto.Base.{String, Bool, true, ◌≡◌, refl, ◌↔◌, List, [], ◌∷◌, codes, length, ◌==◌, none}
use agent_crypto.Numbers.{
  Value, text, boolean, is_inked, is_int, int_at_least, finite_between, finite_order,
}
use agent_crypto.Numbers.Sample.{Decimal, decimals}
use agent_crypto.Clock.{utc, is_aware}
use agent_crypto.Checked.{accepted}
use agent_crypto.Patterns.{has_ink, is_lower_code, is_sha256}
use agent_crypto.Observation.Policy.{ObservationPolicy, validate_observation_policy}
use agent_crypto.Observation.Policy.Accepts.{IsFrozen, validate_observation_policy_iff}
use agent_crypto.Observation.Fields.{is_duration}
use agent_crypto.Observation.Evidence.{ObservationEvidence, validate_evidence, scenario_names}
use agent_crypto.Observation.Evidence.Sound.{IsSound, validate_evidence_iff}
use agent_crypto.Observation.Report.{graded_report}
use agent_crypto.Observation.Report.Taken.{evaluate_observation-of_sound}
use agent_crypto.Observation.Report.Gate.{IsMet, evaluate_observation-passed_iff}
use agent_crypto.Samples.{whole_value, part_value}

abbrev looks_like_uuid : String → Bool
looks_like_uuid s = length (codes s) == 36

abbrev digest_text : String
digest_text = "0123456789abcdef0123456789abcdef0123456789abcdef0123456789abcdef"

abbrev digest_of : ObservationPolicy Decimal → String
digest_of p = digest_text

abbrev scenarios : List (Value Decimal)
scenarios =
    text "bridge_restart"
    ∷ text "missing_data"
    ∷ text "rate_limit"
    ∷ text "reconnect"
    ∷ text "replay_blocked"
    ∷ text "roll_transition"
    ∷ text "stale_data"
    ∷ []

abbrev policy_with : List (Value Decimal) → ObservationPolicy Decimal
policy_with codes_ = record {
  policy_id = text "t4-observation-v1-2026-08-12";
  schema_version = whole_value 1;
  required_bridge_schema_version = whole_value 5;
  minimum_elapsed_hours = whole_value 672;
  minimum_cycle_attempt_rate = part_value 9900;
  minimum_cycle_success_rate = part_value 9900;
  maximum_unexplained_gap_multiplier = part_value 30000;
  maximum_bridge_rtt_p95_seconds = part_value 50000;
  maximum_bridge_rtt_p99_seconds = part_value 100000;
  mandatory_scenarios = codes_;
}

abbrev frozen_policy : ObservationPolicy Decimal
frozen_policy = policy_with scenarios

accepts_frozen : validate_observation_policy frozen_policy ≡ accepted tt
unfolding validate_observation_policy is_inked has_ink is_int int_at_least finite_between
    finite_order is_lower_code
accepts_frozen = refl

accepts_frozen_policy : IsFrozen frozen_policy
accepts_frozen_policy = (validate_observation_policy_iff frozen_policy).0 accepts_frozen

validate_observation_policy_iff_example : IsFrozen frozen_policy
validate_observation_policy_iff_example =
    (validate_observation_policy_iff frozen_policy).0 accepts_frozen

abbrev campaign_evidence : ObservationEvidence Decimal
campaign_evidence = record {
  campaign_id = text "123e4567-e89b-12d3-a456-426614174000";
  environment = "live_t4";
  started_at = utc 1000000;
  observed_until = utc 2419201000000;
  frozen_baseline_hash_sha256 = text digest_text;
  baseline_hash_matches = boolean true;
  policy_hash_matches = boolean true;
  cycle_interval_seconds = whole_value 14400;
  scope_count = whole_value 2;
  covered_scope_count = whole_value 2;
  expected_cycles = whole_value 336;
  attempted_cycles = whole_value 336;
  successful_cycles = whole_value 335;
  linked_successful_cycles = whole_value 335;
  schema_valid_successful_cycles = whole_value 335;
  maximum_unexplained_gap_seconds = whole_value 14400;
  bridge_rtt_p95_seconds = part_value 4000;
  bridge_rtt_p99_seconds = part_value 9000;
  read_only_violations = whole_value 0;
  order_route_attempts = whole_value 0;
  secret_leaks = whole_value 0;
  integrity_failures = whole_value 0;
  fail_closed_violations = whole_value 0;
  prohibited_data_mode_violations = whole_value 0;
  scenario_results =
      ("bridge_restart", boolean true)
      ∷ ("missing_data", boolean true)
      ∷ ("rate_limit", boolean true)
      ∷ ("reconnect", boolean true)
      ∷ ("replay_blocked", boolean true)
      ∷ ("roll_transition", boolean true)
      ∷ ("stale_data", boolean true)
      ∷ [];
}

accepts_evidence : validate_evidence looks_like_uuid campaign_evidence ≡ none
unfolding validate_evidence is_aware is_sha256 int_at_least is_lower_code is_duration scenario_names
accepts_evidence = refl

evidence-IsSound : IsSound looks_like_uuid campaign_evidence
evidence-IsSound = (validate_evidence_iff looks_like_uuid campaign_evidence).0 accepts_evidence

validate_evidence_iff_example : IsSound looks_like_uuid campaign_evidence
validate_evidence_iff_example =
    (validate_evidence_iff looks_like_uuid campaign_evidence).0 accepts_evidence

-- The campaign passes its gate.
evaluate_observation-passed_iff_example :
    let r = graded_report looks_like_uuid digest_of campaign_evidence frozen_policy in
    (r.v1_gate_passed ≡ true) ↔ IsMet campaign_evidence frozen_policy
evaluate_observation-passed_iff_example =
    evaluate_observation-passed_iff looks_like_uuid digest_of campaign_evidence frozen_policy
      (graded_report looks_like_uuid digest_of campaign_evidence frozen_policy)
      (evaluate_observation-of_sound looks_like_uuid digest_of campaign_evidence frozen_policy
        accepts_frozen_policy evidence-IsSound)

-- A policy that is accepted, whose report cannot be stored.
abbrev long_code : String
long_code = "a_scenario_whose_name_has_more_than_fifty_five_characters"

abbrev long_policy : ObservationPolicy Decimal
long_policy = policy_with (text long_code ∷ [])
