-- ===== src/Observation/Report.antt =====
-- src/crypto_agent/observation.py: `evaluate_observation`, which grades the evidence of a campaign
-- by the policy, and `_validate_report`, which a report has to pass before it is stored.
pub mod Grades
pub mod Scenarios
pub mod Taken
pub mod Gate
pub mod Ids
pub mod Stored
use agent_crypto.Base.{
  ℕ, ◌-◌, ◌/◌, String, Bool, true, false, ◌&&◌, ◌||◌, not, List, [], ◌∷◌, ◌++◌, map, any, all,
  is_empty, leb_ℤ, ℤ, pos, ◌==◌, text_eq, if◌then◌else◌, Option, none, some,
}
use Prim.Native.String.{◌++◌ as append}
use agent_crypto.Numbers.{
  Numbers, Value, absent, is_true, count_of, number_of, whole, boolean, text, number,
}
use agent_crypto.Checked.{Checked, accepted, rejected, crashed, Check, first_error}
use agent_crypto.Clock.{Datetime}
use agent_crypto.Patterns.{is_lower_code}
use agent_crypto.Observation.Policy.{
  ObservationPolicy, validate_observation_policy, minimum_elapsed_seconds, text_of, all_different,
}
use agent_crypto.Observation.Fields.{aware, canonical_uuid, digest}
use agent_crypto.Observation.Evidence.{ObservationEvidence, validate_evidence}
use agent_crypto.Observation.Criteria.{
  CriterionStatus, pass, fail, not_observed, CriterionResult, plain, result, is_pass, is_fail,
  is_not_observed, minimum, minimum_optional, maximum_optional, flag, zero_count, coverage,
  count_match, latency, rate,
}

pub record ObservationQualityReport (N : Type 0) : Type 0 where
  pub campaign_id : Value N
  pub generated_at : Datetime
  pub observed_until : Datetime
  pub elapsed_seconds : ℤ
  pub overall_status : CriterionStatus
  pub v1_gate_passed : Bool
  pub policy_id : Value N
  pub policy_hash_sha256 : Value N
  pub frozen_baseline_hash_sha256 : Value N
  pub criteria : List (CriterionResult N)

pub overall : List CriterionStatus → CriterionStatus
overall mandatory =
    if any is_fail mandatory
    then fail
    else (if any is_not_observed mandatory then not_observed else pass)

pub scenario_id : String → String
scenario_id name = append "scenario_" name

abbrev pub same_flag : Bool → Bool → Bool
same_flag true b = b
same_flag false b = not b

module _ {N : Type 0} where
  -- `dict(results).get(name)`: the last pair with the name.
  pub scenario_result : String → List (String × Value N) → Option (Value N)
  scenario_result name [] = none
  scenario_result name ((key, value) ∷ rest) =
      let here = if text_eq key name then some value else none in
      elim (scenario_result name rest) [ none ↦ here | some v ↦ some v ]

  abbrev pub mandatory_criteria : List (CriterionResult N) → List CriterionStatus
  mandatory_criteria [] = []
  mandatory_criteria (c ∷ cs) =
      let rest = mandatory_criteria cs in if c.mandatory then c.status ∷ rest else rest

  pub criterion_ids : List (CriterionResult N) → List String
  criterion_ids = map (λ c. c.criterion_id)

  pub gate_expected : ObservationQualityReport N → Bool
  gate_expected r =
      let mandatory = mandatory_criteria r.criteria in
      not (is_empty mandatory) && (is_pass r.overall_status && all is_pass mandatory)

module _ {N : Type 0} ⦃o : Numbers N⦄ where
  -- The results are booleans, or there is none.
  pub scenario_status : Option (Value N) → CriterionStatus
  scenario_status none = not_observed
  scenario_status (some v) = if is_true v then pass else fail

  pub scenario_criterion : List (String × Value N) → String → CriterionResult N
  unfolding scenario_result scenario_status scenario_id
  scenario_criterion results name =
      result (scenario_id name) (scenario_status (scenario_result name results))
        (plain (elim (scenario_result name results) [ none ↦ text "not_observed" | some v ↦ v ]))
        (plain (boolean true))

  -- `max(0, int((observed_until - started_at).total_seconds()))`, exact for spans below 2 ^ 33
  -- seconds, up to which a float tells microseconds apart.
  abbrev pub elapsed_of : ObservationEvidence N → ℕ
  elapsed_of e = (e.observed_until.instant - e.started_at.instant) / 1000000

  abbrev pub gap_limit : ObservationEvidence N → ObservationPolicy N → N
  gap_limit e p =
      o.mul (whole (count_of e.cycle_interval_seconds))
        (number_of p.maximum_unexplained_gap_multiplier)

  pub fixed_criteria : ObservationEvidence N → ObservationPolicy N → List (CriterionResult N)
  unfolding minimum minimum_optional maximum_optional flag zero_count coverage count_match latency
      rate
  fixed_criteria e p =
      minimum "real_elapsed_time" (elapsed_of e) (minimum_elapsed_seconds p) true
      ∷ flag "live_environment_only" (text_eq e.environment "live_t4") "live_t4"
      ∷ flag "frozen_baseline" (is_true e.baseline_hash_matches && is_true e.policy_hash_matches)
          "all frozen hashes match"
      ∷ coverage (count_of e.scope_count) (count_of e.covered_scope_count)
      ∷ minimum_optional "cycle_attempt_rate"
          (rate (count_of e.attempted_cycles) (count_of e.expected_cycles))
          (number_of p.minimum_cycle_attempt_rate)
      ∷ minimum_optional "cycle_success_rate"
          (rate (count_of e.successful_cycles) (count_of e.attempted_cycles))
          (number_of p.minimum_cycle_success_rate)
      ∷ count_match "exact_batch_analysis_linkage" (count_of e.linked_successful_cycles)
          (count_of e.successful_cycles)
      ∷ count_match "bridge_schema_conformance" (count_of e.schema_valid_successful_cycles)
          (count_of e.successful_cycles)
      ∷ maximum_optional "maximum_unexplained_gap_seconds" e.maximum_unexplained_gap_seconds
          (gap_limit e p)
      ∷ latency e p
      ∷ zero_count "read_only_violations" (count_of e.read_only_violations)
      ∷ zero_count "order_route_attempts" (count_of e.order_route_attempts)
      ∷ zero_count "secret_leaks" (count_of e.secret_leaks)
      ∷ zero_count "integrity_failures" (count_of e.integrity_failures)
      ∷ zero_count "fail_closed_violations" (count_of e.fail_closed_violations)
      ∷ zero_count "prohibited_data_mode_violations" (count_of e.prohibited_data_mode_violations)
      ∷ []

  abbrev pub scenario_criteria :
      ObservationEvidence N → ObservationPolicy N → List (CriterionResult N)
  scenario_criteria e p =
      map (λ v. scenario_criterion e.scenario_results (text_of v)) p.mandatory_scenarios

-- `policy.policy_hash_sha256` is the SHA-256 of the policy's canonical JSON, an argument here.
module _ {N : Type 0} ⦃o : Numbers N⦄ (is_uuid : String → Bool)
    (policy_hash : ObservationPolicy N → String) where
  pub graded_report : ObservationEvidence N → ObservationPolicy N → ObservationQualityReport N
  unfolding fixed_criteria scenario_criterion overall
  graded_report e p =
      let criteria = fixed_criteria e p ++ scenario_criteria e p in
      let mandatory = mandatory_criteria criteria in
      let status = overall mandatory in
      record {
        campaign_id = e.campaign_id;
        generated_at = e.observed_until;
        observed_until = e.observed_until;
        elapsed_seconds = pos (elapsed_of e);
        overall_status = status;
        v1_gate_passed = is_pass status && all is_pass mandatory;
        policy_id = p.policy_id;
        policy_hash_sha256 = text (policy_hash p);
        frozen_baseline_hash_sha256 = e.frozen_baseline_hash_sha256;
        criteria = criteria;
      }

  abbrev after_evidence :
      Option String
      → ObservationEvidence N
      → ObservationPolicy N
      → Checked (ObservationQualityReport N)
  after_evidence none e p = accepted (graded_report e p)
  after_evidence (some message) e p = rejected (message ∷ [])

  abbrev after_policy :
      Checked (Unit {0})
      → ObservationEvidence N
      → ObservationPolicy N
      → Checked (ObservationQualityReport N)
  after_policy (accepted _) e p = after_evidence (validate_evidence is_uuid e) e p
  after_policy (rejected errors) e p = rejected errors
  after_policy crashed e p = crashed

  pub evaluate_observation :
      ObservationEvidence N → ObservationPolicy N → Checked (ObservationQualityReport N)
  unfolding graded_report validate_evidence validate_observation_policy
  evaluate_observation e p = after_policy (validate_observation_policy p) e p

-- The tests in their order. The types of the fields give the tests `isinstance(...)` and
-- `type(...) is` on the statuses, the flags and the elapsed time.
module _ {N : Type 0} (is_uuid : String → Bool) where
  pub report_checks : ObservationQualityReport N → List Check
  unfolding criterion_ids gate_expected
  report_checks r =
      (canonical_uuid is_uuid r.campaign_id, "campaign_id must be a UUID")
      ∷ aware r.generated_at "generated_at must be timezone-aware"
      ∷ aware r.observed_until "observed_until must be timezone-aware"
      ∷ (digest r.policy_hash_sha256, "policy_hash_sha256 must be lowercase SHA-256")
      ∷ (
        digest r.frozen_baseline_hash_sha256,
        "frozen_baseline_hash_sha256 must be lowercase SHA-256",
      )
      ∷ (leb_ℤ (pos 0) r.elapsed_seconds, "Observation report elapsed time is invalid")
      ∷ (
        r.generated_at.instant == r.observed_until.instant,
        "Observation report generation boundary is invalid",
      )
      ∷ (
        not (is_empty r.criteria)
            && (all_different (criterion_ids r.criteria)
                && all is_lower_code (criterion_ids r.criteria)),
        "Observation report criteria are invalid",
      )
      ∷ (same_flag r.v1_gate_passed (gate_expected r), "Observation report gate is inconsistent")
      ∷ []

  pub validate_report : ObservationQualityReport N → Option String
  unfolding report_checks
  validate_report r = first_error (report_checks r)
