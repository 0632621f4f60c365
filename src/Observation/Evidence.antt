-- ===== src/Observation/Evidence.antt =====
-- src/crypto_agent/observation.py: `ObservationEvidence` and `_validate_evidence`.
pub mod Sound
use agent_crypto.Base.{
  String, Bool, true, false, ◌&&◌, List, [], ◌∷◌, all, map, leb, Option, none, some,
}
use agent_crypto.Numbers.{Numbers, Value, is_boolean, is_int_value, count_of}
use agent_crypto.Checked.{Check, first_error}
use agent_crypto.Clock.{Datetime, not_after}
use agent_crypto.Patterns.{is_lower_code}
use agent_crypto.Observation.Policy.{all_different}
use agent_crypto.Observation.Fields.{aware, canonical_uuid, digest, is_count, is_duration}

pub record ObservationEvidence (N : Type 0) : Type 0 where
  pub campaign_id : Value N
  pub environment : String
  pub started_at : Datetime
  pub observed_until : Datetime
  pub frozen_baseline_hash_sha256 : Value N
  pub baseline_hash_matches : Value N
  pub policy_hash_matches : Value N
  pub cycle_interval_seconds : Value N
  pub scope_count : Value N
  pub covered_scope_count : Value N
  pub expected_cycles : Value N
  pub attempted_cycles : Value N
  pub successful_cycles : Value N
  pub linked_successful_cycles : Value N
  pub schema_valid_successful_cycles : Value N
  pub maximum_unexplained_gap_seconds : Value N
  pub bridge_rtt_p95_seconds : Value N
  pub bridge_rtt_p99_seconds : Value N
  pub read_only_violations : Value N
  pub order_route_attempts : Value N
  pub secret_leaks : Value N
  pub integrity_failures : Value N
  pub fail_closed_violations : Value N
  pub prohibited_data_mode_violations : Value N
  pub scenario_results : List (String × Value N)

module _ {N : Type 0} where
  unfoldable pub scenario_names : List (String × Value N) → List String
  scenario_names = map (λ item. item.0)

  abbrev pub scenario_values : List (String × Value N) → List (Value N)
  scenario_values = map (λ item. item.1)

  pub integer_fields : ObservationEvidence N → List (Value N)
  integer_fields e =
      e.cycle_interval_seconds ∷ e.scope_count ∷ e.covered_scope_count ∷ e.expected_cycles
      ∷ e.attempted_cycles ∷ e.successful_cycles ∷ e.linked_successful_cycles
      ∷ e.schema_valid_successful_cycles ∷ e.read_only_violations ∷ e.order_route_attempts
      ∷ e.secret_leaks ∷ e.integrity_failures ∷ e.fail_closed_violations
      ∷ e.prohibited_data_mode_violations ∷ []

module _ {N : Type 0} ⦃o : Numbers N⦄ (is_uuid : String → Bool) where
  -- The tests in their order; a later one compares counters that an earlier one has checked.
  pub evidence_checks : ObservationEvidence N → List Check
  unfolding scenario_names integer_fields
  evidence_checks e =
      (canonical_uuid is_uuid e.campaign_id, "campaign_id must be a UUID")
      ∷ aware e.started_at "started_at must be timezone-aware"
      ∷ aware e.observed_until "observed_until must be timezone-aware"
      ∷ (
        digest e.frozen_baseline_hash_sha256,
        "frozen_baseline_hash_sha256 must be lowercase SHA-256",
      )
      ∷ (all is_count (integer_fields e), "Observation counters must be non-negative integers")
      ∷ (leb 60 (count_of e.cycle_interval_seconds), "Observation cycle interval is invalid")
      ∷ (
        is_boolean e.baseline_hash_matches && is_boolean e.policy_hash_matches,
        "Observation baseline attestations must be booleans",
      )
      ∷ (
        leb (count_of e.covered_scope_count) (count_of e.scope_count),
        "Covered observation scope count is invalid",
      )
      ∷ (
        leb (count_of e.successful_cycles) (count_of e.attempted_cycles),
        "Successful observation cycle count is invalid",
      )
      ∷ (
        leb (count_of e.linked_successful_cycles) (count_of e.successful_cycles)
            && leb (count_of e.schema_valid_successful_cycles) (count_of e.successful_cycles),
        "Successful observation evidence counts are invalid",
      )
      ∷ (not_after e.started_at e.observed_until, "Observation end precedes its start")
      ∷ (
        all_different (scenario_names e.scenario_results)
            && (all is_lower_code (scenario_names e.scenario_results)
                && all is_boolean (scenario_values e.scenario_results)),
        "Observation scenario results are invalid",
      )
      ∷ (
        is_duration e.maximum_unexplained_gap_seconds
            && (is_duration e.bridge_rtt_p95_seconds && is_duration e.bridge_rtt_p99_seconds),
        "Observation duration metric is invalid",
      )
      ∷ []

  -- `none` is a normal return, and else the message of the ObservationError.
  unfoldable pub validate_evidence : ObservationEvidence N → Option String
  unfolding evidence_checks
  validate_evidence e = first_error (evidence_checks e)
