-- ===== src/Observation/Cycle.antt =====
-- src/crypto_agent/observation.py: the records of one observation cycle, with `_validate_cycle` and
-- `_validate_cycle_execution`.
pub mod Parts
pub mod Shapes
use agent_crypto.Base.{
  ℕ, String, Bool, true, false, ◌&&◌, ◌||◌, not, List, [], ◌∷◌, ◌++◌, codes, length, leb, text_eq,
  contains, is_some, is_none, Option, none, some, if◌then◌else◌,
}
use agent_crypto.Numbers.{
  Numbers, Value, absent, number, is_absent, int_at_least, equals_int, is_true, is_false, text,
  is_text,
}
use agent_crypto.Checked.{Check, first_error}
use agent_crypto.Clock.{Datetime, is_aware, not_after}
use agent_crypto.Patterns.{is_upper_code, has_ink}
use agent_crypto.Observation.Fields.{aware, canonical_uuid, digest}

pub record ObservationCycle (N : Type 0) : Type 0 where
  pub campaign_id : Value N
  pub scope_key : String
  pub sequence_no : Value N
  pub expected_at : Datetime
  pub outcome : String
  pub started_at : Option Datetime
  pub finished_at : Option Datetime
  pub error_code : Option String
  pub gap_explanation_code : Option String
  pub t4_batch_id : Value N
  pub research_run_id : Value N
  pub analysis_input_hash : Value N
  pub bridge_schema_version : Value N
  pub raw_payload_hash : Value N
  pub bridge_rtt_milliseconds : Value N
  pub trace_id : Value N

pub record ObservationCyclePlan (N : Type 0) : Type 0 where
  pub campaign_id : Value N
  pub scope_key : String
  pub sequence_no : ℕ
  pub expected_at : ℕ
  pub started_at : ℕ
  pub trace_id : String

pub record ObservationCycleExecution (N : Type 0) : Type 0 where
  pub t4_batch_id : Value N
  pub research_run_id : Value N
  pub analysis_input_hash : Value N
  pub bridge_schema_version : Value N
  pub raw_payload_hash : Value N
  pub bridge_rtt_milliseconds : Value N
  pub trace_id : Value N
  pub environment : String
  pub external_delivery_eligible : Value N
  pub replay : Value N
  pub synthetic : Value N

-- `code is None or _SAFE_UPPER_CODE.fullmatch(code) is not None`
abbrev pub optional_code : Option String → Bool
optional_code none = true
optional_code (some code) = is_upper_code code

-- `value is None or value.tzinfo is not None`
abbrev pub optional_aware : Option Datetime → Bool
optional_aware none = true
optional_aware (some t) = is_aware t

abbrev pub ends_in_order : Option Datetime → Option Datetime → Bool
ends_in_order (some start) (some end) = not_after start end
ends_in_order _ _ = true

-- `scope_key.strip() and len(scope_key) <= 256`
abbrev pub is_scope_key : String → Bool
is_scope_key scope_key = has_ink scope_key && leb (length (codes scope_key)) 256

module _ {N : Type 0} ⦃o : Numbers N⦄ where
  success_complete : ObservationCycle N → Bool
  success_complete c =
      is_some c.started_at
      && (is_some c.finished_at
          && (is_none c.error_code
              && (is_none c.gap_explanation_code
                  && (not (is_absent c.t4_batch_id)
                      && (not (is_absent c.research_run_id)
                          && (not (is_absent c.analysis_input_hash)
                              && (not (is_absent c.bridge_schema_version)
                                  && (not (is_absent c.raw_payload_hash)
                                      && (not (is_absent c.bridge_rtt_milliseconds)
                                          && not (is_absent c.trace_id))))))))))

  failure_complete : ObservationCycle N → Bool
  failure_complete c =
      is_some c.started_at
      && (is_some c.finished_at
          && (is_some c.error_code
              && (is_none c.gap_explanation_code
                  && (is_absent c.t4_batch_id
                      && (is_absent c.research_run_id
                          && (is_absent c.analysis_input_hash
                              && (is_absent c.bridge_schema_version
                                  && (is_absent c.raw_payload_hash
                                      && not (is_absent c.trace_id)))))))))

  pub missed_empty : ObservationCycle N → Bool
  missed_empty c =
      is_none c.started_at
      && (is_none c.finished_at
          && (is_none c.error_code
              && (is_none c.gap_explanation_code
                  && (is_absent c.t4_batch_id
                      && (is_absent c.research_run_id
                          && (is_absent c.analysis_input_hash
                              && (is_absent c.bridge_schema_version
                                  && (is_absent c.raw_payload_hash
                                      && (is_absent c.bridge_rtt_milliseconds
                                          && is_absent c.trace_id)))))))))

  pub time_checks : ObservationCycle N → List Check
  time_checks c =
      (optional_aware c.started_at, "started_at must be timezone-aware")
      ∷ (optional_aware c.finished_at, "finished_at must be timezone-aware")
      ∷ (ends_in_order c.started_at c.finished_at, "Observation cycle end precedes its start")
      ∷ []

module _ {N : Type 0} ⦃o : Numbers N⦄ (is_uuid : String → Bool) where
  pub success_checks : ObservationCycle N → List Check
  unfolding success_complete
  success_checks c =
      (success_complete c, "Successful observation cycle evidence is incomplete")
      ∷ (digest c.raw_payload_hash, "raw_payload_hash must be lowercase SHA-256")
      ∷ (digest c.analysis_input_hash, "analysis_input_hash must be lowercase SHA-256")
      ∷ (
        int_at_least 1 c.t4_batch_id
            && (int_at_least 1 c.research_run_id
                && (int_at_least 1 c.bridge_schema_version
                    && int_at_least 0 c.bridge_rtt_milliseconds)),
        "Successful observation cycle links are invalid",
      )
      ∷ (canonical_uuid is_uuid c.trace_id, "trace_id must be a UUID")
      ∷ []

  pub failure_checks : ObservationCycle N → List Check
  unfolding failure_complete
  failure_checks c =
      (failure_complete c, "Failed observation cycle evidence is incomplete")
      ∷ (canonical_uuid is_uuid c.trace_id, "trace_id must be a UUID")
      ∷ []

  -- The `if`, `elif` and `else` on the outcome.
  outcome_checks : ObservationCycle N → List Check
  unfolding success_checks failure_checks missed_empty
  outcome_checks c =
      if text_eq c.outcome "success"
      then success_checks c
      else (if text_eq c.outcome "failure"
          then failure_checks c
          else ((missed_empty c, "Missed observation cycle evidence is invalid") ∷ []))

  header_checks : ObservationCycle N → List Check
  header_checks c =
      (canonical_uuid is_uuid c.campaign_id, "campaign_id must be a UUID")
      ∷ aware c.expected_at "expected_at must be timezone-aware"
      ∷ (is_scope_key c.scope_key, "Observation cycle scope is invalid")
      ∷ (int_at_least 1 c.sequence_no, "Observation cycle sequence is invalid")
      ∷ (
        contains ("success" ∷ "failure" ∷ "missed" ∷ []) c.outcome,
        "Observation cycle outcome is invalid",
      )
      ∷ (optional_code c.error_code, "Observation cycle error code is invalid")
      ∷ (optional_code c.gap_explanation_code, "Observation gap explanation is invalid")
      ∷ []

  cycle_checks : ObservationCycle N → List Check
  unfolding header_checks outcome_checks time_checks
  cycle_checks c = header_checks c ++ (outcome_checks c ++ time_checks c)

  -- `none` is a normal return, and else the message of the ObservationError.
  unfoldable pub validate_cycle : ObservationCycle N → Option String
  unfolding cycle_checks
  validate_cycle c = first_error (cycle_checks c)

  execution_checks : ObservationCycleExecution N → ObservationCyclePlan N → List Check
  execution_checks x plan =
      (is_text plan.trace_id x.trace_id, "Observation monitoring trace does not match")
      ∷ (canonical_uuid is_uuid x.trace_id, "trace_id must be a UUID")
      ∷ (digest x.raw_payload_hash, "raw_payload_hash must be lowercase SHA-256")
      ∷ (digest x.analysis_input_hash, "analysis_input_hash must be lowercase SHA-256")
      ∷ (
        int_at_least 1 x.t4_batch_id
            && (int_at_least 1 x.research_run_id
                && (equals_int 5 x.bridge_schema_version
                    && int_at_least 0 x.bridge_rtt_milliseconds)),
        "Observation execution links are invalid",
      )
      ∷ (
        text_eq x.environment "live_t4"
            && (is_true x.external_delivery_eligible
                && (is_false x.replay && is_false x.synthetic)),
        "Observation execution is not eligible live T4 data",
      )
      ∷ []

  unfoldable pub validate_cycle_execution :
      ObservationCycleExecution N → ObservationCyclePlan N → Option String
  unfolding execution_checks
  validate_cycle_execution x plan = first_error (execution_checks x plan)
