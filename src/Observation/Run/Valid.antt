-- ===== src/Observation/Run/Valid.antt =====
-- That the records which a run makes are valid, and so can be stored.
use agent_crypto.Base.{
  ℕ, ◌≤◌, ◌<◌, false, String, true, ◌≡◌, inl, inr, refl, Option, none, some, arith, Bool-cases, pos,
}
use agent_crypto.Numbers.{Numbers, number, whole}
use agent_crypto.Numbers.Laws.{IntLaws}
use agent_crypto.Numbers.Ranges.{IsIntFrom}
use agent_crypto.Clock.{utc, is_aware}
use agent_crypto.Patterns.{is_upper_code}
use agent_crypto.Observation.Fields.{canonical_uuid}
use agent_crypto.Observation.Cycle.{
  ObservationCycle, ObservationCycleExecution, is_scope_key, optional_code, validate_cycle,
  validate_cycle_execution,
}
use agent_crypto.Observation.Cycle.Parts.{IsHeaded, IsSuccess, IsFailure, IsMissed}
use agent_crypto.Observation.Cycle.Shapes.{validate_cycle_iff, execution_checks_of}
use agent_crypto.Observation.Run.{
  Store, CampaignRow, returned, refused, slot, slot_end, Surroundings, stored, insert_cycle,
  missed_cycle, failure_cycle, success_cycle, plan_of, safe_code, admitted,
}

default-upper : is_upper_code "OBSERVATION_CYCLE_EXECUTION_FAILED" ≡ true
unfolding is_upper_code
default-upper = refl

pub safe_code-upper : (code : Option String) → is_upper_code (safe_code code) ≡ true
safe_code-upper none = default-upper
safe_code-upper (some code) = elim (Bool-cases (is_upper_code code)) [
  | inl safe ↦ rw safe safe
  | inr unsafe ↦ rw unsafe default-upper
]

module _ {N : Type 0} ⦃o : Numbers N⦄ (w : Surroundings N) (c : CampaignRow) where
  -- What a run from slot `from` on relies on: `uuid5` gives canonical UUIDs, the clock of PostgreSQL does
  -- not go back during the execution, and PostgreSQL takes a record that is without links, for a slot of
  -- the schedule that has none yet: a missed one once the slot is over, a failure within it. Of the
  -- records of a success, whose links are keys of other tables, nothing is assumed.
  pub record IsReady (from : ℕ) : Type 0 where
    pub traces : (n : ℕ) → w.is_uuid (w.trace_id n) ≡ true
    pub clock : c.database_now ≤ w.finished_at
    pub takes_missed :
        (n : ℕ)
        → from ≤ n
        → slot c n ≤ c.planned_ends_at
        → slot_end c n < c.database_now
        → w.takes (missed_cycle w c n) ≡ true
    pub takes_failure :
        (n : ℕ) (code : String)
        → from ≤ n
        → slot c n ≤ c.planned_ends_at
        → slot c n ≤ c.database_now
        → c.database_now ≤ slot_end c n
        → is_upper_code code ≡ true
        → w.takes (failure_cycle w c n code) ≡ true

  pub admitted_header :
      (campaign : Option CampaignRow)
      → admitted w campaign ≡ returned c
      → (canonical_uuid w.is_uuid w.campaign_id ≡ true) × (is_scope_key w.scope_key ≡ true)
  unfolding admitted
  admitted_header campaign h = (ground arith, ground arith)

  pub insert_cycle-taken :
      (x : ObservationCycle N) (s : Store N)
      → validate_cycle w.is_uuid x ≡ none
      → w.takes x ≡ true
      → insert_cycle w x s ≡ returned (stored w x s)
  unfolding insert_cycle
  insert_cycle-taken x s h k = ground arith

  pub insert_cycle-untaken :
      (x : ObservationCycle N) (s : Store N)
      → validate_cycle w.is_uuid x ≡ none
      → w.takes x ≡ false
      → insert_cycle w x s ≡ refused "OBSERVATION_CYCLE_UNAVAILABLE"
  unfolding insert_cycle
  insert_cycle-untaken x s h k = ground arith

  pub insert_cycle-invalid :
      (x : ObservationCycle N) (s : Store N) (message : String)
      → validate_cycle w.is_uuid x ≡ some message
      → insert_cycle w x s ≡ refused "OBSERVATION_ERROR"
  unfolding insert_cycle
  insert_cycle-invalid x s message h = ground arith

  module _ (laws : IntLaws o) (campaign : canonical_uuid w.is_uuid w.campaign_id ≡ true)
      (scope : is_scope_key w.scope_key ≡ true) (from : ℕ) (ready : IsReady from) where
    header :
        (x : ObservationCycle N) (n : ℕ)
        → 1 ≤ n
        → x.campaign_id ≡ w.campaign_id
        → x.scope_key ≡ w.scope_key
        → x.sequence_no ≡ number (whole n)
        → is_aware x.expected_at ≡ true
        → optional_code x.error_code ≡ true
        → x.gap_explanation_code ≡ none
        → IsHeaded w.is_uuid x
    header x n h same_campaign same_scope same_sequence expected error gap = record {
      campaign = rw same_campaign campaign;
      expected = expected;
      scope = rw same_scope scope;
      sequence = rw same_sequence (n, laws.int?-integer (pos n), h);
      error = error;
      gap = rw gap refl;
    }

    missed_cycle-IsMissed : (n : ℕ) → IsMissed (missed_cycle w c n)
    unfolding missed_cycle
    missed_cycle-IsMissed n = record {
      outcome = refl;
      no_start = refl;
      no_end = refl;
      no_error = refl;
      no_gap = refl;
      no_batch = refl;
      no_run = refl;
      no_input = refl;
      no_schema = refl;
      no_payload = refl;
      no_rtt = refl;
      no_trace = refl;
    }

    failure_cycle-IsFailure :
        (n : ℕ) (code : String) → IsFailure w.is_uuid (failure_cycle w c n code)
    unfolding failure_cycle is_aware
    failure_cycle-IsFailure n code = record {
      outcome = refl;
      span = (utc c.database_now, utc w.finished_at, refl, refl, refl, refl, ready.clock);
      error = (code, refl);
      no_gap = refl;
      no_batch = refl;
      no_run = refl;
      no_input = refl;
      no_schema = refl;
      no_payload = refl;
      trace = ready.traces n;
    }

    success_cycle-IsSuccess :
        (n : ℕ) (x : ObservationCycleExecution N)
        → validate_cycle_execution w.is_uuid x (plan_of w c n) ≡ none
        → IsIntFrom 1 x.bridge_schema_version
        → IsSuccess w.is_uuid (success_cycle w c n x)
    unfolding success_cycle is_aware
    success_cycle-IsSuccess n x valid schema =
        let (payload, input, batch, run, rtt) =
          execution_checks_of w.is_uuid x (plan_of w c n) valid in
        record {
          outcome = refl;
          span = (utc c.database_now, utc w.finished_at, refl, refl, refl, refl, ready.clock);
          no_error = refl;
          no_gap = refl;
          batch = batch;
          run = run;
          schema = schema;
          rtt = rtt;
          input = input;
          payload = payload;
          trace = ready.traces n;
        }

    pub missed-valid : (n : ℕ) → 1 ≤ n → validate_cycle w.is_uuid (missed_cycle w c n) ≡ none
    unfolding missed_cycle is_aware
    missed-valid n h = (validate_cycle_iff w.is_uuid (missed_cycle w c n)).1 (
      header (missed_cycle w c n) n h refl refl refl refl refl refl,
      inr (inr (missed_cycle-IsMissed n)),
    )

    pub failure-valid :
        (n : ℕ) (code : String)
        → 1 ≤ n
        → is_upper_code code ≡ true
        → validate_cycle w.is_uuid (failure_cycle w c n code) ≡ none
    unfolding failure_cycle is_aware
    failure-valid n code h safe = (validate_cycle_iff w.is_uuid (failure_cycle w c n code)).1 (
      header (failure_cycle w c n code) n h refl refl refl refl safe refl,
      inr (inl (failure_cycle-IsFailure n code)),
    )

    pub success-valid :
        (n : ℕ) (x : ObservationCycleExecution N)
        → 1 ≤ n
        → validate_cycle_execution w.is_uuid x (plan_of w c n) ≡ none
        → IsIntFrom 1 x.bridge_schema_version
        → validate_cycle w.is_uuid (success_cycle w c n x) ≡ none
    unfolding success_cycle is_aware
    success-valid n x h valid schema = (validate_cycle_iff w.is_uuid (success_cycle w c n x)).1 (
      header (success_cycle w c n x) n h refl refl refl refl refl refl,
      inl (success_cycle-IsSuccess n x valid schema),
    )
