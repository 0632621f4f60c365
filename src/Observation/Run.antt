-- ===== src/Observation/Run.antt =====
-- src/crypto_agent/observation.py: `ObservationRepository.run_cycle` and `_insert_cycle`, for one
-- frozen scope of one campaign.
--
-- The store holds the rows of that scope, the newest first, and the research inputs linked to them.
-- A transaction is a function from the store to a result with the new store; where it raises, the
-- old store stands. Times are instants in UTC. `json.dumps` and SHA-256, `uuid5`, what PostgreSQL
-- takes, and the pipeline that `execute` runs are arguments.
pub mod Due
pub mod Ledger
pub mod Ends
pub mod Valid
pub mod Outcomes
pub mod Records
use agent_crypto.Base.{
  ℕ, zero, suc, ◌+◌, ◌*◌, ◌-◌, String, Bool, true, false, List, [], ◌∷◌, Option, none, some,
  contains, text_eq, leb, ltb, pos, if◌then◌else◌, ◌==◌,
}
use agent_crypto.Numbers.{Numbers, Value, absent, number, text, whole, count_of}
use agent_crypto.Clock.{Datetime, utc, seconds}
use agent_crypto.Patterns.{is_upper_code}
use agent_crypto.Observation.Fields.{canonical_uuid}
use agent_crypto.Observation.Cycle.{
  ObservationCycle, ObservationCyclePlan, ObservationCycleExecution, is_scope_key, validate_cycle,
  validate_cycle_execution,
}

-- A row of t4_observation_cycles.
pub record Row (N : Type 0) : Type 0 where
  pub cycle : ObservationCycle N
  pub previous_cycle_hash : Option String
  pub content_hash : String

pub record Store (N : Type 0) : Type 0 where
  pub rows : List (Row N)
  pub research_inputs : List (ObservationCycle N)

-- A row of t4_observation_campaigns, with `clock_timestamp()`.
pub record CampaignRow : Type 0 where
  pub environment : String
  pub started_at : ℕ
  pub planned_ends_at : ℕ
  pub cycle_interval_seconds : ℕ
  pub scope_manifest : List String
  pub database_now : ℕ

-- A normal return, or an ObservationError with its code.
pub data Run {ℓ} (A : Type ℓ) : Type ℓ where
  returned : A → Run A
  refused : String → Run A

infixl 5 ◌>>=◌
abbrev pub ◌>>=◌ {ℓ κ} : {A : Type ℓ} {B : Type κ} → Run A → (A → Run B) → Run B
returned a >>= f = f a
refused code >>= f = refused code

abbrev pub require : Bool → String → Run (Unit {0})
require true code = returned tt
require false code = refused code

infixl 5 ◌>>◌
abbrev pub ◌>>◌ {ℓ} : {B : Type ℓ} → Run (Unit {0}) → Run B → Run B
m >> k = m >>= λ _. k

-- What `execute` does: it returns, or it raises with an attribute `code` that may be a text.
pub data Executed (N : Type 0) : Type 0 where
  executed : ObservationCycleExecution N → Executed N
  raised : Option String → Executed N

pub record ObservationCycleRunResult (N : Type 0) : Type 0 where
  pub sequence_no : ℕ
  pub expected_at : ℕ
  pub outcome : String
  pub trace_id : Option String
  pub content_hash : Option String
  pub missed_cycles_recorded : ℕ
  pub t4_batch_id : Value N
  pub research_run_id : Value N
  pub error_code : Option String

-- Where the loop over expired slots stops.
pub data Stop : Type 0 where
  complete early due : Stop

-- `started_at + timedelta(seconds=interval_seconds * sequence_no)`
abbrev pub slot : CampaignRow → ℕ → ℕ
slot c n = c.started_at + seconds (c.cycle_interval_seconds * n)

-- `expected_at + timedelta(seconds=interval_seconds)`
abbrev pub slot_end : CampaignRow → ℕ → ℕ
slot_end c n = slot c n + seconds c.cycle_interval_seconds

module _ {N : Type 0} where
  unfoldable pub newest_hash : List (Row N) → Option String
  newest_hash [] = none
  newest_hash (r ∷ rs) = some r.content_hash

  abbrev pub is_success : ObservationCycle N → Bool
  is_success c = text_eq c.outcome "success"

abbrev pub found : Option CampaignRow → Run CampaignRow
found none = refused "OBSERVATION_CAMPAIGN_NOT_FOUND"
found (some c) = returned c

abbrev pub safe_code : Option String → String
safe_code none = "OBSERVATION_CYCLE_EXECUTION_FAILED"
safe_code (some code) = if is_upper_code code then code else "OBSERVATION_CYCLE_EXECUTION_FAILED"

module _ {N : Type 0} ⦃o : Numbers N⦄ where
  unfoldable pub next_sequence : List (Row N) → ℕ
  next_sequence [] = 1
  next_sequence (r ∷ rs) = suc (count_of r.cycle.sequence_no)

-- The campaign and the scope that `run_cycle` is called for, and what it leaves to others.
pub record Surroundings (N : Type 0) : Type 0 where
  pub campaign_id : Value N
  pub scope_key : String
  pub is_uuid : String → Bool
  -- `deterministic_observation_trace_id` of the sequence number.
  pub trace_id : ℕ → String
  pub chain_hash : ObservationCycle N → Option String → String
  -- Whether PostgreSQL takes the record, with what its tables hold.
  pub takes : ObservationCycle N → Bool
  pub execute : ObservationCyclePlan N → Executed N
  pub finished_at : ℕ

module _ {N : Type 0} ⦃o : Numbers N⦄ (w : Surroundings N) where
  abbrev pub row_of : ObservationCycle N → List (Row N) → Row N
  row_of record_ rows = record {
    cycle = record_;
    previous_cycle_hash = newest_hash rows;
    content_hash = w.chain_hash record_ (newest_hash rows);
  }

  abbrev pub stored : ObservationCycle N → Store N → Store N
  stored record_ store = record {
    rows = row_of record_ store.rows ∷ store.rows;
    research_inputs =
        if is_success record_ then record_ ∷ store.research_inputs else store.research_inputs;
  }

  -- `_insert_cycle`. PostgreSQL's own refusal becomes OBSERVATION_CYCLE_UNAVAILABLE.
  unfoldable pub insert_cycle : ObservationCycle N → Store N → Run (Store N)
  insert_cycle record_ store = elim (validate_cycle w.is_uuid record_) [
    | some message ↦ refused "OBSERVATION_ERROR"
    | none ↦
        if w.takes record_
        then returned (stored record_ store)
        else refused "OBSERVATION_CYCLE_UNAVAILABLE"
  ]

  -- `ObservationCycle(...)` with the defaults of the fields that are not given.
  abbrev pub blank : CampaignRow → ℕ → String → ObservationCycle N
  blank c n kind = record {
    campaign_id = w.campaign_id;
    scope_key = w.scope_key;
    sequence_no = number (whole n);
    expected_at = utc (slot c n);
    outcome = kind;
    started_at = none;
    finished_at = none;
    error_code = none;
    gap_explanation_code = none;
    t4_batch_id = absent;
    research_run_id = absent;
    analysis_input_hash = absent;
    bridge_schema_version = absent;
    raw_payload_hash = absent;
    bridge_rtt_milliseconds = absent;
    trace_id = absent;
  }

  unfoldable pub missed_cycle : CampaignRow → ℕ → ObservationCycle N
  missed_cycle c n = blank c n "missed"

  unfoldable pub failure_cycle : CampaignRow → ℕ → String → ObservationCycle N
  failure_cycle c n code = record (blank c n "failure") {
    started_at = some (utc c.database_now);
    finished_at = some (utc w.finished_at);
    error_code = some code;
    trace_id = text (w.trace_id n);
  }

  unfoldable pub success_cycle : CampaignRow → ℕ → ObservationCycleExecution N → ObservationCycle N
  success_cycle c n x = record (blank c n "success") {
    started_at = some (utc c.database_now);
    finished_at = some (utc w.finished_at);
    t4_batch_id = x.t4_batch_id;
    research_run_id = x.research_run_id;
    analysis_input_hash = x.analysis_input_hash;
    bridge_schema_version = x.bridge_schema_version;
    raw_payload_hash = x.raw_payload_hash;
    bridge_rtt_milliseconds = x.bridge_rtt_milliseconds;
    trace_id = text (w.trace_id n);
  }

  -- `while True`: records each slot that has expired, and stops at the first that has not. The last
  -- number counts the slots recorded. `none` means that the fuel ran out.
  unfoldable pub catch_up :
      ℕ → CampaignRow → ℕ → ℕ → Store N → Option (Run (Stop × ℕ × ℕ × Store N))
  unfolding missed_cycle insert_cycle
  catch_up zero c n missed store = none
  catch_up (suc fuel) c n missed store =
      let next : Option (Run (Stop × ℕ × ℕ × Store N)) =
        elim (insert_cycle (missed_cycle c n) store) [
          | refused code ↦ some (refused code)
          | returned store' ↦ catch_up fuel c (suc n) (suc missed) store'
        ] in
      if ltb c.planned_ends_at (slot c n)
      then some (returned (complete, n, missed, store))
      else (if leb c.database_now (slot_end c n)
          then some
              (returned (if ltb c.database_now (slot c n) then early else due, n, missed, store))
          else next)

  abbrev pub plan_of : CampaignRow → ℕ → ObservationCyclePlan N
  plan_of c n = record {
    campaign_id = w.campaign_id;
    scope_key = w.scope_key;
    sequence_no = n;
    expected_at = slot c n;
    started_at = c.database_now;
    trace_id = w.trace_id n;
  }

  unfoldable pub judged :
      CampaignRow → ℕ → ObservationCycleExecution N → Option String → ObservationCycle N
  unfolding failure_cycle success_cycle
  judged c n x none = success_cycle c n x
  judged c n x (some message) = failure_cycle c n "OBSERVATION_ERROR"

  -- The record that the execution leads to: the `try` with its `except`, and the branches after it.
  unfoldable pub outcome_cycle : CampaignRow → ℕ → Executed N → ObservationCycle N
  unfolding failure_cycle judged
  outcome_cycle c n (raised code) = failure_cycle c n (safe_code code)
  outcome_cycle c n (executed x) = judged c n x (validate_cycle_execution w.is_uuid x (plan_of c n))

  abbrev pub settled_result :
      ObservationCycle N → ℕ → CampaignRow → ℕ → Store N → ObservationCycleRunResult N
  settled_result record_ n c missed store = record {
    sequence_no = n;
    expected_at = slot c n;
    outcome = record_.outcome;
    trace_id = some (w.trace_id n);
    content_hash = newest_hash store.rows;
    missed_cycles_recorded = missed;
    t4_batch_id = record_.t4_batch_id;
    research_run_id = record_.research_run_id;
    error_code = record_.error_code;
  }

  -- The result where only missed slots were recorded; `n` is the next slot.
  abbrev pub missed_result : ℕ → CampaignRow → ℕ → Store N → ObservationCycleRunResult N
  missed_result n c missed store = record {
    sequence_no = n - 1;
    expected_at = slot c (n - 1);
    outcome = "missed";
    trace_id = none;
    content_hash = newest_hash store.rows;
    missed_cycles_recorded = missed;
    t4_batch_id = absent;
    research_run_id = absent;
    error_code = none;
  }

  -- What follows the loop, by where it stopped.
  unfoldable pub settle :
      CampaignRow → Stop × ℕ × ℕ × Store N → Run (ObservationCycleRunResult N × Store N)
  unfolding outcome_cycle insert_cycle
  settle c (complete, n, missed, store) =
      if missed == 0
      then refused "OBSERVATION_SCHEDULE_COMPLETE"
      else returned (missed_result n c missed store, store)
  settle c (early, n, missed, store) =
      if missed == 0
      then refused "OBSERVATION_CYCLE_NOT_DUE"
      else returned (missed_result n c missed store, store)
  settle c (due, n, missed, store) =
      let record_ = outcome_cycle c n (w.execute (plan_of c n)) in
      insert_cycle record_ store >>= λ store'.
      returned (settled_result record_ n c missed store', store')

  -- The tests before the loop.
  unfoldable pub admitted : Option CampaignRow → Run CampaignRow
  admitted campaign = do
    require (canonical_uuid w.is_uuid w.campaign_id) "OBSERVATION_ERROR"
    require (is_scope_key w.scope_key) "OBSERVATION_SCOPE_INVALID"
    c ← found campaign
    require (text_eq c.environment "live_t4") "OBSERVATION_ENVIRONMENT_INVALID"
    require (contains c.scope_manifest w.scope_key) "OBSERVATION_SCOPE_NOT_FROZEN"
    returned c

  abbrev pub continue_with :
      ℕ → Store N → Run CampaignRow → Option (Run (ObservationCycleRunResult N × Store N))
  continue_with fuel store (refused code) = some (refused code)
  continue_with fuel store (returned c) =
      elim (catch_up fuel c (next_sequence store.rows) 0 store) [
        | none ↦ none
        | some stopped ↦ some (stopped >>= settle c)
      ]

  unfoldable pub run_cycle :
      ℕ → Option CampaignRow → Store N → Option (Run (ObservationCycleRunResult N × Store N))
  unfolding admitted catch_up settle next_sequence
  run_cycle fuel campaign store = continue_with fuel store (admitted campaign)
