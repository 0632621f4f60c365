-- ===== src/Supervisor.antt =====
-- The campaign supervisor of src/crypto_agent/campaign_supervisor.py: what it reads of a campaign, the
-- results of its commands, its own state and the events that it logs.
pub mod Scope
pub mod Missed
pub mod Services
pub mod Tick
pub mod Config
use agent_crypto.Base.{
  ℕ, ℤ, ◌+◌, String, Bool, true, false, ◌&&◌, ◌||◌, not, Option, none, some, List, [], ◌∷◌, ◌++◌,
  text_eq, if◌then◌else◌, leb, contains,
}
use agent_crypto.Clock.{Datetime, seconds}

-- Times of the database are UTC, and counted in microseconds.
pub record ScopeProgress : Type 0 where
  pub scope_key : String
  pub sequence_no : ℕ
  pub next_expected_at : ℕ
  pub last_expected_at : Option ℕ
  pub last_finished_at : Option ℕ
  pub last_outcome : Option String
  pub successful_cycles : ℕ
  pub failed_cycles : ℕ
  pub missed_cycles : ℕ

pub record CampaignProgress : Type 0 where
  pub campaign_id : String
  pub database_now : ℕ
  pub started_at : ℕ
  pub planned_ends_at : ℕ
  pub cycle_interval_seconds : ℕ
  pub scopes : List ScopeProgress
  pub final_report_stored : Bool

abbrev pub is_due : CampaignProgress → ScopeProgress → Bool
is_due p scope =
    leb scope.next_expected_at p.planned_ends_at && leb scope.next_expected_at p.database_now

abbrev due_of : CampaignProgress → List ScopeProgress → List ScopeProgress
due_of p [] = []
due_of p (x ∷ xs) = let rest = due_of p xs in if is_due p x then x ∷ rest else rest

unfoldable pub due_scopes : CampaignProgress → List ScopeProgress
due_scopes p = if p.final_report_stored then [] else due_of p p.scopes

unfoldable pub finalization_due : CampaignProgress → Bool
finalization_due p =
    not p.final_report_stored
    && leb (p.planned_ends_at + seconds p.cycle_interval_seconds) p.database_now

pub record CycleCommandResult : Type 0 where
  pub scope_key : String
  pub exit_code : ℤ
  pub status : String
  pub outcome : Option String
  pub error_code : Option String
  pub sequence_no : Option ℕ
  pub missed_cycles_recorded : ℕ
  pub timed_out : Bool

-- `value in {...}`
abbrev is_one_of : List String → Option String → Bool
is_one_of names none = false
is_one_of names (some s) = contains names s

unfoldable pub recorded : CycleCommandResult → Bool
recorded r =
    text_eq r.status "recorded" && is_one_of ("success" ∷ "failure" ∷ "missed" ∷ []) r.outcome

unfoldable pub retryable : CycleCommandResult → Bool
retryable r =
    r.timed_out
    || (text_eq r.status "error"
        && is_one_of
            ("OBSERVATION_CYCLE_FAILED" ∷ "OBSERVATION_CYCLE_STORAGE_UNAVAILABLE"
              ∷ "OBSERVATION_DATABASE_UNAVAILABLE" ∷ [])
            r.error_code)

pub record ReportCommandResult : Type 0 where
  pub exit_code : ℤ
  pub status : String
  pub error_code : Option String
  pub v1_gate_passed : Option Bool

abbrev pub stored : ReportCommandResult → Bool
stored r = text_eq r.status "stored"

-- The events of the journal, without the time and the instance that each carries.
pub data Event : Type 0 where
  service_restart_requested : String → String → Bool → Event
  final_report_attempted : String → Option String → Option Bool → Event
  missed_cycles_detected : String → ℕ → ℕ → Event
  cycle_timeout_detected : String → ℕ → Event
  cycle_retry_scheduled : String → ℕ → Option String → Event
  cycle_finished : String → CycleCommandResult → Event

pub record Supervisor : Type 0 where
  -- `_last_missed_counts`, 0 for a missing key
  pub last_missed_counts : String → ℕ
  pub stuck_cycles : ℕ
  -- What `append_event` has written.
  pub events : List Event
  -- How many cycle commands have been run.
  pub commands : ℕ
  -- The factors 2 ** attempt of the backoffs that were slept, in turn.
  pub backoffs : List ℕ

abbrev pub log : Event → Supervisor → Supervisor
log e s = record s { events = s.events ++ e ∷ [] }
