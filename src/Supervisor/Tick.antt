-- ===== src/Supervisor/Tick.antt =====
-- `CampaignSupervisor._tick`: one round of the supervisor. The status payload that it writes is output
-- and left out.
pub mod Idle
pub mod Daily
use agent_crypto.Base.{
  ℕ, suc, ◌*◌, ◌/◌, String, Bool, true, false, not, Option, none, some, List, [], ◌∷◌, all,
  is_empty, ◌==◌, if◌then◌else◌,
}
use agent_crypto.Clock.{seconds}
use agent_crypto.Supervisor.{
  ScopeProgress, CampaignProgress, CycleCommandResult, ReportCommandResult, stored, Supervisor, log,
  due_scopes, finalization_due, service_restart_requested, final_report_attempted,
}
use agent_crypto.Supervisor.Scope.{run_scope}
use agent_crypto.Supervisor.Missed.{record_new_missed}
use agent_crypto.Supervisor.Services.{ServiceStatus, Manager, ensure_services}

-- What the supervisor is given: the answers of the database, of the commands and of systemctl, each by
-- the number of the request, and the configuration. The cooldown is in microseconds.
pub record World : Type 0 where
  pub load_progress : ℕ → CampaignProgress
  pub run_cycle : String → ℕ → CycleCommandResult
  pub store_report : ℕ → ReportCommandResult
  pub is_active : String → ℕ → Bool
  pub units : List (String × String)
  pub cooldown : ℕ
  pub command_retries : ℕ

pub record Round : Type 0 where
  pub supervisor : Supervisor
  pub manager : Manager
  pub loads : ℕ
  pub reports : ℕ
  pub restart_requests : ℕ
  -- `_last_daily_date`, as a day number
  pub last_daily_date : Option ℕ
  -- The days of the daily snapshots, newest first.
  pub snapshots : List ℕ

abbrev is_active_status : ServiceStatus → Bool
is_active_status x = x.active

abbrev pub all_active : List ServiceStatus → Bool
all_active services = all is_active_status services

pub log_restarts : List ServiceStatus → Round → Round
log_restarts [] l = l
log_restarts (x ∷ xs) l =
    let requested = record l {
      restart_requests = suc l.restart_requests;
      supervisor = log (service_restart_requested x.name x.unit x.recovered) l.supervisor;
    } in
    log_restarts xs (if x.restart_attempted then requested else l)

-- `snapshot_date`: the day of a time in microseconds.
abbrev pub day_of : ℕ → ℕ
day_of t = t / seconds 86400

abbrev is_day : ℕ → Option ℕ → Bool
is_day day none = false
is_day day (some d) = d == day

module _ (w : World) where
  -- `load_progress` with `_record_new_missed`
  pub load : Round → CampaignProgress × Round
  load l =
      let p = w.load_progress l.loads in
      (p, record l { loads = suc l.loads; supervisor = record_new_missed p l.supervisor })

  pub run_due : List ScopeProgress → Supervisor → Supervisor
  run_due [] s = s
  run_due (x ∷ xs) s = run_due xs (run_scope w.run_cycle x.scope_key w.command_retries s).1

  pub run_cycles : List ServiceStatus → CampaignProgress → Round → CampaignProgress × Round
  unfolding load run_due
  run_cycles services p l =
      let due = due_scopes p in
      if not (all_active services)
      then (p, l)
      else if is_empty due
      then (p, l)
      else load (record l { supervisor = run_due due l.supervisor })

  pub finalize : CampaignProgress → Round → CampaignProgress × Round
  finalize p l =
      let r = w.store_report l.reports in
      let attempted = record l {
        reports = suc l.reports;
        supervisor =
            log (final_report_attempted r.status r.error_code r.v1_gate_passed) l.supervisor;
      } in
      if not (finalization_due p)
      then (p, l)
      else if stored r
      then (w.load_progress attempted.loads, record attempted { loads = suc attempted.loads })
      else (p, attempted)

  pub take_snapshot : CampaignProgress → Round → Round
  take_snapshot p l =
      let day = day_of p.database_now in
      if is_day day l.last_daily_date
      then l
      else record l { last_daily_date = some day; snapshots = day ∷ l.snapshots }

  -- The services and the round before any command is run.
  pub check_services : ℕ → Round → List ServiceStatus × Round
  unfolding log_restarts
  check_services now l =
      let (services, manager) = ensure_services w.is_active w.cooldown now w.units l.manager in
      (services, log_restarts services (record l { manager = manager }))

  -- `_tick` at a local time: whether the campaign is complete, and the round after it.
  unfoldable pub tick : ℕ → Round → Bool × Round
  unfolding check_services load run_cycles finalize take_snapshot
  tick now l =
      let (services, l1) = check_services now l in
      let (p, l2) = load l1 in
      let (p', l3) = run_cycles services p l2 in
      let (p'', l4) = finalize p' l3 in (p''.final_report_stored, take_snapshot p'' l4)
