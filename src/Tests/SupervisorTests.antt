-- ===== src/Tests/SupervisorTests.antt =====
-- The supervisor with a command runner that times out once, and with a service that is down.
use agent_crypto.Base.{
  ℕ, pos, zero, suc, ◌+◌, String, Bool, true, false, ◌≡◌, refl, none, some, List, [], ◌∷◌, length,
  arith,
}
use agent_crypto.Supervisor.{
  ScopeProgress, CampaignProgress, CycleCommandResult, recorded, retryable, Supervisor, due_scopes,
  finalization_due,
}
use agent_crypto.Supervisor.Scope.{IsRun, settled, run_scope, run_scope-IsRun, run_scope-backoffs}
use agent_crypto.Supervisor.Missed.{IsReported, record_new_missed, record_new_missed-IsReported}
use agent_crypto.Supervisor.Services.{Manager, IsSpaced, ensure_services, ensure_services-IsSpaced}
use agent_crypto.Supervisor.Tick.{World, Round, all_active, tick}
use agent_crypto.Supervisor.Tick.Idle.{tick-idle}
use agent_crypto.Supervisor.Tick.Daily.{IsDaily, tick-IsDaily}
use agent_crypto.Numbers.{number, strict_int_between}
use agent_crypto.Numbers.Sample.{Decimal, int, decimals}
use agent_crypto.Patterns.{is_service_unit}
use agent_crypto.Supervisor.Config.{
  CampaignSupervisorConfig, validate_config, IsConfigured, validate_config_iff,
}

abbrev fresh : Supervisor
fresh = record {
  last_missed_counts = λ key. 0;
  stuck_cycles = 0;
  events = [];
  commands = 0;
  backoffs = [];
}

abbrev scope : ScopeProgress
scope = record {
  scope_key = "BTC/USD:240m";
  sequence_no = 3;
  next_expected_at = 400;
  last_expected_at = some 300;
  last_finished_at = some 310;
  last_outcome = some "success";
  successful_cycles = 1;
  failed_cycles = 0;
  missed_cycles = 2;
}

abbrev progress : CampaignProgress
progress = record {
  campaign_id = "campaign";
  database_now = 410;
  started_at = 0;
  planned_ends_at = 1000;
  cycle_interval_seconds = 100;
  scopes = scope ∷ [];
  final_report_stored = false;
}

abbrev answer : String → Bool → CycleCommandResult
answer key late = record {
  scope_key = key;
  exit_code = pos 0;
  status = "recorded";
  outcome = some "success";
  error_code = none;
  sequence_no = some 3;
  missed_cycles_recorded = 0;
  timed_out = late;
}

abbrev hung : String → ℕ → CycleCommandResult
hung key n = record (answer key true) { status = "error"; outcome = none }

abbrev late_once : String → ℕ → CycleCommandResult
late_once key n = elim n [ zero ↦ hung key 0 | suc m ↦ answer key false ]

due : due_scopes progress ≡ scope ∷ []
unfolding due_scopes
due = refl

not_final : finalization_due progress ≡ false
unfolding finalization_due
not_final = refl

two_commands : (run_scope late_once "BTC/USD:240m" 2 fresh).1.commands ≡ 2
unfolding run_scope recorded retryable
two_commands = refl

all_hung : settled (run_scope hung "BTC/USD:240m" 2 fresh).0 ≡ false
unfolding run_scope settled recorded retryable
all_hung = refl

run_scope-IsRun_example :
    IsRun late_once "BTC/USD:240m" 2 0
      (run_scope late_once "BTC/USD:240m" 2 fresh).0
      (run_scope late_once "BTC/USD:240m" 2 fresh).1.commands
run_scope-IsRun_example = run_scope-IsRun late_once "BTC/USD:240m" 2 fresh

run_scope-backoffs_example :
    length (run_scope hung "BTC/USD:240m" 2 fresh).1.backoffs ≡ length fresh.backoffs + 3
run_scope-backoffs_example = run_scope-backoffs hung "BTC/USD:240m" 2 fresh all_hung

record_new_missed-IsReported_example : IsReported (record_new_missed progress fresh)
record_new_missed-IsReported_example =
    record_new_missed-IsReported progress fresh (λ key. omega arith)

abbrev started : Manager
started = record { last_restart = λ name. none; calls = 0; restarts = [] }

abbrev units : List (String × String)
units =
    ("bridge", "crypto-agent-t4-bridge.service")
    ∷ ("evidence_verifier", "crypto-agent-evidence-verifier.service")
    ∷ []

abbrev down : String → ℕ → Bool
down unit n = false

ensure_services-IsSpaced_example :
    IsSpaced 30000000 (ensure_services down 30000000 100 units started).1
ensure_services-IsSpaced_example =
    ensure_services-IsSpaced down 30000000 100 units started (λ name. (refl, tt))

abbrev world : World
world = record {
  load_progress = λ n. progress;
  run_cycle = late_once;
  store_report = λ n. record {
    exit_code = pos 0;
    status = "stored";
    error_code = none;
    v1_gate_passed = some true;
  };
  is_active = down;
  units = units;
  cooldown = 30000000;
  command_retries = 2;
}

abbrev first_round : Round
first_round = record {
  supervisor = fresh;
  manager = started;
  loads = 0;
  reports = 0;
  restart_requests = 0;
  last_daily_date = none;
  snapshots = [];
}

all_down : all_active (ensure_services down 30000000 100 units started).0 ≡ false
unfolding ensure_services
all_down = refl

tick-idle_example : (tick world 100 first_round).1.supervisor.commands ≡ 0
tick-idle_example = tick-idle world 100 first_round all_down

tick-IsDaily_example : IsDaily (tick world 100 first_round).1
tick-IsDaily_example = tick-IsDaily world 100 first_round (refl, tt)

abbrev config : CampaignSupervisorConfig Decimal
config = record {
  campaign_id = "00000000-0000-4000-8000-000000000000";
  state_directory = "/var/lib/crypto-agent";
  poll_seconds = int (pos 15);
  cycle_timeout_seconds = int (pos 120);
  command_retries = number (int (pos 2));
  retry_backoff_seconds = int (pos 2);
  limit = number (int (pos 120));
  process_manager = "systemd";
  bridge_unit = "crypto-agent-t4-bridge.service";
  verifier_unit = "crypto-agent-evidence-verifier.service";
  service_restart_cooldown_seconds = int (pos 30);
}

abbrev holds : String → Bool
holds s = true

configured : validate_config holds holds config ≡ none
unfolding validate_config strict_int_between is_service_unit
configured = refl

validate_config_iff_example : IsConfigured holds holds config
validate_config_iff_example = (validate_config_iff holds holds config).0 configured
