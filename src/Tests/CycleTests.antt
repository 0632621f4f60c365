-- ===== src/Tests/CycleTests.antt =====
-- A scope with two slots behind it: the first expired, the second due.
use agent_crypto.Base.{
  String, Bool, true, ◌≡◌, ◌≢◌, refl, [], ◌∷◌, codes, length, ◌==◌, Option, none, some, arith,
}
use agent_crypto.Numbers.{text, absent, int_at_least}
use agent_crypto.Numbers.Sample.{Decimal, decimals, decimals-IntLaws}
use agent_crypto.Clock.{utc, is_aware}
use agent_crypto.Patterns.{has_ink, is_upper_code}
use agent_crypto.Observation.Cycle.{ObservationCycle, validate_cycle}
use agent_crypto.Observation.Cycle.Parts.{IsShaped}
use agent_crypto.Observation.Cycle.Shapes.{validate_cycle_iff}
use agent_crypto.Observation.Run.{
  Store, CampaignRow, Run, returned, executed, slot, slot_end, missed_cycle, failure_cycle,
  Surroundings, ObservationCycleRunResult, admitted, run_cycle, next_sequence,
}
use agent_crypto.Observation.Run.Due.{IsHonest, run_cycle-IsHonest}
use agent_crypto.Observation.Run.Ledger.{IsLedger, run_cycle-IsLedger}
use agent_crypto.Observation.Run.Ends.{IsDue, run_cycle-ne-none}
use agent_crypto.Observation.Cycle.{ObservationCycleExecution}
use agent_crypto.Numbers.{is_int, boolean}
use agent_crypto.Base.{ℕ, ◌≤◌, ◌<◌, not, map}
use agent_crypto.Observation.Run.Valid.{IsReady}
use agent_crypto.Observation.Run.Outcomes.{IsEnded}
use agent_crypto.Observation.Run.Records.{run_cycle-IsEnded}
use agent_crypto.Samples.{whole_value}
use agent_crypto.Base.{false}
use agent_crypto.Observation.Cycle.{validate_cycle_execution}
use agent_crypto.Patterns.{is_sha256}

abbrev is_36 : String → Bool
is_36 s = length (codes s) == 36

abbrev sixty_four : String
sixty_four = "0123456789abcdef0123456789abcdef0123456789abcdef0123456789abcdef"

abbrev campaign_text : String
campaign_text = "123e4567-e89b-12d3-a456-426614174000"

-- A batch of 64 digits as hash, fetched and analysed within the slot.
abbrev report : ObservationCycleExecution Decimal
report = record {
  t4_batch_id = whole_value 8;
  research_run_id = whole_value 3;
  analysis_input_hash = text sixty_four;
  bridge_schema_version = whole_value 5;
  raw_payload_hash = text sixty_four;
  bridge_rtt_milliseconds = whole_value 12;
  trace_id = text campaign_text;
  environment = "live_t4";
  external_delivery_eligible = boolean true;
  replay = boolean false;
  synthetic = boolean false;
}

-- PostgreSQL has another input with batch 7.
abbrev world : Surroundings Decimal
world = record {
  campaign_id = text campaign_text;
  scope_key = "BTC/USD:240m";
  is_uuid = is_36;
  trace_id = λ n. campaign_text;
  chain_hash = λ c previous. "hash";
  takes = λ c. not (is_int 7 c.t4_batch_id);
  execute = λ plan. executed report;
  finished_at = 260000000;
}

-- Slots of 100 seconds, at second 250.
abbrev row : CampaignRow
row = record {
  environment = "live_t4";
  started_at = 0;
  planned_ends_at = 1500000000;
  cycle_interval_seconds = 100;
  scope_manifest = "BTC/USD:240m" ∷ [];
  database_now = 250000000;
}

abbrev empty_store : Store Decimal
empty_store = record { rows = []; research_inputs = [] }

ready : IsReady world row (next_sequence empty_store.rows)
unfolding missed_cycle failure_cycle is_int
ready = record {
  traces = λ n. refl;
  clock = omega arith;
  takes_missed = takes_missed;
  takes_failure = takes_failure;
}
  where
    takes_missed :
        (n : ℕ)
        → next_sequence empty_store.rows ≤ n
        → slot row n ≤ row.planned_ends_at
        → slot_end row n < row.database_now
        → world.takes (missed_cycle world row n) ≡ true
    takes_missed n _ _ _ = refl

    takes_failure :
        (n : ℕ) (code : String)
        → next_sequence empty_store.rows ≤ n
        → slot row n ≤ row.planned_ends_at
        → slot row n ≤ row.database_now
        → row.database_now ≤ slot_end row n
        → is_upper_code code ≡ true
        → world.takes (failure_cycle world row n code) ≡ true
    takes_failure n code _ _ _ _ _ = refl

known : admitted world (some row) ≡ returned row
unfolding admitted has_ink
known = refl

-- What a run at second 250 gives.
abbrev Ran : Type 0
Ran = ObservationCycleRunResult Decimal × Store Decimal

abbrev got : Option (Run Ran) → Ran
got (some (returned y)) = y
got _ = (
  record {
    sequence_no = 0;
    expected_at = 0;
    outcome = "";
    trace_id = none;
    content_hash = none;
    missed_cycles_recorded = 0;
    t4_batch_id = absent;
    research_run_id = absent;
    error_code = none;
  },
  empty_store,
)

abbrev ran : Ran
ran = got (run_cycle world 20 (some row) empty_store)

returns : run_cycle world 20 (some row) empty_store ≡ some (returned ran)
unfolding has_ink run_cycle is_aware is_int is_sha256 int_at_least validate_cycle_execution
    validate_cycle
returns = refl

-- The first slot is missed and the second a success.
recorded : map (λ r. r.cycle.outcome) ran.1.rows ≡ "success" ∷ "missed" ∷ []
unfolding has_ink run_cycle is_aware is_int is_sha256 int_at_least validate_cycle_execution
    validate_cycle
recorded = refl

run_cycle-IsEnded_example :
    (j : ℕ) × (y : Run Ran) × (run_cycle world 20 (some row) empty_store ≡ some y)
    × IsDue world row (next_sequence empty_store.rows) j
    × IsEnded world row j y
unfolding next_sequence
run_cycle-IsEnded_example =
    run_cycle-IsEnded world row decimals-IntLaws (some row) known 20 2 empty_store ready
      (omega arith) (omega arith) (omega arith) (omega arith) (omega arith)

run_cycle-IsHonest_example : IsHonest world row empty_store ran.0 ran.1
run_cycle-IsHonest_example =
    run_cycle-IsHonest world row 20 (some row) empty_store ran.0 ran.1 known returns

empty-IsLedger : IsLedger world row empty_store
empty-IsLedger = record { chain = tt; linked = refl }

run_cycle-IsLedger_example : IsLedger world row ran.1
run_cycle-IsLedger_example =
    run_cycle-IsLedger world row decimals-IntLaws 20 (some row) empty_store ran.1 ran.0 known
      returns empty-IsLedger

run_cycle-ne-none_example : run_cycle world 21 (some row) empty_store ≢ none
run_cycle-ne-none_example =
    run_cycle-ne-none world row 20 (some row) empty_store known (omega arith)

abbrev missed_record : ObservationCycle Decimal
missed_record = record {
  campaign_id = text campaign_text;
  scope_key = "BTC/USD:240m";
  sequence_no = whole_value 1;
  expected_at = utc 100000000;
  outcome = "missed";
  started_at = none;
  finished_at = none;
  error_code = none;
  gap_explanation_code = none;
  t4_batch_id = absent;
  research_run_id = absent;
  analysis_input_hash = absent;
  bridge_schema_version = absent;
  raw_payload_hash = absent;
  bridge_rtt_milliseconds = absent;
  trace_id = absent;
}

accepts_missed : validate_cycle is_36 missed_record ≡ none
unfolding validate_cycle is_aware has_ink int_at_least is_upper_code
accepts_missed = refl

validate_cycle_iff_example : IsShaped is_36 missed_record
validate_cycle_iff_example = (validate_cycle_iff is_36 missed_record).0 accepts_missed
