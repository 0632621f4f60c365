-- ===== src/Observation/Report/Stored.antt =====
-- Which graded reports pass the validation before they are stored.
use agent_crypto.Base.{String, List, [], ◌∷◌}
use agent_crypto.Numbers.{Numbers}

-- The ids of the criteria that every report has.
abbrev fixed_ids : List String
fixed_ids =
    "real_elapsed_time" ∷ "live_environment_only" ∷ "frozen_baseline" ∷ "configured_scope_coverage"
    ∷ "cycle_attempt_rate" ∷ "cycle_success_rate" ∷ "exact_batch_analysis_linkage"
    ∷ "bridge_schema_conformance" ∷ "maximum_unexplained_gap_seconds" ∷ "bridge_round_trip_latency"
    ∷ "read_only_violations" ∷ "order_route_attempts" ∷ "secret_leaks" ∷ "integrity_failures"
    ∷ "fail_closed_violations" ∷ "prohibited_data_mode_violations" ∷ []
