-- ===== src/Observation/Policy.antt =====
-- src/crypto_agent/observation_policy.py: the thresholds of an observation campaign, and their
-- validation.
pub mod Accepts
use agent_crypto.Base.{
  ℕ, ◌*◌, String, Bool, true, false, ◌&&◌, ◌||◌, not, List, [], ◌∷◌, all, is_empty, contains,
  text_lt, map,
}
use agent_crypto.Numbers.{
  Numbers, Value, text, is_int, int_at_least, finite_between, finite_order, is_inked, count_of,
}
use agent_crypto.Checked.{Checked, Check, errors_of, raise_if_any}
use agent_crypto.Patterns.{is_lower_code}

pub record ObservationPolicy (N : Type 0) : Type 0 where
  pub policy_id : Value N
  pub schema_version : Value N
  pub required_bridge_schema_version : Value N
  pub minimum_elapsed_hours : Value N
  pub minimum_cycle_attempt_rate : Value N
  pub minimum_cycle_success_rate : Value N
  pub maximum_unexplained_gap_multiplier : Value N
  pub maximum_bridge_rtt_p95_seconds : Value N
  pub maximum_bridge_rtt_p99_seconds : Value N
  pub mandatory_scenarios : List (Value N)

-- `len(set(values)) == len(values)`, for texts.
abbrev pub all_different : List String → Bool
all_different [] = true
all_different (x ∷ xs) = not (contains xs x) && all_different xs

-- `tuple(sorted(values)) == values`, for texts.
abbrev pub in_text_order : List String → Bool
in_text_order [] = true
in_text_order (x ∷ []) = true
in_text_order (x ∷ y ∷ ys) = not (text_lt y x) && in_text_order (y ∷ ys)

module _ {N : Type 0} where
  -- `isinstance(value, str) and _SCENARIO_CODE.fullmatch(value) is not None`
  abbrev pub is_scenario : Value N → Bool
  is_scenario (text s) = is_lower_code s
  is_scenario _ = false

  abbrev pub text_of : Value N → String
  text_of (text s) = s
  text_of _ = ""

  unfoldable pub scenarios_valid : List (Value N) → Bool
  scenarios_valid values =
      not (is_empty values)
      && (all is_scenario values
          && (all_different (map text_of values) && in_text_order (map text_of values)))

module _ {N : Type 0} ⦃o : Numbers N⦄ where
  pub policy_checks : ObservationPolicy N → List Check
  unfolding scenarios_valid
  policy_checks p =
      (is_inked p.policy_id, "policy_id must be non-empty text")
      ∷ (is_int 1 p.schema_version, "schema_version must be 1")
      ∷ (
        int_at_least 5 p.required_bridge_schema_version,
        "required_bridge_schema_version must be at least 5",
      )
      ∷ (int_at_least 672 p.minimum_elapsed_hours, "minimum_elapsed_hours must be at least 672")
      ∷ (
        finite_between p.minimum_cycle_attempt_rate (o.decimal 0 0) (o.decimal 1 0),
        "minimum_cycle_attempt_rate must be finite and in [0, 1]",
      )
      ∷ (
        finite_between p.minimum_cycle_success_rate (o.decimal 0 0) (o.decimal 1 0),
        "minimum_cycle_success_rate must be finite and in [0, 1]",
      )
      ∷ (
        finite_between p.maximum_unexplained_gap_multiplier (o.decimal 1 0) (o.decimal 24 0),
        "maximum_unexplained_gap_multiplier must be finite and in [1, 24]",
      )
      ∷ (
        finite_between p.maximum_bridge_rtt_p95_seconds (o.decimal 1 3) (o.decimal 60 0),
        "maximum_bridge_rtt_p95_seconds must be finite and in [0.001, 60]",
      )
      ∷ (
        finite_between p.maximum_bridge_rtt_p99_seconds (o.decimal 1 3) (o.decimal 60 0),
        "maximum_bridge_rtt_p99_seconds must be finite and in [0.001, 60]",
      )
      ∷ (
        not (finite_between p.maximum_bridge_rtt_p99_seconds (o.decimal 1 3) (o.decimal 60 0))
            || finite_order p.maximum_bridge_rtt_p95_seconds p.maximum_bridge_rtt_p99_seconds,
        "maximum_bridge_rtt_p99_seconds must be at least p95",
      )
      ∷ (
        scenarios_valid p.mandatory_scenarios,
        "mandatory_scenarios must be a non-empty sorted tuple of unique safe codes",
      )
      ∷ []

  -- `accepted` is a normal return; `rejected` is ObservationPolicyConfigurationError.
  unfoldable pub validate_observation_policy : ObservationPolicy N → Checked (Unit {0})
  unfolding policy_checks errors_of
  validate_observation_policy p = raise_if_any (errors_of (policy_checks p))

  -- `minimum_elapsed_seconds`
  abbrev pub minimum_elapsed_seconds : ObservationPolicy N → ℕ
  minimum_elapsed_seconds p = count_of p.minimum_elapsed_hours * 3600
