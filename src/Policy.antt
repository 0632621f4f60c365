-- ===== src/Policy.antt =====
-- `RiskPolicy` of src/crypto_agent/policy.py: the versioned limits of the risk gate, and their
-- validation. The fields come from JSON, so each holds any value.
pub mod Safe
pub mod Accepts
use agent_crypto.Base.{
  ℕ, String, Bool, true, false, ◌&&◌, ◌||◌, not, List, [], ◌∷◌, all, any, length, leb, is_empty,
  ltb,
}
use agent_crypto.Numbers.{
  Numbers, Value, whole, is_false, is_true, is_text, strict_int_between, is_int, finite_between,
  holds_text, equals_int, int_of,
}
use agent_crypto.Base.{is_some}
use agent_crypto.Checked.{Checked, Check, errors_of, raise_if_any}

pub record RiskPolicy (N : Type 0) : Type 0 where
  pub policy_id : Value N
  pub policy_schema_version : Value N
  pub mode : Value N
  pub execution_enabled : Value N
  pub allowed_decisions : List (Value N)
  pub allowed_assets : List (Value N)
  pub allowed_intervals_minutes : List (Value N)
  pub min_samples : Value N
  pub min_data_quality : Value N
  pub max_staleness_multiplier : Value N
  pub max_reference_price_age_seconds : Value N
  pub max_gap_multiplier : Value N
  pub max_annualized_volatility : Value N
  pub max_absolute_period_return : Value N
  pub report_ttl_seconds : Value N
  pub max_clock_skew_seconds : Value N
  pub required_source_count : Value N
  pub required_history_candles : Value N
  pub max_market_price : Value N
  pub max_base_volume : Value N
  pub leverage_allowed : Value N
  pub martingale_allowed : Value N
  pub exchange_credentials_allowed : Value N
  pub human_approval_required_for_execution : Value N

module _ {N : Type 0} ⦃o : Numbers N⦄ where
  -- `set(values) == {"NO_SIGNAL", "ALERT"}`
  is_v1_decisions : List (Value N) → Bool
  is_v1_decisions values =
      all (λ v. is_text "NO_SIGNAL" v || is_text "ALERT" v) values
      && (holds_text values "NO_SIGNAL" && holds_text values "ALERT")

  -- `values == (240, 1440, 10080)`
  abbrev equals_v1_intervals : List (Value N) → Bool
  equals_v1_intervals (a ∷ b ∷ c ∷ []) =
      equals_int 240 a && (equals_int 1440 b && equals_int 10080 c)
  equals_v1_intervals _ = false

  -- `type(value) is int`
  abbrev is_int_type : Value N → Bool
  is_int_type v = is_some (int_of v)

  safety_checks : RiskPolicy N → List Check
  unfolding is_v1_decisions
  safety_checks p =
      (is_int 3 p.policy_schema_version, "Plus500 T4 V1 policy_schema_version must be 3")
      ∷ (is_text "V1_READ_ONLY" p.mode, "V1 requires mode=V1_READ_ONLY")
      ∷ (is_false p.execution_enabled, "execution must be disabled in V1")
      ∷ (is_false p.leverage_allowed, "leverage must be disabled in V1")
      ∷ (is_false p.martingale_allowed, "martingale must be disabled")
      ∷ (is_false p.exchange_credentials_allowed, "exchange credentials are forbidden in V1")
      ∷ (is_v1_decisions p.allowed_decisions, "V1 decisions must be exactly NO_SIGNAL and ALERT")
      ∷ (
        equals_v1_intervals p.allowed_intervals_minutes
            && all is_int_type p.allowed_intervals_minutes,
        "V1 intervals must be exactly 4h, 1d and 1w",
      )
      ∷ (
        not (is_empty p.allowed_assets) && leb (length p.allowed_assets) 20,
        "V1 asset allowlist must contain 1-20 assets",
      )
      ∷ (
        finite_between p.min_data_quality (o.decimal 85 2) (o.decimal 1 0),
        "min_data_quality must be finite and in [0.85, 1.0]",
      )
      ∷ (strict_int_between p.min_samples 60 720, "min_samples must be an integer in [60, 720]")
      ∷ (
        finite_between p.max_staleness_multiplier (o.decimal 5 1) (o.decimal 125 2),
        "max_staleness_multiplier must be finite and in [0.5, 1.25]",
      )
      ∷ (
        is_int 300 p.max_reference_price_age_seconds,
        "V1 reference price age must be exactly 300 seconds",
      )
      ∷ (
        finite_between p.max_gap_multiplier (o.decimal 1 0) (o.decimal 15 1),
        "max_gap_multiplier must be finite and in [1.0, 1.5]",
      )
      ∷ (
        finite_between p.max_annualized_volatility (o.decimal 1 1) (o.decimal 2 0),
        "max_annualized_volatility must be finite and in [0.1, 2.0]",
      )
      ∷ (
        finite_between p.max_absolute_period_return (o.decimal 1 2) (o.decimal 5 1),
        "max_absolute_period_return must be finite and in [0.01, 0.5]",
      )
      ∷ (
        strict_int_between p.report_ttl_seconds 60 86400,
        "report_ttl_seconds must be an integer in [60, 86400]",
      )
      ∷ (
        strict_int_between p.max_clock_skew_seconds 0 300,
        "max_clock_skew_seconds must be an integer in [0, 300]",
      )
      ∷ (is_int 1 p.required_source_count, "Plus500 T4 V1 requires exactly one approved source")
      ∷ (
        is_int 120 p.required_history_candles,
        "Plus500 T4 V1 requires exactly 120 history candles",
      )
      ∷ (
        finite_between p.max_market_price (o.decimal 1000000 0) (o.decimal 1000000000 0),
        "max_market_price must be finite and in [1e6, 1e9]",
      )
      ∷ (
        finite_between p.max_base_volume (o.decimal 10000000 0) (o.decimal 1000000000000 0),
        "max_base_volume must be finite and in [1e7, 1e12]",
      )
      ∷ (
        is_true p.human_approval_required_for_execution,
        "human approval must remain required for execution",
      )
      ∷ []

  -- `accepted` is a normal return; `rejected` is PolicyConfigurationError with the messages.
  unfoldable pub validate_v1_safety : RiskPolicy N → Checked (Unit {0})
  unfolding safety_checks errors_of
  validate_v1_safety p = raise_if_any (errors_of (safety_checks p))
