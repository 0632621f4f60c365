-- ===== src/Monitoring/Policy.antt =====
-- src/crypto_agent/monitoring_policy.py: the limits of the delivery, and their validation.
pub mod Accepts
use agent_crypto.Base.{String, Bool, true, false, ◌||◌, not, List, [], ◌∷◌}
use agent_crypto.Numbers.{
  Numbers, Value, is_text, is_int, strict_int_between, finite_between, finite_order, is_inked,
}
use agent_crypto.Checked.{Checked, Check, errors_of, raise_if_any}

pub record MonitoringPolicy (N : Type 0) : Type 0 where
  pub policy_id : Value N
  pub schema_version : Value N
  pub retention_days : Value N
  pub channel : Value N
  pub destination : Value N
  pub max_attempts : Value N
  pub retry_base_seconds : Value N
  pub retry_max_seconds : Value N
  pub attempt_timeout_seconds : Value N
  pub max_page_size : Value N

abbrev pub approved_channel : String
approved_channel = "stdout_json"

abbrev pub approved_destination : String
approved_destination = "process_stdout"

module _ {N : Type 0} ⦃o : Numbers N⦄ where
  pub monitoring_checks : MonitoringPolicy N → List Check
  monitoring_checks p =
      (is_inked p.policy_id, "policy_id must be non-empty text")
      ∷ (is_int 1 p.schema_version, "schema_version must be 1")
      ∷ (strict_int_between p.retention_days 35 365, "retention_days must be in [35, 365]")
      ∷ (is_text approved_channel p.channel, "channel must be stdout_json")
      ∷ (is_text approved_destination p.destination, "destination must be process_stdout")
      ∷ (strict_int_between p.max_attempts 1 5, "max_attempts must be in [1, 5]")
      ∷ (
        finite_between p.retry_base_seconds (o.decimal 1 0) (o.decimal 300 0),
        "retry_base_seconds must be finite and in [1, 300]",
      )
      ∷ (
        finite_between p.retry_max_seconds (o.decimal 1 0) (o.decimal 3600 0),
        "retry_max_seconds must be finite and in [1, 3600]",
      )
      ∷ (
        not (finite_between p.retry_max_seconds (o.decimal 1 0) (o.decimal 3600 0))
            || finite_order p.retry_base_seconds p.retry_max_seconds,
        "retry_max_seconds must be at least retry_base_seconds",
      )
      ∷ (
        finite_between p.attempt_timeout_seconds (o.decimal 1 1) (o.decimal 10 0),
        "attempt_timeout_seconds must be finite and in [0.1, 10]",
      )
      ∷ (strict_int_between p.max_page_size 1 100, "max_page_size must be in [1, 100]")
      ∷ []

  -- `accepted` is a normal return; `rejected` is MonitoringPolicyConfigurationError.
  unfoldable pub validate_monitoring_policy : MonitoringPolicy N → Checked (Unit {0})
  unfolding monitoring_checks errors_of
  validate_monitoring_policy p = raise_if_any (errors_of (monitoring_checks p))
