-- ===== src/Futures/Policy.antt =====
-- src/crypto_agent/futures_policy.py: the thresholds of the futures analysis, and their validation.
pub mod Accepts
use agent_crypto.Base.{
  ℕ, String, Bool, true, false, ◌&&◌, ◌||◌, not, Option, none, some, List, [], ◌∷◌, ◌++◌, when,
  ◌>>=◌,
}
use agent_crypto.Numbers.{
  Numbers, Value, is_string, is_int, is_text, strict_int_between, int_at_least, finite_positive,
  at_least?, below?, is_inked,
}
use agent_crypto.Checked.{Checked, Check, Collected, errors_of, conclude}

pub record FuturesAnalysisPolicy (N : Type 0) : Type 0 where
  pub policy_id : Value N
  pub schema_version : Value N
  pub required_book_depth : Value N
  pub max_snapshot_age_seconds : Value N
  pub max_basis_age_seconds : Value N
  pub max_timestamp_skew_seconds : Value N
  pub max_spread_bps : Value N
  pub min_depth_per_side : Value N
  pub max_absolute_basis_bps : Value N
  pub max_absolute_roll_impact_bps : Value N
  pub basis_reference_type : Value N
  pub basis_source_id : Value N
  pub roll_warning_seconds : Value N
  pub roll_high_risk_seconds : Value N
  pub expiry_warning_seconds : Value N
  pub expiry_high_risk_seconds : Value N
  pub volume_window : Value N
  pub relative_volume_window : Value N

abbrev pub approved_basis_reference_type : String
approved_basis_reference_type = "index"

abbrev pub approved_basis_source_id : String
approved_basis_source_id = "plus500_t4_index_v1"

module _ {N : Type 0} ⦃o : Numbers N⦄ where
  abbrev positive_int : Value N → Bool
  positive_int v = int_at_least 1 v

  -- The tests up to the comparisons of the thresholds with one another.
  pub type_checks : FuturesAnalysisPolicy N → List Check
  type_checks p =
      (is_inked p.policy_id, "policy_id must be non-empty text")
      ∷ (is_int 1 p.schema_version, "schema_version must be 1")
      ∷ (strict_int_between p.required_book_depth 1 50, "required_book_depth must be in [1, 50]")
      ∷ (
        positive_int p.max_snapshot_age_seconds,
        "max_snapshot_age_seconds must be a positive integer",
      )
      ∷ (positive_int p.max_basis_age_seconds, "max_basis_age_seconds must be a positive integer")
      ∷ (
        positive_int p.max_timestamp_skew_seconds,
        "max_timestamp_skew_seconds must be a positive integer",
      )
      ∷ (positive_int p.roll_warning_seconds, "roll_warning_seconds must be a positive integer")
      ∷ (positive_int p.roll_high_risk_seconds, "roll_high_risk_seconds must be a positive integer")
      ∷ (positive_int p.expiry_warning_seconds, "expiry_warning_seconds must be a positive integer")
      ∷ (
        positive_int p.expiry_high_risk_seconds,
        "expiry_high_risk_seconds must be a positive integer",
      )
      ∷ (positive_int p.volume_window, "volume_window must be a positive integer")
      ∷ (positive_int p.relative_volume_window, "relative_volume_window must be a positive integer")
      ∷ (finite_positive p.max_spread_bps, "max_spread_bps must be a positive finite number")
      ∷ (
        finite_positive p.min_depth_per_side,
        "min_depth_per_side must be a positive finite number",
      )
      ∷ (
        finite_positive p.max_absolute_basis_bps,
        "max_absolute_basis_bps must be a positive finite number",
      )
      ∷ (
        finite_positive p.max_absolute_roll_impact_bps,
        "max_absolute_roll_impact_bps must be a positive finite number",
      )
      ∷ []

  pub source_checks : FuturesAnalysisPolicy N → List Check
  source_checks p =
      (
        is_text approved_basis_reference_type p.basis_reference_type,
        "basis_reference_type must be the approved T4 index type",
      )
      ∷ (
        is_text approved_basis_source_id p.basis_source_id,
        "basis_source_id must be the approved T4 index provenance",
      )
      ∷ []

  -- `self.volume_window < 3 or self.relative_volume_window < 2`
  abbrev windows_short? : FuturesAnalysisPolicy N → Option Bool
  windows_short? p = do
    short ← below? p.volume_window 3
    let relative = below? p.relative_volume_window 2
    elim short [ true ↦ some true | false ↦ relative ]

  pub collect_errors : FuturesAnalysisPolicy N → Collected
  collect_errors p = do
    roll ← at_least? p.roll_high_risk_seconds p.roll_warning_seconds
    expiry ← at_least? p.expiry_high_risk_seconds p.expiry_warning_seconds
    windows ← windows_short? p
    some (
        errors_of (type_checks p)
        ++ (when roll ("roll high-risk threshold must be below warning threshold" ∷ [])
            ++ (when expiry ("expiry high-risk threshold must be below warning threshold" ∷ [])
                ++ (when windows ("volume windows are too short" ∷ [])
                    ++ errors_of (source_checks p)))))

  -- `accepted` is a normal return, `rejected` FuturesPolicyConfigurationError, `crashed` TypeError.
  unfoldable pub validate : FuturesAnalysisPolicy N → Checked (Unit {0})
  unfolding type_checks source_checks collect_errors errors_of
  validate p = conclude (collect_errors p)
