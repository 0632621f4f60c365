-- ===== src/Policy/Safe.antt =====
-- The policies that keep every V1 limit.
use agent_crypto.Base.{ℕ, true, false, ◌≡◌, ◌⊎◌, ◌≤◌, List, [], ◌∷◌, All, Has, length, pos, some, ℤ}
use agent_crypto.Numbers.{Numbers, Value, boolean, number, text, whole, int_of}
use agent_crypto.Numbers.Ranges.{IsIntIn, IsFiniteIn}
use agent_crypto.Policy.{RiskPolicy}

module _ {N : Type 0} ⦃o : Numbers N⦄ where
  -- An int that equals `n`.
  abbrev pub IsInt : ℕ → Value N → Type 0
  IsInt n v = (x : N) × (v ≡ number x) × (o.eq x (whole n) ≡ true) × (z : ℤ) × (o.int? x ≡ some z)

  abbrev pub IsV1Decisions : List (Value N) → Type 0
  IsV1Decisions vs =
      All (λ v. (v ≡ text "NO_SIGNAL") ⊎ (v ≡ text "ALERT")) vs
      × Has (text "NO_SIGNAL") vs
      × Has (text "ALERT") vs

  abbrev pub IsV1Intervals : List (Value N) → Type 0
  IsV1Intervals (a ∷ b ∷ c ∷ []) = IsInt 240 a × IsInt 1440 b × IsInt 10080 c
  IsV1Intervals _ = ⊥

  -- The first release neither trades nor relaxes a limit: every switch is off, every limit in range.
  pub record IsSafe (p : RiskPolicy N) : Type 0 where
    pub schema : int_of p.policy_schema_version ≡ some (pos 3)
    pub read_only : p.mode ≡ text "V1_READ_ONLY"
    pub no_execution : p.execution_enabled ≡ boolean false
    pub no_leverage : p.leverage_allowed ≡ boolean false
    pub no_martingale : p.martingale_allowed ≡ boolean false
    pub no_credentials : p.exchange_credentials_allowed ≡ boolean false
    pub decisions : IsV1Decisions p.allowed_decisions
    pub intervals : IsV1Intervals p.allowed_intervals_minutes
    pub assets : (1 ≤ length p.allowed_assets) × (length p.allowed_assets ≤ 20)
    pub quality : IsFiniteIn (o.decimal 85 2) (o.decimal 1 0) p.min_data_quality
    pub samples : IsIntIn 60 720 p.min_samples
    pub staleness : IsFiniteIn (o.decimal 5 1) (o.decimal 125 2) p.max_staleness_multiplier
    pub price_age : int_of p.max_reference_price_age_seconds ≡ some (pos 300)
    pub gap : IsFiniteIn (o.decimal 1 0) (o.decimal 15 1) p.max_gap_multiplier
    pub volatility : IsFiniteIn (o.decimal 1 1) (o.decimal 2 0) p.max_annualized_volatility
    pub period_return : IsFiniteIn (o.decimal 1 2) (o.decimal 5 1) p.max_absolute_period_return
    pub report_ttl : IsIntIn 60 86400 p.report_ttl_seconds
    pub clock_skew : IsIntIn 0 300 p.max_clock_skew_seconds
    pub sources : int_of p.required_source_count ≡ some (pos 1)
    pub history : int_of p.required_history_candles ≡ some (pos 120)
    pub market_price : IsFiniteIn (o.decimal 1000000 0) (o.decimal 1000000000 0) p.max_market_price
    pub base_volume :
        IsFiniteIn (o.decimal 10000000 0) (o.decimal 1000000000000 0) p.max_base_volume
    pub approval : p.human_approval_required_for_execution ≡ boolean true
