-- ===== src/Gate/Hits.antt =====
-- Which of the gate's flags veto, and what each part of `raised_flags` says when none does.
use agent_crypto.Base.{
  String, Bool, true, false, ◌||◌, not, ◌≡◌, refl, ap, ◌∙◌, subst, ◌↔◌, Option, none, some, List,
  [], ◌∷◌, All, any, all, when, is_none, if◌then◌else◌, contains, subset, contains-append,
  any-append, and_iff, any_of-contains, text_eq_refl, arith,
}
use agent_crypto.Numbers.{Numbers, boolean, number_of, is_true, is_boolean}
use agent_crypto.Domain.{MarketMetrics}
use agent_crypto.Patterns.{has_ink}
use agent_crypto.Policy.{RiskPolicy}
use agent_crypto.Gate.{
  Request, standing_vetoes, quality_valid, reference_flags, metrics_valid, time_valid,
  fingerprint_valid, decision_valid, additional_veto_valid, invalid_input_reasons, input_invalid,
  asset_allowed, interval_allowed, history_short, quality_low, volatility_extreme, move_extreme,
  metric_flags, raised_flags, veto_flags,
}
use agent_crypto.Gate.Inputs.{valid_metrics_input, valid_quality_input}

or_true_left : (a b : Bool) → a ≡ true → (a || b) ≡ true
or_true_left a b h = ground arith

or_true_right : (a b : Bool) → b ≡ true → (a || b) ≡ true
or_true_right a b h = ground arith

or_falses : (a : Bool) {b c : Bool} → b ≡ false → c ≡ false → (a || (b || c)) ≡ a
or_falses a h k = ground arith

module _ {N : Type 0} ⦃o : Numbers N⦄ (policy : RiskPolicy N) (r : Request N) where
  -- No test of the gate objects.
  pub record Passes : Type 0 where
    pub quality : quality_valid policy r ≡ true
    pub quiet_flags : All (λ f. contains standing_vetoes f ≡ false) r.quality.flags
    pub no_critical : r.quality.critical_flags ≡ []
    pub reference : reference_flags policy r ≡ []
    pub metrics :
        (m : MarketMetrics N) × (r.metrics ≡ some m)
        × (valid_metrics_input m ≡ true)
        × (o.lt (number_of policy.max_annualized_volatility) (number_of m.annualized_volatility)
            ≡ false)
        × (o.lt (number_of policy.max_absolute_period_return) (o.abs (number_of m.period_return))
            ≡ false)
    pub time : time_valid policy r ≡ true
    pub fingerprint : fingerprint_valid policy r ≡ true
    pub listed : decision_valid policy r ≡ true
    pub attested : r.source_attested ≡ boolean true
    pub no_extra : r.additional_veto_flags ≡ []
    pub extra_reasons : all has_ink r.additional_veto_reasons ≡ true
    pub asset : asset_allowed policy r ≡ true
    pub interval : interval_allowed policy r ≡ true
    pub history : o.lt (number_of r.quality.sample_count) (number_of policy.min_samples) ≡ false
    pub score : o.lt (number_of r.quality.score) (number_of policy.min_data_quality) ≡ false

  abbrev pub hits : String → Bool
  hits = contains (veto_flags policy r)

  abbrev critical_vetoes : List String
  critical_vetoes = if quality_valid policy r then r.quality.critical_flags else []

  abbrev extra_vetoes : List String
  extra_vetoes = if additional_veto_valid policy r then r.additional_veto_flags else []

  hits_parts :
      (f : String)
      → hits f
        ≡ (contains standing_vetoes f || (contains critical_vetoes f || contains extra_vetoes f))
  unfolding veto_flags
  hits_parts f =
      contains-append standing_vetoes _ f
      ∙ ap (λ b. contains standing_vetoes f || b) (contains-append critical_vetoes extra_vetoes f)

  standing_hits : (f : String) → contains standing_vetoes f ≡ true → hits f ≡ true
  standing_hits f h = hits_parts f ∙ or_true_left _ _ h

  -- What it takes that no raised flag vetoes, flag by flag.
  abbrev pub Quiet : Type 0
  Quiet =
      (any hits (if quality_valid policy r then r.quality.flags else []) ≡ false)
      × (any hits (reference_flags policy r) ≡ false)
      × (input_invalid policy r ≡ false)
      × (is_true r.source_attested ≡ true)
      × (any hits (when (additional_veto_valid policy r) r.additional_veto_flags) ≡ false)
      × (asset_allowed policy r ≡ true)
      × (interval_allowed policy r ≡ true)
      × (history_short policy r ≡ false)
      × (quality_low policy r ≡ false)
      × (any hits (metric_flags policy r r.metrics) ≡ false)

  any-hits-when :
      (b : Bool) (f : String) → contains standing_vetoes f ≡ true → any hits (when b (f ∷ [])) ≡ b
  any-hits-when b f h = ground (arith, standing_hits f h)

  pub quiet_iff : (any hits (raised_flags policy r) ≡ false) ↔ Quiet
  unfolding raised_flags
  quiet_iff = simp any-append (
      ground (
        arith,
        any-hits-when (input_invalid policy r) "INVALID_RISK_INPUT" refl,
        any-hits-when (not (is_true r.source_attested)) "SOURCE_ATTESTATION_REQUIRED" refl,
        any-hits-when (not (asset_allowed policy r)) "ASSET_NOT_ALLOWED" refl,
        any-hits-when (not (interval_allowed policy r)) "INTERVAL_NOT_ALLOWED" refl,
        any-hits-when (history_short policy r) "INSUFFICIENT_HISTORY" refl,
        any-hits-when (quality_low policy r) "LOW_DATA_QUALITY" refl,
      ))

  pub input_fine_iff : (input_invalid policy r ≡ false) ↔ (
      (quality_valid policy r ≡ true)
      × ((is_none r.metrics || metrics_valid policy r) ≡ true)
      × (time_valid policy r ≡ true)
      × (fingerprint_valid policy r ≡ true)
      × (decision_valid policy r ≡ true)
      × (is_boolean r.source_attested ≡ true)
      × (additional_veto_valid policy r ≡ true))
  unfolding input_invalid invalid_input_reasons
  input_fine_iff = ground arith

  abbrev pub GoodMetrics : Option (MarketMetrics N) → Type 0
  GoodMetrics metrics =
      (m : MarketMetrics N) × (metrics ≡ some m)
      × (valid_metrics_input m ≡ true)
      × (o.lt (number_of policy.max_annualized_volatility) (number_of m.annualized_volatility)
          ≡ false)
      × (o.lt (number_of policy.max_absolute_period_return) (o.abs (number_of m.period_return))
          ≡ false)

  pub metric_quiet_iff :
      (metrics : Option (MarketMetrics N))
      → (any hits (metric_flags policy r metrics) ≡ false) ↔ GoodMetrics metrics
  unfolding metric_flags volatility_extreme move_extreme
  metric_quiet_iff none =
      ((λ h. ground (arith, standing_hits "METRICS_UNAVAILABLE" refl)), λ (m, e, v, a, b). cc)
  metric_quiet_iff (some m) = (
    (λ h. (
      m,
      refl,
      ground (arith, standing_hits "METRICS_UNAVAILABLE" refl),
      ground (
        arith,
        standing_hits "METRICS_UNAVAILABLE" refl,
        standing_hits "EXTREME_VOLATILITY" refl,
      ),
      ground (
        arith,
        standing_hits "METRICS_UNAVAILABLE" refl,
        standing_hits "EXTREME_PERIOD_MOVE" refl,
      ),
    )),
    λ (m', e, v, a, b). ground arith,
  )

  hits_extra :
      (x : String)
      → additional_veto_valid policy r ≡ true
      → contains r.additional_veto_flags x ≡ true
      → hits x ≡ true
  hits_extra x v h =
      hits_parts x
      ∙ or_true_right (contains standing_vetoes x) _
          (or_true_right (contains critical_vetoes x) _ (rw v h))

  hits_critical :
      (x : String)
      → quality_valid policy r ≡ true
      → contains r.quality.critical_flags x ≡ true
      → hits x ≡ true
  hits_critical x v h =
      hits_parts x
      ∙ or_true_right (contains standing_vetoes x) _
          (or_true_left (contains critical_vetoes x) (contains extra_vetoes x) (rw v h))

  critical-subset :
      quality_valid policy r ≡ true → subset r.quality.critical_flags r.quality.flags ≡ true
  unfolding quality_valid valid_quality_input
  critical-subset v = ground arith

  pub extra_nil :
      (extra : List String)
      → r.additional_veto_flags ≡ extra
      → additional_veto_valid policy r ≡ true
      → any hits (when (additional_veto_valid policy r) r.additional_veto_flags) ≡ false
      → r.additional_veto_flags ≡ []
  extra_nil [] e v h = e
  extra_nil (x ∷ xs) e v h =
      ground (arith, hits_extra x v (rw e (or_true_left _ _ (text_eq_refl x))))

  known_of :
      (x : String) (xs : List String)
      → r.quality.critical_flags ≡ x ∷ xs
      → subset r.quality.critical_flags r.quality.flags ≡ true
      → contains r.quality.flags x ≡ true
  known_of x xs e h =
      let whole_set : subset (x ∷ xs) r.quality.flags ≡ true =
        subst (λ l. subset l r.quality.flags ≡ true) e h in
      ((and_iff _ _).0 whole_set).0

  pub critical_nil :
      (critical : List String)
      → r.quality.critical_flags ≡ critical
      → quality_valid policy r ≡ true
      → any hits r.quality.flags ≡ false
      → r.quality.critical_flags ≡ []
  critical_nil [] e v h = e
  critical_nil (x ∷ xs) e v h =
      let known = known_of x xs e (critical-subset v) in
      let hit = hits_critical x v (rw e (or_true_left _ _ (text_eq_refl x))) in
      cc (any_of-contains hits r.quality.flags x known hit)

  pub hits_standing :
      r.quality.critical_flags ≡ []
      → r.additional_veto_flags ≡ []
      → (f : String) → hits f ≡ contains standing_vetoes f
  hits_standing c e f =
      hits_parts f
      ∙ or_falses (contains standing_vetoes f) {b = contains critical_vetoes f}
          {c = contains extra_vetoes f} (rw c (ground arith)) (rw e (ground arith))
