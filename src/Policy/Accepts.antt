-- ===== src/Policy/Accepts.antt =====
-- Which policies `validate_v1_safety` accepts.
use agent_crypto.Base.{
  ℕ, true, ◌≡◌, refl, ◌↔◌, ◌⊎◌, inl, inr, ◌≤◌, ◌&&◌, ◌||◌, All-map, Option-cases, List, [], ◌∷◌,
  length, arith, all, all_iff, any-Has_iff, and_iff, is_empty, leb, not,
}
use agent_crypto.Numbers.{
  Numbers, Value, absent, boolean, number, text, other, equals_int, holds_text, is_text,
}
use agent_crypto.Numbers.Ranges.{
  is_text_iff, is_true_iff, is_false_iff, strict_int_between_iff, is_int_iff, finite_between_iff,
}
use agent_crypto.Checked.{accepted, AllHold, accepted_iff}
use agent_crypto.Policy.{
  RiskPolicy, safety_checks, is_v1_decisions, equals_v1_intervals, is_int_type, validate_v1_safety,
}
use agent_crypto.Policy.Safe.{IsInt, IsV1Decisions, IsV1Intervals, IsSafe}

module _ {N : Type 0} ⦃o : Numbers N⦄ where
  is_decision_iff :
      (v : Value N)
      → ((is_text "NO_SIGNAL" v || is_text "ALERT" v) ≡ true)
        ↔ ((v ≡ text "NO_SIGNAL") ⊎ (v ≡ text "ALERT"))
  is_decision_iff v = ground (arith, is_text_iff "NO_SIGNAL" v, is_text_iff "ALERT" v)

  is_v1_decisions_iff : (vs : List (Value N)) → (is_v1_decisions vs ≡ true) ↔ IsV1Decisions vs
  unfolding is_v1_decisions holds_text
  is_v1_decisions_iff vs =
      let each = λ (v : Value N). is_decision_iff v in
      let all_of = all_iff (λ (v : Value N). is_text "NO_SIGNAL" v || is_text "ALERT" v) vs in
      let no_of =
        any-Has_iff (is_text "NO_SIGNAL") (text "NO_SIGNAL") vs (is_text_iff "NO_SIGNAL") in
      let alert_of = any-Has_iff (is_text "ALERT") (text "ALERT") vs (is_text_iff "ALERT") in
      (
        (λ h. (
          All-map (λ v. (each v).0) vs (all_of.0 ((and_iff _ _).0 h).0),
          no_of.0 ((and_iff _ _).0 ((and_iff _ _).0 h).1).0,
          alert_of.0 ((and_iff _ _).0 ((and_iff _ _).0 h).1).1,
        )),
        λ (members, no_signal, alert). (and_iff _ _).1 (
          all_of.1 (All-map (λ v. (each v).1) vs members),
          (and_iff _ _).1 (no_of.1 no_signal, alert_of.1 alert),
        ),
      )

  is_interval_iff : (n : ℕ) (v : Value N) → ((equals_int n v && is_int_type v) ≡ true) ↔ IsInt n v
  is_interval_iff n (number x) = (
    (λ h. elim (Option-cases (o.int? x)) [
      | inl e ↦ ground arith
      | inr (z, e) ↦ (x, refl, ground arith, z, e)
    ]),
    λ (y, e, q, z, i). ground arith,
  )
  is_interval_iff n absent = ((λ h. ground arith), λ (y, e, q, z, i). ground arith)
  is_interval_iff n (boolean b) = ((λ h. ground arith), λ (y, e, q, z, i). ground arith)
  is_interval_iff n (text s) = ((λ h. ground arith), λ (y, e, q, z, i). ground arith)
  is_interval_iff n other = ((λ h. ground arith), λ (y, e, q, z, i). ground arith)

  intervals_iff :
      (vs : List (Value N))
      → ((equals_v1_intervals vs && all is_int_type vs) ≡ true) ↔ IsV1Intervals vs
  intervals_iff [] = ground arith
  intervals_iff (a ∷ []) = ground arith
  intervals_iff (a ∷ b ∷ []) = ground arith
  intervals_iff (a ∷ b ∷ c ∷ []) =
      let ia = is_interval_iff 240 a in
      let ib = is_interval_iff 1440 b in
      let ic = is_interval_iff 10080 c in
      (
        (λ h. (ia.0 (ground arith), ib.0 (ground arith), ic.0 (ground arith))),
        λ (ha, hb, hc). let ka = ia.1 ha in let kb = ib.1 hb in let kc = ic.1 hc in ground arith,
      )
  intervals_iff (a ∷ b ∷ c ∷ d ∷ vs) = ground arith

  asset_count_iff :
      (vs : List (Value N))
      → ((not (is_empty vs) && leb (length vs) 20) ≡ true) ↔ ((1 ≤ length vs) × (length vs ≤ 20))
  asset_count_iff [] = ground arith
  asset_count_iff (v ∷ vs) = ground arith

  IsSafe-of_checks : (p : RiskPolicy N) → AllHold (safety_checks p) → IsSafe p
  unfolding safety_checks
  IsSafe-of_checks p
        (
          schema,
          (
            mode,
            (
              execution,
              (
                leverage,
                (
                  martingale,
                  (
                    credentials,
                    (
                      decisions,
                      (
                        intervals,
                        (
                          assets,
                          (
                            quality,
                            (
                              samples,
                              (
                                staleness,
                                (
                                  age,
                                  (
                                    gap,
                                    (
                                      volatility,
                                      (
                                        return,
                                        (
                                          ttl,
                                          (
                                            skew,
                                            (sources, (history, (price, (volume, (approval, _))))),
                                          ),
                                        ),
                                      ),
                                    ),
                                  ),
                                ),
                              ),
                            ),
                          ),
                        ),
                      ),
                    ),
                  ),
                ),
              ),
            ),
          ),
        ) =
      record {
        schema = (is_int_iff 3 _).0 schema;
        read_only = (is_text_iff _ _).0 mode;
        no_execution = (is_false_iff _).0 execution;
        no_leverage = (is_false_iff _).0 leverage;
        no_martingale = (is_false_iff _).0 martingale;
        no_credentials = (is_false_iff _).0 credentials;
        decisions = (is_v1_decisions_iff _).0 decisions;
        intervals = (intervals_iff _).0 intervals;
        assets = (asset_count_iff _).0 assets;
        quality = (finite_between_iff _ _ _).0 quality;
        samples = (strict_int_between_iff _ _ _).0 samples;
        staleness = (finite_between_iff _ _ _).0 staleness;
        price_age = (is_int_iff 300 _).0 age;
        gap = (finite_between_iff _ _ _).0 gap;
        volatility = (finite_between_iff _ _ _).0 volatility;
        period_return = (finite_between_iff _ _ _).0 return;
        report_ttl = (strict_int_between_iff _ _ _).0 ttl;
        clock_skew = (strict_int_between_iff _ _ _).0 skew;
        sources = (is_int_iff 1 _).0 sources;
        history = (is_int_iff 120 _).0 history;
        market_price = (finite_between_iff _ _ _).0 price;
        base_volume = (finite_between_iff _ _ _).0 volume;
        approval = (is_true_iff _).0 approval;
      }

  checks_of_safe : (p : RiskPolicy N) → IsSafe p → AllHold (safety_checks p)
  unfolding safety_checks
  checks_of_safe p s = (
    (is_int_iff 3 _).1 s.schema,
    (
      (is_text_iff _ _).1 s.read_only,
      (
        (is_false_iff _).1 s.no_execution,
        (
          (is_false_iff _).1 s.no_leverage,
          (
            (is_false_iff _).1 s.no_martingale,
            (
              (is_false_iff _).1 s.no_credentials,
              (
                (is_v1_decisions_iff _).1 s.decisions,
                (
                  (intervals_iff _).1 s.intervals,
                  (
                    (asset_count_iff _).1 s.assets,
                    (
                      (finite_between_iff _ _ _).1 s.quality,
                      (
                        (strict_int_between_iff _ _ _).1 s.samples,
                        (
                          (finite_between_iff _ _ _).1 s.staleness,
                          (
                            (is_int_iff 300 _).1 s.price_age,
                            (
                              (finite_between_iff _ _ _).1 s.gap,
                              (
                                (finite_between_iff _ _ _).1 s.volatility,
                                (
                                  (finite_between_iff _ _ _).1 s.period_return,
                                  (
                                    (strict_int_between_iff _ _ _).1 s.report_ttl,
                                    (
                                      (strict_int_between_iff _ _ _).1 s.clock_skew,
                                      (
                                        (is_int_iff 1 _).1 s.sources,
                                        (
                                          (is_int_iff 120 _).1 s.history,
                                          (
                                            (finite_between_iff _ _ _).1 s.market_price,
                                            (
                                              (finite_between_iff _ _ _).1 s.base_volume,
                                              ((is_true_iff _).1 s.approval, tt),
                                            ),
                                          ),
                                        ),
                                      ),
                                    ),
                                  ),
                                ),
                              ),
                            ),
                          ),
                        ),
                      ),
                    ),
                  ),
                ),
              ),
            ),
          ),
        ),
      ),
    ),
  )

  -- `validate_v1_safety` returns for exactly the policies that keep every V1 limit: the switches for
  -- execution, leverage, martingale and credentials off, human approval on, and each limit in range.
  pub validate_v1_safety_iff : (p : RiskPolicy N) → (validate_v1_safety p ≡ accepted tt) ↔ IsSafe p
  unfolding validate_v1_safety
  validate_v1_safety_iff p =
      let (to, from) = accepted_iff (safety_checks p) in
      ((λ h. IsSafe-of_checks p (to h)), λ s. from (checks_of_safe p s))
