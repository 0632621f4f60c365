-- ===== src/Observation/Evidence/Sound.antt =====
-- Which evidence the evaluation takes.
use agent_crypto.Base.{
  String, Bool, true, false, ◌≡◌, refl, ◌↔◌, ◌≤◌, none, arith, All, List, all, all-All_iff, all_iff,
  and_iff, ◌⊎◌, inl, inr,
}
use agent_crypto.Numbers.{
  Numbers, Value, absent, boolean, number, text, other, is_boolean, count_of, whole,
}
use agent_crypto.Numbers.Ranges.{IsIntFrom, int_at_least_iff}
use agent_crypto.Checked.{AllHold, first_error_iff}
use agent_crypto.Clock.{is_aware}
use agent_crypto.Patterns.{is_lower_code}
use agent_crypto.Observation.Policy.{all_different}
use agent_crypto.Observation.Fields.{canonical_uuid, digest, is_duration, is_count}
use agent_crypto.Observation.Evidence.{
  ObservationEvidence, scenario_names, scenario_values, integer_fields, evidence_checks,
  validate_evidence,
}

module _ {N : Type 0} where
  abbrev pub IsBoolean : Value N → Type 0
  IsBoolean v = (b : Bool) × (v ≡ boolean b)

module _ {N : Type 0} ⦃o : Numbers N⦄ where
  pub is_boolean_iff : (v : Value N) → (is_boolean v ≡ true) ↔ IsBoolean v
  is_boolean_iff (boolean b) = ((λ h. (b, refl)), λ h. refl)
  is_boolean_iff absent = ((λ h. ground arith), λ (b, e). ground arith)
  is_boolean_iff (number x) = ((λ h. ground arith), λ (b, e). ground arith)
  is_boolean_iff (text s) = ((λ h. ground arith), λ (b, e). ground arith)
  is_boolean_iff other = ((λ h. ground arith), λ (b, e). ground arith)

  -- Missing, or a finite number that is not negative.
  abbrev pub IsDuration : Value N → Type 0
  IsDuration v =
      (v ≡ absent)
      ⊎ (x : N) × (v ≡ number x) × (o.is_finite (o.to_float x) ≡ true) × (o.lt x (whole 0) ≡ false)

  is_duration_iff : (v : Value N) → (is_duration v ≡ true) ↔ IsDuration v
  unfolding is_duration
  is_duration_iff absent = ((λ h. inl refl), λ h. refl)
  is_duration_iff (number x) = (
    (λ h. inr (x, refl, ground arith, ground arith)),
    λ d. elim d [ inl e ↦ ground arith | inr (y, e, f, l) ↦ ground arith ],
  )
  is_duration_iff (boolean b) =
      ((λ h. ground arith), λ d. elim d [ inl e ↦ ground arith | inr (y, e, f, l) ↦ ground arith ])
  is_duration_iff (text b) =
      ((λ h. ground arith), λ d. elim d [ inl e ↦ ground arith | inr (y, e, f, l) ↦ ground arith ])
  is_duration_iff other =
      ((λ h. ground arith), λ d. elim d [ inl e ↦ ground arith | inr (y, e, f, l) ↦ ground arith ])

  counts_iff : (vs : List (Value N)) → (all is_count vs ≡ true) ↔ All (IsIntFrom 0) vs
  counts_iff = all-All_iff is_count (λ v. int_at_least_iff {N = N} 0 v)

  booleans_iff : (vs : List (Value N)) → (all is_boolean vs ≡ true) ↔ All IsBoolean vs
  booleans_iff = all-All_iff is_boolean (λ v. is_boolean_iff v)

module _ {N : Type 0} ⦃o : Numbers N⦄ (is_uuid : String → Bool) where
  -- Evidence with an identity, counters that are counts and fit one another, ordered aware times,
  -- different scenario names with Boolean results, and durations.
  pub record IsSound (e : ObservationEvidence N) : Type 0 where
    pub campaign : canonical_uuid is_uuid e.campaign_id ≡ true
    pub start_aware : is_aware e.started_at ≡ true
    pub end_aware : is_aware e.observed_until ≡ true
    pub baseline : digest e.frozen_baseline_hash_sha256 ≡ true
    pub counts : All (IsIntFrom 0) (integer_fields e)
    pub interval : 60 ≤ count_of e.cycle_interval_seconds
    pub baseline_attested : IsBoolean e.baseline_hash_matches
    pub policy_attested : IsBoolean e.policy_hash_matches
    pub covered : count_of e.covered_scope_count ≤ count_of e.scope_count
    pub successes : count_of e.successful_cycles ≤ count_of e.attempted_cycles
    pub linked : count_of e.linked_successful_cycles ≤ count_of e.successful_cycles
    pub schemas : count_of e.schema_valid_successful_cycles ≤ count_of e.successful_cycles
    pub ordered : e.started_at.instant ≤ e.observed_until.instant
    pub names_differ : all_different (scenario_names e.scenario_results) ≡ true
    pub names_safe : All (λ s. is_lower_code s ≡ true) (scenario_names e.scenario_results)
    pub results : All IsBoolean (scenario_values e.scenario_results)
    pub gap : IsDuration e.maximum_unexplained_gap_seconds
    pub p95 : IsDuration e.bridge_rtt_p95_seconds
    pub p99 : IsDuration e.bridge_rtt_p99_seconds

  IsSound-of_checks : (e : ObservationEvidence N) → AllHold (evidence_checks is_uuid e) → IsSound e
  unfolding evidence_checks
  IsSound-of_checks e
        (
          campaign,
          (
            start,
            (
              end,
              (
                baseline,
                (
                  counts,
                  (
                    interval,
                    (
                      attested,
                      (covered, (successes, (linked, (ordered, (scenarios, (durations, _)))))),
                    ),
                  ),
                ),
              ),
            ),
          ),
        ) =
      let (names, more) = (and_iff _ _).0 scenarios in
      let (safe, results) = (and_iff _ _).0 more in
      let (gap, rtt) = (and_iff _ _).0 durations in
      let (p95, p99) = (and_iff _ _).0 rtt in
      let (a, b) = (and_iff _ _).0 attested in
      record {
        campaign = campaign;
        start_aware = start;
        end_aware = end;
        baseline = baseline;
        counts = (counts_iff (integer_fields e)).0 counts;
        interval = ground arith;
        baseline_attested = (is_boolean_iff _).0 a;
        policy_attested = (is_boolean_iff _).0 b;
        covered = ground arith;
        successes = ground arith;
        linked = ground arith;
        schemas = ground arith;
        ordered = ground arith;
        names_differ = names;
        names_safe = (all_iff _ _).0 safe;
        results = (booleans_iff _).0 results;
        gap = (is_duration_iff _).0 gap;
        p95 = (is_duration_iff _).0 p95;
        p99 = (is_duration_iff _).0 p99;
      }

  checks_of_sound : (e : ObservationEvidence N) → IsSound e → AllHold (evidence_checks is_uuid e)
  unfolding evidence_checks
  checks_of_sound e s =
      let counts = (counts_iff (integer_fields e)).1 s.counts in
      let results = (booleans_iff _).1 s.results in
      let safe = (all_iff _ _).1 s.names_safe in
      let attested =
        (and_iff _ _).1
          ((is_boolean_iff _).1 s.baseline_attested, (is_boolean_iff _).1 s.policy_attested) in
      let rtt = (and_iff _ _).1 ((is_duration_iff _).1 s.p95, (is_duration_iff _).1 s.p99) in
      (
        s.campaign,
        (
          s.start_aware,
          (
            s.end_aware,
            (
              s.baseline,
              (
                counts,
                (
                  ground arith,
                  (
                    attested,
                    (
                      ground arith,
                      (
                        ground arith,
                        (
                          ground arith,
                          (
                            ground arith,
                            (
                              (and_iff _ _).1 (s.names_differ, (and_iff _ _).1 (safe, results)),
                              ((and_iff _ _).1 ((is_duration_iff _).1 s.gap, rtt), tt),
                            ),
                          ),
                        ),
                      ),
                    ),
                  ),
                ),
              ),
            ),
          ),
        ),
      )

  -- The validation of evidence returns for exactly the sound one: counters are counts and fit one
  -- another, the times are aware and in order, the scenario names are different safe codes with
  -- Boolean results, and each duration is missing or finite and not negative.
  pub validate_evidence_iff :
      (e : ObservationEvidence N) → (validate_evidence is_uuid e ≡ none) ↔ IsSound e
  unfolding validate_evidence
  validate_evidence_iff e =
      let (to, from) = first_error_iff (evidence_checks is_uuid e) in
      ((λ h. IsSound-of_checks e (to h)), λ s. from (checks_of_sound e s))
