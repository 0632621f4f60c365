-- ===== src/Observation/Report/Gate.antt =====
-- When the evaluation of a campaign passes its gate.
use agent_crypto.Base.{
  ℕ, ◌*◌, ◌+◌, ◌-◌, ◌/◌, All-append_iff, ◌≤◌, String, Bool, true, ◌≡◌, ◌≢◌, refl, ◌↔◌, ◌++◌, All,
  Has, and_iff, arith, subst, text_eq_iff,
}
use agent_crypto.Numbers.{Numbers, boolean, number_of, count_of}
use agent_crypto.Numbers.Ranges.{is_true_iff}
use agent_crypto.Observation.Policy.{ObservationPolicy, minimum_elapsed_seconds, text_of}
use agent_crypto.Checked.{accepted}
use agent_crypto.Observation.Evidence.{ObservationEvidence}
use agent_crypto.Observation.Evidence.Sound.{IsSound}
use agent_crypto.Observation.Report.{
  mandatory_criteria, fixed_criteria, scenario_criteria, gap_limit, graded_report,
  evaluate_observation, ObservationQualityReport,
}
use agent_crypto.Observation.Report.Scenarios.{scenarios-IsMandatory, scenarios_iff}
use agent_crypto.Observation.Report.Taken.{evaluate_observation-eq-accepted}
use agent_crypto.Observation.Report.Grades.{
  Passes, IsMandatory, all-pass_iff, gate_iff, IsRateFrom, IsUpTo, reached_iff, graded_iff,
  zero_iff, matched_iff, rate_iff, maximum_iff, latency_iff,
}

elapsed_iff :
    (start end n : ℕ) → start ≤ end → (n ≤ (end - start) / 1000000) ↔ (start + n * 1000000 ≤ end)
elapsed_iff start end n h = ((λ l. omega arith), λ l. omega arith)

module _ {N : Type 0} ⦃o : Numbers N⦄ where
  -- The campaign lasted long enough in the live environment with its frozen hashes, covered every
  -- scope, reached both rates, linked and checked every successful cycle, kept the gap and both
  -- latencies below their limits, counted no violation, and showed every mandatory scenario.
  pub record IsMet (e : ObservationEvidence N) (p : ObservationPolicy N) : Type 0 where
    pub elapsed :
        e.started_at.instant + minimum_elapsed_seconds p * 1000000 ≤ e.observed_until.instant
    pub live : e.environment ≡ "live_t4"
    pub baseline : e.baseline_hash_matches ≡ boolean true
    pub policy : e.policy_hash_matches ≡ boolean true
    pub scoped : count_of e.scope_count ≢ 0
    pub covered : count_of e.covered_scope_count ≡ count_of e.scope_count
    pub attempts :
        IsRateFrom
          (number_of p.minimum_cycle_attempt_rate)
          (count_of e.attempted_cycles)
          (count_of e.expected_cycles)
    pub successes :
        IsRateFrom
          (number_of p.minimum_cycle_success_rate)
          (count_of e.successful_cycles)
          (count_of e.attempted_cycles)
    pub succeeded : count_of e.successful_cycles ≢ 0
    pub linked : count_of e.linked_successful_cycles ≡ count_of e.successful_cycles
    pub schemas : count_of e.schema_valid_successful_cycles ≡ count_of e.successful_cycles
    pub gap : IsUpTo (gap_limit e p) e.maximum_unexplained_gap_seconds
    pub p95 : IsUpTo (number_of p.maximum_bridge_rtt_p95_seconds) e.bridge_rtt_p95_seconds
    pub p99 : IsUpTo (number_of p.maximum_bridge_rtt_p99_seconds) e.bridge_rtt_p99_seconds
    pub reads : count_of e.read_only_violations ≡ 0
    pub orders : count_of e.order_route_attempts ≡ 0
    pub secrets : count_of e.secret_leaks ≡ 0
    pub integrity : count_of e.integrity_failures ≡ 0
    pub closed : count_of e.fail_closed_violations ≡ 0
    pub modes : count_of e.prohibited_data_mode_violations ≡ 0
    pub scenarios :
        All (λ v. Has (text_of v, boolean true) e.scenario_results) p.mandatory_scenarios

  fixed_criteria-IsMandatory :
      (e : ObservationEvidence N) (p : ObservationPolicy N) → All IsMandatory (fixed_criteria e p)
  unfolding fixed_criteria
  fixed_criteria-IsMandatory e p = (
    refl,
    (
      refl,
      (
        refl,
        (
          refl,
          (
            refl,
            (
              refl,
              (refl, (refl, (refl, (refl, (refl, (refl, (refl, (refl, (refl, (refl, tt)))))))))),
            ),
          ),
        ),
      ),
    ),
  )

  module _ (is_uuid : String → Bool) (e : ObservationEvidence N) (p : ObservationPolicy N)
      (sound : IsSound is_uuid e) where
    IsMet-of_criteria :
        All Passes (fixed_criteria e p) → All Passes (scenario_criteria e p) → IsMet e p
    unfolding fixed_criteria
    IsMet-of_criteria
          (
            elapsed,
            (
              live,
              (
                baseline,
                (
                  covered,
                  (
                    attempts,
                    (
                      successes,
                      (
                        linked,
                        (
                          schemas,
                          (
                            gap,
                            (rtt, (reads, (orders, (secrets, (integrity, (closed, (modes, _))))))),
                          ),
                        ),
                      ),
                    ),
                  ),
                ),
              ),
            ),
          )
          scenarios =
        let (base, frozen) = (and_iff _ _).0 ((graded_iff _).0 baseline) in
        let (scoped, all_covered) = (matched_iff _ _).0 covered in
        let (succeeded, all_linked) = (matched_iff _ _).0 linked in
        let (_, all_valid) = (matched_iff _ _).0 schemas in
        let (p95, p99) = (latency_iff _ _ _ _ sound.p95 sound.p99).0 rtt in
        let (to, from) =
          scenarios_iff e.scenario_results p.mandatory_scenarios sound.names_differ in
        record {
          elapsed = (elapsed_iff _ _ _ sound.ordered).0 ((reached_iff _ _ true).0 elapsed);
          live = (text_eq_iff _ _).0 ((graded_iff _).0 live);
          baseline = (is_true_iff _).0 base;
          policy = (is_true_iff _).0 frozen;
          scoped = scoped;
          covered = all_covered;
          attempts = (rate_iff _ _ _).0 attempts;
          successes = (rate_iff _ _ _).0 successes;
          succeeded = succeeded;
          linked = all_linked;
          schemas = all_valid;
          gap = (maximum_iff _ _ sound.gap).0 gap;
          p95 = p95;
          p99 = p99;
          reads = (zero_iff _).0 reads;
          orders = (zero_iff _).0 orders;
          secrets = (zero_iff _).0 secrets;
          integrity = (zero_iff _).0 integrity;
          closed = (zero_iff _).0 closed;
          modes = (zero_iff _).0 modes;
          scenarios = to scenarios;
        }

    fixed_of_met : IsMet e p → All Passes (fixed_criteria e p)
    unfolding fixed_criteria
    fixed_of_met m =
        let elapsed = (reached_iff _ _ true).1 ((elapsed_iff _ _ _ sound.ordered).1 m.elapsed) in
        let frozen = (and_iff _ _).1 ((is_true_iff _).1 m.baseline, (is_true_iff _).1 m.policy) in
        (
          elapsed,
          (
            (graded_iff _).1 ((text_eq_iff _ _).1 m.live),
            (
              (graded_iff _).1 frozen,
              (
                (matched_iff _ _).1 (m.scoped, m.covered),
                (
                  (rate_iff _ _ _).1 m.attempts,
                  (
                    (rate_iff _ _ _).1 m.successes,
                    (
                      (matched_iff _ _).1 (m.succeeded, m.linked),
                      (
                        (matched_iff _ _).1 (m.succeeded, m.schemas),
                        (
                          (maximum_iff _ _ sound.gap).1 m.gap,
                          (
                            (latency_iff _ _ _ _ sound.p95 sound.p99).1 (m.p95, m.p99),
                            (
                              (zero_iff _).1 m.reads,
                              (
                                (zero_iff _).1 m.orders,
                                (
                                  (zero_iff _).1 m.secrets,
                                  (
                                    (zero_iff _).1 m.integrity,
                                    ((zero_iff _).1 m.closed, ((zero_iff _).1 m.modes, tt)),
                                  ),
                                ),
                              ),
                            ),
                          ),
                        ),
                      ),
                    ),
                  ),
                ),
              ),
            ),
          ),
        )

    scenarios_of_met : IsMet e p → All Passes (scenario_criteria e p)
    scenarios_of_met m =
        (scenarios_iff e.scenario_results p.mandatory_scenarios sound.names_differ).1 m.scenarios

    criteria_iff : All Passes (fixed_criteria e p ++ scenario_criteria e p) ↔ IsMet e p
    criteria_iff =
        let (join, split) = All-append_iff Passes (fixed_criteria e p) (scenario_criteria e p) in
        (
          (λ h. let (fixed, scenarios) = join h in IsMet-of_criteria fixed scenarios),
          λ m. split (fixed_of_met m, scenarios_of_met m),
        )

  -- For sound evidence the gate of the report passes exactly when the campaign met every demand of
  -- the policy.
  pub graded_report-passed_iff :
      (is_uuid : String → Bool) (policy_hash : ObservationPolicy N → String)
      (e : ObservationEvidence N) (p : ObservationPolicy N)
      → IsSound is_uuid e
      → ((graded_report is_uuid policy_hash e p).v1_gate_passed ≡ true) ↔ IsMet e p
  unfolding graded_report
  graded_report-passed_iff is_uuid policy_hash e p sound =
      let mandatory = (All-append_iff IsMandatory (fixed_criteria e p) (scenario_criteria e p)).1 (
        fixed_criteria-IsMandatory e p,
        scenarios-IsMandatory e.scenario_results p.mandatory_scenarios,
      ) in
      let (to, from) =
        gate_iff (mandatory_criteria (fixed_criteria e p ++ scenario_criteria e p)) in
      let (pass_to, pass_from) =
        all-pass_iff (fixed_criteria e p ++ scenario_criteria e p) mandatory in
      let (met, meets) = criteria_iff is_uuid e p sound in
      ((λ h. met (pass_to (to h))), λ m. from (pass_from (meets m)))

  -- What the evaluation returns is graded so: for evidence and a policy that it accepts, the gate
  -- passes exactly when the campaign met every demand of the policy.
  pub evaluate_observation-passed_iff :
      (is_uuid : String → Bool) (policy_hash : ObservationPolicy N → String)
      (e : ObservationEvidence N) (p : ObservationPolicy N) (r : ObservationQualityReport N)
      → evaluate_observation is_uuid policy_hash e p ≡ accepted r
      → (r.v1_gate_passed ≡ true) ↔ IsMet e p
  evaluate_observation-passed_iff is_uuid policy_hash e p r h =
      let (frozen, sound, graded) = evaluate_observation-eq-accepted is_uuid policy_hash e p r h in
      subst (λ (q : ObservationQualityReport N). (q.v1_gate_passed ≡ true) ↔ IsMet e p) graded
        (graded_report-passed_iff is_uuid policy_hash e p sound)
