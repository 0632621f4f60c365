-- ===== src/Observation/Policy/Accepts.antt =====
-- Which observation policies the validation accepts.
use agent_crypto.Base.{true, ◌≡◌, ◌↔◌, some, pos, arith}
use agent_crypto.Numbers.{Numbers, finite_order, int_of}
use agent_crypto.Numbers.Ranges.{
  IsIntFrom, IsFiniteIn, IsInked, is_int_iff, int_at_least_iff, finite_between_iff, is_inked_iff,
}
use agent_crypto.Checked.{accepted, AllHold, accepted_iff}
use agent_crypto.Observation.Policy.{
  ObservationPolicy, scenarios_valid, policy_checks, validate_observation_policy,
}

module _ {N : Type 0} ⦃o : Numbers N⦄ where
  -- Every threshold is set and in its range, the two latencies are in order and the scenarios are
  -- sorted, different, safe codes.
  pub record IsFrozen (p : ObservationPolicy N) : Type 0 where
    pub name : IsInked p.policy_id
    pub schema : int_of p.schema_version ≡ some (pos 1)
    pub bridge : IsIntFrom 5 p.required_bridge_schema_version
    pub hours : IsIntFrom 672 p.minimum_elapsed_hours
    pub attempts : IsFiniteIn (o.decimal 0 0) (o.decimal 1 0) p.minimum_cycle_attempt_rate
    pub successes : IsFiniteIn (o.decimal 0 0) (o.decimal 1 0) p.minimum_cycle_success_rate
    pub gap : IsFiniteIn (o.decimal 1 0) (o.decimal 24 0) p.maximum_unexplained_gap_multiplier
    pub p95 : IsFiniteIn (o.decimal 1 3) (o.decimal 60 0) p.maximum_bridge_rtt_p95_seconds
    pub p99 : IsFiniteIn (o.decimal 1 3) (o.decimal 60 0) p.maximum_bridge_rtt_p99_seconds
    pub order :
        finite_order p.maximum_bridge_rtt_p95_seconds p.maximum_bridge_rtt_p99_seconds ≡ true
    pub scenarios : scenarios_valid p.mandatory_scenarios ≡ true

  IsFrozen-of_checks : (p : ObservationPolicy N) → AllHold (policy_checks p) → IsFrozen p
  unfolding policy_checks
  IsFrozen-of_checks p
        (
          name,
          (
            schema,
            (
              bridge,
              (hours, (attempts, (successes, (gap, (p95, (p99, (order, (scenarios, _)))))))),
            ),
          ),
        ) =
      record {
        name = (is_inked_iff _).0 name;
        schema = (is_int_iff 1 _).0 schema;
        bridge = (int_at_least_iff 5 _).0 bridge;
        hours = (int_at_least_iff 672 _).0 hours;
        attempts = (finite_between_iff _ _ _).0 attempts;
        successes = (finite_between_iff _ _ _).0 successes;
        gap = (finite_between_iff _ _ _).0 gap;
        p95 = (finite_between_iff _ _ _).0 p95;
        p99 = (finite_between_iff _ _ _).0 p99;
        order = ground arith;
        scenarios = scenarios;
      }

  checks_of_frozen : (p : ObservationPolicy N) → IsFrozen p → AllHold (policy_checks p)
  unfolding policy_checks
  checks_of_frozen p f =
      let p99 = (finite_between_iff _ _ _).1 f.p99 in
      let order = f.order in
      (
        (is_inked_iff _).1 f.name,
        (
          (is_int_iff 1 _).1 f.schema,
          (
            (int_at_least_iff 5 _).1 f.bridge,
            (
              (int_at_least_iff 672 _).1 f.hours,
              (
                (finite_between_iff _ _ _).1 f.attempts,
                (
                  (finite_between_iff _ _ _).1 f.successes,
                  (
                    (finite_between_iff _ _ _).1 f.gap,
                    ((finite_between_iff _ _ _).1 f.p95, (p99, (ground arith, (f.scenarios, tt)))),
                  ),
                ),
              ),
            ),
          ),
        ),
      )

  -- The validation of an observation policy returns for exactly the frozen ones: a name, schema 1, a
  -- bridge schema of at least 5, at least 672 hours, each rate, the gap multiplier and both latencies
  -- in range and in order, and a sorted list of different, safe scenario codes.
  pub validate_observation_policy_iff :
      (p : ObservationPolicy N) → (validate_observation_policy p ≡ accepted tt) ↔ IsFrozen p
  unfolding validate_observation_policy
  validate_observation_policy_iff p =
      let (to, from) = accepted_iff (policy_checks p) in
      ((λ h. IsFrozen-of_checks p (to h)), λ f. from (checks_of_frozen p f))
