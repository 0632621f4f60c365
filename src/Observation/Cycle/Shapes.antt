-- ===== src/Observation/Cycle/Shapes.antt =====
-- What the validation of a cycle accepts, by its outcome.
use agent_crypto.Base.{
  subst, sym, ◌++◌, String, Bool, true, false, ◌≡◌, ◌↔◌, ◌⊎◌, inl, inr, none, arith, text_eq,
  text_eq_iff, [], ◌∷◌, All-append_iff, Bool-cases, contains,
}
use agent_crypto.Numbers.{Numbers}
use agent_crypto.Numbers.Ranges.{IsIntFrom, int_at_least_iff}
use agent_crypto.Checked.{AllHold, first_error_iff}
use agent_crypto.Observation.Fields.{digest}
use agent_crypto.Observation.Cycle.{
  validate_cycle_execution, execution_checks, ObservationCycleExecution, ObservationCyclePlan,
  ObservationCycle, header_checks, outcome_checks, time_checks, cycle_checks, success_checks,
  failure_checks, missed_empty, validate_cycle,
}
use agent_crypto.Observation.Cycle.Parts.{
  IsShaped, IsHeaded, IsSuccess, IsFailure, IsMissed, IsSuccess-of_checks, IsFailure-of_checks,
  IsMissed-of_checks, success_checks_of, failure_checks_of, span_checks, empty_of, times_of_missed,
}

module _ {N : Type 0} ⦃o : Numbers N⦄ (is_uuid : String → Bool) where
  outcome_checks-success :
      (c : ObservationCycle N)
      → text_eq c.outcome "success" ≡ true
      → outcome_checks is_uuid c ≡ success_checks is_uuid c
  unfolding outcome_checks
  outcome_checks-success c h = rw h

  outcome_checks-failure :
      (c : ObservationCycle N)
      → text_eq c.outcome "success" ≡ false
      → text_eq c.outcome "failure" ≡ true
      → outcome_checks is_uuid c ≡ failure_checks is_uuid c
  unfolding outcome_checks
  outcome_checks-failure c h k = rw (h, k)

  outcome_checks-missed :
      (c : ObservationCycle N)
      → text_eq c.outcome "success" ≡ false
      → text_eq c.outcome "failure" ≡ false
      → outcome_checks is_uuid c
        ≡ (missed_empty c, "Missed observation cycle evidence is invalid") ∷ []
  unfolding outcome_checks
  outcome_checks-missed c h k = rw (h, k)

  shape_of :
      (c : ObservationCycle N)
      → contains ("success" ∷ "failure" ∷ "missed" ∷ []) c.outcome ≡ true
      → AllHold (outcome_checks is_uuid c)
      → AllHold (time_checks c)
      → IsSuccess is_uuid c ⊎ (IsFailure is_uuid c ⊎ IsMissed c)
  shape_of c known checks times = elim (Bool-cases (text_eq c.outcome "success")) [
    | inl won ↦ inl (
        IsSuccess-of_checks is_uuid c ((text_eq_iff _ _).0 won)
          (subst AllHold (outcome_checks-success c won) checks) times)
    | inr lost ↦ elim (Bool-cases (text_eq c.outcome "failure")) [
      | inl failed ↦ inr (
          inl (
            IsFailure-of_checks is_uuid c ((text_eq_iff _ _).0 failed)
              (subst AllHold (outcome_checks-failure c lost failed) checks) times))
      | inr unfailed ↦
          let (empty, _) = subst AllHold (outcome_checks-missed c lost unfailed) checks in
          inr (inr (IsMissed-of_checks c ((text_eq_iff c.outcome "missed").0 (ground arith)) empty))
    ]
  ]

  checks_of_headed :
      (c : ObservationCycle N)
      → IsHeaded is_uuid c
      → contains ("success" ∷ "failure" ∷ "missed" ∷ []) c.outcome ≡ true
      → AllHold (header_checks is_uuid c)
  unfolding header_checks
  checks_of_headed c h known = (
    h.campaign,
    (
      h.expected,
      (h.scope, ((int_at_least_iff 1 c.sequence_no).1 h.sequence, (known, (h.error, (h.gap, tt))))),
    ),
  )

  checks_of_shape :
      (c : ObservationCycle N)
      → IsSuccess is_uuid c ⊎ (IsFailure is_uuid c ⊎ IsMissed c)
      → (contains ("success" ∷ "failure" ∷ "missed" ∷ []) c.outcome ≡ true)
        × AllHold (outcome_checks is_uuid c)
        × AllHold (time_checks c)
  checks_of_shape c (inl s) =
      let e = (text_eq_iff c.outcome "success").1 s.outcome in
      (
        ground arith,
        subst AllHold (sym (outcome_checks-success c e)) (success_checks_of is_uuid c s),
        span_checks c s.span,
      )
  checks_of_shape c (inr (inl f)) =
      let e = (text_eq_iff c.outcome "failure").1 f.outcome in
      let d : text_eq c.outcome "success" ≡ false = rw f.outcome in
      (
        ground arith,
        subst AllHold (sym (outcome_checks-failure c d e)) (failure_checks_of is_uuid c f),
        span_checks c f.span,
      )
  checks_of_shape c (inr (inr m)) =
      let e = (text_eq_iff c.outcome "missed").1 m.outcome in
      let d : text_eq c.outcome "success" ≡ false = rw m.outcome in
      let d' : text_eq c.outcome "failure" ≡ false = rw m.outcome in
      (
        ground arith,
        subst AllHold (sym (outcome_checks-missed c d d')) (empty_of c m, tt),
        times_of_missed c m,
      )

  -- The validation of a cycle returns for exactly three kinds of record with a sound header: the
  -- success with two ordered times and all its links, the failure with two ordered times, an error
  -- code and a trace but no data, and the missed slot with neither times, codes nor data.
  pub validate_cycle_iff :
      (c : ObservationCycle N) → (validate_cycle is_uuid c ≡ none) ↔ IsShaped is_uuid c
  unfolding validate_cycle cycle_checks header_checks
  validate_cycle_iff c =
      let (to, from) = first_error_iff (cycle_checks is_uuid c) in
      let (cut, join) =
        All-append_iff (λ (k : Bool × String). k.0 ≡ true) (header_checks is_uuid c)
          (outcome_checks is_uuid c ++ time_checks c) in
      let (cut', join') =
        All-append_iff (λ (k : Bool × String). k.0 ≡ true) (outcome_checks is_uuid c)
          (time_checks c) in
      (
        (λ h.
            let (header, rest) = cut (to h) in
            let (kind, times) = cut' rest in
            let (campaign, (expected, (scope, (sequence, (known, (error, (gap, _))))))) = header in
            (
              record {
                campaign = campaign;
                expected = expected;
                scope = scope;
                sequence = (int_at_least_iff 1 c.sequence_no).0 sequence;
                error = error;
                gap = gap;
              },
              shape_of c known kind times,
            )),
        λ (headed, shape).
            let (known, kind, times) = checks_of_shape c shape in
            from (join (checks_of_headed c headed known, join' (kind, times))),
      )

  pub execution_checks_of :
      (x : ObservationCycleExecution N) (plan : ObservationCyclePlan N)
      → validate_cycle_execution is_uuid x plan ≡ none
      → (digest x.raw_payload_hash ≡ true)
        × (digest x.analysis_input_hash ≡ true)
        × IsIntFrom 1 x.t4_batch_id
        × IsIntFrom 1 x.research_run_id
        × IsIntFrom 0 x.bridge_rtt_milliseconds
  unfolding validate_cycle_execution execution_checks
  execution_checks_of x plan h =
      let (trace, (uuid, (payload, (input, (links, rest))))) =
        (first_error_iff (execution_checks is_uuid x plan)).0 h in
      (
        payload,
        input,
        (int_at_least_iff 1 x.t4_batch_id).0 (ground arith),
        (int_at_least_iff 1 x.research_run_id).0 (ground arith),
        (int_at_least_iff 0 x.bridge_rtt_milliseconds).0 (ground arith),
      )
