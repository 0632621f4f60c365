-- ===== src/Observation/Run/Records.antt =====
-- What comes of a due slot.
use agent_crypto.Base.{
  ℕ, ◌+◌, ◌≤◌, ◌<◌, String, true, ◌≡◌, inl, inr, ◌∙◌, ap, Option, none, some, arith, Bool-cases,
}
use agent_crypto.Numbers.{Numbers}
use agent_crypto.Numbers.Laws.{IntLaws}
use agent_crypto.Patterns.{is_upper_code}
use agent_crypto.Observation.Cycle.{
  ObservationCycle, ObservationCycleExecution, validate_cycle, validate_cycle_execution,
}
use agent_crypto.Observation.Run.{
  Store, CampaignRow, Run, returned, Stop, due, slot, slot_end, Surroundings,
  ObservationCycleRunResult, ◌>>=◌, outcome_cycle, plan_of, settle, success_cycle, failure_cycle,
  safe_code, admitted, next_sequence, run_cycle, continue_with, catch_up,
}
use agent_crypto.Observation.Run.Ends.{catch_up-due, IsDue}
use agent_crypto.Observation.Run.Valid.{
  IsReady, admitted_header, insert_cycle-taken, insert_cycle-untaken, insert_cycle-invalid,
  missed-valid, failure-valid, success-valid, safe_code-upper,
}
use agent_crypto.Observation.Run.Outcomes.{
  Option-cases, Executed-cases, upper_error, next_sequence-pos, IsSound, IsRecorded, IsEnded,
  settle-stored, settle-refused, outcome_cycle-raised, outcome_cycle_unsound, outcome_cycle_sound,
  failure-outcome, success-outcome,
}

module _ {N : Type 0} ⦃o : Numbers N⦄ (w : Surroundings N) (c : CampaignRow) where
  module _ (laws : IntLaws o) (campaign : Option CampaignRow)
      (known : admitted w campaign ≡ returned c) (from : ℕ) (pos_from : 1 ≤ from)
      (ready : IsReady w c from) where
    failed :
        (n m : ℕ) (s : Store N) (code : String)
        → IsDue w c from n
        → is_upper_code code ≡ true
        → outcome_cycle w c n (w.execute (plan_of w c n)) ≡ failure_cycle w c n code
        → IsRecorded w c n "failure" (settle w c (due, n, m, s))
    failed n m s code (later, inside, begun, now) safe e =
        let (uuid, scope) = admitted_header w c campaign known in
        let valid = failure-valid w c laws uuid scope from ready n code (omega arith) safe in
        let taken = ready.takes_failure n code later inside begun now safe in
        settle-stored w c n m s
          (rw e (insert_cycle-taken w c (failure_cycle w c n code) s valid taken)) "failure"
          (ap (λ (x : ObservationCycle N). x.outcome) e ∙ failure-outcome w c n code)

    succeeded :
        (n m : ℕ) (s : Store N) (x : ObservationCycleExecution N)
        → IsDue w c from n
        → IsSound w c n x
        → IsEnded w c n (settle w c (due, n, m, s))
    succeeded n m s x (later, _, _, _) sound =
        let (uuid, scope) = admitted_header w c campaign known in
        let e = outcome_cycle_sound w c n x sound in
        inr (
          x,
          sound,
          elim (Option-cases (validate_cycle w.is_uuid (success_cycle w c n x))) [
            | inr (message, invalid) ↦ inr (
                inr (
                  settle-refused w c n m s _
                      (rw e (insert_cycle-invalid w c (success_cycle w c n x) s message invalid)),
                  λ typed.
                      let valid =
                        success-valid w c laws uuid scope from ready n x (omega arith) sound.1
                          typed in
                      cc,
                ))
            | inl valid ↦ elim (Bool-cases (w.takes (success_cycle w c n x))) [
              | inl taken ↦ inl (
                  settle-stored w c n m s
                    (rw e (insert_cycle-taken w c (success_cycle w c n x) s valid taken)) "success"
                    (ap (λ (y : ObservationCycle N). y.outcome) e ∙ success-outcome w c n x))
              | inr untaken ↦ inr (
                  inl (
                    settle-refused w c n m s _
                        (rw e (insert_cycle-untaken w c (success_cycle w c n x) s valid untaken)),
                    untaken,
                  ))
            ]
          ],
        )

    settle-due :
        (n m : ℕ) (s : Store N) → IsDue w c from n → IsEnded w c n (settle w c (due, n, m, s))
    settle-due n m s is_due = elim (Executed-cases (w.execute (plan_of w c n))) [
      | inl (code, h) ↦ inl (
        inl (code, h),
        failed n m s (safe_code code) is_due (safe_code-upper code)
            (outcome_cycle-raised w c n code h),
      )
      | inr (x, h) ↦ elim (Option-cases (validate_cycle_execution w.is_uuid x (plan_of w c n))) [
        | inl sound ↦ succeeded n m s x is_due (h, sound)
        | inr (message, k) ↦ inl (
          inr (x, h, message, k),
          failed n m s "OBSERVATION_ERROR" is_due upper_error
              (outcome_cycle_unsound w c n x message h k),
        )
      ]
    ]

  module _ (laws : IntLaws o) (campaign : Option CampaignRow)
      (known : admitted w campaign ≡ returned c) where
    started :
        (fuel : ℕ) (s : Store N) → run_cycle w fuel campaign s ≡ continue_with w fuel s (returned c)
    unfolding run_cycle
    started fuel s = ap (continue_with w fuel s) known

    continued :
        (fuel : ℕ) (s : Store N) (x : Run (Stop × ℕ × ℕ × Store N))
        → catch_up w fuel c (next_sequence s.rows) 0 s ≡ some x
        → continue_with w fuel s (returned c) ≡ some (x >>= settle w c)
    continued fuel s x e =
        ap
          (λ (y : Option (Run (Stop × ℕ × ℕ × Store N))).
            let z : Option (Run (ObservationCycleRunResult N × Store N)) = elim y [
              | none ↦ none
              | some stopped ↦ some (stopped >>= settle w c)
            ] in
            z)
          e

    -- A run within a slot of the campaign, whose next slot has begun, ends with enough fuel, at a slot that
    -- is due. An execution that raises or gives a report that is refused is recorded as a failure. An
    -- accepted report is recorded as a success, unless PostgreSQL does not take that record or its schema
    -- version is no positive int: only then does the run end in an error, which records nothing. Assumed
    -- are UUIDs as trace ids, a clock that does not go back, and that PostgreSQL takes the missed and the
    -- failure records of the schedule from the next slot on.
    pub run_cycle-IsEnded :
        (fuel k : ℕ) (s : Store N)
        → IsReady w c (next_sequence s.rows)
        → next_sequence s.rows ≤ k
        → k < next_sequence s.rows + fuel
        → slot c (next_sequence s.rows) ≤ c.database_now
        → slot c k ≤ c.planned_ends_at
        → c.database_now ≤ slot_end c k
        → (j : ℕ) × (y : Run (ObservationCycleRunResult N × Store N)) × (run_cycle w fuel campaign s
            ≡ some y)
          × IsDue w c (next_sequence s.rows) j
          × IsEnded w c j y
    run_cycle-IsEnded fuel k s ready later fueled begun inside now =
        let (uuid, scope) = admitted_header w c campaign known in
        let n = next_sequence s.rows in
        let pos_n = next_sequence-pos w c s.rows in
        let (j, m, t, stops, is_due) =
          catch_up-due w c fuel n n 0 k s (omega arith) later fueled
            (λ i u above open_slot over.
              insert_cycle-taken w c _ u (missed-valid w c laws uuid scope n ready i (omega arith))
                (ready.takes_missed i above open_slot over))
            begun inside now in
        (
          j,
          settle w c (due, j, m, t),
          started fuel s ∙ continued fuel s (returned (due, j, m, t)) stops,
          is_due,
          settle-due laws campaign known n pos_n ready j m t is_due,
        )
