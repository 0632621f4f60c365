-- ===== src/Observation/Run/Outcomes.antt =====
-- How the execution of a due slot can come out, and what `settle` makes of it.
use agent_crypto.Base.{
  ℕ, ◌≤◌, String, true, false, ◌≡◌, ◌⊎◌, inl, inr, refl, Option, none, some, arith, List, [], ◌∷◌,
}
use agent_crypto.Numbers.{Numbers}
use agent_crypto.Numbers.Ranges.{IsIntFrom}
use agent_crypto.Patterns.{is_upper_code}
use agent_crypto.Observation.Cycle.{ObservationCycleExecution, validate_cycle_execution}
use agent_crypto.Observation.Run.{
  Row, Store, CampaignRow, Run, returned, refused, due, Executed, executed, raised, Surroundings,
  ObservationCycleRunResult, stored, insert_cycle, judged, outcome_cycle, plan_of, settle,
  success_cycle, failure_cycle, safe_code, settled_result, next_sequence,
}

pub Option-cases : {A : Type 0} (v : Option A) → (v ≡ none) ⊎ ((a : A) × (v ≡ some a))
Option-cases none = inl refl
Option-cases (some a) = inr (a, refl)

pub Executed-cases :
    {N : Type 0} (x : Executed N)
    → ((code : Option String) × (x ≡ raised code))
      ⊎ ((y : ObservationCycleExecution N) × (x ≡ executed y))
Executed-cases (raised code) = inl (code, refl)
Executed-cases (executed y) = inr (y, refl)

pub upper_error : is_upper_code "OBSERVATION_ERROR" ≡ true
unfolding is_upper_code
upper_error = refl

module _ {N : Type 0} ⦃o : Numbers N⦄ (w : Surroundings N) (c : CampaignRow) where
  pub next_sequence-pos : (rs : List (Row N)) → 1 ≤ next_sequence rs
  unfolding next_sequence
  next_sequence-pos [] = omega arith
  next_sequence-pos (r ∷ rs) = omega arith

  abbrev Ended : Type 0
  Ended = Run (ObservationCycleRunResult N × Store N)

  -- The execution raised, or its report was refused.
  abbrev pub IsUnsound : ℕ → Type 0
  IsUnsound j =
      ((code : Option String) × (w.execute (plan_of w c j) ≡ raised code))
      ⊎ ((x : ObservationCycleExecution N) × (w.execute (plan_of w c j) ≡ executed x)
          × (message : String) × (validate_cycle_execution w.is_uuid x (plan_of w c j)
              ≡ some message))

  -- The execution returned a report that was accepted.
  abbrev pub IsSound : ℕ → ObservationCycleExecution N → Type 0
  IsSound j x =
      (w.execute (plan_of w c j) ≡ executed x)
      × (validate_cycle_execution w.is_uuid x (plan_of w c j) ≡ none)

  -- The slot is recorded, with the result's outcome in its newest row.
  abbrev pub IsRecorded : ℕ → String → Ended → Type 0
  IsRecorded j outcome y =
      (r : ObservationCycleRunResult N) × (t : Store N) × (row : Row N) × (rows : List (Row N)) × (y
        ≡ returned (r, t))
      × (t.rows ≡ row ∷ rows)
      × (row.cycle.outcome ≡ outcome)
      × (r.outcome ≡ outcome)
      × (r.sequence_no ≡ j)

  -- What comes of a due slot: a failure if the execution is unsound; if it is sound a success, or an
  -- error that PostgreSQL did not take the record of the success, or that the schema version of the
  -- report is no positive int.
  abbrev pub IsEnded : ℕ → Ended → Type 0
  IsEnded j y =
      (IsUnsound j × IsRecorded j "failure" y)
      ⊎ ((x : ObservationCycleExecution N) × IsSound j x
          × (IsRecorded j "success" y
              ⊎ (((y ≡ refused "OBSERVATION_CYCLE_UNAVAILABLE")
                    × (w.takes (success_cycle w c j x) ≡ false))
                  ⊎ ((y ≡ refused "OBSERVATION_ERROR")
                      × (IsIntFrom 1 x.bridge_schema_version → ⊥)))))

  pub settle-stored :
      (n m : ℕ) (s : Store N)
      → insert_cycle w (outcome_cycle w c n (w.execute (plan_of w c n))) s
        ≡ returned (stored w (outcome_cycle w c n (w.execute (plan_of w c n))) s)
      → (outcome : String) → (outcome_cycle w c n (w.execute (plan_of w c n))).outcome ≡ outcome
      → IsRecorded n outcome (settle w c (due, n, m, s))
  unfolding settle
  settle-stored n m s kept outcome e =
      let x = outcome_cycle w c n (w.execute (plan_of w c n)) in
      (
        settled_result w x n c m (stored w x s),
        stored w x s,
        _,
        s.rows,
        rw kept refl,
        refl,
        e,
        e,
        refl,
      )

  pub settle-refused :
      (n m : ℕ) (s : Store N) (code : String)
      → insert_cycle w (outcome_cycle w c n (w.execute (plan_of w c n))) s ≡ refused code
      → settle w c (due, n, m, s) ≡ refused code
  unfolding settle
  settle-refused n m s code h = rw h refl

  pub outcome_cycle-raised :
      (n : ℕ) (code : Option String)
      → w.execute (plan_of w c n) ≡ raised code
      → outcome_cycle w c n (w.execute (plan_of w c n)) ≡ failure_cycle w c n (safe_code code)
  unfolding outcome_cycle
  outcome_cycle-raised n code h = rw h refl

  pub outcome_cycle_unsound :
      (n : ℕ) (x : ObservationCycleExecution N) (message : String)
      → w.execute (plan_of w c n) ≡ executed x
      → validate_cycle_execution w.is_uuid x (plan_of w c n) ≡ some message
      → outcome_cycle w c n (w.execute (plan_of w c n)) ≡ failure_cycle w c n "OBSERVATION_ERROR"
  unfolding outcome_cycle judged
  outcome_cycle_unsound n x message h k = rw (h, k) refl

  pub outcome_cycle_sound :
      (n : ℕ) (x : ObservationCycleExecution N)
      → IsSound n x
      → outcome_cycle w c n (w.execute (plan_of w c n)) ≡ success_cycle w c n x
  unfolding outcome_cycle judged
  outcome_cycle_sound n x (h, k) = rw (h, k) refl

  pub failure-outcome : (n : ℕ) (code : String) → (failure_cycle w c n code).outcome ≡ "failure"
  unfolding failure_cycle
  failure-outcome n code = refl

  pub success-outcome :
      (n : ℕ) (x : ObservationCycleExecution N) → (success_cycle w c n x).outcome ≡ "success"
  unfolding success_cycle
  success-outcome n x = refl
