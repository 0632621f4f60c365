-- ===== src/Observation/Run/Due.antt =====
-- Which slots a run records, and as what.
use agent_crypto.Base.{
  ℕ, zero, suc, ◌+◌, ◌≤◌, ◌<◌, String, true, false, ◌≡◌, ◌≢◌, ◌⊎◌, inl, inr, refl, Option, none,
  some, arith, Bool-cases, leb, ltb, if◌then◌else◌, ◌==◌, subst,
}
use agent_crypto.Numbers.{Numbers}
use agent_crypto.Observation.Cycle.{ObservationCycle, validate_cycle}
use agent_crypto.Observation.Run.{
  Store, CampaignRow, Run, returned, refused, Stop, complete, early, due, slot, slot_end,
  Surroundings, ObservationCycleRunResult, ◌>>=◌, stored, insert_cycle, missed_cycle, catch_up,
  plan_of, outcome_cycle, settle, admitted, next_sequence, run_cycle, continue_with,
}

pub Run-cases {ℓ} :
    {A : Type ℓ} (r : Run A) → ((a : A) × (r ≡ returned a)) ⊎ ((c : String) × (r ≡ refused c))
Run-cases (returned a) = inl (a, refl)
Run-cases (refused c) = inr (c, refl)

module _ {N : Type 0} ⦃o : Numbers N⦄ (w : Surroundings N) where
  -- An insertion that returns has stored the record.
  pub insert_cycle-eq-returned :
      (c : ObservationCycle N) (s t : Store N)
      → insert_cycle w c s ≡ returned t
      → (validate_cycle w.is_uuid c ≡ none) × (t ≡ stored w c s)
  unfolding insert_cycle
  insert_cycle-eq-returned c s t h = ground arith

module _ {N : Type 0} ⦃o : Numbers N⦄ (w : Surroundings N) (c : CampaignRow) where
  -- From a next slot and a store to a next slot and a store, by recording slots as missed. Each is a
  -- slot of the campaign that ended before now.
  pub data Misses : ℕ → Store N → ℕ → Store N → Type 0 where
    here : {n : ℕ} {s : Store N} → Misses n s n s
    miss :
        {n k : ℕ} {s t : Store N}
        → slot c n ≤ c.planned_ends_at
        → slot_end c n < c.database_now
        → validate_cycle w.is_uuid (missed_cycle w c n) ≡ none
        → Misses (suc n) (stored w (missed_cycle w c n) s) k t
        → Misses n s k t

  -- Where the loop may stop.
  abbrev pub StopsAt : Stop → ℕ → Type 0
  StopsAt complete n = c.planned_ends_at < slot c n
  StopsAt early n = (slot c n ≤ c.planned_ends_at) × (c.database_now < slot c n)
  StopsAt due n =
      (slot c n ≤ c.planned_ends_at) × (slot c n ≤ c.database_now) × (c.database_now ≤ slot_end c n)

  abbrev Result : Type 0
  Result = Option (Run (Stop × ℕ × ℕ × Store N))

  -- What holds of a loop that began at slot `n` with `m` slots recorded, if it returned.
  abbrev Ends : ℕ → ℕ → Store N → Result → Type 0
  Ends n m s none = Unit {0}
  Ends n m s (some (refused code)) = Unit {0}
  Ends n m s (some (returned (stop, k, m', t))) = Misses n s k t × StopsAt stop k × (m + k ≡ m' + n)

  catch_up-zero : (n m : ℕ) (s : Store N) → catch_up w zero c n m s ≡ none
  unfolding catch_up
  catch_up-zero n m s = refl

  pub catch_up-complete :
      (fuel n m : ℕ) (s : Store N)
      → ltb c.planned_ends_at (slot c n) ≡ true
      → catch_up w (suc fuel) c n m s ≡ some (returned (complete, n, m, s))
  unfolding catch_up
  catch_up-complete fuel n m s h = rw h

  pub catch_up-waits :
      (fuel n m : ℕ) (s : Store N)
      → ltb c.planned_ends_at (slot c n) ≡ false
      → leb c.database_now (slot_end c n) ≡ true
      → catch_up w (suc fuel) c n m s
        ≡ some (returned (if ltb c.database_now (slot c n) then early else due, n, m, s))
  unfolding catch_up
  catch_up-waits fuel n m s h k = rw (h, k)

  pub catch_up-miss :
      (fuel n m : ℕ) (s t : Store N)
      → ltb c.planned_ends_at (slot c n) ≡ false
      → leb c.database_now (slot_end c n) ≡ false
      → insert_cycle w (missed_cycle w c n) s ≡ returned t
      → catch_up w (suc fuel) c n m s ≡ catch_up w fuel c (suc n) (suc m) t
  unfolding catch_up
  catch_up-miss fuel n m s t h k e = rw (h, k, e)

  pub catch_up-refused :
      (fuel n m : ℕ) (s : Store N) (code : String)
      → ltb c.planned_ends_at (slot c n) ≡ false
      → leb c.database_now (slot_end c n) ≡ false
      → insert_cycle w (missed_cycle w c n) s ≡ refused code
      → catch_up w (suc fuel) c n m s ≡ some (refused code)
  unfolding catch_up
  catch_up-refused fuel n m s code h k e = rw (h, k, e)

  Ends-miss :
      (n m : ℕ) (s : Store N) (r : Result)
      → slot c n ≤ c.planned_ends_at
      → slot_end c n < c.database_now
      → validate_cycle w.is_uuid (missed_cycle w c n) ≡ none
      → Ends (suc n) (suc m) (stored w (missed_cycle w c n) s) r
      → Ends n m s r
  Ends-miss n m s none h k v e = tt
  Ends-miss n m s (some (refused code)) h k v e = tt
  Ends-miss n m s (some (returned (stop, j, m', t))) h k v (misses, stops, counted) =
      (miss h k v misses, stops, omega arith)

  catch_up-Ends : (fuel n m : ℕ) (s : Store N) → Ends n m s (catch_up w fuel c n m s)
  catch_up-Ends zero n m s = rw (catch_up-zero n m s) tt
  catch_up-Ends (suc fuel) n m s = elim (Bool-cases (ltb c.planned_ends_at (slot c n))) [
    | inl over ↦ rw (catch_up-complete fuel n m s over) (here, ground arith, refl)
    | inr open_slot ↦ elim (Bool-cases (leb c.database_now (slot_end c n))) [
      | inl waits ↦
          rw (catch_up-waits fuel n m s open_slot waits)
            (elim (Bool-cases (ltb c.database_now (slot c n))) [
              | inl sooner ↦ rw sooner (here, (ground arith, ground arith), refl)
              | inr now ↦ rw now (here, (ground arith, ground arith, ground arith), refl)
            ])
      | inr expired ↦ elim (Run-cases (insert_cycle w (missed_cycle w c n) s)) [
        | inl (t, kept) ↦
            let (valid, e) = insert_cycle-eq-returned w (missed_cycle w c n) s t kept in
            rw (catch_up-miss fuel n m s t open_slot expired kept) (
              Ends-miss n m s _ (ground arith) (ground arith) valid (
                subst
                  (λ (u : Store N). Ends (suc n) (suc m) u (catch_up w fuel c (suc n) (suc m) t)) e
                  (catch_up-Ends fuel (suc n) (suc m) t)))
        | inr (code, failed) ↦ rw (catch_up-refused fuel n m s code open_slot expired failed) tt
      ]
    ]
  ]

  -- The execution for slot `k`, within that slot, led to a valid record that was stored.
  abbrev pub IsExecuted : ℕ → Store N → ObservationCycleRunResult N → Store N → Type 0
  IsExecuted k u r t =
      (t ≡ stored w (outcome_cycle w c k (w.execute (plan_of w c k))) u)
      × (validate_cycle w.is_uuid (outcome_cycle w c k (w.execute (plan_of w c k))) ≡ none)
      × StopsAt due k
      × (r.sequence_no ≡ k)

  -- Nothing but missed slots was recorded, and slot `k` has not begun or is beyond the campaign.
  abbrev pub IsWaiting : ℕ → Store N → ObservationCycleRunResult N → Store N → Type 0
  IsWaiting k u r t =
      (t ≡ u)
      × (StopsAt early k ⊎ StopsAt complete k)
      × (r.missed_cycles_recorded ≢ 0)
      × (r.outcome ≡ "missed")

  -- A run that returned recorded every slot that had ended as missed, in order, and then at most one
  -- record of the execution: for the next slot, within that slot. If there is none, at least one slot
  -- was missed, and the next one has not begun or is beyond the campaign.
  abbrev pub IsHonest : Store N → ObservationCycleRunResult N → Store N → Type 0
  IsHonest s r t =
      (k : ℕ) × (u : Store N) × Misses (next_sequence s.rows) s k u
      × (k ≡ r.missed_cycles_recorded + next_sequence s.rows)
      × (IsExecuted k u r t ⊎ IsWaiting k u r t)

  abbrev IsSettled : Store N → Run (ObservationCycleRunResult N × Store N) → Type 0
  IsSettled s (refused code) = Unit {0}
  IsSettled s (returned (r, t)) = IsHonest s r t

  settle-IsSettled :
      (s u : Store N) (stop : Stop) (k m : ℕ)
      → Misses (next_sequence s.rows) s k u × StopsAt stop k × (k ≡ m + next_sequence s.rows)
      → IsSettled s (settle w c (stop, k, m, u))
  unfolding settle
  settle-IsSettled s u complete k zero (misses, stops, counted) = tt
  settle-IsSettled s u complete k (suc m) (misses, stops, counted) =
      let some_missed : (suc m == 0) ≡ false = ground arith in
      rw some_missed (k, u, misses, counted, inr (refl, inr stops, omega arith, refl))
  settle-IsSettled s u early k zero (misses, stops, counted) = tt
  settle-IsSettled s u early k (suc m) (misses, stops, counted) =
      let some_missed : (suc m == 0) ≡ false = ground arith in
      rw some_missed (k, u, misses, counted, inr (refl, inl stops, omega arith, refl))
  settle-IsSettled s u due k m (misses, stops, counted) =
      elim (Run-cases (insert_cycle w (outcome_cycle w c k (w.execute (plan_of w c k))) u)) [
        | inl (t, kept) ↦
            let (valid, e) =
              insert_cycle-eq-returned w (outcome_cycle w c k (w.execute (plan_of w c k))) u t
                kept in
            rw kept (k, u, misses, counted, inl (e, valid, stops, refl))
        | inr (code, failed) ↦ rw failed tt
      ]

  settled_of :
      (s : Store N) (x : Result)
      → Ends (next_sequence s.rows) 0 s x
      → (r : ObservationCycleRunResult N) (t : Store N)
      → elim x [ none ↦ none | some stopped ↦ some (stopped >>= settle w c) ]
        ≡ some (returned (r, t))
      → IsHonest s r t
  settled_of s none e r t h = ground arith
  settled_of s (some (refused code)) e r t h = ground arith
  settled_of s (some (returned (stop, k, m, u))) (misses, stops, counted) r t h =
      let settled = settle-IsSettled s u stop k m (misses, stops, omega arith) in
      let e : settle w c (stop, k, m, u) ≡ returned (r, t) = cc in subst (IsSettled s) e settled

  -- Every run that returns is honest: whatever `execute` does, a slot that has ended is recorded as
  -- missed and never executed, and the one execution is recorded in its own slot.
  pub run_cycle-IsHonest :
      (fuel : ℕ) (campaign : Option CampaignRow) (s : Store N) (r : ObservationCycleRunResult N)
      (t : Store N)
      → admitted w campaign ≡ returned c
      → run_cycle w fuel campaign s ≡ some (returned (r, t))
      → IsHonest s r t
  unfolding run_cycle
  run_cycle-IsHonest fuel campaign s r t known h =
      settled_of s (catch_up w fuel c (next_sequence s.rows) 0 s)
        (catch_up-Ends fuel (next_sequence s.rows) 0 s) r t
        (subst (λ (a : Run CampaignRow). continue_with w fuel s a ≡ some (returned (r, t))) known h)
