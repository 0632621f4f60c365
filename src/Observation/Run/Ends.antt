-- ===== src/Observation/Run/Ends.antt =====
-- That a run ends, and that a due slot is recorded.
use agent_crypto.Base.{
  ℕ, zero, suc, ◌+◌, ◌≤◌, ◌<◌, false, ◌≡◌, ◌≢◌, refl, sym, ◌∙◌, subst, Option, none, some, arith,
  Bool-cases, inl, inr, ltb, leb,
}
use agent_crypto.Numbers.{Numbers}
use agent_crypto.Observation.Run.{
  Store, CampaignRow, Run, returned, Stop, due, slot, slot_end, Surroundings,
  ObservationCycleRunResult, stored, insert_cycle, missed_cycle, catch_up, settle, admitted,
  next_sequence, run_cycle, continue_with, ◌>>=◌,
}
use agent_crypto.Observation.Run.Due.{
  Run-cases, catch_up-complete, catch_up-waits, catch_up-miss, catch_up-refused,
}

add_zero : (n : ℕ) → n + zero ≡ n
add_zero n = omega arith

module _ {N : Type 0} ⦃o : Numbers N⦄ (w : Surroundings N) (c : CampaignRow) where
  later_fuel :
      (fuel n : ℕ)
      → c.planned_ends_at < slot c (n + suc fuel)
      → c.planned_ends_at < slot c (suc n + fuel)
  later_fuel fuel n h = subst (λ (k : ℕ). c.planned_ends_at < slot c k) (omega arith) h

  catch_up-ne-none :
      (fuel n m : ℕ) (s : Store N)
      → c.planned_ends_at < slot c (n + fuel)
      → catch_up w (suc fuel) c n m s ≢ none
  catch_up-ne-none zero n m s h e =
      let past = subst (λ (k : ℕ). c.planned_ends_at < slot c k) (add_zero n) h in
      let f = catch_up-complete w c zero n m s (ground arith) in cc
  catch_up-ne-none (suc fuel) n m s h e = elim (Bool-cases (ltb c.planned_ends_at (slot c n))) [
    | inl over ↦ let f = catch_up-complete w c (suc fuel) n m s over in cc
    | inr open_slot ↦ elim (Bool-cases (leb c.database_now (slot_end c n))) [
      | inl waits ↦ let f = catch_up-waits w c (suc fuel) n m s open_slot waits in cc
      | inr expired ↦ elim (Run-cases (insert_cycle w (missed_cycle w c n) s)) [
        | inr (code, failed) ↦
            let f = catch_up-refused w c (suc fuel) n m s code open_slot expired failed in cc
        | inl (t, kept) ↦
            catch_up-ne-none fuel (suc n) (suc m) t (later_fuel fuel n h)
              (sym (catch_up-miss w c (suc fuel) n m s t open_slot expired kept) ∙ e)
      ]
    ]
  ]

  slot-suc : (n : ℕ) → slot c (suc n) ≡ slot_end c n
  slot-suc n = grind arith

  slot_mono : (n k : ℕ) → n ≤ k → slot c n ≤ slot c k
  slot_mono n k h = grind arith

  stopped_none :
      (x : Option (Run (Stop × ℕ × ℕ × Store N)))
      → ◌≡◌ {A = Option (Run (ObservationCycleRunResult N × Store N))}
          (elim x [ none ↦ none | some stopped ↦ some (stopped >>= settle w c) ])
          none
      → x ≡ none
  stopped_none none e = refl
  stopped_none (some r) e = ground arith

  -- A run ends: with more fuel than the campaign has slots it does not run out.
  pub run_cycle-ne-none :
      (fuel : ℕ) (campaign : Option CampaignRow) (s : Store N)
      → admitted w campaign ≡ returned c
      → c.planned_ends_at < slot c fuel
      → run_cycle w (suc fuel) campaign s ≢ none
  unfolding run_cycle
  run_cycle-ne-none fuel campaign s known h e =
      let n = next_sequence s.rows in
      let looped = subst (λ (a : Run CampaignRow). continue_with w (suc fuel) s a ≡ none) known e in
      let far = slot_mono fuel (n + fuel) (omega arith) in
      catch_up-ne-none fuel n 0 s (omega arith)
        (stopped_none (catch_up w (suc fuel) c n 0 s) looped)

  slot_below :
      (n k : ℕ) → n ≤ k → slot_end c n < c.database_now → c.database_now ≤ slot_end c k → n < k
  slot_below n k h past now = elim (Bool-cases (ltb n k)) [
    | inl less ↦ ground arith
    | inr same ↦ let back = slot_mono k n (ground arith) in absurd (omega arith)
  ]

  -- The slots from `n` on that have ended can be recorded as missed.
  abbrev pub CanMiss : ℕ → Type 0
  CanMiss from =
      (n : ℕ) (s : Store N)
      → from ≤ n
      → slot c n ≤ c.planned_ends_at
      → slot_end c n < c.database_now
      → insert_cycle w (missed_cycle w c n) s ≡ returned (stored w (missed_cycle w c n) s)

  -- The slot is one of the campaign, from `n` on, and the present is within it.
  abbrev pub IsDue : ℕ → ℕ → Type 0
  IsDue from j =
      (from ≤ j)
      × (slot c j ≤ c.planned_ends_at)
      × (slot c j ≤ c.database_now)
      × (c.database_now ≤ slot_end c j)

  -- Within a slot of the campaign the loop stops at a due slot.
  pub catch_up-due :
      (fuel from n m k : ℕ) (s : Store N)
      → from ≤ n
      → n ≤ k
      → k < n + fuel
      → CanMiss from
      → slot c n ≤ c.database_now
      → slot c k ≤ c.planned_ends_at
      → c.database_now ≤ slot_end c k
      → (j : ℕ) × (m' : ℕ) × (t : Store N) × (catch_up w fuel c n m s
          ≡ some (returned (due, j, m', t)))
        × IsDue from j
  catch_up-due zero from n m k s h1 h2 h3 can begun inside open_slot = absurd (omega arith)
  catch_up-due (suc fuel) from n m k s h1 h2 h3 can begun inside open_slot =
      let within = slot_mono n k h2 in
      elim (Bool-cases (leb c.database_now (slot_end c n))) [
        | inl waits ↦
            let stops = catch_up-waits w c fuel n m s (ground arith) waits in
            let now : ltb c.database_now (slot c n) ≡ false = ground arith in
            (n, m, s, rw now at stops, (h1, omega arith, begun, ground arith))
        | inr expired ↦
            let next = slot-suc n in
            let below : n < k = slot_below n k h2 (ground arith) open_slot in
            let (j, m', t, e, p) =
              catch_up-due fuel from (suc n) (suc m) k (stored w (missed_cycle w c n) s)
                (omega arith) (omega arith) (omega arith) can (ground arith) inside open_slot in
            (
              j,
              m',
              t,
              catch_up-miss w c fuel n m s _ (ground arith) expired
                    (can n s h1 (omega arith) (ground arith))
                  ∙ e,
              p,
            )
      ]
