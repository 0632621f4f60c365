-- ===== src/Supervisor/Tick/Daily.antt =====
-- The daily snapshots of the supervisor.
use agent_crypto.Base.{
  ℕ, false, ◌≡◌, ◌≢◌, refl, sym, ◌∙◌, subst, inl, inr, Option, none, some, List, [], ◌∷◌,
  Bool-cases, arith,
}
use agent_crypto.Supervisor.{CampaignProgress}
use agent_crypto.Supervisor.Services.{ServiceStatus, ensure_services}
use agent_crypto.Supervisor.Tick.{
  World, Round, log_restarts, day_of, is_day, load, run_cycles, finalize, take_snapshot,
  check_services, tick,
}

abbrev newest_day : List ℕ → Option ℕ
newest_day [] = none
newest_day (d ∷ ds) = some d

-- No two neighbours are the same day.
abbrev pub Changing : List ℕ → Type 0
Changing [] = Unit {0}
Changing (d ∷ []) = Unit {0}
Changing (d ∷ e ∷ ds) = (d ≢ e) × Changing (e ∷ ds)

-- The dates that a round keeps.
abbrev dates : Round → Option ℕ × List ℕ
dates l = (l.last_daily_date, l.snapshots)

abbrev Daily : Option ℕ × List ℕ → Type 0
Daily (last, days) = (last ≡ newest_day days) × Changing days

-- Each snapshot is of another day than the one before it, and the last day is known.
abbrev pub IsDaily : Round → Type 0
IsDaily l = Daily (dates l)

log_restarts-dates :
    (services : List ServiceStatus) (l : Round) → dates (log_restarts services l) ≡ dates l
unfolding log_restarts
log_restarts-dates [] l = refl
log_restarts-dates (x ∷ xs) l = log_restarts-dates xs _ ∙ ground arith

Changing-more :
    (day : ℕ) (days : List ℕ)
    → is_day day (newest_day days) ≡ false
    → Changing days
    → Changing (day ∷ days)
Changing-more day [] e h = tt
Changing-more day (d ∷ days) e h = ((λ same. ground arith), h)

module _ (w : World) where
  run_cycles-dates :
      (services : List ServiceStatus) (p : CampaignProgress) (l : Round)
      → dates (run_cycles w services p l).1 ≡ dates l
  unfolding run_cycles load
  run_cycles-dates services p l = ground arith

  finalize-dates : (p : CampaignProgress) (l : Round) → dates (finalize w p l).1 ≡ dates l
  unfolding finalize
  finalize-dates p l = ground arith

  take_snapshot-IsDaily :
      (p : CampaignProgress) (l : Round) → IsDaily l → IsDaily (take_snapshot w p l)
  unfolding take_snapshot
  take_snapshot-IsDaily p l (last, changing) =
      elim (Bool-cases (is_day (day_of p.database_now) l.last_daily_date)) [
        | inl e ↦ rw e (last, changing)
        | inr e ↦ rw e (
          refl,
          Changing-more (day_of p.database_now) l.snapshots
              (subst (λ d. is_day (day_of p.database_now) d ≡ false) last e) changing,
        )
      ]

  -- A round takes a snapshot only on another day than that of the last snapshot, and knows its day.
  pub tick-IsDaily : (now : ℕ) (l : Round) → IsDaily l → IsDaily (tick w now l).1
  unfolding tick check_services load
  tick-IsDaily now l h =
      let (services, l1) = check_services w now l in
      let (p, l2) = load w l1 in
      let (p', l3) = run_cycles w services p l2 in
      let (p'', l4) = finalize w p' l3 in
      let manager = (ensure_services w.is_active w.cooldown now w.units l.manager).1 in
      let same : dates l4 ≡ dates l =
        finalize-dates p' l3
        ∙ run_cycles-dates services p l2
        ∙ log_restarts-dates services (record l { manager = manager }) in
      take_snapshot-IsDaily p'' l4 (subst Daily (sym same) h)
