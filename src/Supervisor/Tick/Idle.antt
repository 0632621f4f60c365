-- ===== src/Supervisor/Tick/Idle.antt =====
-- What a round of the supervisor does while a service is down.
use agent_crypto.Base.{ℕ, false, ◌≡◌, refl, ◌∙◌, ap, List, [], ◌∷◌, arith}
use agent_crypto.Supervisor.{CampaignProgress}
use agent_crypto.Supervisor.Missed.{record_new_missed-commands}
use agent_crypto.Supervisor.Services.{ServiceStatus, ensure_services}
use agent_crypto.Supervisor.Tick.{
  World, Round, all_active, log_restarts, load, run_cycles, finalize, take_snapshot, check_services,
  tick,
}

log_restarts-commands :
    (services : List ServiceStatus) (l : Round)
    → (log_restarts services l).supervisor.commands ≡ l.supervisor.commands
unfolding log_restarts
log_restarts-commands [] l = refl
log_restarts-commands (x ∷ xs) l = log_restarts-commands xs _ ∙ ground arith

module _ (w : World) where
  finalize-commands :
      (p : CampaignProgress) (l : Round)
      → (finalize w p l).1.supervisor.commands ≡ l.supervisor.commands
  unfolding finalize
  finalize-commands p l = ground arith

  take_snapshot-commands :
      (p : CampaignProgress) (l : Round)
      → (take_snapshot w p l).supervisor.commands ≡ l.supervisor.commands
  unfolding take_snapshot
  take_snapshot-commands p l = ground arith

  run_cycles-idle :
      (services : List ServiceStatus) (p : CampaignProgress) (l : Round)
      → all_active services ≡ false
      → run_cycles w services p l ≡ (p, l)
  unfolding run_cycles
  run_cycles-idle services p l h = rw h refl

  -- A round in which some service is down, also after its restart, runs no cycle command.
  pub tick-idle :
      (now : ℕ) (l : Round)
      → all_active (ensure_services w.is_active w.cooldown now w.units l.manager).0 ≡ false
      → (tick w now l).1.supervisor.commands ≡ l.supervisor.commands
  unfolding tick check_services load
  tick-idle now l h =
      let (services, l1) = check_services w now l in
      let (p, l2) = load w l1 in
      let (p', l3) = run_cycles w services p l2 in
      let (p'', l4) = finalize w p' l3 in
      take_snapshot-commands p'' l4
      ∙ finalize-commands p' l3
      ∙ ap (λ (q : CampaignProgress × Round). q.1.supervisor.commands)
          (run_cycles-idle services p l2 h)
      ∙ record_new_missed-commands p l1.supervisor
      ∙ log_restarts-commands services _
