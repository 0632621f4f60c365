-- ===== src/Supervisor/Scope.antt =====
-- `CampaignSupervisor._run_scope`: one cycle command with its retries.
use agent_crypto.Base.{
  ℕ, zero, suc, ◌+◌, ◌^◌, ◌≤◌, ◌<◌, String, Bool, true, false, ◌||◌, not, ◌≡◌, ◌≢◌, refl, sym,
  subst, ◌∙◌, ap, ◌⊎◌, inl, inr, [], ◌∷◌, ◌++◌, if◌then◌else◌, Bool-cases, arith, length,
  length-append,
}
use agent_crypto.Supervisor.{
  CycleCommandResult, recorded, retryable, Supervisor, log, cycle_timeout_detected,
  cycle_retry_scheduled, cycle_finished,
}

-- `result.recorded or not result.retryable`
unfoldable pub settled : CycleCommandResult → Bool
unfolding recorded retryable
settled r = recorded r || not (retryable r)

true_ne_false : true ≢ false
true_ne_false e = cc

-- `run_cycle scope n` is what the command runner answers as the n-th command of all.
module _ (run_cycle : String → ℕ → CycleCommandResult) (scope : String) where
  noted : CycleCommandResult → ℕ → Supervisor → Supervisor
  noted r attempt s =
      if r.timed_out
      then log (cycle_timeout_detected scope (suc attempt))
          (record s { commands = suc s.commands; stuck_cycles = suc s.stuck_cycles })
      else record s { commands = suc s.commands }

  rescheduled : CycleCommandResult → ℕ → Supervisor → Supervisor
  rescheduled r attempt s =
      let logged = log (cycle_retry_scheduled scope (suc attempt) r.error_code) s in
      record logged { backoffs = s.backoffs ++ 2 ^ attempt ∷ [] }

  -- The loop, with the number of attempts that may follow this one.
  pub run_attempts : ℕ → ℕ → Supervisor → CycleCommandResult × Supervisor
  unfolding settled noted rescheduled
  run_attempts zero attempt s =
      let r = run_cycle scope s.commands in
      let s1 = noted r attempt s in if settled r then (r, s1) else (r, rescheduled r attempt s1)
  run_attempts (suc left) attempt s =
      let r = run_cycle scope s.commands in
      let s1 = noted r attempt s in
      let rest = run_attempts left (suc attempt) (rescheduled r attempt s1) in
      if settled r then (r, s1) else rest

  unfoldable pub run_scope : ℕ → Supervisor → CycleCommandResult × Supervisor
  unfolding run_attempts
  run_scope command_retries s =
      let (r, s1) = run_attempts command_retries 0 s in (r, log (cycle_finished scope r) s1)

  -- From the given command on, k + 1 commands were run, k at most `left`: the first k answers ask for
  -- a retry, the last is the result, and it is settled or no attempt was left.
  pub record IsRun (left start : ℕ) (r : CycleCommandResult) (commands : ℕ) : Type 0 where
    pub k : ℕ
    pub bound : k ≤ left
    pub count : commands ≡ suc k + start
    pub last : r ≡ run_cycle scope (k + start)
    pub before : (j : ℕ) → j < k → settled (run_cycle scope (j + start)) ≡ false
    pub end : (settled r ≡ true) ⊎ (k ≡ left)

  noted-commands :
      (r : CycleCommandResult) (attempt : ℕ) (s : Supervisor)
      → (noted r attempt s).commands ≡ suc s.commands
  unfolding noted
  noted-commands r attempt s = ground arith

  rescheduled-commands :
      (r : CycleCommandResult) (attempt : ℕ) (s : Supervisor)
      → (rescheduled r attempt s).commands ≡ s.commands
  unfolding rescheduled
  rescheduled-commands r attempt s = refl

  shift : (j start : ℕ) → j + suc start ≡ suc j + start
  shift j start = omega arith

  from_start : (n : ℕ) → n ≡ 0 + n
  from_start n = omega arith

  later_end :
      (r : CycleCommandResult) (k left : ℕ)
      → (settled r ≡ true) ⊎ (k ≡ left)
      → (settled r ≡ true) ⊎ (suc k ≡ suc left)
  later_end r k left (inl e) = inl e
  later_end r k left (inr e) = inr (ap suc e)

  later_before :
      (start k : ℕ)
      → settled (run_cycle scope start) ≡ false
      → ((j : ℕ) → j < k → settled (run_cycle scope (j + suc start)) ≡ false)
      → (j : ℕ) → j < suc k
      → settled (run_cycle scope (j + start)) ≡ false
  later_before start k h before zero l =
      subst (λ n. settled (run_cycle scope n) ≡ false) (from_start start) h
  later_before start k h before (suc j) l =
      subst (λ n. settled (run_cycle scope n) ≡ false) (shift j start) (before j (omega arith))

  -- A run after a first answer that asks for a retry.
  IsRun-later :
      (left start : ℕ) (r : CycleCommandResult) (commands : ℕ)
      → settled (run_cycle scope start) ≡ false
      → IsRun left (suc start) r commands
      → IsRun (suc left) start r commands
  IsRun-later left start r commands h run = record {
    k = suc run.k;
    bound = omega (arith, run.bound);
    count = omega (arith, run.count);
    last = run.last ∙ ap (run_cycle scope) (shift run.k start);
    before = later_before start run.k h run.before;
    end = later_end r run.k left run.end;
  }

  IsRun-now :
      (left start commands : ℕ)
      → commands ≡ suc start
      → (settled (run_cycle scope start) ≡ true) ⊎ (0 ≡ left)
      → IsRun left start (run_cycle scope start) commands
  IsRun-now left start commands e t = record {
    k = 0;
    bound = omega arith;
    count = omega (arith, e);
    last = ap (run_cycle scope) (from_start start);
    before = λ j l. absurd (omega arith);
    end = t;
  }

  run_attempts-IsRun :
      (left attempt : ℕ) (s : Supervisor)
      → let (r, s1) = run_attempts left attempt s in IsRun left s.commands r s1.commands
  unfolding run_attempts
  run_attempts-IsRun zero attempt s =
      let r = run_cycle scope s.commands in
      let s1 = noted r attempt s in
      let one = noted-commands r attempt s in
      elim (Bool-cases (settled r)) [
        | inl e ↦ rw e (IsRun-now 0 s.commands s1.commands one (inl e))
        | inr e ↦ rw e (
            IsRun-now 0 s.commands (rescheduled r attempt s1).commands
              (rescheduled-commands r attempt s1 ∙ one) (inr refl))
      ]
  run_attempts-IsRun (suc left) attempt s =
      let r = run_cycle scope s.commands in
      let s1 = noted r attempt s in
      let s2 = rescheduled r attempt s1 in
      let one = noted-commands r attempt s in
      let later = run_attempts left (suc attempt) s2 in
      elim (Bool-cases (settled r)) [
        | inl e ↦ rw e (IsRun-now (suc left) s.commands s1.commands one (inl e))
        | inr e ↦ rw e (
            IsRun-later left s.commands later.0 later.1.commands e (
              subst (λ n. IsRun left n later.0 later.1.commands)
                (rescheduled-commands r attempt s1 ∙ one)
                (run_attempts-IsRun left (suc attempt) s2)))
      ]

  -- `_run_scope` runs at least one command and at most one more than the retries allowed; it stops at
  -- the first answer that is recorded or asks for no retry, and gives the last answer back.
  pub run_scope-IsRun :
      (command_retries : ℕ) (s : Supervisor)
      → let (r, s1) = run_scope command_retries s in IsRun command_retries s.commands r s1.commands
  unfolding run_scope
  run_scope-IsRun command_retries s = run_attempts-IsRun command_retries 0 s

  noted-backoffs :
      (r : CycleCommandResult) (attempt : ℕ) (s : Supervisor)
      → (noted r attempt s).backoffs ≡ s.backoffs
  unfolding noted
  noted-backoffs r attempt s = ground arith

  rescheduled-backoffs :
      (r : CycleCommandResult) (attempt : ℕ) (s : Supervisor)
      → length (rescheduled r attempt (noted r attempt s)).backoffs ≡ length s.backoffs + 1
  unfolding rescheduled
  rescheduled-backoffs r attempt s =
      length-append (noted r attempt s).backoffs (2 ^ attempt ∷ [])
      ∙ ap (λ l. length l + 1) (noted-backoffs r attempt s)

  run_attempts-backoffs :
      (left attempt : ℕ) (s : Supervisor)
      → let (r, s1) = run_attempts left attempt s in
        settled r ≡ false → length s1.backoffs ≡ length s.backoffs + suc left
  unfolding run_attempts
  run_attempts-backoffs zero attempt s =
      let r = run_cycle scope s.commands in
      elim (Bool-cases (settled r)) [
        | inl e ↦ rw e (λ h. absurd (true_ne_false (sym e ∙ h)))
        | inr e ↦ rw e (λ h. rescheduled-backoffs r attempt s)
      ]
  run_attempts-backoffs (suc left) attempt s =
      let r = run_cycle scope s.commands in
      let s2 = rescheduled r attempt (noted r attempt s) in
      elim (Bool-cases (settled r)) [
        | inl e ↦ rw e (λ h. absurd (true_ne_false (sym e ∙ h)))
        | inr e ↦ rw e (λ h. omega (
          arith,
          run_attempts-backoffs left (suc attempt) s2 h,
          rescheduled-backoffs r attempt s,
        ))
      ]

  -- When the last answer still asks for a retry, every retry has been used, and a backoff was slept
  -- after each command, also after the last, which no retry follows.
  pub run_scope-backoffs :
      (command_retries : ℕ) (s : Supervisor)
      → let (r, s1) = run_scope command_retries s in
        settled r ≡ false → length s1.backoffs ≡ length s.backoffs + suc command_retries
  unfolding run_scope
  run_scope-backoffs command_retries s = run_attempts-backoffs command_retries 0 s
