-- ===== src/Supervisor/Missed.antt =====
-- `CampaignSupervisor._record_new_missed`: missed cycles are reported as their counts grow.
use agent_crypto.Base.{
  ◌∙◌, refl, ℕ, ◌+◌, ◌-◌, ◌≤◌, String, ◌≡◌, subst, inl, inr, List, [], ◌∷◌, ◌++◌, ltb, text_eq,
  text_eq_iff, if◌then◌else◌, Bool-cases, arith,
}
use agent_crypto.Supervisor.{
  ScopeProgress, CampaignProgress, Supervisor, Event, log, missed_cycles_detected,
}

-- `self._last_missed_counts[key] = count`
abbrev set_count : String → ℕ → (String → ℕ) → String → ℕ
set_count key count counts k = if text_eq key k then count else counts k

pub record_scope : ScopeProgress → Supervisor → Supervisor
record_scope scope s =
    let previous = s.last_missed_counts scope.scope_key in
    let logged =
      if ltb previous scope.missed_cycles
      then log
          (missed_cycles_detected scope.scope_key (scope.missed_cycles - previous)
            scope.missed_cycles)
          s
      else s in
    record logged {
      last_missed_counts = set_count scope.scope_key scope.missed_cycles s.last_missed_counts;
    }

pub record_scopes : List ScopeProgress → Supervisor → Supervisor
unfolding record_scope
record_scopes [] s = s
record_scopes (x ∷ xs) s = record_scopes xs (record_scope x s)

unfoldable pub record_new_missed : CampaignProgress → Supervisor → Supervisor
unfolding record_scopes
record_new_missed progress s = record_scopes progress.scopes s

-- The missed cycles of a scope that the events report.
abbrev reported_by : String → Event → ℕ
reported_by key (missed_cycles_detected scope new total) = if text_eq scope key then new else 0
reported_by key _ = 0

abbrev pub reported : String → List Event → ℕ
reported key [] = 0
reported key (e ∷ es) = reported_by key e + reported key es

reported-append :
    (key : String) (xs ys : List Event)
    → reported key (xs ++ ys) ≡ reported key xs + reported key ys
reported-append key [] ys = omega arith
reported-append key (x ∷ xs) ys = omega (arith, reported-append key xs ys)

-- Each count that was seen last has been reported in full.
abbrev pub IsReported : Supervisor → Type 0
IsReported s = (key : String) → s.last_missed_counts key ≤ reported key s.events

record_scope-IsReported :
    (x : ScopeProgress) (s : Supervisor) → IsReported s → IsReported (record_scope x s)
unfolding record_scope
record_scope-IsReported x s h key =
    let previous = s.last_missed_counts x.scope_key in
    let event = missed_cycles_detected x.scope_key (x.missed_cycles - previous) x.missed_cycles in
    let added = reported-append key s.events (event ∷ []) in
    let own = h key in
    elim (Bool-cases (text_eq x.scope_key key)) [
      | inl e ↦
          let same : previous ≤ reported key s.events =
            subst (λ k. previous ≤ reported k s.events) ((text_eq_iff _ _).0 e) (h x.scope_key) in
          ground arith
      | inr e ↦ ground arith
    ]

record_scopes-IsReported :
    (xs : List ScopeProgress) (s : Supervisor) → IsReported s → IsReported (record_scopes xs s)
unfolding record_scopes
record_scopes-IsReported [] s h = h
record_scopes-IsReported (x ∷ xs) s h =
    record_scopes-IsReported xs (record_scope x s) (record_scope-IsReported x s h)

-- Whatever counts the database gives, rising or falling, `_record_new_missed` keeps this: the missed
-- cycles reported for each scope add up to at least the count that was seen last.
pub record_new_missed-IsReported :
    (progress : CampaignProgress) (s : Supervisor)
    → IsReported s
    → IsReported (record_new_missed progress s)
unfolding record_new_missed
record_new_missed-IsReported progress s h = record_scopes-IsReported progress.scopes s h

record_scopes-commands :
    (xs : List ScopeProgress) (s : Supervisor) → (record_scopes xs s).commands ≡ s.commands
unfolding record_scopes record_scope
record_scopes-commands [] s = refl
record_scopes-commands (x ∷ xs) s = record_scopes-commands xs (record_scope x s) ∙ ground arith

-- Reporting runs no command.
pub record_new_missed-commands :
    (p : CampaignProgress) (s : Supervisor) → (record_new_missed p s).commands ≡ s.commands
unfolding record_new_missed
record_new_missed-commands p s = record_scopes-commands p.scopes s
