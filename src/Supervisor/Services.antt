-- ===== src/Supervisor/Services.antt =====
-- `SystemdServiceManager.ensure_services`: restarts of the two managed units, with a cooldown.
use agent_crypto.Base.{
  ℕ, suc, ◌+◌, ◌≤◌, String, Bool, true, false, ◌&&◌, not, ◌≡◌, refl, subst, inl, inr, Option, none,
  some, List, [], ◌∷◌, leb, text_eq, text_eq_iff, if◌then◌else◌, Bool-cases, and_iff, arith,
}

pub record ServiceStatus : Type 0 where
  pub name : String
  pub unit : String
  pub active : Bool
  pub restart_attempted : Bool
  pub recovered : Bool

-- The manager and what it did: how many systemctl commands were run, and the restarts with the name
-- of the service and the time in microseconds, newest first.
pub record Manager : Type 0 where
  -- `_last_restart`
  pub last_restart : String → Option ℕ
  pub calls : ℕ
  pub restarts : List (String × ℕ)

abbrev pub set_restart : String → ℕ → (String → Option ℕ) → String → Option ℕ
set_restart name now times k = if text_eq name k then some now else times k

-- `last_restart is None or (now - last_restart).total_seconds() >= cooldown`
abbrev pub cooldown_elapsed : ℕ → ℕ → Option ℕ → Bool
cooldown_elapsed cooldown now none = true
cooldown_elapsed cooldown now (some last) = leb (last + cooldown) now

-- `is_active unit n` is what `_is_active` answers as the n-th command; the cooldown is in microseconds.
module _ (is_active : String → ℕ → Bool) (cooldown now : ℕ) where
  -- The restart, and the check whether it helped.
  pub restarted : String → Manager → Manager
  restarted name m = record {
    last_restart = set_restart name now m.last_restart;
    calls = 2 + m.calls;
    restarts = (name, now) ∷ m.restarts;
  }

  pub ensure_service : String → String → Manager → ServiceStatus × Manager
  unfolding restarted
  ensure_service name unit m =
      let active = is_active unit m.calls in
      let m1 = record m { calls = suc m.calls } in
      let recovered = is_active unit (suc m1.calls) in
      if not active && cooldown_elapsed cooldown now (m.last_restart name)
      then (
        record {
          name = name;
          unit = unit;
          active = recovered;
          restart_attempted = true;
          recovered = recovered;
        },
        restarted name m1,
      )
      else (
        record {
          name = name;
          unit = unit;
          active = active;
          restart_attempted = false;
          recovered = false;
        },
        m1,
      )

  -- The units in the order of their names, as `sorted(self._units.items())` gives them.
  unfoldable pub ensure_services : List (String × String) → Manager → List ServiceStatus × Manager
  unfolding ensure_service
  ensure_services [] m = ([], m)
  ensure_services ((name, unit) ∷ units) m =
      let (status, m1) = ensure_service name unit m in
      let (statuses, m2) = ensure_services units m1 in (status ∷ statuses, m2)

-- The restarts of one service, newest first.
abbrev pub times_of : String → List (String × ℕ) → List ℕ
times_of name [] = []
times_of name ((other, t) ∷ rest) =
    let earlier = times_of name rest in if text_eq other name then t ∷ earlier else earlier

-- Each time is at least the cooldown after the one before it.
abbrev pub Spaced : ℕ → List ℕ → Type 0
Spaced cooldown [] = Unit {0}
Spaced cooldown (t ∷ []) = Unit {0}
Spaced cooldown (t ∷ u ∷ rest) = (u + cooldown ≤ t) × Spaced cooldown (u ∷ rest)

abbrev newest : List ℕ → Option ℕ
newest [] = none
newest (t ∷ rest) = some t

-- For each service the restarts keep the cooldown, and the manager knows the last one.
abbrev pub IsSpaced : ℕ → Manager → Type 0
IsSpaced cooldown m =
    (name : String)
    → (m.last_restart name ≡ newest (times_of name m.restarts))
      × Spaced cooldown (times_of name m.restarts)

Spaced-more :
    (cooldown now : ℕ) (times : List ℕ)
    → cooldown_elapsed cooldown now (newest times) ≡ true
    → Spaced cooldown times
    → Spaced cooldown (now ∷ times)
Spaced-more cooldown now [] e h = tt
Spaced-more cooldown now (t ∷ times) e h = (ground arith, h)

module _ (is_active : String → ℕ → Bool) (cooldown now : ℕ) where
  restarted-IsSpaced :
      (name : String) (m : Manager)
      → IsSpaced cooldown m
      → cooldown_elapsed cooldown now (m.last_restart name) ≡ true
      → IsSpaced cooldown (restarted is_active cooldown now name m)
  unfolding restarted
  restarted-IsSpaced name m h e key =
      let (last, spaced) = h name in
      let elapsed = subst (λ t. cooldown_elapsed cooldown now t ≡ true) last e in
      let more = Spaced-more cooldown now (times_of name m.restarts) elapsed spaced in
      elim (Bool-cases (text_eq name key)) [
        | inl k ↦ rw k (
          refl,
          subst (λ n. Spaced cooldown (now ∷ times_of n m.restarts)) ((text_eq_iff _ _).0 k) more,
        )
        | inr k ↦ rw k (h key)
      ]

  ensure_service-IsSpaced :
      (name unit : String) (m : Manager)
      → IsSpaced cooldown m
      → IsSpaced cooldown (ensure_service is_active cooldown now name unit m).1
  unfolding ensure_service
  ensure_service-IsSpaced name unit m h key =
      elim (Bool-cases
        (not (is_active unit m.calls) && cooldown_elapsed cooldown now (m.last_restart name))) [
          | inl e ↦ rw e (
              restarted-IsSpaced name (record m { calls = suc m.calls }) h ((and_iff _ _).0 e).1
                key)
          | inr e ↦ rw e (h key)
        ]

  -- A pass over the services keeps this, whatever systemctl answers: two restarts of one service that
  -- follow each other are at least the cooldown apart, and the manager knows the last restart.
  pub ensure_services-IsSpaced :
      (units : List (String × String)) (m : Manager)
      → IsSpaced cooldown m
      → IsSpaced cooldown (ensure_services is_active cooldown now units m).1
  unfolding ensure_services
  ensure_services-IsSpaced [] m h = h
  ensure_services-IsSpaced ((name, unit) ∷ units) m h =
      ensure_services-IsSpaced units (ensure_service is_active cooldown now name unit m).1
        (ensure_service-IsSpaced name unit m h)
