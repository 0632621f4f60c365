-- ===== src/Observation/Report/Grades.antt =====
-- When a criterion passes, for each of the functions that make one.
use agent_crypto.Base.{
  ℕ, ◌==◌, Bool, true, false, ◌≡◌, ◌≢◌, refl, ◌↔◌, ◌≤◌, ◌&&◌, List, [], ◌∷◌, All, all, arith,
  if◌then◌else◌, Option, none, some, inl, inr,
}
use agent_crypto.Numbers.{Numbers, Value, absent, boolean, number, text, other, whole}
use agent_crypto.Observation.Criteria.{
  CriterionStatus, pass, fail, not_observed, CriterionResult, is_pass, minimum_status,
  maximum_status, latency_status, rate, reached, graded, matched,
}
use agent_crypto.Observation.Evidence.Sound.{IsDuration}
use agent_crypto.Observation.Report.{mandatory_criteria, overall, scenario_status}

module _ {N : Type 0} where
  abbrev pub Passes : CriterionResult N → Type 0
  Passes c = is_pass c.status ≡ true

  abbrev pub IsMandatory : CriterionResult N → Type 0
  IsMandatory c = c.mandatory ≡ true

  pub all-pass_iff :
      (cs : List (CriterionResult N))
      → All IsMandatory cs
      → (all is_pass (mandatory_criteria cs) ≡ true) ↔ All Passes cs
  all-pass_iff [] m = ((λ h. tt), λ h. refl)
  all-pass_iff (c ∷ cs) (m, ms) =
      let (to, from) = all-pass_iff cs ms in
      rw m ((λ h. (ground arith, to (ground arith))), λ (h, hs). ground (arith, from hs))

-- Nothing that passes fails or is unobserved.
overall-eq-pass : (ss : List CriterionStatus) → all is_pass ss ≡ true → overall ss ≡ pass
unfolding overall
overall-eq-pass [] h = refl
overall-eq-pass (pass ∷ ss) h = overall-eq-pass ss h
overall-eq-pass (fail ∷ ss) h = cc
overall-eq-pass (not_observed ∷ ss) h = cc

pub gate_iff :
    (ss : List CriterionStatus)
    → ((is_pass (overall ss) && all is_pass ss) ≡ true) ↔ (all is_pass ss ≡ true)
gate_iff ss = ((λ h. ground arith), λ h. ground (arith, overall-eq-pass ss h))

module _ {N : Type 0} ⦃o : Numbers N⦄ where
  -- The rate is there, and with 1 as its cap it reaches the threshold.
  abbrev pub IsRateFrom : N → ℕ → ℕ → Type 0
  IsRateFrom t n d =
      (d ≢ 0)
      × (let q = o.div (whole n) (whole d) in
          o.le t (if o.lt q (o.decimal 1 0) then q else o.decimal 1 0) ≡ true)

pub reached_iff : (a t : ℕ) (b : Bool) → (is_pass (reached a t b) ≡ true) ↔ (t ≤ a)
reached_iff a t b = ground arith

pub graded_iff : (b : Bool) → (is_pass (graded b) ≡ true) ↔ (b ≡ true)
graded_iff b = ground arith

pub zero_iff : (n : ℕ) → (is_pass (graded (n == 0)) ≡ true) ↔ (n ≡ 0)
zero_iff n = ground arith

pub matched_iff :
    (actual expected : ℕ)
    → (is_pass (matched actual expected) ≡ true) ↔ ((expected ≢ 0) × (actual ≡ expected))
matched_iff actual expected = ground arith

module _ {N : Type 0} ⦃o : Numbers N⦄ where
  abbrev is_measured : Value N → Bool
  is_measured absent = true
  is_measured (number x) = true
  is_measured _ = false

  pub rate_iff :
      (n d : ℕ) (t : N) → (is_pass (minimum_status (rate n d) t) ≡ true) ↔ IsRateFrom t n d
  unfolding minimum_status rate
  rate_iff n d t = ground arith

  -- A missing value or a number.
  unmeasured : (v : Value N) → is_measured v ≡ false → ¬ IsDuration v
  unmeasured v h (inl e) = ground arith
  unmeasured v h (inr (x, e, f, l)) = ground arith

  -- A number up to the limit.
  abbrev pub IsUpTo : N → Value N → Type 0
  IsUpTo limit v = (x : N) × (v ≡ number x) × (o.le x limit ≡ true)

  pub maximum_iff :
      (v : Value N) (limit : N)
      → IsDuration v
      → (is_pass (maximum_status v limit) ≡ true) ↔ IsUpTo limit v
  unfolding maximum_status
  maximum_iff absent limit d = ((λ h. ground arith), λ (x, e, l). ground arith)
  maximum_iff (number y) limit d = ((λ h. (y, refl, ground arith)), λ (x, e, l). ground arith)
  maximum_iff (boolean y) limit d = absurd (unmeasured _ refl d)
  maximum_iff (text y) limit d = absurd (unmeasured _ refl d)
  maximum_iff other limit d = absurd (unmeasured _ refl d)

  pub latency_iff :
      (p95 p99 : Value N) (limit_95 limit_99 : N)
      → IsDuration p95
      → IsDuration p99
      → (is_pass (latency_status p95 p99 limit_95 limit_99) ≡ true)
        ↔ (IsUpTo limit_95 p95 × IsUpTo limit_99 p99)
  unfolding latency_status
  latency_iff absent p99 l m d e = ((λ h. ground arith), λ ((x, u, v), w). ground arith)
  latency_iff (number x) absent l m d e = ((λ h. ground arith), λ (w, (y, u, v)). ground arith)
  latency_iff (number x) (number y) l m d e = (
    (λ h. ((x, refl, ground arith), (y, refl, ground arith))),
    λ ((s, a, b), (t, c, d)). ground arith,
  )
  latency_iff (number x) (boolean b) l m d e = absurd (unmeasured _ refl e)
  latency_iff (number x) (text b) l m d e = absurd (unmeasured _ refl e)
  latency_iff (number x) other l m d e = absurd (unmeasured _ refl e)
  latency_iff (boolean b) p99 l m d e = absurd (unmeasured _ refl d)
  latency_iff (text b) p99 l m d e = absurd (unmeasured _ refl d)
  latency_iff other p99 l m d e = absurd (unmeasured _ refl d)

  -- The scenario was observed with the result `True`.
  pub scenario_iff :
      (r : Option (Value N)) → (is_pass (scenario_status r) ≡ true) ↔ (r ≡ some (boolean true))
  unfolding scenario_status
  scenario_iff none = ground arith
  scenario_iff (some (boolean b)) = ground arith
  scenario_iff (some absent) = ground arith
  scenario_iff (some (number x)) = ground arith
  scenario_iff (some (text s)) = ground arith
  scenario_iff (some other) = ground arith
