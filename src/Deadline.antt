-- ===== src/Deadline.antt =====
-- src/crypto_agent/deadline.py: the time limit of one analysis. `time.monotonic()` and the value of
-- the context variable are arguments.
pub mod Bounds
use agent_crypto.Base.{String, Bool, true, false, ◌&&◌, not, Option, none, some, if◌then◌else◌}
use agent_crypto.Numbers.{Numbers, Value, number, whole, number_of, is_finite_number}

-- What an analysis ends in: a result, ValueError, ZeroDivisionError, or AnalysisDeadlineExceeded.
pub data Outcome {ℓ} (A : Type ℓ) : Type ℓ where
  returned : A → Outcome A
  value_error : String → Outcome A
  zero_division : Outcome A
  deadline_exceeded : Outcome A

infixl 5 ◌>>=◌
abbrev pub ◌>>=◌ {ℓ κ} : {A : Type ℓ} {B : Type κ} → Outcome A → (A → Outcome B) → Outcome B
returned a >>= f = f a
value_error m >>= f = value_error m
zero_division >>= f = zero_division
deadline_exceeded >>= f = deadline_exceeded

module _ {N : Type 0} ⦃o : Numbers N⦄ where
  -- The deadline that the context holds, and the monotonic clock at the call.
  unfoldable pub remaining_analysis_timeout : Option N → N → Outcome (Option N)
  remaining_analysis_timeout none now = returned none
  remaining_analysis_timeout (some deadline) now =
      if o.le (o.sub deadline now) (whole 0)
      then deadline_exceeded
      else returned (some (o.sub deadline now))

  unfoldable pub ensure_analysis_deadline : Option N → N → Outcome (Unit {0})
  unfolding remaining_analysis_timeout
  ensure_analysis_deadline deadline now = do
    let left = remaining_analysis_timeout deadline now
    _ ← left
    returned tt

  pub bounded_by : N → Option N → N
  bounded_by configured none = o.to_float configured
  bounded_by configured (some left) =
      if o.lt left (o.to_float configured) then left else o.to_float configured

  unfoldable pub bounded_analysis_timeout : Value N → Option N → N → Outcome N
  unfolding remaining_analysis_timeout bounded_by
  bounded_analysis_timeout configured deadline now =
      let rest = remaining_analysis_timeout deadline now in
      if not (is_finite_number configured && not (o.le (number_of configured) (whole 0)))
      then value_error "configured_seconds must be a positive finite number"
      else (rest >>= λ left. returned (bounded_by (number_of configured) left))

  -- The scope's body runs with the new deadline; the old one is back when it ends, in any way.
  unfoldable pub analysis_deadline_scope {κ} :
      {A : Type κ} → Value N → N → (Option N → Outcome A) → Outcome A
  unfolding ensure_analysis_deadline
  analysis_deadline_scope deadline now body =
      let inner = some (o.to_float (number_of deadline)) in
      if not (is_finite_number deadline)
      then value_error "deadline_monotonic must be a finite monotonic timestamp"
      else (ensure_analysis_deadline inner now >>= λ _. body inner)
