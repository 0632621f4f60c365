-- ===== src/Deadline/Bounds.antt =====
-- The time that one blocking operation gets.
use agent_crypto.Base.{false, true, ◌≡◌, ◌⊎◌, Option, none, some, arith}
use agent_crypto.Numbers.{Numbers, Value, number_of, whole}
use agent_crypto.Numbers.Laws.{BoundLaws}
use agent_crypto.Deadline.{
  returned, bounded_analysis_timeout, bounded_by, remaining_analysis_timeout,
}

module _ {N : Type 0} ⦃o : Numbers N⦄ where
  -- The time is at most what is left, which is more than nothing.
  abbrev pub IsWithin : N → Option N → N → Type 0
  IsWithin t none now = Unit {0}
  IsWithin t (some deadline) now =
      (o.le (o.sub deadline now) (whole 0) ≡ false)
      × ((t ≡ o.sub deadline now) ⊎ (o.lt (o.sub deadline now) t ≡ false))

  -- A blocking operation gets at most the configured time, and no more than what is left until the
  -- deadline, which has not passed.
  pub bounded_analysis_timeout-IsWithin :
      (laws : BoundLaws o) (configured : Value N) (deadline : Option N) (now t : N)
      → o.is_finite (o.to_float (o.to_float (number_of configured))) ≡ true
      → bounded_analysis_timeout configured deadline now ≡ returned t
      → (o.le t (o.to_float (number_of configured)) ≡ true) × IsWithin t deadline now
  unfolding bounded_analysis_timeout remaining_analysis_timeout bounded_by
  bounded_analysis_timeout-IsWithin laws configured none now t f h =
      let self = laws.le_refl (o.to_float (number_of configured)) f in (ground arith, tt)
  bounded_analysis_timeout-IsWithin laws configured (some deadline) now t f h =
      let self = laws.le_refl (o.to_float (number_of configured)) f in
      let less = laws.le_of_lt (o.sub deadline now) (o.to_float (number_of configured)) in
      (ground arith, (ground arith, ground arith))
