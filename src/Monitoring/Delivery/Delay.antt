-- ===== src/Monitoring/Delivery/Delay.antt =====
-- How long a retry waits.
use agent_crypto.Base.{ℕ, true, ◌≡◌, inl, inr, Bool-cases}
use agent_crypto.Numbers.{Numbers, number_of}
use agent_crypto.Numbers.Laws.{BoundLaws}
use agent_crypto.Monitoring.Policy.{MonitoringPolicy}
use agent_crypto.Monitoring.Policy.Accepts.{IsLocal}
use agent_crypto.Monitoring.Delivery.{least, retry_delay}

module _ {N : Type 0} ⦃o : Numbers N⦄ (laws : BoundLaws o) where
  least-le : (x y : N) → o.is_finite (o.to_float x) ≡ true → o.le (least x y) x ≡ true
  least-le x y f = elim (Bool-cases (o.lt y x)) [
    | inl below ↦ rw below (laws.le_of_lt y x below)
    | inr above ↦ rw above (laws.le_refl x f)
  ]

  -- Under an accepted policy no retry waits longer than the policy's maximum, whatever the jitter.
  pub retry_delay-le-max :
      (p : MonitoringPolicy N) (attempt_no : ℕ) (share : N)
      → IsLocal p
      → o.le (retry_delay p attempt_no share) (o.to_float (number_of p.retry_max_seconds)) ≡ true
  unfolding retry_delay
  retry_delay-le-max p attempt_no share local =
      let (m, e, finite, _, _) = local.limit in
      let f : o.is_finite (o.to_float (number_of p.retry_max_seconds)) ≡ true = rw e finite in
      laws.le-to_float _ _ (least-le (number_of p.retry_max_seconds) _ f)
