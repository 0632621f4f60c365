-- ===== src/Monitoring/Delivery/Once.antt =====
-- What any number of calls can do to one alert.
use agent_crypto.Base.{
  text_eq, ℕ, suc, ◌+◌, ◌≤◌, Bool, true, false, ◌≡◌, refl, subst, List, [], ◌∷◌, arith, length,
  if◌then◌else◌,
}
use agent_crypto.Numbers.{Numbers}
use agent_crypto.Patterns.{is_sha256}
use agent_crypto.Monitoring.Policy.{MonitoringPolicy, approved_channel, approved_destination}
use agent_crypto.Monitoring.Delivery.{
  Outcome, delivered, Attempt, Outbox, DeliveryResult, Delivery, returned, refused, Surroundings,
  envelope_valid, outbox_intact, previous_no, retry_delay, deliver_one,
}
use agent_crypto.Monitoring.Delivery.Log.{Continues, IsLog, Kept, deliver_one-Kept}

abbrev pub is_delivered : Outcome → Bool
is_delivered delivered = true
is_delivered _ = false

abbrev pub deliveries : List Attempt → ℕ
deliveries [] = 0
deliveries (a ∷ rest) =
    let more = deliveries rest in if is_delivered a.outcome then suc more else more

module _ {N : Type 0} ⦃o : Numbers N⦄ (p : MonitoringPolicy N) (x : Outbox) where
  -- The attempts that calls leave, each in its own surroundings: at any time, whether the stream took
  -- the line or not.
  pub data Called : List Attempt → Type 0 where
    new : Called []
    call :
        {before after : List Attempt} {r : DeliveryResult}
        → (w : Surroundings N) (now : ℕ) → ((a : Attempt) → is_sha256 (w.attempt_hash a) ≡ true)
        → Called before
        → deliver_one p w x before now ≡ returned r after
        → Called after

  Called-IsLog : {attempts : List Attempt} → 1 ≤ x.max_attempts → Called attempts → IsLog x attempts
  Called-IsLog one new = tt
  Called-IsLog one (call {before} {after} {r} w now sha c e) =
      let kept = deliver_one-Kept p w x before now sha one (Called-IsLog one c) in
      (subst (Kept p w x before) e kept).0

  pending :
      (attempts : List Attempt) → IsLog x attempts → Continues attempts → deliveries attempts ≡ 0
  pending [] l c = refl
  pending (a ∷ rest) (_, _, _, _, _, more, l) c = rw c (pending rest l more)

  once : (attempts : List Attempt) → IsLog x attempts → deliveries attempts ≤ 1
  once [] l = omega arith
  once (a ∷ rest) (_, _, _, _, _, more, l) = ground (arith, pending rest l more)

  bounded : (attempts : List Attempt) → IsLog x attempts → length attempts ≤ x.max_attempts
  bounded [] l = omega arith
  bounded (a ∷ rest) (_, allowed, _, _, _, _, _) = allowed

  -- However often and whenever the delivery is called, and whatever the stream does, an alert is
  -- recorded as delivered at most once, after at most the policy's number of attempts.
  pub Called-delivered_once :
      {attempts : List Attempt}
      → 1 ≤ x.max_attempts
      → Called attempts
      → (deliveries attempts ≤ 1) × (length attempts ≤ x.max_attempts)
  Called-delivered_once {attempts} one c =
      let log = Called-IsLog one c in (once attempts log, bounded attempts log)

  abbrev Returns : Delivery → Type 0
  Returns (refused message) = ⊥
  Returns (returned r after) = Unit

  abbrev retry_at : Surroundings N → List Attempt → ℕ
  retry_at w attempts =
      let n = suc (previous_no attempts) in w.finished_at + o.micros (retry_delay p n (w.share n))

  -- A row on the approved route whose envelope, payload and hashes pass.
  pub record IsIntact (w : Surroundings N) : Type 0 where
    pub allowed : 1 ≤ x.max_attempts
    pub channel : x.channel ≡ approved_channel
    pub destination : x.destination ≡ approved_destination
    pub envelope : envelope_valid p w x ≡ true
    pub payload : w.payload_valid ≡ true
    pub payload_hash : text_eq w.payload_digest x.payload_hash ≡ true
    pub outbox : outbox_intact p w x ≡ true
