-- ===== src/Monitoring/Delivery/Log.antt =====
-- What holds of the attempts to deliver one alert.
use agent_crypto.Base.{
  ℕ, suc, ◌+◌, ◌-◌, ◌≤◌, ◌<◌, String, Bool, true, false, ◌≡◌, ◌⊎◌, inl, inr, refl, ap, List, [],
  ◌∷◌, Option, none, some, arith, length, not, ◌&&◌, ltb, leb, Bool-cases, text_eq, is_some,
  if◌then◌else◌,
}
use agent_crypto.Numbers.{Numbers}
use agent_crypto.Patterns.{is_sha256}
use agent_crypto.Monitoring.Policy.{MonitoringPolicy, approved_channel, approved_destination}
use agent_crypto.Monitoring.Delivery.{
  Outcome, delivered, retryable_failure, permanent_failure, expired, Attempt, Outbox, Delivery,
  returned, refused, is_retryable, is_due, previous_valid, newest_hash, previous_no, Surroundings,
  envelope_valid, draft, retry_delay, write_timeout, attempt_delivery, outbox_intact,
  record_outcome, failed, written, deliver_due, deliver_one,
}

-- Only a failure that may be retried is followed by another attempt.
abbrev pub Continues : List Attempt → Type 0
Continues [] = Unit
Continues (a ∷ rest) = a.outcome ≡ retryable_failure

-- A retry is planned before the alert expires, and only if another attempt is allowed.
abbrev pub IsPlanned : Outbox → Outcome → ℕ → Option ℕ → Type 0
IsPlanned x retryable_failure n next =
    (t : ℕ) × (next ≡ some t) × (n < x.max_attempts) × (t < x.expires_at)
IsPlanned x _ n next = next ≡ none

-- The attempts are numbered from 1 up to the maximum and chained by hashes, only the newest can be
-- final, and the next time is set for a retry alone.
abbrev pub IsLog : Outbox → List Attempt → Type 0
IsLog x [] = Unit
IsLog x (a ∷ rest) =
    (a.attempt_no ≡ suc (length rest))
    × (suc (length rest) ≤ x.max_attempts)
    × (a.previous_attempt_hash ≡ newest_hash rest)
    × (is_sha256 a.content_hash ≡ true)
    × IsPlanned x a.outcome a.attempt_no a.next_attempt_at
    × Continues rest
    × IsLog x rest

previous_no-eq :
    (x : Outbox) (attempts : List Attempt)
    → IsLog x attempts
    → previous_no attempts ≡ length attempts
unfolding previous_no
previous_no-eq x [] l = refl
previous_no-eq x (a ∷ rest) (e, _, _, _, _, _, _) = e

is_retryable_eq : (r : Outcome) → is_retryable r ≡ true → r ≡ retryable_failure
is_retryable_eq retryable_failure h = refl
is_retryable_eq delivered h = cc
is_retryable_eq permanent_failure h = cc
is_retryable_eq expired h = cc

planned_retry :
    (x : Outbox) (r : Outcome) (n : ℕ) (next : Option ℕ)
    → is_retryable r ≡ true
    → IsPlanned x r n next
    → (t : ℕ) × (next ≡ some t) × (n < x.max_attempts) × (t < x.expires_at)
planned_retry x retryable_failure n next h p = p
planned_retry x delivered n next h p = absurd (ground arith)
planned_retry x permanent_failure n next h p = absurd (ground arith)
planned_retry x expired n next h p = absurd (ground arith)

due_retryable :
    (x : Outbox) (a : Attempt) (rest : List Attempt) (now : ℕ)
    → is_due x (a ∷ rest) now ≡ true
    → is_retryable a.outcome ≡ true
unfolding is_due
due_retryable x a rest now due = ground arith

-- The newest attempt of a due log is a retry, and another attempt is allowed.
pub due_Continues :
    (x : Outbox) (attempts : List Attempt) (now : ℕ)
    → IsLog x attempts
    → 1 ≤ x.max_attempts
    → is_due x attempts now ≡ true
    → Continues attempts × (suc (length attempts) ≤ x.max_attempts)
due_Continues x [] now l one due = (tt, one)
due_Continues x (a ∷ rest) now (e, m, h, sha, plan, c, l) one due =
    let retry = due_retryable x a rest now due in
    let (t, next, more, before) =
      planned_retry x a.outcome a.attempt_no a.next_attempt_at retry plan in
    (is_retryable_eq a.outcome retry, omega arith)

-- A due log passes the tests of `from_row` on its newest attempt.
pub due-previous_valid :
    (x : Outbox) (attempts : List Attempt) (now : ℕ)
    → IsLog x attempts
    → is_due x attempts now ≡ true
    → previous_valid x.max_attempts attempts ≡ true
unfolding previous_valid
due-previous_valid x [] now l due = refl
due-previous_valid x (a ∷ rest) now (e, m, h, sha, plan, c, l) due =
    let retry = due_retryable x a rest now due in
    let (t, next, more, before) =
      planned_retry x a.outcome a.attempt_no a.next_attempt_at retry plan in
    let planned : is_some a.next_attempt_at ≡ true = rw next in ground arith

module _ {N : Type 0} ⦃o : Numbers N⦄ (p : MonitoringPolicy N) (w : Surroundings N)
    (x : Outbox) where
  -- What a call leaves: the log of before, or one more attempt on top of it.
  abbrev pub Kept : List Attempt → Delivery → Type 0
  Kept attempts (refused message) = Unit
  Kept attempts (returned r after) =
      IsLog x after × ((after ≡ attempts) ⊎ ((a : Attempt) × (after ≡ a ∷ attempts)))

  module _ (attempts : List Attempt) (now : ℕ)
      (sha : (a : Attempt) → is_sha256 (w.attempt_hash a) ≡ true) (log : IsLog x attempts)
      (more : Continues attempts) (allowed : suc (length attempts) ≤ x.max_attempts) where
    recorded-Kept :
        (started finished : ℕ) (result : Outcome) (error : Option String) (next : Option ℕ)
        → IsPlanned x result (suc (previous_no attempts)) next
        → Kept attempts (record_outcome p w x attempts started finished result error next)
    recorded-Kept started finished result error next plan = (
      (
        ap suc (previous_no-eq x attempts log),
        allowed,
        refl,
        sha (draft p w x attempts started finished result error next),
        plan,
        more,
        log,
      ),
      inr (_, refl),
    )

    failed-Kept : Kept attempts (failed p w x attempts now)
    failed-Kept =
        let n = suc (previous_no attempts) in
        elim (Bool-cases (
          ltb n x.max_attempts
          && (ltb (w.finished_at + o.micros (retry_delay p n (w.share n))) x.expires_at
              && ltb w.finished_at x.expires_at))) [
                | inl retry ↦ rw retry (
                    recorded-Kept now w.finished_at retryable_failure (some "STDOUT_WRITE_FAILED") _
                      (_, refl, ground arith, ground arith))
                | inr final ↦ rw final (
                    recorded-Kept now w.finished_at permanent_failure (some "STDOUT_WRITE_FAILED")
                      none refl)
              ]

    written-Kept : Kept attempts (written p w x attempts now)
    written-Kept = elim (Bool-cases (ltb x.expires_at w.finished_at)) [
      | inl late ↦ rw late (
          recorded-Kept now w.finished_at permanent_failure (some "DELIVERY_WINDOW_EXCEEDED") none
            refl)
      | inr done ↦ rw done (recorded-Kept now w.finished_at delivered none none refl)
    ]

    Kept-if :
        (b : Bool) (y z : Delivery)
        → Kept attempts y
        → Kept attempts z
        → Kept attempts (if b then y else z)
    Kept-if true y z hy hz = hy
    Kept-if false y z hy hz = hz

    attempted-Kept : Kept attempts (attempt_delivery p w x attempts now)
    attempted-Kept =
        Kept-if (leb x.expires_at now) _ _
          (recorded-Kept now now expired (some "ALERT_EXPIRED") none refl)
          (Kept-if (leb (x.expires_at - now) 50000) _ _ (log, inl refl)
            (Kept-if (w.writes (write_timeout p w x now)) _ _ written-Kept failed-Kept))

    deliver_due-Kept : Kept attempts (deliver_due p w x attempts now)
    unfolding deliver_due
    deliver_due-Kept =
        Kept-if
          (not (text_eq x.channel approved_channel && text_eq x.destination approved_destination)) _
          _ tt
          (Kept-if (not (envelope_valid p w x && previous_valid x.max_attempts attempts)) _ _ tt (
            Kept-if (not w.payload_valid) _ _ tt (
              Kept-if (not (text_eq w.payload_digest x.payload_hash)) _ _ tt
                (Kept-if (not (outbox_intact p w x)) _ _ tt attempted-Kept))))

  pub deliver_one-Kept :
      (attempts : List Attempt) (now : ℕ)
      → ((a : Attempt) → is_sha256 (w.attempt_hash a) ≡ true)
      → 1 ≤ x.max_attempts
      → IsLog x attempts
      → Kept attempts (deliver_one p w x attempts now)
  unfolding deliver_one
  deliver_one-Kept attempts now sha one log = elim (Bool-cases (is_due x attempts now)) [
    | inl due ↦
        let (more, allowed) = due_Continues x attempts now log one due in
        rw due (deliver_due-Kept attempts now sha log more allowed)
    | inr later ↦ rw later (log, inl refl)
  ]
