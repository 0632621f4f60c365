-- ===== src/Monitoring/Delivery.antt =====
-- src/crypto_agent/monitoring.py: `deliver_one` with `_DeliveryRow.from_row`,
-- `_record_delivery_outcome` and `_retry_delay`, for one row of the outbox.
--
-- The attempts stand newest first, and the newest is what `_DELIVERY_SELECT` joins as `previous`. The
-- payload's validation, the stream, the clock after the write and SHA-256 are arguments, and so is
-- the share of the jitter, which comes from a digest of the key and the attempt's number.
pub mod Log
pub mod Once
pub mod Delay
use agent_crypto.Base.{
  ℕ, zero, suc, ◌+◌, ◌-◌, ◌^◌, String, Bool, true, false, ◌&&◌, ◌||◌, not, List, [], ◌∷◌, Option,
  none, some, leb, ltb, ◌==◌, if◌then◌else◌, text_eq, codes, length, take, drop, all, is_some,
  is_none,
}
use agent_crypto.Numbers.{Numbers, Value, whole, number_of, count_of, is_text}
use agent_crypto.Patterns.{is_sha256, is_hex, same_codes}
use agent_crypto.Monitoring.Policy.{MonitoringPolicy, approved_channel, approved_destination}

pub data Outcome : Type 0 where
  delivered retryable_failure permanent_failure expired : Outcome

-- A row of alert_delivery_attempts.
pub record Attempt : Type 0 where
  pub attempt_no : ℕ
  pub outcome : Outcome
  pub started_at : ℕ
  pub finished_at : ℕ
  pub next_attempt_at : Option ℕ
  pub error_code : Option String
  pub previous_attempt_hash : Option String
  pub content_hash : String

-- A row of alert_delivery_outbox, with the key of its alert.
pub record Outbox : Type 0 where
  pub alert_key : String
  pub channel : String
  pub destination : String
  pub idempotency_key : String
  pub monitoring_policy_id : String
  pub monitoring_policy_hash : String
  pub retention_days : ℕ
  pub payload_hash : String
  pub available_at : ℕ
  pub expires_at : ℕ
  pub max_attempts : ℕ
  pub content_hash : String

pub record DeliveryResult : Type 0 where
  pub status : String
  pub alert_key : Option String
  pub idempotency_key : Option String
  pub attempt_no : Option ℕ
  pub error_code : Option String

-- A normal return with the attempts then, or the message of a MonitoringError.
pub data Delivery : Type 0 where
  returned : DeliveryResult → List Attempt → Delivery
  refused : String → Delivery

abbrev pub status_of : Outcome → String
status_of delivered = "delivered"
status_of retryable_failure = "retryable_failure"
status_of permanent_failure = "permanent_failure"
status_of expired = "expired"

abbrev pub is_retryable : Outcome → Bool
is_retryable retryable_failure = true
is_retryable _ = false

-- `DeliveryResult("idle", alert_key=...)`
abbrev pub idle : Option String → List Attempt → Delivery
idle key attempts =
    returned
      (record {
        status = "idle";
        alert_key = key;
        idempotency_key = none;
        attempt_no = none;
        error_code = none;
      })
      attempts

-- `re.fullmatch(r"research-alert:[0-9a-f]{64}", alert_key)`
unfoldable pub is_alert_key : String → Bool
is_alert_key s =
    same_codes (take 15 (codes s)) (codes "research-alert:")
    && (length (codes s) == 79 && all is_hex (drop 15 (codes s)))

-- The `WHERE` of `_select_due_delivery`.
unfoldable pub is_due : Outbox → List Attempt → ℕ → Bool
is_due x [] now = leb x.available_at now
is_due x (a ∷ rest) now =
    leb x.available_at now
    && (is_retryable a.outcome
        && (elim a.next_attempt_at [ none ↦ false | some t ↦ leb t now ] || leb x.expires_at now))

-- The tests of `from_row` on the newest attempt, with `require_due`.
unfoldable pub previous_valid : ℕ → List Attempt → Bool
previous_valid max_attempts [] = true
previous_valid max_attempts (a ∷ rest) =
    leb a.attempt_no max_attempts
    && (leb 1 a.attempt_no
        && (is_retryable a.outcome
            && (is_some a.next_attempt_at
                && (ltb a.attempt_no max_attempts && is_sha256 a.content_hash))))

unfoldable pub newest_hash : List Attempt → Option String
newest_hash [] = none
newest_hash (a ∷ rest) = some a.content_hash

unfoldable pub previous_no : List Attempt → ℕ
previous_no [] = 0
previous_no (a ∷ rest) = a.attempt_no

module _ {N : Type 0} ⦃o : Numbers N⦄ where
  -- `min(x, y)`
  abbrev pub least : N → N → N
  least x y = if o.lt y x then y else x

  -- `policy.retry_base_seconds * (2 ** max(0, attempt_no - 1))`, up to the maximum.
  abbrev pub delay_base : MonitoringPolicy N → ℕ → N
  delay_base p attempt_no =
      least (number_of p.retry_max_seconds)
        (o.mul (number_of p.retry_base_seconds) (whole (2 ^ (attempt_no - 1))))

  -- `share` is the digest's first two bytes over 65535.
  unfoldable pub retry_delay : MonitoringPolicy N → ℕ → N → N
  retry_delay p attempt_no share =
      let base = delay_base p attempt_no in
      let jitter = o.mul share (least (o.mul base (o.decimal 25 2)) (o.decimal 5 0)) in
      o.to_float (least (number_of p.retry_max_seconds) (o.add base jitter))

-- What surrounds one call: the policy's hash, the payload's validation, the stream's write with its
-- time limit, the clock after it, and the digests.
pub record Surroundings (N : Type 0) : Type 0 where
  pub policy_hash : String
  pub payload_valid : Bool
  -- `_hash` of the payload, of the document of the key, and of the document of the row.
  pub payload_digest : String
  pub expected_idempotency_key : String
  pub expected_outbox_hash : String
  pub writes : N → Bool
  pub finished_at : ℕ
  pub share : ℕ → N
  -- The hash of an attempt's document, whose own `content_hash` does not count.
  pub attempt_hash : Attempt → String

module _ {N : Type 0} ⦃o : Numbers N⦄ (p : MonitoringPolicy N) (w : Surroundings N)
    (x : Outbox) where
  -- The tests of `from_row` on what no delivery changes.
  unfoldable pub envelope_valid : Bool
  unfolding is_alert_key
  envelope_valid =
      is_alert_key x.alert_key
      && (is_sha256 x.idempotency_key
          && (is_sha256 x.payload_hash
              && (is_text x.monitoring_policy_id p.policy_id
                  && (text_eq x.monitoring_policy_hash w.policy_hash
                      && (x.retention_days == count_of p.retention_days
                          && x.max_attempts == count_of p.max_attempts)))))

  abbrev pub draft : List Attempt → ℕ → ℕ → Outcome → Option String → Option ℕ → Attempt
  draft attempts started finished result error next = record {
    attempt_no = suc (previous_no attempts);
    outcome = result;
    started_at = started;
    finished_at = finished;
    next_attempt_at = next;
    error_code = error;
    previous_attempt_hash = newest_hash attempts;
    content_hash = "";
  }

  -- `_record_delivery_outcome`; the alert event that it writes too is left out.
  abbrev pub record_outcome : List Attempt → ℕ → ℕ → Outcome → Option String → Option ℕ → Delivery
  record_outcome attempts started finished result error next =
      let a = draft attempts started finished result error next in
      returned
        (record {
          status = status_of result;
          alert_key = some x.alert_key;
          idempotency_key = some x.idempotency_key;
          attempt_no = some (suc (previous_no attempts));
          error_code = error;
        })
        (record a { content_hash = w.attempt_hash a } ∷ attempts)

  -- The `except` of the write.
  abbrev pub failed : List Attempt → ℕ → Delivery
  failed attempts now =
      let attempt_no = suc (previous_no attempts) in
      let retry_at = w.finished_at + o.micros (retry_delay p attempt_no (w.share attempt_no)) in
      if ltb attempt_no x.max_attempts
        && (ltb retry_at x.expires_at && ltb w.finished_at x.expires_at)
      then record_outcome attempts now w.finished_at retryable_failure (some "STDOUT_WRITE_FAILED")
          (some retry_at)
      else record_outcome attempts now w.finished_at permanent_failure (some "STDOUT_WRITE_FAILED")
          none

  -- What follows the write.
  abbrev pub written : List Attempt → ℕ → Delivery
  written attempts now =
      if ltb x.expires_at w.finished_at
      then record_outcome attempts now w.finished_at permanent_failure
          (some "DELIVERY_WINDOW_EXCEEDED") none
      else record_outcome attempts now w.finished_at delivered none none

  -- `min(attempt_timeout_seconds, seconds_remaining - safety_margin)`
  abbrev pub write_timeout : ℕ → N
  write_timeout now =
      least (number_of p.attempt_timeout_seconds)
        (o.sub (o.seconds_between now x.expires_at) (o.decimal 5 2))

  abbrev pub outbox_intact : Bool
  outbox_intact =
      text_eq x.idempotency_key w.expected_idempotency_key
      && text_eq x.content_hash w.expected_outbox_hash

  -- What follows `from_row`.
  abbrev pub attempt_delivery : List Attempt → ℕ → Delivery
  attempt_delivery attempts now =
      if leb x.expires_at now
      then record_outcome attempts now now expired (some "ALERT_EXPIRED") none
      else (if leb (x.expires_at - now) 50000
          then idle (some x.alert_key) attempts
          else (if w.writes (write_timeout now) then written attempts now else failed attempts now))

  -- The call for a row that was selected.
  unfoldable pub deliver_due : List Attempt → ℕ → Delivery
  unfolding envelope_valid previous_valid
  deliver_due attempts now =
      if not (text_eq x.channel approved_channel && text_eq x.destination approved_destination)
      then refused "Alert delivery route is not approved"
      else (if not (envelope_valid && previous_valid x.max_attempts attempts)
          then refused "Stored alert delivery envelope is invalid"
          else (if not w.payload_valid
              then refused "Stored alert payload attestation failed"
              else (if not (text_eq w.payload_digest x.payload_hash)
                  then refused "Stored alert payload hash is invalid"
                  else (if not outbox_intact
                      then refused "Stored alert outbox integrity check failed"
                      else attempt_delivery attempts now))))

  unfoldable pub deliver_one : List Attempt → ℕ → Delivery
  unfolding deliver_due is_due retry_delay previous_no newest_hash
  deliver_one attempts now =
      if is_due x attempts now then deliver_due attempts now else idle none attempts
