-- ===== src/Tests/MonitoringTests.antt =====
-- The delivery policy of configs/monitoring_policy.v1.json.
use agent_crypto.Base.{
  ℕ, String, Bool, true, false, ◌≡◌, ◌≢◌, ◌≤◌, refl, pos, List, [], length, arith,
}
use agent_crypto.Monitoring.Delivery.{
  Attempt, Outbox, DeliveryResult, Delivery, returned, refused, Surroundings, retry_delay,
  deliver_one,
}
use agent_crypto.Monitoring.Delivery.Once.{Called, new, call, deliveries, Called-delivered_once}
use agent_crypto.Monitoring.Delivery.Delay.{retry_delay-le-max}
use agent_crypto.Numbers.{text, number_of}
use agent_crypto.Numbers.Sample.{Decimal, fixed, decimals, decimals-BoundLaws}
use agent_crypto.Checked.{accepted}
use agent_crypto.Monitoring.Policy.{MonitoringPolicy, validate_monitoring_policy}
use agent_crypto.Monitoring.Policy.Accepts.{IsLocal, validate_monitoring_policy_iff}
use agent_crypto.Numbers.{is_inked, is_int, strict_int_between, finite_between, finite_order}
use agent_crypto.Patterns.{has_ink, is_sha256}
use agent_crypto.Samples.{whole_value, part_value}

abbrev delivery_policy : MonitoringPolicy Decimal
delivery_policy = record {
  policy_id = text "monitoring-v1-2026-08-12";
  schema_version = whole_value 1;
  retention_days = whole_value 90;
  channel = text "stdout_json";
  destination = text "process_stdout";
  max_attempts = whole_value 3;
  retry_base_seconds = whole_value 2;
  retry_max_seconds = whole_value 30;
  attempt_timeout_seconds = part_value 20000;
  max_page_size = whole_value 50;
}

accepts_delivery : validate_monitoring_policy delivery_policy ≡ accepted tt
unfolding validate_monitoring_policy is_inked has_ink is_int strict_int_between finite_between
    finite_order
accepts_delivery = refl

validate_monitoring_policy_iff_example : IsLocal delivery_policy
validate_monitoring_policy_iff_example =
    (validate_monitoring_policy_iff delivery_policy).0 accepts_delivery

policy-IsLocal : IsLocal delivery_policy
policy-IsLocal = (validate_monitoring_policy_iff delivery_policy).0 accepts_delivery

retry_delay-le-max_example :
    decimals.le
      (retry_delay delivery_policy 2 (fixed (pos 9000)))
      (decimals.to_float (number_of delivery_policy.retry_max_seconds))
    ≡ true
retry_delay-le-max_example =
    retry_delay-le-max decimals-BoundLaws delivery_policy 2 (fixed (pos 9000)) policy-IsLocal

abbrev digest_text : String
digest_text = "0123456789abcdef0123456789abcdef0123456789abcdef0123456789abcdef"

abbrev alert_row : Outbox
alert_row = record {
  alert_key = "research-alert:0123456789abcdef0123456789abcdef0123456789abcdef0123456789abcdef";
  channel = "stdout_json";
  destination = "process_stdout";
  idempotency_key = digest_text;
  monitoring_policy_id = "monitoring-v1-2026-08-12";
  monitoring_policy_hash = digest_text;
  retention_days = 90;
  payload_hash = digest_text;
  available_at = 1000000;
  expires_at = 600000000;
  max_attempts = 3;
  content_hash = digest_text;
}

-- The stream is broken at first.
abbrev around : Bool → ℕ → Surroundings Decimal
around works finished = record {
  policy_hash = digest_text;
  payload_valid = true;
  payload_digest = digest_text;
  expected_idempotency_key = digest_text;
  expected_outbox_hash = digest_text;
  writes = λ timeout. works;
  finished_at = finished;
  share = λ n. fixed (pos 5000);
  attempt_hash = λ a. digest_text;
}

abbrev attempts_of : Delivery → List Attempt
attempts_of (returned r after) = after
attempts_of (refused message) = []

abbrev first_try : List Attempt
first_try = attempts_of (deliver_one delivery_policy (around false 3000000) alert_row [] 2000000)

hash_is_digest :
    (works : Bool) (t : ℕ) (a : Attempt) → is_sha256 ((around works t).attempt_hash a) ≡ true
unfolding is_sha256
hash_is_digest works t a = refl

returned_of :
    (d : Delivery)
    → length (attempts_of d) ≢ 0
    → (r : DeliveryResult) × (d ≡ returned r (attempts_of d))
returned_of (returned r after) h = (r, refl)
returned_of (refused message) h = absurd (h refl)

one_try : length first_try ≡ 1
unfolding deliver_one is_sha256
one_try = refl

once-Called : Called delivery_policy alert_row first_try
once-Called =
    let (r, e) =
      returned_of (deliver_one delivery_policy (around false 3000000) alert_row [] 2000000)
        (omega (arith, one_try)) in
    call (around false 3000000) 2000000 (hash_is_digest false 3000000) new e

Called-delivered_once_example : (deliveries first_try ≤ 1) × (length first_try ≤ 3)
Called-delivered_once_example =
    Called-delivered_once delivery_policy alert_row (omega arith) once-Called

-- The second call, after the retry's delay, delivers.
second_try :
    deliveries
      (attempts_of (deliver_one delivery_policy (around true 9000000) alert_row first_try 8000000))
    ≡ 1
unfolding deliver_one is_sha256
second_try = refl
