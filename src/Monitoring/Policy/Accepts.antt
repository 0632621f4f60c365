-- ===== src/Monitoring/Policy/Accepts.antt =====
-- Which monitoring policies the validation accepts.
use agent_crypto.Base.{true, ◌≡◌, ◌↔◌, some, pos, arith}
use agent_crypto.Numbers.{Numbers, text, finite_order, int_of}
use agent_crypto.Numbers.Ranges.{
  IsIntIn, IsFiniteIn, IsInked, is_text_iff, is_int_iff, strict_int_between_iff, finite_between_iff,
  is_inked_iff,
}
use agent_crypto.Checked.{accepted, AllHold, accepted_iff}
use agent_crypto.Monitoring.Policy.{
  MonitoringPolicy, approved_channel, approved_destination, monitoring_checks,
  validate_monitoring_policy,
}

module _ {N : Type 0} ⦃o : Numbers N⦄ where
  -- The one approved route, and every limit in its range.
  pub record IsLocal (p : MonitoringPolicy N) : Type 0 where
    pub name : IsInked p.policy_id
    pub schema : int_of p.schema_version ≡ some (pos 1)
    pub retention : IsIntIn 35 365 p.retention_days
    pub channel : p.channel ≡ text approved_channel
    pub destination : p.destination ≡ text approved_destination
    pub attempts : IsIntIn 1 5 p.max_attempts
    pub base : IsFiniteIn (o.decimal 1 0) (o.decimal 300 0) p.retry_base_seconds
    pub limit : IsFiniteIn (o.decimal 1 0) (o.decimal 3600 0) p.retry_max_seconds
    pub order : finite_order p.retry_base_seconds p.retry_max_seconds ≡ true
    pub timeout : IsFiniteIn (o.decimal 1 1) (o.decimal 10 0) p.attempt_timeout_seconds
    pub page : IsIntIn 1 100 p.max_page_size

  IsLocal-of_checks : (p : MonitoringPolicy N) → AllHold (monitoring_checks p) → IsLocal p
  unfolding monitoring_checks
  IsLocal-of_checks p
        (
          name,
          (
            schema,
            (
              retention,
              (channel, (destination, (attempts, (base, (limit, (order, (timeout, (page, _)))))))),
            ),
          ),
        ) =
      record {
        name = (is_inked_iff _).0 name;
        schema = (is_int_iff 1 _).0 schema;
        retention = (strict_int_between_iff _ _ _).0 retention;
        channel = (is_text_iff _ _).0 channel;
        destination = (is_text_iff _ _).0 destination;
        attempts = (strict_int_between_iff _ _ _).0 attempts;
        base = (finite_between_iff _ _ _).0 base;
        limit = (finite_between_iff _ _ _).0 limit;
        order = ground arith;
        timeout = (finite_between_iff _ _ _).0 timeout;
        page = (strict_int_between_iff _ _ _).0 page;
      }

  checks_of_local : (p : MonitoringPolicy N) → IsLocal p → AllHold (monitoring_checks p)
  unfolding monitoring_checks
  checks_of_local p f =
      let limit = (finite_between_iff _ _ _).1 f.limit in
      let order = f.order in
      (
        (is_inked_iff _).1 f.name,
        (
          (is_int_iff 1 _).1 f.schema,
          (
            (strict_int_between_iff _ _ _).1 f.retention,
            (
              (is_text_iff _ _).1 f.channel,
              (
                (is_text_iff _ _).1 f.destination,
                (
                  (strict_int_between_iff _ _ _).1 f.attempts,
                  (
                    (finite_between_iff _ _ _).1 f.base,
                    (
                      limit,
                      (
                        ground arith,
                        (
                          (finite_between_iff _ _ _).1 f.timeout,
                          ((strict_int_between_iff _ _ _).1 f.page, tt),
                        ),
                      ),
                    ),
                  ),
                ),
              ),
            ),
          ),
        ),
      )

  -- The validation of a monitoring policy returns for exactly the policies with the one approved
  -- channel and destination, one to five attempts, and the retention, the page size, the timeout and
  -- the retry delays in range and in order.
  pub validate_monitoring_policy_iff :
      (p : MonitoringPolicy N) → (validate_monitoring_policy p ≡ accepted tt) ↔ IsLocal p
  unfolding validate_monitoring_policy
  validate_monitoring_policy_iff p =
      let (to, from) = accepted_iff (monitoring_checks p) in
      ((λ h. IsLocal-of_checks p (to h)), λ f. from (checks_of_local p f))
