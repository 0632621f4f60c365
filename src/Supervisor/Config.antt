-- ===== src/Supervisor/Config.antt =====
-- `CampaignSupervisorConfig` and its `validate`, with `_valid_systemd_unit`.
use agent_crypto.Base.{
  String, Bool, true, ◌&&◌, ◌≡◌, ◌↔◌, ◌⊎◌, Option, none, List, [], ◌∷◌, contains, text_eq_iff,
  and_iff, arith,
}
use agent_crypto.Numbers.{Numbers, Value, strict_int_between}
use agent_crypto.Numbers.Ranges.{IsIntIn, strict_int_between_iff}
use agent_crypto.Checked.{Check, AllHold, first_error, first_error_iff}
use agent_crypto.Patterns.{is_service_unit}

-- The seconds are what `float()` makes of the fields.
pub record CampaignSupervisorConfig (N : Type 0) : Type 0 where
  pub campaign_id : String
  pub state_directory : String
  pub poll_seconds : N
  pub cycle_timeout_seconds : N
  pub command_retries : Value N
  pub retry_backoff_seconds : N
  pub limit : Value N
  pub process_manager : String
  pub bridge_unit : String
  pub verifier_unit : String
  pub service_restart_cooldown_seconds : N

manager_iff :
    (s : String) → (contains ("none" ∷ "systemd" ∷ []) s ≡ true) ↔ ((s ≡ "none") ⊎ (s ≡ "systemd"))
manager_iff s = ground (arith, text_eq_iff s "none", text_eq_iff s "systemd")

-- `Path.is_absolute` and whether `UUID` takes the text are given.
module _ {N : Type 0} ⦃o : Numbers N⦄ (is_uuid is_absolute : String → Bool) where
  -- `lower <= float(value) <= upper`
  abbrev seconds_between : N → N → N → Bool
  seconds_between lower upper x = o.le lower (o.to_float x) && o.le (o.to_float x) upper

  -- The tests in their order, each with the code of its CampaignSupervisorError.
  config_checks : CampaignSupervisorConfig N → List Check
  config_checks c =
      (is_uuid c.campaign_id, "SUPERVISOR_CAMPAIGN_ID_INVALID")
      ∷ (is_absolute c.state_directory, "SUPERVISOR_STATE_DIRECTORY_INVALID")
      ∷ (
        seconds_between (o.decimal 1 0) (o.decimal 300 0) c.poll_seconds,
        "SUPERVISOR_POLL_INTERVAL_INVALID",
      )
      ∷ (
        seconds_between (o.decimal 10 0) (o.decimal 300 0) c.cycle_timeout_seconds,
        "SUPERVISOR_CYCLE_TIMEOUT_INVALID",
      )
      ∷ (strict_int_between c.command_retries 0 5, "SUPERVISOR_RETRY_POLICY_INVALID")
      ∷ (
        seconds_between (o.decimal 1 1) (o.decimal 60 0) c.retry_backoff_seconds,
        "SUPERVISOR_RETRY_POLICY_INVALID",
      )
      ∷ (strict_int_between c.limit 60 720, "SUPERVISOR_LIMIT_INVALID")
      ∷ (contains ("none" ∷ "systemd" ∷ []) c.process_manager, "SUPERVISOR_PROCESS_MANAGER_INVALID")
      ∷ (is_service_unit c.bridge_unit, "SUPERVISOR_SYSTEMD_UNIT_INVALID")
      ∷ (is_service_unit c.verifier_unit, "SUPERVISOR_SYSTEMD_UNIT_INVALID")
      ∷ (
        seconds_between (o.decimal 1 0) (o.decimal 3600 0) c.service_restart_cooldown_seconds,
        "SUPERVISOR_RESTART_POLICY_INVALID",
      )
      ∷ []

  -- `validate`: the code of the error that is raised, if one is.
  unfoldable pub validate_config : CampaignSupervisorConfig N → Option String
  unfolding config_checks
  validate_config c = first_error (config_checks c)

  abbrev IsBetween : N → N → N → Type 0
  IsBetween lower upper x = (o.le lower (o.to_float x) ≡ true) × (o.le (o.to_float x) upper ≡ true)

  pub record IsConfigured (c : CampaignSupervisorConfig N) : Type 0 where
    pub campaign : is_uuid c.campaign_id ≡ true
    pub directory : is_absolute c.state_directory ≡ true
    pub poll : IsBetween (o.decimal 1 0) (o.decimal 300 0) c.poll_seconds
    pub cycle_timeout : IsBetween (o.decimal 10 0) (o.decimal 300 0) c.cycle_timeout_seconds
    pub retries : IsIntIn 0 5 c.command_retries
    pub backoff : IsBetween (o.decimal 1 1) (o.decimal 60 0) c.retry_backoff_seconds
    pub candles : IsIntIn 60 720 c.limit
    pub manager : (c.process_manager ≡ "none") ⊎ (c.process_manager ≡ "systemd")
    pub units : (is_service_unit c.bridge_unit ≡ true) × (is_service_unit c.verifier_unit ≡ true)
    pub cooldown : IsBetween (o.decimal 1 0) (o.decimal 3600 0) c.service_restart_cooldown_seconds

  IsConfigured-of_checks :
      (c : CampaignSupervisorConfig N) → AllHold (config_checks c) → IsConfigured c
  unfolding config_checks
  IsConfigured-of_checks c
        (
          campaign,
          (
            directory,
            (
              poll,
              (
                timeout,
                (retries, (backoff, (candles, (manager, (bridge, (verifier, (cooldown, _))))))),
              ),
            ),
          ),
        ) =
      record {
        campaign = campaign;
        directory = directory;
        poll = (and_iff _ _).0 poll;
        cycle_timeout = (and_iff _ _).0 timeout;
        retries = (strict_int_between_iff _ _ _).0 retries;
        backoff = (and_iff _ _).0 backoff;
        candles = (strict_int_between_iff _ _ _).0 candles;
        manager = (manager_iff _).0 manager;
        units = (bridge, verifier);
        cooldown = (and_iff _ _).0 cooldown;
      }

  checks_of_configured :
      (c : CampaignSupervisorConfig N) → IsConfigured c → AllHold (config_checks c)
  unfolding config_checks
  checks_of_configured c h = (
    h.campaign,
    (
      h.directory,
      (
        (and_iff _ _).1 h.poll,
        (
          (and_iff _ _).1 h.cycle_timeout,
          (
            (strict_int_between_iff _ _ _).1 h.retries,
            (
              (and_iff _ _).1 h.backoff,
              (
                (strict_int_between_iff _ _ _).1 h.candles,
                (
                  (manager_iff _).1 h.manager,
                  (h.units.0, (h.units.1, ((and_iff _ _).1 h.cooldown, tt))),
                ),
              ),
            ),
          ),
        ),
      ),
    ),
  )

  -- The configuration's `validate` raises nothing for exactly the configurations with a UUID, an
  -- absolute directory, each time, the retries and the limit in range, a known process manager and two
  -- names of systemd services.
  pub validate_config_iff :
      (c : CampaignSupervisorConfig N) → (validate_config c ≡ none) ↔ IsConfigured c
  unfolding validate_config
  validate_config_iff c =
      let (to, from) = first_error_iff (config_checks c) in
      ((λ h. IsConfigured-of_checks c (to h)), λ h. from (checks_of_configured c h))
