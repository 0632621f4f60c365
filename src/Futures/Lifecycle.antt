-- ===== src/Futures/Lifecycle.antt =====
-- `_lifecycle_metrics` of src/crypto_agent/futures_analytics.py.
use agent_crypto.Base.{
  String, Bool, true, false, ◌&&◌, ◌||◌, not, Option, none, some, List, [], ◌∷◌, ◌++◌, when,
  text_eq, if◌then◌else◌, ◌>>=◌, ◌≡◌, refl, arith,
}
use agent_crypto.Numbers.{Numbers, Value, text, number_of, is_text, is_absent}
use agent_crypto.Clock.{Datetime, is_utc, before}
use agent_crypto.Domain.{MetricStatus, available, invalid}
use agent_crypto.Futures.Policy.{FuturesAnalysisPolicy}

-- A timestamp of a contract: a datetime, a text, or something else.
pub data Stamp : Type 0 where
  moment : Datetime → Stamp
  written : String → Stamp
  no_stamp : Stamp

-- What the caller knows of the contract.
pub record Contract (N : Type 0) : Type 0 where
  pub contract_id : Value N
  pub expires_at : Stamp
  pub roll_at : Stamp
  pub selection : Value N
  pub rolled_from : Value N

pub record LifecycleResult (N : Type 0) : Type 0 where
  pub status : MetricStatus
  pub seconds_to_roll : Option N
  pub seconds_to_expiry : Option N
  pub expiry_risk : Option String
  pub flags : List String
  pub veto_flags : List String

-- `parse` is `datetime.fromisoformat(value.replace("Z", "+00:00"))`; `none` is ValueError.
abbrev pub Parser : Type 0
Parser = String → Option Datetime

abbrev read : Parser → Stamp → Option Datetime
read parse (moment t) = some t
read parse (written s) = parse s
read parse no_stamp = none

-- `_utc_datetime`; `none` is the TypeError or ValueError.
unfoldable pub utc_datetime : Parser → Stamp → Option Datetime
utc_datetime parse stamp = do t ← read parse stamp; if is_utc t then some t else none

module _ {N : Type 0} ⦃o : Numbers N⦄ where
  -- `isinstance(value, str) and bool(value)`
  abbrev pub is_name : Value N → Bool
  is_name (text s) = not (text_eq s "")
  is_name _ = false

  -- `a != b`, for an `a` that is a text.
  abbrev differs : Value N → Value N → Bool
  differs (text s) v = not (is_text s v)
  differs _ v = true

  pub selection_valid : Contract N → Bool
  selection_valid c =
      (is_text "front_month" c.selection && is_absent c.rolled_from)
      || (is_text "rolled" c.selection
          && (is_name c.rolled_from && differs c.rolled_from c.contract_id))

  pub lifecycle_valid : Contract N → Datetime → Datetime → Datetime → Bool
  unfolding selection_valid
  lifecycle_valid c as_of roll_at expires_at =
      is_utc as_of
      && (is_name c.contract_id
          && (selection_valid c && (before as_of roll_at && before roll_at expires_at)))

  abbrev invalid_lifecycle : LifecycleResult N
  invalid_lifecycle = record {
    status = invalid;
    seconds_to_roll = none;
    seconds_to_expiry = none;
    expiry_risk = none;
    flags = "CONTRACT_LIFECYCLE_INVALID" ∷ [];
    veto_flags = "CONTRACT_LIFECYCLE_INVALID" ∷ [];
  }

  module _ (policy : FuturesAnalysisPolicy N) where
    abbrev pub expiry_high : N → Bool
    expiry_high s = o.le s (number_of policy.expiry_high_risk_seconds)

    abbrev expiry_elevated : N → Bool
    expiry_elevated s = o.le s (number_of policy.expiry_warning_seconds)

    abbrev pub roll_close : N → Bool
    roll_close s = o.le s (number_of policy.roll_high_risk_seconds)

    abbrev roll_approaching : N → Bool
    roll_approaching s = o.le s (number_of policy.roll_warning_seconds)

    expiry_risk_of : N → String
    expiry_risk_of s =
        if expiry_high s then "HIGH" else if expiry_elevated s then "ELEVATED" else "NORMAL"

    lifecycle_result : N → N → LifecycleResult N
    unfolding expiry_risk_of
    lifecycle_result to_roll to_expiry = record {
      status = available;
      seconds_to_roll = some to_roll;
      seconds_to_expiry = some to_expiry;
      expiry_risk = some (expiry_risk_of to_expiry);
      flags =
          (if expiry_high to_expiry
            then "EXPIRY_RISK_HIGH" ∷ []
            else when (expiry_elevated to_expiry) ("EXPIRY_RISK_ELEVATED" ∷ []))
          ++ (if roll_close to_roll
              then "ROLL_WINDOW_TOO_CLOSE" ∷ []
              else when (roll_approaching to_roll) ("ROLL_WINDOW_APPROACHING" ∷ []));
      veto_flags =
          when (expiry_high to_expiry) ("EXPIRY_RISK_HIGH" ∷ [])
          ++ when (roll_close to_roll) ("ROLL_WINDOW_TOO_CLOSE" ∷ []);
    }

    lifecycle_of : Datetime → Contract N → Option Datetime → Option Datetime → LifecycleResult N
    unfolding lifecycle_result lifecycle_valid
    lifecycle_of as_of c (some roll_at) (some expires_at) =
        if lifecycle_valid c as_of roll_at expires_at
        then lifecycle_result (o.seconds_between as_of.instant roll_at.instant)
            (o.seconds_between as_of.instant expires_at.instant)
        else invalid_lifecycle
    lifecycle_of as_of c _ _ = invalid_lifecycle

    unfoldable pub lifecycle_metrics : Parser → Datetime → Contract N → LifecycleResult N
    unfolding lifecycle_of
    lifecycle_metrics parse as_of c =
        lifecycle_of as_of c (utc_datetime parse c.roll_at) (utc_datetime parse c.expires_at)

    quiet_of :
        (as_of : Datetime) (c : Contract N) (roll_at expires_at : Option Datetime)
        → (lifecycle_of as_of c roll_at expires_at).veto_flags ≡ []
        → (roll expiry : Datetime) × (roll_at ≡ some roll)
          × (expires_at ≡ some expiry)
          × (lifecycle_valid c as_of roll expiry ≡ true)
          × (roll_close (o.seconds_between as_of.instant roll.instant) ≡ false)
          × (expiry_high (o.seconds_between as_of.instant expiry.instant) ≡ false)
          × ((lifecycle_of as_of c roll_at expires_at).status ≡ available)
    unfolding lifecycle_of lifecycle_result
    quiet_of as_of c (some roll) (some expiry) h =
        (roll, expiry, refl, refl, ground arith, ground arith, ground arith, ground arith)
    quiet_of as_of c _ _ h = ground arith

    -- The lifecycle raises no veto only if the contract is named, the roll comes after now and before
    -- the expiry, and both are further off than their high-risk limits; its status is then available.
    pub lifecycle_metrics-quiet :
        (parse : Parser) (as_of : Datetime) (c : Contract N)
        → (lifecycle_metrics parse as_of c).veto_flags ≡ []
        → (roll expiry : Datetime) × (utc_datetime parse c.roll_at ≡ some roll)
          × (utc_datetime parse c.expires_at ≡ some expiry)
          × (lifecycle_valid c as_of roll expiry ≡ true)
          × (roll_close (o.seconds_between as_of.instant roll.instant) ≡ false)
          × (expiry_high (o.seconds_between as_of.instant expiry.instant) ≡ false)
          × ((lifecycle_metrics parse as_of c).status ≡ available)
    unfolding lifecycle_metrics lifecycle_result
    lifecycle_metrics-quiet parse as_of c h =
        quiet_of as_of c (utc_datetime parse c.roll_at) (utc_datetime parse c.expires_at) h
