-- ===== src/Observation/Fields.antt =====
-- The tests that src/crypto_agent/observation.py makes on single fields: `_utc`, `_uuid`, `_sha256`
-- and the counters. Whether `UUID` takes a text and prints it back unchanged is an argument.
use agent_crypto.Base.{String, Bool, true, false, ◌&&◌, not}
use agent_crypto.Numbers.{Numbers, Value, absent, number, text, whole, int_at_least}
use agent_crypto.Checked.{Check}
use agent_crypto.Clock.{Datetime, is_aware}
use agent_crypto.Patterns.{is_sha256}

-- `_utc`: the datetime is aware.
abbrev pub aware : Datetime → String → Check
aware t message = (is_aware t, message)

module _ {N : Type 0} where
  -- `_uuid`: both ways to fail are errors, of which one message stands here.
  abbrev pub canonical_uuid : (String → Bool) → Value N → Bool
  canonical_uuid is_uuid (text s) = is_uuid s
  canonical_uuid is_uuid _ = false

  -- `_sha256`
  abbrev pub digest : Value N → Bool
  digest (text s) = is_sha256 s
  digest _ = false

module _ {N : Type 0} ⦃o : Numbers N⦄ where
  -- `type(value) is int and value >= 0`
  abbrev pub is_count : Value N → Bool
  is_count value = int_at_least 0 value

  -- A metric that may be missing: `None`, or a finite number that is not negative and no bool.
  unfoldable pub is_duration : Value N → Bool
  is_duration absent = true
  is_duration (number x) = o.is_finite (o.to_float x) && not (o.lt x (whole 0))
  is_duration _ = false
