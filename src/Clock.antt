-- ===== src/Clock.antt =====
-- Python's `datetime`, as far as the code compares and subtracts them.
use agent_crypto.Base.{
  ℕ, ◌+◌, ◌*◌, Bool, true, false, ◌&&◌, Option, none, some, ℤ, pos, eqb_ℤ, ltb, leb,
}

-- `offset` is `utcoffset()` in microseconds, `none` for a naive datetime. `instant` counts the
-- microseconds in UTC (of a naive datetime: of its wall clock) from one day before `datetime.min`.
-- Instants past `datetime.max`, where Python raises OverflowError, are not modelled.
pub record Datetime : Type 0 where
  pub offset : Option ℤ
  pub instant : ℕ

-- `_is_utc`, `_is_utc_datetime`
unfoldable pub is_utc : Datetime → Bool
is_utc t = elim t.offset [ none ↦ false | some z ↦ eqb_ℤ z (pos 0) ]

-- `t.tzinfo is not None and t.utcoffset() is not None`
unfoldable pub is_aware : Datetime → Bool
is_aware t = elim t.offset [ none ↦ false | some z ↦ true ]

-- `timedelta(seconds=n)`, `timedelta(minutes=n)`
abbrev pub seconds : ℕ → ℕ
seconds n = n * 1000000

abbrev pub minutes : ℕ → ℕ
minutes n = n * 60000000

-- A UTC datetime at an instant.
abbrev pub utc : ℕ → Datetime
utc n = record { offset = some (pos 0); instant = n }

-- `t + delta`
abbrev pub later : Datetime → ℕ → Datetime
later t delta = record t { instant = t.instant + delta }

-- `s < t`, `s <= t`
abbrev pub before : Datetime → Datetime → Bool
before s t = ltb s.instant t.instant

abbrev pub not_after : Datetime → Datetime → Bool
not_after s t = leb s.instant t.instant

-- `observed_at <= available_at <= ingested_at <= as_of`
abbrev pub in_order : Datetime → Datetime → Datetime → Datetime → Bool
in_order a b c d = not_after a b && (not_after b c && not_after c d)
