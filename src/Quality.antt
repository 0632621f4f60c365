-- ===== src/Quality.antt =====
-- src/crypto_agent/quality.py: the flags, the score and the duplicates of a history of candles.
-- Two values that are one object, which Python's tuples take as equal even where the object is NaN,
-- are not told from two objects.
pub mod Repeats
pub mod Clean
use agent_crypto.Base.{
  ℕ, ◌+◌, ◌-◌, String, Bool, true, false, ◌&&◌, ◌||◌, not, Option, none, some, List, [], ◌∷◌, ◌++◌,
  all, contains, dedupe, length, ltb, leb, ◌==◌, is_empty, if◌then◌else◌, sort_by, text_eq,
}
use agent_crypto.Numbers.{
  Numbers, Value, number, whole, number_of, count_of, is_finite_number, equals_int, eq_value,
}
use agent_crypto.Clock.{Datetime, is_utc, is_aware, before, not_after, minutes}
use agent_crypto.Domain.{Candle, DataQualityReport}
use agent_crypto.Policy.{RiskPolicy}
use agent_crypto.Checked.{Checked, accepted, rejected, Check, errors_of}

-- CRITICAL_FLAGS
abbrev pub critical_names : List String
critical_names =
    "DUPLICATE_CONFLICT" ∷ "EMPTY_DATA" ∷ "FUTURE_DATA" ∷ "INSUFFICIENT_HISTORY"
    ∷ "INVALID_CANDLE_DURATION" ∷ "INVALID_OHLC" ∷ "INVALID_PRICE" ∷ "INVALID_TIME_ORDER"
    ∷ "INVALID_TIMEZONE" ∷ "LOOKAHEAD_DATA" ∷ "MISSING_INTERVALS" ∷ "NON_FINITE_VALUE"
    ∷ "NON_UTC_TIMESTAMP" ∷ "POST_CUTOFF_INGESTION" ∷ "STALE_DATA" ∷ "UNEXPECTED_INTERVAL"
    ∷ "UNEXPECTED_SOURCE" ∷ "UNEXPECTED_SYMBOL" ∷ []

pub is_critical : String → Bool
is_critical = contains critical_names

-- `tuple(flag for flag in flags if flag in CRITICAL_FLAGS)`
pub only_critical : List String → List String
only_critical [] = []
only_critical (f ∷ fs) = let rest = only_critical fs in if is_critical f then f ∷ rest else rest

-- `newest is None or as_of - newest > max_age`
pub is_stale : Datetime → ℕ → Option Datetime → Bool
is_stale as_of max_age none = true
is_stale as_of max_age (some t) = ltb max_age (as_of.instant - t.instant)

module _ {N : Type 0} where
  abbrev pub opened : Candle N → ℕ
  opened c = c.open_time.instant

  abbrev pub timestamps : Candle N → List Datetime
  timestamps c = c.open_time ∷ c.close_time ∷ c.available_at ∷ c.ingested_at ∷ []

  -- `_market_values`
  abbrev pub market_values : Candle N → List (Value N)
  market_values c = c.open_price ∷ c.high ∷ c.low ∷ c.close ∷ c.volume ∷ []

  -- `seen.get(open_time)`
  pub seen_at : ℕ → List (Candle N) → Option (Candle N)
  seen_at t [] = none
  seen_at t (c ∷ cs) = let rest = seen_at t cs in if opened c == t then some c else rest

  -- What `seen` holds after the loop: the first candle of each open time.
  pub first_of_each : List (Candle N) → List (Candle N) → List (Candle N)
  unfolding seen_at
  first_of_each seen [] = seen
  first_of_each seen (c ∷ cs) =
      let new = first_of_each (seen ++ c ∷ []) cs in
      let old = first_of_each seen cs in
      elim (seen_at (opened c) seen) [ none ↦ new | some existing ↦ old ]

  unfoldable pub deduplicate_exact_candles : List (Candle N) → List (Candle N)
  unfolding first_of_each
  deduplicate_exact_candles candles = first_of_each [] (sort_by opened candles)

  pub newest_of : (Candle N → Datetime) → List (Candle N) → Option Datetime
  newest_of time [] = none
  newest_of time (c ∷ cs) = elim (newest_of time cs) [
    | none ↦ some (time c)
    | some t ↦ if before (time c) t then some t else some (time c)
  ]

module _ {N : Type 0} ⦃o : Numbers N⦄ where
  abbrev pub least_of : N → N → N
  least_of x y = if o.lt y x then y else x

  -- `min(candle.open, candle.high, candle.low, candle.close)`
  abbrev pub lowest : Candle N → N
  lowest c =
      least_of (least_of (least_of (number_of c.open_price) (number_of c.high)) (number_of c.low))
        (number_of c.close)

  abbrev pub at_most : Value N → Value N → Bool
  at_most v w = o.le (number_of v) (number_of w)

  abbrev pub is_positive : Candle N → Bool
  is_positive c = not (o.le (lowest c) (whole 0) || o.lt (number_of c.volume) (whole 0))

  abbrev pub is_within : Candle N → Value N → Bool
  is_within c v = at_most c.low v && at_most v c.high

  -- Each test of a candle with the flag that its failure raises.
  abbrev pub price_checks : Candle N → List Check
  price_checks c =
      (is_positive c, "INVALID_PRICE")
      ∷ (is_within c c.open_price, "INVALID_OHLC")
      ∷ (is_within c c.close, "INVALID_OHLC")
      ∷ []

  pub value_flags : Candle N → List String
  unfolding errors_of
  value_flags c =
      if not (all is_finite_number (market_values c))
      then "NON_FINITE_VALUE" ∷ []
      else errors_of (price_checks c)

  same_market_values : Candle N → Candle N → Bool
  same_market_values a b =
      eq_value a.open_price b.open_price
      && (eq_value a.high b.high
          && (eq_value a.low b.low && (eq_value a.close b.close && eq_value a.volume b.volume)))

  -- The flags of the loop over the sorted candles.
  pub duplicate_flags : List (Candle N) → List (Candle N) → List String
  unfolding seen_at same_market_values
  duplicate_flags seen [] = []
  duplicate_flags seen (c ∷ cs) =
      let new = duplicate_flags (seen ++ c ∷ []) cs in
      let old = duplicate_flags seen cs in
      elim (seen_at (opened c) seen) [
        | none ↦ new
        | some existing ↦
            if not (same_market_values existing c)
            then "DUPLICATE_CONFLICT" ∷ old
            else "DUPLICATE_EXACT" ∷ old
      ]

  -- A gap between neighbours that is longer than `limit`.
  pub has_gap : ℕ → List (Candle N) → Bool
  has_gap limit [] = false
  has_gap limit (a ∷ []) = false
  has_gap limit (a ∷ b ∷ cs) = ltb limit (opened b - opened a) || has_gap limit (b ∷ cs)

  -- `max(0.0, round(1.0 - 0.03 * exact - critical, 4))`
  score_of : Bool → ℕ → N
  score_of exact critical =
      let score =
        o.round
          (o.sub (o.sub (o.decimal 1 0) (o.mul (o.decimal 3 2) (whole (if exact then 1 else 0))))
            (whole critical))
          4 in
      if o.lt (o.decimal 0 0) score then score else o.decimal 0 0

  empty_report : String → DataQualityReport N
  empty_report flag = record {
    score = number (o.decimal 0 0);
    sample_count = number (whole 0);
    flags = flag ∷ [];
    critical_flags = flag ∷ [];
    newest_observed_at = none;
    newest_available_at = none;
  }

  module _ (as_of : Datetime) (interval : ℕ) (symbol source : String) (p : RiskPolicy N) where
    abbrev pub origin_checks : Candle N → List Check
    origin_checks c =
        (text_eq c.symbol symbol, "UNEXPECTED_SYMBOL")
        ∷ (equals_int interval c.interval_minutes, "UNEXPECTED_INTERVAL")
        ∷ (text_eq c.source source, "UNEXPECTED_SOURCE")
        ∷ []

    -- The tests on a candle whose timestamps are in UTC.
    abbrev pub timing_checks : Candle N → List Check
    timing_checks c =
        (before c.open_time c.close_time, "INVALID_TIME_ORDER")
        ∷ (opened c + minutes interval == c.close_time.instant, "INVALID_CANDLE_DURATION")
        ∷ (
          not_after c.close_time c.available_at && not_after c.available_at c.ingested_at,
          "INVALID_TIME_ORDER",
        )
        ∷ (before c.open_time as_of && not_after c.close_time as_of, "FUTURE_DATA")
        ∷ (not_after c.available_at as_of, "LOOKAHEAD_DATA")
        ∷ (not_after c.ingested_at as_of, "POST_CUTOFF_INGESTION")
        ∷ []

    pub clock_flags : Candle N → List String
    unfolding errors_of
    clock_flags c =
        if not (all is_aware (timestamps c))
        then "INVALID_TIMEZONE" ∷ []
        else (if not (all is_utc (timestamps c))
            then "NON_UTC_TIMESTAMP" ∷ []
            else errors_of (timing_checks c))

    pub time_valid : List (Candle N) → List (Candle N)
    time_valid [] = []
    time_valid (c ∷ cs) =
        let rest = time_valid cs in
        if all is_aware (timestamps c) && all is_utc (timestamps c) then c ∷ rest else rest

    pub candle_flags : List (Candle N) → List String
    unfolding errors_of value_flags clock_flags
    candle_flags [] = []
    candle_flags (c ∷ cs) =
        errors_of (origin_checks c) ++ (value_flags c ++ (clock_flags c ++ candle_flags cs))

    pub unique_candles : List (Candle N) → List (Candle N)
    unfolding first_of_each time_valid
    unique_candles candles = sort_by opened (first_of_each [] (sort_by opened (time_valid candles)))

    abbrev pub history_checks : List (Candle N) → List Check
    history_checks unique =
        (
          not (has_gap (o.scale (minutes interval) (number_of p.max_gap_multiplier)) unique),
          "MISSING_INTERVALS",
        )
        ∷ (
          not (
              is_stale as_of (o.scale (minutes interval) (number_of p.max_staleness_multiplier))
                (newest_of (λ c. c.close_time) unique)),
          "STALE_DATA",
        )
        ∷ (leb (count_of p.min_samples) (length unique), "INSUFFICIENT_HISTORY")
        ∷ []

    pub all_flags : List (Candle N) → List String
    unfolding candle_flags duplicate_flags unique_candles has_gap is_stale newest_of
    all_flags candles =
        candle_flags candles
        ++ (duplicate_flags [] (sort_by opened (time_valid candles))
            ++ errors_of (history_checks (unique_candles candles)))

    unfoldable pub report_of : List (Candle N) → DataQualityReport N
    unfolding all_flags only_critical score_of is_critical
    report_of candles =
        let flags = dedupe (all_flags candles) in
        let unique = unique_candles candles in
        record {
          score = number (
              score_of (contains (all_flags candles) "DUPLICATE_EXACT")
                (length (only_critical flags)));
          sample_count = number (whole (length unique));
          flags = flags;
          critical_flags = only_critical flags;
          newest_observed_at = newest_of (λ c. c.close_time) unique;
          newest_available_at = newest_of (λ c. c.available_at) unique;
        }

    unfoldable pub assess_data_quality : List (Candle N) → Checked (DataQualityReport N)
    unfolding report_of empty_report
    assess_data_quality candles =
        if not (is_utc as_of)
        then rejected ("as_of must be timezone-aware and normalized to UTC" ∷ [])
        else (if is_empty candles
            then accepted (empty_report "EMPTY_DATA")
            else accepted (report_of candles))
