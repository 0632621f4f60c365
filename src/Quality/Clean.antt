-- ===== src/Quality/Clean.antt =====
-- What a report of the data quality without critical flags says of the candles.
use agent_crypto.Base.{
  ℕ, ◌+◌, ◌*◌, ◌≤◌, ◌<◌, String, Bool, true, false, not, List, [], ◌∷◌, ◌++◌, ◌≡◌, refl, All, any,
  all, contains, dedupe, any-append, arith, Bool-cases, any_of-contains, text_eq_iff, length-sort,
  contains-dedupe, inl, inr, subst, sym, if◌then◌else◌, length, sort_by, text_eq_refl,
}
use agent_crypto.Numbers.{Numbers, count_of, is_finite_number, equals_int}
use agent_crypto.Clock.{Datetime, is_utc, is_aware}
use agent_crypto.Domain.{Candle, DataQualityReport}
use agent_crypto.Policy.{RiskPolicy}
use agent_crypto.Checked.{accepted, Check, errors_of, AllHold}
use agent_crypto.Quality.Repeats.{Ascending, deduplicate_exact_candles-Ascending}
use agent_crypto.Quality.{
  is_critical, only_critical, opened, timestamps, market_values, is_positive, is_within,
  value_flags, price_checks, origin_checks, timing_checks, history_checks, clock_flags,
  candle_flags, all_flags, report_of, assess_data_quality, time_valid, empty_report, unique_candles,
  first_of_each, deduplicate_exact_candles, duplicate_flags,
}

-- No flag of the list is critical.
abbrev IsClear : List String → Type 0
IsClear flags = any is_critical flags ≡ false

only_critical-IsClear : (flags : List String) → only_critical flags ≡ [] → IsClear flags
unfolding only_critical
only_critical-IsClear [] h = refl
only_critical-IsClear (f ∷ fs) h = ground (arith, only_critical-IsClear fs)

-- A test that fails on a list fails on a list with no other members.
any-false_of_members :
    (p : String → Bool) (xs ys : List String)
    → ((x : String) → contains xs x ≡ true → contains ys x ≡ true)
    → any p ys ≡ false
    → any p xs ≡ false
any-false_of_members p [] ys h e = refl
any-false_of_members p (x ∷ xs) ys h e =
    let rest = any-false_of_members p xs ys (λ y k. h y (ground arith)) e in
    elim (Bool-cases (p x)) [
      | inl hit ↦
          let self = text_eq_refl x in
          let found = any_of-contains p ys x (h x (ground arith)) hit in cc
      | inr miss ↦ ground arith
    ]

dedupe-IsClear : (flags : List String) → IsClear (dedupe flags) → IsClear flags
dedupe-IsClear flags =
    any-false_of_members is_critical flags (dedupe flags) (λ x h. rw (contains-dedupe flags x) h)

append-IsClear : (xs ys : List String) → IsClear (xs ++ ys) → IsClear xs × IsClear ys
append-IsClear xs ys h = let e = any-append is_critical xs ys in (ground arith, ground arith)

-- No test failed whose flags are all critical.
errors_of-AllHold :
    (checks : List Check)
    → All (λ c. is_critical c.1 ≡ true) checks
    → IsClear (errors_of checks)
    → AllHold checks
unfolding errors_of
errors_of-AllHold [] k h = tt
errors_of-AllHold ((true, f) ∷ checks) (_, k) h = (refl, errors_of-AllHold checks k h)
errors_of-AllHold ((false, f) ∷ checks) (e, k) h = ground arith

-- A guard whose flag is critical let the rest through.
guard-IsClear :
    (b : Bool) (f : String) (rest : List String)
    → is_critical f ≡ true
    → IsClear (if not b then f ∷ [] else rest)
    → (b ≡ true) × IsClear rest
guard-IsClear true f rest k h = (refl, h)
guard-IsClear false f rest k h = ground arith

module _ {N : Type 0} ⦃o : Numbers N⦄ where
  -- The values are finite, positive and inside their range.
  abbrev pub IsPriced : Candle N → Type 0
  IsPriced c =
      (all is_finite_number (market_values c) ≡ true)
      × (is_positive c ≡ true)
      × (is_within c c.open_price ≡ true)
      × (is_within c c.close ≡ true)

  value_flags-IsPriced : (c : Candle N) → IsClear (value_flags c) → IsPriced c
  unfolding value_flags is_critical
  value_flags-IsPriced c h =
      let (finite, rest) =
        guard-IsClear (all is_finite_number (market_values c)) "NON_FINITE_VALUE"
          (errors_of (price_checks c)) refl h in
      let (positive, (opening, (closing, _))) =
        errors_of-AllHold (price_checks c) (refl, (refl, (refl, tt))) rest in
      (finite, positive, opening, closing)

  module _ (as_of : Datetime) (interval : ℕ) (symbol source : String) (p : RiskPolicy N) where
    -- The candle is of the symbol, the interval and the source that were asked for.
    abbrev pub IsExpected : Candle N → Type 0
    IsExpected c =
        (c.symbol ≡ symbol) × (equals_int interval c.interval_minutes ≡ true) × (c.source ≡ source)

    -- It lasts one interval, and was closed, available and ingested in this order, by `as_of`.
    abbrev pub IsTimed : Candle N → Type 0
    IsTimed c =
        (c.open_time.instant < c.close_time.instant)
        × (c.open_time.instant + interval * 60000000 ≡ c.close_time.instant)
        × (c.close_time.instant ≤ c.available_at.instant)
        × (c.available_at.instant ≤ c.ingested_at.instant)
        × (c.ingested_at.instant ≤ as_of.instant)

    -- The candle is the expected one, sanely priced, with timestamps in UTC and in order.
    abbrev pub IsClean : Candle N → Type 0
    IsClean c =
        IsExpected c
        × IsPriced c
        × ((all is_aware (timestamps c) ≡ true) × (all is_utc (timestamps c) ≡ true) × IsTimed c)

    origin_flags-IsExpected :
        (c : Candle N)
        → IsClear (errors_of (origin_checks as_of interval symbol source p c))
        → IsExpected c
    unfolding is_critical
    origin_flags-IsExpected c h =
        let checks = origin_checks as_of interval symbol source p c in
        let (a, (b, (d, _))) = errors_of-AllHold checks (refl, (refl, (refl, tt))) h in
        ((text_eq_iff c.symbol symbol).0 a, b, (text_eq_iff c.source source).0 d)

    timing_flags-IsTimed :
        (c : Candle N)
        → IsClear (errors_of (timing_checks as_of interval symbol source p c))
        → IsTimed c
    unfolding is_critical
    timing_flags-IsTimed c h =
        let checks = timing_checks as_of interval symbol source p c in
        let (long, (lasts, (order, (closed, (offered, (taken, _)))))) =
          errors_of-AllHold checks (refl, (refl, (refl, (refl, (refl, (refl, tt)))))) h in
        (ground arith, ground arith, ground arith, ground arith, ground arith)

    clock_flags-IsTimed :
        (c : Candle N)
        → IsClear (clock_flags as_of interval symbol source p c)
        → (all is_aware (timestamps c) ≡ true) × (all is_utc (timestamps c) ≡ true) × IsTimed c
    unfolding clock_flags is_critical
    clock_flags-IsTimed c h =
        let timing = errors_of (timing_checks as_of interval symbol source p c) in
        let (aware, h1) =
          guard-IsClear (all is_aware (timestamps c)) "INVALID_TIMEZONE"
            (if not (all is_utc (timestamps c)) then "NON_UTC_TIMESTAMP" ∷ [] else timing) refl h in
        let (universal, h2) =
          guard-IsClear (all is_utc (timestamps c)) "NON_UTC_TIMESTAMP" timing refl h1 in
        (aware, universal, timing_flags-IsTimed c h2)

    candle_flags-IsClean :
        (cs : List (Candle N))
        → IsClear (candle_flags as_of interval symbol source p cs)
        → All IsClean cs
    unfolding candle_flags
    candle_flags-IsClean [] h = tt
    candle_flags-IsClean (c ∷ cs) h =
        let (a, h1) =
          append-IsClear (errors_of (origin_checks as_of interval symbol source p c))
            (value_flags c
              ++ (clock_flags as_of interval symbol source p c
                  ++ candle_flags as_of interval symbol source p cs))
            h in
        let (b, h2) =
          append-IsClear (value_flags c)
            (clock_flags as_of interval symbol source p c
              ++ candle_flags as_of interval symbol source p cs)
            h1 in
        let (d, h3) =
          append-IsClear (clock_flags as_of interval symbol source p c)
            (candle_flags as_of interval symbol source p cs) h2 in
        (
          (origin_flags-IsExpected c a, value_flags-IsPriced c b, clock_flags-IsTimed c d),
          candle_flags-IsClean cs h3,
        )

    time_valid-IsClean :
        (cs : List (Candle N)) → All IsClean cs → time_valid as_of interval symbol source p cs ≡ cs
    unfolding time_valid
    time_valid-IsClean [] h = refl
    time_valid-IsClean (c ∷ cs) ((_, _, (aware, universal, _)), h) =
        let rest = time_valid-IsClean cs h in ground arith

    unique-length :
        (cs : List (Candle N))
        → All IsClean cs
        → length (unique_candles as_of interval symbol source p cs)
          ≡ length (deduplicate_exact_candles cs)
    unfolding unique_candles deduplicate_exact_candles
    unique-length cs h =
        rw (time_valid-IsClean cs h) (length-sort opened (first_of_each [] (sort_by opened cs)))

    -- Every candle is clean, and the ones that are left once repeats are dropped are in the order of
    -- their different open times, and enough of them.
    abbrev pub IsUsable : List (Candle N) → Type 0
    IsUsable cs =
        All IsClean cs
        × Ascending (deduplicate_exact_candles cs)
        × (count_of p.min_samples ≤ length (deduplicate_exact_candles cs))

    report_of-IsClean :
        (cs : List (Candle N))
        → (report_of as_of interval symbol source p cs).critical_flags ≡ []
        → IsUsable cs
    unfolding report_of all_flags is_critical
    report_of-IsClean cs h =
        let flags = all_flags as_of interval symbol source p cs in
        let unique = unique_candles as_of interval symbol source p cs in
        let history = history_checks as_of interval symbol source p unique in
        let repeats =
          duplicate_flags [] (sort_by opened (time_valid as_of interval symbol source p cs)) in
        let clear = dedupe-IsClear flags (only_critical-IsClear (dedupe flags) h) in
        let (a, rest) =
          append-IsClear (candle_flags as_of interval symbol source p cs)
            (repeats ++ errors_of history) clear in
        let (_, b) = append-IsClear repeats (errors_of history) rest in
        let (_, (_, (enough, _))) = errors_of-AllHold history (refl, (refl, (refl, tt))) b in
        let clean = candle_flags-IsClean cs a in
        (
          clean,
          deduplicate_exact_candles-Ascending cs,
          subst (λ n. count_of p.min_samples ≤ n) (unique-length cs clean) (ground arith),
        )

    -- A history that is assessed with no critical flag is clean: every candle of it is, what is left
    -- once repeats are dropped has one candle for each open time, in order, and as many as the policy
    -- wants.
    pub assess_data_quality-IsClean :
        (candles : List (Candle N)) (r : DataQualityReport N)
        → assess_data_quality as_of interval symbol source p candles ≡ accepted r
        → r.critical_flags ≡ []
        → IsUsable candles
    unfolding assess_data_quality empty_report
    assess_data_quality-IsClean [] r h e = elim (Bool-cases (is_utc as_of)) [
      | inl universal ↦ absurd (ground arith)
      | inr other ↦ absurd (ground arith)
    ]
    assess_data_quality-IsClean (c ∷ cs) r h e =
        let same : report_of as_of interval symbol source p (c ∷ cs) ≡ r = ground arith in
        report_of-IsClean (c ∷ cs)
          (subst (λ (q : DataQualityReport N). q.critical_flags ≡ []) (sym same) e)
