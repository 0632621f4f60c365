-- ===== src/Tests/QualityTests.antt =====
-- Tests of the data quality on concrete candles.
use agent_crypto.Base.{ℕ, ◌+◌, ◌*◌, ◌≡◌, refl, List, [], ◌∷◌, dedupe, sort_by}
use agent_crypto.Numbers.{is_finite_number}
use agent_crypto.Clock.{is_utc, is_aware}
use agent_crypto.Numbers.Sample.{Decimal, decimals}
use agent_crypto.Domain.{Candle, DataQualityReport}
use agent_crypto.Policy.{RiskPolicy}
use agent_crypto.Samples.{whole_value, at_second, v1_policy}
use agent_crypto.Quality.{report_of, assess_data_quality}
use agent_crypto.Quality.Clean.{IsUsable, assess_data_quality-IsClean}

abbrev short_policy : RiskPolicy Decimal
short_policy = record v1_policy { min_samples = whole_value 2 }

-- The n-th candle of four hours.
abbrev quarter : ℕ → ℕ → Candle Decimal
quarter n price = record {
  symbol = "BTC/USD";
  interval_minutes = whole_value 240;
  open_time = at_second (n * 14400);
  close_time = at_second (n * 14400 + 14400);
  open_price = whole_value price;
  high = whole_value (price + 5);
  low = whole_value 90;
  close = whole_value (price + 1);
  volume = whole_value 7;
  source = "plus500_t4_futures_v1";
  available_at = at_second (n * 14400 + 14401);
  ingested_at = at_second (n * 14400 + 14402);
}

abbrev quarters : List (Candle Decimal)
quarters = quarter 3 100 ∷ quarter 1 100 ∷ quarter 2 100 ∷ quarter 1 100 ∷ []

abbrev report_on : List (Candle Decimal) → DataQualityReport Decimal
report_on = report_of (at_second 57610) 240 "BTC/USD" "plus500_t4_futures_v1" short_policy

flags-quarters : (report_on quarters).flags ≡ "DUPLICATE_EXACT" ∷ []
unfolding report_of is_utc is_aware is_finite_number dedupe sort_by
flags-quarters = refl

flags-conflict : (report_on (quarter 1 101 ∷ quarters)).flags ≡ "DUPLICATE_CONFLICT" ∷ []
unfolding report_of is_utc is_aware is_finite_number dedupe sort_by
flags-conflict = refl

flags-gap :
    (report_on (quarter 3 100 ∷ quarter 1 85 ∷ [])).flags
    ≡ "INVALID_OHLC" ∷ "MISSING_INTERVALS" ∷ []
unfolding report_of is_utc is_aware is_finite_number dedupe sort_by
flags-gap = refl

assess_data_quality-IsClean_example :
    IsUsable (at_second 57610) 240 "BTC/USD" "plus500_t4_futures_v1" short_policy quarters
unfolding assess_data_quality report_of is_utc is_aware is_finite_number dedupe sort_by
assess_data_quality-IsClean_example =
    assess_data_quality-IsClean (at_second 57610) 240 "BTC/USD" "plus500_t4_futures_v1" short_policy
      quarters (report_on quarters) refl refl
