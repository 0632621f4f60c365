-- ===== src/Analytics.antt =====
-- src/crypto_agent/analytics.py: the metrics of a history. The candles hold numbers, as those do that
-- pass the quality control. A function is `none` where Python raises ValueError or an arithmetic
-- error.
use agent_crypto.Base.{
  ℕ, Option, none, some, List, [], ◌∷◌, map, length, ltb, if◌then◌else◌, sort_by, ◌>>=◌,
}
use agent_crypto.Numbers.{Numbers, Value, number, whole, number_of}
use agent_crypto.Domain.{
  Candle, MarketMetrics, Regime, high_volatility, trend_up, trend_down, range,
}
use agent_crypto.Futures.Volume.{last_items, but_last, last_or}

-- The functions of `math` that the code calls.
pub record MathFunctions (N : Type 0) : Type 0 where
  -- `math.log`; `none` is ValueError.
  pub log : N → Option N
  -- `math.sqrt`, of a number that is not negative.
  pub sqrt : N → N

module _ {N : Type 0} ⦃o : Numbers N⦄ where
  -- `x / y`; `none` is ZeroDivisionError.
  abbrev divided : N → N → Option N
  divided x y = if o.eq y (whole 0) then none else some (o.div x y)

  abbrev pub above_zero : N → N → N
  above_zero x y = if o.lt x y then y else x

  -- `max(1.0, (365 * 24 * 60) / interval_minutes)`
  periods_per_year : N → Option N
  periods_per_year interval = do
    let quotient = divided (whole 525600) interval
    periods ← quotient
    some (above_zero (o.decimal 1 0) periods)

  log_returns : MathFunctions N → List N → Option (List N)
  log_returns f [] = some []
  log_returns f (x ∷ []) = some []
  log_returns f (x ∷ y ∷ ys) = do
    let rest = log_returns f (y ∷ ys)
    ratio ← divided y x
    change ← f.log ratio
    changes ← rest
    some (change ∷ changes)

  -- The loop of `_max_drawdown`.
  pub drawdown_from : N → N → List N → Option N
  drawdown_from peak worst [] = some worst
  drawdown_from peak worst (v ∷ vs) =
      let top = if o.lt peak v then v else peak in
      let deeper : N → Option N = λ d. drawdown_from top (if o.lt d worst then d else worst) vs in
      do ratio ← divided v top; deeper (o.sub ratio (whole 1))

  unfoldable pub max_drawdown : List N → Option N
  unfolding drawdown_from
  max_drawdown [] = none
  max_drawdown (v ∷ vs) = drawdown_from v (o.decimal 0 0) (v ∷ vs)

  standard_score : N → List N → Option N
  standard_score newest history = o.deviation history >>= λ deviation.
      let score = (o.mean history >>= λ mean. some (o.div (o.sub newest mean) deviation)) in
      if o.eq deviation (whole 0) then some (o.decimal 0 0) else score

  -- `_zscore`
  unfoldable pub zscore : List N → Option N
  unfolding standard_score
  zscore values =
      let score = standard_score (last_or (whole 0) values) (but_last values) in
      if ltb (length values) 2 then some (o.decimal 0 0) else score

  trend_of : N → Regime
  trend_of ratio =
      if o.lt (o.decimal 102 2) ratio
      then trend_up
      else (if o.lt ratio (o.decimal 98 2) then trend_down else range)

  -- `_classify_regime`
  pub classify_regime : N → N → N → Option Regime
  unfolding trend_of
  classify_regime volatility sma_20 sma_50 =
      let trend = (divided sma_20 sma_50 >>= λ ratio. some (trend_of ratio)) in
      if o.lt (o.decimal 8 1) volatility then some high_volatility else trend

  -- `xs[-n]`
  abbrev from_end : ℕ → List N → N
  from_end n xs = elim (last_items n xs) [ [] ↦ whole 0 | x ∷ rest ↦ x ]

  rounded_value : N → Value N
  rounded_value x = number (o.round x 8)

  abbrev last_interval : List (Candle N) → N
  last_interval [] = whole 0
  last_interval (c ∷ []) = number_of c.interval_minutes
  last_interval (c ∷ cs) = last_interval cs

  metrics_of : MathFunctions N → N → List N → List N → Option (MarketMetrics N)
  unfolding periods_per_year log_returns max_drawdown zscore classify_regime rounded_value
  metrics_of f interval closes volumes = do
    returns ← log_returns f closes
    periods ← periods_per_year interval
    deviation ← o.deviation (last_items 30 returns)
    let volatility = o.mul deviation (f.sqrt periods)
    let last_price = from_end 1 closes
    period_ratio ← divided last_price (from_end 2 closes)
    seven_ratio ← divided last_price (from_end 8 closes)
    sma_20 ← o.mean (last_items 20 closes)
    sma_50 ← o.mean (last_items 50 closes)
    drawdown ← max_drawdown (last_items 90 closes)
    score ← zscore (last_items 30 volumes)
    regime ← classify_regime volatility sma_20 sma_50
    some (record {
      last_price = rounded_value last_price;
      period_return = rounded_value (o.sub period_ratio (whole 1));
      return_7_periods = rounded_value (o.sub seven_ratio (whole 1));
      annualized_volatility = rounded_value volatility;
      max_drawdown = rounded_value drawdown;
      sma_20 = rounded_value sma_20;
      sma_50 = rounded_value sma_50;
      volume_zscore = rounded_value score;
      regime = regime;
    })

  unfoldable pub calculate_metrics : MathFunctions N → List (Candle N) → Option (MarketMetrics N)
  unfolding metrics_of
  calculate_metrics f candles =
      let ordered = sort_by (λ c. c.open_time.instant) candles in
      let metrics =
        metrics_of f (last_interval ordered) (map (λ c. number_of c.close) ordered)
          (map (λ c. number_of c.volume) ordered) in
      if ltb (length ordered) 50 then none else metrics
