-- ===== src/Futures/Volume.antt =====
-- `_volume_metrics` of src/crypto_agent/futures_analytics.py.
use agent_crypto.Base.{
  ℕ, ◌+◌, ◌-◌, String, Bool, true, false, ◌&&◌, not, Option, none, some, List, [], ◌∷◌, map, any,
  length, take, drop, max, ltb, if◌then◌else◌, sort_by, ◌>>=◌, ◌≡◌, ◌↔◌, arith, ◌≢◌,
}
use agent_crypto.Numbers.{Numbers, Value, whole, number_of, count_of, finite_nonnegative}
use agent_crypto.Domain.{Candle, MetricStatus, available, unavailable, invalid}
use agent_crypto.Futures.Policy.{FuturesAnalysisPolicy}

pub record VolumeResult (N : Type 0) : Type 0 where
  pub status : MetricStatus
  pub zscore : Option N
  pub relative : Option N
  pub flags : List String

-- `xs[-n:]` for n > 0, and `xs[:-1]`
abbrev pub last_items : {A : Type 0} → ℕ → List A → List A
last_items n xs = drop (length xs - n) xs

abbrev pub but_last : {A : Type 0} → List A → List A
but_last xs = take (length xs - 1) xs

-- `xs[-1]`, for a list that is not empty.
abbrev pub last_or : {A : Type 0} → A → List A → A
last_or d [] = d
last_or d (x ∷ xs) = last_or x xs

unavailable_ne : unavailable ≢ available
unavailable_ne e = cc

invalid_ne : invalid ≢ available
invalid_ne e = cc

module _ {N : Type 0} ⦃o : Numbers N⦄ where
  abbrev no_volume : MetricStatus → String → VolumeResult N
  no_volume status flag = record {
    status = status;
    zscore = none;
    relative = none;
    flags = flag ∷ [];
  }

  -- The statistics of the windows: deviation and mean of the history, mean of the relative history.
  window_statistics : List N → ℕ → ℕ → Option (N × N × N)
  window_statistics volumes window relative_window = do
    let history = but_last (last_items window volumes)
    spread ← o.deviation history
    mean ← o.mean history
    relative ← o.mean (but_last (last_items (relative_window + 1) volumes))
    some (spread, mean, relative)

  volume_scores : N → N × N × N → VolumeResult N
  volume_scores newest (spread, mean, relative) =
      let zscore = o.div (o.sub newest mean) spread in
      let ratio = o.div newest relative in
      if not (o.is_finite spread && (o.is_finite mean && o.is_finite relative))
      then no_volume invalid "VOLUME_EVIDENCE_INVALID"
      else if o.eq spread (whole 0)
      then no_volume unavailable "VOLUME_VARIANCE_ZERO"
      else if o.le relative (whole 0)
      then record {
        status = unavailable;
        zscore = some zscore;
        relative = none;
        flags = "VOLUME_BASELINE_ZERO" ∷ [];
      }
      else if not (o.is_finite zscore && o.is_finite ratio)
      then no_volume invalid "VOLUME_EVIDENCE_INVALID"
      else record { status = available; zscore = some zscore; relative = some ratio; flags = [] }

  -- `none` is the exception that the `try` around the statistics catches.
  scores_of : N → Option (N × N × N) → VolumeResult N
  scores_of newest none = no_volume invalid "VOLUME_EVIDENCE_INVALID"
  scores_of newest (some statistics) = volume_scores newest statistics

  volume_result : List (Value N) → ℕ → ℕ → VolumeResult N
  unfolding window_statistics volume_scores scores_of
  volume_result volumes window relative_window =
      let numbers = map number_of volumes in
      if ltb (length volumes) (max window (relative_window + 1))
      then no_volume unavailable "VOLUME_HISTORY_INCOMPLETE"
      else if any (λ v. not (finite_nonnegative v)) volumes
      then no_volume invalid "VOLUME_EVIDENCE_INVALID"
      else scores_of (last_or (whole 0) numbers) (window_statistics numbers window relative_window)

  unfoldable pub volume_metrics : List (Candle N) → FuturesAnalysisPolicy N → VolumeResult N
  unfolding volume_result
  volume_metrics candles policy =
      volume_result (map (λ c. c.volume) (sort_by (λ c. c.open_time.instant) candles))
        (count_of policy.volume_window) (count_of policy.relative_volume_window)

  abbrev IsAvailable : VolumeResult N → Type 0
  IsAvailable v =
      ((v.status ≡ available) ↔ (v.flags ≡ []))
      × (v.status ≡ available → (z r : N) × (v.zscore ≡ some z) × (v.relative ≡ some r))

  volume_scores-IsAvailable : (newest : N) (t : N × N × N) → IsAvailable (volume_scores newest t)
  unfolding volume_scores
  volume_scores-IsAvailable newest (spread, mean, relative) = (
    ground arith,
    λ h. (o.div (o.sub newest mean) spread, o.div newest relative, ground arith, ground arith),
  )

  scores_of-IsAvailable : (newest : N) (t : Option (N × N × N)) → IsAvailable (scores_of newest t)
  unfolding scores_of
  scores_of-IsAvailable newest none =
      (ground arith, λ h. (newest, newest, ground arith, ground arith))
  scores_of-IsAvailable newest (some t) = volume_scores-IsAvailable newest t

  if-available :
      (b : Bool) (flag : String) (status : MetricStatus) (rest : VolumeResult N)
      → status ≢ available
      → IsAvailable rest
      → IsAvailable (if b then no_volume status flag else rest)
  if-available true flag status rest h k = (((λ e. absurd (h e)), λ e. cc), λ e. absurd (h e))
  if-available false flag status rest h k = k

  volume_result-IsAvailable :
      (volumes : List (Value N)) (window relative_window : ℕ)
      → IsAvailable (volume_result volumes window relative_window)
  unfolding volume_result
  volume_result-IsAvailable volumes window relative_window =
      if-available _ _ _ _ unavailable_ne
        (if-available _ _ _ _ invalid_ne (scores_of-IsAvailable _ _))

  -- The volume metrics are available exactly when they raise no flag, and then both scores are there.
  pub volume_metrics-available :
      (candles : List (Candle N)) (policy : FuturesAnalysisPolicy N)
      → let v = volume_metrics candles policy in
        ((v.status ≡ available) ↔ (v.flags ≡ []))
        × (v.status ≡ available → (z r : N) × (v.zscore ≡ some z) × (v.relative ≡ some r))
  unfolding volume_metrics
  volume_metrics-available candles policy =
      volume_result-IsAvailable (map (λ c. c.volume) (sort_by (λ c. c.open_time.instant) candles))
        (count_of policy.volume_window) (count_of policy.relative_volume_window)
