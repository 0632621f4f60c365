-- ===== src/Gate/Inputs.antt =====
-- The checks of the gate's inputs: `_valid_quality_input`, `_reference_price_failures` and
-- `_valid_metrics_input` of src/crypto_agent/policy.py.
pub mod Reference
use agent_crypto.Base.{
  ℕ, String, Bool, true, false, ◌&&◌, ◌||◌, not, Option, none, some, List, [], ◌∷◌, all, is_none,
  if◌then◌else◌, text_eq, subset, ltb, ◌+◌,
}
use agent_crypto.Numbers.{
  Numbers, Value, whole, number_of, count_of, finite_between, int_at_least, is_finite_number,
  is_number,
}
use agent_crypto.Clock.{Datetime, is_utc, seconds, not_after, before, in_order}
use agent_crypto.Domain.{
  DataQualityReport, MarketMetrics, ReferencePriceObservation, ReferencePriceSnapshot,
}
use agent_crypto.Policy.{RiskPolicy}

-- `timestamp is None or (_is_utc_datetime(timestamp) and timestamp <= as_of)`
abbrev known_by : Datetime → Option Datetime → Bool
known_by as_of none = true
known_by as_of (some t) = is_utc t && not_after t as_of

abbrev not_after_if_known : Option Datetime → Option Datetime → Bool
not_after_if_known none b = true
not_after_if_known (some a) none = true
not_after_if_known (some a) (some b) = not_after a b

abbrev pub approved_reference_source : String
approved_reference_source = "plus500_t4_futures_v1"

-- The flags and the reasons of a failed check.
abbrev pub Failures : Type 0
Failures = List String × List String

abbrev failure : String → String → Failures
failure flag reason = (flag ∷ [], reason ∷ [])

module _ {N : Type 0} ⦃o : Numbers N⦄ where
  unfoldable pub valid_quality_input : DataQualityReport N → Datetime → Bool
  valid_quality_input q as_of =
      finite_between q.score (o.decimal 0 0) (o.decimal 1 0)
      && (int_at_least 0 q.sample_count
          && (all (λ f. not (text_eq f "")) q.flags
              && (all (λ f. not (text_eq f "")) q.critical_flags
                  && (subset q.critical_flags q.flags
                      && (is_utc as_of
                          && (not (
                                o.lt (whole 0) (number_of q.sample_count)
                                && (is_none q.newest_observed_at || is_none q.newest_available_at))
                              && (known_by as_of q.newest_observed_at
                                  && (known_by as_of q.newest_available_at
                                      && not_after_if_known q.newest_observed_at
                                          q.newest_available_at))))))))

  -- `timestamps_valid and price_valid`
  pub observation_valid : ReferencePriceObservation N → Datetime → RiskPolicy N → Bool
  observation_valid x as_of policy =
      is_utc x.event_time
      && (is_utc x.available_at
          && (is_utc x.ingested_at
              && (in_order x.event_time x.available_at x.ingested_at as_of
                  && (is_finite_number x.price
                      && (o.lt (whole 0) (o.to_float (number_of x.price))
                          && o.le (o.to_float (number_of x.price))
                              (number_of policy.max_market_price))))))

  pub observation_stale : ReferencePriceObservation N → Datetime → RiskPolicy N → Bool
  observation_stale x as_of policy =
      ltb (x.event_time.instant + seconds (count_of policy.max_reference_price_age_seconds))
        as_of.instant

  -- `structure_valid`, for the one observation of a snapshot.
  pub structure_valid : ReferencePriceSnapshot N → ReferencePriceObservation N → String → Bool
  structure_valid s x symbol =
      text_eq s.symbol symbol
      && (text_eq x.symbol symbol
          && (is_number x.price && text_eq x.source approved_reference_source))

  observation_failures :
      ReferencePriceSnapshot N
      → List (ReferencePriceObservation N)
      → String
      → Datetime
      → RiskPolicy N
      → Failures
  unfolding observation_valid observation_stale structure_valid
  observation_failures s (x ∷ []) symbol as_of policy =
      if not (structure_valid s x symbol)
      then failure "REFERENCE_PRICE_INVALID"
          "Reference price does not have the approved Plus500 T4 provenance."
      else if not (is_utc as_of)
      then failure "REFERENCE_PRICE_INVALID" "Reference-price decision time is not normalized UTC."
      else if not (observation_valid x as_of policy)
      then failure "REFERENCE_PRICE_INVALID"
          "Reference-price evidence failed deterministic validation."
      else if observation_stale x as_of policy
      then failure "STALE_DATA" "Plus500 T4 reference price is older than the five-minute limit."
      else ([], [])
  observation_failures s _ symbol as_of policy =
      failure "REFERENCE_PRICE_INVALID"
        "Reference price does not have the approved Plus500 T4 provenance."

  unfoldable pub reference_price_failures :
      Option (ReferencePriceSnapshot N) → String → Datetime → RiskPolicy N → Failures
  unfolding observation_failures
  reference_price_failures none symbol as_of policy =
      failure "REFERENCE_PRICE_MISSING" "Plus500 T4 reference-price evidence is missing."
  reference_price_failures (some s) symbol as_of policy =
      observation_failures s s.observations symbol as_of policy

  unfoldable pub valid_metrics_input : MarketMetrics N → Bool
  valid_metrics_input m =
      is_finite_number m.last_price
      && (is_finite_number m.period_return
          && (is_finite_number m.return_7_periods
              && (is_finite_number m.annualized_volatility
                  && (is_finite_number m.max_drawdown
                      && (is_finite_number m.sma_20
                          && (is_finite_number m.sma_50
                              && (is_finite_number m.volume_zscore
                                  && (o.lt (whole 0) (number_of m.last_price)
                                      && (o.lt (whole 0) (number_of m.sma_20)
                                          && (o.lt (whole 0) (number_of m.sma_50)
                                              && (o.le (whole 0) (number_of m.annualized_volatility)
                                                  && o.le (number_of m.max_drawdown)
                                                      (whole 0))))))))))))
