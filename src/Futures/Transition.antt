-- ===== src/Futures/Transition.antt =====
-- `_transition_metrics` and `validate_futures_evidence_structure` of
-- src/crypto_agent/futures_analytics.py.
pub mod Structure
pub mod Quiet
use agent_crypto.Base.{
  ℕ, String, Bool, true, false, ◌&&◌, ◌||◌, not, ◌≡◌, ◌↔◌, ◌⊎◌, inl, inr, refl, arith, Option, none,
  some, List, [], ◌∷◌, is_none, if◌then◌else◌, text_eq,
}
use agent_crypto.Numbers.{Numbers, Value, whole, number_of, is_text, is_absent, finite_positive}
use agent_crypto.Clock.{Datetime}
use agent_crypto.Domain.{
  MetricStatus, available, unavailable, invalid, not_applicable, ContractTransitionEvidence,
  FuturesEvidence,
}
use agent_crypto.Futures.Policy.{FuturesAnalysisPolicy}
use agent_crypto.Futures.Book.{t4_source_id, timestamp_chain}
use agent_crypto.Futures.Lifecycle.{Contract}
use agent_crypto.Futures.Snapshot.{close_in_time}

pub record TransitionResult (N : Type 0) : Type 0 where
  pub status : MetricStatus
  pub roll_impact_bps : Option N
  pub flags : List String

module _ {N : Type 0} ⦃o : Numbers N⦄ where
  -- Flags and vetoes of a transition are the same.
  abbrev pub result : MetricStatus → Option N → List String → TransitionResult N
  result status impact flags = record { status = status; roll_impact_bps = impact; flags = flags }

  -- `mid is not None and math.isclose(to_price, mid, rel_tol=1e-12, abs_tol=1e-12)`
  abbrev pub close_to : N → Option N → Bool
  close_to price none = false
  close_to price (some mid) = o.is_close price mid

  -- The part of the checks that both functions make.
  unfoldable pub transition_sound :
      ContractTransitionEvidence N → Contract N → Option N → Datetime → Bool
  transition_sound t c mid as_of =
      is_text t.from_contract_id c.rolled_from
      && (is_text t.to_contract_id c.contract_id
          && (text_eq t.price_type "mid"
              && (text_eq t.source t4_source_id
                  && (finite_positive t.from_price
                      && (finite_positive t.to_price
                          && (close_to (number_of t.to_price) mid
                              && timestamp_chain t.observed_at t.available_at t.ingested_at
                                  as_of))))))

  -- `10_000.0 * (to_price / from_price - 1.0)`
  unfoldable pub roll_impact : ContractTransitionEvidence N → N
  roll_impact t =
      o.mul (o.decimal 10000 0)
        (o.sub (o.div (number_of t.to_price) (number_of t.from_price)) (o.decimal 1 0))

  module _ (policy : FuturesAnalysisPolicy N) (as_of : Datetime) where
    unfoldable pub rolled_metrics :
        ContractTransitionEvidence N
        → FuturesEvidence N
        → Option N
        → Contract N
        → TransitionResult N
    unfolding transition_sound roll_impact close_in_time
    rolled_metrics t e mid c =
        if not (
          transition_sound t c mid as_of
          && close_in_time policy as_of t.observed_at e.observed_at
              policy.max_timestamp_skew_seconds)
        then result invalid none ("ROLL_EVIDENCE_INVALID" ∷ [])
        else if not (o.is_finite (roll_impact t))
        then result invalid none ("ROLL_EVIDENCE_INVALID" ∷ [])
        else if o.lt (number_of policy.max_absolute_roll_impact_bps) (o.abs (roll_impact t))
        then result available (some (roll_impact t)) ("ROLL_IMPACT_EXTREME" ∷ [])
        else result available (some (roll_impact t)) []

    abbrev front_metrics : Option (ContractTransitionEvidence N) → TransitionResult N
    front_metrics none = result not_applicable none []
    front_metrics (some t) = result invalid none ("ROLL_EVIDENCE_UNEXPECTED" ∷ [])

    abbrev missing_roll : TransitionResult N
    missing_roll = result unavailable none ("ROLL_EVIDENCE_UNAVAILABLE" ∷ [])

    unfoldable pub transition_metrics :
        Option (ContractTransitionEvidence N)
        → FuturesEvidence N
        → Option N
        → Contract N
        → TransitionResult N
    unfolding rolled_metrics
    transition_metrics t e mid c =
        if is_text "front_month" c.selection
        then front_metrics t
        else if not (is_text "rolled" c.selection)
        then missing_roll
        else elim t [ none ↦ missing_roll | some t' ↦ rolled_metrics t' e mid c ]
