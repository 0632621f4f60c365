-- ===== src/Futures/Transition/Structure.antt =====
-- `validate_futures_evidence_structure` of src/crypto_agent/futures_analytics.py: the check of the
-- evidence before it is stored.
use agent_crypto.Base.{
  String, Bool, false, ◌&&◌, Option, none, some, pos, is_none, text_eq, if◌then◌else◌,
}
use agent_crypto.Numbers.{Numbers, is_text, is_absent, finite_positive}
use agent_crypto.Clock.{Datetime}
use agent_crypto.Domain.{BasisReference, ContractTransitionEvidence, FuturesEvidence}
use agent_crypto.Futures.Policy.{approved_basis_reference_type, approved_basis_source_id}
use agent_crypto.Futures.Book.{t4_source_id, timestamp_chain, valid_book, current_mid}
use agent_crypto.Futures.Lifecycle.{Contract, is_name}
use agent_crypto.Futures.Transition.{transition_sound}

-- `abs((a - b).total_seconds()) <= MAX_EVIDENCE_TIMESTAMP_SKEW_SECONDS`
skew_small : {N : Type 0} (o : Numbers N) → Datetime → Datetime → Bool
skew_small o a b = o.le (o.abs (o.seconds_between b.instant a.instant)) (o.integer (pos 5))

module _ {N : Type 0} ⦃o : Numbers N⦄ where
  evidence_sound : FuturesEvidence N → Contract N → Datetime → Bool
  evidence_sound e c as_of =
      is_text e.contract_id c.contract_id
      && (text_eq e.source t4_source_id
          && (e.is_full_snapshot
              && (timestamp_chain e.observed_at e.available_at e.ingested_at as_of
                  && valid_book e.bids e.asks)))

  reference_sound : BasisReference N → String → FuturesEvidence N → Datetime → Bool
  unfolding skew_small
  reference_sound r symbol e as_of =
      text_eq r.symbol symbol
      && (text_eq r.reference_type approved_basis_reference_type
          && (text_eq r.source approved_basis_source_id
              && (finite_positive r.price
                  && (timestamp_chain r.observed_at r.available_at r.ingested_at as_of
                      && skew_small o r.observed_at e.observed_at))))

  roll_sound :
      Option (ContractTransitionEvidence N) → FuturesEvidence N → Contract N → Datetime → Bool
  unfolding skew_small
  roll_sound none e c as_of = false
  roll_sound (some t) e c as_of =
      is_text "rolled" c.selection
      && (is_name c.rolled_from
          && (transition_sound t c (current_mid e) as_of
              && skew_small o t.observed_at e.observed_at))

  unfoldable pub validate_futures_evidence_structure :
      Option (FuturesEvidence N) → Datetime → String → Contract N → Bool
  unfolding evidence_sound reference_sound roll_sound
  validate_futures_evidence_structure none as_of symbol c = false
  validate_futures_evidence_structure (some e) as_of symbol c =
      let front = is_absent c.rolled_from && is_none e.contract_transition in
      evidence_sound e c as_of
      && (reference_sound e.basis_reference symbol e as_of
          && (if is_text "front_month" c.selection
              then front
              else roll_sound e.contract_transition e c as_of))
