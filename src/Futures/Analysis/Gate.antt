-- ===== src/Futures/Analysis/Gate.antt =====
-- What the futures gate lets through.
use agent_crypto.Base.{
  String, true, false, ◌≡◌, ◌≢◌, refl, Option, none, some, List, [], ◌∷◌, ◌++◌, append-eq-nil,
  eq_nil_of_is_empty, dedupe, dedupe-eq-nil_iff, if◌then◌else◌,
}
use agent_crypto.Numbers.{Numbers}
use agent_crypto.Clock.{Datetime}
use agent_crypto.Domain.{
  Candle, FuturesEvidence, MetricStatus, available, unavailable, invalid, not_applicable,
}
use agent_crypto.Futures.Policy.{FuturesAnalysisPolicy}
use agent_crypto.Futures.Book.{current_mid}
use agent_crypto.Futures.Lifecycle.{
  Contract, Parser, LifecycleResult, utc_datetime, lifecycle_valid, roll_close, expiry_high,
  lifecycle_metrics, lifecycle_metrics-quiet,
}
use agent_crypto.Futures.Volume.{VolumeResult, volume_metrics}
use agent_crypto.Futures.Snapshot.{is_available}
use agent_crypto.Futures.Snapshot.Quiet.{IsFine, snapshot_metrics-quiet}
use agent_crypto.Futures.Transition.Quiet.{RollIsFine, transition_metrics-quiet_iff}
use agent_crypto.Futures.Analysis.{Evidenced, evidenced, all_vetoes, analyze_futures}

abbrev volume_vetoes : MetricStatus → List String → List String
volume_vetoes s flags = if is_available s then [] else flags ++ "VOLUME_METRICS_UNAVAILABLE" ∷ []

marked : (flags : List String) → flags ++ "VOLUME_METRICS_UNAVAILABLE" ∷ [] ≢ []
marked flags h = let last = (append-eq-nil flags _ h).1 in cc

available_of : (s : MetricStatus) (flags : List String) → volume_vetoes s flags ≡ [] → s ≡ available
available_of available flags h = refl
available_of unavailable flags h = absurd (marked flags h)
available_of invalid flags h = absurd (marked flags h)
available_of not_applicable flags h = absurd (marked flags h)

module _ {N : Type 0} ⦃o : Numbers N⦄ (parse : Parser) (candles : List (Candle N))
    (as_of : Datetime) (symbol : String) (c : Contract N) (policy : FuturesAnalysisPolicy N) where
  -- The contract is between now and its roll, and neither the roll nor the expiry is too near.
  abbrev pub InTime : Type 0
  InTime =
      (roll expiry : Datetime) × (utc_datetime parse c.roll_at ≡ some roll)
      × (utc_datetime parse c.expires_at ≡ some expiry)
      × (lifecycle_valid c as_of roll expiry ≡ true)
      × (roll_close policy (o.seconds_between as_of.instant roll.instant) ≡ false)
      × (expiry_high policy (o.seconds_between as_of.instant expiry.instant) ≡ false)
      × ((lifecycle_metrics policy parse as_of c).status ≡ available)

  -- Complete futures evidence that no check objects to.
  pub record IsEvidenced (e : FuturesEvidence N) : Type 0 where
    pub volume : (volume_metrics candles policy).status ≡ available
    pub in_time : InTime
    pub snapshot : IsFine policy as_of e symbol c.contract_id
    pub roll : RollIsFine policy as_of e.contract_transition e (current_mid e) c

  no_vetoes :
      (v : VolumeResult N) (l : LifecycleResult N) (x : Evidenced N)
      → all_vetoes v l x ≡ []
      → (v.status ≡ available)
        × (l.veto_flags ≡ [])
        × (x.snapshot.veto_flags ≡ [])
        × (x.transition.flags ≡ [])
  unfolding all_vetoes
  no_vetoes v l x h =
      let (volume, h1) = append-eq-nil (volume_vetoes v.status v.flags) _ h in
      let (life, h2) = append-eq-nil l.veto_flags _ h1 in
      let (snap, h3) = append-eq-nil x.snapshot.veto_flags _ h2 in
      let (roll, last) = append-eq-nil x.transition.flags _ h3 in
      (available_of v.status v.flags volume, life, snap, roll)

  evidence_of :
      (evidence : Option (FuturesEvidence N)) (left : Option N)
      → (evidenced policy evidence as_of symbol c left).snapshot.veto_flags ≡ []
      → (evidenced policy evidence as_of symbol c left).transition.flags ≡ []
      → (volume_metrics candles policy).status ≡ available
      → InTime
      → (e : FuturesEvidence N) × (evidence ≡ some e) × IsEvidenced e
  unfolding evidenced
  evidence_of none left h k v t = cc
  evidence_of (some e) left h k v t = (
    e,
    refl,
    record {
      volume = v;
      in_time = t;
      snapshot = snapshot_metrics-quiet policy as_of e symbol c.contract_id left h;
      roll =
          (transition_metrics-quiet_iff policy as_of e (current_mid e) c e.contract_transition).0 k;
    },
  )

  -- The gate passes only with evidence at hand, the volume metrics available, the contract far enough
  -- from its roll and its expiry, the snapshot fine, and no roll or a sound one.
  pub analyze_futures-IsEvidenced :
      (evidence : Option (FuturesEvidence N))
      → (analyze_futures parse candles evidence as_of symbol c policy).gate_passed ≡ true
      → (e : FuturesEvidence N) × (evidence ≡ some e) × IsEvidenced e
  unfolding analyze_futures
  analyze_futures-IsEvidenced evidence h =
      let v = volume_metrics candles policy in
      let l = lifecycle_metrics policy parse as_of c in
      let x = evidenced policy evidence as_of symbol c l.seconds_to_expiry in
      let none_raised =
        (dedupe-eq-nil_iff _).0 (eq_nil_of_is_empty (dedupe (all_vetoes v l x)) h) in
      let (volume, life, snap, roll) = no_vetoes v l x none_raised in
      evidence_of evidence l.seconds_to_expiry snap roll volume
        (lifecycle_metrics-quiet policy parse as_of c life)
