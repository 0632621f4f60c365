-- ===== src/Futures/Analysis.antt =====
-- `analyze_futures` of src/crypto_agent/futures_analytics.py.
pub mod Gate
use agent_crypto.Base.{
  ℕ, String, Bool, true, false, ◌&&◌, ◌||◌, not, Option, none, some, List, [], ◌∷◌, ◌++◌, any, when,
  is_empty, dedupe, map, if◌then◌else◌,
}
use mathlib.Core.Option
use agent_crypto.Numbers.{Numbers, Value, is_text}
use agent_crypto.Clock.{Datetime}
use agent_crypto.Domain.{
  Candle, FuturesEvidence, FuturesMetrics, MetricStatus, available, unavailable, invalid,
  not_applicable, SessionStatus, open_session, closed_session, halted_session,
}
use agent_crypto.Patterns.{ends_with}
use agent_crypto.Futures.{
  CounterLine, session_line, expiry_line, spread_value, spread_state, depth_state, basis_value,
  basis_state, limitations, FuturesAnalysis,
}
use agent_crypto.Futures.Policy.{FuturesAnalysisPolicy}
use agent_crypto.Futures.Book.{current_mid}
use agent_crypto.Futures.Lifecycle.{Contract, Parser, LifecycleResult, lifecycle_metrics}
use agent_crypto.Futures.Volume.{VolumeResult, volume_metrics}
use agent_crypto.Futures.Snapshot.{SnapshotResult, is_available, snapshot_metrics}
use agent_crypto.Futures.Transition.{TransitionResult, result, transition_metrics}

abbrev pub is_invalid : MetricStatus → Bool
is_invalid invalid = true
is_invalid _ = false

abbrev pub is_settled : MetricStatus → Bool
is_settled available = true
is_settled not_applicable = true
is_settled _ = false

abbrev pub is_open : Option SessionStatus → Bool
is_open (some open_session) = true
is_open _ = false

-- `limitations`
abbrev limiting : List String → List String
limiting [] = []
limiting (c ∷ cs) =
    let rest = limiting cs in
    if ends_with c "UNAVAILABLE" || ends_with c "INCOMPLETE" then c ∷ rest else rest

-- The part of the analysis that rests on the evidence, or on its absence.
pub record Evidenced (N : Type 0) : Type 0 where
  pub snapshot : SnapshotResult N
  pub transition : TransitionResult N

abbrev invalidation_texts : List String
invalidation_texts =
    "NEWER_EVIDENCE_AVAILABLE: pojawiły się dane po analizowanym as_of."
    ∷ "INPUT_FINGERPRINT_CHANGED: zmienił się którykolwiek dowód wejściowy."
    ∷ "CONTRACT_CHANGED_OR_ROLLED: aktywny contract_id uległ zmianie."
    ∷ "AS_OF_REACHES_ROLL_AT: punkt czasu osiągnął granicę rollu."
    ∷ "DATA_QUALITY_VETO: kontrola kompletności lub czasu danych nie przeszła."
    ∷ "REGIME_CHANGED: klasyfikacja reżimu uległa zmianie."
    ∷ "BOOK_STALE_OR_INVALID: order book stał się stary lub niespójny."
    ∷ "BASIS_REFERENCE_STALE_OR_INVALID: referencja spot/index utraciła ważność." ∷ []

module _ {N : Type 0} ⦃o : Numbers N⦄ where
  -- The values before any evidence is read.
  abbrev no_snapshot : List String → SnapshotResult N
  no_snapshot missing = record {
    spread_status = unavailable;
    spread_bps = none;
    depth_status = unavailable;
    bid_depth = none;
    ask_depth = none;
    book_imbalance = none;
    basis_status = unavailable;
    basis_bps = none;
    annualized_basis = none;
    session_status = none;
    flags = missing;
    veto_flags = missing;
  }

  abbrev missing_evidence : Contract N → List String
  missing_evidence c =
      "FUTURES_EVIDENCE_INCOMPLETE"
      ∷ "ORDER_BOOK_UNAVAILABLE"
      ∷ "BASIS_REFERENCE_UNAVAILABLE"
      ∷ "SESSION_STATUS_UNAVAILABLE"
      ∷ when (is_text "rolled" c.selection) ("ROLL_EVIDENCE_UNAVAILABLE" ∷ [])

  pub evidenced :
      FuturesAnalysisPolicy N
      → Option (FuturesEvidence N)
      → Datetime
      → String
      → Contract N
      → Option N
      → Evidenced N
  evidenced policy none as_of symbol c to_expiry = record {
    snapshot = no_snapshot (missing_evidence c);
    transition =
        result (if is_text "front_month" c.selection then not_applicable else unavailable) none [];
  }
  evidenced policy (some e) as_of symbol c to_expiry = record {
    snapshot = snapshot_metrics policy as_of e symbol c.contract_id to_expiry;
    transition = transition_metrics policy as_of e.contract_transition e (current_mid e) c;
  }

  -- `FUTURES_EVIDENCE_INCOMPLETE` is raised.
  pub incomplete : VolumeResult N → LifecycleResult N → Evidenced N → Bool
  incomplete v l e =
      any (λ s. not (is_available s))
        (v.status ∷ l.status ∷ e.snapshot.spread_status ∷ e.snapshot.depth_status
          ∷ e.snapshot.basis_status ∷ [])
      || (not (is_settled e.transition.status) || not (is_open e.snapshot.session_status))

  -- `FUTURES_EVIDENCE_INVALID` is raised.
  pub some_invalid : LifecycleResult N → Evidenced N → Bool
  some_invalid l e = any is_invalid (
      l.status ∷ e.snapshot.spread_status ∷ e.snapshot.depth_status ∷ e.snapshot.basis_status
      ∷ e.transition.status ∷ [])

  closing_flags : VolumeResult N → LifecycleResult N → Evidenced N → List String
  unfolding incomplete some_invalid
  closing_flags v l e =
      when (incomplete v l e) ("FUTURES_EVIDENCE_INCOMPLETE" ∷ [])
      ++ when (some_invalid l e) ("FUTURES_EVIDENCE_INVALID" ∷ [])

  all_reasons : VolumeResult N → LifecycleResult N → Evidenced N → List String
  unfolding closing_flags
  all_reasons v l e =
      dedupe
        (v.flags ++ (l.flags ++ (e.snapshot.flags ++ (e.transition.flags ++ closing_flags v l e))))

  pub all_vetoes : VolumeResult N → LifecycleResult N → Evidenced N → List String
  unfolding closing_flags
  all_vetoes v l e =
      (if is_available v.status then [] else v.flags ++ "VOLUME_METRICS_UNAVAILABLE" ∷ [])
      ++ (l.veto_flags ++ (e.snapshot.veto_flags ++ (e.transition.flags ++ closing_flags v l e)))

  abbrev spread_line : SnapshotResult N → CounterLine N
  spread_line s = elim s.spread_bps [
    | none ↦ spread_state s.spread_status
    | some x ↦ if is_available s.spread_status then spread_value x else spread_state s.spread_status
  ]

  abbrev basis_line : SnapshotResult N → CounterLine N
  basis_line s = elim s.basis_bps [
    | none ↦ basis_state s.basis_status
    | some x ↦ if is_available s.basis_status then basis_value x else basis_state s.basis_status
  ]

  -- `_futures_counter_evidence`
  futures_counter_evidence :
      SnapshotResult N → LifecycleResult N → List String → List (CounterLine N)
  futures_counter_evidence s l reasons =
      session_line s.session_status
      ∷ expiry_line l.expiry_risk
      ∷ spread_line s
      ∷ depth_state s.depth_status
      ∷ basis_line s
      ∷ when (not (is_empty (limiting reasons))) (limitations (limiting reasons) ∷ [])

  -- `_rounded`
  abbrev rounded : Option N → Option N
  rounded x = Option.map (λ y. o.round y 8) x

  futures_metrics :
      VolumeResult N → LifecycleResult N → Evidenced N → List String → FuturesMetrics N
  futures_metrics v l e reasons = record {
    volume_status = v.status;
    volume_zscore = rounded v.zscore;
    relative_volume = rounded v.relative;
    spread_status = e.snapshot.spread_status;
    spread_bps = rounded e.snapshot.spread_bps;
    depth_status = e.snapshot.depth_status;
    bid_depth = rounded e.snapshot.bid_depth;
    ask_depth = rounded e.snapshot.ask_depth;
    book_imbalance = rounded e.snapshot.book_imbalance;
    basis_status = e.snapshot.basis_status;
    basis_bps = rounded e.snapshot.basis_bps;
    annualized_basis = rounded e.snapshot.annualized_basis;
    lifecycle_status = l.status;
    seconds_to_roll = rounded l.seconds_to_roll;
    seconds_to_expiry = rounded l.seconds_to_expiry;
    expiry_risk = l.expiry_risk;
    roll_impact_status = e.transition.status;
    roll_impact_bps = rounded e.transition.roll_impact_bps;
    session_status = e.snapshot.session_status;
    flags = reasons;
  }

  -- `policy.validate()` has returned: an invalid policy raises before anything is read.
  unfoldable pub analyze_futures :
      Parser
      → List (Candle N)
      → Option (FuturesEvidence N)
      → Datetime
      → String
      → Contract N
      → FuturesAnalysisPolicy N
      → FuturesAnalysis N
  unfolding evidenced all_reasons all_vetoes futures_counter_evidence futures_metrics
  analyze_futures parse candles evidence as_of symbol c policy =
      let v = volume_metrics candles policy in
      let l = lifecycle_metrics policy parse as_of c in
      let e = evidenced policy evidence as_of symbol c l.seconds_to_expiry in
      let reasons = all_reasons v l e in
      let vetoes = dedupe (all_vetoes v l e) in
      record {
        metrics = futures_metrics v l e reasons;
        gate_passed = is_empty vetoes;
        reason_codes = reasons;
        veto_flags = vetoes;
        counter_evidence = futures_counter_evidence e.snapshot l reasons;
        invalidation_conditions = invalidation_texts;
      }
