-- ===== src/Signals/Triggers.antt =====
-- When a research alert is proposed, and when it survives the futures gate.
use agent_crypto.Base.{
  length, and_iff, String, Bool, true, ◌||◌, ◌≡◌, refl, sym, subst, ◌∙◌, ◌↔◌, dedupe, ◌⊎◌, Option,
  none, some, List, ◌++◌, contains, contains-dedupe, contains-append, Distinct, dedupe-Distinct,
  arith,
}
use mathlib.Core.Option.{some-injective}
use agent_crypto.Numbers.{Numbers, number_of}
use agent_crypto.Clock.{Datetime}
use agent_crypto.Domain.{alert, Regime, high_volatility, MarketMetrics, Candle, FuturesEvidence}
use agent_crypto.Futures.{FuturesAnalysis}
use agent_crypto.Futures.Policy.{FuturesAnalysisPolicy}
use agent_crypto.Futures.Lifecycle.{Contract, Parser}
use agent_crypto.Futures.Analysis.{analyze_futures}
use agent_crypto.Futures.Analysis.Gate.{IsEvidenced, analyze_futures-IsEvidenced}
use agent_crypto.Signals.{
  ResearchProposal, is_high_volatility, large_move, large_seven_move, volume_anomaly,
  propose_research_alert, apply_futures_gate,
}

volatile_iff : (r : Regime) → (is_high_volatility r ≡ true) ↔ (r ≡ high_volatility)
volatile_iff r = ground arith

told_iff : {a b : Bool} {P : Type 0} → a ≡ b → (b ≡ true) ↔ P → (a ≡ true) ↔ P
told_iff {P = P} same h = subst (λ x. (x ≡ true) ↔ P) (sym same) h

module _ {N : Type 0} ⦃o : Numbers N⦄ where
  -- The last move is of 5 percent or more.
  abbrev pub IsMoved : MarketMetrics N → Type 0
  IsMoved m = o.le (o.decimal 5 2) (o.abs (number_of m.period_return)) ≡ true

  -- The move over seven periods is of 12 percent or more.
  abbrev pub IsMovedFar : MarketMetrics N → Type 0
  IsMovedFar m = o.le (o.decimal 12 2) (o.abs (number_of m.return_7_periods)) ≡ true

  -- The volume is attested and two standard deviations or more away.
  abbrev pub IsUnusual : Bool → MarketMetrics N → Type 0
  IsUnusual attested m =
      (attested ≡ true) × (o.le (o.decimal 2 0) (o.abs (number_of m.volume_zscore)) ≡ true)

  -- One of the thresholds is reached.
  abbrev pub Triggered : Bool → MarketMetrics N → Type 0
  Triggered attested m =
      (m.regime ≡ high_volatility) ⊎ (IsMoved m ⊎ (IsMovedFar m ⊎ IsUnusual attested m))

  -- The proposal is an alert for the metrics at a threshold and no others, has the code of each threshold
  -- that they reach and of no other, and gives a reason for each code.
  pub record IsExplained (attested : Bool) (m : MarketMetrics N) (p : ResearchProposal)
      : Type 0 where
    pub alerts : (p.decision ≡ alert) ↔ Triggered attested m
    pub volatile :
        (contains p.reason_codes "HIGH_VOLATILITY_REGIME" ≡ true) ↔ (m.regime ≡ high_volatility)
    pub moved : (contains p.reason_codes "LARGE_PERIOD_MOVE" ≡ true) ↔ IsMoved m
    pub moved_far : (contains p.reason_codes "LARGE_SEVEN_PERIOD_MOVE" ≡ true) ↔ IsMovedFar m
    pub unusual : (contains p.reason_codes "VOLUME_ANOMALY" ≡ true) ↔ IsUnusual attested m
    pub told : length p.reasons ≡ length p.reason_codes

  Triggered-of :
      (attested : Bool) (m : MarketMetrics N)
      → (propose_research_alert (some m) attested).decision ≡ alert
      → Triggered attested m
  unfolding propose_research_alert
  Triggered-of attested m h = ground arith

  alert_of :
      (attested : Bool) (m : MarketMetrics N)
      → Triggered attested m
      → (propose_research_alert (some m) attested).decision ≡ alert
  unfolding propose_research_alert
  alert_of attested m h = ground arith

  -- An alert is proposed exactly when there are metrics and they reach a threshold: the regime is
  -- highly volatile, or the last move, the move over seven periods or, if attested, the volume is
  -- extreme.
  pub propose_research_alert-eq-alert_iff :
      (metrics : Option (MarketMetrics N)) (attested : Bool)
      → ((propose_research_alert metrics attested).decision ≡ alert)
        ↔ ((m : MarketMetrics N) × (metrics ≡ some m) × Triggered attested m)
  propose_research_alert-eq-alert_iff none attested =
      ((λ h. unfold propose_research_alert in cc), λ (m, e, t). cc)
  propose_research_alert-eq-alert_iff (some m) attested = (
    (λ h. (m, refl, Triggered-of attested m h)),
    λ (m', e, t). alert_of attested m (subst (Triggered attested) (sym (some-injective _ _ e)) t),
  )

  module _ (attested : Bool) (m : MarketMetrics N) where
    abbrev proposal : ResearchProposal
    proposal = propose_research_alert (some m) attested

    codes-volatile :
        contains proposal.reason_codes "HIGH_VOLATILITY_REGIME" ≡ is_high_volatility m.regime
    unfolding propose_research_alert
    codes-volatile = ground arith

    codes-moved : contains proposal.reason_codes "LARGE_PERIOD_MOVE" ≡ large_move m
    unfolding propose_research_alert
    codes-moved = ground arith

    codes-moved_far : contains proposal.reason_codes "LARGE_SEVEN_PERIOD_MOVE" ≡ large_seven_move m
    unfolding propose_research_alert
    codes-moved_far = ground arith

    codes-unusual : contains proposal.reason_codes "VOLUME_ANOMALY" ≡ volume_anomaly attested m
    unfolding propose_research_alert
    codes-unusual = ground arith

    as_many : length proposal.reasons ≡ length proposal.reason_codes
    unfolding propose_research_alert
    as_many = ground arith

    large_move_iff : (large_move m ≡ true) ↔ IsMoved m
    unfolding large_move
    large_move_iff = (λ h. h, λ h. h)

    large_seven_move_iff : (large_seven_move m ≡ true) ↔ IsMovedFar m
    unfolding large_seven_move
    large_seven_move_iff = (λ h. h, λ h. h)

    volume_anomaly_iff : (volume_anomaly attested m ≡ true) ↔ IsUnusual attested m
    unfolding volume_anomaly
    volume_anomaly_iff = and_iff attested (o.le (o.decimal 2 0) (o.abs (number_of m.volume_zscore)))

  -- A proposal for metrics is an alert exactly if they reach a threshold, carries the code of exactly the
  -- thresholds that they reach (the volume's only if it is attested), and has as many reasons as codes.
  pub propose_research_alert-IsExplained :
      (attested : Bool) (m : MarketMetrics N)
      → IsExplained attested m (propose_research_alert (some m) attested)
  propose_research_alert-IsExplained attested m = record {
    alerts = (Triggered-of attested m, alert_of attested m);
    volatile = told_iff (codes-volatile attested m) (volatile_iff m.regime);
    moved = told_iff (codes-moved attested m) (large_move_iff attested m);
    moved_far = told_iff (codes-moved_far attested m) (large_seven_move_iff attested m);
    unusual = told_iff (codes-unusual attested m) (volume_anomaly_iff attested m);
    told = as_many attested m;
  }

  gated_alert :
      (p : ResearchProposal) (f : FuturesAnalysis N)
      → (apply_futures_gate p f).decision ≡ alert
      → (p.decision ≡ alert) × (f.gate_passed ≡ true)
  unfolding apply_futures_gate
  gated_alert p f h = (ground arith, ground arith)

  -- A proposal that comes through as an alert rests on metrics that reach a threshold and on complete
  -- futures evidence that no check objects to.
  pub gated_alert-IsEvidenced :
      (parse : Parser) (candles : List (Candle N)) (as_of : Datetime) (symbol : String)
      (c : Contract N) (policy : FuturesAnalysisPolicy N) (evidence : Option (FuturesEvidence N))
      (metrics : Option (MarketMetrics N)) (attested : Bool)
      → (apply_futures_gate
          (propose_research_alert metrics attested)
          (analyze_futures parse candles evidence as_of symbol c policy)).decision
        ≡ alert
      → ((m : MarketMetrics N) × (metrics ≡ some m) × Triggered attested m)
        × ((e : FuturesEvidence N) × (evidence ≡ some e)
            × IsEvidenced parse candles as_of symbol c policy e)
  gated_alert-IsEvidenced parse candles as_of symbol c policy evidence metrics attested h =
      let (proposed, passed) = gated_alert _ _ h in
      (
        (propose_research_alert-eq-alert_iff metrics attested).0 proposed,
        analyze_futures-IsEvidenced parse candles as_of symbol c policy evidence passed,
      )

  codes_lem :
      (p : ResearchProposal) (f : FuturesAnalysis N)
      → (apply_futures_gate p f).reason_codes ≡ dedupe (p.reason_codes ++ f.reason_codes)
  unfolding apply_futures_gate
  codes_lem p f = ground arith

  -- The gate keeps every reason code of the proposal and of the analysis, each once.
  pub apply_futures_gate-codes :
      (p : ResearchProposal) (f : FuturesAnalysis N)
      → Distinct (apply_futures_gate p f).reason_codes
        × ((code : String)
            → contains (apply_futures_gate p f).reason_codes code
              ≡ (contains p.reason_codes code || contains f.reason_codes code))
  apply_futures_gate-codes p f = rw codes_lem (
    dedupe-Distinct (p.reason_codes ++ f.reason_codes),
    λ code.
        contains-dedupe (p.reason_codes ++ f.reason_codes) code
        ∙ contains-append p.reason_codes f.reason_codes code,
  )
