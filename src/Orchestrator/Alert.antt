-- ===== src/Orchestrator/Alert.antt =====
-- When the run reports an alert.
use agent_crypto.Base.{
  String, Bool, true, ◌≡◌, refl, sym, ap, subst, ◌∙◌, Option, none, some, List, [], arith,
}
use mathlib.Core.Option.{some-injective}
use agent_crypto.Numbers.{Numbers, Value, boolean}
use agent_crypto.Domain.{
  alert, MarketMetrics, ReferencePriceSnapshot, ReferencePriceObservation, FuturesEvidence,
}
use agent_crypto.Policy.{RiskPolicy}
use agent_crypto.Deadline.{returned}
use agent_crypto.Providers.{Provider, ProviderBatch}
use agent_crypto.Quality.{deduplicate_exact_candles}
use agent_crypto.Quality.Clean.{IsUsable}
use agent_crypto.Futures.Policy.{FuturesAnalysisPolicy}
use agent_crypto.Futures.Analysis.Gate.{IsEvidenced}
use agent_crypto.Signals.Triggers.{Triggered, gated_alert-IsEvidenced}
use agent_crypto.Gate.Hits.{Passes}
use agent_crypto.Gate.Inputs.Reference.{IsFresh}
use agent_crypto.Orchestrator.Attested.{source_attested}
use agent_crypto.Gate.Verdict.{Passes-IsFresh, evaluate-eq-alert_iff}
use agent_crypto.Orchestrator.{
  AnalysisRequest, Surroundings, Gathered, preflight_flags, sealed_time,
}
use agent_crypto.Orchestrator.Report.{ResearchReport, Scenario}
use agent_crypto.Orchestrator.Evidence.{Entry}
use agent_crypto.Orchestrator.Signal.{
  futures_evidence, gate_request, proposal, safe_metrics, futures_analysis, analytics_candles,
  contract_of, attested, volume_anomaly_attested,
}
use agent_crypto.Orchestrator.Analyze.{analyze, report_of}
use agent_crypto.Orchestrator.Chain.{analyze-Made}
use agent_crypto.Orchestrator.Gathering.{Fetches, gather-IsGathered}

attested_of : {N : Type 0} (b : Bool) → ◌≡◌ {A = Value N} (boolean b) (boolean true) → b ≡ true
attested_of b h = cc

module _ {N : Type 0} ⦃o : Numbers N⦄ (w : Surroundings N) (p : RiskPolicy N)
    (provider : Provider N) (q : AnalysisRequest) (f : FuturesAnalysisPolicy N) where
  module _ (g : Gathered N) where
    -- What the data and the analysis show if the gate let an alert through.
    abbrev Shown : Type 0
    Shown =
        (attested w p provider q f g ≡ true)
        × (g.quality.critical_flags ≡ [])
        × ((m : MarketMetrics N) × (safe_metrics w p provider q f g ≡ some m)
            × Triggered (volume_anomaly_attested w p provider q f g) m)
        × ((e : FuturesEvidence N) × (futures_evidence w p provider q f g ≡ some e)
            × IsEvidenced w.parse (analytics_candles w p provider q f g) g.analysis_time q.symbol
                (contract_of w p provider q f g) f e)

    report_of-Shown :
        (trace s : String) (scenarios : List Scenario)
        → (report_of w p provider q f g trace s scenarios).decision ≡ alert
        → Passes p (gate_request w p provider q f g s) × Shown
    unfolding report_of gate_request proposal futures_analysis
    report_of-Shown trace s scenarios h =
        let (proposed, passes) =
          (evaluate-eq-alert_iff p (gate_request w p provider q f g s) w.assessment_id
              w.policy_hash).0
            h in
        let (metrics, evidenced) =
          gated_alert-IsEvidenced w.parse (analytics_candles w p provider q f g) g.analysis_time
            q.symbol (contract_of w p provider q f g) f (futures_evidence w p provider q f g)
            (safe_metrics w p provider q f g) (volume_anomaly_attested w p provider q f g)
            proposed in
        (passes, (attested_of _ passes.attested, passes.no_critical, metrics, evidenced))

  report_of-metrics :
      (g : Gathered N) (trace s : String) (scenarios : List Scenario)
      → (report_of w p provider q f g trace s scenarios).metrics ≡ safe_metrics w p provider q f g
  unfolding report_of
  report_of-metrics g trace s scenarios = refl

  analytics_of :
      (g : Gathered N) (m : MarketMetrics N)
      → safe_metrics w p provider q f g ≡ some m
      → analytics_candles w p provider q f g ≡ deduplicate_exact_candles g.candles
  unfolding safe_metrics analytics_candles
  analytics_of g m h = ground arith

  evidence_in :
      (x : Option (ProviderBatch N)) (b : ProviderBatch N) (e : FuturesEvidence N)
      → x ≡ some b
      → (elim x [ none ↦ none | some y ↦ y.futures_evidence ]) ≡ some e
      → b.futures_evidence ≡ some e
  evidence_in none b e h k = cc
  evidence_in (some y) b e h k =
      sym (ap (λ (z : ProviderBatch N). z.futures_evidence) (some-injective _ _ h)) ∙ k

  reference_in :
      (x : Option (ProviderBatch N)) (b : ProviderBatch N) (s : ReferencePriceSnapshot N)
      → x ≡ some b
      → (elim x [ none ↦ none | some y ↦ y.reference_price ]) ≡ some s
      → b.reference_price ≡ some s
  reference_in none b s h k = cc
  reference_in (some y) b s h k =
      sym (ap (λ (z : ProviderBatch N). z.reference_price) (some-injective _ _ h)) ∙ k

  -- What a report with an alert rests on: a request inside the policy, a fetched batch from the
  -- attested source whose candles are clean and enough, one fresh reference price, metrics over a
  -- threshold, and futures evidence that no check objects to.
  pub record IsGrounded (r : ResearchReport N) : Type 0 where
    pub gathered : Gathered N
    pub fetched : ProviderBatch N
    pub inside : preflight_flags w p provider q ≡ []
    pub fetch : Fetches w p provider q gathered fetched
    pub usable :
        IsUsable
          (sealed_time w p provider q)
          q.interval_minutes
          q.symbol
          provider.source_id
          p
          fetched.candles
    pub source :
        source_attested provider.provider_type (some fetched) p.required_source_count ≡ true
    pub reference :
        (s : ReferencePriceSnapshot N) × (x : ReferencePriceObservation N)
        × (fetched.reference_price ≡ some s)
        × IsFresh q.symbol (sealed_time w p provider q) p s x
    pub metrics :
        (m : MarketMetrics N) × (r.metrics ≡ some m)
        × Triggered (volume_anomaly_attested w p provider q f gathered) m
    pub evidence :
        (e : FuturesEvidence N) × (fetched.futures_evidence ≡ some e)
        × IsEvidenced w.parse
            (deduplicate_exact_candles fetched.candles)
            (sealed_time w p provider q)
            q.symbol
            (contract_of w p provider q f gathered)
            f
            e

  -- A run reports an alert only for a request inside the policy, answered by a batch of the attested
  -- source: its candles are clean and enough, its one reference price is fresh, the metrics reach a
  -- threshold, and the futures evidence of the same batch passes every check.
  pub analyze-IsGrounded :
      (r : ResearchReport N) (saved : List (Entry N))
      → analyze w p provider q f ≡ returned (r, saved)
      → r.decision ≡ alert
      → IsGrounded r
  unfolding gate_request
  analyze-IsGrounded r saved h a =
      let (g, trace, s, scenarios, gathered, made) = analyze-Made w p provider q f r saved h in
      let (passes, (source, critical, (m, has, triggered), (e, here, evidenced))) =
        report_of-Shown g trace s scenarios (ap (λ (x : ResearchReport N). x.decision) made ∙ a) in
      let (inside, (b, fetch, usable)) = gather-IsGathered w p provider q g gathered critical in
      let (_, held, candles, time) = fetch in
      let (snapshot, x, there, fresh) =
        Passes-IsFresh p (gate_request w p provider q f g s) passes in
      let analytics = analytics_of g m has ∙ ap deduplicate_exact_candles candles in
      record {
        gathered = g;
        fetched = b;
        inside = inside;
        fetch = fetch;
        usable = usable;
        source =
            subst (λ y. source_attested provider.provider_type y p.required_source_count ≡ true)
              held source;
        reference = (
          snapshot,
          x,
          reference_in g.fetched b snapshot held there,
          subst (λ t. IsFresh q.symbol t p snapshot x) time fresh,
        );
        metrics = (
          m,
          sym (ap (λ (y : ResearchReport N). y.metrics) made)
              ∙ (report_of-metrics g trace s scenarios ∙ has),
          triggered,
        );
        evidence = (
          e,
          evidence_in g.fetched b e held here,
          subst
              (λ cs.
                IsEvidenced w.parse cs (sealed_time w p provider q) q.symbol
                  (contract_of w p provider q f g) f e)
              analytics
              (subst
                (λ t.
                  IsEvidenced w.parse (analytics_candles w p provider q f g) t q.symbol
                    (contract_of w p provider q f g) f e)
                time evidenced),
        );
      }
