-- ===== src/Orchestrator/Refusal.antt =====
-- What the run does with a request outside the policy.
use agent_crypto.Base.{
  ◌≡◌, ◌≢◌, refl, sym, ap, ◌∙◌, Option, List, [], is_empty, Bool-cases, inl, inr,
  eq_nil_of_is_empty, if◌then◌else◌,
}
use agent_crypto.Numbers.{Numbers}
use agent_crypto.Clock.{is_utc}
use agent_crypto.Domain.{Decision, alert, no_signal, Candle}
use agent_crypto.Policy.{RiskPolicy}
use agent_crypto.Deadline.{Outcome, returned, value_error, ◌>>=◌, ensure_analysis_deadline}
use agent_crypto.Providers.{Provider, ProviderBatch, FetchRequest, Answer}
use agent_crypto.Futures.Policy.{FuturesAnalysisPolicy}
use agent_crypto.Orchestrator.{
  AnalysisRequest, Surroundings, Gathered, gather, refused, preflight_flags, trace_of,
  requested_cutoff,
}
use agent_crypto.Orchestrator.Evidence.{Entry}
use agent_crypto.Orchestrator.Report.{ResearchReport}
use agent_crypto.Orchestrator.Signal.{
  input_snapshot, gate_request, proposal, safe_metrics, futures_analysis, analytics_candles,
  volume_anomaly_attested, metrics_allowed,
}
use agent_crypto.Orchestrator.Analyze.{analyze, concluded, report_of}
use agent_crypto.Orchestrator.Alert.{IsGrounded, analyze-IsGrounded}

Decision-cases : (d : Decision) → (d ≡ alert → ⊥) → d ≡ no_signal
Decision-cases alert h = absurd (h refl)
Decision-cases no_signal h = refl

-- The same provider, but for what a fetch answers.
abbrev pub answering :
    {N : Type 0}
    → Provider N
    → Option (FetchRequest → Answer N (Option (ProviderBatch N)))
    → (FetchRequest → Answer N (List (Candle N)))
    → Provider N
answering provider fetch_batch fetch_candles = record provider {
  fetch_batch = fetch_batch;
  fetch_candles = fetch_candles;
}

module _ {N : Type 0} ⦃o : Numbers N⦄ (w : Surroundings N) (p : RiskPolicy N) (q : AnalysisRequest)
    (f : FuturesAnalysisPolicy N) where
  gather-refused :
      (provider : Provider N)
      → preflight_flags w p provider q ≢ []
      → gather w p provider q ≡ returned (refused w p provider q)
  unfolding gather
  gather-refused provider h = elim (Bool-cases (is_empty (preflight_flags w p provider q))) [
    | inl free ↦ absurd (h (eq_nil_of_is_empty (preflight_flags w p provider q) free))
    | inr flagged ↦ rw flagged refl
  ]

  -- The run, with what was gathered as an argument.
  abbrev run_on : Provider N → Outcome (Gathered N) → Outcome (ResearchReport N × List (Entry N))
  run_on provider gathered = ensure_analysis_deadline w.deadline (w.monotonic 0) >>= λ _.
      (trace_of w p provider q >>= λ trace.
      ((if is_utc (requested_cutoff w p provider q)
          then gathered
          else value_error "as_of must be timezone-aware and normalized to UTC")
        >>= λ g. concluded w p provider q f g trace))

  analyze_lem :
      (provider : Provider N) → analyze w p provider q f ≡ run_on provider (gather w p provider q)
  unfolding analyze
  analyze_lem provider = refl

  refused_alike :
      (provider : Provider N) (b : Option (FetchRequest → Answer N (Option (ProviderBatch N))))
      (c : FetchRequest → Answer N (List (Candle N)))
      → run_on provider (returned (refused w p provider q))
        ≡ run_on (answering provider b c) (returned (refused w p (answering provider b c) q))
  unfolding concluded report_of gate_request proposal safe_metrics futures_analysis
      analytics_candles volume_anomaly_attested metrics_allowed input_snapshot preflight_flags
  refused_alike provider b c = refl

  -- A request outside the policy, or for a time too far ahead, gets no alert, and the answer is the
  -- same whatever the provider would have said: it is not asked.
  pub analyze-refused :
      (provider : Provider N) (b : Option (FetchRequest → Answer N (Option (ProviderBatch N))))
      (c : FetchRequest → Answer N (List (Candle N)))
      → preflight_flags w p provider q ≢ []
      → (analyze w p provider q f ≡ analyze w p (answering provider b c) q f)
        × ((r : ResearchReport N) (saved : List (Entry N))
            → analyze w p provider q f ≡ returned (r, saved)
            → r.decision ≡ no_signal)
  unfolding preflight_flags
  analyze-refused provider b c h =
      let other = answering provider b c in
      let here = ap (run_on provider) (gather-refused provider h) in
      let there = ap (run_on other) (gather-refused other h) in
      (
        analyze_lem provider
            ∙ (here ∙ (refused_alike provider b c ∙ (sym there ∙ sym (analyze_lem other)))),
        λ r saved e. Decision-cases r.decision (λ a.
            let grounds : IsGrounded w p provider q f r =
              analyze-IsGrounded w p provider q f r saved e a in
            h grounds.inside),
      )
