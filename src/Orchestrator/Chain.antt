-- ===== src/Orchestrator/Chain.antt =====
-- What a run that returns went through: the results that its chains of steps got.
use agent_crypto.Base.{String, Bool, true, false, ◌≡◌, refl, ap, List, if◌then◌else◌}
use agent_crypto.Numbers.{Numbers}
use agent_crypto.Clock.{is_utc}
use agent_crypto.Policy.{RiskPolicy}
use agent_crypto.Deadline.{
  Outcome, returned, value_error, zero_division, deadline_exceeded, ◌>>=◌, ensure_analysis_deadline,
}
use agent_crypto.Providers.{Provider}
use agent_crypto.Futures.Policy.{FuturesAnalysisPolicy}
use agent_crypto.Orchestrator.{
  AnalysisRequest, Surroundings, Gathered, gather, trace_of, requested_cutoff,
}
use agent_crypto.Orchestrator.Report.{ResearchReport, Scenario, scenarios_of}
use agent_crypto.Orchestrator.Evidence.{Entry}
use agent_crypto.Orchestrator.Signal.{input_snapshot, safe_metrics, futures_analysis}
use agent_crypto.Orchestrator.Analyze.{analyze, concluded, report_of, fingerprinted}

-- What a chain that returns went through.
pub returned_of {ℓ κ} :
    {A : Type ℓ} {B : Type κ} (a : Outcome A) (k : A → Outcome B) (b : B)
    → (a >>= k) ≡ returned b
    → (x : A) × (a ≡ returned x) × (k x ≡ returned b)
returned_of (returned x) k b h = (x, refl, h)
returned_of (value_error m) k b h = cc
returned_of zero_division k b h = cc
returned_of deadline_exceeded k b h = cc

pub returned-injective {ℓ} : {A : Type ℓ} (x y : A) → returned x ≡ returned y → x ≡ y
returned-injective x y h = cc

-- The chain of `analyze`: what it got, and what was made of it.
start_of {ℓ κ} :
    {G : Type ℓ} {R : Type κ} (a : Outcome (Unit {0})) (t : Outcome String) (c : Outcome G)
    (k : G → String → Outcome R) (r : R)
    → (a >>= λ _. (t >>= λ s. (c >>= λ g. k g s))) ≡ returned r
    → (g : G) × (s : String) × (c ≡ returned g) × (k g s ≡ returned r)
start_of a t c k r h =
    let (_, _, h1) = returned_of a (λ _. (t >>= λ s. (c >>= λ g. k g s))) r h in
    let (s, _, h2) = returned_of t (λ s. (c >>= λ g. k g s)) r h1 in
    let (g, e, h3) = returned_of c (λ g. k g s) r h2 in (g, s, e, h3)

-- The chain of what follows the fetch.
end_of {ℓ κ} :
    {S : Type ℓ} {R : Type κ} (a : Outcome (Unit {0})) (t : Outcome String) (c : Outcome S)
    (d : Outcome (Unit {0})) (k : String → S → R) (r : R)
    → (a >>= λ _. (t >>= λ s. (c >>= λ x. (d >>= λ _. returned (k s x))))) ≡ returned r
    → (s : String) × (x : S) × (t ≡ returned s) × (k s x ≡ r)
end_of a t c d k r h =
    let (_, _, h1) =
      returned_of a (λ _. (t >>= λ s. (c >>= λ x. (d >>= λ _. returned (k s x))))) r h in
    let (s, e, h2) = returned_of t (λ s. (c >>= λ x. (d >>= λ _. returned (k s x)))) r h1 in
    let (x, _, h3) = returned_of c (λ x. (d >>= λ _. returned (k s x))) r h2 in
    let (_, _, h4) = returned_of d (λ _. returned (k s x)) r h3 in
    (s, x, e, returned-injective (k s x) r h4)

if-returned {ℓ} :
    {A : Type ℓ} (b : Bool) (c : Outcome A) (m : String) (x : A)
    → (if b then c else value_error m) ≡ returned x
    → (b ≡ true) × (c ≡ returned x)
if-returned true c m x h = (refl, h)
if-returned false c m x h = cc

module _ {N : Type 0} ⦃o : Numbers N⦄ (w : Surroundings N) (p : RiskPolicy N)
    (provider : Provider N) (q : AnalysisRequest) (f : FuturesAnalysisPolicy N) where
  -- The report was made of what was gathered.
  abbrev pub Made : ResearchReport N → Type 0
  Made r =
      (g : Gathered N) × (trace s : String) × (scenarios : List Scenario) × (gather w p provider q
        ≡ returned g)
      × (report_of w p provider q f g trace s scenarios ≡ r)

  pub analyze-Made :
      (r : ResearchReport N) (saved : List (Entry N))
      → analyze w p provider q f ≡ returned (r, saved)
      → Made r
  unfolding analyze concluded
  analyze-Made r saved h =
      let (g, trace, e, h1) =
        start_of (ensure_analysis_deadline w.deadline (w.monotonic 0)) (trace_of w p provider q)
          (if is_utc (requested_cutoff w p provider q)
            then gather w p provider q
            else value_error "as_of must be timezone-aware and normalized to UTC")
          (λ g trace. concluded w p provider q f g trace) (r, saved) h in
      let (s, scenarios, _, made) =
        end_of (ensure_analysis_deadline w.deadline (w.monotonic 1))
          (fingerprinted w p provider q f g)
          (scenarios_of (safe_metrics w p provider q f g) (futures_analysis w p provider q f g))
          (ensure_analysis_deadline w.deadline (w.monotonic 2))
          (λ s scenarios.
            (report_of w p provider q f g trace s scenarios, input_snapshot w p provider q f g))
          (r, saved) h1 in
      (
        g,
        trace,
        s,
        scenarios,
        (if-returned _ _ _ g e).1,
        ap (λ (x : ResearchReport N × List (Entry N)). x.0) made,
      )
