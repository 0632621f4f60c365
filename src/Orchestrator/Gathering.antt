-- ===== src/Orchestrator/Gathering.antt =====
-- What was gathered when no critical flag was raised.
use agent_crypto.Base.{
  String, Bool, false, ◌≡◌, refl, sym, ap, subst, ◌∙◌, some, List, [], ◌∷◌, dedupe-eq-nil_iff,
  eq_nil_of_is_empty, is_empty, Bool-cases, inl, inr, if◌then◌else◌,
}
use agent_crypto.Numbers.{Numbers}
use agent_crypto.Domain.{DataQualityReport}
use agent_crypto.Policy.{RiskPolicy}
use agent_crypto.Checked.{Checked, accepted, rejected, crashed}
use agent_crypto.Deadline.{returned, ◌>>=◌}
use agent_crypto.Providers.{Provider, ProviderBatch, Fetched, batch, failure, fetch_provider_batch}
use agent_crypto.Quality.{assess_data_quality}
use agent_crypto.Quality.Clean.{IsUsable, assess_data_quality-IsClean}
use agent_crypto.Orchestrator.{
  AnalysisRequest, Surroundings, Gathered, gather, settled, preflight_flags, sealed_time,
  fetch_request, assessed, refused,
}
use agent_crypto.Orchestrator.Report.{failure_quality}
use agent_crypto.Orchestrator.Chain.{returned_of, returned-injective}

nonempty_of : (xs : List String) → is_empty xs ≡ false → xs ≡ [] → ⊥
nonempty_of xs h e = cc

module _ {N : Type 0} ⦃o : Numbers N⦄ (w : Surroundings N) (p : RiskPolicy N)
    (provider : Provider N) (q : AnalysisRequest) where
  -- The batch that was fetched.
  abbrev pub Fetches : Gathered N → ProviderBatch N → Type 0
  Fetches g b =
      (fetch_provider_batch provider (fetch_request w p provider q) ≡ returned (batch b))
      × (g.fetched ≡ some b)
      × (g.candles ≡ b.candles)
      × (g.analysis_time ≡ sealed_time w p provider q)

  -- The candles of the batch are clean and usable, and the request is inside the policy.
  abbrev pub IsGathered : Gathered N → Type 0
  IsGathered g =
      (preflight_flags w p provider q ≡ [])
      × ((b : ProviderBatch N) × Fetches g b
          × IsUsable (sealed_time w p provider q) q.interval_minutes q.symbol provider.source_id p
              b.candles)

  assessed-IsGathered :
      (b : ProviderBatch N) (c : Checked (DataQualityReport N)) (g : Gathered N)
      → assess_data_quality
          (sealed_time w p provider q)
          q.interval_minutes
          q.symbol
          provider.source_id
          p
          b.candles
        ≡ c
      → assessed w p provider q b c ≡ returned g
      → g.quality.critical_flags ≡ []
      → (g.fetched ≡ some b)
        × (g.candles ≡ b.candles)
        × (g.analysis_time ≡ sealed_time w p provider q)
        × IsUsable
            (sealed_time w p provider q)
            q.interval_minutes
            q.symbol
            provider.source_id
            p
            b.candles
  assessed-IsGathered b (accepted quality) g e h k =
      let same = returned-injective _ g h in
      (
        sym (ap (λ (x : Gathered N). x.fetched) same),
        sym (ap (λ (x : Gathered N). x.candles) same),
        sym (ap (λ (x : Gathered N). x.analysis_time) same),
        assess_data_quality-IsClean (sealed_time w p provider q) q.interval_minutes q.symbol
            provider.source_id p b.candles quality e
            (ap (λ (x : Gathered N). x.quality.critical_flags) same ∙ k),
      )
  assessed-IsGathered b (rejected errors) g e h k = cc
  assessed-IsGathered b crashed g e h k = cc

  settled-IsGathered :
      (x : Fetched N) (g : Gathered N)
      → fetch_provider_batch provider (fetch_request w p provider q) ≡ returned x
      → settled w p provider q x ≡ returned g
      → g.quality.critical_flags ≡ []
      → (b : ProviderBatch N) × Fetches g b
        × IsUsable
            (sealed_time w p provider q)
            q.interval_minutes
            q.symbol
            provider.source_id
            p
            b.candles
  unfolding settled failure_quality
  settled-IsGathered (batch b) g e h k =
      let (fetched, candles, time, usable) = assessed-IsGathered b _ g refl h k in
      (b, (e, fetched, candles, time), usable)
  settled-IsGathered (failure x) g e h k =
      let same = returned-injective _ g h in
      let none_left = ap (λ (y : Gathered N). y.quality.critical_flags) same ∙ k in
      let empty = (dedupe-eq-nil_iff (x.code ∷ [])).0 none_left in cc

  pub gather-IsGathered :
      (g : Gathered N)
      → gather w p provider q ≡ returned g
      → g.quality.critical_flags ≡ []
      → IsGathered g
  unfolding gather failure_quality
  gather-IsGathered g h k =
      let flags = preflight_flags w p provider q in
      let choice : Bool → Type 0 = λ b.
        (if b
          then (fetch_provider_batch provider (fetch_request w p provider q)
              >>= settled w p provider q)
          else returned (refused w p provider q))
        ≡ returned g in
      elim (Bool-cases (is_empty flags)) [
        | inl free ↦
            let (x, e, h1) =
              returned_of (fetch_provider_batch provider (fetch_request w p provider q))
                (settled w p provider q) g (subst choice free h) in
            (eq_nil_of_is_empty flags free, settled-IsGathered x g e h1 k)
        | inr flagged ↦
            let same = returned-injective (refused w p provider q) g (subst choice flagged h) in
            let none_left = ap (λ (y : Gathered N). y.quality.critical_flags) same ∙ k in
            let empty = (dedupe-eq-nil_iff flags).0 none_left in
            absurd (nonempty_of flags flagged empty)
      ]
