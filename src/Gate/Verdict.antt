-- ===== src/Gate/Verdict.antt =====
-- When the gate lets an alert through.
use agent_crypto.Base.{
  some, not, String, true, false, ◌||◌, ◌≡◌, refl, sym, ◌∙◌, ◌↔◌, List, [], All, any, all, is_empty,
  eq_nil_of_is_empty, is_none, contains, All-map, any-eq-false_iff, or_false_iff, and_iff, arith,
}
use agent_crypto.Domain.{ReferencePriceSnapshot, ReferencePriceObservation}
use agent_crypto.Gate.Inputs.Reference.{IsFresh, reference_price_failures-eq-nil_iff}
use agent_crypto.Numbers.{Numbers}
use agent_crypto.Numbers.Ranges.{is_true_iff}
use agent_crypto.Domain.{alert}
use agent_crypto.Patterns.{has_ink}
use agent_crypto.Policy.{RiskPolicy}
use agent_crypto.Gate.{
  raised_flags, veto_flags, Request, standing_vetoes, reference_flags, metrics_valid,
  decision_valid, additional_veto_valid, history_short, quality_low, vetoed, evaluate,
}
use agent_crypto.Gate.Hits.{
  Passes, hits, Quiet, quiet_iff, input_fine_iff, GoodMetrics, metric_quiet_iff, extra_nil,
  critical_nil, hits_standing,
}

module _ {N : Type 0} ⦃o : Numbers N⦄ (policy : RiskPolicy N) (r : Request N) where
  any-hits_standing :
      r.quality.critical_flags ≡ []
      → r.additional_veto_flags ≡ []
      → (fs : List String) → All (λ f. contains standing_vetoes f ≡ false) fs
      → any (hits policy r) fs ≡ false
  any-hits_standing c e fs h =
      (any-eq-false_iff (hits policy r) fs).1
        (All-map (λ f q. hits_standing policy r c e f ∙ q) fs h)

  metrics_fine :
      GoodMetrics policy r r.metrics → (is_none r.metrics || metrics_valid policy r) ≡ true
  unfolding metrics_valid
  metrics_fine (m, e, v, a, b) = rw e v

  extras_valid :
      r.additional_veto_flags ≡ []
      → all has_ink r.additional_veto_reasons ≡ true
      → additional_veto_valid policy r ≡ true
  unfolding additional_veto_valid
  extras_valid e h = rw e h

  Passes-Quiet : (Passes policy r) → (Quiet policy r)
  unfolding history_short quality_low
  Passes-Quiet p =
      let silent = any-hits_standing p.no_critical p.no_extra in
      let extras = extras_valid p.no_extra p.extra_reasons in
      let fine = (input_fine_iff policy r).1 (
        p.quality,
        metrics_fine p.metrics,
        p.time,
        p.fingerprint,
        p.listed,
        rw p.attested refl,
        extras,
      ) in
      (
        rw p.quality (silent r.quality.flags p.quiet_flags),
        rw p.reference refl,
        fine,
        rw p.attested refl,
        rw (extras, p.no_extra) refl,
        p.asset,
        p.interval,
        rw (p.quality, p.history) refl,
        rw (p.quality, p.score) refl,
        (metric_quiet_iff policy r r.metrics).1 p.metrics,
      )

  Passes-not_vetoed : (Passes policy r) → vetoed policy r ≡ false
  unfolding vetoed
  Passes-not_vetoed p = rw p.reference ((quiet_iff policy r).1 (Passes-Quiet p))

  Quiet-Passes :
      (Quiet policy r)
      → is_empty (reference_flags policy r) ≡ true
      → decision_valid policy r ≡ true
      → (Passes policy r)
  unfolding history_short quality_low additional_veto_valid
  Quiet-Passes (flags, refs, fine, attested, extra, asset, interval, history, low, metrics) e d =
      let (q, m, t, f, d', b, v) = (input_fine_iff policy r).0 fine in
      let flags' : any (hits policy r) r.quality.flags ≡ false = rw q at flags in
      let no_critical = critical_nil policy r r.quality.critical_flags refl q flags' in
      let no_extra = extra_nil policy r r.additional_veto_flags refl v extra in
      record {
        quality = q;
        quiet_flags =
            All-map (λ g miss. sym (hits_standing policy r no_critical no_extra g) ∙ miss)
              r.quality.flags ((any-eq-false_iff (hits policy r) _).0 flags');
        no_critical = no_critical;
        reference = eq_nil_of_is_empty (reference_flags policy r) e;
        metrics = (metric_quiet_iff policy r r.metrics).0 metrics;
        time = t;
        fingerprint = f;
        listed = d';
        attested = (is_true_iff _).0 attested;
        no_extra = no_extra;
        extra_reasons = ((and_iff _ _).0 v).1;
        asset = asset;
        interval = interval;
        history = ((or_false_iff _ _).0 history).1;
        score = ((or_false_iff _ _).0 low).1;
      }

  passes_of : vetoed policy r ≡ false → decision_valid policy r ≡ true → (Passes policy r)
  unfolding vetoed
  passes_of h d =
      let refs : not (is_empty (reference_flags policy r)) ≡ false = ((or_false_iff _ _).0 h).0 in
      let flags : any (contains (veto_flags policy r)) (raised_flags policy r) ≡ false =
        ((or_false_iff _ _).0 h).1 in
      Quiet-Passes ((quiet_iff policy r).0 flags) (ground arith) d

  -- The gate answers ALERT exactly when an alert was proposed and no test objects: the quality report
  -- is valid, has no critical flag and none of the standing vetoes, meets the history and score
  -- limits; one fresh reference price is there; the metrics are valid and inside their limits; the
  -- times, the fingerprint, the asset and the interval are allowed; the source is attested; and no
  -- further veto was passed in.
  pub evaluate-eq-alert_iff :
      (uuid policy_hash : String)
      → ((evaluate policy r uuid policy_hash).decision ≡ alert)
        ↔ ((r.proposed_decision ≡ alert) × (Passes policy r))
  unfolding evaluate
  evaluate-eq-alert_iff uuid policy_hash = (
    (λ h. (ground arith, passes_of (ground arith) (ground arith))),
    λ (e, p). let free = Passes-not_vetoed p in let listed = p.listed in ground arith,
  )

  -- A request that passes has one fresh reference price.
  pub Passes-IsFresh :
      Passes policy r
      → (s : ReferencePriceSnapshot N) × (x : ReferencePriceObservation N) × (r.reference_price
          ≡ some s)
        × IsFresh r.symbol r.as_of policy s x
  unfolding reference_flags
  Passes-IsFresh h =
      (reference_price_failures-eq-nil_iff r.symbol r.as_of policy r.reference_price).0 h.reference
