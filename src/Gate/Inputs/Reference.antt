-- ===== src/Gate/Inputs/Reference.antt =====
-- When the reference price is accepted.
use agent_crypto.Base.{
  ◌+◌, ◌≤◌, String, true, false, ◌≡◌, refl, ◌↔◌, sym, subst, Option, none, some, List, [], ◌∷◌,
  arith, text_eq_iff,
}
use mathlib.Core.Option.{some-injective}
use agent_crypto.Numbers.{Numbers, Value, number, whole, number_of, count_of, is_finite_number}
use agent_crypto.Clock.{Datetime, is_utc, seconds}
use agent_crypto.Domain.{ReferencePriceObservation, ReferencePriceSnapshot}
use agent_crypto.Policy.{RiskPolicy}
use agent_crypto.Gate.Inputs.{
  approved_reference_source, observation_valid, observation_stale, structure_valid,
  observation_failures, reference_price_failures,
}

module _ {N : Type 0} ⦃o : Numbers N⦄ (symbol : String) (as_of : Datetime)
    (policy : RiskPolicy N) where
  -- One price of the symbol from the approved source, seen in order, at most as old as allowed.
  pub record IsFresh (s : ReferencePriceSnapshot N) (x : ReferencePriceObservation N) : Type 0 where
    pub only : s.observations ≡ x ∷ []
    pub about : (s.symbol ≡ symbol) × (x.symbol ≡ symbol)
    pub approved : x.source ≡ approved_reference_source
    pub in_utc :
        (is_utc as_of ≡ true)
        × (is_utc x.event_time ≡ true)
        × (is_utc x.available_at ≡ true)
        × (is_utc x.ingested_at ≡ true)
    pub ordered :
        (x.event_time.instant ≤ x.available_at.instant)
        × (x.available_at.instant ≤ x.ingested_at.instant)
        × (x.ingested_at.instant ≤ as_of.instant)
    pub priced :
        (p : N) × (x.price ≡ number p)
        × (o.is_finite (o.to_float p) ≡ true)
        × (o.lt (whole 0) (o.to_float p) ≡ true)
        × (o.le (o.to_float p) (number_of policy.max_market_price) ≡ true)
    pub young :
        as_of.instant
        ≤ x.event_time.instant + seconds (count_of policy.max_reference_price_age_seconds)

  -- The tests on one observation, together.
  abbrev Tested : ReferencePriceSnapshot N → ReferencePriceObservation N → Type 0
  Tested s x =
      (structure_valid s x symbol ≡ true)
      × (is_utc as_of ≡ true)
      × (observation_valid x as_of policy ≡ true)
      × (observation_stale x as_of policy ≡ false)

  Tested-iff :
      (s : ReferencePriceSnapshot N) (x : ReferencePriceObservation N)
      → ((observation_failures s (x ∷ []) symbol as_of policy).0 ≡ []) ↔ Tested s x
  unfolding observation_failures
  Tested-iff s x = ground arith

  priced_of :
      (v price : Value N)
      → v ≡ price
      → is_finite_number price ≡ true
      → o.lt (whole 0) (o.to_float (number_of price)) ≡ true
      → o.le (o.to_float (number_of price)) (number_of policy.max_market_price) ≡ true
      → (p : N) × (v ≡ number p)
        × (o.is_finite (o.to_float p) ≡ true)
        × (o.lt (whole 0) (o.to_float p) ≡ true)
        × (o.le (o.to_float p) (number_of policy.max_market_price) ≡ true)
  unfolding is_finite_number
  priced_of v (number p) e f l u = (p, e, f, l, u)
  priced_of v _ e f l u = cc

  IsFresh-of_Tested :
      (s : ReferencePriceSnapshot N) (x : ReferencePriceObservation N)
      → s.observations ≡ x ∷ []
      → Tested s x
      → IsFresh s x
  unfolding structure_valid observation_valid observation_stale is_finite_number
  IsFresh-of_Tested s x e (v, u, w, y) = record {
    only = e;
    about = ((text_eq_iff _ _).0 (ground arith), (text_eq_iff _ _).0 (ground arith));
    approved = (text_eq_iff _ _).0 (ground arith);
    in_utc = (u, ground arith, ground arith, ground arith);
    ordered = (ground arith, ground arith, ground arith);
    priced = priced_of x.price x.price refl (ground arith) (ground arith) (ground arith);
    young = ground arith;
  }

  Tested-of_fresh :
      (s : ReferencePriceSnapshot N) (x : ReferencePriceObservation N) → IsFresh s x → Tested s x
  unfolding structure_valid observation_valid observation_stale is_finite_number
  Tested-of_fresh s x f =
      let (p, e, fin, low, up) = f.priced in
      let same = (text_eq_iff s.symbol symbol).1 f.about.0 in
      let same' = (text_eq_iff x.symbol symbol).1 f.about.1 in
      let source = (text_eq_iff x.source approved_reference_source).1 f.approved in
      (rw (same, same', source, e) refl, f.in_utc.0, ground arith, ground arith)

  nothing_fails :
      (s : ReferencePriceSnapshot N) (xs : List (ReferencePriceObservation N))
      → s.observations ≡ xs
      → (observation_failures s xs symbol as_of policy).0 ≡ []
      → (x : ReferencePriceObservation N) × IsFresh s x
  nothing_fails s (x ∷ []) e h = (x, IsFresh-of_Tested s x e ((Tested-iff s x).0 h))
  nothing_fails s [] e h = unfold observation_failures in cc
  nothing_fails s (x ∷ y ∷ xs) e h = unfold observation_failures in cc

  abbrev Silent : ReferencePriceSnapshot N → Type 0
  Silent s = (observation_failures s s.observations symbol as_of policy).0 ≡ []

  fresh-Silent :
      (s : ReferencePriceSnapshot N) (x : ReferencePriceObservation N) → IsFresh s x → Silent s
  fresh-Silent s x f =
      subst (λ l. (observation_failures s l symbol as_of policy).0 ≡ []) (sym f.only)
        ((Tested-iff s x).1 (Tested-of_fresh s x f))

  -- The reference price raises no flag exactly when there is a snapshot with one fresh observation:
  -- of the symbol, from the approved source, with a positive finite price up to the limit, observed,
  -- available and ingested in this order before the decision, and not older than the age limit.
  pub reference_price_failures-eq-nil_iff :
      (snapshot : Option (ReferencePriceSnapshot N))
      → ((reference_price_failures snapshot symbol as_of policy).0 ≡ []) ↔ (
          (s : ReferencePriceSnapshot N) × (x : ReferencePriceObservation N) × (snapshot ≡ some s)
          × IsFresh s x)
  unfolding reference_price_failures
  reference_price_failures-eq-nil_iff none = ((λ h. cc), λ (s, x, e, f). cc)
  reference_price_failures-eq-nil_iff (some s) = (
    (λ h. let (x, f) = nothing_fails s s.observations refl h in (s, x, refl, f)),
    λ (s', x, e, f). subst Silent (sym (some-injective _ _ e)) (fresh-Silent s' x f),
  )
