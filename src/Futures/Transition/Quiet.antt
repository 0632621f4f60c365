-- ===== src/Futures/Transition/Quiet.antt =====
-- When the evidence of a roll raises no flag.
use agent_crypto.Base.{
  ◌≤◌, true, false, and_iff, ◌≡◌, ◌↔◌, ◌⊎◌, inl, inr, refl, arith, Option, none, some, [],
  text_eq_iff, sym, subst,
}
use mathlib.Core.Option.{some-injective}
use agent_crypto.Numbers.{Numbers, text, number_of, is_text}
use agent_crypto.Numbers.Ranges.{IsFinitePos, finite_positive_iff, is_text_iff}
use agent_crypto.Clock.{Datetime, is_utc}
use agent_crypto.Domain.{available, not_applicable, ContractTransitionEvidence, FuturesEvidence}
use agent_crypto.Futures.Policy.{FuturesAnalysisPolicy}
use agent_crypto.Futures.Book.{t4_source_id, timestamp_chain}
use agent_crypto.Futures.Lifecycle.{Contract}
use agent_crypto.Futures.Snapshot.{close_in_time}
use agent_crypto.Futures.Transition.{
  close_to, transition_sound, roll_impact, rolled_metrics, transition_metrics,
}

module _ {N : Type 0} ⦃o : Numbers N⦄ (policy : FuturesAnalysisPolicy N) (as_of : Datetime) where
  -- Ten thousand times the relative change of the price.
  abbrev pub impact_of : ContractTransitionEvidence N → N
  impact_of t =
      o.mul (o.decimal 10000 0)
        (o.sub (o.div (number_of t.to_price) (number_of t.from_price)) (o.decimal 1 0))

  -- A roll from the contract that is named to this one, at two positive mid prices of the source, of which
  -- the second is that of the book; observed, published and taken in, in UTC, in this order and before
  -- the analysis; observed with the snapshot; and of an impact that is finite and in bounds.
  pub record IsSoundRoll (t : ContractTransitionEvidence N) (e : FuturesEvidence N) (mid : Option N)
      (c : Contract N) : Type 0 where
    pub from_contract : c.rolled_from ≡ text t.from_contract_id
    pub to_contract : c.contract_id ≡ text t.to_contract_id
    pub kind : t.price_type ≡ "mid"
    pub source : t.source ≡ t4_source_id
    pub from_price : IsFinitePos t.from_price
    pub to_price : IsFinitePos t.to_price
    pub book : (x : N) × (mid ≡ some x) × (o.is_close (number_of t.to_price) x ≡ true)
    pub utc_times :
        (is_utc as_of ≡ true)
        × (is_utc t.observed_at ≡ true)
        × (is_utc t.available_at ≡ true)
        × (is_utc t.ingested_at ≡ true)
    pub order :
        (t.observed_at.instant ≤ t.available_at.instant)
        × (t.available_at.instant ≤ t.ingested_at.instant)
        × (t.ingested_at.instant ≤ as_of.instant)
    pub together :
        o.le
          (o.abs (o.seconds_between e.observed_at.instant t.observed_at.instant))
          (number_of policy.max_timestamp_skew_seconds)
        ≡ true
    pub finite : o.is_finite (impact_of t) ≡ true
    pub bounded : o.lt (number_of policy.max_absolute_roll_impact_bps) (o.abs (impact_of t)) ≡ false

  -- No transition for a front-month contract, or a sound one for a rolled contract.
  abbrev pub RollIsFine :
      Option (ContractTransitionEvidence N) → FuturesEvidence N → Option N → Contract N → Type 0
  RollIsFine t e mid c =
      ((c.selection ≡ text "front_month") × (t ≡ none))
      ⊎ ((s : ContractTransitionEvidence N) × (t ≡ some s)
          × (c.selection ≡ text "rolled")
          × IsSoundRoll s e mid c)

  chain_iff :
      (a b c : Datetime)
      → (timestamp_chain a b c as_of ≡ true) ↔ (
          ((is_utc as_of ≡ true) × (is_utc a ≡ true) × (is_utc b ≡ true) × (is_utc c ≡ true))
          × ((a.instant ≤ b.instant) × (b.instant ≤ c.instant) × (c.instant ≤ as_of.instant)))
  unfolding timestamp_chain
  chain_iff a b c = (
    (λ h. (
      (ground arith, ground arith, ground arith, ground arith),
      (ground arith, ground arith, ground arith),
    )),
    λ ((u, ua, ub, uc), (x, y, z)). ground arith,
  )

  close_to_iff :
      (x : N) (mid : Option N)
      → (close_to x mid ≡ true) ↔ ((y : N) × (mid ≡ some y) × (o.is_close x y ≡ true))
  close_to_iff x none = ((λ h. cc), λ (y, e, h). cc)
  close_to_iff x (some y) = ((λ h. (y, refl, h)), λ (z, e, h). ground arith)

  module _ (t : ContractTransitionEvidence N) (e : FuturesEvidence N) (mid : Option N)
      (c : Contract N) where
    -- The tests of a rolled contract pass.
    abbrev Tested : Type 0
    Tested =
        (transition_sound t c mid as_of ≡ true)
        × (close_in_time policy as_of t.observed_at e.observed_at policy.max_timestamp_skew_seconds
            ≡ true)
        × (o.is_finite (roll_impact t) ≡ true)
        × (o.lt (number_of policy.max_absolute_roll_impact_bps) (o.abs (roll_impact t)) ≡ false)

    rolled-quiet : (rolled_metrics policy as_of t e mid c).flags ≡ [] → Tested
    unfolding rolled_metrics
    rolled-quiet h = (ground arith, ground arith, ground arith, ground arith)

    rolled-available :
        Tested
        → ((rolled_metrics policy as_of t e mid c).flags ≡ [])
          × ((rolled_metrics policy as_of t e mid c).status ≡ available)
    unfolding rolled_metrics
    rolled-available (sound, near, finite, bounded) = rw (sound, near, finite, bounded) (refl, refl)

    sound_of : Tested → IsSoundRoll t e mid c
    unfolding transition_sound roll_impact close_in_time
    sound_of (sound, near, finite, bounded) =
        let (from, h1) = (and_iff _ _).0 sound in
        let (to, h2) = (and_iff _ _).0 h1 in
        let (kind, h3) = (and_iff _ _).0 h2 in
        let (source, h4) = (and_iff _ _).0 h3 in
        let (from_price, h5) = (and_iff _ _).0 h4 in
        let (to_price, h6) = (and_iff _ _).0 h5 in
        let (book, chain) = (and_iff _ _).0 h6 in
        let (utc_times, order) = (chain_iff t.observed_at t.available_at t.ingested_at).0 chain in
        record {
          from_contract = (is_text_iff _ _).0 from;
          to_contract = (is_text_iff _ _).0 to;
          kind = (text_eq_iff _ _).0 kind;
          source = (text_eq_iff _ _).0 source;
          from_price = (finite_positive_iff _).0 from_price;
          to_price = (finite_positive_iff _).0 to_price;
          book = (close_to_iff (number_of t.to_price) mid).0 book;
          utc_times = utc_times;
          order = order;
          together = near;
          finite = finite;
          bounded = bounded;
        }

    tested_of : IsSoundRoll t e mid c → Tested
    unfolding transition_sound roll_impact close_in_time
    tested_of s = (
      (and_iff _ _).1 (
        (is_text_iff _ _).1 s.from_contract,
        (and_iff _ _).1 (
          (is_text_iff _ _).1 s.to_contract,
          (and_iff _ _).1 (
            (text_eq_iff _ _).1 s.kind,
            (and_iff _ _).1 (
              (text_eq_iff _ _).1 s.source,
              (and_iff _ _).1 (
                (finite_positive_iff _).1 s.from_price,
                (and_iff _ _).1 (
                  (finite_positive_iff _).1 s.to_price,
                  (and_iff _ _).1 (
                    (close_to_iff (number_of t.to_price) mid).1 s.book,
                    (chain_iff t.observed_at t.available_at t.ingested_at).1 (s.utc_times, s.order),
                  ),
                ),
              ),
            ),
          ),
        ),
      ),
      s.together,
      s.finite,
      s.bounded,
    )

  module _ (e : FuturesEvidence N) (mid : Option N) (c : Contract N) where
    front_or_rolled :
        (s : ContractTransitionEvidence N)
        → (transition_metrics policy as_of (some s) e mid c).flags ≡ []
        → (is_text "rolled" c.selection ≡ true)
          × ((rolled_metrics policy as_of s e mid c).flags ≡ [])
    unfolding transition_metrics
    front_or_rolled s h = (ground arith, ground arith)

    only_front :
        (transition_metrics policy as_of none e mid c).flags ≡ []
        → is_text "front_month" c.selection ≡ true
    unfolding transition_metrics
    only_front h = ground arith

    front-result :
        c.selection ≡ text "front_month"
        → ((transition_metrics policy as_of none e mid c).flags ≡ [])
          × ((transition_metrics policy as_of none e mid c).status ≡ not_applicable)
    unfolding transition_metrics
    front-result h = rw h (refl, refl)

    rolled-result :
        (s : ContractTransitionEvidence N)
        → c.selection ≡ text "rolled"
        → transition_metrics policy as_of (some s) e mid c ≡ rolled_metrics policy as_of s e mid c
    unfolding transition_metrics
    rolled-result s h = rw h refl

    pub transition_metrics-quiet_iff :
        (t : Option (ContractTransitionEvidence N))
        → ((transition_metrics policy as_of t e mid c).flags ≡ []) ↔ RollIsFine t e mid c
    transition_metrics-quiet_iff none = (
      (λ h. inl ((is_text_iff _ _).0 (only_front h), refl)),
      λ fine. elim fine [ inl (front, _) ↦ (front-result front).0 | inr (s, e', _, _) ↦ cc ],
    )
    transition_metrics-quiet_iff (some s) = (
      (λ h.
          let (rolled, quiet) = front_or_rolled s h in
          inr (
            s,
            refl,
            (is_text_iff _ _).0 rolled,
            sound_of s e mid c (rolled-quiet s e mid c quiet),
          )),
      λ fine. elim fine [
        | inl (_, e') ↦ cc
        | inr (s', e', rolled, sound) ↦
            let tested =
              tested_of s e mid c
                (subst (λ x. IsSoundRoll x e mid c) (sym (some-injective _ _ e')) sound) in
            rw (rolled-result s rolled) (rolled-available s e mid c tested).0
      ],
    )
