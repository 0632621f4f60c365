-- ===== src/Orchestrator/Accepted.antt =====
-- A batch that the T4 provider answers is one that the orchestrator attests.
use agent_crypto.Base.{
  ℕ, suc, ◌-◌, ◌≤◌, String, Bool, true, false, ◌&&◌, ◌||◌, ◌==◌, not, ◌≡◌, ◌⊎◌, refl, ap, subst,
  ◌∙◌, Option, none, some, List, [], ◌∷◌, All, length, drop, leb, map, all, arith, ℤ, negsuc, eqb_ℤ,
  and_iff, inl, inr, text_eq, pos, is_some,
}
use agent_crypto.Numbers.{
  Numbers, Value, number, text, is_int, equals_int, is_text, is_true, is_false, is_absent, eq_value,
}
use agent_crypto.Numbers.Laws.{EqLaws}
use agent_crypto.Domain.{Candle}
use agent_crypto.Futures.Book.{t4_source_id}
use agent_crypto.Providers.{FetchRequest, ProviderBatch, answered, plus500_t4, get, several}
use agent_crypto.Providers.T4.{fetch_batch, batch_of, batch_metadata, last_of}
use agent_crypto.Providers.T4.Response.{
  t4_venue_id, Bridge, Envelope, Payload, envelope_attested, selection_attested,
  environment_allowed, ends_with_id,
}
use agent_crypto.Providers.T4.Reading.{scalar_at, opaque_t4_id}
use agent_crypto.Providers.T4.Evidence.{}
use agent_crypto.Orchestrator.Attested.{
  eq_candles, is_named, ends_in, source_attested, batch_attested, only_source, reference_attested,
  evidence_attested, identity_attested, market_attested, market_ids_attested, roll_attested,
}
use agent_crypto.Orchestrator.Payloads.{fetch_batch-Read}
use agent_crypto.Orchestrator.Readings.{
  All-drop, length-drop, ends-drop, opaque-named, is_opaque-ne-empty, IsOwn,
}
use agent_crypto.Orchestrator.Usable.{Usable, payload-Usable}

known_int : (z : ℤ) (n : ℕ) → eqb_ℤ z (pos n) ≡ true → z ≡ pos n
known_int (pos m) n h = ap pos (ground arith)
known_int (negsuc m) n h = absurd (ground arith)

at_least : (m n : ℕ) → m ≤ n → leb m n ≡ true
at_least m n h = ground arith

same_count : (m n : ℕ) → m ≡ n → (m == n) ≡ true
same_count m n h = ground arith

right_holds : (a b : Bool) → b ≡ true → (a || b) ≡ true
right_holds a b h = ground arith

int_cases : (r : Option ℤ) → (r ≡ none) ⊎ ((z : ℤ) × (r ≡ some z))
int_cases none = inl refl
int_cases (some z) = inr (z, refl)

module _ (N : Type 0) where
  texts : List String → List (Value N)
  texts ids = map text ids

  length-texts : (ids : List String) → length (texts ids) ≡ length ids
  unfolding texts
  length-texts [] = refl
  length-texts (s ∷ ids) = omega (arith, length-texts ids)

module _ (N : Type 0) ⦃o : Numbers N⦄ where
  texts-named :
      (ids : List String) → All (λ s. text_eq s "" ≡ false) ids → all is_named (texts N ids) ≡ true
  unfolding texts
  texts-named [] h = refl
  texts-named (s ∷ ids) (h, hs) = let rest = texts-named ids hs in ground arith

  ends_in-texts :
      (s : String) (ids : List String)
      → ends_with_id s ids ≡ true
      → ends_in (texts N ids) (text s) ≡ true
  unfolding texts
  ends_in-texts s [] h = ground arith
  ends_in-texts s (x ∷ []) h = h
  ends_in-texts s (x ∷ y ∷ ids) h = ends_in-texts s (y ∷ ids) h

module _ {N : Type 0} ⦃o : Numbers N⦄ where
  equals_int_of_is_int :
      (laws : EqLaws o) (n : ℕ) (v : Value N) → is_int n v ≡ true → equals_int n v ≡ true
  unfolding is_int
  equals_int_of_is_int laws n (number x) h = elim (int_cases (o.int? x)) [
    | inl no_int ↦ absurd (ground arith)
    | inr (z, is) ↦
        let same = known_int z n (ground arith) in laws.eq-integer x (pos n) (is ∙ ap some same)
  ]
  equals_int_of_is_int laws n _ h = ground arith

  own-eq_candles : (cs : List (Candle N)) → All IsOwn cs → eq_candles cs cs ≡ true
  unfolding eq_candles
  own-eq_candles [] h = refl
  own-eq_candles (c ∷ cs) (h, hs) = let rest = own-eq_candles cs hs in ground arith

  own-sources :
      (cs : List (Candle N)) → All IsOwn cs → all (λ c. text_eq c.source t4_source_id) cs ≡ true
  own-sources [] h = refl
  own-sources (c ∷ cs) (h, hs) = let rest = own-sources cs hs in ground arith

  module _ (b : Bridge N) (q : FetchRequest) where
    rolled_named : (v : Value N) → is_some (opaque_t4_id 256 v) ≡ true → is_named v ≡ true
    unfolding opaque_t4_id
    rolled_named (text t) h = let named = is_opaque-ne-empty 256 t in ground arith
    rolled_named _ h = cc

    -- A selection that the provider accepts is one that the orchestrator accepts.
    selection-attested :
        (selection rolled : Value N) (market : String)
        → selection_attested b q selection rolled market ≡ true
        → ((is_text "front_month" selection && is_absent rolled)
            || (is_text "rolled" selection
                && (is_named rolled && not (eq_value rolled (text market)))))
          ≡ true
    unfolding selection_attested
    selection-attested selection rolled market h = let named = rolled_named rolled in ground arith

    -- The tests of the envelope that the orchestrator repeats.
    envelope-facts :
        (e : Envelope N)
        → envelope_attested b q e.fields e.scope.market_id e.roll_at e.expires_at ≡ true
        → (is_int 5 (scalar_at e.fields "schema_version") ≡ true)
          × (is_text t4_source_id (scalar_at e.fields "source_id") ≡ true)
          × (is_text t4_venue_id (scalar_at e.fields "venue_id") ≡ true)
          × (is_true (scalar_at e.fields "read_only") ≡ true)
          × (is_false (scalar_at e.fields "order_routes_exposed") ≡ true)
          × (environment_allowed b q (scalar_at e.fields "environment") ≡ true)
          × (selection_attested b q
                (scalar_at e.fields "contract_selection")
                (scalar_at e.fields "rolled_from_market_id")
                e.scope.market_id
              ≡ true)
    unfolding envelope_attested
    envelope-facts e h =
        let (schema, h1) = (and_iff _ _).0 h in
        let (source, h2) = (and_iff _ _).0 h1 in
        let (venue, h3) = (and_iff _ _).0 h2 in
        let (read_only, h4) = (and_iff _ _).0 h3 in
        let (routes, h5) = (and_iff _ _).0 h4 in
        let (environment, h6) = (and_iff _ _).0 h5 in
        let (_, h7) = (and_iff _ _).0 h6 in
        let (_, h8) = (and_iff _ _).0 h7 in
        let (selected, _) = (and_iff _ _).0 h8 in
        (schema, source, venue, read_only, routes, environment, selected)

    -- The batch of a payload, and the tests on it one by one.
    module _ (laws : EqLaws o) (p : Payload N) (known : Usable b q p) where
      abbrev at : String → Value N
      at = scalar_at p.envelope.fields

      schema_is_5 : is_int 5 (at "schema_version") ≡ true
      schema_is_5 = (envelope-facts p.envelope known.0.0).0

      is_5 : equals_int 5 (at "schema_version") ≡ true
      is_5 = equals_int_of_is_int laws 5 (at "schema_version") schema_is_5

      identity_lem : identity_attested plus500_t4 (batch_of b q p) ≡ true
      unfolding identity_attested batch_of batch_metadata get
      identity_lem =
          let (_, source, venue, read_only, routes, _, _) = envelope-facts p.envelope known.0.0 in
          (and_iff _ _).1 (read_only, (and_iff _ _).1 (source, (and_iff _ _).1 (venue, routes)))

      evidence_lem : evidence_attested plus500_t4 (batch_of b q p) ≡ true
      unfolding evidence_attested batch_of batch_metadata get
      evidence_lem = let v5 = is_5 in ground arith

      roll_lem : roll_attested plus500_t4 (batch_of b q p) ≡ true
      unfolding roll_attested batch_of batch_metadata get
      roll_lem =
          let v5 = is_5 in
          let (_, _, _, _, _, _, selected) = envelope-facts p.envelope known.0.0 in
          let ok =
            selection-attested (at "contract_selection") (at "rolled_from_market_id")
              p.envelope.scope.market_id selected in
          rw v5 ok

      window_lem :
          (m : ℕ)
          → suc m ≡ q.limit
          → q.limit ≤ length p.candles
          → market_ids_attested
              (several (texts N (last_of q.limit p.market_ids)))
              (length (last_of q.limit p.candles))
              (text p.envelope.scope.market_id)
            ≡ true
      unfolding market_ids_attested
      window_lem m limit enough =
          let (_, _, named, ends, as_many, _) = known in
          let ids = drop (length p.market_ids - q.limit) p.market_ids in
          let all_named = texts-named N ids (
            All-drop (λ s. text_eq s "" ≡ false) (length p.market_ids - q.limit) p.market_ids
              named) in
          let ending = ends_in-texts N p.envelope.scope.market_id ids (
            ends-drop p.envelope.scope.market_id (length p.market_ids - q.limit) p.market_ids
              (omega arith) ends) in
          let count = length-texts N ids in
          let first = length-drop (length p.market_ids - q.limit) p.market_ids in
          let second = length-drop (length p.candles - q.limit) p.candles in
          let same : length (texts N ids) ≡ length (drop (length p.candles - q.limit) p.candles) =
            omega arith in
          (and_iff _ _).1 (same_count _ _ same, (and_iff _ _).1 (all_named, ending))

      market_lem :
          (m : ℕ)
          → suc m ≡ q.limit
          → q.limit ≤ length p.candles
          → market_attested plus500_t4 (batch_of b q p) ≡ true
      unfolding market_attested batch_of batch_metadata get environment_allowed texts
      market_lem m limit enough =
          let (_, _, _, _, _, environment, _) = envelope-facts p.envelope known.0.0 in
          let market = opaque-named 256 (at "market_id") p.envelope.scope.market_id known.0.3 in
          let exchange =
            opaque-named 64 (at "exchange_id") p.envelope.scope.exchange_id known.0.1 in
          let window = window_lem m limit enough in
          right_holds _ _ (
            (and_iff _ _).1 (
              environment,
              (and_iff _ _).1 (ap not exchange, (and_iff _ _).1 (ap not market, window)),
            ))

      batch-attested :
          (m : ℕ)
          → suc m ≡ q.limit
          → 120 ≤ q.limit
          → q.limit ≤ length p.candles
          → (required : Value N) → is_int 1 required ≡ true
          → batch_attested plus500_t4 (batch_of b q p) required ≡ true
      unfolding batch_attested batch_of batch_metadata get only_source reference_attested
      batch-attested m limit many enough required one =
          let cs = drop (length p.candles - q.limit) p.candles in
          let own = All-drop IsOwn (length p.candles - q.limit) p.candles known.1 in
          let count = length-drop (length p.candles - q.limit) p.candles in
          let contract =
            opaque-named 128 (at "contract_id") p.envelope.scope.contract_id known.0.2 in
          (and_iff _ _).1 (
            one,
            (and_iff _ _).1 (
              refl,
              (and_iff _ _).1 (
                at_least 120 (length cs) (omega arith),
                (and_iff _ _).1 (
                  own-eq_candles cs own,
                  (and_iff _ _).1 (
                    own-sources cs own,
                    (and_iff _ _).1 (
                      known.5,
                      (and_iff _ _).1 (
                        identity_lem,
                        (and_iff _ _).1 (
                          evidence_lem,
                          (and_iff _ _).1 (
                            ap not contract,
                            (and_iff _ _).1 (market_lem m limit enough, roll_lem),
                          ),
                        ),
                      ),
                    ),
                  ),
                ),
              ),
            ),
          )

  -- Whatever the bridge answers, a batch that `fetch_batch` makes of it, for a request of at least 120
  -- candles, is attested for the orchestrator, when one source is required and numbers obey `EqLaws`.
  pub fetch_batch-attested :
      (laws : EqLaws o) (b : Bridge N) (q : FetchRequest) (x : ProviderBatch N) (required : Value N)
      → fetch_batch b q ≡ answered (some x)
      → 120 ≤ q.limit
      → is_int 1 required ≡ true
      → source_attested plus500_t4 (some x) required ≡ true
  unfolding source_attested
  fetch_batch-attested laws b q x required h many one =
      let (json, p, read, enough, same) = fetch_batch-Read b q x h in
      subst (λ y. batch_attested plus500_t4 y required ≡ true) same
        (batch-attested b q laws p (payload-Usable b q laws json p read) (q.limit - 1) (omega arith)
          many enough required one)
