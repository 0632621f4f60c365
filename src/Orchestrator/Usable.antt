-- ===== src/Orchestrator/Usable.antt =====
-- What the provider's reading of a payload (src/crypto_agent/providers/t4.py) tells of it.
use agent_crypto.Base.{
  String, Bool, true, false, ◌≡◌, refl, sym, subst, ◌∙◌, some, All, length, text_eq, text_eq_refl,
}
use agent_crypto.Numbers.{Numbers, is_text}
use agent_crypto.Numbers.Laws.{EqLaws}
use agent_crypto.Domain.{ReferencePriceObservation}
use agent_crypto.Futures.Book.{t4_source_id}
use agent_crypto.Providers.{FetchRequest}
use agent_crypto.Providers.T4.{}
use agent_crypto.Providers.T4.Response.{
  Bridge, Envelope, Payload, read_envelope, read_payload, envelope_attested, market_of,
  ends_with_id,
}
use agent_crypto.Providers.T4.Reading.{
  Json, scalar_at, opaque_t4_id, utc_of, require, number_in, as_object,
}
use agent_crypto.Providers.T4.Evidence.{parse_candle, parse_reference}
use agent_crypto.Orchestrator.Payloads.{bound_of, payload-IsRead}
use agent_crypto.Orchestrator.Readings.{each-All, length-each, opaque-named, IsOwn, candle-IsOwn}

some_inj : {A : Type 0} {x y : A} → some x ≡ some y → x ≡ y
some_inj h = cc

module _ {N : Type 0} ⦃o : Numbers N⦄ (b : Bridge N) (q : FetchRequest) where
  -- What the checks on the envelope tell.
  abbrev pub Checked : Envelope N → Type 0
  Checked e =
      (envelope_attested b q e.fields e.scope.market_id e.roll_at e.expires_at ≡ true)
      × (opaque_t4_id 64 (scalar_at e.fields "exchange_id") ≡ some e.scope.exchange_id)
      × (opaque_t4_id 128 (scalar_at e.fields "contract_id") ≡ some e.scope.contract_id)
      × (opaque_t4_id 256 (scalar_at e.fields "market_id") ≡ some e.scope.market_id)

  require_of : (c : Bool) (x : Unit {0}) → require c ≡ some x → c ≡ true
  require_of true x h = refl
  require_of false x h = cc

  envelope-Checked : (j : Json N) (e : Envelope N) → read_envelope b q j ≡ some e → Checked e
  unfolding read_envelope
  envelope-Checked j e h =
      let (fields, e0, h0) = bound_of (as_object j) _ e h in
      let (expires, e1, h1) =
        bound_of (utc_of b.parse (scalar_at fields "contract_expires_at")) _ e h0 in
      let (roll, e2, h2) = bound_of (utc_of b.parse (scalar_at fields "contract_roll_at")) _ e h1 in
      let (exchange, e3, h3) = bound_of (opaque_t4_id 64 (scalar_at fields "exchange_id")) _ e h2 in
      let (contract, e4, h4) =
        bound_of (opaque_t4_id 128 (scalar_at fields "contract_id")) _ e h3 in
      let (market, e5, h5) = bound_of (opaque_t4_id 256 (scalar_at fields "market_id")) _ e h4 in
      let (u, e6, h6) =
        bound_of (require (envelope_attested b q fields market roll expires)) _ e h5 in
      let passed = require_of _ u e6 in subst Checked (some_inj h6) (passed, e3, e4, e5)

  -- What the reading of a payload tells of it.
  abbrev pub Usable : Payload N → Type 0
  Usable p =
      Checked p.envelope
      × All IsOwn p.candles
      × All (λ s. text_eq s "" ≡ false) p.market_ids
      × (ends_with_id p.envelope.scope.market_id p.market_ids ≡ true)
      × (length p.market_ids ≡ length p.candles)
      × (text_eq p.reference.source t4_source_id ≡ true)

  reference-own :
      (k : Json N) (r : ReferencePriceObservation N)
      → parse_reference b.parse q.symbol k ≡ some r
      → text_eq r.source t4_source_id ≡ true
  unfolding parse_reference
  reference-own k r h =
      let (fields, e0, h0) = bound_of (as_object k) _ r h in
      let (_, _, h1) =
        bound_of (require (is_text t4_source_id (scalar_at fields "source"))) _ r h0 in
      let (_, _, h2) = bound_of (require (is_text q.symbol (scalar_at fields "symbol"))) _ r h1 in
      let (_, _, h3) = bound_of (number_in (scalar_at fields "price")) _ r h2 in
      let (_, _, h4) = bound_of (utc_of b.parse (scalar_at fields "event_time")) _ r h3 in
      let (_, _, h5) = bound_of (utc_of b.parse (scalar_at fields "available_at")) _ r h4 in
      let (_, _, h6) = bound_of (utc_of b.parse (scalar_at fields "ingested_at")) _ r h5 in
      subst (λ y. text_eq y.source t4_source_id ≡ true) (some_inj h6) (text_eq_refl t4_source_id)

  market-named : (j : Json N) (s : String) → market_of b q j ≡ some s → text_eq s "" ≡ false
  unfolding market_of
  market-named j s h =
      let (fields, _, h0) = bound_of (as_object j) _ s h in
      opaque-named 256 (scalar_at fields "market_id") s h0

  pub payload-Usable :
      EqLaws o → (json : Json N) (p : Payload N) → read_payload b q json ≡ some p → Usable p
  payload-Usable laws json p h =
      let ((j, opened), (raw, ids, candles, ends), (k, reference)) = payload-IsRead b q json p h in
      (
        envelope-Checked j p.envelope opened,
        each-All (parse_candle b.parse q.symbol q.interval_minutes) IsOwn
            (candle-IsOwn laws b.parse q.symbol q.interval_minutes) raw p.candles candles,
        each-All (market_of b q) (λ s. text_eq s "" ≡ false) market-named raw p.market_ids ids,
        ends,
        length-each (market_of b q) raw p.market_ids ids
            ∙ sym (
                length-each (parse_candle b.parse q.symbol q.interval_minutes) raw p.candles
                  candles),
        reference-own k p.reference reference,
      )
