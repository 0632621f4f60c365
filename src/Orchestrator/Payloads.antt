-- ===== src/Orchestrator/Payloads.antt =====
-- What the T4 provider fetches is what the orchestrator attests.
use agent_crypto.Base.{
  ◌≤◌, String, Bool, true, false, ◌≡◌, refl, sym, ap, subst, ◌∙◌, Option, none, some, List, length,
  arith, if◌then◌else◌, ◌>>=◌,
}
use agent_crypto.Numbers.{Numbers}
use agent_crypto.Domain.{Candle}
use agent_crypto.Deadline.{
  Outcome, returned, value_error, zero_division, deadline_exceeded, ensure_analysis_deadline,
  bounded_analysis_timeout,
}
use agent_crypto.Providers.{
  FetchRequest, ProviderBatch, ProviderError, Answer, answered, provider_error, out_of_time,
  other_error,
}
use agent_crypto.Providers.T4.{
  fetch_batch, request_bridge, read_reply, checked_batch, request_refusal, batch_of,
}
use agent_crypto.Providers.T4.Response.{
  Bridge, Reply, body, http_error, no_reply, Payload, Envelope, read_history, read_parts,
  read_payload, read_envelope, market_of, ends_with_id,
}
use agent_crypto.Providers.T4.Reading.{Json, array, scalar, object, listed, each, at_key}
use agent_crypto.Providers.T4.Evidence.{parse_candle, parse_reference}

unless :
    {N A : Type 0} (c : Bool) (e : ProviderError N) (y : Answer N A) (z : A)
    → (if c then provider_error e else y) ≡ answered z
    → (c ≡ false) × (y ≡ answered z)
unless true e y z h = cc
unless false e y z h = (refl, h)

pub bound_of :
    {A B : Type 0} (a : Option A) (k : A → Option B) (y : B)
    → (a >>= k) ≡ some y
    → (x : A) × (a ≡ some x) × (k x ≡ some y)
bound_of none k y h = cc
bound_of (some x) k y h = (x, refl, h)

refused-absurd :
    {N A : Type 0} (e : ProviderError N) (z : A)
    → ◌≡◌ {A = Answer N A} (provider_error e) (answered z)
    → ⊥
refused-absurd e z h = cc

-- An answer that the deadline lets pass.
passed :
    {N A : Type 0} (u : Outcome (Unit {0})) (y : Answer N A) (z : A)
    → (elim u [ returned _ ↦ y | _ ↦ out_of_time ]) ≡ answered z
    → y ≡ answered z
passed (returned v) y z h = h
passed (value_error m) y z h = cc
passed zero_division y z h = cc
passed deadline_exceeded y z h = cc

module _ {N : Type 0} ⦃o : Numbers N⦄ (b : Bridge N) (q : FetchRequest) where
  -- The batch was made of a payload with enough candles.
  abbrev pub Read : ProviderBatch N → Type 0
  Read x =
      (json : Json N) × (p : Payload N) × (read_payload b q json ≡ some p)
      × (q.limit ≤ length p.candles)
      × (batch_of b q p ≡ x)

  checked_batch-Read :
      (json : Json N) (r : Option (Payload N)) (x : ProviderBatch N)
      → read_payload b q json ≡ r
      → checked_batch b q r ≡ answered (some x)
      → Read x
  unfolding checked_batch
  checked_batch-Read json none x e h = cc
  checked_batch-Read json (some p) x e h = (json, p, e, ground arith, ground arith)

  abbrev late : Outcome (Unit {0})
  late = ensure_analysis_deadline b.deadline (b.monotonic 2)

  read_reply-Read :
      (r : Reply N) (x : ProviderBatch N) → read_reply b q r ≡ answered (some x) → Read x
  unfolding read_reply checked_batch
  read_reply-Read (body size none) x h =
      absurd (refused-absurd _ _ (unless _ _ _ _ (passed late _ _ h)).1)
  read_reply-Read (body size (some json)) x h =
      checked_batch-Read json (read_payload b q json) x refl (unless _ _ _ _ (passed late _ _ h)).1
  read_reply-Read (http_error status reason) x h = absurd (refused-absurd _ _ (passed late _ _ h))
  read_reply-Read no_reply x h = absurd (refused-absurd _ _ (passed late _ _ h))

  replied-Read :
      (t : Outcome N) (x : ProviderBatch N)
      → (elim t [
        | returned timeout ↦ read_reply b q (b.reply q timeout)
        | deadline_exceeded ↦ out_of_time
        | _ ↦ other_error
      ])
        ≡ answered (some x)
      → Read x
  replied-Read (returned timeout) x h = read_reply-Read (b.reply q timeout) x h
  replied-Read (value_error m) x h = cc
  replied-Read zero_division x h = cc
  replied-Read deadline_exceeded x h = cc

  started-Read :
      (u : Outcome (Unit {0})) (t : Outcome N) (x : ProviderBatch N)
      → (elim u [
        | returned _ ↦ elim t [
          | returned timeout ↦ read_reply b q (b.reply q timeout)
          | deadline_exceeded ↦ out_of_time
          | _ ↦ other_error
        ]
        | _ ↦ out_of_time
      ])
        ≡ answered (some x)
      → Read x
  started-Read (returned v) t x h = replied-Read t x h
  started-Read (value_error m) t x h = cc
  started-Read zero_division t x h = cc
  started-Read deadline_exceeded t x h = cc

  admitted-Read :
      (e : Option (ProviderError N)) (x : ProviderBatch N)
      → (elim e [ some r ↦ provider_error r | none ↦ request_bridge b q ]) ≡ answered (some x)
      → Read x
  unfolding request_bridge
  admitted-Read (some r) x h = cc
  admitted-Read none x h =
      started-Read (ensure_analysis_deadline b.deadline (b.monotonic 0))
        (bounded_analysis_timeout b.timeout_seconds b.deadline (b.monotonic 1)) x h

  pub fetch_batch-Read : (x : ProviderBatch N) → fetch_batch b q ≡ answered (some x) → Read x
  unfolding fetch_batch
  fetch_batch-Read x h = admitted-Read (request_refusal b q) x h

  -- How the candles and their markets were read.
  abbrev pub History : String → List String → List (Candle N) → Type 0
  History market ids candles =
      (raw : List (Json N)) × (each (market_of b q) raw ≡ some ids)
      × (each (parse_candle b.parse q.symbol q.interval_minutes) raw ≡ some candles)
      × (ends_with_id market ids ≡ true)

  read_history-History :
      (market : String) (value : Json N) (ids : List String) (candles : List (Candle N))
      → read_history b q market value ≡ some (ids, candles)
      → History market ids candles
  unfolding read_history
  read_history-History market (array items) ids candles h =
      (listed items, ground arith, ground arith, ground arith)
  read_history-History market (scalar v) ids candles h = cc
  read_history-History market (object _) ids candles h = cc

  read_parts_lem :
      (e : Envelope N) (ids : List String) (cs : List (Candle N)) (p : Payload N)
      → read_parts b q e ids cs ≡ some p
      → (p.envelope ≡ e)
        × (p.market_ids ≡ ids)
        × (p.candles ≡ cs)
        × (parse_reference b.parse q.symbol (at_key e.fields "reference_price") ≡ some p.reference)
  unfolding read_parts
  read_parts_lem e ids cs p h = (ground arith, ground arith, ground arith, ground arith)

  pub payload-IsRead :
      (json : Json N) (p : Payload N)
      → read_payload b q json ≡ some p
      → ((j : Json N) × (read_envelope b q j ≡ some p.envelope))
        × History p.envelope.scope.market_id p.market_ids p.candles
        × ((k : Json N) × (parse_reference b.parse q.symbol k ≡ some p.reference))
  unfolding read_payload
  payload-IsRead json p h =
      let (e, opened, h1) =
        bound_of (read_envelope b q json)
          (λ e.
            (read_history b q e.scope.market_id (at_key e.fields "candles") >>= λ history.
            read_parts b q e history.0 history.1))
          p h in
      let (history, told, h2) =
        bound_of (read_history b q e.scope.market_id (at_key e.fields "candles"))
          (λ history. read_parts b q e history.0 history.1) p h1 in
      let (same_envelope, same_ids, same_candles, reference) =
        read_parts_lem e history.0 history.1 p h2 in
      let read =
        read_history-History e.scope.market_id (at_key e.fields "candles") history.0 history.1
          told in
      (
        (json, opened ∙ ap some (sym same_envelope)),
        subst (λ x. History x.scope.market_id p.market_ids p.candles) (sym same_envelope)
            (subst (λ x. History e.scope.market_id x p.candles) (sym same_ids)
              (subst (λ x. History e.scope.market_id history.0 x) (sym same_candles) read)),
        (at_key e.fields "reference_price", reference),
      )
