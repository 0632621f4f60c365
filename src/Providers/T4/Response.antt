-- ===== src/Providers/T4/Response.antt =====
-- The response of the bridge in src/crypto_agent/providers/t4.py, up to the parts that `fetch_batch`
-- reads of it.
use agent_crypto.Base.{
  ℕ, String, Bool, false, ◌&&◌, ◌||◌, not, Option, some, List, [], ◌∷◌, is_empty, ◌>>=◌, text_eq,
  is_some,
}
use agent_crypto.Numbers.{Numbers, Value, is_text, is_true, is_false, is_absent, is_int}
use agent_crypto.Clock.{Datetime, before}
use agent_crypto.Domain.{Candle, ReferencePriceObservation, FuturesEvidence}
use agent_crypto.Futures.Book.{t4_source_id}
use agent_crypto.Futures.Lifecycle.{Parser}
use agent_crypto.Providers.{FetchRequest}
use agent_crypto.Providers.T4.Reading.{
  Json, Fields, require, each, at_key, scalar_at, as_object, as_list, opaque_t4_id, utc_of,
}
use agent_crypto.Providers.T4.Evidence.{
  Scope, parse_candle, parse_reference, parse_futures_evidence,
}

-- `Plus500T4Provider.venue_id`
abbrev pub t4_venue_id : String
t4_venue_id = "plus500_t4"

-- What the transport gives: the bytes, as their number and what `json.loads` makes of them (`none` is
-- its error), an HTTP error with its status and reason header, or another failure.
pub data Reply (N : Type 0) : Type 0 where
  body : ℕ → Option (Json N) → Reply N
  http_error : ℕ → String → Reply N
  no_reply : Reply N

-- The bridge's answer to a request with its time limit; the deadline, and the monotonic clock before the
-- request, at its time limit and after it; `parse` is `datetime.fromisoformat` after the replacement of
-- the `Z`.
pub record Bridge (N : Type 0) : Type 0 where
  pub timeout_seconds : Value N
  pub deadline : Option N
  pub monotonic : ℕ → N
  pub reply : FetchRequest → N → Reply N
  pub parse : Parser
  pub isoformat : Datetime → String

-- What the checks on the envelope leave.
pub record Envelope (N : Type 0) : Type 0 where
  pub fields : Fields N
  pub scope : Scope N
  pub expires_at : Datetime
  pub roll_at : Datetime

-- What is read of a valid payload.
pub record Payload (N : Type 0) : Type 0 where
  pub envelope : Envelope N
  pub candles : List (Candle N)
  pub market_ids : List String
  pub reference : ReferencePriceObservation N
  pub evidence : FuturesEvidence N
  pub basis_exchange_id : String
  pub basis_contract_id : String
  pub basis_market_id : String

-- `items[-1] == s`, for a list that is not empty.
abbrev pub ends_with_id : String → List String → Bool
ends_with_id s [] = false
ends_with_id s (x ∷ []) = text_eq x s
ends_with_id s (x ∷ xs) = ends_with_id s xs

module _ {N : Type 0} ⦃o : Numbers N⦄ (b : Bridge N) (q : FetchRequest) where
  -- The selection, and the market that a rolled contract came from.
  unfoldable pub selection_attested : Value N → Value N → String → Bool
  selection_attested selection rolled_from market =
      (is_text "front_month" selection && is_absent rolled_from)
      || (is_text "rolled" selection
          && (is_some (opaque_t4_id 256 rolled_from) && not (is_text market rolled_from)))

  unfoldable pub environment_allowed : Value N → Bool
  environment_allowed v = is_text "t4_simulator" v || is_text "live_t4" v

  -- The attestation of the envelope.
  unfoldable pub envelope_attested : Fields N → String → Datetime → Datetime → Bool
  unfolding selection_attested environment_allowed opaque_t4_id
  envelope_attested fields market roll_at expires_at =
      let at : String → Value N = scalar_at fields in
      is_int 5 (at "schema_version")
      && (is_text t4_source_id (at "source_id")
          && (is_text t4_venue_id (at "venue_id")
              && (is_true (at "read_only")
                  && (is_false (at "order_routes_exposed")
                      && (environment_allowed (at "environment")
                          && (is_text q.symbol (at "logical_symbol")
                              && (is_int q.interval_minutes (at "interval_minutes")
                                  && (selection_attested (at "contract_selection")
                                        (at "rolled_from_market_id") market
                                      && (before q.as_of roll_at
                                          && before roll_at expires_at)))))))))

  unfoldable pub read_envelope : Json N → Option (Envelope N)
  unfolding envelope_attested opaque_t4_id utc_of
  read_envelope payload = do
    fields ← as_object payload
    expires_at ← utc_of b.parse (scalar_at fields "contract_expires_at")
    roll_at ← utc_of b.parse (scalar_at fields "contract_roll_at")
    exchange ← opaque_t4_id 64 (scalar_at fields "exchange_id")
    contract ← opaque_t4_id 128 (scalar_at fields "contract_id")
    market ← opaque_t4_id 256 (scalar_at fields "market_id")
    _ ← require (envelope_attested fields market roll_at expires_at)
    some (record {
      fields = fields;
      scope = record {
        symbol = q.symbol;
        exchange_id = exchange;
        contract_id = contract;
        market_id = market;
        selection = scalar_at fields "contract_selection";
        rolled_from = scalar_at fields "rolled_from_market_id";
        as_of = q.as_of;
      };
      expires_at = expires_at;
      roll_at = roll_at;
    })

  -- The market of a raw candle.
  unfoldable pub market_of : Json N → Option String
  unfolding opaque_t4_id
  market_of item = do fields ← as_object item; opaque_t4_id 256 (scalar_at fields "market_id")

  -- The candles, with the market of each; the last one is of the active market.
  unfoldable pub read_history : String → Json N → Option (List String × List (Candle N))
  unfolding market_of each parse_candle
  read_history market value = do
    raw_candles ← as_list value
    _ ← require (not (is_empty raw_candles))
    market_ids ← each market_of raw_candles
    _ ← require (ends_with_id market market_ids)
    candles ← each (parse_candle b.parse q.symbol q.interval_minutes) raw_candles
    some (market_ids, candles)

  -- What follows the candles.
  unfoldable pub read_parts : Envelope N → List String → List (Candle N) → Option (Payload N)
  unfolding parse_reference parse_futures_evidence opaque_t4_id
  read_parts envelope market_ids candles = do
    let at : String → Json N = at_key envelope.fields
    reference ← parse_reference b.parse q.symbol (at "reference_price")
    evidence ← parse_futures_evidence b.parse envelope.scope (at "futures_evidence")
    raw_futures ← as_object (at "futures_evidence")
    basis ← as_object (at_key raw_futures "basis_reference")
    basis_exchange ← opaque_t4_id 64 (scalar_at basis "exchange_id")
    basis_contract ← opaque_t4_id 128 (scalar_at basis "contract_id")
    basis_market ← opaque_t4_id 256 (scalar_at basis "market_id")
    some (record {
      envelope = envelope;
      candles = candles;
      market_ids = market_ids;
      reference = reference;
      evidence = evidence;
      basis_exchange_id = basis_exchange;
      basis_contract_id = basis_contract;
      basis_market_id = basis_market;
    })

  unfoldable pub read_payload : Json N → Option (Payload N)
  unfolding read_envelope read_history read_parts
  read_payload payload = do
    envelope ← read_envelope payload
    history ← read_history envelope.scope.market_id (at_key envelope.fields "candles")
    read_parts envelope history.0 history.1
