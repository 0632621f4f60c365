-- ===== src/Providers/T4.antt =====
-- `Plus500T4Provider` of src/crypto_agent/providers/t4.py: a request to the bridge, and the response
-- that is checked and read. The transport is an argument.
pub mod Reading
pub mod Evidence
pub mod Response
use agent_crypto.Base.{
  ℕ, ◌+◌, ◌-◌, ◌*◌, String, Bool, true, false, ◌&&◌, ◌||◌, not, Option, none, some, List, [], ◌∷◌,
  map, any, length, drop, leb, ltb, is_empty, contains, if◌then◌else◌, ◌>>=◌, text_eq, is_some,
  ◌==◌,
}
use agent_crypto.Numbers.{
  Numbers, Value, absent, boolean, number, text, whole, is_text, is_true, is_false, is_absent,
  is_int,
}
use agent_crypto.Clock.{Datetime, is_utc, before}
use agent_crypto.Domain.{Candle, ReferencePriceObservation, FuturesEvidence}
use agent_crypto.Deadline.{
  Outcome, returned, value_error, zero_division, deadline_exceeded, bounded_analysis_timeout,
  ensure_analysis_deadline,
}
use agent_crypto.Futures.Book.{t4_source_id}
use agent_crypto.Futures.Lifecycle.{Parser}
use agent_crypto.Providers.{
  Item, single, several, Metadata, FetchRequest, ProviderError, ProviderBatch, Answer, answered,
  provider_error, out_of_time, other_error,
}
use Reading.{
  Json, Fields, require, each, at_key, scalar_of, scalar_at, as_object, as_list, opaque_t4_id,
  utc_of,
}
use Evidence.{Scope, parse_candle, parse_reference, parse_futures_evidence}
use Response.{Reply, body, http_error, no_reply, Bridge, Envelope, Payload, read_payload}

-- `_bridge_failure_codes`
abbrev pub bridge_failure_codes : List String
bridge_failure_codes =
    "T4_APPLICATION_REGISTRATION_REQUIRED" ∷ "T4_AUTHENTICATION_FAILED" ∷ "T4_CONTRACT_UNAVAILABLE"
    ∷ "T4_DATA_STALE" ∷ "T4_DELAYED_MARKET_DATA" ∷ "T4_DEPTH_SUBSCRIPTION_REJECTED"
    ∷ "T4_HISTORY_UNAVAILABLE" ∷ "T4_MISSING_DATA" ∷ "T4_PREWARM_IN_PROGRESS" ∷ "T4_RATE_LIMITED"
    ∷ "T4_SESSION_DISCONNECTED" ∷ "T4_SESSION_STARTING" ∷ "T4_STALE_DATA" ∷ []

abbrev pub refusal : {N : Type 0} → String → String → ProviderError N
refusal message code = record { message = message; code = code; evidence = none }

-- `items[-n:]`, for n > 0
abbrev pub last_of : {A : Type 0} → ℕ → List A → List A
last_of n xs = drop (length xs - n) xs

module _ {N : Type 0} ⦃o : Numbers N⦄ (b : Bridge N) (q : FetchRequest) where
  abbrev tagged : String → Value N → String × Item N
  tagged key v = (key, single v)

  unfoldable pub batch_metadata : Payload N → Metadata N
  batch_metadata p =
      let at : String → Value N = scalar_at p.envelope.fields in
      tagged "t4_read_only_attested" (boolean (is_true (at "read_only")))
      ∷ tagged "t4_source_id" (at "source_id")
      ∷ tagged "t4_venue_id" (at "venue_id")
      ∷ tagged "t4_order_routes_exposed" (at "order_routes_exposed")
      ∷ tagged "t4_environment" (at "environment")
      ∷ tagged "t4_exchange_id" (text p.envelope.scope.exchange_id)
      ∷ tagged "t4_volume_zscore" (at "volume_zscore")
      ∷ tagged "t4_bridge_schema_version" (at "schema_version")
      ∷ tagged "t4_contract_id" (text p.envelope.scope.contract_id)
      ∷ tagged "t4_market_id" (text p.envelope.scope.market_id)
      ∷ tagged "t4_basis_exchange_id" (text p.basis_exchange_id)
      ∷ tagged "t4_basis_contract_id" (text p.basis_contract_id)
      ∷ tagged "t4_basis_market_id" (text p.basis_market_id)
      ∷ ("t4_candle_market_ids", several (map text (last_of q.limit p.market_ids)))
      ∷ tagged "t4_contract_expires_at" (text (b.isoformat p.envelope.expires_at))
      ∷ tagged "t4_contract_roll_at" (text (b.isoformat p.envelope.roll_at))
      ∷ tagged "t4_contract_selection" (at "contract_selection")
      ∷ tagged "t4_rolled_from_market_id" (at "rolled_from_market_id")
      ∷ tagged "t4_futures_evidence_attested" (boolean true)
      ∷ []

  unfoldable pub batch_of : Payload N → ProviderBatch N
  unfolding batch_metadata
  batch_of p = record {
    candles = last_of q.limit p.candles;
    input_candles = last_of q.limit p.candles;
    sources =
        (tagged "id" (text t4_source_id)
          ∷ tagged "kind" (text "futures_market_data")
          ∷ tagged "trust" (text "authenticated_external_data")
          ∷ [])
        ∷ [];
    metadata = batch_metadata p;
    reference_price = some (record { symbol = q.symbol; observations = p.reference ∷ [] });
    futures_evidence = some p.evidence;
    external_delivery_eligible = is_text "live_t4" (scalar_at p.envelope.fields "environment");
  }

  -- The last tests on what was read.
  unfoldable pub checked_batch : Option (Payload N) → Answer N (Option (ProviderBatch N))
  unfolding batch_of
  checked_batch none = provider_error (refusal "T4 payload is invalid" "T4_PAYLOAD_INVALID")
  checked_batch (some p) =
      if ltb (length p.candles) q.limit
      then provider_error (refusal "T4 history is incomplete" "T4_HISTORY_INCOMPLETE")
      else (if any (λ c. before q.as_of c.close_time) p.candles
          then provider_error (refusal "T4 returned future data" "T4_FUTURE_DATA")
          else answered (some (batch_of p)))

  -- An answer, unless the deadline has passed once the bridge has answered or failed.
  abbrev pub in_time : Answer N (Option (ProviderBatch N)) → Answer N (Option (ProviderBatch N))
  in_time y = elim (ensure_analysis_deadline b.deadline (b.monotonic 2)) [
    | returned _ ↦ y
    | _ ↦ out_of_time
  ]

  -- The reason code of an HTTP error.
  unfoldable pub reason_of : ℕ → String → String
  reason_of status reason =
      let code = if status == 429 && text_eq reason "" then "T4_RATE_LIMITED" else reason in
      if contains bridge_failure_codes code then code else "T4_BRIDGE_UNAVAILABLE"

  unfoldable pub read_reply : Reply N → Answer N (Option (ProviderBatch N))
  unfolding checked_batch read_payload reason_of
  read_reply (body size payload) = in_time (
      if ltb 4000000 size
      then provider_error (refusal "T4 response is too large" "T4_RESPONSE_TOO_LARGE")
      else checked_batch (payload >>= read_payload b q))
  read_reply (http_error status reason) = in_time (
      provider_error
        (refusal "Plus500 T4 bridge rejected the market-data request" (reason_of status reason)))
  read_reply no_reply =
      in_time (provider_error (refusal "Plus500 T4 bridge is unavailable" "T4_BRIDGE_UNAVAILABLE"))

  unfoldable pub request_bridge : Answer N (Option (ProviderBatch N))
  unfolding read_reply
  request_bridge = elim (ensure_analysis_deadline b.deadline (b.monotonic 0)) [
    | returned _ ↦ elim (bounded_analysis_timeout b.timeout_seconds b.deadline (b.monotonic 1)) [
      | returned timeout ↦ read_reply (b.reply q timeout)
      | deadline_exceeded ↦ out_of_time
      | _ ↦ other_error
    ]
    | _ ↦ out_of_time
  ]

  -- The first test on the request that fails.
  unfoldable pub request_refusal : Option (ProviderError N)
  request_refusal =
      if not (contains ("BTC/USD" ∷ "ETH/USD" ∷ []) q.symbol)
      then some (refusal "T4 instrument is not approved" "T4_SYMBOL_NOT_ALLOWED")
      else (if not (
            q.interval_minutes == 240
            || (q.interval_minutes == 1440 || q.interval_minutes == 10080))
          then some (refusal "T4 interval is not approved" "T4_INTERVAL_NOT_ALLOWED")
          else (if not (is_utc q.as_of)
              then some (refusal "T4 cutoff must be UTC" "T4_TIME_INVALID")
              else (if not (leb 60 q.limit && leb q.limit 720)
                  then some (refusal "T4 candle limit is invalid" "T4_LIMIT_INVALID")
                  else none)))

  unfoldable pub fetch_batch : Answer N (Option (ProviderBatch N))
  unfolding request_bridge request_refusal
  fetch_batch = elim request_refusal [ some e ↦ provider_error e | none ↦ request_bridge ]
