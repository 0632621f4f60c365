-- ===== src/Orchestrator/Attested.antt =====
-- `_source_attested` of src/crypto_agent/orchestrator.py.
use agent_crypto.Base.{
  ℕ, String, Bool, true, false, ◌&&◌, ◌||◌, not, Option, none, some, is_some, List, [], ◌∷◌, all,
  length, leb, ◌==◌, text_eq, if◌then◌else◌,
}
use agent_crypto.Numbers.{
  Numbers, Value, text, is_text, is_true, is_false, is_string, is_absent, is_int, equals_int,
  eq_value,
}
use agent_crypto.Clock.{Datetime, is_aware}
use agent_crypto.Domain.{Candle, ReferencePriceSnapshot}
use agent_crypto.Futures.Book.{t4_source_id}
use agent_crypto.Providers.T4.Response.{t4_venue_id}
use agent_crypto.Providers.{
  Item, single, several, Metadata, get, get_value, ProviderBatch, ProviderType, plus500_t4,
  t4_replay, other_provider,
}

abbrev pub is_t4_type : ProviderType → Bool
is_t4_type plus500_t4 = true
is_t4_type t4_replay = true
is_t4_type other_provider = false

abbrev is_replay : ProviderType → Bool
is_replay t4_replay = true
is_replay _ = false

-- `s == t` for datetimes.
abbrev pub eq_datetime : Datetime → Datetime → Bool
eq_datetime s t = (if is_aware s then is_aware t else not (is_aware t)) && s.instant == t.instant

module _ {N : Type 0} ⦃o : Numbers N⦄ where
  -- `isinstance(value, str) and bool(value)`
  abbrev pub is_named : Value N → Bool
  is_named (text s) = not (text_eq s "")
  is_named _ = false

  unfoldable pub eq_candle : Candle N → Candle N → Bool
  eq_candle a b =
      text_eq a.symbol b.symbol
      && (eq_value a.interval_minutes b.interval_minutes
          && (eq_datetime a.open_time b.open_time
              && (eq_datetime a.close_time b.close_time
                  && (eq_value a.open_price b.open_price
                      && (eq_value a.high b.high
                          && (eq_value a.low b.low
                              && (eq_value a.close b.close
                                  && (eq_value a.volume b.volume
                                      && (text_eq a.source b.source
                                          && (eq_datetime a.available_at b.available_at
                                              && eq_datetime a.ingested_at b.ingested_at))))))))))

  -- `batch.candles == batch.input_candles`
  unfoldable pub eq_candles : List (Candle N) → List (Candle N) → Bool
  unfolding eq_candle
  eq_candles [] [] = true
  eq_candles (a ∷ rest) (b ∷ bs) = let same = eq_candles rest bs in eq_candle a b && same
  eq_candles _ _ = false

  -- `source_ids == (source_id,)`
  unfoldable pub only_source : List (Metadata N) → Bool
  only_source (s ∷ []) = is_text t4_source_id (get_value s "id")
  only_source _ = false

  unfoldable pub reference_attested : Option (ReferencePriceSnapshot N) → Bool
  reference_attested none = false
  reference_attested (some s) = elim s.observations [
    | x ∷ [] ↦ text_eq x.source t4_source_id
    | _ ↦ false
  ]

  -- `items[-1] == value`, for a list that is not empty.
  abbrev pub ends_in : List (Value N) → Value N → Bool
  ends_in [] v = false
  ends_in (x ∷ []) v = eq_value x v
  ends_in (x ∷ xs) v = ends_in xs v

  unfoldable pub market_ids_attested : Item N → ℕ → Value N → Bool
  market_ids_attested (single v) n market = false
  market_ids_attested (several ids) n market =
      length ids == n && (all is_named ids && ends_in ids market)

  abbrev pub schema : Metadata N → Value N
  schema m = get_value m "t4_bridge_schema_version"

  abbrev pub is_v5 : Metadata N → Bool
  is_v5 m = equals_int 5 (schema m)

  -- The contract's key, or the market's from schema 5 on.
  abbrev pub lifecycle_id : Metadata N → Value N
  lifecycle_id m = if is_v5 m then get_value m "t4_market_id" else get_value m "t4_contract_id"

  abbrev pub rolled_from_id : Metadata N → Value N
  rolled_from_id m =
      if is_v5 m
      then get_value m "t4_rolled_from_market_id"
      else get_value m "t4_rolled_from_contract_id"

  module _ (kind : ProviderType) (b : ProviderBatch N) where
    abbrev pub field : String → Value N
    field = get_value b.metadata

    -- The evidence is attested, which only the schemas 2 to 5 allow.
    unfoldable pub evidence_attested : Bool
    evidence_attested =
        (equals_int 2 (schema b.metadata) && (is_replay kind && not (is_some b.futures_evidence)))
        || ((equals_int 3 (schema b.metadata)
              || (equals_int 4 (schema b.metadata) || is_v5 b.metadata))
            && (is_true (field "t4_futures_evidence_attested") && is_some b.futures_evidence))

    unfoldable pub identity_attested : Bool
    identity_attested =
        is_true (field "t4_read_only_attested")
        && (is_text t4_source_id (field "t4_source_id")
            && (is_text t4_venue_id (field "t4_venue_id")
                && is_false (field "t4_order_routes_exposed")))

    unfoldable pub market_attested : Bool
    unfolding market_ids_attested
    market_attested =
        not (is_v5 b.metadata)
        || ((is_text "t4_simulator" (field "t4_environment")
              || is_text "live_t4" (field "t4_environment"))
            && (is_named (field "t4_exchange_id")
                && (is_named (field "t4_market_id")
                    && market_ids_attested (get b.metadata "t4_candle_market_ids")
                        (length b.candles) (field "t4_market_id"))))

    -- `rolled_from_lifecycle_id != (lifecycle_id b.metadata)`
    unfoldable pub roll_attested : Bool
    roll_attested =
        (is_text "front_month" (field "t4_contract_selection")
          && is_absent (rolled_from_id b.metadata))
        || (is_text "rolled" (field "t4_contract_selection")
            && (is_named (rolled_from_id b.metadata)
                && not (eq_value (rolled_from_id b.metadata) (lifecycle_id b.metadata))))

    unfoldable pub batch_attested : Value N → Bool
    unfolding eq_candles only_source reference_attested evidence_attested identity_attested
        market_attested roll_attested
    batch_attested required_sources =
        is_int 1 required_sources
        && (only_source b.sources
            && (leb 120 (length b.candles)
                && (eq_candles b.candles b.input_candles
                    && (all (λ c. text_eq c.source t4_source_id) b.candles
                        && (reference_attested b.reference_price
                            && (identity_attested
                                && (evidence_attested
                                    && (is_named (field "t4_contract_id")
                                        && (market_attested
                                            && (is_string (field "t4_contract_roll_at")
                                                && (is_string (field "t4_contract_expires_at")
                                                    && roll_attested)))))))))))

  unfoldable pub source_attested : ProviderType → Option (ProviderBatch N) → Value N → Bool
  unfolding batch_attested
  source_attested kind none required_sources = false
  source_attested kind (some b) required_sources =
      is_t4_type kind && batch_attested kind b required_sources
