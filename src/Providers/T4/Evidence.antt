-- ===== src/Providers/T4/Evidence.antt =====
-- The parsers of the parts of a bridge response in src/crypto_agent/providers/t4.py.
use agent_crypto.Base.{
  ℕ, String, Bool, true, ◌&&◌, not, Option, none, some, List, [], ◌∷◌, map, if◌then◌else◌, ◌>>=◌,
  text_eq,
}
use agent_crypto.Numbers.{
  Numbers, Value, number, text, whole, is_text, is_true, is_absent, equals_int,
}
use agent_crypto.Clock.{Datetime, in_order}
use agent_crypto.Domain.{
  Candle, ReferencePriceObservation, SessionStatus, open_session, closed_session, halted_session,
  BasisReference, ContractTransitionEvidence, FuturesEvidence, OrderBookLevel,
}
use agent_crypto.Futures.Book.{t4_source_id}
use agent_crypto.Futures.Policy.{approved_basis_reference_type, approved_basis_source_id}
use agent_crypto.Futures.Lifecycle.{Parser}
use agent_crypto.Providers.T4.Reading.{
  Json, Fields, require, at_key, scalar_of, scalar_at, as_object, opaque_t4_id, utc_of, number_in,
  positive_number, parse_levels,
}

-- `SessionStatus(value)`
pub session_of : {N : Type 0} → Value N → Option SessionStatus
session_of (text s) =
    if text_eq s "OPEN"
    then some open_session
    else (if text_eq s "CLOSED"
        then some closed_session
        else (if text_eq s "HALTED" then some halted_session else none))
session_of _ = none

-- The scope of the response that its evidence has to share.
pub record Scope (N : Type 0) : Type 0 where
  pub symbol : String
  pub exchange_id : String
  pub contract_id : String
  pub market_id : String
  pub selection : Value N
  pub rolled_from : Value N
  pub as_of : Datetime

-- The candle of the times and prices that were read.
abbrev pub candle_of :
    {N : Type 0} ⦃o : Numbers N⦄
    → String
    → ℕ
    → (Datetime × Datetime × Datetime × Datetime)
    → (N × N × N × N × N)
    → Candle N
candle_of symbol interval times prices = record {
  symbol = symbol;
  interval_minutes = number (whole interval);
  open_time = times.0;
  close_time = times.1;
  open_price = number prices.0;
  high = number prices.1;
  low = number prices.2;
  close = number prices.3;
  volume = number prices.4;
  source = t4_source_id;
  available_at = times.2;
  ingested_at = times.3;
}

module _ {N : Type 0} ⦃o : Numbers N⦄ (parse : Parser) where
  abbrev time_at : Fields N → String → Option Datetime
  time_at fields key = utc_of parse (scalar_at fields key)

  abbrev pub number_at : Fields N → String → Option N
  number_at fields key = number_in (scalar_at fields key)

  -- The times and the prices of a candle.
  unfoldable pub candle_times : Fields N → Option (Datetime × Datetime × Datetime × Datetime)
  unfolding utc_of
  candle_times fields = do
    open_time ← time_at fields "open_time"
    close_time ← time_at fields "close_time"
    available_at ← time_at fields "available_at"
    ingested_at ← time_at fields "ingested_at"
    some (open_time, close_time, available_at, ingested_at)

  unfoldable pub candle_prices : Fields N → Option (N × N × N × N × N)
  unfolding number_in
  candle_prices fields = do
    opening ← number_at fields "open"
    high ← number_at fields "high"
    low ← number_at fields "low"
    closing ← number_at fields "close"
    volume ← number_at fields "volume"
    some (opening, high, low, closing, volume)

  abbrev pub is_candle : String → ℕ → Fields N → Bool
  is_candle symbol interval fields =
      is_text symbol (scalar_at fields "symbol")
      && (equals_int interval (scalar_at fields "interval_minutes")
          && is_text t4_source_id (scalar_at fields "source"))

  -- `_parse_candle`
  unfoldable pub parse_candle : String → ℕ → Json N → Option (Candle N)
  unfolding candle_times candle_prices
  parse_candle symbol interval item = do
    fields ← as_object item
    _ ← require (is_candle symbol interval fields)
    times ← candle_times fields
    prices ← candle_prices fields
    some (candle_of symbol interval times prices)

  -- `_parse_reference`
  unfoldable pub parse_reference : String → Json N → Option (ReferencePriceObservation N)
  unfolding utc_of number_in
  parse_reference symbol item = do
    fields ← as_object item
    _ ← require (is_text t4_source_id (scalar_at fields "source"))
    _ ← require (is_text symbol (scalar_at fields "symbol"))
    price ← number_at fields "price"
    event_time ← time_at fields "event_time"
    available_at ← time_at fields "available_at"
    ingested_at ← time_at fields "ingested_at"
    some (record {
      symbol = symbol;
      price = number price;
      event_time = event_time;
      available_at = available_at;
      ingested_at = ingested_at;
      source = t4_source_id;
    })

  -- `basis_item` has another market than the evidence.
  foreign_basis : Scope N → String → String → String → Bool
  foreign_basis s exchange contract market = not (
      text_eq exchange s.exchange_id
      && (text_eq contract s.contract_id && text_eq market s.market_id))

  pub parse_basis : Scope N → Json N → Option (BasisReference N)
  unfolding utc_of positive_number foreign_basis opaque_t4_id
  parse_basis s item = do
    fields ← as_object item
    exchange ← opaque_t4_id 64 (scalar_at fields "exchange_id")
    contract ← opaque_t4_id 128 (scalar_at fields "contract_id")
    market ← opaque_t4_id 256 (scalar_at fields "market_id")
    _ ← require (
        is_text s.symbol (scalar_at fields "symbol")
        && (is_text approved_basis_reference_type (scalar_at fields "reference_type")
            && (is_text approved_basis_source_id (scalar_at fields "source")
                && foreign_basis s exchange contract market)))
    observed_at ← time_at fields "observed_at"
    available_at ← time_at fields "available_at"
    ingested_at ← time_at fields "ingested_at"
    _ ← require (in_order observed_at available_at ingested_at s.as_of)
    price ← positive_number (scalar_at fields "price")
    some (record {
      symbol = s.symbol;
      reference_type = approved_basis_reference_type;
      source = approved_basis_source_id;
      price = number price;
      observed_at = observed_at;
      available_at = available_at;
      ingested_at = ingested_at;
    })

  -- The transition that a rolled contract has.
  rolled_transition : Scope N → N → Json N → Option (ContractTransitionEvidence N)
  unfolding utc_of positive_number opaque_t4_id
  rolled_transition s mid item = do
    fields ← as_object item
    observed_at ← time_at fields "observed_at"
    available_at ← time_at fields "available_at"
    ingested_at ← time_at fields "ingested_at"
    from_market ← opaque_t4_id 256 s.rolled_from
    to_price ← positive_number (scalar_at fields "to_price")
    _ ← require (
        is_text from_market (scalar_at fields "from_market_id")
        && (is_text s.market_id (scalar_at fields "to_market_id")
            && (is_text "mid" (scalar_at fields "price_type")
                && (is_text t4_source_id (scalar_at fields "source")
                    && (o.is_close to_price mid
                        && in_order observed_at available_at ingested_at s.as_of)))))
    from_price ← positive_number (scalar_at fields "from_price")
    some (record {
      from_contract_id = from_market;
      to_contract_id = s.market_id;
      price_type = "mid";
      from_price = number from_price;
      to_price = number to_price;
      source = t4_source_id;
      observed_at = observed_at;
      available_at = available_at;
      ingested_at = ingested_at;
    })

  parse_transition : Scope N → N → Json N → Option (Option (ContractTransitionEvidence N))
  unfolding rolled_transition
  parse_transition s mid item =
      let rolled = (rolled_transition s mid item >>= λ t. some (some t)) in
      if is_text "front_month" s.selection
      then (if is_absent (scalar_of item) then some none else none)
      else rolled

  abbrev best_of : List (N × OrderBookLevel N) → N
  best_of [] = whole 0
  best_of (x ∷ xs) = x.0

  -- `_parse_futures_evidence`
  unfoldable pub parse_futures_evidence : Scope N → Json N → Option (FuturesEvidence N)
  unfolding utc_of session_of parse_levels parse_basis parse_transition
  parse_futures_evidence s item = do
    fields ← as_object item
    _ ← require (
        is_text s.exchange_id (scalar_at fields "exchange_id")
        && (is_text s.contract_id (scalar_at fields "contract_id")
            && (is_text s.market_id (scalar_at fields "market_id")
                && (is_text t4_source_id (scalar_at fields "source_id")
                    && is_true (scalar_at fields "is_full_snapshot")))))
    session_status ← session_of (scalar_at fields "session_status")
    observed_at ← time_at fields "observed_at"
    available_at ← time_at fields "available_at"
    ingested_at ← time_at fields "ingested_at"
    _ ← require (in_order observed_at available_at ingested_at s.as_of)
    bids ← parse_levels (λ previous current. o.le previous current) (at_key fields "bids")
    asks ← parse_levels (λ previous current. o.le current previous) (at_key fields "asks")
    _ ← require (not (o.le (best_of asks) (best_of bids)))
    let spread = o.sub (best_of asks) (best_of bids)
    let mid = o.add (best_of bids) (o.div spread (o.decimal 2 0))
    basis ← parse_basis s (at_key fields "basis_reference")
    transition ← parse_transition s mid (at_key fields "contract_transition")
    some (record {
      contract_id = s.market_id;
      source = t4_source_id;
      session_status = session_status;
      is_full_snapshot = true;
      observed_at = observed_at;
      available_at = available_at;
      ingested_at = ingested_at;
      bids = map (λ x. x.1) bids;
      asks = map (λ x. x.1) asks;
      basis_reference = basis;
      contract_transition = transition;
    })
