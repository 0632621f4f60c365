-- ===== src/Tests/T4Tests.antt =====
-- A run of the T4 provider on a sample answer of the bridge.
use agent_crypto.Base.{
  ℕ, zero, suc, String, true, false, ◌≡◌, refl, Option, none, some, List, [], ◌∷◌, pos, text_eq,
  arith, if◌then◌else◌,
}
use agent_crypto.Numbers.{boolean, text, is_int}
use agent_crypto.Numbers.Sample.{Decimal, int, decimals, decimals-EqLaws}
use agent_crypto.Clock.{Datetime}
use agent_crypto.Providers.{FetchRequest, ProviderBatch, Answer, answered, plus500_t4}
use agent_crypto.Providers.T4.{fetch_batch}
use agent_crypto.Providers.T4.Response.{Bridge, body}
use agent_crypto.Providers.T4.Reading.{
  Json, Items, Fields, array, scalar, object, no_items, next_item, no_fields, next_field,
}
use agent_crypto.Futures.Book.{t4_source_id}
use agent_crypto.Orchestrator.Attested.{source_attested}
use agent_crypto.Orchestrator.Accepted.{fetch_batch-attested}
use agent_crypto.Samples.{at_second, whole_value}
use agent_crypto.Clock.{is_utc}
use agent_crypto.Deadline.{ensure_analysis_deadline}
use agent_crypto.Deadline.{bounded_analysis_timeout}
use agent_crypto.Numbers.{is_finite_number}
use agent_crypto.Providers.T4.Reading.{at_key}
use agent_crypto.Patterns.{is_opaque}
use agent_crypto.Providers.T4.Reading.{listed}

abbrev record_of : List (String × Json Decimal) → Fields Decimal
record_of [] = no_fields
record_of ((k, v) ∷ rest) = next_field k v (record_of rest)

abbrev entry : String → String → (String × Json Decimal)
entry k v = (k, scalar (text v))

abbrev count : String → ℕ → (String × Json Decimal)
count k n = (k, scalar (whole_value n))

abbrev raw_candle : Json Decimal
raw_candle = object (
    record_of (
      entry "symbol" "BTC/USD"
      ∷ count "interval_minutes" 240
      ∷ entry "source" t4_source_id
      ∷ entry "market_id" "CME-BTCZ6"
      ∷ entry "open_time" "opening"
      ∷ entry "close_time" "closing"
      ∷ entry "available_at" "seen"
      ∷ entry "ingested_at" "seen"
      ∷ count "open" 50000
      ∷ count "high" 53000
      ∷ count "low" 49000
      ∷ count "close" 51000
      ∷ count "volume" 7
      ∷ []))

abbrev raw_candles : ℕ → Items Decimal
raw_candles zero = no_items
raw_candles (suc n) = next_item raw_candle (raw_candles n)

abbrev raw_level : ℕ → Items Decimal
raw_level price =
    next_item (object (record_of (count "level" 1 ∷ count "price" price ∷ count "quantity" 3 ∷ [])))
      no_items

abbrev seen_times : List (String × Json Decimal) → List (String × Json Decimal)
seen_times rest =
    entry "observed_at" "seen" ∷ entry "available_at" "seen" ∷ entry "ingested_at" "seen" ∷ rest

abbrev raw_basis : Json Decimal
raw_basis = object (
    record_of (
      seen_times (
        entry "exchange_id" "CF"
        ∷ entry "contract_id" "BRR"
        ∷ entry "market_id" "CF-BRR"
        ∷ entry "symbol" "BTC/USD"
        ∷ entry "reference_type" "index"
        ∷ entry "source" "plus500_t4_index_v1"
        ∷ count "price" 50900
        ∷ [])))

abbrev raw_evidence : Json Decimal
raw_evidence = object (
    record_of (
      seen_times (
        entry "exchange_id" "CME"
        ∷ entry "contract_id" "BTC"
        ∷ entry "market_id" "CME-BTCZ6"
        ∷ entry "source_id" t4_source_id
        ∷ ("is_full_snapshot", scalar (boolean true))
        ∷ entry "session_status" "OPEN"
        ∷ ("bids", array (raw_level 50999))
        ∷ ("asks", array (raw_level 51001))
        ∷ ("basis_reference", raw_basis)
        ∷ [])))

abbrev raw_reference : Json Decimal
raw_reference = object (
    record_of (
      entry "source" t4_source_id
      ∷ entry "symbol" "BTC/USD"
      ∷ count "price" 51000
      ∷ entry "event_time" "seen"
      ∷ entry "available_at" "seen"
      ∷ entry "ingested_at" "seen"
      ∷ []))

abbrev raw_payload : Json Decimal
raw_payload = object (
    record_of (
      count "schema_version" 5
      ∷ entry "source_id" t4_source_id
      ∷ entry "venue_id" "plus500_t4"
      ∷ ("read_only", scalar (boolean true))
      ∷ ("order_routes_exposed", scalar (boolean false))
      ∷ entry "environment" "live_t4"
      ∷ entry "logical_symbol" "BTC/USD"
      ∷ count "interval_minutes" 240
      ∷ entry "contract_selection" "front_month"
      ∷ entry "contract_expires_at" "expiry"
      ∷ entry "contract_roll_at" "roll"
      ∷ entry "exchange_id" "CME"
      ∷ entry "contract_id" "BTC"
      ∷ entry "market_id" "CME-BTCZ6"
      ∷ ("candles", array (raw_candles 130))
      ∷ ("reference_price", raw_reference)
      ∷ ("futures_evidence", raw_evidence)
      ∷ []))

abbrev moment : String → Option Datetime
moment s =
    if text_eq s "opening"
    then some (at_second 0)
    else (if text_eq s "closing"
        then some (at_second 14400)
        else (if text_eq s "seen"
            then some (at_second 14410)
            else (if text_eq s "roll" then some (at_second 50000) else some (at_second 60000))))

abbrev bridge : Bridge Decimal
bridge = record {
  timeout_seconds = whole_value 10;
  deadline = none;
  monotonic = λ n. int (pos n);
  reply = λ q timeout. body 100000 (some raw_payload);
  parse = moment;
  isoformat = λ t. "2026-01-01T00:00:00+00:00";
}

abbrev request : FetchRequest
request = record {
  symbol = "BTC/USD";
  interval_minutes = 240;
  as_of = at_second 14500;
  limit = 120;
}

abbrev batch_in : Answer Decimal (Option (ProviderBatch Decimal)) → ProviderBatch Decimal
batch_in (answered (some x)) = x
batch_in _ = record {
  candles = [];
  input_candles = [];
  sources = [];
  metadata = [];
  reference_price = none;
  futures_evidence = none;
  external_delivery_eligible = false;
}

abbrev fetched : ProviderBatch Decimal
fetched = batch_in (fetch_batch bridge request)

fetch_answers : fetch_batch bridge request ≡ answered (some fetched)
unfolding fetch_batch is_utc ensure_analysis_deadline bounded_analysis_timeout is_finite_number
    at_key is_opaque is_int listed
fetch_answers = refl

one_source : is_int 1 (whole_value 1) ≡ true
unfolding is_int
one_source = refl

fetch_batch-attested_example : source_attested plus500_t4 (some fetched) (whole_value 1) ≡ true
fetch_batch-attested_example =
    fetch_batch-attested decimals-EqLaws bridge request fetched (whole_value 1) fetch_answers
      (omega arith) one_source
