-- ===== src/Providers.antt =====
-- src/crypto_agent/providers/base.py: what a provider of market data gives, and how it is asked.
pub mod T4
use agent_crypto.Base.{
  ℕ, String, Bool, false, Option, none, some, List, [], ◌∷◌, if◌then◌else◌, text_eq,
}
use agent_crypto.Numbers.{Value, absent, text, other}
use agent_crypto.Clock.{Datetime}
use agent_crypto.Domain.{Candle, FuturesEvidence, ReferencePriceSnapshot}
use agent_crypto.Deadline.{Outcome, returned, deadline_exceeded}

-- A value of a provider's metadata: one value, or a list.
pub data Item (N : Type 0) : Type 0 where
  single : Value N → Item N
  several : List (Value N) → Item N

abbrev pub Metadata : Type 0 → Type 0
Metadata N = List (String × Item N)

module _ {N : Type 0} where
  -- `metadata.get(key)`: `None` if the key is not there.
  unfoldable pub get : Metadata N → String → Item N
  get [] key = single absent
  get ((k, item) ∷ rest) key = let found = get rest key in if text_eq k key then item else found

  abbrev pub value_of : Item N → Value N
  value_of (single v) = v
  value_of (several vs) = other

  -- `metadata.get(key)` where the code reads no list.
  abbrev pub get_value : Metadata N → String → Value N
  get_value m key = value_of (get m key)

  -- `{**metadata, key: item}`
  unfoldable pub put : Metadata N → String → Item N → Metadata N
  put [] key item = (key, item) ∷ []
  put ((k, old) ∷ rest) key item =
      let kept = put rest key item in if text_eq k key then (k, item) ∷ rest else (k, old) ∷ kept

pub record ProviderFailureEvidence (N : Type 0) : Type 0 where
  pub input_candles : List (Candle N)
  pub sources : List (Metadata N)
  pub metadata : Metadata N
  pub reference_price : Option (ReferencePriceSnapshot N)
  pub futures_evidence : Option (FuturesEvidence N)

pub record ProviderError (N : Type 0) : Type 0 where
  pub message : String
  pub code : String
  pub evidence : Option (ProviderFailureEvidence N)

pub record ProviderBatch (N : Type 0) : Type 0 where
  pub candles : List (Candle N)
  pub input_candles : List (Candle N)
  pub sources : List (Metadata N)
  pub metadata : Metadata N
  pub reference_price : Option (ReferencePriceSnapshot N)
  pub futures_evidence : Option (FuturesEvidence N)
  pub external_delivery_eligible : Bool

-- How a call of a provider ends.
pub data Answer (N A : Type 0) : Type 0 where
  answered : A → Answer N A
  provider_error : ProviderError N → Answer N A
  out_of_time : Answer N A
  other_error : Answer N A

-- Which class a provider is an instance of.
pub data ProviderType : Type 0 where
  plus500_t4 t4_replay other_provider : ProviderType

-- The arguments of a fetch.
pub record FetchRequest : Type 0 where
  pub symbol : String
  pub interval_minutes : ℕ
  pub as_of : Datetime
  pub limit : ℕ

-- `fetch_batch` is `none` where the provider has none; it may answer `none`, which is no batch.
pub record Provider (N : Type 0) : Type 0 where
  pub provider_type : ProviderType
  pub source_id : String
  pub fetch_batch : Option (FetchRequest → Answer N (Option (ProviderBatch N)))
  pub fetch_candles : FetchRequest → Answer N (List (Candle N))

-- A batch, or the ProviderError that was raised.
pub data Fetched (N : Type 0) : Type 0 where
  batch : ProviderBatch N → Fetched N
  failure : ProviderError N → Fetched N

module _ {N : Type 0} where
  abbrev pub error : String → String → Fetched N
  error message code = failure (record { message = message; code = code; evidence = none })

  abbrev internal_error : Fetched N
  internal_error = error "Market-data provider failed safely" "PROVIDER_INTERNAL_ERROR"

  abbrev pub market_source : String → Metadata N
  market_source source_id =
      ("id", single (text source_id))
      ∷ ("kind", single (text "market_data"))
      ∷ ("trust", single (text "untrusted_external_data"))
      ∷ []

  batch_answer : Answer N (Option (ProviderBatch N)) → Outcome (Fetched N)
  batch_answer (answered (some b)) = returned (batch b)
  batch_answer (answered none) =
      returned (error "Provider returned an invalid batch" "INVALID_PROVIDER_BATCH")
  batch_answer (provider_error e) = returned (failure e)
  batch_answer out_of_time = deadline_exceeded
  batch_answer other_error = returned internal_error

  candle_answer : String → Answer N (List (Candle N)) → Outcome (Fetched N)
  candle_answer source_id (answered candles) = returned (
      batch (record {
        candles = candles;
        input_candles = candles;
        sources = market_source source_id ∷ [];
        metadata = [];
        reference_price = none;
        futures_evidence = none;
        external_delivery_eligible = false;
      }))
  candle_answer source_id (provider_error e) = returned (failure e)
  candle_answer source_id out_of_time = deadline_exceeded
  candle_answer source_id other_error = returned internal_error

  unfoldable pub fetch_provider_batch : Provider N → FetchRequest → Outcome (Fetched N)
  unfolding batch_answer candle_answer
  fetch_provider_batch provider request = elim provider.fetch_batch [
    | some fetch ↦ batch_answer (fetch request)
    | none ↦ candle_answer provider.source_id (provider.fetch_candles request)
  ]
