-- ===== src/Orchestrator/Evidence.antt =====
-- The records of src/crypto_agent/orchestrator.py that its fingerprint is taken of, before they are
-- written as JSON.
use agent_crypto.Base.{
  String, Bool, false, ◌&&◌, ◌||◌, Option, none, some, List, [], ◌∷◌, ◌++◌, map, any, text_eq,
  text_lt, if◌then◌else◌,
}
use agent_crypto.Numbers.{Numbers, Value, absent, boolean, text, is_finite_number}
use agent_crypto.Clock.{Datetime}
use agent_crypto.Domain.{
  Candle, ReferencePriceSnapshot, ReferencePriceObservation, FuturesEvidence, OrderBookLevel,
  ContractTransitionEvidence, SessionStatus, open_session, closed_session, halted_session,
}
use agent_crypto.Providers.{Item, Metadata, get, ProviderBatch}

-- A field that is a value, or the text that `str` gives of it.
pub data Leaf (N : Type 0) : Type 0 where
  raw : Value N → Leaf N
  shown : Value N → Leaf N

abbrev pub Leaves : Type 0 → Type 0
Leaves N = List (String × Leaf N)

-- A field that may hold more: an item of the metadata, an object, objects, or all of the metadata.
pub data Cell (N : Type 0) : Type 0 where
  leaf : Leaf N → Cell N
  item : Item N → Cell N
  object : Leaves N → Cell N
  objects : List (Leaves N) → Cell N
  diagnostics : Metadata N → Cell N

abbrev pub Entry : Type 0 → Type 0
Entry N = List (String × Cell N)

-- `a < b` for tuples of texts of one length.
abbrev pub texts_lt : List String → List String → Bool
texts_lt [] bs = false
texts_lt (a ∷ rest) [] = false
texts_lt (a ∷ rest) (b ∷ bs) = text_lt a b || (text_eq a b && texts_lt rest bs)

-- `sorted(items, key=...)` for keys that are tuples of texts.
module _ {A : Type 0} (key : A → List String) where
  insert_text : A → List A → List A
  insert_text x [] = x ∷ []
  insert_text x (y ∷ ys) =
      let rest = insert_text x ys in if texts_lt (key y) (key x) then y ∷ rest else x ∷ (y ∷ ys)

  pub sort_texts : List A → List A
  unfolding insert_text
  sort_texts [] = []
  sort_texts (x ∷ xs) = insert_text x (sort_texts xs)

-- `SessionStatus.value`
abbrev session_text : SessionStatus → String
session_text open_session = "OPEN"
session_text closed_session = "CLOSED"
session_text halted_session = "HALTED"

-- The keys of the lifecycle that the evidence keeps.
abbrev pub lifecycle_keys : List String
lifecycle_keys =
    "t4_bridge_schema_version" ∷ "t4_source_id" ∷ "t4_venue_id" ∷ "t4_environment"
    ∷ "t4_exchange_id" ∷ "t4_contract_id" ∷ "t4_market_id" ∷ "t4_candle_market_ids"
    ∷ "t4_contract_expires_at" ∷ "t4_contract_roll_at" ∷ "t4_contract_selection"
    ∷ "t4_rolled_from_contract_id" ∷ "t4_rolled_from_market_id" ∷ []

abbrev has_key : {N : Type 0} → Metadata N → String → Bool
has_key m key = any (λ entry. text_eq entry.0 key) m

module _ {N : Type 0} ⦃o : Numbers N⦄ (isoformat : Datetime → String) where
  abbrev stamp : Datetime → Leaf N
  stamp t = raw (text (isoformat t))

  abbrev word : String → Leaf N
  word s = raw (text s)

  -- `_safe_number`
  safe_number : Value N → Leaf N
  safe_number v = if is_finite_number v then raw v else shown v

  candle_entry : Candle N → Leaves N
  unfolding safe_number
  candle_entry c =
      ("symbol", word c.symbol)
      ∷ ("interval_minutes", raw c.interval_minutes)
      ∷ ("open_time", stamp c.open_time)
      ∷ ("close_time", stamp c.close_time)
      ∷ ("open", safe_number c.open_price)
      ∷ ("high", safe_number c.high)
      ∷ ("low", safe_number c.low)
      ∷ ("close", safe_number c.close)
      ∷ ("volume", safe_number c.volume)
      ∷ ("source", word c.source)
      ∷ ("available_at", stamp c.available_at)
      ∷ ("ingested_at", stamp c.ingested_at)
      ∷ []

  -- `_canonical_input`
  pub canonical_input : List (Candle N) → List (Leaves N)
  unfolding candle_entry sort_texts
  canonical_input candles = map candle_entry (
      sort_texts (λ c. isoformat c.open_time ∷ isoformat c.close_time ∷ c.source ∷ c.symbol ∷ [])
        candles)

  observation_entry : ReferencePriceObservation N → Leaves N
  unfolding safe_number
  observation_entry x =
      ("symbol", word x.symbol)
      ∷ ("price", safe_number x.price)
      ∷ ("event_time", stamp x.event_time)
      ∷ ("available_at", stamp x.available_at)
      ∷ ("ingested_at", stamp x.ingested_at)
      ∷ ("source", word x.source)
      ∷ []

  -- `_canonical_reference_price`, for a snapshot.
  pub canonical_reference_price : ReferencePriceSnapshot N → Entry N
  unfolding observation_entry sort_texts
  canonical_reference_price s =
      ("symbol", leaf (word s.symbol))
      ∷ (
        "observations",
        objects (
            map observation_entry
              (sort_texts (λ x. x.source ∷ isoformat x.event_time ∷ []) s.observations)),
      )
      ∷ []

  -- `_level_to_dict`
  level_entry : OrderBookLevel N → Leaves N
  level_entry x =
      ("level", raw x.level) ∷ ("price", raw x.price) ∷ ("quantity", raw x.quantity) ∷ []

  -- `_transition_to_dict`
  transition_entry : Option (ContractTransitionEvidence N) → Cell N
  transition_entry none = leaf (raw absent)
  transition_entry (some t) = object (
      ("from_contract_id", word t.from_contract_id)
      ∷ ("to_contract_id", word t.to_contract_id)
      ∷ ("price_type", word t.price_type)
      ∷ ("from_price", raw t.from_price)
      ∷ ("to_price", raw t.to_price)
      ∷ ("source", word t.source)
      ∷ ("observed_at", stamp t.observed_at)
      ∷ ("available_at", stamp t.available_at)
      ∷ ("ingested_at", stamp t.ingested_at)
      ∷ [])

  -- `futures_evidence_to_dict`, for evidence that is there.
  pub futures_evidence_entry : FuturesEvidence N → Entry N
  unfolding level_entry transition_entry
  futures_evidence_entry e =
      let basis = e.basis_reference in
      ("contract_id", leaf (word e.contract_id))
      ∷ ("source_id", leaf (word e.source))
      ∷ ("session_status", leaf (word (session_text e.session_status)))
      ∷ ("is_full_snapshot", leaf (raw (boolean e.is_full_snapshot)))
      ∷ ("observed_at", leaf (stamp e.observed_at))
      ∷ ("available_at", leaf (stamp e.available_at))
      ∷ ("ingested_at", leaf (stamp e.ingested_at))
      ∷ ("bids", objects (map level_entry e.bids))
      ∷ ("asks", objects (map level_entry e.asks))
      ∷ (
        "basis_reference",
        object (
            ("symbol", word basis.symbol)
            ∷ ("reference_type", word basis.reference_type)
            ∷ ("source", word basis.source)
            ∷ ("price", raw basis.price)
            ∷ ("observed_at", stamp basis.observed_at)
            ∷ ("available_at", stamp basis.available_at)
            ∷ ("ingested_at", stamp basis.ingested_at)
            ∷ []),
      )
      ∷ ("contract_transition", transition_entry e.contract_transition)
      ∷ []

  abbrev typed : String → Entry N → Entry N
  typed name entry = ("record_type", leaf (word name)) ∷ entry

  reference_records : Option (ReferencePriceSnapshot N) → List (Entry N)
  unfolding canonical_reference_price
  reference_records none = []
  reference_records (some s) = typed "reference_price_snapshot" (canonical_reference_price s) ∷ []

  lifecycle_records : Metadata N → List (Entry N)
  lifecycle_records m =
      if any (has_key m) lifecycle_keys
      then typed "t4_contract_lifecycle" (map (λ key. (key, item (get m key))) lifecycle_keys) ∷ []
      else []

  evidence_records : Option (FuturesEvidence N) → List (Entry N)
  unfolding futures_evidence_entry
  evidence_records none = []
  evidence_records (some e) = typed "t4_futures_evidence" (futures_evidence_entry e) ∷ []

  batch_records : Option (ProviderBatch N) → List (Entry N)
  unfolding lifecycle_records evidence_records
  batch_records none = []
  batch_records (some b) = lifecycle_records b.metadata ++ evidence_records b.futures_evidence

  -- `_canonical_evidence`
  pub canonical_evidence :
      List (Leaves N)
      → Option (ReferencePriceSnapshot N)
      → Option (ProviderBatch N)
      → List (Entry N)
  unfolding reference_records batch_records
  canonical_evidence candles reference b =
      map (map (λ (key, v). (key, leaf v))) candles
      ++ (reference_records reference ++ batch_records b)
