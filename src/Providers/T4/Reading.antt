-- ===== src/Providers/T4/Reading.antt =====
-- What `json.loads` gives, and the readers of src/crypto_agent/providers/t4.py. `none` is one of the
-- errors that `fetch_batch` catches around the parsing.
use agent_crypto.Base.{
  ℕ, ◌+◌, String, Bool, true, false, ◌&&◌, not, Option, none, some, List, [], ◌∷◌, if◌then◌else◌,
  ◌>>=◌, text_eq, leb, length,
}
use agent_crypto.Numbers.{Numbers, Value, absent, number, text, other, whole, is_int}
use agent_crypto.Clock.{Datetime, is_utc}
use agent_crypto.Patterns.{is_opaque}
use agent_crypto.Futures.Lifecycle.{Parser}
use agent_crypto.Domain.{OrderBookLevel}

mutual
  pub data Json (N : Type 0) : Type 0 where
    scalar : Value N → Json N
    array : Items N → Json N
    object : Fields N → Json N

  pub data Items (N : Type 0) : Type 0 where
    no_items : Items N
    next_item : Json N → Items N → Items N

  pub data Fields (N : Type 0) : Type 0 where
    no_fields : Fields N
    next_field : String → Json N → Fields N → Fields N

-- A condition whose failure raises ValueError.
abbrev pub require : Bool → Option (Unit {0})
require true = some tt
require false = none

module _ {A B : Type 0} where
  unfoldable pub each : (A → Option B) → List A → Option (List B)
  each f [] = some []
  each f (x ∷ xs) = do let rest = each f xs; y ← f x; ys ← rest; some (y ∷ ys)

module _ {N : Type 0} where
  unfoldable pub listed : Items N → List (Json N)
  listed no_items = []
  listed (next_item x xs) = x ∷ listed xs

  -- The last field of a name, which is the one that `json.loads` keeps.
  pub last_field : String → Fields N → Option (Json N)
  last_field key no_fields = none
  last_field key (next_field k v fields) =
      let here = if text_eq k key then some v else none in
      elim (last_field key fields) [ none ↦ here | some w ↦ some w ]

  -- `item[key]` and `item.get(key)`: a missing key gives `None`, which no reader takes for a value.
  unfoldable pub at_key : Fields N → String → Json N
  unfolding last_field
  at_key fields key = elim (last_field key fields) [ none ↦ scalar absent | some v ↦ v ]

  abbrev pub scalar_of : Json N → Value N
  scalar_of (scalar v) = v
  scalar_of _ = other

  abbrev pub scalar_at : Fields N → String → Value N
  scalar_at fields key = scalar_of (at_key fields key)

  -- `isinstance(item, dict)`
  abbrev pub as_object : Json N → Option (Fields N)
  as_object (object fields) = some fields
  as_object _ = none

  -- `isinstance(item, list)`
  abbrev pub as_list : Json N → Option (List (Json N))
  as_list (array items) = some (listed items)
  as_list _ = none

  -- `_opaque_t4_id`
  unfoldable pub opaque_t4_id : ℕ → Value N → Option String
  opaque_t4_id max_length (text s) = if is_opaque max_length s then some s else none
  opaque_t4_id max_length _ = none

  -- `_utc`
  unfoldable pub utc_of : Parser → Value N → Option Datetime
  utc_of parse (text s) = (parse s >>= λ t. if is_utc t then some t else none)
  utc_of parse _ = none

module _ {N : Type 0} ⦃o : Numbers N⦄ where
  -- `_number`
  unfoldable pub number_in : Value N → Option N
  number_in (number x) = if o.is_finite (o.to_float x) then some (o.to_float x) else none
  number_in _ = none

  -- `_positive_number`
  unfoldable pub positive_number : Value N → Option N
  unfolding number_in
  positive_number v = number_in v >>= λ x. if o.le x (whole 0) then none else some x

  -- `_parse_levels`, one level of it: its price, and the level.
  level_in : ℕ → Json N → Option (N × OrderBookLevel N)
  unfolding number_in positive_number
  level_in expected item = do
    fields ← as_object item
    _ ← require (is_int expected (scalar_at fields "level"))
    quantity ← number_in (scalar_at fields "quantity")
    _ ← require (not (o.lt quantity (whole 0)))
    price ← positive_number (scalar_at fields "price")
    some (
      price,
      record { level = number (whole expected); price = number price; quantity = number quantity },
    )

  levels_from : ℕ → List (Json N) → Option (List (N × OrderBookLevel N))
  unfolding level_in
  levels_from expected [] = some []
  levels_from expected (item ∷ items) = do
    let rest = levels_from (expected + 1) items
    level ← level_in expected item
    levels ← rest
    some (level ∷ levels)

  -- No price stands in the given relation to the one before it.
  pub falls_off : (N → N → Bool) → List (N × OrderBookLevel N) → Bool
  falls_off bad [] = true
  falls_off bad (x ∷ []) = true
  falls_off bad (x ∷ y ∷ rest) = not (bad x.0 y.0) && falls_off bad (y ∷ rest)

  -- `_parse_levels`, with the test that the side wants.
  unfoldable pub parse_levels : (N → N → Bool) → Json N → Option (List (N × OrderBookLevel N))
  unfolding levels_from falls_off
  parse_levels bad value = do
    items ← as_list value
    _ ← require (leb 1 (length items) && leb (length items) 50)
    levels ← levels_from 1 items
    _ ← require (falls_off bad levels)
    some levels
