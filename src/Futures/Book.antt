-- ===== src/Futures/Book.antt =====
-- The order book and the timestamps of the evidence: `_valid_book`, `_current_mid`,
-- `_timestamp_chain` of src/crypto_agent/futures_analytics.py.
pub mod Order
use agent_crypto.Base.{
  ℕ, suc, String, Bool, true, false, ◌&&◌, not, Option, none, some, List, [], ◌∷◌, all,
  if◌then◌else◌, is_empty,
}
use agent_crypto.Numbers.{
  Numbers, Value, whole, number_of, is_int_value, finite_positive, finite_nonnegative, number_eq,
}
use agent_crypto.Clock.{Datetime, is_utc, in_order}
use agent_crypto.Domain.{OrderBookLevel, FuturesEvidence}

abbrev pub t4_source_id : String
t4_source_id = "plus500_t4_futures_v1"

unfoldable pub timestamp_chain : Datetime → Datetime → Datetime → Datetime → Bool
timestamp_chain observed available ingested as_of =
    is_utc as_of
    && (is_utc observed
        && (is_utc available && (is_utc ingested && in_order observed available ingested as_of)))

module _ {N : Type 0} ⦃o : Numbers N⦄ where
  -- `tuple(item.level for item in levels) == tuple(range(k, k + len(levels)))`
  pub numbered_from : ℕ → List (OrderBookLevel N) → Bool
  numbered_from k [] = true
  numbered_from k (x ∷ xs) = number_eq x.level (whole k) && numbered_from (suc k) xs

  pub level_valid : OrderBookLevel N → Bool
  level_valid x = is_int_value x.level && (finite_positive x.price && finite_nonnegative x.quantity)

  pub levels_valid : List (OrderBookLevel N) → Bool
  unfolding numbered_from level_valid
  levels_valid xs = numbered_from 1 xs && all level_valid xs

  abbrev pub price : OrderBookLevel N → N
  price x = number_of x.price

  -- No price is at or above the one before it.
  pub falling : List (OrderBookLevel N) → Bool
  falling [] = true
  falling (x ∷ []) = true
  falling (x ∷ y ∷ rest) = not (o.le (price x) (price y)) && falling (y ∷ rest)

  -- No price is at or below the one before it.
  pub rising : List (OrderBookLevel N) → Bool
  rising [] = true
  rising (x ∷ []) = true
  rising (x ∷ y ∷ rest) = not (o.le (price y) (price x)) && rising (y ∷ rest)

  abbrev pub uncrossed : List (OrderBookLevel N) → List (OrderBookLevel N) → Bool
  uncrossed (b ∷ bids) (a ∷ asks) = o.lt (price b) (price a)
  uncrossed _ _ = false

  unfoldable pub valid_book : List (OrderBookLevel N) → List (OrderBookLevel N) → Bool
  unfolding levels_valid falling rising
  valid_book bids asks =
      not (is_empty bids)
      && (not (is_empty asks)
          && (levels_valid bids
              && (levels_valid asks && (falling bids && (rising asks && uncrossed bids asks)))))

  -- `best_bid + (best_ask - best_bid) / 2.0`
  unfoldable pub midpoint : N → N → N
  midpoint best_bid best_ask = o.add best_bid (o.div (o.sub best_ask best_bid) (o.decimal 2 0))

  abbrev pub best_price : List (OrderBookLevel N) → N
  best_price [] = whole 0
  best_price (x ∷ xs) = price x

  unfoldable pub current_mid : FuturesEvidence N → Option N
  unfolding midpoint
  current_mid e =
      let mid = midpoint (best_price e.bids) (best_price e.asks) in
      if not (valid_book e.bids e.asks)
      then none
      else if o.is_finite mid && o.lt (whole 0) mid
      then some mid
      else none
