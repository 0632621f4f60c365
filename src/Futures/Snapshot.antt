-- ===== src/Futures/Snapshot.antt =====
-- `_snapshot_metrics` and `_basis_metrics` of src/crypto_agent/futures_analytics.py.
pub mod Quiet
use agent_crypto.Base.{
  ℕ, ◌+◌, ◌*◌, String, Bool, true, false, ◌&&◌, ◌||◌, not, Option, none, some, List, [], ◌∷◌, ◌++◌,
  map, when, length, take, ltb, is_empty, dedupe, text_eq, if◌then◌else◌,
}
use agent_crypto.Numbers.{Numbers, Value, whole, number_of, count_of, is_text, finite_positive}
use agent_crypto.Clock.{Datetime, seconds}
use agent_crypto.Domain.{
  MetricStatus, available, unavailable, invalid, SessionStatus, open_session, closed_session,
  halted_session, BasisReference, OrderBookLevel, FuturesEvidence,
}
use agent_crypto.Futures.Policy.{FuturesAnalysisPolicy}
use agent_crypto.Futures.Book.{t4_source_id, timestamp_chain, valid_book, midpoint, best_price}

pub record BasisResult (N : Type 0) : Type 0 where
  pub status : MetricStatus
  pub basis_bps : Option N
  pub annualized : Option N
  pub flags : List String

pub record DepthResult (N : Type 0) : Type 0 where
  pub status : MetricStatus
  pub bid_depth : Option N
  pub ask_depth : Option N
  pub imbalance : Option N
  pub flags : List String

pub record SnapshotResult (N : Type 0) : Type 0 where
  pub spread_status : MetricStatus
  pub spread_bps : Option N
  pub depth_status : MetricStatus
  pub bid_depth : Option N
  pub ask_depth : Option N
  pub book_imbalance : Option N
  pub basis_status : MetricStatus
  pub basis_bps : Option N
  pub annualized_basis : Option N
  pub session_status : Option SessionStatus
  pub flags : List String
  pub veto_flags : List String

-- The flag of a session that is not open; it is a veto too.
abbrev pub session_flags : SessionStatus → List String
session_flags open_session = []
session_flags closed_session = "SESSION_CLOSED" ∷ []
session_flags halted_session = "SESSION_HALT_CONFIRMED" ∷ []

abbrev pub is_available : MetricStatus → Bool
is_available available = true
is_available _ = false

-- `basis_flags or ("BASIS_REFERENCE_UNAVAILABLE",)`
abbrev pub basis_vetoes : List String → List String
basis_vetoes [] = "BASIS_REFERENCE_UNAVAILABLE" ∷ []
basis_vetoes (f ∷ fs) = f ∷ fs

module _ {N : Type 0} ⦃o : Numbers N⦄ (policy : FuturesAnalysisPolicy N) (as_of : Datetime) where
  abbrev invalid_basis : BasisResult N
  invalid_basis = record {
    status = invalid;
    basis_bps = none;
    annualized = none;
    flags = "BASIS_REFERENCE_INVALID" ∷ [];
  }

  -- `as_of - observed_at <= timedelta(seconds=limit)`
  unfoldable pub recent : Datetime → Value N → Bool
  recent observed limit = not (ltb (observed.instant + seconds (count_of limit)) as_of.instant)

  -- `abs((a - b).total_seconds()) <= limit`
  unfoldable pub close_in_time : Datetime → Datetime → Value N → Bool
  close_in_time a b limit = o.le (o.abs (o.seconds_between b.instant a.instant)) (number_of limit)

  pub reference_valid : BasisReference N → String → Datetime → Bool
  unfolding recent close_in_time
  reference_valid r symbol snapshot_at =
      is_text r.reference_type policy.basis_reference_type
      && (is_text r.source policy.basis_source_id
          && (text_eq r.symbol symbol
              && (finite_positive r.price
                  && (timestamp_chain r.observed_at r.available_at r.ingested_at as_of
                      && (recent r.observed_at policy.max_basis_age_seconds
                          && close_in_time r.observed_at snapshot_at
                              policy.max_timestamp_skew_seconds)))))

  abbrev basis_ratio : N → BasisReference N → N
  basis_ratio mid r = o.sub (o.div mid (number_of r.price)) (o.decimal 1 0)

  pub basis_bps_of : N → BasisReference N → N
  basis_bps_of mid r = o.mul (o.decimal 10000 0) (basis_ratio mid r)

  -- `SECONDS_PER_YEAR`
  annualized_of : N → BasisReference N → Option N → Option N
  annualized_of mid r none = none
  annualized_of mid r (some left) =
      if o.le left (whole 0)
      then none
      else some (o.div (o.mul (basis_ratio mid r) (o.decimal (365 * 24 * 60 * 60) 0)) left)

  basis_values : N → Option N → BasisResult N
  basis_values bps none = invalid_basis
  basis_values bps (some annualized) =
      if o.is_finite bps && o.is_finite annualized
      then record {
        status = available;
        basis_bps = some bps;
        annualized = some annualized;
        flags = [];
      }
      else invalid_basis

  pub basis_metrics : BasisReference N → String → N → Datetime → Option N → BasisResult N
  unfolding reference_valid basis_bps_of annualized_of basis_values
  basis_metrics r symbol mid snapshot_at seconds_to_expiry =
      if reference_valid r symbol snapshot_at
      then basis_values (basis_bps_of mid r) (annualized_of mid r seconds_to_expiry)
      else invalid_basis

  -- The book's depth: `sum(item.quantity for item in levels[:required_book_depth])` on each side.
  pub side_depth : List (OrderBookLevel N) → N
  side_depth levels =
      o.total (map (λ x. number_of x.quantity) (take (count_of policy.required_book_depth) levels))

  depth_values : N → N → DepthResult N
  depth_values bid ask =
      let sum = o.add bid ask in
      if not (o.is_finite bid && (o.is_finite ask && o.is_finite sum))
        || (o.le bid (whole 0) || (o.le ask (whole 0) || o.le sum (whole 0)))
      then record {
        status = invalid;
        bid_depth = some bid;
        ask_depth = some ask;
        imbalance = none;
        flags = "ORDER_BOOK_DEPTH_INVALID" ∷ [];
      }
      else record {
        status = available;
        bid_depth = some bid;
        ask_depth = some ask;
        imbalance = some (o.div (o.sub bid ask) sum);
        flags =
            when
              (o.lt bid (number_of policy.min_depth_per_side)
                || o.lt ask (number_of policy.min_depth_per_side))
              ("DEPTH_INSUFFICIENT" ∷ []);
      }

  pub depth_metrics : List (OrderBookLevel N) → List (OrderBookLevel N) → DepthResult N
  unfolding side_depth depth_values
  depth_metrics bids asks =
      if ltb (length bids) (count_of policy.required_book_depth)
        || ltb (length asks) (count_of policy.required_book_depth)
      then record {
        status = unavailable;
        bid_depth = none;
        ask_depth = none;
        imbalance = none;
        flags = "DEPTH_INSUFFICIENT" ∷ [];
      }
      else depth_values (side_depth bids) (side_depth asks)

  pub snapshot_valid : FuturesEvidence N → Value N → Bool
  unfolding recent
  snapshot_valid e contract_id =
      is_text e.contract_id contract_id
      && (text_eq e.source t4_source_id
          && (e.is_full_snapshot
              && (timestamp_chain e.observed_at e.available_at e.ingested_at as_of
                  && recent e.observed_at policy.max_snapshot_age_seconds)))

  abbrev invalid_snapshot : SessionStatus → List String → SnapshotResult N
  invalid_snapshot session flags = record {
    spread_status = invalid;
    spread_bps = none;
    depth_status = invalid;
    bid_depth = none;
    ask_depth = none;
    book_imbalance = none;
    basis_status = invalid;
    basis_bps = none;
    annualized_basis = none;
    session_status = some session;
    flags = flags;
    veto_flags = flags;
  }

  pub spread_bps_of : N → N → N
  unfolding midpoint
  spread_bps_of bid ask = o.div (o.mul (o.decimal 10000 0) (o.sub ask bid)) (midpoint bid ask)

  pub basis_extreme : BasisResult N → Bool
  basis_extreme b = elim b.basis_bps [
    | none ↦ false
    | some bps ↦ o.lt (number_of policy.max_absolute_basis_bps) (o.abs bps)
  ]

  -- The result for a valid book with finite prices. Both lists repeat the session's flags, the
  -- spread's and the depth's; the basis adds its own.
  snapshot_values : FuturesEvidence N → N → DepthResult N → BasisResult N → SnapshotResult N
  unfolding basis_extreme
  snapshot_values e spread depth basis =
      let common =
        session_flags e.session_status
        ++ (when (o.lt (number_of policy.max_spread_bps) spread) ("SPREAD_TOO_WIDE" ∷ [])
            ++ depth.flags) in
      let extreme = when (basis_extreme basis) ("BASIS_EXTREME" ∷ []) in
      record {
        spread_status = available;
        spread_bps = some spread;
        depth_status = depth.status;
        bid_depth = depth.bid_depth;
        ask_depth = depth.ask_depth;
        book_imbalance = depth.imbalance;
        basis_status = basis.status;
        basis_bps = basis.basis_bps;
        annualized_basis = basis.annualized;
        session_status = some e.session_status;
        flags =
            dedupe (common ++ (basis.flags ++ (if is_available basis.status then extreme else [])));
        veto_flags =
            dedupe
              (common ++ (if is_available basis.status then extreme else basis_vetoes basis.flags));
      }

  unfoldable pub snapshot_metrics :
      FuturesEvidence N → String → Value N → Option N → SnapshotResult N
  unfolding snapshot_valid midpoint spread_bps_of depth_metrics basis_metrics snapshot_values
  snapshot_metrics e symbol contract_id seconds_to_expiry =
      let bid = best_price e.bids in
      let ask = best_price e.asks in
      let mid = midpoint bid ask in
      let spread = spread_bps_of bid ask in
      let basis = basis_metrics e.basis_reference symbol mid e.observed_at seconds_to_expiry in
      let flags = session_flags e.session_status in
      if not (snapshot_valid e contract_id)
      then invalid_snapshot e.session_status ("FUTURES_SNAPSHOT_INVALID" ∷ [])
      else if not (valid_book e.bids e.asks)
      then invalid_snapshot e.session_status (flags ++ "ORDER_BOOK_INVALID" ∷ [])
      else if not (o.is_finite mid) || not (o.is_finite spread)
      then invalid_snapshot e.session_status (flags ++ "ORDER_BOOK_INVALID" ∷ [])
      else snapshot_values e spread (depth_metrics e.bids e.asks) basis
