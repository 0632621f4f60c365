-- ===== src/Futures/Snapshot/Quiet.antt =====
-- What holds of evidence whose snapshot raises no veto.
use agent_crypto.Base.{
  ◌≤◌, String, Bool, true, false, ◌≡◌, refl, sym, ap, ◌∙◌, if◌then◌else◌, Option, some, List, [],
  ◌∷◌, when, length, append-eq-nil, arith, dedupe-eq-nil_iff,
}
use agent_crypto.Numbers.{Numbers, Value, number_of, count_of}
use agent_crypto.Clock.{Datetime}
use agent_crypto.Domain.{
  available, SessionStatus, open_session, closed_session, halted_session, BasisReference,
  OrderBookLevel, FuturesEvidence,
}
use agent_crypto.Futures.Policy.{FuturesAnalysisPolicy}
use agent_crypto.Futures.Book.{valid_book, midpoint, best_price}
use agent_crypto.Futures.Snapshot.{
  BasisResult, DepthResult, SnapshotResult, reference_valid, basis_bps_of, basis_values,
  basis_metrics, side_depth, depth_values, depth_metrics, snapshot_valid, session_flags,
  spread_bps_of, basis_extreme, is_available, snapshot_values, snapshot_metrics, basis_vetoes,
}

session_open : (s : SessionStatus) → session_flags s ≡ [] → s ≡ open_session
session_open open_session h = refl
session_open closed_session h = cc
session_open halted_session h = cc

not_wide : (b : Bool) (flag : String) → when b (flag ∷ []) ≡ [] → b ≡ false
not_wide b flag h = ground arith

module _ {N : Type 0} ⦃o : Numbers N⦄ (policy : FuturesAnalysisPolicy N) (as_of : Datetime) where
  -- The evidence is that of the contract, complete, in order and recent; the session is open; the
  -- book is valid, its spread and depth are inside the limits; the basis reference is approved and
  -- recent and the basis inside its limit.
  pub record IsFine (e : FuturesEvidence N) (symbol : String) (contract_id : Value N) : Type 0 where
    pub current : snapshot_valid policy as_of e contract_id ≡ true
    pub session : e.session_status ≡ open_session
    pub book : valid_book e.bids e.asks ≡ true
    pub spread :
        o.lt
          (number_of policy.max_spread_bps)
          (spread_bps_of policy as_of (best_price e.bids) (best_price e.asks))
        ≡ false
    pub levels :
        (count_of policy.required_book_depth ≤ length e.bids)
        × (count_of policy.required_book_depth ≤ length e.asks)
    pub depth :
        (o.lt (side_depth policy as_of e.bids) (number_of policy.min_depth_per_side) ≡ false)
        × (o.lt (side_depth policy as_of e.asks) (number_of policy.min_depth_per_side) ≡ false)
    pub reference : reference_valid policy as_of e.basis_reference symbol e.observed_at ≡ true
    pub basis :
        o.lt (number_of policy.max_absolute_basis_bps) (
          o.abs (
            basis_bps_of policy as_of
              (midpoint (best_price e.bids) (best_price e.asks))
              e.basis_reference))
        ≡ false

  abbrev DeepEnough : List (OrderBookLevel N) → List (OrderBookLevel N) → Type 0
  DeepEnough bids asks =
      ((depth_metrics policy as_of bids asks).status ≡ available)
      × (count_of policy.required_book_depth ≤ length bids)
      × (count_of policy.required_book_depth ≤ length asks)
      × (o.lt (side_depth policy as_of bids) (number_of policy.min_depth_per_side) ≡ false)
      × (o.lt (side_depth policy as_of asks) (number_of policy.min_depth_per_side) ≡ false)

  depth_quiet :
      (bids asks : List (OrderBookLevel N))
      → (depth_metrics policy as_of bids asks).flags ≡ []
      → DeepEnough bids asks
  unfolding depth_metrics depth_values
  depth_quiet bids asks h = (ground arith, ground arith, ground arith, ground arith, ground arith)

  basis_available :
      (r : BasisReference N) (symbol : String) (mid : N) (at : Datetime) (left : Option N)
      → (basis_metrics policy as_of r symbol mid at left).status ≡ available
      → (reference_valid policy as_of r symbol at ≡ true)
        × ((basis_metrics policy as_of r symbol mid at left).basis_bps
            ≡ some (basis_bps_of policy as_of mid r))
  unfolding basis_metrics basis_values
  basis_available r symbol mid at left h = (ground arith, ground arith)

  based :
      (basis : BasisResult N)
      → (if is_available basis.status
          then when (basis_extreme policy as_of basis) ("BASIS_EXTREME" ∷ [])
          else basis_vetoes basis.flags)
        ≡ []
      → basis.status ≡ available
  based basis h = ground arith

  near :
      (basis : BasisResult N)
      → (if is_available basis.status
          then when (basis_extreme policy as_of basis) ("BASIS_EXTREME" ∷ [])
          else basis_vetoes basis.flags)
        ≡ []
      → basis_extreme policy as_of basis ≡ false
  near basis h = ground arith

  values_quiet :
      (e : FuturesEvidence N) (spread : N) (depth : DepthResult N) (basis : BasisResult N)
      → (snapshot_values policy as_of e spread depth basis).veto_flags ≡ []
      → (e.session_status ≡ open_session)
        × (o.lt (number_of policy.max_spread_bps) spread ≡ false)
        × (depth.flags ≡ [])
        × (basis.status ≡ available)
        × (basis_extreme policy as_of basis ≡ false)
  unfolding snapshot_values
  values_quiet e spread depth basis h =
      let (common, last) = append-eq-nil _ _ ((dedupe-eq-nil_iff _).0 h) in
      let (session, rest) = append-eq-nil (session_flags e.session_status) _ common in
      let (wide, deep) = append-eq-nil _ _ rest in
      (session_open _ session, not_wide _ _ wide, deep, based basis last, near basis last)

  extreme_bps :
      (b : BasisResult N) (x : N)
      → b.basis_bps ≡ some x
      → basis_extreme policy as_of b ≡ false
      → o.lt (number_of policy.max_absolute_basis_bps) (o.abs x) ≡ false
  unfolding basis_extreme
  extreme_bps b x e h = ground arith

  abbrev mid_of : FuturesEvidence N → N
  mid_of e = midpoint (best_price e.bids) (best_price e.asks)

  abbrev spread_of : FuturesEvidence N → N
  spread_of e = spread_bps_of policy as_of (best_price e.bids) (best_price e.asks)

  abbrev basis_of : FuturesEvidence N → String → Option N → BasisResult N
  basis_of e symbol left =
      basis_metrics policy as_of e.basis_reference symbol (mid_of e) e.observed_at left

  abbrev values_of : FuturesEvidence N → String → Option N → SnapshotResult N
  values_of e symbol left =
      snapshot_values policy as_of e (spread_of e) (depth_metrics policy as_of e.bids e.asks)
        (basis_of e symbol left)

  reaches_values :
      (e : FuturesEvidence N) (symbol : String) (contract_id : Value N) (left : Option N)
      → (snapshot_metrics policy as_of e symbol contract_id left).veto_flags ≡ []
      → (snapshot_valid policy as_of e contract_id ≡ true)
        × (valid_book e.bids e.asks ≡ true)
        × (snapshot_metrics policy as_of e symbol contract_id left ≡ values_of e symbol left)
  unfolding snapshot_metrics
  reaches_values e symbol contract_id left h = (ground arith, ground arith, ground arith)

  -- Evidence whose snapshot raises no veto is complete, of the contract, in order and recent; its session
  -- is open, its book valid and deep enough, the spread, the depth of each side and the basis are inside
  -- their limits, and the basis reference is approved and recent.
  pub snapshot_metrics-quiet :
      (e : FuturesEvidence N) (symbol : String) (contract_id : Value N) (left : Option N)
      → (snapshot_metrics policy as_of e symbol contract_id left).veto_flags ≡ []
      → IsFine e symbol contract_id
  snapshot_metrics-quiet e symbol contract_id left h =
      let (current, book, same) = reaches_values e symbol contract_id left h in
      let (session, narrow, deep, based, near) =
        values_quiet e (spread_of e) (depth_metrics policy as_of e.bids e.asks)
          (basis_of e symbol left) (sym (ap (λ (r : SnapshotResult N). r.veto_flags) same) ∙ h) in
      let (status, bids, asks, bid_depth, ask_depth) = depth_quiet e.bids e.asks deep in
      let (reference, bps) =
        basis_available e.basis_reference symbol (mid_of e) e.observed_at left based in
      record {
        current = current;
        session = session;
        book = book;
        spread = narrow;
        levels = (bids, asks);
        depth = (bid_depth, ask_depth);
        reference = reference;
        basis = extreme_bps (basis_of e symbol left) _ bps near;
      }
