-- ===== src/Futures/Book/Order.antt =====
-- The order of the levels in a valid book.
use agent_crypto.Base.{
  ℕ, suc, true, not, ◌≡◌, ◌≢◌, List, [], ◌∷◌, All, is_empty, arith, and_iff, all_iff, All-map,
}
use agent_crypto.Numbers.{Numbers, whole, finite_positive, number_eq}
use agent_crypto.Numbers.Laws.{OrderLaws}
use agent_crypto.Domain.{OrderBookLevel}
use agent_crypto.Futures.Book.{
  level_valid, levels_valid, numbered_from, price, falling, rising, uncrossed, valid_book,
}

ne_of_not_empty : {A : Type 0} (xs : List A) → not (is_empty xs) ≡ true → xs ≢ []
ne_of_not_empty [] h e = cc
ne_of_not_empty (x ∷ xs) h e = cc

module _ {N : Type 0} ⦃o : Numbers N⦄ where
  -- The level numbers count from `k` on.
  abbrev Numbered : ℕ → List (OrderBookLevel N) → Type 0
  Numbered k [] = Unit {0}
  Numbered k (x ∷ xs) = (number_eq x.level (whole k) ≡ true) × Numbered (suc k) xs

  -- A side of the book: numbered from 1, each level with a positive finite price and a quantity.
  abbrev pub IsSide : List (OrderBookLevel N) → Type 0
  IsSide xs = (xs ≢ []) × Numbered 1 xs × All (λ x. level_valid x ≡ true) xs

  -- Every price is above every price behind it.
  abbrev pub Falling : List (OrderBookLevel N) → Type 0
  Falling [] = Unit {0}
  Falling (x ∷ xs) = All (λ y. o.lt (price y) (price x) ≡ true) xs × Falling xs

  -- Every price is below every price behind it.
  abbrev pub Rising : List (OrderBookLevel N) → Type 0
  Rising [] = Unit {0}
  Rising (x ∷ xs) = All (λ y. o.lt (price x) (price y) ≡ true) xs × Rising xs

  Numbered-of : (k : ℕ) (xs : List (OrderBookLevel N)) → numbered_from k xs ≡ true → Numbered k xs
  unfolding numbered_from
  Numbered-of k [] h = tt
  Numbered-of k (x ∷ xs) h =
      let (here, rest) = (and_iff _ _).0 h in (here, Numbered-of (suc k) xs rest)

  module _ (laws : OrderLaws o) where
    -- A comparison of finite prices is total.
    below-All :
        (p q : N) (xs : List (OrderBookLevel N))
        → o.lt q p ≡ true
        → All (λ y. o.lt (price y) q ≡ true) xs
        → All (λ y. o.lt (price y) p ≡ true) xs
    below-All p q xs h = All-map (λ y k. laws.lt_trans (price y) q p k h) xs

    above-All :
        (p q : N) (xs : List (OrderBookLevel N))
        → o.lt p q ≡ true
        → All (λ y. o.lt q (price y) ≡ true) xs
        → All (λ y. o.lt p (price y) ≡ true) xs
    above-All p q xs h = All-map (λ y k. laws.lt_trans p q (price y) h k) xs

    abbrev IsPriced : OrderBookLevel N → Type 0
    IsPriced x = level_valid x ≡ true

    price_finite : (x : OrderBookLevel N) → IsPriced x → o.is_finite (o.to_float (price x)) ≡ true
    unfolding level_valid finite_positive
    price_finite x h = ground arith

    above_of_not_le :
        (x y : OrderBookLevel N)
        → IsPriced x
        → IsPriced y
        → not (o.le (price x) (price y)) ≡ true
        → o.lt (price y) (price x) ≡ true
    above_of_not_le x y hx hy h =
        laws.lt_of_not_le (price x) (price y) (price_finite x hx) (price_finite y hy) (ground arith)

    falling_of : (xs : List (OrderBookLevel N)) → All IsPriced xs → falling xs ≡ true → Falling xs
    unfolding falling
    falling_of [] v h = tt
    falling_of (x ∷ []) v h = (tt, tt)
    falling_of (x ∷ y ∷ rest) (vx, (vy, v)) h =
        let (step, more) = (and_iff _ _).0 h in
        let (below, tail) = falling_of (y ∷ rest) (vy, v) more in
        let under = above_of_not_le x y vx vy step in
        ((under, below-All (price x) (price y) rest under below), (below, tail))

    rising_of : (xs : List (OrderBookLevel N)) → All IsPriced xs → rising xs ≡ true → Rising xs
    unfolding rising
    rising_of [] v h = tt
    rising_of (x ∷ []) v h = (tt, tt)
    rising_of (x ∷ y ∷ rest) (vx, (vy, v)) h =
        let (step, more) = (and_iff _ _).0 h in
        let (above, tail) = rising_of (y ∷ rest) (vy, v) more in
        let over = above_of_not_le y x vy vx step in
        ((over, above-All (price x) (price y) rest over above), (above, tail))

    -- Every bid is below every ask.
    abbrev pub Apart : List (OrderBookLevel N) → List (OrderBookLevel N) → Type 0
    Apart bids asks = All (λ b. All (λ a. o.lt (price b) (price a) ≡ true) asks) bids

    Apart-of :
        (bids asks : List (OrderBookLevel N))
        → Falling bids
        → Rising asks
        → uncrossed bids asks ≡ true
        → Apart bids asks
    Apart-of (b ∷ bids) (a ∷ asks) (below, f) (above, r) h =
        let best : All (λ c. o.lt (price b) (price c) ≡ true) (a ∷ asks) =
          (h, above-All (price b) (price a) asks h above) in
        (
          best,
          All-map
              (λ b' k. (
                laws.lt_trans (price b') (price b) (price a) k h,
                All-map (λ a' m. laws.lt_trans (price b') (price b) (price a') k m) asks best.1,
              ))
              bids below,
        )
    Apart-of [] asks f r h = tt
    Apart-of (b ∷ bids) [] f r h = cc

    IsSide-of :
        (xs : List (OrderBookLevel N))
        → not (is_empty xs) ≡ true
        → levels_valid xs ≡ true
        → IsSide xs
    unfolding levels_valid
    IsSide-of xs e h =
        let (numbers, levels) = (and_iff _ _).0 h in
        (ne_of_not_empty xs e, Numbered-of 1 xs numbers, (all_iff level_valid xs).0 levels)

    -- A book that passes has two sides, each numbered from 1 with a positive finite price and a
    -- quantity at every level; bids fall strictly, asks rise strictly, and every bid is below every
    -- ask, so that the first levels are the best ones.
    pub valid_book-IsOrdered :
        (bids asks : List (OrderBookLevel N))
        → valid_book bids asks ≡ true
        → IsSide bids × IsSide asks × Falling bids × Rising asks × Apart bids asks
    unfolding valid_book
    valid_book-IsOrdered bids asks h =
        let (b, h1) = (and_iff _ _).0 h in
        let (a, h2) = (and_iff _ _).0 h1 in
        let (bl, h3) = (and_iff _ _).0 h2 in
        let (al, h4) = (and_iff _ _).0 h3 in
        let (f, h5) = (and_iff _ _).0 h4 in
        let (r, u) = (and_iff _ _).0 h5 in
        let bs = IsSide-of bids b bl in
        let as' = IsSide-of asks a al in
        let fall = falling_of bids bs.2 f in
        let rise = rising_of asks as'.2 r in (bs, as', fall, rise, Apart-of bids asks fall rise u)
