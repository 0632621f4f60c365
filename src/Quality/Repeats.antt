-- ===== src/Quality/Repeats.antt =====
-- What is left once the repeats are dropped: one candle of each open time, in their order.
use agent_crypto.Base.{
  subst, sym, ℕ, ◌≤◌, ◌<◌, none, some, List, [], ◌∷◌, ◌++◌, ◌≡◌, All, All-append_iff, arith, Sorted,
  sort_by-Sorted, Option-cases, inl, inr, sort_by,
}
use agent_crypto.Domain.{Candle}
use agent_crypto.Quality.{opened, seen_at, first_of_each, deduplicate_exact_candles}

module _ {N : Type 0} where
  -- Each candle opens before all behind it.
  abbrev pub Ascending : List (Candle N) → Type 0
  Ascending [] = Unit {0}
  Ascending (c ∷ cs) = All (λ d. opened c < opened d) cs × Ascending cs

  -- No candle of the list opens after `t`.
  abbrev IsUpTo : ℕ → List (Candle N) → Type 0
  IsUpTo t = All (λ c. opened c ≤ t)

  Ascending-append :
      (c : Candle N) (cs : List (Candle N))
      → Ascending cs
      → All (λ d. opened d < opened c) cs
      → Ascending (cs ++ c ∷ [])
  Ascending-append c [] h k = (tt, tt)
  Ascending-append c (d ∷ ds) (below, h) (e, k) = (
    (All-append_iff (λ b. opened d < opened b) ds (c ∷ [])).1 (below, (e, tt)),
    Ascending-append c ds h k,
  )

  -- An open time that was not seen, and after which nothing seen opens, is after all that was seen.
  seen_at-Below :
      (t : ℕ) (cs : List (Candle N))
      → seen_at t cs ≡ none
      → IsUpTo t cs
      → All (λ c. opened c < t) cs
  unfolding seen_at
  seen_at-Below t [] h k = tt
  seen_at-Below t (c ∷ cs) h (e, k) = (ground arith, seen_at-Below t cs (ground arith) k)

  IsUpTo-le : (s t : ℕ) (cs : List (Candle N)) → s ≤ t → IsUpTo s cs → IsUpTo t cs
  IsUpTo-le s t [] h k = tt
  IsUpTo-le s t (c ∷ cs) h (e, k) = (omega arith, IsUpTo-le s t cs h k)

  -- No candle seen opens after one that is left.
  abbrev IsBehind : List (Candle N) → List (Candle N) → Type 0
  IsBehind cs seen = All (λ c. IsUpTo (opened c) seen) cs

  seen-IsBehind :
      (c : Candle N) (seen cs : List (Candle N))
      → All (λ d. opened c ≤ opened d) cs
      → IsBehind cs seen
      → IsBehind cs (seen ++ c ∷ [])
  seen-IsBehind c seen [] h k = tt
  seen-IsBehind c seen (d ∷ ds) (e, h) (f, k) = (
    (All-append_iff (λ b. opened b ≤ opened d) seen (c ∷ [])).1 (f, (e, tt)),
    seen-IsBehind c seen ds h k,
  )

  first_of_each-new :
      (c : Candle N) (seen cs : List (Candle N))
      → seen_at (opened c) seen ≡ none
      → first_of_each seen (c ∷ cs) ≡ first_of_each (seen ++ c ∷ []) cs
  unfolding first_of_each
  first_of_each-new c seen cs h = ground arith

  first_of_each-old :
      (c old : Candle N) (seen cs : List (Candle N))
      → seen_at (opened c) seen ≡ some old
      → first_of_each seen (c ∷ cs) ≡ first_of_each seen cs
  unfolding first_of_each
  first_of_each-old c old seen cs h = ground arith

  first_of_each-Ascending :
      (seen cs : List (Candle N))
      → Ascending seen
      → Sorted opened cs
      → IsBehind cs seen
      → Ascending (first_of_each seen cs)
  unfolding first_of_each
  first_of_each-Ascending seen [] h k b = h
  first_of_each-Ascending seen (c ∷ cs) h (below, k) (up, b) =
      elim (Option-cases (seen_at (opened c) seen)) [
        | inl new ↦ subst Ascending (sym (first_of_each-new c seen cs new)) (
            first_of_each-Ascending (seen ++ c ∷ []) cs
              (Ascending-append c seen h (seen_at-Below (opened c) seen new up)) k
              (seen-IsBehind c seen cs below b))
        | inr (old, e) ↦
            subst Ascending (sym (first_of_each-old c old seen cs e))
              (first_of_each-Ascending seen cs h k b)
      ]

  nothing-IsBehind : (cs : List (Candle N)) → IsBehind cs []
  nothing-IsBehind [] = tt
  nothing-IsBehind (c ∷ cs) = (tt, nothing-IsBehind cs)

  pub deduplicate_exact_candles-Ascending :
      (candles : List (Candle N)) → Ascending (deduplicate_exact_candles candles)
  unfolding deduplicate_exact_candles
  deduplicate_exact_candles-Ascending candles =
      first_of_each-Ascending [] (sort_by opened candles) tt (sort_by-Sorted opened candles)
        (nothing-IsBehind (sort_by opened candles))
