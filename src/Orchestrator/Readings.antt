-- ===== src/Orchestrator/Readings.antt =====
-- What each part of a bridge response is known for, once it was read.
use agent_crypto.Base.{
  ℕ, suc, zero, ◌-◌, ◌≤◌, String, true, false, ◌≡◌, refl, subst, Option, some, List, [], ◌∷◌, All,
  length, drop, arith, Bool-cases, inl, inr, text_eq, text_eq_iff, text_eq_refl, pos,
}
use agent_crypto.Numbers.{Numbers, Value, number, text}
use agent_crypto.Numbers.Laws.{EqLaws}
use agent_crypto.Clock.{Datetime}
use agent_crypto.Patterns.{is_opaque}
use agent_crypto.Domain.{Candle}
use agent_crypto.Futures.Book.{t4_source_id}
use agent_crypto.Futures.Lifecycle.{Parser}
use agent_crypto.Providers.T4.Response.{ends_with_id}
use agent_crypto.Providers.T4.Reading.{
  Json, Fields, each, scalar_at, opaque_t4_id, number_in, require, as_object,
}
use agent_crypto.Providers.T4.Evidence.{
  parse_candle, is_candle, candle_of, candle_prices, candle_times,
}
use agent_crypto.Orchestrator.Attested.{eq_datetime, eq_candle}
use agent_crypto.Orchestrator.Payloads.{bound_of}

module _ {A B : Type 0} (f : A → Option B) where
  pub each-All {κ} :
      (P : B → Type κ)
      → ((x : A) (y : B) → f x ≡ some y → P y)
      → (xs : List A) (ys : List B) → each f xs ≡ some ys
      → All P ys
  unfolding each
  each-All P h [] [] e = tt
  each-All P h [] (y ∷ ys) e = cc
  each-All P h (x ∷ xs) [] e = tt
  each-All P h (x ∷ xs) (y ∷ ys) e = (h x y (ground arith), each-All P h xs ys (ground arith))

  pub length-each : (xs : List A) (ys : List B) → each f xs ≡ some ys → length ys ≡ length xs
  unfolding each
  length-each [] [] e = refl
  length-each [] (y ∷ ys) e = cc
  length-each (x ∷ xs) [] e = absurd (ground arith)
  length-each (x ∷ xs) (y ∷ ys) e = omega (arith, length-each xs ys (ground arith))

module _ {A : Type 0} where
  pub All-drop {κ} : (P : A → Type κ) (n : ℕ) (xs : List A) → All P xs → All P (drop n xs)
  All-drop P zero xs h = h
  All-drop P (suc n) [] h = tt
  All-drop P (suc n) (x ∷ xs) (_, h) = All-drop P n xs h

  pub length-drop : (n : ℕ) (xs : List A) → length (drop n xs) ≡ length xs - n
  length-drop zero xs = omega arith
  length-drop (suc n) [] = omega arith
  length-drop (suc n) (x ∷ xs) = omega (arith, length-drop n xs)

pub ends-drop :
    (s : String) (n : ℕ) (xs : List String)
    → suc n ≤ length xs
    → ends_with_id s xs ≡ true
    → ends_with_id s (drop n xs) ≡ true
ends-drop s zero xs l h = h
ends-drop s (suc n) [] l h = absurd (ground arith)
ends-drop s (suc n) (x ∷ []) l h = absurd (omega arith)
ends-drop s (suc n) (x ∷ y ∷ ys) l h = ends-drop s n (y ∷ ys) (omega arith) h

pub is_opaque-ne-empty : (n : ℕ) (s : String) → is_opaque n s ≡ true → text_eq s "" ≡ false
unfolding is_opaque
is_opaque-ne-empty n s h = elim (Bool-cases (text_eq s "")) [
  | inl empty ↦
      absurd (none_opaque (subst (λ t. is_opaque n t ≡ true) ((text_eq_iff s "").0 empty) h))
  | inr other ↦ other
]
  where
    none_opaque : is_opaque n "" ≡ true → ⊥
    none_opaque e = ground arith

eq_datetime_self : (t : Datetime) → eq_datetime t t ≡ true
eq_datetime_self t = ground arith

module _ {N : Type 0} ⦃o : Numbers N⦄ where
  pub opaque-named :
      (n : ℕ) (v : Value N) (s : String) → opaque_t4_id n v ≡ some s → text_eq s "" ≡ false
  unfolding opaque_t4_id
  opaque-named n (text t) s h = let known = is_opaque-ne-empty n t in ground arith
  opaque-named n _ s h = cc

  number_in-eq : (laws : EqLaws o) (v : Value N) (x : N) → number_in v ≡ some x → o.eq x x ≡ true
  unfolding number_in
  number_in-eq laws (number y) x h = let self = laws.eq-to_float y in ground arith
  number_in-eq laws _ x h = cc

  -- A read candle is of the source, and equal to itself.
  abbrev pub IsOwn : Candle N → Type 0
  IsOwn c = (text_eq c.source t4_source_id ≡ true) × (eq_candle c c ≡ true)

  prices-eq :
      (laws : EqLaws o) (parse : Parser) (fields : Fields N) (a b c d e : N)
      → candle_prices parse fields ≡ some (a, b, c, d, e)
      → (o.eq a a ≡ true)
        × (o.eq b b ≡ true)
        × (o.eq c c ≡ true)
        × (o.eq d d ≡ true)
        × (o.eq e e ≡ true)
  unfolding candle_prices
  prices-eq laws parse fields a b c d e h = (
    number_in-eq laws (scalar_at fields "open") a (ground arith),
    number_in-eq laws (scalar_at fields "high") b (ground arith),
    number_in-eq laws (scalar_at fields "low") c (ground arith),
    number_in-eq laws (scalar_at fields "close") d (ground arith),
    number_in-eq laws (scalar_at fields "volume") e (ground arith),
  )

  candle_of-IsOwn :
      (laws : EqLaws o) (symbol : String) (interval : ℕ)
      (times : Datetime × Datetime × Datetime × Datetime) (t : N × N × N × N × N)
      → (o.eq t.0 t.0 ≡ true)
        × (o.eq t.1 t.1 ≡ true)
        × (o.eq t.2 t.2 ≡ true)
        × (o.eq t.3 t.3 ≡ true)
        × (o.eq t.4 t.4 ≡ true)
      → IsOwn (candle_of symbol interval times t)
  unfolding eq_candle
  candle_of-IsOwn laws symbol interval times t h =
      let name = text_eq_refl symbol in
      let count = laws.eq_integer_self (pos interval) in
      let first = eq_datetime_self times.0 in
      let second = eq_datetime_self times.1 in
      let third = eq_datetime_self times.2 in
      let fourth = eq_datetime_self times.3 in (text_eq_refl t4_source_id, ground arith)

  candle-Priced :
      (parse : Parser) (symbol : String) (interval : ℕ) (j : Json N) (c : Candle N)
      → parse_candle parse symbol interval j ≡ some c
      → (fields : Fields N) × (times : Datetime × Datetime × Datetime × Datetime) × (t : N × N × N
          × N × N)
        × (candle_prices parse fields ≡ some t)
        × (candle_of symbol interval times t ≡ c)
  unfolding parse_candle
  candle-Priced parse symbol interval j c h =
      let (fields, e0, h0) = bound_of (as_object j) _ c h in
      let (_, e1, h1) = bound_of (require (is_candle parse symbol interval fields)) _ c h0 in
      let (times, e2, h2) = bound_of (candle_times parse fields) _ c h1 in
      let (prices, e3, h3) = bound_of (candle_prices parse fields) _ c h2 in
      (fields, times, prices, e3, ground arith)

  pub candle-IsOwn :
      (laws : EqLaws o) (parse : Parser) (symbol : String) (interval : ℕ) (j : Json N)
      (c : Candle N)
      → parse_candle parse symbol interval j ≡ some c
      → IsOwn c
  candle-IsOwn laws parse symbol interval j c h =
      let (fields, times, prices, read, same) = candle-Priced parse symbol interval j c h in
      subst IsOwn same (
        candle_of-IsOwn laws symbol interval times prices
          (prices-eq laws parse fields prices.0 prices.1 prices.2 prices.3 prices.4 read))
