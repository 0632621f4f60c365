-- ===== src/Base/Lists.antt =====
-- Lists measured by native numbers, tests over lists, and the lists of flags that the code builds:
-- `when b xs` is what `if b: flags.extend(xs)` adds.
use Prim.Native.Nat.{ℕ, zero, suc, ◌+◌}
use mathlib.Core.Path.{◌≡◌, refl}
use mathlib.Core.Logic.{◌↔◌, ◌⊎◌, inl, inr}
use mathlib.Core.Bool.{Bool, true, false, ◌&&◌, ◌||◌}
use mathlib.Core.List.{List, [], ◌∷◌, ◌++◌}
use native.Mathlib.Omega.{arith}
use agent_crypto.Base.Tests.{if◌then◌else◌, Bool-cases}

module _ {ℓ} {A : Type ℓ} where
  abbrev pub length : List A → ℕ
  length [] = 0
  length (x ∷ xs) = suc (length xs)

  abbrev pub take : ℕ → List A → List A
  take zero xs = []
  take (suc n) [] = []
  take (suc n) (x ∷ xs) = x ∷ take n xs

  abbrev pub drop : ℕ → List A → List A
  drop zero xs = xs
  drop (suc n) [] = []
  drop (suc n) (x ∷ xs) = drop n xs

  abbrev pub is_empty : List A → Bool
  is_empty [] = true
  is_empty (x ∷ xs) = false

  abbrev pub any : (A → Bool) → List A → Bool
  any p [] = false
  any p (x ∷ xs) = p x || any p xs

  abbrev pub all : (A → Bool) → List A → Bool
  all p [] = true
  all p (x ∷ xs) = p x && all p xs

  abbrev pub when : Bool → List A → List A
  when b xs = if b then xs else []

  -- What holds of every item of a list.
  abbrev pub All {κ} : (A → Type κ) → List A → Type κ
  All P [] = Unit
  All P (x ∷ xs) = P x × All P xs

module _ {ℓ} {A : Type ℓ} where
  pub length-append : (xs ys : List A) → length (xs ++ ys) ≡ length xs + length ys
  length-append [] ys = omega arith
  length-append (x ∷ xs) ys = omega (arith, length-append xs ys)

  pub append-eq-nil : (xs ys : List A) → xs ++ ys ≡ [] → (xs ≡ []) × (ys ≡ [])
  append-eq-nil [] ys h = (refl, h)
  append-eq-nil (x ∷ xs) ys h = cc

  pub eq_nil_of_is_empty : (xs : List A) → is_empty xs ≡ true → xs ≡ []
  eq_nil_of_is_empty [] h = refl
  eq_nil_of_is_empty (x ∷ xs) h = cc

  pub any-append : (p : A → Bool) (xs ys : List A) → any p (xs ++ ys) ≡ (any p xs || any p ys)
  any-append p [] ys = refl
  any-append p (x ∷ xs) ys = ground (arith, any-append p xs ys)

  pub all-append : (p : A → Bool) (xs ys : List A) → all p (xs ++ ys) ≡ (all p xs && all p ys)
  all-append p [] ys = refl
  all-append p (x ∷ xs) ys = ground (arith, all-append p xs ys)

  pub any-when : (p : A → Bool) (b : Bool) (x : A) → any p (when b (x ∷ [])) ≡ (b && p x)
  any-when p b x = ground arith

  pub all_iff : (p : A → Bool) (xs : List A) → (all p xs ≡ true) ↔ All (λ x. p x ≡ true) xs
  all_iff p [] = ((λ _. tt), λ _. refl)
  all_iff p (x ∷ xs) =
      let (to, from) = all_iff p xs in
      ((λ h. (ground arith, to (ground arith))), λ (hx, hs). ground (arith, from hs))

  pub any-eq-false_iff :
      (p : A → Bool) (xs : List A) → (any p xs ≡ false) ↔ All (λ x. p x ≡ false) xs
  any-eq-false_iff p [] = ((λ _. tt), λ _. refl)
  any-eq-false_iff p (x ∷ xs) =
      let (to, from) = any-eq-false_iff p xs in
      ((λ h. (ground arith, to (ground arith))), λ (hx, hs). ground (arith, from hs))

  pub when-eq-nil_iff : (b : Bool) (x : A) → (when b (x ∷ []) ≡ []) ↔ (b ≡ false)
  when-eq-nil_iff b x = ground arith

  pub All-map {κ μ} :
      {P : A → Type κ} {Q : A → Type μ}
      → ((x : A) → P x → Q x)
      → (xs : List A) → All P xs
      → All Q xs
  All-map f [] h = tt
  All-map f (x ∷ xs) (hx, hs) = (f x hx, All-map f xs hs)

  pub All-append_iff {κ} :
      (P : A → Type κ) (xs ys : List A) → All P (xs ++ ys) ↔ (All P xs × All P ys)
  All-append_iff P [] ys = ((λ h. (tt, h)), λ h. h.1)
  All-append_iff P (x ∷ xs) ys =
      let (to, from) = All-append_iff P xs ys in
      (
        (λ (h, hs). let (a, b) = to hs in ((h, a), b)),
        λ h. let ((hx, hxs), hys) = h in (hx, from (hxs, hys)),
      )

module _ {ℓ κ} {A : Type ℓ} {Q : A → Type κ} (p : A → Bool) where
  -- A test for a property, over a list.
  pub all-All_iff : ((x : A) → (p x ≡ true) ↔ Q x) → (xs : List A) → (all p xs ≡ true) ↔ All Q xs
  all-All_iff h [] = ((λ e. tt), λ e. refl)
  all-All_iff h (x ∷ xs) =
      let (to, from) = all-All_iff h xs in
      (
        (λ e. ((h x).0 (ground arith), to (ground arith))),
        λ (e, es). let a = (h x).1 e in let b = from es in ground arith,
      )

module _ {A : Type 0} where
  -- `x` stands in a list.
  abbrev pub Has : A → List A → Type 0
  Has x [] = ⊥
  Has x (y ∷ ys) = (y ≡ x) ⊎ Has x ys

  -- A test for one value finds it in exactly the lists that have it.
  pub any-Has_iff :
      (p : A → Bool) (x : A) (xs : List A)
      → ((y : A) → (p y ≡ true) ↔ (y ≡ x))
      → (any p xs ≡ true) ↔ Has x xs
  any-Has_iff p x [] h = ((λ e. cc), λ e. absurd e)
  any-Has_iff p x (y ∷ ys) h =
      let (to, from) = any-Has_iff p x ys h in
      (
        (λ e. elim (Bool-cases (p y)) [
          | inl hit ↦ inl ((h y).0 hit)
          | inr miss ↦ inr (to (ground arith))
        ]),
        λ e. elim e [
          | inl here ↦ let hit = (h y).1 here in ground arith
          | inr later ↦ let found = from later in ground arith
        ],
      )
