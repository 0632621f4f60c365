-- ===== src/Base/Sorting.antt =====
-- `sorted(items, key=...)` for keys that are numbers: stable, by insertion.
use Prim.Native.Nat.{ℕ, ◌≤◌, ◌+◌}
use mathlib.Core.Logic.{inl, inr}
use mathlib.Core.Path.{◌≡◌, refl}
use mathlib.Core.Bool.{true, false}
use mathlib.Core.List.{List, [], ◌∷◌}
use native.Mathlib.Omega.{arith}
use agent_crypto.Base.Tests.{if◌then◌else◌, leb, Bool-cases, leb→le}
use agent_crypto.Base.Lists.{All, length}

module _ {A : Type 0} (key : A → ℕ) where
  pub insert_sorted : A → List A → List A
  insert_sorted x [] = x ∷ []
  insert_sorted x (y ∷ ys) =
      let rest = insert_sorted x ys in if leb (key x) (key y) then x ∷ (y ∷ ys) else y ∷ rest

  unfoldable pub sort_by : List A → List A
  unfolding insert_sorted
  sort_by [] = []
  sort_by (x ∷ xs) = insert_sorted x (sort_by xs)

  -- Every key is at most the keys behind it.
  abbrev pub Sorted : List A → Type 0
  Sorted [] = Unit {0}
  Sorted (x ∷ xs) = All (λ y. key x ≤ key y) xs × Sorted xs

  All-insert {κ} :
      (P : A → Type κ) (x : A) (ys : List A) → P x → All P ys → All P (insert_sorted x ys)
  unfolding insert_sorted
  All-insert P x [] hx h = (hx, tt)
  All-insert P x (y ∷ ys) hx (hy, h) =
      elim (leb (key x) (key y))
        as (λ b. All P (if b then x ∷ (y ∷ ys) else y ∷ insert_sorted x ys)) [
          | true ↦ (hx, (hy, h))
          | false ↦ (hy, All-insert P x ys hx h)
        ]

  -- What holds of every item holds of every sorted item.
  pub All-sort {κ} : (P : A → Type κ) (xs : List A) → All P xs → All P (sort_by xs)
  unfolding sort_by
  All-sort P [] h = tt
  All-sort P (x ∷ xs) (hx, h) = All-insert P x (sort_by xs) hx (All-sort P xs h)

  le-All : (a b : ℕ) (ys : List A) → a ≤ b → All (λ y. b ≤ key y) ys → All (λ y. a ≤ key y) ys
  le-All a b [] h k = tt
  le-All a b (y ∷ ys) h (ky, k) = (omega arith, le-All a b ys h k)

  insert-Sorted : (x : A) (ys : List A) → Sorted ys → Sorted (insert_sorted x ys)
  unfolding insert_sorted
  insert-Sorted x [] h = (tt, tt)
  insert-Sorted x (y ∷ ys) (below, h) = elim (Bool-cases (leb (key x) (key y))) [
    | inl le ↦ rw le ((leb→le _ _ le, le-All (key x) (key y) ys (leb→le _ _ le) below), (below, h))
    | inr gt ↦
        rw gt (All-insert (λ z. key y ≤ key z) x ys (ground arith) below, insert-Sorted x ys h)
  ]

  pub sort_by-Sorted : (xs : List A) → Sorted (sort_by xs)
  unfolding sort_by
  sort_by-Sorted [] = tt
  sort_by-Sorted (x ∷ xs) = insert-Sorted x (sort_by xs) (sort_by-Sorted xs)

  length-insert : (x : A) (ys : List A) → length (insert_sorted x ys) ≡ length ys + 1
  unfolding insert_sorted
  length-insert x [] = omega arith
  length-insert x (y ∷ ys) = ground (arith, length-insert x ys)

  pub length-sort : (xs : List A) → length (sort_by xs) ≡ length xs
  unfolding sort_by
  length-sort [] = refl
  length-sort (x ∷ xs) = omega (arith, length-insert x (sort_by xs), length-sort xs)
