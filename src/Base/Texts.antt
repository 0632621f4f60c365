-- ===== src/Base/Texts.antt =====
-- Tests on texts: equality, membership, code points, and `dict.fromkeys` as a way to drop repeats.
use Prim.Native.Nat.{ℕ}
use Prim.Native.Char.{code}
use Prim.Native.String.{String, compare}
use text.Mathlib.Text.{◌==◌ as str_eq, is_lt}
use text.Mathlib.TextEquality.{eq_iff}
use mathlib.Core.Path.{◌≡◌, refl}
use mathlib.Core.Logic.{◌↔◌}
use mathlib.Core.Bool.{Bool, true, false, ◌||◌}
use mathlib.Core.List.{List, [], ◌∷◌, ◌++◌}
use native.Mathlib.Omega.{arith}
use agent_crypto.Base.Tests.{if◌then◌else◌}
use agent_crypto.Base.Lists.{any, all, any-append}

abbrev pub text_eq : String → String → Bool
text_eq a b = str_eq a b

-- `a < b`
abbrev pub text_lt : String → String → Bool
text_lt a b = is_lt (compare a b)

-- The code points of a text.
abbrev pub codes : String → List ℕ
codes String.[] = []
codes (String.◌∷◌ c s) = code c ∷ codes s

-- `x in xs`
abbrev pub contains : List String → String → Bool
contains xs x = any (λ y. text_eq x y) xs

-- `set(xs).issubset(ys)`
abbrev pub subset : List String → List String → Bool
subset xs ys = all (contains ys) xs

pub text_eq_iff : (a b : String) → (text_eq a b ≡ true) ↔ (a ≡ b)
text_eq_iff a b = eq_iff a b

pub text_eq_refl : (a : String) → text_eq a a ≡ true
text_eq_refl a = (eq_iff a a).1 refl

pub contains-append :
    (xs ys : List String) (x : String) → contains (xs ++ ys) x ≡ (contains xs x || contains ys x)
contains-append xs ys x = any-append (λ y. text_eq x y) xs ys

-- `tuple(dict.fromkeys(xs))`: each text at its first place.
from_keys : List String → List String → List String
from_keys seen [] = []
from_keys seen (x ∷ xs) =
    let new = x ∷ from_keys (x ∷ seen) xs in
    let old = from_keys seen xs in if contains seen x then old else new

unfoldable pub dedupe : List String → List String
unfolding from_keys
dedupe = from_keys []

from_keys-contains :
    (seen xs : List String) (y : String)
    → contains seen y ≡ false
    → contains (from_keys seen xs) y ≡ contains xs y
unfolding from_keys
from_keys-contains seen [] y h = refl
from_keys-contains seen (x ∷ xs) y h =
    ground (arith, eq_iff y x, from_keys-contains seen xs y, from_keys-contains (x ∷ seen) xs y)

-- Dropping repeats keeps the members.
pub contains-dedupe : (xs : List String) (y : String) → contains (dedupe xs) y ≡ contains xs y
unfolding dedupe
contains-dedupe xs y = from_keys-contains [] xs y refl

-- No text stands twice.
abbrev pub Distinct : List String → Type 0
Distinct [] = Unit {0}
Distinct (x ∷ xs) = (contains xs x ≡ false) × Distinct xs

from_keys_avoids :
    (seen xs : List String) (y : String)
    → contains seen y ≡ true
    → contains (from_keys seen xs) y ≡ false
unfolding from_keys
from_keys_avoids seen [] y h = refl
from_keys_avoids seen (x ∷ xs) y h =
    ground (arith, eq_iff y x, from_keys_avoids seen xs y, from_keys_avoids (x ∷ seen) xs y)

from_keys-Distinct : (seen xs : List String) → Distinct (from_keys seen xs)
unfolding from_keys
from_keys-Distinct seen [] = tt
from_keys-Distinct seen (x ∷ xs) = ground (
  arith,
  eq_iff x x,
  from_keys-Distinct seen xs,
  from_keys-Distinct (x ∷ seen) xs,
  from_keys_avoids (x ∷ seen) xs x,
)

pub dedupe-Distinct : (xs : List String) → Distinct (dedupe xs)
unfolding dedupe
dedupe-Distinct xs = from_keys-Distinct [] xs

-- Dropping repeats leaves nothing only of nothing.
pub dedupe-eq-nil_iff : (xs : List String) → (dedupe xs ≡ []) ↔ (xs ≡ [])
unfolding dedupe from_keys
dedupe-eq-nil_iff [] = ((λ h. h), λ h. h)
dedupe-eq-nil_iff (x ∷ xs) = ground arith

pub any_of-contains :
    (p : String → Bool) (xs : List String) (x : String)
    → contains xs x ≡ true
    → p x ≡ true
    → any p xs ≡ true
any_of-contains p [] x h e = cc
any_of-contains p (y ∷ ys) x h e = ground (arith, eq_iff x y, any_of-contains p ys x)
