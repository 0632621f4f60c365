-- ===== src/Checked.antt =====
-- What a `validate` of a policy does: it collects the messages of the tests that fail, and raises
-- its configuration error with them if there is one.
use agent_crypto.Base.{
  Bool, true, ◌≡◌, ◌↔◌, Option, none, some, refl, List, [], ◌∷◌, String, if◌then◌else◌, All, arith,
}

pub data Checked {ℓ} (A : Type ℓ) : Type ℓ where
  accepted : A → Checked A
  rejected : List String → Checked A
  -- A comparison raised TypeError.
  crashed : Checked A

-- A condition that has to hold, and the message if it does not.
abbrev pub Check : Type 0
Check = Bool × String

unfoldable pub errors_of : List Check → List String
errors_of [] = []
errors_of ((holds, message) ∷ checks) =
    let rest = errors_of checks in if holds then rest else message ∷ rest

abbrev pub raise_if_any : List String → Checked (Unit {0})
raise_if_any [] = accepted tt
raise_if_any (e ∷ es) = rejected (e ∷ es)

abbrev pub AllHold : List Check → Type 0
AllHold = All (λ c. c.0 ≡ true)

pub errors_of-eq-nil_iff : (checks : List Check) → (errors_of checks ≡ []) ↔ AllHold checks
unfolding errors_of
errors_of-eq-nil_iff [] = ((λ _. tt), λ _. (ground arith))
errors_of-eq-nil_iff ((holds, message) ∷ checks) =
    let (to, from) = errors_of-eq-nil_iff checks in
    ((λ h. (ground arith, to (ground arith))), λ (hx, hs). ground (arith, from hs))

-- Nothing is raised exactly when every condition holds.
pub accepted_iff :
    (checks : List Check) → (raise_if_any (errors_of checks) ≡ accepted tt) ↔ AllHold checks
accepted_iff checks =
    let (to, from) = errors_of-eq-nil_iff checks in
    ((λ h. to (ground arith)), λ hs. ground (arith, from hs))

-- The messages collected, or `none` if a comparison on the way raised TypeError.
abbrev pub Collected : Type 0
Collected = Option (List String)

abbrev pub conclude : Collected → Checked (Unit {0})
conclude none = crashed
conclude (some es) = raise_if_any es

pub conclude_iff : (c : Collected) → (conclude c ≡ accepted tt) ↔ (c ≡ some [])
conclude_iff none = ground arith
conclude_iff (some []) = ((λ h. refl), λ h. refl)
conclude_iff (some (e ∷ es)) = ground arith

-- The message of the first test that fails, where each raises at once.
abbrev pub first_error : List Check → Option String
first_error [] = none
first_error ((ok, code) ∷ rest) = let later = first_error rest in if ok then later else some code

-- Nothing is raised exactly when every condition holds, also here.
pub first_error_iff : (checks : List Check) → (first_error checks ≡ none) ↔ AllHold checks
first_error_iff [] = ((λ h. tt), λ h. refl)
first_error_iff ((ok, code) ∷ rest) =
    let (to, from) = first_error_iff rest in
    ((λ h. (ground arith, to (ground arith))), λ (h, hs). ground (arith, from hs))
