-- ===== src/Numbers/Ranges.antt =====
-- What the tests on values say: each is equivalent to a statement about the value.
use agent_crypto.Base.{ℕ, String, true, false, ◌≡◌, refl, ◌↔◌, ◌≤◌, some, arith, pos, text_eq_iff}
use agent_crypto.Numbers.{
  Numbers, Value, absent, boolean, number, text, other, is_text, is_true, is_false, int_of,
  strict_int_between, is_int, int_at_least, finite_between, finite_positive, is_inked, whole,
}
use agent_crypto.Patterns.{has_ink}

module _ {N : Type 0} ⦃o : Numbers N⦄ where
  -- An int of the range.
  abbrev pub IsIntIn : ℕ → ℕ → Value N → Type 0
  IsIntIn lower upper v = (n : ℕ) × (int_of v ≡ some (pos n)) × (lower ≤ n) × (n ≤ upper)

  -- A finite number of the range, that is no bool.
  abbrev pub IsFiniteIn : N → N → Value N → Type 0
  IsFiniteIn lower upper v =
      (x : N) × (v ≡ number x)
      × (o.is_finite (o.to_float x) ≡ true)
      × (o.le lower (o.to_float x) ≡ true)
      × (o.le (o.to_float x) upper ≡ true)

  pub is_text_iff : (s : String) (v : Value N) → (is_text s v ≡ true) ↔ (v ≡ text s)
  is_text_iff s (text t) = ground (arith, text_eq_iff t s)
  is_text_iff s _ = ground arith

  pub is_true_iff : (v : Value N) → (is_true v ≡ true) ↔ (v ≡ boolean true)
  is_true_iff (boolean b) = ground arith
  is_true_iff _ = ground arith

  pub is_false_iff : (v : Value N) → (is_false v ≡ true) ↔ (v ≡ boolean false)
  is_false_iff (boolean b) = ground arith
  is_false_iff _ = ground arith

  int_between-IsIntIn :
      (lower upper : ℕ) (v : Value N)
      → strict_int_between v lower upper ≡ true
      → IsIntIn lower upper v
  unfolding strict_int_between
  int_between-IsIntIn lower upper v h = ground arith

  IsIntIn-int_between :
      (lower upper : ℕ) (v : Value N)
      → IsIntIn lower upper v
      → strict_int_between v lower upper ≡ true
  unfolding strict_int_between
  IsIntIn-int_between lower upper v (n, e, l, u) = rw e (ground arith)

  pub strict_int_between_iff :
      (lower upper : ℕ) (v : Value N)
      → (strict_int_between v lower upper ≡ true) ↔ IsIntIn lower upper v
  strict_int_between_iff lower upper v =
      (int_between-IsIntIn lower upper v, IsIntIn-int_between lower upper v)

  pub is_int_iff : (n : ℕ) (v : Value N) → (is_int n v ≡ true) ↔ (int_of v ≡ some (pos n))
  unfolding is_int
  is_int_iff n v = ground arith

  pub finite_between_iff :
      (lower upper : N) (v : Value N)
      → (finite_between v lower upper ≡ true) ↔ IsFiniteIn lower upper v
  unfolding finite_between
  finite_between_iff lower upper (number x) =
      ((λ h. (x, refl, ground arith, ground arith, ground arith)), λ (y, e, f, l, u). ground arith)
  finite_between_iff lower upper absent = ((λ h. ground arith), λ (y, e, f, l, u). ground arith)
  finite_between_iff lower upper (boolean b) =
      ((λ h. ground arith), λ (y, e, f, l, u). ground arith)
  finite_between_iff lower upper (text s) = ((λ h. ground arith), λ (y, e, f, l, u). ground arith)
  finite_between_iff lower upper other = ((λ h. ground arith), λ (y, e, f, l, u). ground arith)

  -- An int of at least `n`.
  abbrev pub IsIntFrom : ℕ → Value N → Type 0
  IsIntFrom n v = (k : ℕ) × (int_of v ≡ some (pos k)) × (n ≤ k)

  -- A finite positive number, that is no bool.
  abbrev pub IsFinitePos : Value N → Type 0
  IsFinitePos v =
      (x : N) × (v ≡ number x)
      × (o.is_finite (o.to_float x) ≡ true)
      × (o.lt (whole 0) (o.to_float x) ≡ true)

  -- A text with something to read.
  abbrev pub IsInked : Value N → Type 0
  IsInked v = (s : String) × (v ≡ text s) × (has_ink s ≡ true)

  from_of_int_at_least : (n : ℕ) (v : Value N) → int_at_least n v ≡ true → IsIntFrom n v
  unfolding int_at_least
  from_of_int_at_least n v h = ground arith

  int_at_least_of : (n : ℕ) (v : Value N) → IsIntFrom n v → int_at_least n v ≡ true
  unfolding int_at_least
  int_at_least_of n v (k, e, l) = rw (e, int_at_least) (ground arith)

  pub int_at_least_iff : (n : ℕ) (v : Value N) → (int_at_least n v ≡ true) ↔ IsIntFrom n v
  int_at_least_iff n v = (from_of_int_at_least n v, int_at_least_of n v)

  pub finite_positive_iff : (v : Value N) → (finite_positive v ≡ true) ↔ IsFinitePos v
  unfolding finite_positive
  finite_positive_iff (number x) =
      ((λ h. (x, refl, ground arith, ground arith)), λ (y, e, f, l). ground arith)
  finite_positive_iff absent = ((λ h. ground arith), λ (y, e, f, l). ground arith)
  finite_positive_iff (boolean b) = ((λ h. ground arith), λ (y, e, f, l). ground arith)
  finite_positive_iff (text s) = ((λ h. ground arith), λ (y, e, f, l). ground arith)
  finite_positive_iff other = ((λ h. ground arith), λ (y, e, f, l). ground arith)

  pub is_inked_iff : (v : Value N) → (is_inked v ≡ true) ↔ IsInked v
  unfolding is_inked
  is_inked_iff (text s) = ((λ h. (s, refl, h)), λ (t, e, h). ground arith)
  is_inked_iff absent = ((λ h. ground arith), λ (y, e, f). ground arith)
  is_inked_iff (boolean b) = ((λ h. ground arith), λ (y, e, f). ground arith)
  is_inked_iff (number x) = ((λ h. ground arith), λ (y, e, f). ground arith)
  is_inked_iff other = ((λ h. ground arith), λ (y, e, f). ground arith)
