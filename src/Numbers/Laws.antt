-- ===== src/Numbers/Laws.antt =====
-- What the proofs rely on of Python's numbers: the documented order of IEEE 754 floats and ints.
use agent_crypto.Base.{true, false, ◌≡◌, ℤ, some}
use agent_crypto.Numbers.{Numbers}

pub record OrderLaws {N : Type 0} (o : Numbers N) : Type 0 where
  pub lt_trans : (x y z : N) → o.lt x y ≡ true → o.lt y z ≡ true → o.lt x z ≡ true
  pub lt_of_not_le :
      (x y : N)
      → o.is_finite (o.to_float x) ≡ true
      → o.is_finite (o.to_float y) ≡ true
      → o.le x y ≡ false
      → o.lt y x ≡ true

-- `type(n) is int` of an int, with its value.
pub record IntLaws {N : Type 0} (o : Numbers N) : Type 0 where
  pub int?-integer : (z : ℤ) → o.int? (o.integer z) ≡ some z

-- The order of finite numbers, and that `float` keeps it.
pub record BoundLaws {N : Type 0} (o : Numbers N) : Type 0 where
  pub le_refl : (x : N) → o.is_finite (o.to_float x) ≡ true → o.le x x ≡ true
  pub le_of_lt : (x y : N) → o.lt x y ≡ true → o.le x y ≡ true
  pub le-to_float : (x y : N) → o.le x y ≡ true → o.le (o.to_float x) (o.to_float y) ≡ true

-- The equality of finite floats, and of an int with the number that stands for it.
pub record EqLaws {N : Type 0} (o : Numbers N) : Type 0 where
  pub eq-to_float :
      (x : N) → o.is_finite (o.to_float x) ≡ true → o.eq (o.to_float x) (o.to_float x) ≡ true
  pub eq-integer : (x : N) (z : ℤ) → o.int? x ≡ some z → o.eq x (o.integer z) ≡ true
  pub eq_integer_self : (z : ℤ) → o.eq (o.integer z) (o.integer z) ≡ true
