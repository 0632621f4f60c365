-- ===== src/Numbers/Sample.antt =====
-- A concrete kind of numbers, on which the definitions run and the laws hold: ints, and fixed-point
-- numbers that count ten-thousandths.
use agent_crypto.Base.{
  ◌≡◌, ℕ, ◌+◌, ◌-◌, ◌*◌, ◌/◌, ◌^◌, true, Option, none, some, List, [], ◌∷◌, ℤ, pos, negsuc,
  pos_part, neg_part, ltb_ℤ, leb_ℤ, eqb_ℤ, leb, length, if◌then◌else◌, arith, refl,
}
use agent_crypto.Numbers.{Numbers}
use agent_crypto.Numbers.Laws.{OrderLaws, IntLaws, BoundLaws, EqLaws}

pub data Decimal : Type 0 where
  int : ℤ → Decimal
  fixed : ℤ → Decimal

abbrev sub_ℕ : ℕ → ℕ → ℤ
sub_ℕ a b = if leb b a then pos (a - b) else negsuc (b - a - 1)

abbrev over : ℤ → ℕ → ℤ
over z n = sub_ℕ (pos_part z / n) (neg_part z / n)

abbrev times : ℤ → ℤ → ℤ
times a b =
    sub_ℕ (pos_part a * pos_part b + neg_part a * neg_part b)
      (pos_part a * neg_part b + neg_part a * pos_part b)

abbrev plus : ℤ → ℤ → ℤ
plus a b = sub_ℕ (pos_part a + pos_part b) (neg_part a + neg_part b)

abbrev minus : ℤ → ℤ → ℤ
minus a b = sub_ℕ (pos_part a + neg_part b) (neg_part a + pos_part b)

abbrev units : Decimal → ℤ
units (int z) = times z (pos 10000)
units (fixed z) = z

-- Division by a negative number is not needed.
abbrev quotient : ℤ → ℤ → ℤ
quotient a b = over (times a (pos 10000)) (pos_part b)

abbrev magnitude : ℤ → ℤ
magnitude z = pos (pos_part z + neg_part z)

abbrev sum_units : List Decimal → ℤ
sum_units [] = pos 0
sum_units (x ∷ xs) = plus (units x) (sum_units xs)

abbrev is_int_form : Decimal → Option ℤ
is_int_form (int z) = some z
is_int_form (fixed z) = none

abbrev mean_of : List Decimal → Option Decimal
mean_of [] = none
mean_of (x ∷ xs) = some (fixed (over (sum_units (x ∷ xs)) (length (x ∷ xs))))

-- The mean distance from the mean stands in for the standard deviation: it too is 0 for equal items.
abbrev distances : ℤ → List Decimal → ℤ
distances m [] = pos 0
distances m (x ∷ xs) = plus (magnitude (minus (units x) m)) (distances m xs)

abbrev spread_of : List Decimal → Option Decimal
spread_of [] = none
spread_of (x ∷ xs) =
    let n = length (x ∷ xs) in
    some (fixed (over (distances (over (sum_units (x ∷ xs)) n) (x ∷ xs)) n))

instance abbrev pub decimals : Numbers Decimal
decimals = record {
  lt = λ x y. ltb_ℤ (units x) (units y);
  le = λ x y. leb_ℤ (units x) (units y);
  eq = λ x y. eqb_ℤ (units x) (units y);
  int? = is_int_form;
  integer = int;
  decimal = λ m k. fixed (over (pos (m * 10000)) (10 ^ k));
  to_float = λ x. fixed (units x);
  is_finite = λ x. true;
  abs = λ x. fixed (magnitude (units x));
  add = λ x y. fixed (plus (units x) (units y));
  sub = λ x y. fixed (minus (units x) (units y));
  mul = λ x y. fixed (over (times (units x) (units y)) 10000);
  div = λ x y. fixed (quotient (units x) (units y));
  round = λ x k. x;
  total = λ xs. fixed (sum_units xs);
  mean = mean_of;
  deviation = spread_of;
  is_close = λ x y. eqb_ℤ (units x) (units y);
  scale = λ d x. d * pos_part (units x) / 10000;
  micros = λ x. pos_part (units x) * 100;
  seconds_between = λ a b. fixed (over (sub_ℕ b a) 100);
}

pub decimals-OrderLaws : OrderLaws decimals
decimals-OrderLaws = record {
  lt_trans = λ x y z h k. ground arith;
  lt_of_not_le = λ x y fx fy h. ground arith;
}

pub decimals-IntLaws : IntLaws decimals
decimals-IntLaws = record { int?-integer = λ z. refl }

pub decimals-BoundLaws : BoundLaws decimals
decimals-BoundLaws = record {
  le_refl = λ x f. ground arith;
  le_of_lt = λ x y h. ground arith;
  le-to_float = λ x y h. h;
}

eq_of_int_form : (x : Decimal) (z : ℤ) → is_int_form x ≡ some z → decimals.eq x (int z) ≡ true
eq_of_int_form (int y) z h = ground arith
eq_of_int_form (fixed y) z h = ground arith

pub decimals-EqLaws : EqLaws decimals
decimals-EqLaws = record {
  eq-to_float = λ x f. ground arith;
  eq-integer = eq_of_int_form;
  eq_integer_self = λ z. ground arith;
}
