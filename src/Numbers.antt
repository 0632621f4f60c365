-- ===== src/Numbers.antt =====
-- Python's numbers and the values that a field of no checked type may hold.
--
-- The numbers are a parameter `N` with the operations that the code uses: floats, and those ints
-- that `float()` converts (an int beyond the range of floats, for which `float()` raises
-- OverflowError, is not modelled). `int? x` tells whether `type(x) is int` and gives the integer.
-- A bool is no member of `N`: it is a `Value` of its own, as the guards of the code require.
pub mod Laws
pub mod Ranges
pub mod Sample
use agent_crypto.Patterns.{has_ink}
use agent_crypto.Base.{
  ℕ, String, Bool, true, false, ◌&&◌, not, Option, none, some, List, ℤ, pos, negsuc, ltb_ℤ, leb_ℤ,
  ltb, leb, ◌==◌, eqb_ℤ, if◌then◌else◌, text_eq, text_lt, any,
}

pub record Numbers (N : Type 0) : Type 0 where
  pub lt : N → N → Bool
  pub le : N → N → Bool
  pub eq : N → N → Bool
  pub int? : N → Option ℤ
  pub integer : ℤ → N
  -- The float literal m / 10 ^ k.
  pub decimal : ℕ → ℕ → N
  pub to_float : N → N
  pub is_finite : N → Bool
  pub abs : N → N
  pub add : N → N → N
  pub sub : N → N → N
  pub mul : N → N → N
  pub div : N → N → N
  -- `round(x, k)`
  pub round : N → ℕ → N
  -- `sum(xs)`
  pub total : List N → N
  -- `statistics.fmean(xs)` and `statistics.pstdev(xs)`; `none` is OverflowError or StatisticsError.
  pub mean : List N → Option N
  pub deviation : List N → Option N
  -- `math.isclose(x, y, rel_tol=1e-12, abs_tol=1e-12)`
  pub is_close : N → N → Bool
  -- `timedelta * x`, in microseconds
  pub scale : ℕ → N → ℕ
  -- `timedelta(seconds=x)`, in microseconds, for an `x` that is not negative
  pub micros : N → ℕ
  -- `(b - a).total_seconds()` for instants a and b in microseconds
  pub seconds_between : ℕ → ℕ → N

-- A value of a field whose type the code checks itself. `other` is any further object, with no order.
pub data Value (N : Type 0) : Type 0 where
  absent : Value N
  boolean : Bool → Value N
  number : N → Value N
  text : String → Value N
  other : Value N

-- `lower <= n <= upper`, for the int that there is.
abbrev pub int_between : ℕ → ℕ → Option ℤ → Bool
int_between lower upper none = false
int_between lower upper (some n) = leb_ℤ (pos lower) n && leb_ℤ n (pos upper)

module _ {N : Type 0} ⦃o : Numbers N⦄ where
  -- `0`, `1`, … as they stand in a comparison with a number.
  abbrev pub whole : ℕ → N
  whole n = o.integer (pos n)

  -- `value is True`, `value is False`
  abbrev pub is_true : Value N → Bool
  is_true (boolean b) = b
  is_true _ = false

  abbrev pub is_false : Value N → Bool
  is_false (boolean b) = not b
  is_false _ = false

  abbrev pub is_boolean : Value N → Bool
  is_boolean (boolean b) = true
  is_boolean _ = false

  -- `value == "..."`
  abbrev pub is_text : String → Value N → Bool
  is_text s (text t) = text_eq t s
  is_text s _ = false

  -- `isinstance(value, str)`
  abbrev pub is_string : Value N → Bool
  is_string (text t) = true
  is_string _ = false

  -- `isinstance(value, str) and bool(value.strip())`
  unfoldable pub is_inked : Value N → Bool
  is_inked (text t) = has_ink t
  is_inked _ = false

  -- `value is None`
  abbrev pub is_absent : Value N → Bool
  is_absent absent = true
  is_absent _ = false

  -- `value == n` for an int n above 1, which no bool equals.
  abbrev pub equals_int : ℕ → Value N → Bool
  equals_int n (number x) = o.eq x (whole n)
  equals_int n _ = false

  -- `type(value) is int`
  abbrev pub int_of : Value N → Option ℤ
  int_of (number x) = o.int? x
  int_of _ = none

  -- `type(value) is int`, as a test.
  abbrev pub is_int_value : Value N → Bool
  is_int_value v = elim (int_of v) [ none ↦ false | some z ↦ true ]

  -- `_strict_int_between`, `_strict_integer_between`
  unfoldable pub strict_int_between : Value N → ℕ → ℕ → Bool
  strict_int_between value lower upper = int_between lower upper (int_of value)

  -- `type(value) is int and value == n`
  unfoldable pub is_int : ℕ → Value N → Bool
  is_int n value = elim (int_of value) [ none ↦ false | some z ↦ eqb_ℤ z (pos n) ]

  -- `type(value) is int and value >= n`
  unfoldable pub int_at_least : ℕ → Value N → Bool
  int_at_least n value = elim (int_of value) [ none ↦ false | some z ↦ leb_ℤ (pos n) z ]

  -- `_is_finite_number`
  unfoldable pub is_finite_number : Value N → Bool
  is_finite_number (number x) = o.is_finite (o.to_float x)
  is_finite_number _ = false

  -- `_finite_between`
  unfoldable pub finite_between : Value N → N → N → Bool
  finite_between (number x) lower upper =
      o.is_finite (o.to_float x) && (o.le lower (o.to_float x) && o.le (o.to_float x) upper)
  finite_between _ lower upper = false

  -- `not (_is_finite_number(low) and float(high) < float(low))`, for a number `high`
  unfoldable pub finite_order : Value N → Value N → Bool
  finite_order (number x) (number y) =
      not (o.is_finite (o.to_float x) && o.lt (o.to_float y) (o.to_float x))
  finite_order _ _ = true

  -- `_finite_positive`
  unfoldable pub finite_positive : Value N → Bool
  finite_positive (number x) = o.is_finite (o.to_float x) && o.lt (whole 0) (o.to_float x)
  finite_positive _ = false

  -- `_finite_nonnegative`
  unfoldable pub finite_nonnegative : Value N → Bool
  finite_nonnegative (number x) = o.is_finite (o.to_float x) && o.le (whole 0) (o.to_float x)
  finite_nonnegative _ = false

  -- The number that a value which passed one of the tests above holds.
  abbrev pub number_of : Value N → N
  number_of (number x) = x
  number_of _ = whole 0

  -- The count that a value which passed `type(value) is int and value >= 0` holds.
  abbrev pub count_of : Value N → ℕ
  count_of value = elim (int_of value) [ some (pos n) ↦ n | _ ↦ 0 ]

  -- `value == n` of Python, where a bool equals 0 or 1.
  abbrev pub number_eq : Value N → N → Bool
  number_eq (number x) y = o.eq x y
  number_eq (boolean b) y = o.eq (whole (if b then 1 else 0)) y
  number_eq _ y = false

  -- `isinstance(value, (int, float)) and not isinstance(value, bool)`
  abbrev pub is_number : Value N → Bool
  is_number (number x) = true
  is_number _ = false

  -- `value == other` for two values of JSON that are no containers.
  abbrev pub eq_value : Value N → Value N → Bool
  eq_value v (number y) = number_eq v y
  eq_value v (boolean c) = number_eq v (whole (if c then 1 else 0))
  eq_value v (text t) = is_text t v
  eq_value v absent = is_absent v
  eq_value v other = false

  -- `text in values`
  unfoldable pub holds_text : List (Value N) → String → Bool
  holds_text values s = any (is_text s) values

  -- The number that `<` and `>=` compare: a bool counts as 0 or 1.
  abbrev pub numeric : Value N → Option N
  numeric (number x) = some x
  numeric (boolean b) = some (whole (if b then 1 else 0))
  numeric _ = none

  abbrev pub both : Option N → Option N → Option (N × N)
  both (some x) (some y) = some (x, y)
  both _ _ = none

  -- `v >= w`, and `none` where Python raises TypeError.
  unfoldable pub at_least? : Value N → Value N → Option Bool
  at_least? (text s) (text t) = some (not (text_lt s t))
  at_least? v w = elim (both (numeric v) (numeric w)) [
    | none ↦ none
    | some (x, y) ↦ some (o.le y x)
  ]

  -- `v < n`, and `none` where Python raises TypeError.
  unfoldable pub below? : Value N → ℕ → Option Bool
  below? v n = elim (numeric v) [ none ↦ none | some x ↦ some (o.lt x (whole n)) ]
