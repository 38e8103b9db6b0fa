-- ===== src/SafeArithmetic/Exact.antt =====
-- The tests of src/safe_arithmetic.hpp and src/utils/checked_arith.hpp are exact: they refuse, or
-- clamp, where the mathematical result does not fit into a `long long`, and nowhere else.
use lob.Prelude.{
  ℕ, suc, ◌*◌, ◌/◌, ◌^◌, ◌-◌, ◌<◌, ◌≡◌, Bool, ◌&&◌, if◌then◌else◌, Result, ok, err, overflow_error,
  arith, ltb,
}
use lob.Prelude.Int.{
  ℤ, pos, negsuc, ◌+ℤ◌, ◌-ℤ◌, ◌*ℤ◌, ◌/ℤ◌, sub_ℕ, ltb_ℤ, leb_ℤ, llong_max, llong_min, FitsLlong,
}
use lob.SafeArithmetic.{
  safe_multiply, safe_add, safe_subtract, checked_add, checked_subtract, checked_multiply,
}

abbrev pub fits : ℤ → Bool
fits a = leb_ℤ llong_min a && leb_ℤ a llong_max

-- The value if it fits, the exception otherwise.
abbrev pub exact_or_throw : ℤ → Result ℤ
exact_or_throw a = if fits a then ok a else err overflow_error

-- The nearest value that fits.
abbrev pub clamped : ℤ → ℤ
clamped a = if ltb_ℤ llong_max a then llong_max else if ltb_ℤ a llong_min then llong_min else a

-- `safeAdd` gives the sum of a `long long` and a second number if it fits into a `long long`, and
-- throws `overflow_error` otherwise.
pub safe_add_lem : (a b : ℤ) → FitsLlong a → safe_add a b ≡ exact_or_throw (a +ℤ b)
unfolding safe_add ◌+ℤ◌ ◌-ℤ◌
safe_add_lem a b h = ground arith

-- `safeSubstract` gives the difference of a `long long` and a second number if it fits into a
-- `long long`, and throws `overflow_error` otherwise.
pub safe_subtract_lem : (a b : ℤ) → FitsLlong a → safe_subtract a b ≡ exact_or_throw (a -ℤ b)
unfolding safe_subtract ◌+ℤ◌ ◌-ℤ◌
safe_subtract_lem a b h = ground arith

-- `checkedAdd` gives the nearest `long long` to the sum of a `long long` and a second number.
pub checked_add_lem : (a b : ℤ) → FitsLlong a → checked_add a b ≡ clamped (a +ℤ b)
unfolding checked_add ◌+ℤ◌ ◌-ℤ◌
checked_add_lem a b h = ground arith

-- `checkedSubtract` gives the nearest `long long` to the difference of a `long long` and a second
-- number.
pub checked_subtract_lem : (a b : ℤ) → FitsLlong a → checked_subtract a b ≡ clamped (a -ℤ b)
unfolding checked_subtract ◌+ℤ◌ ◌-ℤ◌
checked_subtract_lem a b h = ground arith

-- A quotient below a number, without the division.
div-lt : (m a b : ℕ) → 0 < b → (ltb (m / b) a) ≡ ltb m (a * b)
div-lt m a b h = grind arith

-- Products and quotients by the signs of their arguments.
pub mul_pos_pos : (a b : ℕ) → pos a *ℤ pos b ≡ pos (a * b)
unfolding ◌*ℤ◌
mul_pos_pos a b = ground arith

mul_pos_neg : (a b : ℕ) → pos a *ℤ negsuc b ≡ sub_ℕ 0 (a * suc b)
unfolding ◌*ℤ◌
mul_pos_neg a b = ground arith

mul_neg_pos : (a b : ℕ) → negsuc a *ℤ pos b ≡ sub_ℕ 0 (suc a * b)
unfolding ◌*ℤ◌
mul_neg_pos a b = ground arith

mul_neg_neg : (a b : ℕ) → negsuc a *ℤ negsuc b ≡ pos (suc a * suc b)
unfolding ◌*ℤ◌
mul_neg_neg a b = ground arith

quot_pos_pos : (m b : ℕ) → pos m /ℤ pos b ≡ pos (m / b)
unfolding ◌/ℤ◌
quot_pos_pos m b = ground arith

quot_pos_neg : (m b : ℕ) → pos m /ℤ negsuc b ≡ sub_ℕ 0 (m / suc b)
unfolding ◌/ℤ◌
quot_pos_neg m b = ground arith

quot_neg_pos : (m b : ℕ) → negsuc m /ℤ pos b ≡ sub_ℕ 0 (suc m / b)
unfolding ◌/ℤ◌
quot_neg_pos m b = ground arith

-- `safeMultiply` gives the product of two numbers if it fits into a `long long`, and throws
-- `overflow_error` otherwise.
pub safe_multiply_lem : (a b : ℤ) → safe_multiply a b ≡ exact_or_throw (a *ℤ b)
unfolding safe_multiply
safe_multiply_lem (pos a) (pos b) =
    ground (arith, mul_pos_pos a b, quot_pos_pos (2 ^ 63 - 1) b, div-lt (2 ^ 63 - 1) a b)
safe_multiply_lem (pos a) (negsuc b) =
    ground (arith, mul_pos_neg a b, quot_neg_pos (2 ^ 63 - 1) a, div-lt (2 ^ 63) (suc b) a)
safe_multiply_lem (negsuc a) (pos b) =
    ground (arith, mul_neg_pos a b, quot_neg_pos (2 ^ 63 - 1) b, div-lt (2 ^ 63) (suc a) b)
safe_multiply_lem (negsuc a) (negsuc b) =
    ground
      (arith, mul_neg_neg a b, quot_pos_neg (2 ^ 63 - 1) b, div-lt (2 ^ 63 - 1) (suc a) (suc b))

-- `checkedMultiply` gives the nearest `long long` to the product of two numbers.
pub checked_multiply_lem : (a b : ℤ) → checked_multiply a b ≡ clamped (a *ℤ b)
unfolding checked_multiply
checked_multiply_lem (pos a) (pos b) = ground (arith, mul_pos_pos a b)
checked_multiply_lem (pos a) (negsuc b) = ground (arith, mul_pos_neg a b)
checked_multiply_lem (negsuc a) (pos b) = ground (arith, mul_neg_pos a b)
checked_multiply_lem (negsuc a) (negsuc b) = ground (arith, mul_neg_neg a b)
