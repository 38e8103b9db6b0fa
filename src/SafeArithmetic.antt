-- ===== src/SafeArithmetic.antt =====
-- src/safe_arithmetic.hpp at `long long`: arithmetic that throws `overflow_error` where the result
-- does not fit, tested before the operation; and src/utils/checked_arith.hpp, which clamps instead.
-- Both tests are written, as in the source, with operations that do not overflow themselves.
use lob.Prelude.{Bool, ◌&&◌, ◌||◌, if◌then◌else◌, Result, ok, err, overflow_error, Exception}
use lob.Prelude.Int.{ℤ, pos, ◌+ℤ◌, ◌-ℤ◌, ◌*ℤ◌, ◌/ℤ◌, ltb_ℤ, ◌==ℤ◌, llong_max, llong_min}
pub mod Exact

abbrev pub is_positive : ℤ → Bool
is_positive a = ltb_ℤ (pos 0) a

abbrev pub is_negative : ℤ → Bool
is_negative a = ltb_ℤ a (pos 0)

unfoldable pub safe_multiply : ℤ → ℤ → Result ℤ
safe_multiply a b =
    if is_positive a && is_positive b && ltb_ℤ (llong_max /ℤ b) a
    then err overflow_error
    else if is_negative a && is_negative b && ltb_ℤ a (llong_max /ℤ b)
    then err overflow_error
    else if is_positive a && is_negative b && ltb_ℤ b (llong_min /ℤ a)
    then err overflow_error
    else if is_negative a && is_positive b && ltb_ℤ a (llong_min /ℤ b)
    then err overflow_error
    else ok (a *ℤ b)

unfoldable pub safe_add : ℤ → ℤ → Result ℤ
safe_add a b =
    if is_positive b && ltb_ℤ (llong_max -ℤ b) a
    then err overflow_error
    else if is_negative b && ltb_ℤ a (llong_min -ℤ b)
    then err overflow_error
    else ok (a +ℤ b)

-- `safeSubstract`
unfoldable pub safe_subtract : ℤ → ℤ → Result ℤ
safe_subtract a b =
    if is_negative b && ltb_ℤ (llong_max +ℤ b) a
    then err overflow_error
    else if is_positive b && ltb_ℤ a (llong_min +ℤ b)
    then err overflow_error
    else ok (a -ℤ b)

unfoldable pub checked_add : ℤ → ℤ → ℤ
checked_add a b =
    if is_positive b && ltb_ℤ (llong_max -ℤ b) a
    then llong_max
    else if is_negative b && ltb_ℤ a (llong_min -ℤ b)
    then llong_min
    else a +ℤ b

unfoldable pub checked_subtract : ℤ → ℤ → ℤ
checked_subtract a b =
    if is_negative b && ltb_ℤ (llong_max +ℤ b) a
    then llong_max
    else if is_positive b && ltb_ℤ a (llong_min +ℤ b)
    then llong_min
    else a -ℤ b

-- The product is computed in 128 bits, where it is exact.
unfoldable pub checked_multiply : ℤ → ℤ → ℤ
checked_multiply a b =
    if (a ==ℤ pos 0) || (b ==ℤ pos 0)
    then pos 0
    else if ltb_ℤ llong_max (a *ℤ b)
    then llong_max
    else if ltb_ℤ (a *ℤ b) llong_min
    then llong_min
    else a *ℤ b
