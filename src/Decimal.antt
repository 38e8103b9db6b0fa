-- ===== src/Decimal.antt =====
-- src/decimal.hpp: decimal texts as fixed-point integers, scaled by 10 ^ 8. A text is its bytes.
use lob.Prelude.{
  ℕ, zero, suc, ◌+◌, ◌-◌, ◌*◌, ◌^◌, Bool, true, false, not, ◌&&◌, ◌||◌, List, [], ◌∷◌, Option, none,
  some, arith, if◌then◌else◌, ltb, leb, ◌==◌, length, Result, ok, err, ◌>>=◌, runtime_error, Bytes,
}
use lob.Prelude.Int.{ℤ, pos, sub_ℕ, ◌*ℤ◌}
use lob.SafeArithmetic.{safe_multiply, safe_add, safe_subtract}
pub mod Numerals

abbrev pub scale : ℤ
scale = pos 100_000_000

abbrev pub is_digit : ℕ → Bool
is_digit c = leb b'0' c && leb c b'9'

-- The longest run of digits at the head, and what follows it.
unfoldable pub take_digits : Bytes → Bytes
take_digits [] = []
take_digits (c ∷ s) = let rest = take_digits s in if is_digit c then c ∷ rest else []

unfoldable pub drop_digits : Bytes → Bytes
drop_digits [] = []
drop_digits (c ∷ s) = let rest = drop_digits s in if is_digit c then rest else c ∷ s

unfoldable pub value_from : ℕ → Bytes → ℕ
value_from n [] = n
value_from n (c ∷ s) = value_from (n * 10 + (c - b'0')) s

-- std::from_chars in base 10 for `long long`: an optional '-', then at least one digit; `none` is
-- an error code, otherwise the value and the rest of the text.
unfoldable pub from_digits : Bool → Bytes → Option (ℤ × Bytes)
unfolding take_digits drop_digits value_from
from_digits negative s =
    let n = value_from 0 (take_digits s) in
    if length (take_digits s) == 0
    then none
    else if leb n (if negative then 2 ^ 63 else 2 ^ 63 - 1)
    then some (if negative then sub_ℕ 0 n else pos n, drop_digits s)
    else none

abbrev pub starts_minus : Bytes → Bool
starts_minus [] = false
starts_minus (c ∷ s) = c == b'-'

abbrev pub tail : Bytes → Bytes
tail [] = []
tail (c ∷ s) = s

unfoldable pub from_chars : Bytes → Option (ℤ × Bytes)
unfolding from_digits
from_chars s = if starts_minus s then from_digits true (tail s) else from_digits false s

-- `result.ec != std::errc() || result.ptr != end` throws.
abbrev pub whole : Option (ℤ × Bytes) → Result ℤ
whole none = err runtime_error
whole (some (v, [])) = ok v
whole (some (v, c ∷ s)) = err runtime_error

unfoldable pub parse_integer : Bytes → Result ℤ
unfolding from_chars
parse_integer s = whole (from_chars s)

unfoldable pub all_digits : Bytes → Bool
all_digits [] = true
all_digits (c ∷ s) = is_digit c && all_digits s

-- `kPow10[i]`
abbrev pub pow10 : ℕ → ℕ
pow10 i = 10 ^ (8 - i)

unfoldable pub parse_fractional_part : Bytes → Result ℤ
unfolding all_digits parse_integer
parse_fractional_part frac =
    if length frac == 0
    then ok (pos 0)
    else if ltb 8 (length frac)
    then err runtime_error
    else if not (all_digits frac)
    then err runtime_error
    else (parse_integer frac >>= λ v. ok (v *ℤ pos (pow10 (length frac))))

-- The text before the first '.', and the text behind it.
unfoldable pub before_dot : Bytes → Bytes
before_dot [] = []
before_dot (c ∷ s) = let rest = before_dot s in if c == b'.' then [] else c ∷ rest

unfoldable pub after_dot : Bytes → Option Bytes
after_dot [] = none
after_dot (c ∷ s) = let rest = after_dot s in if c == b'.' then some s else rest

unfoldable pub parse_with_dot : Bool → Bytes → Bytes → Result ℤ
unfolding parse_integer parse_fractional_part
parse_with_dot negative int_text frac =
    if (length int_text == 0) && (length frac == 0)
    then err runtime_error
    else ((if length int_text == 0 then ok (pos 0) else parse_integer int_text) >>= λ int_part.
        parse_fractional_part frac >>= λ frac_part. safe_multiply int_part scale >>= λ scaled.
        if negative then safe_subtract scaled frac_part else safe_add scaled frac_part)

unfoldable pub parse_decimal : Bytes → Result ℤ
unfolding parse_with_dot parse_integer before_dot after_dot
parse_decimal str = elim (after_dot str) [
  | none ↦ parse_integer str >>= λ value. safe_multiply value scale
  | some frac ↦ parse_with_dot (starts_minus str) (before_dot str) frac
]
