-- ===== src/Decimal/Numerals.antt =====
-- `parseDecimal` on numerals: the positional value of the digits, scaled by 10 ^ 8.
use native.Mathlib.Nat.{pow-le-pow_right}
use lob.Prelude.{
  ℕ, suc, ◌+◌, ◌-◌, ◌*◌, ◌^◌, ◌≤◌, ◌<◌, ◌≡◌, refl, ap, ◌∙◌, true, false, inl, inr, arith,
  Bool-cases, none, [], ◌∷◌, ◌++◌, some, if◌then◌else◌, ltb, leb, ◌==◌, length, ok, err, ◌>>=◌,
  runtime_error, overflow_error, Bytes, All,
}
use lob.Prelude.Int.{ℤ, pos, ◌+ℤ◌}
use lob.SafeArithmetic.{safe_multiply, safe_add}
use lob.SafeArithmetic.Exact.{safe_multiply_lem, safe_add_lem, mul_pos_pos}
use lob.Decimal.{
  scale, is_digit, take_digits, drop_digits, value_from, from_digits, starts_minus, from_chars,
  parse_integer, all_digits, pow10, parse_fractional_part, before_dot, after_dot, parse_with_dot,
  parse_decimal,
}

abbrev pub IsDigits : Bytes → Type 0
IsDigits s = All (λ c. is_digit c ≡ true) s

-- The positional value of a text of digits.
abbrev pub digits_value : Bytes → ℕ
digits_value [] = 0
digits_value (c ∷ s) = (c - b'0') * 10 ^ length s + digits_value s

pub pow_suc : (k : ℕ) → 10 ^ suc k ≡ 10 ^ k * 10
pow_suc k = omega arith

pub step : (n x k r : ℕ) → (n * 10 + x) * 10 ^ k + r ≡ n * 10 ^ suc k + (x * 10 ^ k + r)
step n x k r = omega (arith, ap (λ (m : ℕ). n * m) (pow_suc k))

value_from_lem : (n : ℕ) (s : Bytes) → value_from n s ≡ n * 10 ^ length s + digits_value s
unfolding value_from
value_from_lem n [] = omega arith
value_from_lem n (c ∷ s) =
    value_from_lem (n * 10 + (c - b'0')) s ∙ step n (c - b'0') (length s) (digits_value s)

digits_value-lt : (s : Bytes) → IsDigits s → digits_value s < 10 ^ length s
digits_value-lt [] h = omega arith
digits_value-lt (c ∷ s) (hc, h) =
    let rest = digits_value-lt s h in let small : c - b'0' ≤ 9 = ground arith in grind arith

take_digits-id : (s : Bytes) → IsDigits s → take_digits s ≡ s
unfolding take_digits
take_digits-id [] h = refl
take_digits-id (c ∷ s) (hc, h) = rw (hc, take_digits-id s h)

drop_digits-none : (s : Bytes) → IsDigits s → drop_digits s ≡ []
unfolding drop_digits
drop_digits-none [] h = refl
drop_digits-none (c ∷ s) (hc, h) = rw (hc, drop_digits-none s h)

all_digits-true : (s : Bytes) → IsDigits s → all_digits s ≡ true
unfolding all_digits
all_digits-true [] h = refl
all_digits-true (c ∷ s) (hc, h) = rw (hc, all_digits-true s h)

no_minus : (s t : Bytes) → IsDigits s → starts_minus (s ++ b'.' ∷ t) ≡ false
no_minus [] t h = refl
no_minus (c ∷ s) t (hc, h) = ground arith

no_minus' : (s : Bytes) → IsDigits s → starts_minus s ≡ false
no_minus' [] h = refl
no_minus' (c ∷ s) (hc, h) = ground arith

before_dot-digits : (s t : Bytes) → IsDigits s → before_dot (s ++ b'.' ∷ t) ≡ s
unfolding before_dot
before_dot-digits [] t h = refl
before_dot-digits (c ∷ s) t (hc, h) =
    let other : (c == b'.') ≡ false = ground arith in rw (other, before_dot-digits s t h)

after_dot-digits : (s t : Bytes) → IsDigits s → after_dot (s ++ b'.' ∷ t) ≡ some t
unfolding after_dot
after_dot-digits [] t h = refl
after_dot-digits (c ∷ s) t (hc, h) =
    let other : (c == b'.') ≡ false = ground arith in rw (other, after_dot-digits s t h)

-- An integer of at least one digit is read as its value if a `long long` holds it.
pub parse_integer-digits :
    (s : Bytes)
    → IsDigits s
    → 0 < length s
    → parse_integer s
      ≡ (if leb (digits_value s) (2 ^ 63 - 1) then ok (pos (digits_value s)) else err runtime_error)
unfolding parse_integer from_chars from_digits
parse_integer-digits s h some_digit =
    let some_digit' : (length s == 0) ≡ false = ground arith in
    let value : value_from 0 s ≡ digits_value s = omega (arith, value_from_lem 0 s) in
    rw (no_minus' s h, take_digits-id s h, drop_digits-none s h, some_digit', value)
      (elim (Bool-cases (leb (digits_value s) (2 ^ 63 - 1))) [ inl e ↦ rw e | inr e ↦ rw e ])

pow_le : (k : ℕ) → k ≤ 8 → 10 ^ k ≤ 10 ^ 8
pow_le k h = pow-le-pow_right {n = 10} (omega arith) h

below_limit : (s : Bytes) → IsDigits s → length s ≤ 8 → digits_value s < 2 ^ 63 - 1
below_limit s h short = omega (arith, digits_value-lt s h, pow_le (length s) short)

-- The fraction, of at most 8 digits, is padded to 8.
parse_fractional_part-digits :
    (s : Bytes)
    → IsDigits s
    → length s ≤ 8
    → parse_fractional_part s ≡ ok (pos (digits_value s * 10 ^ (8 - length s)))
unfolding parse_fractional_part
parse_fractional_part-digits [] h short = refl
parse_fractional_part-digits (c ∷ s) h short =
    let not_long : ltb 8 (length (c ∷ s)) ≡ false = ground arith in
    let bound : digits_value (c ∷ s) < 2 ^ 63 - 1 = below_limit (c ∷ s) h short in
    let fits : leb (digits_value (c ∷ s)) (2 ^ 63 - 1) ≡ true = ground (arith, bound) in
    let some_digit : (length (c ∷ s) == 0) ≡ false = ground arith in
    rw
      (
        some_digit,
        not_long,
        all_digits-true (c ∷ s) h,
        parse_integer-digits (c ∷ s) h (omega arith),
        fits,
      )
      (ap (λ (x : ℤ). ok x) (mul_pos_pos (digits_value (c ∷ s)) (pow10 (length (c ∷ s)))))

-- The value of a numeral with a decimal point, scaled by 10 ^ 8.
abbrev pub scaled_value : Bytes → Bytes → ℕ
scaled_value int_text frac =
    digits_value int_text * 10 ^ 8 + digits_value frac * 10 ^ (8 - length frac)

-- `safeMultiply` and `safeAdd` on numbers that are not negative.
small_add :
    (n m : ℕ)
    → leb n (2 ^ 63 - 1) ≡ true
    → safe_add (pos n) (pos m)
      ≡ (if ltb (2 ^ 63 - 1) (n + m) then err overflow_error else ok (pos (n + m)))
unfolding ◌+ℤ◌
small_add n m h = safe_add_lem (pos n) (pos m) (ground arith) ∙ ground arith

scale_and_add :
    (n m : ℕ)
    → (safe_multiply (pos n) scale >>= λ scaled. safe_add scaled (pos m)) ≡ (
        if ltb (2 ^ 63 - 1) (n * 10 ^ 8 + m) then err overflow_error else ok (pos (n * 10 ^ 8 + m)))
scale_and_add n m = elim (Bool-cases (leb (n * 10 ^ 8) (2 ^ 63 - 1))) [
  | inl e ↦
      let product : safe_multiply (pos n) scale ≡ ok (pos (n * 10 ^ 8)) =
        safe_multiply_lem (pos n) scale ∙ ground (arith, mul_pos_pos n (10 ^ 8)) in
      rw product (small_add (n * 10 ^ 8) m e)
  | inr e ↦
      let product : safe_multiply (pos n) scale ≡ err overflow_error =
        safe_multiply_lem (pos n) scale ∙ ground (arith, mul_pos_pos n (10 ^ 8)) in
      let large : ltb (2 ^ 63 - 1) (n * 10 ^ 8 + m) ≡ true = ground arith in
      rw (product, large) refl
]

-- A numeral with a decimal point, at least one digit before it and at most 8 behind it, is read as
-- its value scaled by 10 ^ 8; it is refused with `runtime_error` if the digits before the point do
-- not fit into a `long long`, and with `overflow_error` if only the scaled value does not.
pub parse_decimal-numeral :
    (int_text frac : Bytes)
    → IsDigits int_text
    → 0 < length int_text
    → IsDigits frac
    → length frac ≤ 8
    → parse_decimal (int_text ++ b'.' ∷ frac) ≡ (
        if ltb (2 ^ 63 - 1) (digits_value int_text)
        then err runtime_error
        else if ltb (2 ^ 63 - 1) (scaled_value int_text frac)
        then err overflow_error
        else ok (pos (scaled_value int_text frac)))
unfolding parse_decimal parse_with_dot
parse_decimal-numeral d f hd some_digit hf short =
    let some_digit' : (length d == 0) ≡ false = ground arith in
    rw
      (
        parse_decimal,
        after_dot-digits d f hd,
        before_dot-digits d f hd,
        no_minus d f hd,
        some_digit',
        parse_integer-digits d hd some_digit,
        parse_fractional_part-digits f hf short,
      )
      (elim (Bool-cases (leb (digits_value d) (2 ^ 63 - 1))) [
        | inl e ↦
            let fits : ltb (2 ^ 63 - 1) (digits_value d) ≡ false = ground arith in
            rw (e, fits) (scale_and_add (digits_value d) (digits_value f * 10 ^ (8 - length f)))
        | inr e ↦
            let large : ltb (2 ^ 63 - 1) (digits_value d) ≡ true = ground arith in
            rw (e, large) refl
      ])

no_dot : (s : Bytes) → IsDigits s → after_dot s ≡ none
unfolding after_dot
no_dot [] h = refl
no_dot (c ∷ s) (hc, h) = let other : (c == b'.') ≡ false = ground arith in rw (other, no_dot s h)

scale_lem :
    (n : ℕ)
    → safe_multiply (pos n) scale
      ≡ (if ltb (2 ^ 63 - 1) (n * 10 ^ 8) then err overflow_error else ok (pos (n * 10 ^ 8)))
scale_lem n = safe_multiply_lem (pos n) scale ∙ ground (arith, mul_pos_pos n (10 ^ 8))

-- A numeral of at least one digit without a decimal point is read as its value scaled by 10 ^ 8; it
-- is refused with `runtime_error` if the value does not fit into a `long long`, and with
-- `overflow_error` if only the scaled value does not.
pub parse_decimal-integer :
    (s : Bytes)
    → IsDigits s
    → 0 < length s
    → parse_decimal s ≡ (
        if ltb (2 ^ 63 - 1) (digits_value s)
        then err runtime_error
        else if ltb (2 ^ 63 - 1) (digits_value s * 10 ^ 8)
        then err overflow_error
        else ok (pos (digits_value s * 10 ^ 8)))
unfolding parse_decimal
parse_decimal-integer s h some_digit =
    rw (parse_decimal, no_dot s h, parse_integer-digits s h some_digit)
      (elim (Bool-cases (leb (digits_value s) (2 ^ 63 - 1))) [
        | inl e ↦
            let fits : ltb (2 ^ 63 - 1) (digits_value s) ≡ false = ground arith in
            rw (e, fits) (scale_lem (digits_value s))
        | inr e ↦
            let large : ltb (2 ^ 63 - 1) (digits_value s) ≡ true = ground arith in
            rw (e, large) refl
      ])
