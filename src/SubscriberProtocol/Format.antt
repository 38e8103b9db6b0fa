-- ===== src/SubscriberProtocol/Format.antt =====
-- `formatScaled` writes numerals that `parseDecimal` reads back.
use lob.Prelude.{
  ℕ, zero, suc, ◌+◌, ◌-◌, ◌*◌, ◌/◌, ◌%◌, ◌^◌, ◌≤◌, ◌<◌, ◌≡◌, refl, sym, ap, ◌∙◌, true, false, inl,
  inr, arith, Bool-cases, ◌&&◌, [], ◌∷◌, ◌++◌, if◌then◌else◌, ltb, ◌==◌, length, Bytes, replicate,
  All-append, Result, ok, err, runtime_error, overflow_error, length-append, length-replicate,
}
use lob.Prelude.Int.{ℤ, pos, ltb_ℤ}
use lob.Decimal.{is_digit, parse_decimal}
use lob.Decimal.Numerals.{
  IsDigits, digits_value, scaled_value, parse_decimal-numeral, parse_decimal-integer, pow_suc, step,
}
use lob.SubscriberProtocol.{
  digits_from, to_string, pad, strip_zeros, fraction, format_unsigned, format_scaled,
}

digit-is : (n : ℕ) → is_digit (b'0' + n % 10) ≡ true
digit-is n = ground arith

-- With enough room for the digits, their value is the number.
digits_from-value :
    (f n : ℕ) (acc : Bytes)
    → n < 10 ^ suc f
    → digits_value (digits_from (suc f) n acc) ≡ n * 10 ^ length acc + digits_value acc
unfolding digits_from
digits_from-value zero n acc h =
    let e : ltb n 10 ≡ true = ground arith in
    let d : (b'0' + n % 10) - b'0' ≡ n = ground arith in rw (e, d) refl
digits_from-value (suc f) n acc h = elim (Bool-cases (ltb n 10)) [
  | inl e ↦ let d : (b'0' + n % 10) - b'0' ≡ n = ground arith in rw (e, d) refl
  | inr e ↦
      let d : (b'0' + n % 10) - b'0' ≡ n % 10 = omega arith in
      let whole : n / 10 * 10 + n % 10 ≡ n = omega arith in
      let less : n / 10 < 10 ^ suc f = omega (arith, pow_suc (suc f)) in
      rw e (
        digits_from-value f (n / 10) ((b'0' + n % 10) ∷ acc) less
        ∙ rw d (
            sym (step (n / 10) (n % 10) (length acc) (digits_value acc))
            ∙ ap (λ m. m * 10 ^ length acc + digits_value acc) whole))
]

digits_from-IsDigits : (f n : ℕ) (acc : Bytes) → IsDigits acc → IsDigits (digits_from f n acc)
unfolding digits_from
digits_from-IsDigits zero n acc h = h
digits_from-IsDigits (suc f) n acc h = elim (Bool-cases (ltb n 10)) [
  | inl e ↦ rw e (digit-is n, h)
  | inr e ↦ rw e (digits_from-IsDigits f (n / 10) ((b'0' + n % 10) ∷ acc) (digit-is n, h))
]

digits_from-some : (f n : ℕ) (acc : Bytes) → 0 < f + length acc → 0 < length (digits_from f n acc)
unfolding digits_from
digits_from-some zero n acc h = omega (arith, h)
digits_from-some (suc f) n acc h = elim (Bool-cases (ltb n 10)) [
  | inl e ↦ rw e (omega arith)
  | inr e ↦ rw e (digits_from-some f (n / 10) ((b'0' + n % 10) ∷ acc) (omega arith))
]

length-digits_from :
    (f k n : ℕ) (acc : Bytes) → n < 10 ^ suc k → length (digits_from f n acc) ≤ suc k + length acc
unfolding digits_from
length-digits_from zero k n acc h = omega arith
length-digits_from (suc f) zero n acc h =
    let e : ltb n 10 ≡ true = ground arith in rw e (omega arith)
length-digits_from (suc f) (suc k) n acc h = elim (Bool-cases (ltb n 10)) [
  | inl e ↦ rw e (omega arith)
  | inr e ↦
      let less : n / 10 < 10 ^ suc k = omega (arith, pow_suc (suc k)) in
      let rest = length-digits_from f k (n / 10) ((b'0' + n % 10) ∷ acc) less in
      rw e (omega (arith, rest))
]

zeros-IsDigits : (k : ℕ) → IsDigits (replicate k b'0')
zeros-IsDigits zero = tt
zeros-IsDigits (suc k) = (refl, zeros-IsDigits k)

zeros-value : (k : ℕ) (s : Bytes) → digits_value (replicate k b'0' ++ s) ≡ digits_value s
zeros-value zero s = refl
zeros-value (suc k) s = omega (arith, zeros-value k s)

plus_zero : (a : ℕ) → a + 0 ≡ a
plus_zero a = omega arith

plus_suc : (a b : ℕ) → a + suc b ≡ suc (a + b)
plus_suc a b = omega arith

pow_add : (a b : ℕ) → 10 ^ a * 10 ^ b ≡ 10 ^ (a + b)
pow_add a zero = omega (arith, ap (λ (k : ℕ). 10 ^ k) (plus_zero a))
pow_add a (suc b) = omega (
  arith,
  pow_add a b,
  ap (λ (m : ℕ). 10 ^ a * m) (pow_suc b),
  pow_suc (a + b),
  ap (λ (k : ℕ). 10 ^ k) (plus_suc a b),
)

strip_zeros-IsDigits : (s : Bytes) → IsDigits s → IsDigits (strip_zeros s)
unfolding strip_zeros
strip_zeros-IsDigits [] h = tt
strip_zeros-IsDigits (c ∷ s) (hc, h) =
    elim (Bool-cases ((length (strip_zeros s) == 0) && (c == b'0'))) [
      | inl e ↦ rw e tt
      | inr e ↦ rw e (hc, strip_zeros-IsDigits s h)
    ]

length-strip_zeros : (s : Bytes) → length (strip_zeros s) ≤ length s
unfolding strip_zeros
length-strip_zeros [] = omega arith
length-strip_zeros (c ∷ s) = elim (Bool-cases ((length (strip_zeros s) == 0) && (c == b'0'))) [
  | inl e ↦ rw e (omega arith)
  | inr e ↦ rw e (omega (arith, length-strip_zeros s))
]

empty_value : (s : Bytes) → (length s == 0) ≡ true → digits_value s ≡ 0
empty_value [] h = refl
empty_value (c ∷ s) h = absurd (omega (arith, no h))
  where
    no : (suc (length s) == 0) ≡ true → 1 ≤ 0
    no h = ground arith

shift_value :
    (x v a m : ℕ) → a ≤ m → (x * 10 ^ a + v) * 10 ^ (suc m - suc a) ≡ x * 10 ^ m + v * 10 ^ (m - a)
shift_value x v a m h =
    let e : suc m - suc a ≡ m - a = omega arith in
    let whole : a + (m - a) ≡ m = omega arith in
    rw e
      (omega (arith, ap (λ (k : ℕ). x * k) (pow_add a (m - a)), ap (λ (k : ℕ). x * 10 ^ k) whole))

-- The zeros that are stripped are the factor that is missing.
strip_zeros-value :
    (s : Bytes)
    → digits_value (strip_zeros s) * 10 ^ (length s - length (strip_zeros s)) ≡ digits_value s
unfolding strip_zeros
strip_zeros-value [] = omega arith
strip_zeros-value (c ∷ s) =
    let rest = strip_zeros s in
    let tail = strip_zeros-value s in
    let shorter = length-strip_zeros s in
    elim (Bool-cases ((length rest == 0) && (c == b'0'))) [
      | inl e ↦
          let nothing : digits_value rest ≡ 0 = empty_value rest (ground arith) in
          let no_digit : c - b'0' ≡ 0 = ground arith in
          rw e (
            omega (
              arith,
              tail,
              ap (λ (m : ℕ). m * 10 ^ (length s - length rest)) nothing,
              ap (λ (m : ℕ). m * 10 ^ length s) no_digit,
            ))
      | inr e ↦ rw e (
          shift_value (c - b'0') (digits_value rest) (length rest) (length s) shorter
          ∙ ap (λ (m : ℕ). (c - b'0') * 10 ^ length s + m) tail)
    ]

to_string-value : (n : ℕ) → n < 10 ^ 20 → digits_value (to_string n) ≡ n
unfolding to_string
to_string-value n h = omega (arith, digits_from-value 19 n [] h)

to_string-IsDigits : (n : ℕ) → IsDigits (to_string n)
unfolding to_string
to_string-IsDigits n = digits_from-IsDigits 20 n [] tt

to_string-some : (n : ℕ) → 0 < length (to_string n)
unfolding to_string
to_string-some n = digits_from-some 20 n [] (omega arith)

length-pad : (n : ℕ) → n < 10 ^ 8 → length (pad (to_string n)) ≡ 8
unfolding pad to_string
length-pad n h =
    let short = length-digits_from 20 7 n [] h in
    omega (
      arith,
      short,
      length-append (replicate (8 - length (to_string n)) b'0') (to_string n),
      length-replicate {A = ℕ} (8 - length (to_string n)) b'0',
    )

pad-value : (n : ℕ) → n < 10 ^ 8 → digits_value (pad (to_string n)) ≡ n
unfolding pad
pad-value n h =
    zeros-value (8 - length (to_string n)) (to_string n) ∙ to_string-value n (omega (arith, h))

pad-IsDigits : (n : ℕ) → IsDigits (pad (to_string n))
unfolding pad
pad-IsDigits n =
    All-append _ (replicate (8 - length (to_string n)) b'0') (to_string n)
      (zeros-IsDigits (8 - length (to_string n))) (to_string-IsDigits n)

-- The fraction has at most 8 digits, and its padded value is the number.
fraction_lem :
    (n : ℕ)
    → n < 10 ^ 8
    → IsDigits (fraction n)
      × (length (fraction n) ≤ 8)
      × (digits_value (fraction n) * 10 ^ (8 - length (fraction n)) ≡ n)
unfolding fraction
fraction_lem n h =
    let padded = pad (to_string n) in
    let size = length-pad n h in
    (
      strip_zeros-IsDigits padded (pad-IsDigits n),
      omega (arith, size, length-strip_zeros padded),
      ap (λ (k : ℕ). digits_value (strip_zeros padded) * 10 ^ (k - length (strip_zeros padded)))
            (sym size)
          ∙ (strip_zeros-value padded ∙ pad-value n h),
    )

refused_or :
    (a b : ℕ) {r : Result ℤ}
    → r ≡ (
        if ltb (2 ^ 63 - 1) a
        then err runtime_error
        else if ltb (2 ^ 63 - 1) b
        then err overflow_error
        else ok (pos b))
    → (n : ℕ) → a ≤ n
    → b ≡ n
    → n ≤ 2 ^ 63 - 1
    → r ≡ ok (pos n)
refused_or a b e n small same h =
    let fits : ltb (2 ^ 63 - 1) a ≡ false = ground arith in
    let fits' : ltb (2 ^ 63 - 1) b ≡ false = ground arith in
    e ∙ rw (fits, fits') (ap (λ (m : ℕ). ok (pos m)) same)

parse-format_unsigned : (n : ℕ) → n ≤ 2 ^ 63 - 1 → parse_decimal (format_unsigned n) ≡ ok (pos n)
unfolding format_unsigned
parse-format_unsigned n h =
    let d = to_string (n / 10 ^ 8) in
    let value : digits_value d ≡ n / 10 ^ 8 = to_string-value (n / 10 ^ 8) (omega arith) in
    elim (Bool-cases (n % 10 ^ 8 == 0)) [
      | inl e ↦ rw e (
          refused_or (digits_value d) (digits_value d * 10 ^ 8)
            (parse_decimal-integer d (to_string-IsDigits (n / 10 ^ 8))
              (to_string-some (n / 10 ^ 8)))
            n (omega (arith, value)) (ground (arith, value)) h)
      | inr e ↦
          let f = fraction (n % 10 ^ 8) in
          let (digits, short, rest) = fraction_lem (n % 10 ^ 8) (omega arith) in
          rw e (
            refused_or (digits_value d) (scaled_value d f)
              (parse_decimal-numeral d f (to_string-IsDigits (n / 10 ^ 8))
                (to_string-some (n / 10 ^ 8)) digits short)
              n (omega (arith, value)) (omega (arith, value, rest)) h)
    ]

not_negative : (n : ℕ) → format_scaled (pos n) ≡ format_unsigned n
unfolding format_scaled
not_negative n =
    let sign : ltb_ℤ (pos n) (pos 0) ≡ false = ground arith in
    let same : n + 0 ≡ n = omega arith in rw (format_scaled, sign, same) refl

-- A scaled number that is not negative and fits into a `long long` is read back by `parseDecimal`
-- from the text that `formatScaled` writes.
pub parse-format_scaled :
    (n : ℕ) → n ≤ 2 ^ 63 - 1 → parse_decimal (format_scaled (pos n)) ≡ ok (pos n)
parse-format_scaled n h = ap parse_decimal (not_negative n) ∙ parse-format_unsigned n h
