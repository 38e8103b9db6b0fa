-- ===== src/PriceLadder/Scan.antt =====
-- The loops over `qtys` (src/price_ladder.cpp), each over a test of the index, and what they find.
-- An index of -1 in the source is `none` here.
use mathlib.Core.Bool.{false≢true}
use mathlib.Core.Path.{fun_ext}
use native.Mathlib.Decide.{dec_lt}
use lob.Prelude.{
  ℕ, zero, suc, ◌+◌, ◌≤◌, ◌<◌, ◌≡◌, ◌≢◌, refl, sym, inl, inr, Bool, true, false, Option, none, some,
  arith, if◌then◌else◌, Bool-cases, ltb, ◌==◌,
}

-- `for (i = n - 1; i >= 0; --i)`: the first index that passes the test.
unfoldable pub scan_down : (ℕ → Bool) → ℕ → Option ℕ
scan_down p zero = none
scan_down p (suc n) = let rest = scan_down p n in if p n then some n else rest

-- `for (; i < i + n; ++i)`: the first index that passes the test.
unfoldable pub scan_up : (ℕ → Bool) → ℕ → ℕ → Option ℕ
scan_up p i zero = none
scan_up p i (suc n) = let rest = scan_up p (i + 1) n in if p i then some i else rest

-- `r` is the highest index below `n` that passes, if there is one.
abbrev pub IsLast : (ℕ → Bool) → ℕ → Option ℕ → Type 0
IsLast p n none = (k : ℕ) → k < n → p k ≡ false
IsLast p n (some j) = (j < n) × (p j ≡ true) × ((k : ℕ) → j < k → k < n → p k ≡ false)

-- `r` is the lowest index from `i` up to, not including, `n` that passes, if there is one.
abbrev pub IsFirst : (ℕ → Bool) → ℕ → ℕ → Option ℕ → Type 0
IsFirst p i n none = (k : ℕ) → i ≤ k → k < n → p k ≡ false
IsFirst p i n (some j) = (i ≤ j) × (j < n) × (p j ≡ true) × ((k : ℕ) → i ≤ k → k < j → p k ≡ false)

-- The number of indices below `n` that pass.
abbrev pub count_below : (ℕ → Bool) → ℕ → ℕ
count_below p zero = 0
count_below p (suc n) = count_below p n + (if p n then 1 else 0)

pub at_eq : (p : ℕ → Bool) (n : ℕ) {b : Bool} → p n ≡ b → (k : ℕ) → k ≡ n → p k ≡ b
at_eq p n e k q = rw q e

pub IsLast-skip :
    (p : ℕ → Bool) (n : ℕ) (r : Option ℕ) → p n ≡ false → IsLast p n r → IsLast p (suc n) r
IsLast-skip p n none e h = λ k lt. ground (arith, h k, at_eq p n e k)
IsLast-skip p n (some j) e (a, b, c) =
    (omega arith, b, λ k l m. ground (arith, c k l, at_eq p n e k))

pub scan_down-IsLast : (p : ℕ → Bool) (n : ℕ) → IsLast p n (scan_down p n)
unfolding scan_down
scan_down-IsLast p zero = λ k h. absurd (omega arith)
scan_down-IsLast p (suc n) = elim (Bool-cases (p n)) [
  | inl e ↦ rw e (omega arith, e, λ k l m. absurd (omega arith))
  | inr e ↦ rw e (IsLast-skip p n (scan_down p n) e (scan_down-IsLast p n))
]

IsFirst-skip :
    (p : ℕ → Bool) (i n : ℕ) (r : Option ℕ) → p i ≡ false → IsFirst p (i + 1) n r → IsFirst p i n r
IsFirst-skip p i n none e h = λ k l m. ground (arith, h k, at_eq p i e k)
IsFirst-skip p i n (some j) e (a, b, c, d) =
    (omega arith, b, c, λ k l m. ground (arith, d k, at_eq p i e k))

pub scan_up-IsFirst : (p : ℕ → Bool) (i n m : ℕ) → i + n ≡ m → IsFirst p i m (scan_up p i n)
unfolding scan_up
scan_up-IsFirst p i zero m e = λ k l h. absurd (omega arith)
scan_up-IsFirst p i (suc n) m e = elim (Bool-cases (p i)) [
  | inl t ↦ rw t (omega arith, omega arith, t, λ k l h. absurd (omega arith))
  | inr f ↦
      rw f
        (IsFirst-skip p i m (scan_up p (i + 1) n) f (scan_up-IsFirst p (i + 1) n m (omega arith)))
]

-- What the updates of `bestHighIdx` and `bestLowIdx` compare an index with.
abbrev pub above : ℕ → Option ℕ → Bool
above i none = true
above i (some j) = ltb j i

abbrev pub below : ℕ → Option ℕ → Bool
below i none = true
below i (some j) = ltb i j

abbrev pub equals : ℕ → Option ℕ → Bool
equals i none = false
equals i (some j) = i == j

-- A test that changes at one index only, and how the extremes follow it.
module _ (p q : ℕ → Bool) (i n : ℕ) (inside : i < n) (agree : (k : ℕ) → k ≢ i → q k ≡ p k) where
  pub IsLast-raise :
      (r : Option ℕ) → IsLast p n r → q i ≡ true → above i r ≡ true → IsLast q n (some i)
  IsLast-raise none h e _ = (inside, e, λ k l m. ground (arith, agree k, h k m))
  IsLast-raise (some j) (a, b, c) e f = (inside, e, λ k l m. ground (arith, agree k, c k))

  pub IsLast-drop : (r : Option ℕ) → IsLast p n (some i) → IsLast q (suc i) r → IsLast q n r
  IsLast-drop none (a, b, c) h = λ k m. ground (arith, agree k, c k, h k)
  IsLast-drop (some j) (a, b, c) (d, e, f) =
      (omega arith, e, λ k l m. ground (arith, agree k, c k, f k l))

  pub IsLast-keep_true :
      (r : Option ℕ) → IsLast p n r → q i ≡ true → above i r ≡ false → IsLast q n r
  IsLast-keep_true none h e f = absurd (false≢true (sym f))
  IsLast-keep_true (some j) (a, b, c) e f =
      (a, ground (arith, agree j, at_eq q i e j), λ k l m. ground (arith, agree k, c k l m))

  pub IsLast-keep_false :
      (r : Option ℕ) → IsLast p n r → q i ≡ false → equals i r ≡ false → IsLast q n r
  IsLast-keep_false none h e f = λ k m. ground (arith, agree k, at_eq q i e k, h k m)
  IsLast-keep_false (some j) (a, b, c) e f =
      (a, ground (arith, agree j), λ k l m. ground (arith, agree k, at_eq q i e k, c k l m))

  pub IsFirst-lower :
      (r : Option ℕ) → IsFirst p 0 n r → q i ≡ true → below i r ≡ true → IsFirst q 0 n (some i)
  IsFirst-lower none h e _ = (omega arith, inside, e, λ k l m. ground (arith, agree k, h k l))
  IsFirst-lower (some j) (a, b, c, d) e f =
      (omega arith, inside, e, λ k l m. ground (arith, agree k, d k l))

  pub IsFirst-drop :
      (r : Option ℕ)
      → IsFirst p 0 n (some i)
      → q i ≡ false
      → IsFirst q (i + 1) n r
      → IsFirst q 0 n r
  IsFirst-drop none (a, b, c, d) e h = λ k l m. ground (arith, agree k, at_eq q i e k, d k l, h k)
  IsFirst-drop (some j) (a, b, c, d) e (t, u, v, w) =
      (omega arith, u, v, λ k l m. ground (arith, agree k, at_eq q i e k, d k l, w k))

  pub IsFirst-keep_true :
      (r : Option ℕ) → IsFirst p 0 n r → q i ≡ true → below i r ≡ false → IsFirst q 0 n r
  IsFirst-keep_true none h e f = absurd (false≢true (sym f))
  IsFirst-keep_true (some j) (a, b, c, d) e f =
      (a, b, ground (arith, agree j, at_eq q i e j), λ k l m. ground (arith, agree k, d k l m))

  pub IsFirst-keep_false :
      (r : Option ℕ) → IsFirst p 0 n r → q i ≡ false → equals i r ≡ false → IsFirst q 0 n r
  IsFirst-keep_false none h e f = λ k l m. ground (arith, agree k, at_eq q i e k, h k l m)
  IsFirst-keep_false (some j) (a, b, c, d) e f =
      (a, b, ground (arith, agree j), λ k l m. ground (arith, agree k, at_eq q i e k, d k l m))

  count_same : (m : ℕ) → m ≤ i → count_below q m ≡ count_below p m
  count_same zero h = refl
  count_same (suc m) h = rw (count_same m (omega arith), agree m (λ e. omega arith))

  pub count_change :
      (m : ℕ)
      → i < m
      → count_below q m + (if p i then 1 else 0) ≡ count_below p m + (if q i then 1 else 0)
  count_change zero h = absurd (omega arith)
  count_change (suc m) h = elim (dec_lt i m) [
    | yes lt ↦ rw (agree m (λ e. omega arith)) (omega (arith, count_change m lt))
    | no ge ↦ let e : m ≡ i = omega arith in rw (e, count_same i (omega arith)) (omega arith)
  ]

-- Only the values of the test matter.
pub IsLast-ext :
    (p q : ℕ → Bool) (n : ℕ) (r : Option ℕ) → ((k : ℕ) → p k ≡ q k) → IsLast p n r → IsLast q n r
IsLast-ext p q n r h = rw (fun_ext h) λ x. x

pub IsFirst-ext :
    (p q : ℕ → Bool) (i n : ℕ) (r : Option ℕ)
    → ((k : ℕ) → p k ≡ q k)
    → IsFirst p i n r
    → IsFirst q i n r
IsFirst-ext p q i n r h = rw (fun_ext h) λ x. x
