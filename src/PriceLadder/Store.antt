-- ===== src/PriceLadder/Store.antt =====
-- The bookkeeping of `PriceLadder::set` after the write of a quantity: the number of active levels
-- and the two extremes stay those of the array.
use mathlib.Core.Path.{subst}
use lob.Prelude.{
  ℕ, zero, suc, ◌+◌, ◌-◌, ◌<◌, ◌≡◌, ◌≢◌, refl, sym, true, false, Option, none, some, arith, ◌⊎◌,
  List, length, get_or, set, get_or-set_self, get_or-set_ne, inl, inr, Bool-cases, ◌==◌,
}
use lob.Prelude.Int.{ℤ, pos, negsuc, neg_part, ltb_ℤ}
use lob.PriceLadder.{active, nonzero, next_count, next_high, next_low}
use lob.PriceLadder.Scan.{
  IsLast, IsFirst, count_below, scan_down-IsLast, scan_up-IsFirst, above, below, equals,
  IsLast-raise, IsLast-drop, IsLast-keep_true, IsLast-keep_false, IsFirst-lower, IsFirst-drop,
  IsFirst-keep_true, IsFirst-keep_false, count_change, IsLast-ext, IsFirst-ext, scan_down, scan_up,
}

nonzero-active :
    (qtys : List ℤ) (k : ℕ) → neg_part (get_or qtys k (pos 0)) ≡ 0 → nonzero qtys k ≡ active qtys k
nonzero-active qtys k h = ground arith

pub sign_cases : (q : ℤ) → neg_part q ≡ 0 → (ltb_ℤ (pos 0) q ≡ true) ⊎ (q ≡ pos 0)
sign_cases (pos zero) h = inr refl
sign_cases (pos (suc n)) h = inl (ground arith)
sign_cases (negsuc n) h = absurd (omega arith)

equals-some : (i : ℕ) (r : Option ℕ) → equals i r ≡ true → r ≡ some i
equals-some i none e = cc
equals-some i (some j) e = ground arith

module _ (qtys : List ℤ) (qty : ℤ) (idx : ℕ) (r : Option ℕ) where
  next_high-raise :
      ltb_ℤ (pos 0) qty ≡ true → above idx r ≡ true → next_high qtys qty idx r ≡ some idx
  unfolding next_high
  next_high-raise e a = ground arith

  next_high-keep : ltb_ℤ (pos 0) qty ≡ true → above idx r ≡ false → next_high qtys qty idx r ≡ r
  unfolding next_high
  next_high-keep e a = ground arith

  next_high-drop :
      qty ≡ pos 0
      → equals idx r ≡ true
      → next_high qtys qty idx r ≡ scan_down (nonzero qtys) (suc idx)
  unfolding next_high
  next_high-drop e a = ground arith

  next_high-stay : qty ≡ pos 0 → equals idx r ≡ false → next_high qtys qty idx r ≡ r
  unfolding next_high
  next_high-stay e a = ground arith

module _ (n : ℕ) (qtys : List ℤ) (qty : ℤ) (idx : ℕ) (r : Option ℕ) where
  next_low-lower :
      ltb_ℤ (pos 0) qty ≡ true → below idx r ≡ true → next_low n qtys qty idx r ≡ some idx
  unfolding next_low
  next_low-lower e a = ground arith

  next_low-keep : ltb_ℤ (pos 0) qty ≡ true → below idx r ≡ false → next_low n qtys qty idx r ≡ r
  unfolding next_low
  next_low-keep e a = ground arith

  next_low-drop :
      qty ≡ pos 0
      → equals idx r ≡ true
      → next_low n qtys qty idx r ≡ scan_up (nonzero qtys) (idx + 1) (n - (idx + 1))
  unfolding next_low
  next_low-drop e a = ground arith

  next_low-stay : qty ≡ pos 0 → equals idx r ≡ false → next_low n qtys qty idx r ≡ r
  unfolding next_low
  next_low-stay e a = ground arith

-- A write keeps count and extremes those of the array.
module _ (qtys : List ℤ) (idx n : ℕ) (qty : ℤ) (inside : idx < n) (stored : length qtys ≡ n)
    (nonneg : (k : ℕ) → neg_part (get_or qtys k (pos 0)) ≡ 0) (fits : neg_part qty ≡ 0) where
  agree : (k : ℕ) → k ≢ idx → active (set qtys idx qty) k ≡ active qtys k
  agree k ne = rw (get_or-set_ne qtys idx k qty (pos 0) (λ e. ne (sym e)))

  pub written : get_or (set qtys idx qty) idx (pos 0) ≡ qty
  written = get_or-set_self qtys idx qty (pos 0) (omega arith)

  pub new_nonneg : (k : ℕ) → neg_part (get_or (set qtys idx qty) k (pos 0)) ≡ 0
  new_nonneg k = elim (Bool-cases (k == idx)) [
    | inl e ↦ let e' : k ≡ idx = ground arith in rw (e', written) fits
    | inr e ↦ rw (get_or-set_ne qtys idx k qty (pos 0) (λ q. ground arith)) (nonneg k)
  ]

  pub next_count_lem :
      (c : ℕ)
      → c ≡ count_below (active qtys) n
      → next_count (get_or qtys idx (pos 0)) qty c ≡ count_below (active (set qtys idx qty)) n
  unfolding next_count
  next_count_lem c e = ground (
    arith,
    count_change (active qtys) (active (set qtys idx qty)) idx n inside agree n inside,
    written,
    nonneg idx,
  )

  pub high_kept :
      (r : Option ℕ)
      → IsLast (active qtys) n r
      → IsLast (active (set qtys idx qty)) n (next_high (set qtys idx qty) qty idx r)
  high_kept r h = elim (sign_cases qty fits) [
    | inl e ↦ elim (Bool-cases (above idx r)) [
      | inl a ↦
          rw (next_high-raise _ qty idx r e a)
            (IsLast-raise (active qtys) _ idx n inside agree r h (rw written e) a)
      | inr a ↦
          rw (next_high-keep _ qty idx r e a)
            (IsLast-keep_true (active qtys) _ idx n inside agree r h (rw written e) a)
    ]
    | inr e ↦ elim (Bool-cases (equals idx r)) [
      | inl a ↦ rw (next_high-drop _ qty idx r e a) (
          IsLast-drop (active qtys) _ idx n inside agree _
            (subst (IsLast (active qtys) n) (equals-some idx r a) h)
            (IsLast-ext (nonzero (set qtys idx qty)) _ (suc idx) _
              (λ k. nonzero-active _ k (new_nonneg k))
              (scan_down-IsLast (nonzero (set qtys idx qty)) (suc idx))))
      | inr a ↦
          rw (next_high-stay _ qty idx r e a)
            (IsLast-keep_false (active qtys) _ idx n inside agree r h (rw (written, e)) a)
    ]
  ]

  pub low_kept :
      (r : Option ℕ)
      → IsFirst (active qtys) 0 n r
      → IsFirst (active (set qtys idx qty)) 0 n (next_low n (set qtys idx qty) qty idx r)
  low_kept r h = elim (sign_cases qty fits) [
    | inl e ↦ elim (Bool-cases (below idx r)) [
      | inl a ↦
          rw (next_low-lower n _ qty idx r e a)
            (IsFirst-lower (active qtys) _ idx n inside agree r h (rw written e) a)
      | inr a ↦
          rw (next_low-keep n _ qty idx r e a)
            (IsFirst-keep_true (active qtys) _ idx n inside agree r h (rw written e) a)
    ]
    | inr e ↦ elim (Bool-cases (equals idx r)) [
      | inl a ↦ rw (next_low-drop n _ qty idx r e a) (
          IsFirst-drop (active qtys) _ idx n inside agree _
            (subst (IsFirst (active qtys) 0 n) (equals-some idx r a) h) (rw (written, e))
            (IsFirst-ext (nonzero (set qtys idx qty)) _ (idx + 1) n _
              (λ k. nonzero-active _ k (new_nonneg k))
              (scan_up-IsFirst (nonzero (set qtys idx qty)) (idx + 1) (n - (idx + 1)) n
                (omega arith))))
      | inr a ↦
          rw (next_low-stay n _ qty idx r e a)
            (IsFirst-keep_false (active qtys) _ idx n inside agree r h (rw (written, e)) a)
    ]
  ]
