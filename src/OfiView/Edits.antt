-- ===== src/OfiView/Edits.antt =====
-- What the edits of a view do to its order, its entries and its prices.
use mathlib.Core.Bool.{false≢true}
use mathlib.Core.Path.{subst}
use lob.Prelude.{
  ℕ, zero, suc, ◌<◌, ◌≡◌, refl, ap, Bool, true, false, inl, inr, ◌||◌, none, some, arith,
  Bool-cases, List, [], ◌∷◌, ◌++◌, length, All, All-append, All-append_left, All-append_right,
  All-map,
}
use lob.Prelude.Int.{ℤ, ◌==ℤ◌, ==ℤ_iff}
use lob.OfiView.Order.{
  before_total, before_trans, before_ne, AllAfter, AllAfter-trans, IsSorted, AllBefore, same_sym,
}
use lob.OfiView.{
  Level, before, lower_bound, price_at, erase_at, insert_at, assign_at, back, pop_back, has_price,
}

-- `insert`
module _ (y : Level) where
  pub insert_at-All {κ} :
      (P : Level → Type κ) (w : List Level) (i : ℕ) → P y → All P w → All P (insert_at w i y)
  unfolding insert_at
  insert_at-All P w zero py h = (py, h)
  insert_at-All P [] (suc i) py h = (py, tt)
  insert_at-All P (x ∷ xs) (suc i) py (px, h) = (px, insert_at-All P xs i py h)

  pub length-insert_at : (w : List Level) (i : ℕ) → length (insert_at w i y) ≡ suc (length w)
  unfolding insert_at
  length-insert_at w zero = refl
  length-insert_at [] (suc i) = refl
  length-insert_at (x ∷ xs) (suc i) = ap suc (length-insert_at xs i)

  pub has_price-insert_at :
      (w : List Level) (i : ℕ) (p : ℤ)
      → has_price (insert_at w i y) p ≡ ((y.0 ==ℤ p) || has_price w p)
  unfolding insert_at has_price
  has_price-insert_at w zero p = refl
  has_price-insert_at [] (suc i) p = refl
  has_price-insert_at (x ∷ xs) (suc i) p = ground (arith, has_price-insert_at xs i p)

  pub insert_at-IsSorted :
      (s : Bool) (w : List Level)
      → IsSorted s w
      → has_price w y.0 ≡ false
      → IsSorted s (insert_at w (lower_bound s w y.0) y)
  unfolding insert_at lower_bound has_price
  insert_at-IsSorted s [] h e = (tt, tt)
  insert_at-IsSorted s (x ∷ xs) (after, h) e = elim (Bool-cases (before s x.0 y.0)) [
    | inl b ↦ rw b (
      insert_at-All (λ e. before s x.0 e.0 ≡ true) xs (lower_bound s xs y.0) b after,
      insert_at-IsSorted s xs h (ground arith),
    )
    | inr b ↦
        let first = before_total s x.0 y.0 b (ground arith) in
        rw b ((first, AllAfter-trans s y.0 x.0 xs first after), (after, h))
  ]

-- `erase`
pub erase_at-All {κ} :
    (P : Level → Type κ) (w : List Level) (i : ℕ) → All P w → All P (erase_at w i)
unfolding erase_at
erase_at-All P [] i h = tt
erase_at-All P (x ∷ xs) zero (px, h) = h
erase_at-All P (x ∷ xs) (suc i) (px, h) = (px, erase_at-All P xs i h)

pub erase_at-IsSorted :
    (s : Bool) (w : List Level) (i : ℕ) → IsSorted s w → IsSorted s (erase_at w i)
unfolding erase_at
erase_at-IsSorted s [] i h = tt
erase_at-IsSorted s (x ∷ xs) zero (after, h) = h
erase_at-IsSorted s (x ∷ xs) (suc i) (after, h) =
    (erase_at-All _ xs i after, erase_at-IsSorted s xs i h)

pub length-erase_at :
    (w : List Level) (i : ℕ) (p : ℤ)
    → price_at w i p ≡ true
    → suc (length (erase_at w i)) ≡ length w
unfolding erase_at price_at
length-erase_at [] i p e = absurd (false≢true e)
length-erase_at (x ∷ xs) zero p e = refl
length-erase_at (x ∷ xs) (suc i) p e = ap suc (length-erase_at xs i p e)

-- The other prices stay.
pub has_price-erase_at :
    (w : List Level) (i : ℕ) (p q : ℤ)
    → price_at w i p ≡ true
    → (p ==ℤ q) ≡ false
    → has_price (erase_at w i) q ≡ has_price w q
unfolding erase_at price_at has_price
has_price-erase_at [] i p q e ne = refl
has_price-erase_at (x ∷ xs) zero p q e ne = ground arith
has_price-erase_at (x ∷ xs) (suc i) p q e ne = ground (arith, has_price-erase_at xs i p q e ne)

-- A price that is found behind another differs from it.
pub price_after :
    (s : Bool) (a b : ℤ) (w : List Level) (i : ℕ)
    → AllAfter s a w
    → price_at w i b ≡ true
    → (a ==ℤ b) ≡ false
unfolding price_at
price_after s a b [] i h e = absurd (false≢true e)
price_after s a b (y ∷ ys) zero (h, hs) e =
    let q : y.0 ≡ b = (==ℤ_iff y.0 b).0 e in rw (← q) (before_ne s a y.0 h)
price_after s a b (y ∷ ys) (suc i) (h, hs) e = price_after s a b ys i hs e

-- The erased price is gone.
pub erase_at-absent :
    (s : Bool) (w : List Level) (i : ℕ) (p : ℤ)
    → IsSorted s w
    → price_at w i p ≡ true
    → All (λ e. (e.0 ==ℤ p) ≡ false) (erase_at w i)
unfolding erase_at price_at
erase_at-absent s [] i p h e = tt
erase_at-absent s (x ∷ xs) zero p (after, h) e =
    let q : x.0 ≡ p = (==ℤ_iff x.0 p).0 e in
    All-map _ _ xs (λ y b. rw (same_sym y.0 p, ← q) (before_ne s x.0 y.0 b)) after
erase_at-absent s (x ∷ xs) (suc i) p (after, h) e =
    (price_after s x.0 p xs i after e, erase_at-absent s xs i p h e)

-- `it->second = qty`
pub assign_at-prices :
    (P : ℤ → Type 0) (w : List Level) (i : ℕ) (q : ℤ)
    → All (λ e. P e.0) w
    → All (λ e. P e.0) (assign_at w i q)
unfolding assign_at
assign_at-prices P [] i q h = tt
assign_at-prices P (x ∷ xs) zero q (px, h) = (px, h)
assign_at-prices P (x ∷ xs) (suc i) q (px, h) = (px, assign_at-prices P xs i q h)

pub assign_at-IsSorted :
    (s : Bool) (w : List Level) (i : ℕ) (q : ℤ) → IsSorted s w → IsSorted s (assign_at w i q)
unfolding assign_at
assign_at-IsSorted s [] i q h = tt
assign_at-IsSorted s (x ∷ xs) zero q (after, h) = (after, h)
assign_at-IsSorted s (x ∷ xs) (suc i) q (after, h) =
    (assign_at-prices (λ p. before s x.0 p ≡ true) xs i q after, assign_at-IsSorted s xs i q h)

pub length-assign_at : (w : List Level) (i : ℕ) (q : ℤ) → length (assign_at w i q) ≡ length w
unfolding assign_at
length-assign_at [] i q = refl
length-assign_at (x ∷ xs) zero q = refl
length-assign_at (x ∷ xs) (suc i) q = ap suc (length-assign_at xs i q)

pub has_price-assign_at :
    (w : List Level) (i : ℕ) (q p : ℤ) → has_price (assign_at w i q) p ≡ has_price w p
unfolding assign_at has_price
has_price-assign_at [] i q p = refl
has_price-assign_at (x ∷ xs) zero q p = refl
has_price-assign_at (x ∷ xs) (suc i) q p = ground (arith, has_price-assign_at xs i q p)

-- `back` and `pop_back` take a view that is not empty apart.
pub back_split :
    (x : Level) (xs : List Level)
    → (b : Level) × (back (x ∷ xs) ≡ some b) × (x ∷ xs ≡ pop_back (x ∷ xs) ++ b ∷ [])
unfolding back pop_back
back_split x [] = (x, refl, refl)
back_split x (y ∷ xs) = let (b, e, f) = back_split y xs in (b, e, ap (◌∷◌ x) f)

pub IsSorted-append :
    (s : Bool) (w : List Level) (b : Level)
    → IsSorted s w
    → AllBefore s w b.0
    → IsSorted s (w ++ b ∷ [])
IsSorted-append s [] b h k = (tt, tt)
IsSorted-append s (x ∷ xs) b (after, h) (first, k) =
    (All-append _ xs (b ∷ []) after (first, tt), IsSorted-append s xs b h k)

pub IsSorted-front :
    (s : Bool) (w : List Level) (b : Level)
    → IsSorted s (w ++ b ∷ [])
    → IsSorted s w × AllBefore s w b.0
IsSorted-front s [] b h = (tt, tt)
IsSorted-front s (x ∷ xs) b (after, h) =
    let (sorted, last) = IsSorted-front s xs b h in
    (
      (All-append_left _ xs (b ∷ []) after, sorted),
      ((All-append_right _ xs (b ∷ []) after).0, last),
    )

pub has_price-append :
    (w : List Level) (b : Level) (p : ℤ)
    → has_price (w ++ b ∷ []) p ≡ (has_price w p || (b.0 ==ℤ p))
unfolding has_price
has_price-append [] b p = ground arith
has_price-append (x ∷ xs) b p = ground (arith, has_price-append xs b p)

pub split_back :
    (w : List Level) → 0 < length w → (b : Level) × (back w ≡ some b) × (w ≡ pop_back w ++ b ∷ [])
split_back [] h = absurd (omega arith)
split_back (x ∷ xs) h = back_split x xs

pub back-none : (w : List Level) → back w ≡ none → w ≡ []
back-none [] e = refl
back-none (x ∷ xs) e = let (b, f, _) = back_split x xs in cc

-- What holds of all entries holds of the last one.
pub back-All {κ} :
    (P : Level → Type κ) (w : List Level) {b : Level} → back w ≡ some b → All P w → P b
unfolding back
back-All P [] e h = cc
back-All P (x ∷ []) {b} e (px, _) = let f : x ≡ b = cc in subst P f px
back-All P (x ∷ y ∷ xs) e (px, h) = back-All P (y ∷ xs) e h

-- The last entry of a sorted view is its worst.
pub back-worst :
    (s : Bool) (w : List Level) (p : ℤ) {b : Level}
    → IsSorted s w
    → back w ≡ some b
    → before s b.0 p ≡ true
    → AllBefore s w p
unfolding back
back-worst s [] p h e lt = tt
back-worst s (x ∷ []) p {b} h e lt =
    let f : b ≡ x = cc in (subst (λ (y : Level). before s y.0 p ≡ true) f lt, tt)
back-worst s (x ∷ y ∷ xs) p (after, h) e lt =
    let rest = back-worst s (y ∷ xs) p h e lt in (before_trans s x.0 y.0 p after.0 rest.0, rest)
