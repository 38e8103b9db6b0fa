-- ===== src/OfiView/Order.antt =====
-- The order of a view, sorted views, and what the edits at a position do to them.

use lob.Prelude.{
  ◌≡◌, refl, Bool, true, false, inl, inr, arith, Bool-cases, List, [], ◌∷◌, All, All-map,
}
use lob.Prelude.Int.{ℤ, ◌==ℤ◌}
use lob.OfiView.{Level, before, lower_bound, price_at, has_price}

pub before_irrefl : (s : Bool) (a : ℤ) → before s a a ≡ false
before_irrefl true a = ground arith
before_irrefl false a = ground arith

pub before_trans :
    (s : Bool) (a b c : ℤ) → before s a b ≡ true → before s b c ≡ true → before s a c ≡ true
before_trans true a b c h k = ground arith
before_trans false a b c h k = ground arith

pub before_total :
    (s : Bool) (a b : ℤ) → before s a b ≡ false → (a ==ℤ b) ≡ false → before s b a ≡ true
before_total true a b h k = ground arith
before_total false a b h k = ground arith

pub before_ne : (s : Bool) (a b : ℤ) → before s a b ≡ true → (a ==ℤ b) ≡ false
before_ne true a b h = ground arith
before_ne false a b h = ground arith

pub before_asym : (s : Bool) (a b : ℤ) → before s a b ≡ true → before s b a ≡ false
before_asym true a b h = ground arith
before_asym false a b h = ground arith

pub same_sym : (a b : ℤ) → (a ==ℤ b) ≡ (b ==ℤ a)
same_sym a b = ground arith

-- Every entry of the view is before the price.
abbrev pub AllBefore : Bool → List Level → ℤ → Type 0
AllBefore s w p = All (λ e. before s e.0 p ≡ true) w

abbrev pub AllAfter : Bool → ℤ → List Level → Type 0
AllAfter s p w = All (λ e. before s p e.0 ≡ true) w

-- Best first, and no price twice.
abbrev pub IsSorted : Bool → List Level → Type 0
IsSorted s [] = Unit {0}
IsSorted s (x ∷ xs) = AllAfter s x.0 xs × IsSorted s xs

module _ (s : Bool) where
  pub AllAfter-trans :
      (a b : ℤ) (w : List Level) → before s a b ≡ true → AllAfter s b w → AllAfter s a w
  AllAfter-trans a b w h = All-map _ _ w (λ e k. before_trans s a b e.0 h k)

  pub AllAfter-absent : (a : ℤ) (w : List Level) → AllAfter s a w → has_price w a ≡ false
  unfolding has_price
  AllAfter-absent a [] h = refl
  AllAfter-absent a (x ∷ xs) (h, hs) =
      rw (same_sym x.0 a, before_ne s a x.0 h) (AllAfter-absent a xs hs)

  -- In a sorted view the test at the lower bound is the search of the whole view.
  pub price_at-has :
      (w : List Level) (p : ℤ) → IsSorted s w → price_at w (lower_bound s w p) p ≡ has_price w p
  unfolding price_at lower_bound has_price
  price_at-has [] p h = refl
  price_at-has (x ∷ xs) p (after, h) = elim (Bool-cases (before s x.0 p)) [
    | inl e ↦ rw (e, before_ne s x.0 p e) (price_at-has xs p h)
    | inr e ↦ elim (Bool-cases (x.0 ==ℤ p)) [
      | inl q ↦ rw (e, q)
      | inr q ↦
          rw (e, q, AllAfter-absent p xs (AllAfter-trans p x.0 xs (before_total s x.0 p e q) after))
    ]
  ]
