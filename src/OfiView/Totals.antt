-- ===== src/OfiView/Totals.antt =====
-- The total quantity of a view, and how `updateOfiView` changes it: by the change of the price itself
-- if it was or is in the view, by the level that takes an erased one's place, and by the evicted one.
use mathlib.Core.Bool.{false≢true}
use mathlib.Core.Path.{subst}
use lob.Prelude.{
  ℕ, zero, suc, ◌≡◌, refl, ap, ◌∙◌, Bool, true, false, inl, inr, ◌||◌, arith, Bool-cases, List, [],
  ◌∷◌, ◌++◌, All, if◌then◌else◌,
}
use lob.Prelude.Int.{ℤ, pos, pos_part, neg_part, ◌+ℤ◌, ◌-ℤ◌, ◌==ℤ◌, ==ℤ_iff, int_laws}
use lob.OfiView.{Level, price_at, erase_at, insert_at, assign_at, has_price, ViewChangeResult}
use lob.OfiView.Order.{before_ne, AllBefore}

unfoldable pub total : List Level → ℤ
total [] = pos 0
total (x ∷ xs) = x.1 +ℤ total xs

-- Equal numbers have equal parts, which the arithmetic reads.
pub same_parts : {a b : ℤ} → a ≡ b → (pos_part a ≡ pos_part b) × (neg_part a ≡ neg_part b)
same_parts e = (ap pos_part e, ap neg_part e)

pub total-append : (w : List Level) (e : Level) → total (w ++ e ∷ []) ≡ total w +ℤ e.1
unfolding total
total-append [] e = omega int_laws
total-append (x ∷ xs) e = omega (int_laws, same_parts (total-append xs e))

pub total-insert_at :
    (w : List Level) (i : ℕ) (e : Level) → total (insert_at w i e) ≡ e.1 +ℤ total w
unfolding total insert_at
total-insert_at w zero e = refl
total-insert_at [] (suc i) e = refl
total-insert_at (x ∷ xs) (suc i) e = omega (int_laws, same_parts (total-insert_at xs i e))

module _ (qty : ℤ → ℤ) where
  pub total-erase_at :
      (w : List Level) (i : ℕ) (p : ℤ)
      → All (λ e. e.1 ≡ qty e.0) w
      → price_at w i p ≡ true
      → total w ≡ qty p +ℤ total (erase_at w i)
  unfolding total erase_at price_at
  total-erase_at [] i p h e = absurd (false≢true e)
  total-erase_at (x ∷ xs) zero p (here, h) e = rw (here ∙ ap qty ((==ℤ_iff x.0 p).0 e)) refl
  total-erase_at (x ∷ xs) (suc i) p (here, h) e =
      omega (int_laws, same_parts (total-erase_at xs i p h e))

  pub total-assign_at :
      (w : List Level) (i : ℕ) (p q : ℤ)
      → All (λ e. e.1 ≡ qty e.0) w
      → price_at w i p ≡ true
      → total (assign_at w i q) ≡ total w +ℤ (q -ℤ qty p)
  unfolding total assign_at price_at
  total-assign_at [] i p q h e = absurd (false≢true e)
  total-assign_at (x ∷ xs) zero p q (here, h) e =
      omega (int_laws, same_parts (here ∙ ap qty ((==ℤ_iff x.0 p).0 e)))
  total-assign_at (x ∷ xs) (suc i) p q (here, h) e =
      omega (int_laws, same_parts (total-assign_at xs i p q h e))

-- A price that all entries are before is not in the view; one that is in it shares what all have.
pub AllBefore-absent : (s : Bool) (w : List Level) (p : ℤ) → AllBefore s w p → has_price w p ≡ false
unfolding has_price
AllBefore-absent s [] p h = refl
AllBefore-absent s (x ∷ xs) p (b, h) =
    ground (arith, before_ne s x.0 p b, AllBefore-absent s xs p h)

pub All-at :
    (P : ℤ → Type 0) (w : List Level) (p : ℤ) → All (λ e. P e.0) w → has_price w p ≡ true → P p
unfolding has_price
All-at P [] p h e = absurd (false≢true e)
All-at P (x ∷ xs) p (here, h) e = elim (Bool-cases (x.0 ==ℤ p)) [
  | inl same ↦ subst P ((==ℤ_iff x.0 p).0 same) here
  | inr ne ↦ All-at P xs p h (rw ne at e)
]

-- What a change says that came into the view beside the price, and what left it.
abbrev pub entered : ViewChangeResult → ℤ
entered c = if c.replacement_price ==ℤ pos 0 then pos 0 else c.replacement_qty

abbrev pub left : ViewChangeResult → ℤ
left c = if c.evicted_price ==ℤ pos 0 then pos 0 else c.evicted_qty

-- The change of the total that the deltas of an update report.
unfoldable pub Accounts : List Level → ℤ → ℤ → List Level × ViewChangeResult → Type 0
Accounts w price delta (w', c) =
    total w'
    ≡ total w
      +ℤ ((if has_price w price || has_price w' price then delta else pos 0)
          +ℤ (entered c -ℤ left c))
