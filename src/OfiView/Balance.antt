-- ===== src/OfiView/Balance.antt =====
-- The deltas of `updateOfiView` account for the change of the total quantity of the view.

use lob.Prelude.{
  ℕ, ◌≡◌, ◌⊎◌, refl, sym, ◌∙◌, Bool, true, false, inl, inr, ◌&&◌, some, arith, Bool-cases, List, [],
  ◌∷◌, ◌++◌, length, All, All-map, ◌==◌, length-append,
}
use lob.Prelude.Int.{ℤ, pos, ltb_ℤ, ◌-ℤ◌, ◌==ℤ◌, int_laws}
use lob.PriceLadder.{PriceLadder, get_level}
use lob.OfiView.{
  Level, lower_bound, price_at, erase_at, assign_at, back, has_price, no_change, replacement_from,
  refill, remove_level, update_ofi_view,
}
use lob.OfiView.Order.{price_at-has}
use lob.OfiView.Edits.{length-erase_at, erase_at-IsSorted, has_price-erase_at}
use lob.OfiView.Top.{IsTop, Unsets}
use lob.OfiView.Update.{
  LevelSource, FirstWith, Beyond, Beyond-AllBefore, replacement_first, not_here,
}
use lob.OfiView.Totals.{
  total, same_parts, total-append, total-erase_at, total-assign_at, AllBefore-absent, Accounts,
}
use lob.OfiView.Growth.{nonzero, add_change, keep-Accounts, add-Accounts}

back-snoc : (w : List Level) (e : Level) → back (w ++ e ∷ []) ≡ some e
unfolding back
back-snoc [] e = refl
back-snoc (x ∷ []) e = refl
back-snoc (x ∷ y ∷ w) e = back-snoc (y ∷ w) e

refill-none :
    (s : Bool) (l : PriceLadder) (w : List Level)
    → replacement_from s l (back w) ≡ pos 0
    → refill s l w ≡ w
unfolding refill
refill-none s l w e = rw e refl

refill-some :
    (s : Bool) (l : PriceLadder) (w : List Level)
    → ltb_ℤ (pos 0) (replacement_from s l (back w)) ≡ true
    → let r = replacement_from s l (back w) in refill s l w ≡ w ++ (r, get_level l r) ∷ []
unfolding refill
refill-some s l w h = rw (h, nonzero (replacement_from s l (back w)) h) refl

module _ (s : Bool) (depth : ℕ) (l : PriceLadder) {Lev : ℤ → Type 0} {qty : ℤ → ℤ} (price : ℤ)
    (w : List Level) (t : IsTop s Lev qty depth w) where
  quoted : All (λ e. e.1 ≡ qty e.0) w
  quoted = All-map _ _ w (λ e h. h.1) t.levels

  -- The price is in the view: its quantity is replaced.
  assign-Accounts :
      (q : ℤ)
      → price_at w (lower_bound s w price) price ≡ true
      → Accounts w price (q -ℤ qty price) (assign_at w (lower_bound s w price) q, no_change)
  unfolding Accounts
  assign-Accounts q e =
      let found = price_at-has s w price t.sorted in
      let present : has_price w price ≡ true = sym found ∙ e in
      rw present (
        total-assign_at qty w (lower_bound s w price) price q quoted e
        ∙ add_change (total w) (q -ℤ qty price))

  -- A quantity above 0 is set.
  pub set-Accounts :
      (q : ℤ)
      → ltb_ℤ (pos 0) q ≡ true
      → ((p : ℤ) → Lev p → (p ==ℤ pos 0) ≡ false)
      → (price ==ℤ pos 0) ≡ false
      → (Lev price ⊎ (qty price ≡ pos 0))
      → Accounts w price (q -ℤ qty price) (update_ofi_view s depth l w price q)
  unfolding update_ofi_view
  set-Accounts q some_qty positive above known =
      let found = price_at-has s w price t.sorted in
      elim (Bool-cases (price_at w (lower_bound s w price) price)) [
        | inl e ↦ rw (e, nonzero q some_qty) (assign-Accounts q e)
        | inr e ↦
            rw (e, some_qty)
              (add-Accounts s depth l price w t q positive above known (sym found ∙ e))
      ]

  -- The price is unset: a level that takes its place was one before, so the view was full, and the
  -- replacement is reported.
  refill-Accounts :
      {Lev' : ℤ → Type 0}
      → LevelSource s l Lev'
      → Unsets price Lev Lev' qty (get_level l)
      → price_at w (lower_bound s w price) price ≡ true
      → FirstWith s Lev'
          (Beyond s (back (erase_at w (lower_bound s w price))))
          (replacement_from s l (back (erase_at w (lower_bound s w price))))
      → Accounts w price (pos 0 -ℤ qty price) (remove_level s depth l w (lower_bound s w price))
  unfolding remove_level Accounts
  refill-Accounts src c e (inl (none_left, _)) =
      let i = lower_bound s w price in
      let erased = erase_at w i in
      let present : has_price w price ≡ true = sym (price_at-has s w price t.sorted) ∙ e in
      let len = length-erase_at w i price e in
      let quiet : ((length w == depth) && (length erased == depth)) ≡ false = ground (arith, len) in
      rw (refill-none s l erased none_left, present, quiet)
        (omega (int_laws, same_parts (total-erase_at qty w i price quoted e)))
  refill-Accounts {Lev'} src c e (inr (lv, beyond, _)) =
      let i = lower_bound s w price in
      let erased = erase_at w i in
      let r = replacement_from s l (back erased) in
      let above = src.positive r lv in
      let present : has_price w price ≡ true = sym (price_at-has s w price t.sorted) ∙ e in
      let len = length-erase_at w i price e in
      let ne : (price ==ℤ r) ≡ false = not_here price r lv c in
      let behind =
        Beyond-AllBefore s l src erased r (back erased) refl (erase_at-IsSorted s w i t.sorted)
          beyond in
      let absent : has_price w r ≡ false =
        sym (has_price-erase_at w i price r e ne) ∙ AllBefore-absent s erased r behind in
      let full = (t.complete r (c.there r ne lv) absent).0 in
      let grown = length-append {0} erased ((r, get_level l r) ∷ []) in
      let loud : ((length w == depth) && (length (erased ++ (r, get_level l r) ∷ []) == depth))
          ≡ true =
        ground (arith, len, full, grown) in
      rw
        (
          refill-some s l erased above,
          present,
          loud,
          back-snoc erased (r, get_level l r),
          nonzero r above,
        )
        (omega (
          int_laws,
          same_parts (total-erase_at qty w i price quoted e),
          same_parts (total-append erased (r, get_level l r)),
        ))

  pub unset-Accounts :
      {Lev' : ℤ → Type 0}
      → LevelSource s l Lev'
      → Unsets price Lev Lev' qty (get_level l)
      → Accounts w price (pos 0 -ℤ qty price) (update_ofi_view s depth l w price (pos 0))
  unfolding update_ofi_view
  unset-Accounts src c =
      let i = lower_bound s w price in
      let found = price_at-has s w price t.sorted in
      elim (Bool-cases (price_at w i price)) [
        | inl e ↦ rw e (refill-Accounts src c e (replacement_first s l src (back (erase_at w i))))
        | inr e ↦ rw e (keep-Accounts s depth l price w t (pos 0 -ℤ qty price) (sym found ∙ e))
      ]
