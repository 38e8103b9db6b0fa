-- ===== src/OfiView/Growth.antt =====
-- A level that `updateOfiView` adds to a view (src/order_book.cpp), and the one that it evicts, in the
-- total quantity of the view.
use mathlib.Core.Bool.{false≢true}
use mathlib.Core.Path.{subst}
use native.Mathlib.Decide.{dec_lt}
use lob.Prelude.{
  ℕ, ◌≤◌, ◌<◌, ◌≡◌, ◌⊎◌, refl, sym, ap, ◌∙◌, Bool, true, false, inl, inr, ◌||◌, Option, none, some,
  arith, Bool-cases, List, [], ◌∷◌, ◌++◌, length, All-map, ltb, lt→ltb,
}
use lob.Prelude.Int.{ℤ, pos, ltb_ℤ, ◌+ℤ◌, ◌-ℤ◌, ◌==ℤ◌, ==ℤ_iff, int_laws}
use lob.PriceLadder.{PriceLadder}
use lob.OfiView.{
  Level, before, lower_bound, insert_at, back, pop_back, has_price, no_change, evicted, beats,
  add_level,
}
use lob.OfiView.Order.{before_ne, before_asym, AllBefore, IsSorted}
use lob.OfiView.Edits.{
  insert_at-All, length-insert_at, has_price-insert_at, insert_at-IsSorted, split_back, back-All,
  IsSorted-front, has_price-append,
}
use lob.OfiView.Top.{IsTop}
use lob.Prelude.Maps.{none-ne-some}
use lob.OfiView.Totals.{total, same_parts, total-append, total-insert_at, All-at, Accounts}

not_lt : (a b : ℕ) → b ≤ a → ltb a b ≡ false
not_lt a b h = ground arith

pub nonzero : (p : ℤ) → ltb_ℤ (pos 0) p ≡ true → (p ==ℤ pos 0) ≡ false
nonzero p h = ground arith

back-length : (w : List Level) {b : Level} → back w ≡ some b → 0 < length w
unfolding back
back-length [] e = absurd (none-ne-some e)
back-length (x ∷ xs) e = omega arith

beaten :
    (s : Bool) (price : ℤ) (w : List Level) (o : Option Level)
    → back w ≡ o
    → beats s price o ≡ true
    → (worst : Level) × (back w ≡ some worst) × (before s price worst.0 ≡ true)
beaten s price w none e h = absurd (false≢true h)
beaten s price w (some worst) e h = (worst, e, h)

add_nothing : (a : ℤ) → a ≡ a +ℤ (pos 0 +ℤ (pos 0 -ℤ pos 0))
add_nothing a = omega int_laws

pub add_change : (a d : ℤ) → a +ℤ d ≡ a +ℤ (d +ℤ (pos 0 -ℤ pos 0))
add_change a d = omega int_laws

has_back : (w : List Level) {b : Level} → back w ≡ some b → 0 < length w → has_price w b.0 ≡ true
has_back w {b} e h =
    let (c, f, split) = split_back w h in
    let same : c ≡ b = cc in
    ap (λ v. has_price v b.0) split
    ∙ (has_price-append (pop_back w) c b.0 ∙ ground (arith, ap (λ (x : Level). x.0) same))

module _ (s : Bool) (depth : ℕ) (l : PriceLadder) {Lev : ℤ → Type 0} {qty : ℤ → ℤ} (price : ℤ)
    (w : List Level) (t : IsTop s Lev qty depth w) where
  -- Nothing changes in the view, and the price is not in it.
  pub keep-Accounts : (d : ℤ) → has_price w price ≡ false → Accounts w price d (w, no_change)
  unfolding Accounts
  keep-Accounts d absent = rw absent (add_nothing (total w))

  -- The price is not in the view, and reads 0 unless the view is full of better ones.
  unread :
      (Lev price ⊎ (qty price ≡ pos 0))
      → has_price w price ≡ false
      → (length w < depth)
        ⊎ ((worst : Level) × (back w ≡ some worst) × (before s price worst.0 ≡ true))
      → qty price ≡ pos 0
  unread (inr e) absent room = e
  unread (inl lv) absent (inl room) = absurd (omega (arith, (t.complete price lv absent).0))
  unread (inl lv) absent (inr (worst, e, better)) =
      let behind =
        back-All (λ (y : Level). before s y.0 price ≡ true) w e (t.complete price lv absent).1 in
      absurd (false≢true (sym (before_asym s price worst.0 better) ∙ behind))

  grown-Accounts :
      (q : ℤ)
      → qty price ≡ pos 0
      → Accounts w price
          (q -ℤ qty price)
          (insert_at w (lower_bound s w price) (price, q), no_change)
  unfolding Accounts
  grown-Accounts q zero_qty =
      let i = lower_bound s w price in
      let here : has_price (insert_at w i (price, q)) price ≡ true =
        has_price-insert_at (price, q) w i price ∙ ground (arith, ==ℤ_iff price price) in
      let in_view : (has_price w price || has_price (insert_at w i (price, q)) price) ≡ true =
        ground (arith, here) in
      rw in_view
        (omega (int_laws, same_parts (total-insert_at w i (price, q)), same_parts zero_qty))

  -- The new level is not the worst one, so it stays in the view.
  stays :
      (worst b : Level) (rest : List Level)
      → before s price worst.0 ≡ true
      → has_price (rest ++ b ∷ []) price ≡ true
      → has_price (rest ++ b ∷ []) worst.0 ≡ true
      → AllBefore s rest b.0
      → has_price rest price ≡ true
  stays worst b rest better here there last = elim (Bool-cases (b.0 ==ℤ price)) [
    | inr ne ↦ ground (arith, has_price-append rest b price, here, ne)
    | inl same ↦
        let at : b.0 ≡ price = (==ℤ_iff b.0 price).0 same in
        let ne : (b.0 ==ℤ worst.0) ≡ false =
          subst (λ p. (p ==ℤ worst.0) ≡ false) (sym at) (before_ne s price worst.0 better) in
        let in_rest : has_price rest worst.0 ≡ true =
          ground (arith, has_price-append rest b worst.0, there, ne) in
        let behind : before s worst.0 b.0 ≡ true =
          All-at (λ p. before s p b.0 ≡ true) rest worst.0 last in_rest in
        absurd (
          false≢true (
            sym (before_asym s price worst.0 better)
            ∙ subst (λ p. before s worst.0 p ≡ true) at behind))
  ]

  evict-Accounts :
      (q : ℤ) (worst : Level)
      → ((p : ℤ) → Lev p → (p ==ℤ pos 0) ≡ false)
      → (price ==ℤ pos 0) ≡ false
      → has_price w price ≡ false
      → qty price ≡ pos 0
      → back w ≡ some worst
      → before s price worst.0 ≡ true
      → 0 < length w
      → Accounts w price (q -ℤ qty price) (
        pop_back (insert_at w (lower_bound s w price) (price, q)),
        evicted (back (insert_at w (lower_bound s w price) (price, q))),
      )
  unfolding Accounts
  evict-Accounts q worst positive above absent zero_qty e better some_levels =
      let i = lower_bound s w price in
      let g = insert_at w i (price, q) in
      let len = length-insert_at (price, q) w i in
      let (b, at, split) = split_back g (omega (arith, len)) in
      let rest = pop_back g in
      let (_, last) =
        IsSorted-front s rest b
          (subst (IsSorted s) split (insert_at-IsSorted (price, q) s w t.sorted absent)) in
      let b_above : (b.0 ==ℤ pos 0) ≡ false =
        back-All (λ (y : Level). (y.0 ==ℤ pos 0) ≡ false) g at
          (insert_at-All (price, q) _ w i above
            (All-map _ _ w (λ y h. positive y.0 h.0) t.levels)) in
      let here : has_price g price ≡ true =
        has_price-insert_at (price, q) w i price ∙ ground (arith, ==ℤ_iff price price) in
      let in_rest =
        stays worst b rest better (sym (ap (λ v. has_price v price) split) ∙ here)
          (sym (ap (λ v. has_price v worst.0) split)
            ∙ (has_price-insert_at (price, q) w i worst.0
                ∙ ground (arith, has_back w e some_levels)))
          last in
      let in_view : (has_price w price || has_price rest price) ≡ true = ground (arith, in_rest) in
      rw (in_view, at, b_above)
        (omega (
          int_laws,
          same_parts (total-insert_at w i (price, q)),
          same_parts (ap total split ∙ total-append rest b),
          same_parts zero_qty,
        ))

  pub add-Accounts :
      (q : ℤ)
      → ((p : ℤ) → Lev p → (p ==ℤ pos 0) ≡ false)
      → (price ==ℤ pos 0) ≡ false
      → (Lev price ⊎ (qty price ≡ pos 0))
      → has_price w price ≡ false
      → Accounts w price (q -ℤ qty price) (add_level s depth w (lower_bound s w price) price q)
  unfolding add_level
  add-Accounts q positive above known absent = elim (dec_lt (length w) depth) [
    | yes room ↦
        let len = length-insert_at (price, q) w (lower_bound s w price) in
        rw
          (
            lt→ltb (length w) depth room,
            not_lt depth (length (insert_at w (lower_bound s w price) (price, q)))
                (omega (arith, len)),
          )
          (grown-Accounts q (unread known absent (inl room)))
    | no full' ↦
        let full : length w ≡ depth = omega (arith, t.short) in
        let len = length-insert_at (price, q) w (lower_bound s w price) in
        rw (not_lt (length w) depth (omega (arith, full)))
          (elim (Bool-cases (beats s price (back w))) [
            | inl better ↦
                let (worst, e, b) = beaten s price w (back w) refl better in
                let some_levels = back-length w e in
                rw
                  (
                    better,
                    lt→ltb depth (length (insert_at w (lower_bound s w price) (price, q)))
                        (omega (arith, len, full)),
                  )
                  (evict-Accounts q worst positive above absent
                    (unread known absent (inr (worst, e, b))) e b some_levels)
            | inr worse ↦ rw worse (keep-Accounts (q -ℤ qty price) absent)
          ])
  ]
