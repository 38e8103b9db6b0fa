-- ===== src/OfiView/Update.antt =====
-- `rebuildOfiSide` builds the best levels, and `updateOfiView` follows a change of the ladder.
use mathlib.Core.Bool.{false≢true}
use mathlib.Core.Path.{subst}
use lob.Prelude.{
  ℕ, zero, suc, ◌<◌, ◌≡◌, ◌⊎◌, refl, sym, ap, ◌∙◌, Bool, true, false, inl, inr, Option, none, some,
  arith, Bool-cases, List, [], ◌∷◌, ◌++◌, length, All, All-append, All-map, length-append,
}
use lob.Prelude.Int.{ℤ, pos, ltb_ℤ, ◌==ℤ◌, ==ℤ_iff}
use lob.PriceLadder.{PriceLadder, get_level}
use lob.OfiView.{
  Level, before, best_level, next_level, lower_bound, price_at, erase_at, assign_at, back,
  has_price, refill, replacement_from, rebuild_loop, rebuild_ofi_side, update_ofi_view,
  remove_level,
}
use lob.OfiView.Order.{before_trans, before_ne, same_sym, AllBefore, IsSorted, price_at-has}
use lob.OfiView.Edits.{
  erase_at-All, erase_at-IsSorted, length-erase_at, has_price-erase_at, erase_at-absent,
  IsSorted-append, has_price-append, back-All, back-worst, back-none, assign_at-IsSorted,
  assign_at-prices, price_after, length-assign_at, has_price-assign_at,
}
use lob.OfiView.Top.{IsTop, Sets, Unsets, others, add_level-IsTop}

-- `p` is the first price of the side with `P`, or 0 if there is none.
abbrev pub FirstWith : Bool → (ℤ → Type 0) → (ℤ → Type 0) → ℤ → Type 0
FirstWith s Lev P p =
    ((p ≡ pos 0) × ((x : ℤ) → Lev x → ¬ P x))
    ⊎ (Lev p × P p × ((x : ℤ) → Lev x → P x → (p ==ℤ x) ≡ false → before s p x ≡ true))

-- What a view asks of the ladder behind it: where its levels are, best first.
pub record LevelSource (s : Bool) (l : PriceLadder) (Lev : ℤ → Type 0) : Type 0 where
  pub positive : (p : ℤ) → Lev p → ltb_ℤ (pos 0) p ≡ true
  pub best : FirstWith s Lev (λ _. Unit {0}) (best_level s l)
  pub next : (b : ℤ) → FirstWith s Lev (λ p. before s b p ≡ true) (next_level s l b)

abbrev pub Beyond : Bool → Option Level → ℤ → Type 0
Beyond s none p = Unit {0}
Beyond s (some worst) p = before s worst.0 p ≡ true

nonzero : (p : ℤ) → ltb_ℤ (pos 0) p ≡ true → (p ==ℤ pos 0) ≡ false
nonzero p h = ground arith

has_price-cons :
    (e : Level) (w : List Level) (p : ℤ)
    → has_price (e ∷ w) p ≡ false
    → ((e.0 ==ℤ p) ≡ false) × (has_price w p ≡ false)
unfolding has_price
has_price-cons e w p h = ground arith

has_price-snoc :
    (w : List Level) (b : Level) (p : ℤ)
    → has_price (w ++ b ∷ []) p ≡ false
    → (has_price w p ≡ false) × ((b.0 ==ℤ p) ≡ false)
has_price-snoc w b p h = ground (arith, has_price-append w b p)

module _ (s : Bool) (l : PriceLadder) {Lev : ℤ → Type 0} (src : LevelSource s l Lev) where
  rebuild_loop-IsTop :
      (P : ℤ → Type 0)
      → ((p x : ℤ) → P p → before s p x ≡ true → P x)
      → (p : ℤ) (room : ℕ) → FirstWith s Lev P p
      → IsTop s (λ x. Lev x × P x) (get_level l) room (rebuild_loop s l p room)
  unfolding rebuild_loop
  rebuild_loop-IsTop P up p zero first = record {
    sorted = tt;
    levels = tt;
    short = omega arith;
    complete = λ _ _ _. (refl, tt);
  }
  rebuild_loop-IsTop P up p (suc room) (inl (e, empty)) = rw e (record {
    sorted = tt;
    levels = tt;
    short = omega arith;
    complete = λ x lv _. absurd (empty x lv.0 lv.1);
  })
  rebuild_loop-IsTop P up p (suc room) (inr (lv, holds, first)) =
      let rest =
        rebuild_loop-IsTop (λ x. before s p x ≡ true) (λ a b h k. before_trans s p a b h k)
          (next_level s l p) room (src.next p) in
      rw (src.positive p lv) (record {
        sorted = (All-map _ _ _ (λ e h. h.0.1) rest.levels, rest.sorted);
        levels = (
          (((lv, holds)), refl),
          All-map _ _ _ (λ e h. ((h.0.0, up p e.0 holds h.0.1), h.1)) rest.levels,
        );
        short = omega (arith, rest.short);
        complete = λ x lx h.
            let (ne, absent) = has_price-cons (p, get_level l p) _ x h in
            let b = first x lx.0 lx.1 ne in
            let (full, all) = rest.complete x (lx.0, b) absent in (ap suc full, (b, all));
      })

  -- Over a source of levels, `rebuildOfiSide` gives the best levels of the side, best first and with
  -- their quantities, at most `depth` of them, and leaves a level out only if it is full.
  pub rebuild_ofi_side-IsTop :
      (depth : ℕ) → IsTop s Lev (get_level l) depth (rebuild_ofi_side s depth l)
  unfolding rebuild_ofi_side
  rebuild_ofi_side-IsTop depth =
      let t = rebuild_loop-IsTop (λ _. Unit {0}) (λ _ _ _ _. tt) (best_level s l) depth src.best in
      record {
        sorted = t.sorted;
        levels = All-map _ _ _ (λ e h. (h.0.0, h.1)) t.levels;
        short = t.short;
        complete = λ p lv h. t.complete p (lv, tt) h;
      }

  pub replacement_first : (o : Option Level) → FirstWith s Lev (Beyond s o) (replacement_from s l o)
  replacement_first none = src.best
  replacement_first (some worst) = src.next worst.0

  pub Beyond-AllBefore :
      (w : List Level) (p : ℤ) (o : Option Level)
      → back w ≡ o
      → IsSorted s w
      → Beyond s o p
      → AllBefore s w p
  Beyond-AllBefore w p none e h b = rw (back-none w e) tt
  Beyond-AllBefore w p (some worst) e h b = back-worst s w p h e b

  AllBefore-Beyond :
      (w : List Level) (p : ℤ) (o : Option Level) → back w ≡ o → AllBefore s w p → Beyond s o p
  AllBefore-Beyond w p none e a = tt
  AllBefore-Beyond w p (some worst) e a = back-All _ w e a

  -- The view after an erasure, before the next best level is appended.
  module _ (depth : ℕ) (w : List Level) (sorted : IsSorted s w)
      (levels : All (λ e. Lev e.0 × (e.1 ≡ get_level l e.0)) w) (room : length w < depth)
      (outside : (p : ℤ)
        → Lev p
        → has_price w p ≡ false
        → (suc (length w) ≡ depth) × AllBefore s w p) where
    pub refill-IsTop : IsTop s Lev (get_level l) depth (refill s l w)
    unfolding refill
    refill-IsTop = go (replacement_first (back w))
      where
        r : ℤ
        r = replacement_from s l (back w)

        go : FirstWith s Lev (Beyond s (back w)) r → IsTop s Lev (get_level l) depth (refill s l w)
        go (inl (e, empty)) =
            rw (e, refill)
              (record {
                sorted = sorted;
                levels = levels;
                short = omega arith;
                complete = λ p lv h.
                    absurd (empty p lv (AllBefore-Beyond w p (back w) refl (outside p lv h).1));
              })
        go (inr (lv, beyond, first)) =
            let positive = src.positive r lv in
            rw (positive, nonzero r positive)
              (record {
                sorted =
                    IsSorted-append s w (r, get_level l r) sorted
                      (Beyond-AllBefore w r (back w) refl sorted beyond);
                levels = All-append _ w _ levels ((lv, refl), tt);
                short = omega (arith, length-append {0} w ((r, get_level l r) ∷ []));
                complete = λ p lp h.
                    let (absent, ne) = has_price-snoc w (r, get_level l r) p h in
                    let (full, all) = outside p lp absent in
                    let b = first p lp (AllBefore-Beyond w p (back w) refl all) ne in
                    (
                      omega (arith, full, length-append {0} w ((r, get_level l r) ∷ [])),
                      All-append _ w _ all (b, tt),
                    );
              })

All-zip :
    (P Q R : Level → Type 0) (w : List Level)
    → ((e : Level) → P e → Q e → R e)
    → All P w
    → All Q w
    → All R w
All-zip P Q R [] f a b = tt
All-zip P Q R (x ∷ xs) f (px, a) (qx, b) = (f x px qx, All-zip P Q R xs f a b)

-- Two prices of which only one is in the view are different.
has_price-ne :
    (w : List Level) (a b : ℤ) → has_price w a ≡ true → has_price w b ≡ false → (a ==ℤ b) ≡ false
has_price-ne w a b h k = elim (Bool-cases (a ==ℤ b)) [
  | inl e ↦ absurd (false≢true (sym k ∙ subst (λ x. has_price w x ≡ true) ((==ℤ_iff a b).0 e) h))
  | inr e ↦ e
]

pub not_here :
    {Lev Lev' : ℤ → Type 0} {qty qty' : ℤ → ℤ} (a p : ℤ)
    → Lev' p
    → Unsets a Lev Lev' qty qty'
    → (a ==ℤ p) ≡ false
not_here {Lev' = L} a p lv c = elim (Bool-cases (a ==ℤ p)) [
  | inl e ↦ absurd (c.gone (subst L (sym ((==ℤ_iff a p).0 e)) lv))
  | inr e ↦ e
]

module _ (s : Bool) (l : PriceLadder) (depth : ℕ) {Lev Lev' : ℤ → Type 0} {qty : ℤ → ℤ} (price : ℤ)
    (w : List Level) (t : IsTop s Lev qty depth w) where
  assign-levels :
      (q : ℤ) (v : List Level) (i : ℕ)
      → Sets price q Lev Lev' qty (get_level l)
      → IsSorted s v
      → price_at v i price ≡ true
      → All (λ e. Lev e.0 × (e.1 ≡ qty e.0)) v
      → All (λ e. Lev' e.0 × (e.1 ≡ get_level l e.0)) (assign_at v i q)
  unfolding assign_at price_at
  assign-levels q [] i c h e a = tt
  assign-levels q (x ∷ xs) zero c (after, h) e ((lv, eq), a) =
      let same : x.0 ≡ price = (==ℤ_iff x.0 price).0 e in
      let ne : All (λ y. (price ==ℤ y.0) ≡ false) xs =
        All-map _ _ xs (λ y b. before_ne s price y.0 (subst (λ p. before s p y.0 ≡ true) same b))
          after in
      (
        (c.kept x.0 lv, sym (ap (get_level l) same ∙ c.here_qty)),
        All-zip _ _ _ xs (λ y k (lv', eq'). (c.kept y.0 lv', eq' ∙ sym (c.there_qty y.0 lv' k))) ne
            a,
      )
  assign-levels q (x ∷ xs) (suc i) c (after, h) e ((lv, eq), a) =
      let ne = price_after s x.0 price xs i after e in
      (
        (c.kept x.0 lv, eq ∙ sym (c.there_qty x.0 lv (same_sym price x.0 ∙ ne))),
        assign-levels q xs i c h e a,
      )

  -- A quantity above 0 is written into the view, or added where it belongs.
  pub update-IsTop_set :
      (q : ℤ)
      → Sets price q Lev Lev' qty (get_level l)
      → ltb_ℤ (pos 0) q ≡ true
      → IsTop s Lev' (get_level l) depth (update_ofi_view s depth l w price q).0
  unfolding update_ofi_view
  update-IsTop_set q c positive =
      let i = lower_bound s w price in
      let found = price_at-has s w price t.sorted in
      elim (Bool-cases (price_at w i price)) [
        | inl e ↦
            rw (e, nonzero q positive)
              (record {
                sorted = assign_at-IsSorted s w i q t.sorted;
                levels = assign-levels q w i c t.sorted e t.levels;
                short = omega (arith, length-assign_at w i q, t.short);
                complete = λ p lv h.
                    let absent : has_price w p ≡ false = sym (has_price-assign_at w i q p) ∙ h in
                    let ne : (price ==ℤ p) ≡ false =
                      has_price-ne w price p (sym found ∙ e) absent in
                    let (full, all) = t.complete p (c.there p ne lv) absent in
                    (
                      length-assign_at w i q ∙ full,
                      assign_at-prices (λ x. before s x p ≡ true) w i q all,
                    );
              })
        | inr e ↦ rw (e, positive) (add_level-IsTop s depth price q c w t (sym found ∙ e))
      ]

  -- A removed level leaves the view, and the next best takes its place.
  pub update-IsTop_unset :
      LevelSource s l Lev'
      → Unsets price Lev Lev' qty (get_level l)
      → IsTop s Lev' (get_level l) depth (update_ofi_view s depth l w price (pos 0)).0
  unfolding update_ofi_view remove_level
  update-IsTop_unset src c =
      let i = lower_bound s w price in
      let found = price_at-has s w price t.sorted in
      elim (Bool-cases (price_at w i price)) [
        | inl e ↦
            let len = length-erase_at w i price e in
            let gone = erase_at-absent s w i price t.sorted e in
            rw e (
              refill-IsTop s l src depth (erase_at w i) (erase_at-IsSorted s w i t.sorted)
                (All-zip _ _ _ _
                  (λ y k (lv, eq).
                    let ne = same_sym price y.0 ∙ k in
                    (c.kept y.0 ne lv, eq ∙ sym (c.there_qty y.0 lv ne)))
                  gone (erase_at-All _ w i t.levels))
                (omega (arith, len, t.short))
                (λ p lv h.
                  let ne : (price ==ℤ p) ≡ false = not_here price p lv c in
                  let (full, all) =
                    t.complete p (c.there p ne lv)
                      (sym (has_price-erase_at w i price p e ne) ∙ h) in
                  (len ∙ full, erase_at-All _ w i all)))
        | inr e ↦ rw e (record {
          sorted = t.sorted;
          levels =
              others _ _ w price (sym found ∙ e)
                (λ y ne (lv, eq). (c.kept y.0 ne lv, eq ∙ sym (c.there_qty y.0 lv ne))) t.levels;
          short = t.short;
          complete = λ p lv h. t.complete p (c.there p (not_here price p lv c) lv) h;
        })
      ]
