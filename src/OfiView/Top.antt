-- ===== src/OfiView/Top.antt =====
-- What an OFI view promises: it holds the best `depth` levels of its side, best first.
use mathlib.Core.Bool.{false≢true}
use mathlib.Core.Path.{subst}
use native.Mathlib.Decide.{dec_lt}
use lob.Prelude.{
  ℕ, ◌≤◌, ◌<◌, ◌≡◌, refl, sym, ap, ◌∙◌, Bool, true, false, inl, inr, Option, none, some, arith,
  Bool-cases, List, [], ◌∷◌, length, All, All-append_left, ltb, lt→ltb, length-append,
}
use lob.Prelude.Int.{ℤ, ◌==ℤ◌, ==ℤ_iff}
use lob.OfiView.{Level, before, lower_bound, insert_at, back, pop_back, has_price, add_level, beats}
use lob.OfiView.Order.{before_trans, before_total, same_sym, AllBefore, IsSorted}
use lob.OfiView.Edits.{
  insert_at-All, length-insert_at, has_price-insert_at, insert_at-IsSorted, split_back, back-none,
  back-All, back-worst, IsSorted-front, has_price-append,
}

-- `Lev` says which prices are levels of the side, `qty` what is quoted at them. A level that is not
-- in the view is behind all that are, and there is one only if the view is full.
pub record IsTop (s : Bool) (Lev : ℤ → Type 0) (qty : ℤ → ℤ) (depth : ℕ) (w : List Level)
    : Type 0 where
  pub sorted : IsSorted s w
  pub levels : All (λ e. Lev e.0 × (e.1 ≡ qty e.0)) w
  pub short : length w ≤ depth
  pub complete : (p : ℤ) → Lev p → has_price w p ≡ false → (length w ≡ depth) × AllBefore s w p

-- How a ladder changes when a quantity is set at `price`.
pub record Sets (price q : ℤ) (Lev Lev' : ℤ → Type 0) (qty qty' : ℤ → ℤ) : Type 0 where
  pub here : Lev' price
  pub here_qty : qty' price ≡ q
  pub there : (p : ℤ) → (price ==ℤ p) ≡ false → Lev' p → Lev p
  pub kept : (p : ℤ) → Lev p → Lev' p
  pub there_qty : (p : ℤ) → Lev p → (price ==ℤ p) ≡ false → qty' p ≡ qty p

pub record Unsets (price : ℤ) (Lev Lev' : ℤ → Type 0) (qty qty' : ℤ → ℤ) : Type 0 where
  pub gone : ¬ Lev' price
  pub there : (p : ℤ) → (price ==ℤ p) ≡ false → Lev' p → Lev p
  pub kept : (p : ℤ) → (price ==ℤ p) ≡ false → Lev p → Lev' p
  pub there_qty : (p : ℤ) → Lev p → (price ==ℤ p) ≡ false → qty' p ≡ qty p

-- The entries of a view other than a price that is not in it.
pub others :
    (P Q : Level → Type 0) (w : List Level) (p : ℤ)
    → has_price w p ≡ false
    → ((e : Level) → (p ==ℤ e.0) ≡ false → P e → Q e)
    → All P w
    → All Q w
unfolding has_price
others P Q [] p h f a = tt
others P Q (x ∷ xs) p h f (px, a) =
    (f x (same_sym p x.0 ∙ ground arith) px, others P Q xs p (ground arith) f a)

All-unit : (w : List Level) → All (λ _. Unit {0}) w
All-unit [] = tt
All-unit (x ∷ xs) = (tt, All-unit xs)

not_lt : (a b : ℕ) → b ≤ a → ltb a b ≡ false
not_lt a b h = ground arith

module _ (s : Bool) (depth : ℕ) {Lev Lev' : ℤ → Type 0} {qty qty' : ℤ → ℤ} (price q : ℤ)
    (c : Sets price q Lev Lev' qty qty') (w : List Level) (t : IsTop s Lev qty depth w)
    (absent : has_price w price ≡ false) where
  kept_levels : All (λ e. Lev' e.0 × (e.1 ≡ qty' e.0)) w
  kept_levels =
      others _ _ w price absent (λ e ne (lv, eq). (c.kept e.0 lv, eq ∙ sym (c.there_qty e.0 lv ne)))
        t.levels

  grown : List Level
  grown = insert_at w (lower_bound s w price) (price, q)

  grown-IsSorted : IsSorted s (insert_at w (lower_bound s w price) (price, q))
  grown-IsSorted = insert_at-IsSorted (price, q) s w t.sorted absent

  grown_levels :
      All (λ e. Lev' e.0 × (e.1 ≡ qty' e.0)) (insert_at w (lower_bound s w price) (price, q))
  grown_levels =
      insert_at-All (price, q) _ w (lower_bound s w price) (c.here, sym c.here_qty) kept_levels

  -- A new level that is not in the grown view was not in the old one.
  outside :
      (p : ℤ)
      → Lev' p
      → has_price (insert_at w (lower_bound s w price) (price, q)) p ≡ false
      → ((price ==ℤ p) ≡ false) × (length w ≡ depth) × AllBefore s w p
  outside p lv h =
      let e = sym (has_price-insert_at (price, q) w (lower_bound s w price) p) ∙ h in
      let ne : (price ==ℤ p) ≡ false = ground arith in
      let (full, all) = t.complete p (c.there p ne lv) (ground arith) in (ne, full, all)

  insert-IsTop :
      length w < depth → IsTop s Lev' qty' depth (insert_at w (lower_bound s w price) (price, q))
  insert-IsTop h = record {
    sorted = grown-IsSorted;
    levels = grown_levels;
    short = omega (arith, length-insert_at (price, q) w (lower_bound s w price));
    complete = λ p lv e. absurd (omega (arith, (outside p lv e).1));
  }

  -- A full view that the new level beats loses its worst level.
  evict-IsTop :
      (worst : Level)
      → length w ≡ depth
      → back w ≡ some worst
      → before s price worst.0 ≡ true
      → IsTop s Lev' qty' depth (pop_back (insert_at w (lower_bound s w price) (price, q)))
  evict-IsTop worst full e better =
      let g = insert_at w (lower_bound s w price) (price, q) in
      let len = length-insert_at (price, q) w (lower_bound s w price) in
      let (b, _, f) = split_back g (omega (arith, len)) in
      let rest = pop_back g in
      let (sorted, last) = IsSorted-front s rest b (subst (IsSorted s) f grown-IsSorted) in
      let size : length rest ≡ depth =
        omega (arith, len, ap length f, length-append {0} rest (b ∷ [])) in
      record {
        sorted = sorted;
        levels = All-append_left _ rest (b ∷ []) (subst (All _) f grown_levels);
        short = omega (arith, size);
        complete = λ p lv h. elim (Bool-cases (b.0 ==ℤ p)) [
          | inl same ↦ (size, subst (AllBefore s rest) ((==ℤ_iff b.0 p).0 same) last)
          | inr ne ↦
              let gone : has_price g p ≡ false =
                ap (λ (x : List Level). has_price x p) f
                ∙ (has_price-append rest b p ∙ ground arith) in
              let (_, _, all) = outside p lv gone in
              let worse = back-All (λ (y : Level). before s y.0 p ≡ true) w e all in
              let all' =
                insert_at-All (price, q) (λ (y : Level). before s y.0 p ≡ true) w
                  (lower_bound s w price) (before_trans s price worst.0 p better worse) all in
              (size, All-append_left _ rest (b ∷ []) (subst (All _) f all'))
        ];
      }

  -- A full view that the new level does not beat stays as it is.
  keep-IsTop : length w ≡ depth → AllBefore s w price → IsTop s Lev' qty' depth w
  keep-IsTop full all = record {
    sorted = t.sorted;
    levels = kept_levels;
    short = t.short;
    complete = λ p lv h. elim (Bool-cases (price ==ℤ p)) [
      | inl same ↦ (full, subst (AllBefore s w) ((==ℤ_iff price p).0 same) all)
      | inr ne ↦ t.complete p (c.there p ne lv) h
    ];
  }

  not_beaten : (o : Option Level) → back w ≡ o → beats s price o ≡ false → AllBefore s w price
  not_beaten none e h = rw (back-none w e) tt
  not_beaten (some worst) e h =
      let other =
        back-All (λ (y : Level). (price ==ℤ y.0) ≡ false) w e
          (others (λ _. Unit {0}) _ w price absent (λ y ne _. ne) (All-unit w)) in
      back-worst s w price t.sorted e (before_total s price worst.0 h other)

  beaten :
      (o : Option Level)
      → back w ≡ o
      → beats s price o ≡ true
      → (worst : Level) × (back w ≡ some worst) × (before s price worst.0 ≡ true)
  beaten none e h = absurd (false≢true h)
  beaten (some worst) e h = (worst, e, h)

  -- A new level goes into the view exactly where the best levels want it.
  pub add_level-IsTop :
      IsTop s Lev' qty' depth (add_level s depth w (lower_bound s w price) price q).0
  unfolding add_level
  add_level-IsTop = elim (dec_lt (length w) depth) [
    | yes room ↦
        let len = length-insert_at (price, q) w (lower_bound s w price) in
        rw
          (
            lt→ltb (length w) depth room,
            not_lt depth (length (insert_at w (lower_bound s w price) (price, q)))
                (omega (arith, len)),
          )
          (insert-IsTop room)
    | no full' ↦
        let full : length w ≡ depth = omega (arith, t.short) in
        let len = length-insert_at (price, q) w (lower_bound s w price) in
        elim (Bool-cases (beats s price (back w))) [
          | inl b ↦
              let (worst, e, better) = beaten (back w) refl b in
              rw
                (
                  not_lt (length w) depth (omega arith),
                  b,
                  lt→ltb depth (length (insert_at w (lower_bound s w price) (price, q)))
                      (omega (arith, len)),
                )
                (evict-IsTop worst full e better)
          | inr b ↦
              rw (not_lt (length w) depth (omega arith), b)
                (keep-IsTop full (not_beaten (back w) refl b))
        ]
  ]
