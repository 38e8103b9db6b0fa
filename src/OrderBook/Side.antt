-- ===== src/OrderBook/Side.antt =====
-- The invariant of one side of a book, and that `applyLevelChange` keeps it.
use mathlib.Core.Bool.{false≢true}
use mathlib.Core.Path.{subst}
use lob.Prelude.{
  ℕ, zero, suc, ◌%◌, ◌<◌, ◌≡◌, ◌⊎◌, refl, sym, ap, ◌∙◌, Bool, true, false, not, inl, inr, ◌&&◌,
  arith, Bool-cases, if◌then◌else◌, List, ltb, All-map,
}
use lob.Prelude.Int.{
  ℤ, pos, negsuc, neg_part, ltb_ℤ, ◌==ℤ◌, ==ℤ_iff, ◌-ℤ◌, eq_of_parts, -ℤ_parts, pos_part,
}
use lob.PriceLadder.{PriceLadder, get_level, set_level, in_range}
use lob.PriceLadder.Invariant.{IsValid}
use lob.PriceLadder.Window.{make_room_cases}
use lob.PriceLadder.Lookup.{set_level-IsValid, get-set_level_self}
use lob.PriceLadder.Levels.{set-here, level-active, grid-IsLevel, set-IsLevel, set-kept, set-qty}
use lob.PriceLadder.Ticks.{get_level-out}
use lob.PriceLadder.Neighbours.{IsLevel}
use lob.OfiTypes.{EventKind}
use lob.OfiView.{Level, rebuild_ofi_side, update_ofi_view}
use lob.OfiView.Top.{IsTop, Sets}
use lob.OfiView.Update.{rebuild_ofi_side-IsTop, update-IsTop_set, update-IsTop_unset}
use lob.OfiView.Source.{IsPositive, ladder-LevelSource, set-IsPositive, set-Sets, set-Unsets}
use lob.OrderBook.{Change, change_side, follow, is_deep}

-- The ladder is well formed, its levels have prices above 0, and the view is its best `depth` levels.
pub record SideValid (s : Bool) (depth : ℕ) (l : PriceLadder) (w : List Level) : Type 0 where
  pub valid : IsValid l
  pub positive : IsPositive l
  pub top : IsTop s (IsLevel l) (get_level l) depth w

pub if_two :
    {A : Type 0} (P : A → Type 0) (b : Bool) {x y : A}
    → (b ≡ true → P x)
    → (b ≡ false → P y)
    → P (if b then x else y)
if_two P true f g = f refl
if_two P false f g = g refl

-- A view follows a change that leaves the levels and their quantities as they are.
IsTop-ext :
    (s : Bool) (depth : ℕ) {Lev Lev' : ℤ → Type 0} {qty qty' : ℤ → ℤ} (w : List Level)
    → ((p : ℤ) → Lev p → Lev' p × (qty' p ≡ qty p))
    → ((p : ℤ) → Lev' p → Lev p)
    → IsTop s Lev qty depth w
    → IsTop s Lev' qty' depth w
IsTop-ext s depth w to back t = record {
  sorted = t.sorted;
  levels = All-map _ _ w (λ e (lv, eq). let (lv', eq') = to e.0 lv in (lv', eq ∙ sym eq')) t.levels;
  short = t.short;
  complete = λ p lv h. t.complete p (back p lv) h;
}

pub sign : (q : ℤ) → neg_part q ≡ 0 → (ltb_ℤ (pos 0) q ≡ true) ⊎ (q ≡ pos 0)
sign (pos zero) h = inr refl
sign (pos (suc n)) h = inl (ground arith)
sign (negsuc n) h = absurd (omega arith)

no_difference : (a b : ℤ) → ((a -ℤ b) ==ℤ pos 0) ≡ true → a ≡ b
no_difference a b h =
    let e : (a -ℤ b) ≡ pos 0 = (==ℤ_iff (a -ℤ b) (pos 0)).0 h in
    eq_of_parts a b (omega (arith, -ℤ_parts a b, ap pos_part e, ap neg_part e))

no_change_same : (a b : ℤ) → a ≡ b → ((a -ℤ b) ==ℤ pos 0) ≡ true
no_change_same a b e =
    (==ℤ_iff (a -ℤ b) (pos 0)).1
      (eq_of_parts _ _ (omega (arith, -ℤ_parts a b, ap pos_part e, ap neg_part e)))

module _ (s : Bool) (depth : ℕ) {l : PriceLadder} {w : List Level} (v : SideValid s depth l w)
    (n : ℕ) (qty : ℤ) (above : 0 < n) (grid : n % l.tick_size ≡ 0) (fits : neg_part qty ≡ 0) where
  next : PriceLadder
  next = (set_level l (pos n) qty).0

  valid' : IsValid (set_level l (pos n) qty).0
  valid' = set_level-IsValid v.valid n qty fits

  positive' : IsPositive (set_level l (pos n) qty).0
  positive' = set-IsPositive v.valid n qty grid fits above v.positive

  rebuilt :
      IsTop s
        (IsLevel (set_level l (pos n) qty).0)
        (get_level (set_level l (pos n) qty).0)
        depth
        (rebuild_ofi_side s depth (set_level l (pos n) qty).0)
  rebuilt = rebuild_ofi_side-IsTop s _ (ladder-LevelSource s valid' positive') depth

  -- After a recenter the price was outside the old window.
  moved_reads : (set_level l (pos n) qty).1 ≡ true → get_level l (pos n) ≡ pos 0
  unfolding set_level
  moved_reads =
      make_room_cases (λ r. r.1 ≡ true → get_level l (pos n) ≡ pos 0) l (pos n)
        (λ _ e. absurd (false≢true e)) (λ _ out _. get_level-out v.valid n out)
        (λ _ _ e. absurd (false≢true e))

  -- A recenter: the view was rebuilt, and updating it again with the level changes nothing.
  recentered-Sets :
      ltb_ℤ (pos 0) qty ≡ true
      → Sets
          (pos n)
          qty
          (IsLevel (set_level l (pos n) qty).0)
          (IsLevel (set_level l (pos n) qty).0)
          (get_level (set_level l (pos n) qty).0)
          (get_level (set_level l (pos n) qty).0)
  recentered-Sets h = record {
    here = set-here v.valid n qty grid h;
    here_qty = (get-set_level_self v.valid n qty fits).1;
    there = λ p ne lv. lv;
    kept = λ p lv. lv;
    there_qty = λ p lv ne. refl;
  }

  Top' : List Level → Type 0
  Top' = IsTop s (IsLevel (set_level l (pos n) qty).0) (get_level (set_level l (pos n) qty).0) depth

  followed : List Level → List Level
  followed w0 =
      if (qty -ℤ get_level l (pos n)) ==ℤ pos 0
      then w0
      else (update_ofi_view s depth (set_level l (pos n) qty).0 w0 (pos n) qty).0

  follow-SideValid :
      (w0 : List Level) (kind : EventKind)
      → Top' (followed w0)
      → let c =
          follow s depth (set_level l (pos n) qty).0 w0 (pos n) qty (get_level l (pos n)) kind in
        SideValid s depth c.ladder c.view
  unfolding follow followed Top'
  follow-SideValid w0 kind t =
      if_two (λ (c : Change). SideValid s depth c.ladder c.view)
        ((qty -ℤ get_level l (pos n)) ==ℤ pos 0)
        (λ e. record { valid = valid'; positive = positive'; top = rw e at t })
        (λ e. record { valid = valid'; positive = positive'; top = rw e at t })

  recentered-Top :
      (set_level l (pos n) qty).1 ≡ true
      → Top' (followed (rebuild_ofi_side s depth (set_level l (pos n) qty).0))
  unfolding followed Top'
  recentered-Top moved =
      let prev = moved_reads moved in
      if_two Top' ((qty -ℤ get_level l (pos n)) ==ℤ pos 0) (λ _. rebuilt)
        (λ e. elim (sign qty fits) [
          | inl positive ↦
              update-IsTop_set s _ depth (pos n) _ rebuilt qty (recentered-Sets positive) positive
          | inr nothing ↦ absurd (false≢true (sym e ∙ no_change_same _ _ (nothing ∙ sym prev)))
        ])

  unchanged : (set_level l (pos n) qty).1 ≡ false → qty ≡ get_level l (pos n) → Top' w
  unfolding Top'
  unchanged still same = IsTop-ext s depth w to from v.top
    where
      to :
          (p : ℤ)
          → IsLevel l p
          → IsLevel (set_level l (pos n) qty).0 p
            × (get_level (set_level l (pos n) qty).0 p ≡ get_level l p)
      to p lv = elim (Bool-cases (pos n ==ℤ p)) [
        | inl e ↦
            let here : pos n ≡ p = (==ℤ_iff (pos n) p).0 e in
            let active : ltb_ℤ (pos 0) qty ≡ true =
              ap (ltb_ℤ (pos 0)) (same ∙ ap (get_level l) here) ∙ level-active v.valid {p = p} lv in
            (
              set-kept v.valid n qty grid still {p = p} (inr active) lv,
              ap (get_level (set_level l (pos n) qty).0) (sym here)
                  ∙ ((get-set_level_self v.valid n qty fits).1 ∙ (same ∙ ap (get_level l) here)),
            )
        | inr ne ↦ (
          set-kept v.valid n qty grid still {p = p} (inl ne) lv,
          set-qty v.valid n qty grid still {p = p} ne lv,
        )
      ]

      from : (p : ℤ) → IsLevel (set_level l (pos n) qty).0 p → IsLevel l p
      from p lv = elim (set-IsLevel v.valid n qty grid {p = p} lv) [
        | inl (e, h) ↦
            subst (IsLevel l) (sym e)
              (grid-IsLevel v.valid n grid (ap (ltb_ℤ (pos 0)) (sym same) ∙ h))
        | inr old ↦ old
      ]

  still-Top : (set_level l (pos n) qty).1 ≡ false → Top' (followed w)
  unfolding followed Top'
  still-Top still =
      let source = ladder-LevelSource s valid' positive' in
      if_two Top' ((qty -ℤ get_level l (pos n)) ==ℤ pos 0)
        (λ e. unchanged still (no_difference _ _ e))
        (λ e. elim (sign qty fits) [
          | inl positive ↦
              update-IsTop_set s _ depth (pos n) w v.top qty
                (set-Sets v.valid n qty grid fits still positive) positive
          | inr nothing ↦
              subst (λ q. Top' (update_ofi_view s depth (set_level l (pos n) qty).0 w (pos n) q).0)
                (sym nothing)
                (update-IsTop_unset s _ depth (pos n) w v.top source
                  (set-Unsets v.valid n qty grid fits still nothing))
        ])

  -- `applyLevelChange` keeps the invariant of its side.
  pub change_side-SideValid :
      (kind : EventKind)
      → let c = change_side s depth l w (pos n) qty kind in SideValid s depth c.ladder c.view
  unfolding change_side
  change_side-SideValid kind =
      if_two (λ (c : Change). SideValid s depth c.ladder c.view)
        (ltb 0 l.count && not (in_range l (pos n)) && is_deep s l (pos n)) (λ _. v)
        (λ _. elim (Bool-cases (set_level l (pos n) qty).1) [
          | inl moved ↦ rw moved (follow-SideValid _ kind (recentered-Top moved))
          | inr still ↦ rw still (follow-SideValid _ kind (still-Top still))
        ])
