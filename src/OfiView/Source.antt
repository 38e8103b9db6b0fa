-- ===== src/OfiView/Source.antt =====
-- A price ladder is a source of levels, and `set` changes it as a view expects.
use mathlib.Core.Bool.{false≢true}
use lob.Prelude.{ℕ, ◌%◌, ◌<◌, ◌≡◌, sym, ◌∙◌, Bool, true, false, inl, inr, arith}
use lob.Prelude.Int.{ℤ, pos, neg_part, ltb_ℤ, ◌==ℤ◌, ==ℤ_iff, ◌<ℤ◌, ◌≤ℤ◌}
use lob.PriceLadder.{PriceLadder, get_level, set_level}
use lob.PriceLadder.Invariant.{IsValid}
use lob.PriceLadder.Lookup.{get-set_level_self}
use lob.PriceLadder.Neighbours.{
  IsLevel, HighestWith, LowestWith, best_high_lem, best_low_lem, prev_below_lem, next_above_lem,
}
use lob.PriceLadder.Levels.{set-IsLevel, set-here, set-gone, set-kept, set-qty}
use lob.OfiView.Top.{Sets, Unsets}
use lob.OfiView.Update.{FirstWith, LevelSource}

lt-ltb_ℤ : (a b : ℤ) → ltb_ℤ a b ≡ true → a <ℤ b
lt-ltb_ℤ a b h = ground arith

ltb_ℤ_of_lt : (a b : ℤ) → a <ℤ b → ltb_ℤ a b ≡ true
ltb_ℤ_of_lt a b h = ground arith

ltb_ℤ_of_le : (a b : ℤ) → a ≤ℤ b → (a ==ℤ b) ≡ false → ltb_ℤ a b ≡ true
ltb_ℤ_of_le a b h k = ground arith

same_sym' : (a b : ℤ) → (a ==ℤ b) ≡ false → (b ==ℤ a) ≡ false
same_sym' a b h = ground arith

module _ (l : PriceLadder) (P Q : ℤ → Type 0) (to : (x : ℤ) → P x → Q x)
    (back : (x : ℤ) → Q x → P x) where
  highest-first : (p : ℤ) → HighestWith l P p → FirstWith true (IsLevel l) Q p
  highest-first p (inl (e, h)) = inl (e, λ x lv q. h x lv (back x q))
  highest-first p (inr (lv, holds, top)) =
      inr (lv, to p holds, λ x lx q ne. ltb_ℤ_of_le x p (top x lx (back x q)) (same_sym' p x ne))

  lowest-first : (p : ℤ) → LowestWith l P p → FirstWith false (IsLevel l) Q p
  lowest-first p (inl (e, h)) = inl (e, λ x lv q. h x lv (back x q))
  lowest-first p (inr (lv, holds, bottom)) =
      inr (lv, to p holds, λ x lx q ne. ltb_ℤ_of_le p x (bottom x lx (back x q)) ne)

-- Every level has a price above 0, which tells it from "none".
abbrev pub IsPositive : PriceLadder → Type 0
IsPositive l = (p : ℤ) → IsLevel l p → ltb_ℤ (pos 0) p ≡ true

pub ladder-LevelSource :
    (s : Bool) {l : PriceLadder} → IsValid l → IsPositive l → LevelSource s l (IsLevel l)
ladder-LevelSource true {l} v positive = record {
  positive = positive;
  best = highest-first l _ _ (λ _ u. u) (λ _ u. u) _ (best_high_lem v);
  next = λ b. highest-first l _ _ (λ x. ltb_ℤ_of_lt x b) (λ x. lt-ltb_ℤ x b) _ (prev_below_lem v b);
}
ladder-LevelSource false {l} v positive = record {
  positive = positive;
  best = lowest-first l _ _ (λ _ u. u) (λ _ u. u) _ (best_low_lem v);
  next = λ b. lowest-first l _ _ (λ x. ltb_ℤ_of_lt b x) (λ x. lt-ltb_ℤ b x) _ (next_above_lem v b);
}

module _ {l : PriceLadder} (v : IsValid l) (n : ℕ) (qty : ℤ) (grid : n % l.tick_size ≡ 0)
    (fits : neg_part qty ≡ 0) where
  pub set-IsPositive : 0 < n → IsPositive l → IsPositive (set_level l (pos n) qty).0
  set-IsPositive above positive p lv = elim (set-IsLevel v n qty grid {p = p} lv) [
    | inl (e, _) ↦ rw e (ltb_ℤ_of_lt (pos 0) (pos n) (omega arith))
    | inr old ↦ positive p old
  ]

  was-IsLevel :
      (p : ℤ) → (pos n ==ℤ p) ≡ false → IsLevel (set_level l (pos n) qty).0 p → IsLevel l p
  was-IsLevel p ne lv = elim (set-IsLevel v n qty grid {p = p} lv) [
    | inl (e, _) ↦ absurd (false≢true (sym ne ∙ (==ℤ_iff (pos n) p).1 (sym e)))
    | inr old ↦ old
  ]

  module _ (still : (set_level l (pos n) qty).1 ≡ false) where
    pub set-Sets :
        ltb_ℤ (pos 0) qty ≡ true
        → Sets
            (pos n)
            qty
            (IsLevel l)
            (IsLevel (set_level l (pos n) qty).0)
            (get_level l)
            (get_level (set_level l (pos n) qty).0)
    set-Sets h = record {
      here = set-here v n qty grid h;
      here_qty = (get-set_level_self v n qty fits).1;
      there = was-IsLevel;
      kept = λ p lv. set-kept v n qty grid still {p = p} (inr h) lv;
      there_qty = λ p lv ne. set-qty v n qty grid still {p = p} ne lv;
    }

    pub set-Unsets :
        qty ≡ pos 0
        → Unsets
            (pos n)
            (IsLevel l)
            (IsLevel (set_level l (pos n) qty).0)
            (get_level l)
            (get_level (set_level l (pos n) qty).0)
    set-Unsets h = record {
      gone = set-gone v n qty grid h;
      there = was-IsLevel;
      kept = λ p ne lv. set-kept v n qty grid still {p = p} (inl ne) lv;
      there_qty = λ p lv ne. set-qty v n qty grid still {p = p} ne lv;
    }
