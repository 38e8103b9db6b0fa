-- ===== src/Main/ViewChange.antt =====
-- The deltas that a book emits (src/order_book.cpp) against the OFI change that the callback of
-- src/main.cpp sums from them.

use mathlib.Core.Path.{subst}
use lob.Prelude.{
  ℕ, ◌%◌, ◌<◌, ◌≡◌, ◌⊎◌, refl, sym, ap, ◌∙◌, Bool, true, false, not, inl, inr, ◌&&◌, ◌||◌, arith,
  Bool-cases, if◌then◌else◌, List, ltb,
}
use lob.Prelude.Int.{ℤ, pos, neg_part, ltb_ℤ, ◌==ℤ◌, ◌-ℤ◌, ◌+ℤ◌, int_laws}
use lob.PriceLadder.{PriceLadder, get_level, set_level, in_range, to_idx}
use lob.PriceLadder.Invariant.{IsValid}
use lob.PriceLadder.Levels.{grid-IsLevel}
use lob.PriceLadder.Neighbours.{IsLevel}
use lob.PriceLadder.Lookup.{set_level-IsValid}
use lob.OfiTypes.{genuine}
use lob.OfiView.{Level, has_price, update_ofi_view, ViewChangeResult}
use lob.OfiView.Totals.{total, same_parts, entered, left, Accounts}
use lob.OfiView.Balance.{set-Accounts, unset-Accounts}
use lob.OfiView.Source.{ladder-LevelSource, set-IsPositive, set-Unsets}
use lob.OrderBook.{Change, change_side, follow, is_deep, secondary_delta}
use lob.OrderBook.Side.{SideValid, if_two, sign}
use lob.Main.OfiSum.{ofi_sum, ofi_of}

-- Bids count up, asks count down.
abbrev pub signed : Bool → ℤ → ℤ
signed true x = x
signed false x = pos 0 -ℤ x

secondary_delta-sum :
    (s : Bool) (c : ViewChangeResult)
    → ofi_sum (secondary_delta s genuine c) ≡ signed s (entered c -ℤ left c)
unfolding ofi_sum ofi_of
secondary_delta-sum s c = elim (Bool-cases (c.evicted_price ==ℤ pos 0)) [
  | inl no_evicted ↦ elim (Bool-cases (c.replacement_price ==ℤ pos 0)) [
    | inl no_entered ↦ rw (no_evicted, no_entered) (neither s)
    | inr some_entered ↦ rw (no_evicted, some_entered) (only_entered s c.replacement_qty)
  ]
  | inr some_evicted ↦ elim (Bool-cases (c.replacement_price ==ℤ pos 0)) [
    | inl no_entered ↦ rw (some_evicted, no_entered) (only_left s c.evicted_qty)
    | inr some_entered ↦ rw (some_evicted, some_entered) (both s c.evicted_qty c.replacement_qty)
  ]
]
  where
    neither : (t : Bool) → pos 0 ≡ signed t (pos 0 -ℤ pos 0)
    neither true = omega int_laws
    neither false = omega int_laws

    only_entered :
        (t : Bool) (x : ℤ) → (if t then x else pos 0 -ℤ x) +ℤ pos 0 ≡ signed t (x -ℤ pos 0)
    only_entered true x = omega int_laws
    only_entered false x = omega int_laws

    only_left :
        (t : Bool) (x : ℤ)
        → (if t then pos 0 -ℤ x else pos 0 -ℤ (pos 0 -ℤ x)) +ℤ pos 0 ≡ signed t (pos 0 -ℤ x)
    only_left true x = omega int_laws
    only_left false x = omega int_laws

    both :
        (t : Bool) (x y : ℤ)
        → (if t then pos 0 -ℤ x else pos 0 -ℤ (pos 0 -ℤ x))
            +ℤ ((if t then y else pos 0 -ℤ y) +ℤ pos 0)
          ≡ signed t (y -ℤ x)
    both true x y = omega int_laws
    both false x y = omega int_laws

-- The sum of an update's deltas, the first of which is that of the price.
account :
    (s : Bool) (w : List Level) (price delta : ℤ) (w' : List Level) (c : ViewChangeResult)
    → Accounts w price delta (w', c)
    → (if has_price w price || has_price w' price
          then (if s then delta else pos 0 -ℤ delta)
          else pos 0)
        +ℤ signed s (entered c -ℤ left c)
      ≡ signed s (total w' -ℤ total w)
unfolding Accounts
account s w price delta w' c h = elim (Bool-cases (has_price w price || has_price w' price)) [
  | inl seen ↦ rw seen (add_seen s (rw seen at h))
  | inr unseen ↦ rw unseen (add_unseen s (rw unseen at h))
]
  where
    add_seen :
        (t : Bool)
        → total w' ≡ total w +ℤ (delta +ℤ (entered c -ℤ left c))
        → (if t then delta else pos 0 -ℤ delta) +ℤ signed t (entered c -ℤ left c)
          ≡ signed t (total w' -ℤ total w)
    add_seen true e = omega (int_laws, same_parts e)
    add_seen false e = omega (int_laws, same_parts e)

    add_unseen :
        (t : Bool)
        → total w' ≡ total w +ℤ (pos 0 +ℤ (entered c -ℤ left c))
        → pos 0 +ℤ signed t (entered c -ℤ left c) ≡ signed t (total w' -ℤ total w)
    add_unseen true e = omega (int_laws, same_parts e)
    add_unseen false e = omega (int_laws, same_parts e)

no_total : (s : Bool) (x : ℤ) → pos 0 ≡ signed s (x -ℤ x)
no_total true x = omega int_laws
no_total false x = omega int_laws

follow-total :
    (s : Bool) (depth : ℕ) (l : PriceLadder) (w : List Level) (price qty prev : ℤ)
    → Accounts w price (qty -ℤ prev) (update_ofi_view s depth l w price qty)
    → let c = follow s depth l w price qty prev genuine in
      ofi_sum c.deltas ≡ signed s (total c.view -ℤ total w)
unfolding follow ofi_sum ofi_of
follow-total s depth l w price qty prev h =
    let (w', c) = update_ofi_view s depth l w price qty in
    if_two (λ (x : Change). ofi_sum x.deltas ≡ signed s (total x.view -ℤ total w))
      ((qty -ℤ prev) ==ℤ pos 0) (λ _. no_total s (total w))
      (λ _.
        ap (λ x. first w' +ℤ x) (secondary_delta-sum s c) ∙ account s w price (qty -ℤ prev) w' c h)
  where
    first : List Level → ℤ
    first w' =
        if has_price w price || has_price w' price
        then (if s then qty -ℤ prev else pos 0 -ℤ (qty -ℤ prev))
        else pos 0

get_level-nonneg : {l : PriceLadder} → IsValid l → (p : ℤ) → neg_part (get_level l p) ≡ 0
unfolding get_level
get_level-nonneg {l} v p =
    if_two (λ x. neg_part x ≡ 0) (not (in_range l p)) (λ _. refl) (λ _. v.nonneg (to_idx l p))

read-IsLevel :
    {l : PriceLadder}
    → IsValid l
    → (n : ℕ) → n % l.tick_size ≡ 0
    → IsLevel l (pos n) ⊎ (get_level l (pos n) ≡ pos 0)
read-IsLevel {l} v n grid = elim (sign (get_level l (pos n)) (get_level-nonneg v (pos n))) [
  | inl some_qty ↦ inl (grid-IsLevel v n grid some_qty)
  | inr none_there ↦ inr none_there
]

not_zero : (p : ℤ) → ltb_ℤ (pos 0) p ≡ true → (p ==ℤ pos 0) ≡ false
not_zero p h = ground arith

module _ (s : Bool) (depth : ℕ) {l : PriceLadder} {w : List Level} (v : SideValid s depth l w)
    (n : ℕ) (qty : ℤ) (above : 0 < n) (grid : n % l.tick_size ≡ 0) (fits : neg_part qty ≡ 0)
    (still : (set_level l (pos n) qty).1 ≡ false) where
  level-Accounts :
      Accounts w
        (pos n)
        (qty -ℤ get_level l (pos n))
        (update_ofi_view s depth (set_level l (pos n) qty).0 w (pos n) qty)
  level-Accounts = elim (sign qty fits) [
    | inl some_qty ↦
        set-Accounts s depth (set_level l (pos n) qty).0 (pos n) w v.top qty some_qty
          (λ p lv. not_zero p (v.positive p lv)) (ground arith) (read-IsLevel v.valid n grid)
    | inr nothing ↦
        subst
          (λ q.
            Accounts w (pos n) (q -ℤ get_level l (pos n))
              (update_ofi_view s depth (set_level l (pos n) qty).0 w (pos n) q))
          (sym nothing)
          (unset-Accounts s depth (set_level l (pos n) qty).0 (pos n) w v.top
            (ladder-LevelSource s (set_level-IsValid v.valid n qty fits)
              (set-IsPositive v.valid n qty grid fits above v.positive))
            (set-Unsets v.valid n qty grid fits still nothing))
  ]

  -- In a valid side of a book, a live change of a level at a price above 0 on the grid, with a quantity
  -- that is not negative and no recenter of the window, emits deltas whose OFI change is exactly that
  -- of the total quantity of the side's view, counted up for bids and down for asks.
  pub change_side-total :
      let c = change_side s depth l w (pos n) qty genuine in
      ofi_sum c.deltas ≡ signed s (total c.view -ℤ total w)
  unfolding change_side ofi_sum
  change_side-total =
      if_two (λ (c : Change). ofi_sum c.deltas ≡ signed s (total c.view -ℤ total w))
        (ltb 0 l.count && not (in_range l (pos n)) && is_deep s l (pos n))
        (λ _. no_total s (total w))
        (λ _. rw still (
          follow-total s depth (set_level l (pos n) qty).0 w (pos n) qty (get_level l (pos n))
            level-Accounts))
