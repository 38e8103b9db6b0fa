-- ===== src/PriceLadder/Neighbours.antt =====
-- What `bestHigh`, `bestLow`, `prevBelow` and `nextAbove` find.
use mathlib.Core.Bool.{false≢true}
use mathlib.Core.Path.{subst}
use native.Mathlib.Decide.{dec_lt}
use lob.Prelude.{
  ℕ, suc, ◌+◌, ◌-◌, ◌*◌, ◌/◌, ◌≤◌, ◌<◌, ◌≡◌, ◌⊎◌, refl, ap, Bool, true, false, not, inl, inr, ◌||◌,
  Option, none, some, arith, Bool-cases, if◌then◌else◌, leb,
}
use lob.Prelude.Int.{
  ℤ, pos, pos_part, neg_part, ◌-ℤ◌, ◌/ℤ◌, ◌≤ℤ◌, ◌<ℤ◌, ltb_ℤ, leb_ℤ, +ℤ_parts, -ℤ_parts, leb_ℤ-le,
  leb_ℤ-gt, ltb_ℤ-lt, ltb_ℤ-ge,
}
use lob.PriceLadder.{
  PriceLadder, active, to_price, price_or_zero, best_high, best_low, prev_below, next_above, offset,
  is_none,
}
use lob.PriceLadder.Scan.{IsLast, IsFirst, scan_down, scan_up, scan_down-IsLast, scan_up-IsFirst}
use lob.PriceLadder.Invariant.{IsValid}
use lob.PriceLadder.Ticks.{mul_mono, true_ne}
use lob.PriceLadder.Window.{quot_pos}

-- The price is that of an active level.
abbrev pub IsLevel : PriceLadder → ℤ → Type 0
IsLevel l p = (i : ℕ) × (i < l.size) × (active l.qtys i ≡ true) × (p ≡ to_price l i)

-- `p` is the highest level with `P`, or 0 if there is none.
abbrev pub HighestWith : PriceLadder → (ℤ → Type 0) → ℤ → Type 0
HighestWith l P p =
    ((p ≡ pos 0) × ((q : ℤ) → IsLevel l q → ¬ P q))
    ⊎ (IsLevel l p × P p × ((q : ℤ) → IsLevel l q → P q → q ≤ℤ p))

-- `p` is the lowest level with `P`, or 0 if there is none.
abbrev pub LowestWith : PriceLadder → (ℤ → Type 0) → ℤ → Type 0
LowestWith l P p =
    ((p ≡ pos 0) × ((q : ℤ) → IsLevel l q → ¬ P q))
    ⊎ (IsLevel l p × P p × ((q : ℤ) → IsLevel l q → P q → p ≤ℤ q))

if_chain :
    {A : Type 0} (P : A → Type 0) (b c : Bool) {x y z : A}
    → (b ≡ true → P x)
    → (b ≡ false → c ≡ true → P y)
    → (b ≡ false → c ≡ false → P z)
    → P (if b then x else if c then y else z)
if_chain P true c f g h = f refl
if_chain P false true f g h = g refl refl
if_chain P false false f g h = h refl refl

none_IsLast :
    (p : ℕ → Bool) (n : ℕ) (r : Option ℕ)
    → is_none r ≡ true
    → IsLast p n r
    → (k : ℕ) → k < n
    → p k ≡ false
none_IsLast p n none e h = h
none_IsLast p n (some j) e h = absurd (false≢true e)

none_IsFirst :
    (p : ℕ → Bool) (n : ℕ) (r : Option ℕ)
    → is_none r ≡ true
    → IsFirst p 0 n r
    → (k : ℕ) → k < n
    → p k ≡ false
none_IsFirst p n none e h = λ k. h k (omega arith)
none_IsFirst p n (some j) e h = absurd (false≢true e)

-- The last index whose price is below an offset `o` is `(o - 1) / t`.
below_offset : (k o t : ℕ) → 0 < t → 0 < o → k ≤ (o - 1) / t → k * t < o
below_offset k o t h p le = omega (arith, mul_mono k ((o - 1) / t) t le)

not_below_offset : (k o t : ℕ) → 0 < t → (o - 1) / t < k → o ≤ k * t
not_below_offset k o t h lt = omega (arith, mul_mono ((o - 1) / t + 1) k t (omega arith))

-- The first index whose price is above an offset `o` is `o / t + 1`.
above_offset : (k o t : ℕ) → 0 < t → o / t < k → o < k * t
above_offset k o t h lt = omega (arith, mul_mono (o / t + 1) k t (omega arith))

not_above_offset : (k o t : ℕ) → 0 < t → k ≤ o / t → k * t ≤ o
not_above_offset k o t h le = omega (arith, mul_mono k (o / t) t le)

raw_below : (o t : ℕ) {x : ℤ} → x ≡ pos o → pos_part ((x -ℤ pos 1) /ℤ pos t) ≡ (o - 1) / t
unfolding ◌-ℤ◌ ◌/ℤ◌
raw_below o t e = ground arith

module _ {l : PriceLadder} (v : IsValid l) where
  pub to_price-mono : (i j : ℕ) → i ≤ j → to_price l i ≤ℤ to_price l j
  unfolding to_price
  to_price-mono i j h = omega (
    arith,
    +ℤ_parts l.base_price (pos (i * l.tick_size)),
    +ℤ_parts l.base_price (pos (j * l.tick_size)),
    mul_mono i j l.tick_size h,
  )

  -- The index that a scan found among the indices `P` holds of.
  highest_of :
      (P : ℤ → Type 0) (n : ℕ) (r : Option ℕ)
      → n ≤ l.size
      → ((k : ℕ) → k < n → P (to_price l k))
      → ((k : ℕ) → n ≤ k → k < l.size → ¬ P (to_price l k))
      → IsLast (active l.qtys) n r
      → HighestWith l P (price_or_zero l r)
  highest_of P n none le has not_has h = inl (
    refl,
    λ q (i, inside, on, e) has_q. elim (dec_lt i n) [
      | yes lt ↦ true_ne (h i lt) on
      | no ge ↦ not_has i (omega arith) inside (subst P e has_q)
    ],
  )
  highest_of P n (some j) le has not_has (lt, on, top) = inr (
    (j, omega arith, on, refl),
    has j lt,
    λ q (i, inside, active_i, e) has_q. elim (dec_lt i n) [
      | yes below ↦ elim (dec_lt j i) [
        | yes over ↦ absurd (true_ne (top i over below) active_i)
        | no le' ↦ rw e (to_price-mono i j (omega arith))
      ]
      | no ge ↦ absurd (not_has i (omega arith) inside (subst P e has_q))
    ],
  )

  lowest_of :
      (P : ℤ → Type 0) (n : ℕ) (r : Option ℕ)
      → ((k : ℕ) → n ≤ k → k < l.size → P (to_price l k))
      → ((k : ℕ) → k < n → k < l.size → ¬ P (to_price l k))
      → IsFirst (active l.qtys) n l.size r
      → LowestWith l P (price_or_zero l r)
  lowest_of P n none has not_has h = inl (
    refl,
    λ q (i, inside, on, e) has_q. elim (dec_lt i n) [
      | yes lt ↦ not_has i lt inside (subst P e has_q)
      | no ge ↦ true_ne (h i (omega arith) inside) on
    ],
  )
  lowest_of P n (some j) has not_has (ge, lt, on, bottom) = inr (
    (j, lt, on, refl),
    has j ge lt,
    λ q (i, inside, active_i, e) has_q. elim (dec_lt i n) [
      | yes below ↦ absurd (not_has i below inside (subst P e has_q))
      | no above ↦ elim (dec_lt i j) [
        | yes under ↦ absurd (true_ne (bottom i (omega arith) under) active_i)
        | no le' ↦ rw e (to_price-mono j i (omega arith))
      ]
    ],
  )

  -- `bestHigh` is the price of the highest active level, and 0 for an empty ladder.
  pub best_high_lem : HighestWith l (λ _. Unit {0}) (best_high l)
  unfolding best_high
  best_high_lem =
      highest_of (λ _. Unit {0}) l.size l.best_high_idx (omega arith) (λ k h. tt)
        (λ k h m. absurd (omega arith)) v.high

  -- `bestLow` is the price of the lowest active level, and 0 for an empty ladder.
  pub best_low_lem : LowestWith l (λ _. Unit {0}) (best_low l)
  unfolding best_low
  best_low_lem =
      lowest_of (λ _. Unit {0}) 0 l.best_low_idx (λ k h m. tt) (λ k h m. absurd (omega arith)) v.low

  no_level : (q : ℤ) → ((k : ℕ) → k < l.size → active l.qtys k ≡ false) → IsLevel l q → ⊥
  no_level q h (i, inside, on, _) = true_ne (h i inside) on

  inactive : l.initialized ≡ false → (k : ℕ) → k < l.size → active l.qtys k ≡ false
  inactive e k h = rw (v.cleared e k)

  none_high :
      (not l.initialized || is_none l.best_high_idx) ≡ true
      → (k : ℕ) → k < l.size
      → active l.qtys k ≡ false
  none_high e = elim (Bool-cases l.initialized) [
    | inr off ↦ inactive off
    | inl ready ↦ none_IsLast _ l.size l.best_high_idx (ground arith) v.high
  ]

  none_low :
      (not l.initialized || is_none l.best_low_idx) ≡ true
      → (k : ℕ) → k < l.size
      → active l.qtys k ≡ false
  none_low e = elim (Bool-cases l.initialized) [
    | inr off ↦ inactive off
    | inl ready ↦ none_IsFirst _ l.size l.best_low_idx (ground arith) v.low
  ]

  -- The price of an index, and its distance from the base.
  pub price_of :
      (i : ℕ)
      → pos_part (to_price l i) + neg_part l.base_price
        ≡ pos_part l.base_price + i * l.tick_size + neg_part (to_price l i)
  unfolding to_price
  price_of i = omega (arith, +ℤ_parts l.base_price (pos (i * l.tick_size)))

  module _ (b : ℤ) (o : ℕ) (e : offset l b ≡ pos o) where
    bound_parts : pos_part b + neg_part l.base_price ≡ pos_part l.base_price + o + neg_part b
    bound_parts = omega (arith, ap pos_part e, ap neg_part e, -ℤ_parts b l.base_price)

    price_below : (k : ℕ) → k * l.tick_size < o → to_price l k <ℤ b
    price_below k h = omega (arith, bound_parts, price_of k)

    price_not_below : (k : ℕ) → o ≤ k * l.tick_size → ¬ (to_price l k <ℤ b)
    price_not_below k h = omega (arith, bound_parts, price_of k)

    price_above : (k : ℕ) → o < k * l.tick_size → b <ℤ to_price l k
    price_above k h = omega (arith, bound_parts, price_of k)

    price_not_above : (k : ℕ) → k * l.tick_size ≤ o → ¬ (b <ℤ to_price l k)
    price_not_above k h = omega (arith, bound_parts, price_of k)

    -- The index from which `prevBelow` scans down, plus one.
    prev_found :
        (raw n : ℕ)
        → raw ≡ (o - 1) / l.tick_size
        → n ≡ (if leb l.size raw then l.size else suc raw)
        → 0 < o
        → HighestWith l (λ p. p <ℤ b) (price_or_zero l (scan_down (active l.qtys) n))
    prev_found raw n r d h =
        highest_of (λ p. p <ℤ b) n _ (ground arith)
          (λ k lt. price_below k (below_offset k o l.tick_size v.tick_pos h (ground arith)))
          (λ k ge lt.
            price_not_below k (not_below_offset k o l.tick_size v.tick_pos (ground arith)))
          (scan_down-IsLast (active l.qtys) n)

    next_found :
        (raw : ℕ)
        → raw ≡ o / l.tick_size + 1
        → LowestWith l
            (λ p. b <ℤ p)
            (if leb l.size raw
              then pos 0
              else price_or_zero l (scan_up (active l.qtys) raw (l.size - raw)))
    next_found raw r = elim (Bool-cases (leb l.size raw)) [
      | inl beyond ↦ rw beyond (
          inl (
            refl,
            λ q (k, inside, _, f) h.
                price_not_above k (not_above_offset k o l.tick_size v.tick_pos (ground arith))
                  (subst (λ x. b <ℤ x) f h),
          ))
      | inr within ↦ rw within (
          lowest_of (λ p. b <ℤ p) raw _
            (λ k ge lt. price_above k (above_offset k o l.tick_size v.tick_pos (omega arith)))
            (λ k lt _.
              price_not_above k (not_above_offset k o l.tick_size v.tick_pos (omega arith)))
            (scan_up-IsFirst (active l.qtys) raw (l.size - raw) l.size (ground arith)))
    ]

  -- In a valid ladder, `prevBelow` is the price of the highest active level below the bound, and 0
  -- if there is none.
  pub prev_below_lem : (b : ℤ) → HighestWith l (λ p. p <ℤ b) (prev_below l b)
  unfolding prev_below
  prev_below_lem b =
      if_chain (HighestWith l (λ p. p <ℤ b)) (not l.initialized || is_none l.best_high_idx)
        (leb_ℤ (offset l b) (pos 0)) (λ e. inl (refl, λ q lv _. no_level q (none_high e) lv))
        (λ _ e. inl (
          refl,
          λ q (i, _, _, f) h.
              let h' : to_price l i <ℤ b = subst (λ x. x <ℤ b) f h in
              omega (arith, leb_ℤ-le (offset l b) (pos 0) e, price_of i, -ℤ_parts b l.base_price),
        ))
        (λ _ e.
          let o = pos_part (offset l b) in
          let f : offset l b ≡ pos o = ground (arith, leb_ℤ-gt (offset l b) (pos 0) e) in
          prev_found b o f _ _ (raw_below o l.tick_size f) refl
            (omega (arith, leb_ℤ-gt (offset l b) (pos 0) e)))

  -- In a valid ladder, `nextAbove` is the price of the lowest active level above the bound, and 0 if
  -- there is none.
  pub next_above_lem : (b : ℤ) → LowestWith l (λ p. b <ℤ p) (next_above l b)
  unfolding next_above
  next_above_lem b =
      if_chain (LowestWith l (λ p. b <ℤ p)) (not l.initialized || is_none l.best_low_idx)
        (ltb_ℤ (offset l b) (pos 0)) (λ e. inl (refl, λ q lv _. no_level q (none_low e) lv))
        (λ _ e.
          lowest_of (λ p. b <ℤ p) 0 _
            (λ k _ _.
              omega (arith, ltb_ℤ-lt (offset l b) (pos 0) e, price_of k, -ℤ_parts b l.base_price))
            (λ k h _. absurd (omega arith))
            (scan_up-IsFirst (active l.qtys) 0 l.size l.size (omega arith)))
        (λ _ e.
          let o = pos_part (offset l b) in
          let f : offset l b ≡ pos o = ground (arith, ltb_ℤ-ge (offset l b) (pos 0) e) in
          next_found b o f _ (rw (f, quot_pos)))
