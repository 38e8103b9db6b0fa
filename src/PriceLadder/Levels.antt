-- ===== src/PriceLadder/Levels.antt =====
-- The levels of a ladder, by index: where they are priced, and which ones `set` makes and keeps.
use mathlib.Core.Bool.{false≢true}
use mathlib.Core.Path.{subst}
use native.Mathlib.Decide.{dec_lt, ℕ_discrete}
use lob.Prelude.{
  ℕ, ◌+◌, ◌-◌, ◌*◌, ◌%◌, ◌<◌, ◌≡◌, ◌≢◌, ◌⊎◌, refl, sym, ap, ◌∙◌, true, false, inl, inr, arith,
  Bool-cases, get_or, get_or-set_self, get_or-set_ne, get_or-beyond, length,
}
use lob.Prelude.Int.{ℤ, pos, pos_part, neg_part, ltb_ℤ, ◌+ℤ◌, ◌==ℤ◌, ==ℤ_iff, eq_of_parts}
use lob.PriceLadder.{
  PriceLadder, active, to_idx, to_price, in_range, get_level, set_level, store, recenter,
  init_center, make_room,
}
use lob.PriceLadder.Invariant.{IsValid}
use lob.PriceLadder.Window.{Slot, make_room-Room, make_room_cases, to_idx_of_Slot, in_range_of_Slot}
use lob.PriceLadder.Shift.{get_or-shifted}
use lob.PriceLadder.Ticks.{base_parts, in_range-At, true_ne}
use lob.PriceLadder.Lookup.{
  set_level-IsValid, get-set_level_self, reads_store, moved_by, moved_valid, moved_lem,
  moved_ne_zero,
}
use lob.PriceLadder.Neighbours.{IsLevel, price_of}

module _ {l : PriceLadder} (v : IsValid l) where
  to_price-Slot : (i : ℕ) → Slot l (to_price l i) i
  unfolding to_price
  to_price-Slot i = (0, v.tick_pos, ap (λ k. l.base_price +ℤ pos k) (omega arith))

  -- A ladder with a level is initialized.
  pub level-ready : {p : ℤ} → IsLevel l p → l.initialized ≡ true
  level-ready (i, inside, on, e) = elim (Bool-cases l.initialized) [
    | inl h ↦ h
    | inr h ↦ absurd (true_ne (rw (v.cleared h i)) on)
  ]

  -- A level is in the window, at its index.
  level-idx : {p : ℤ} (lv : IsLevel l p) → (in_range l p ≡ true) × (to_idx l p ≡ lv.0)
  level-idx {p} (i, inside, on, e) =
      let slot : Slot l p i = subst (λ x. Slot l x i) (sym e) (to_price-Slot i) in
      let ready = level-ready {p = p} (i, inside, on, e) in
      (in_range_of_Slot l p i ready slot inside, to_idx_of_Slot l p i slot)

  -- What `get` reads at a level.
  pub level-qty : {p : ℤ} (lv : IsLevel l p) → get_level l p ≡ get_or l.qtys lv.0 (pos 0)
  unfolding get_level
  level-qty {p} lv = let (h, e) = level-idx {p = p} lv in rw (h, e)

  pub level-active : {p : ℤ} → IsLevel l p → ltb_ℤ (pos 0) (get_level l p) ≡ true
  level-active {p} lv = rw (level-qty {p = p} lv) lv.2

  -- A price on the grid is that of its index.
  pub grid-price :
      (n : ℕ)
      → n % l.tick_size ≡ 0
      → in_range l (pos n) ≡ true
      → to_price l (to_idx l (pos n)) ≡ pos n
  grid-price n grid h =
      let i = to_idx l (pos n) in
      eq_of_parts _ _ (
        omega (
          arith,
          base_parts v n,
          price_of v i,
          ap (λ (x : ℕ). x * l.tick_size) (in_range-At v n h).0,
          grid,
        ))

  -- A positive quantity that is read at a price on the grid is a level.
  pub grid-IsLevel :
      (n : ℕ) → n % l.tick_size ≡ 0 → ltb_ℤ (pos 0) (get_level l (pos n)) ≡ true → IsLevel l (pos n)
  unfolding get_level
  grid-IsLevel n grid h = elim (Bool-cases (in_range l (pos n))) [
    | inr e ↦ absurd (true_ne (rw e) h)
    | inl e ↦ (to_idx l (pos n), (in_range-At v n e).1, rw e at h, sym (grid-price n grid e))
  ]

  no_level_before : {p : ℤ} → l.initialized ≡ false → IsLevel l p → ⊥
  no_level_before {p} e lv = true_ne e (level-ready {p = p} lv)

  init_center-no_level :
      (n : ℕ) {p : ℤ} → l.initialized ≡ false → IsLevel (init_center l (pos n)) p → ⊥
  unfolding init_center
  init_center-no_level n off (i, inside, on, e) = true_ne (rw (v.cleared off i)) on

  module _ (n : ℕ) (ready : l.initialized ≡ true) where
    moved_price :
        (i j : ℕ)
        → i + pos_part (moved_by v n n) ≡ j + neg_part (moved_by v n n)
        → to_price (recenter l (pos n)) i ≡ to_price l j
    unfolding recenter
    moved_price i j h =
        let t = l.tick_size in
        let mv = moved_valid v n n ready in
        eq_of_parts _ _ (
          omega (
            arith,
            base_parts v n,
            base_parts mv n,
            price_of v j,
            price_of mv i,
            ap (λ (x : ℕ). x * t) h,
            ap (λ (x : ℕ). x * t) (moved_lem v n n ready),
          ))

    -- A move of the window makes no level.
    recenter-IsLevel :
        in_range l (pos n) ≡ false → {p : ℤ} → IsLevel (recenter l (pos n)) p → IsLevel l p
    unfolding recenter moved_by
    recenter-IsLevel out {p} (i, inside, on, e) =
        let shift = moved_by v n n in
        let j = i + pos_part shift - neg_part shift in
        let reads =
          get_or-shifted l.size i shift l.qtys v.stored inside (moved_ne_zero v n n ready out) in
        elim (dec_lt (i + pos_part shift) (neg_part shift)) [
          | yes lt ↦ let none_left : ⊥ = ground (arith, reads) in absurd none_left
          | no ge ↦
              let on' : active l.qtys j ≡ true = ground (arith, reads) in
              let inside' : j < l.size = ground (arith, get_or-beyond l.qtys j (pos 0), v.stored) in
              (j, inside', on', e ∙ moved_price i j (omega arith))
        ]

  make_room-IsLevel : (n : ℕ) {p : ℤ} → IsLevel (make_room l (pos n)).0 p → IsLevel l p
  make_room-IsLevel n {p} =
      make_room_cases (λ r. IsLevel r.0 p → IsLevel l p) l (pos n)
        (λ off lv. absurd (init_center-no_level n off lv))
        (λ ready out lv. recenter-IsLevel n ready out lv) (λ _ _ lv. lv)

-- The levels after a write at an index.
module _ (l : PriceLadder) (stored : length l.qtys ≡ l.size) (idx : ℕ) (qty : ℤ) where
  store-IsLevel :
      {p : ℤ}
      → IsLevel (store l idx qty) p
      → ((p ≡ to_price l idx) × (ltb_ℤ (pos 0) qty ≡ true)) ⊎ IsLevel l p
  unfolding store to_price
  store-IsLevel {p} (i, inside, on, e) = elim (ℕ_discrete i idx) [
    | yes same ↦ inl (
      e ∙ ap (λ k. l.base_price +ℤ pos (k * l.tick_size)) same,
      ground (arith, same, stored, get_or-set_self l.qtys idx qty (pos 0)),
    )
    | no other ↦
        inr (
          i,
          inside,
          ground (arith, get_or-set_ne l.qtys idx i qty (pos 0) (λ f. other (sym f))),
          e,
        )
  ]

  store-here : idx < l.size → ltb_ℤ (pos 0) qty ≡ true → IsLevel (store l idx qty) (to_price l idx)
  unfolding store to_price
  store-here inside h =
      (idx, inside, ground (arith, stored, get_or-set_self l.qtys idx qty (pos 0)), refl)

  store-kept :
      {p : ℤ} (lv : IsLevel l p)
      → (idx ≢ lv.0) ⊎ (ltb_ℤ (pos 0) qty ≡ true)
      → IsLevel (store l idx qty) p
  unfolding store to_price
  store-kept {p} (i, inside, on, e) (inl other) =
      (i, inside, ground (arith, get_or-set_ne l.qtys idx i qty (pos 0) other), e)
  store-kept {p} (i, inside, on, e) (inr h) = elim (ℕ_discrete idx i) [
    | yes same ↦
        (i, inside, ground (arith, same, stored, get_or-set_self l.qtys idx qty (pos 0)), e)
    | no other ↦ (i, inside, ground (arith, get_or-set_ne l.qtys idx i qty (pos 0) other), e)
  ]

  store-gone : {p : ℤ} → qty ≡ pos 0 → (lv : IsLevel (store l idx qty) p) → idx ≢ lv.0
  unfolding store
  store-gone {p} zero_qty (i, inside, on, e) same =
      let none_left : ⊥ =
        ground (arith, stored, zero_qty, same, get_or-set_self l.qtys idx qty (pos 0)) in
      none_left

module _ {l : PriceLadder} (v : IsValid l) (n : ℕ) (qty : ℤ) (grid : n % l.tick_size ≡ 0) where
  room_price : let l' = (make_room l (pos n)).0 in to_price l' (to_idx l' (pos n)) ≡ pos n
  room_price =
      let r = make_room-Room v n in grid-price r.valid n (ap (λ t. n % t) r.tick ∙ grid) r.holds

  -- A level after `set` is the price that was set, with a positive quantity, or was one before.
  pub set-IsLevel :
      {p : ℤ}
      → IsLevel (set_level l (pos n) qty).0 p
      → ((p ≡ pos n) × (ltb_ℤ (pos 0) qty ≡ true)) ⊎ IsLevel l p
  unfolding set_level
  set-IsLevel {p} lv =
      let r = make_room-Room v n in
      let l' = (make_room l (pos n)).0 in
      elim (store-IsLevel l' r.valid.stored (to_idx l' (pos n)) qty {p = p} lv) [
        | inl (e, h) ↦ inl (e ∙ room_price, h)
        | inr old ↦ inr (make_room-IsLevel v n {p = p} old)
      ]

  -- A positive quantity makes the price a level.
  pub set-here : ltb_ℤ (pos 0) qty ≡ true → IsLevel (set_level l (pos n) qty).0 (pos n)
  unfolding set_level
  set-here h =
      let r = make_room-Room v n in
      let l' = (make_room l (pos n)).0 in
      subst (IsLevel (store l' (to_idx l' (pos n)) qty)) room_price
        (store-here l' r.valid.stored (to_idx l' (pos n)) qty (in_range-At r.valid n r.holds).1 h)

  -- No quantity, no level.
  pub set-gone : qty ≡ pos 0 → ¬ IsLevel (set_level l (pos n) qty).0 (pos n)
  unfolding set_level
  set-gone h lv =
      let fits : neg_part qty ≡ 0 = ap neg_part h in
      let on = level-active (set_level-IsValid v n qty fits) {p = pos n} lv in
      let reads = (get-set_level_self v n qty fits).1 in
      let none_left : ⊥ = ground (arith, on, reads, h) in none_left

  -- In a window that stays, the index that is written is not that of another level.
  other_index :
      {p : ℤ}
      → in_range l (pos n) ≡ true
      → (pos n ==ℤ p) ≡ false
      → (lv : IsLevel l p) → to_idx l (pos n) ≢ lv.0
  other_index {p} holds ne (i, inside, on, e) same =
      true_ne ne
        ((==ℤ_iff (pos n) p).1 (sym (e ∙ (ap (to_price l) (sym same) ∙ grid-price v n grid holds))))

  -- Where the window stays, the other levels stay.
  pub set-kept :
      (set_level l (pos n) qty).1 ≡ false
      → {p : ℤ} → ((pos n ==ℤ p) ≡ false) ⊎ (ltb_ℤ (pos 0) qty ≡ true)
      → IsLevel l p
      → IsLevel (set_level l (pos n) qty).0 p
  unfolding set_level
  set-kept still {p} h lv =
      make_room_cases (λ r. r.1 ≡ false → IsLevel (store r.0 (to_idx r.0 (pos n)) qty) p) l (pos n)
        (λ off _. absurd (no_level_before v {p = p} off lv))
        (λ _ _ moved. absurd (false≢true (sym moved)))
        (λ ready holds _.
          store-kept l v.stored (to_idx l (pos n)) qty {p = p} lv
            (elim h [ inl ne ↦ inl (other_index {p = p} holds ne lv) | inr q ↦ inr q ]))
        still

  -- And they keep their quantities.
  pub set-qty :
      (set_level l (pos n) qty).1 ≡ false
      → {p : ℤ} → (pos n ==ℤ p) ≡ false
      → IsLevel l p
      → get_level (set_level l (pos n) qty).0 p ≡ get_level l p
  unfolding set_level
  set-qty still {p} ne lv =
      make_room_cases
        (λ r. r.1 ≡ false → get_level (store r.0 (to_idx r.0 (pos n)) qty) p ≡ get_level l p) l
        (pos n) (λ off _. absurd (no_level_before v {p = p} off lv))
        (λ _ _ moved. absurd (false≢true (sym moved)))
        (λ ready holds _. ground (
          arith,
          reads_store v ready (to_idx l (pos n)) qty p,
          level-idx v {p = p} lv,
          level-qty v {p = p} lv,
          get_or-set_ne l.qtys (to_idx l (pos n)) lv.0 qty (pos 0)
              (other_index {p = p} holds ne lv),
        ))
        still
