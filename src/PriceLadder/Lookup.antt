-- ===== src/PriceLadder/Lookup.antt =====
-- What `get` reads after `set`: the ladder as a map from ticks to quantities.

use native.Mathlib.Decide.{dec_lt}
use lob.Prelude.{
  ℕ, suc, ◌+◌, ◌-◌, ◌*◌, ◌/◌, ◌<◌, ◌≡◌, ◌≢◌, refl, sym, ap, ◌∙◌, Bool, true, false, not, inl, inr,
  arith, Bool-cases, get_or, set, get_or-set_self, get_or-set_ne, if◌then◌else◌, ◌==◌,
}
use lob.Prelude.Int.{
  ℤ, pos, negsuc, pos_part, neg_part, ◌-ℤ◌, ◌*ℤ◌, ◌/ℤ◌, -ℤ_parts, *ℤ_parts, eq_of_parts,
}
use lob.PriceLadder.{
  PriceLadder, to_idx, in_range, get_level, set_level, store, recenter, init_center, centred,
  shifted, make_room,
}
use lob.PriceLadder.Invariant.{IsValid, recenter-IsValid, store-IsValid}
use lob.PriceLadder.Window.{recenter-Room, make_room-Room, make_room_cases, div_unique}
use lob.PriceLadder.Shift.{get_or-shifted}
use lob.PriceLadder.Ticks.{At, in_range-At, At-in_range, get_level-At, get_level-out, true_ne}

mul_div : (d : ℤ) (t : ℕ) → 0 < t → (d *ℤ pos t) /ℤ pos t ≡ d
unfolding ◌*ℤ◌ ◌/ℤ◌
mul_div (pos n) t h = ground (arith, div_unique n 0 t h)
mul_div (negsuc n) t h = ground (arith, div_unique (suc n) 0 t h)

-- The distance of two bases, in ticks.
shift_ticks :
    (a b : ℤ) (t : ℕ) {x y : ℤ}
    → 0 < t
    → x ≡ a *ℤ pos t
    → y ≡ b *ℤ pos t
    → (x -ℤ y) /ℤ pos t ≡ a -ℤ b
shift_ticks a b t h e f =
    rw (e, f, ← mul_div (a -ℤ b) t h)
      (ap (λ d. d /ℤ pos t)
        (eq_of_parts _ _ (
          omega (
            arith,
            -ℤ_parts (a *ℤ pos t) (b *ℤ pos t),
            *ℤ_parts a (pos t),
            *ℤ_parts b (pos t),
            *ℤ_parts (a -ℤ b) (pos t),
            ap (λ (x : ℕ). x * t) (-ℤ_parts a b),
          ))))

zero_reads :
    (l : PriceLadder) (p : ℤ) → ((k : ℕ) → get_or l.qtys k (pos 0) ≡ pos 0) → get_level l p ≡ pos 0
unfolding get_level
zero_reads l p h = elim (Bool-cases (in_range l p)) [ inl e ↦ rw e (h (to_idx l p)) | inr e ↦ rw e ]

if_zero : (b : Bool) {x : ℤ} → x ≡ pos 0 → pos 0 ≡ (if b then x else pos 0)
if_zero true e = sym e
if_zero false e = refl

same_reads : (b : Bool) {x : ℤ} → (b ≡ false → x ≡ pos 0) → x ≡ (if b then x else pos 0)
same_reads true h = refl
same_reads false h = h refl

-- What a move of the window leaves of the reads.
abbrev Kept : PriceLadder → ℕ → PriceLadder → Type 0
Kept l m l' = get_level l' (pos m) ≡ (if in_range l' (pos m) then get_level l (pos m) else pos 0)

module _ {l : PriceLadder} (v : IsValid l) (n m : ℕ) where
  init_center-Kept : l.initialized ≡ false → Kept l m (init_center l (pos n))
  unfolding init_center
  init_center-Kept e =
      zero_reads _ (pos m) (v.cleared e)
      ∙ if_zero (in_range (init_center l (pos n)) (pos m)) (zero_reads l (pos m) (v.cleared e))

  -- The window of `recenter`, and how far it moved.
  unfoldable pub moved_by : ℤ
  moved_by = (centred l (pos n) -ℤ l.base_price) /ℤ pos l.tick_size

  module _ (ready : l.initialized ≡ true) where
    pub moved_valid : IsValid (recenter l (pos n))
    moved_valid = recenter-IsValid v (pos n) ready

    pub moved_lem :
        pos_part moved_by + neg_part moved_valid.base.0 + pos_part v.base.0
        ≡ neg_part moved_by + pos_part moved_valid.base.0 + neg_part v.base.0
    unfolding moved_by recenter
    moved_lem =
        let e =
          shift_ticks moved_valid.base.0 v.base.0 l.tick_size v.tick_pos moved_valid.base.1
            v.base.1 in
        omega (arith, ap pos_part e, ap neg_part e, -ℤ_parts moved_valid.base.0 v.base.0)

    pub moved_ne_zero : in_range l (pos n) ≡ false → moved_by ≢ pos 0
    unfolding recenter
    moved_ne_zero out e =
        let (at, inside) = in_range-At moved_valid n (recenter-Room v n ready).holds in
        let i = to_idx (recenter l (pos n)) (pos n) in
        let old : At v n i = omega (arith, at, moved_lem, ap pos_part e, ap neg_part e) in
        true_ne out (At-in_range v n i ready old inside)

    -- A tick below the old window holds nothing.
    below_reads :
        m / l.tick_size + neg_part v.base.0 < pos_part v.base.0 → get_level l (pos m) ≡ pos 0
    below_reads h = elim (Bool-cases (in_range l (pos m))) [
      | inl e ↦ absurd (omega (arith, (in_range-At v m e).0))
      | inr e ↦ get_level-out v m e
    ]

    recenter-reads :
        (i : ℕ)
        → in_range l (pos n) ≡ false
        → At moved_valid m i
        → i < l.size
        → get_or (shifted l.size moved_by l.qtys) i (pos 0) ≡ get_level l (pos m)
    unfolding recenter
    recenter-reads i out at h = elim (dec_lt (i + pos_part moved_by) (neg_part moved_by)) [
      | yes lt ↦ ground (
        arith,
        get_or-shifted l.size i moved_by l.qtys v.stored h (moved_ne_zero out),
        below_reads (omega (arith, at, moved_lem)),
      )
      | no ge ↦
          let j = i + pos_part moved_by - neg_part moved_by in
          let old : At v m j = omega (arith, at, moved_lem) in
          ground (
            arith,
            get_or-shifted l.size i moved_by l.qtys v.stored h (moved_ne_zero out),
            get_level-At v m j ready old,
          )
    ]

    recenter-Kept : in_range l (pos n) ≡ false → Kept l m (recenter l (pos n))
    unfolding recenter moved_by
    recenter-Kept out = elim (Bool-cases (in_range (recenter l (pos n)) (pos m))) [
      | inl e ↦
          let i = to_idx (recenter l (pos n)) (pos m) in
          let (at, inside) = in_range-At moved_valid m e in
          rw e (get_level-At moved_valid m i ready at ∙ recenter-reads i out at inside)
      | inr e ↦ rw e (get_level-out moved_valid m e)
    ]

  -- Making room forgets the levels outside the new window, and nothing else.
  pub make_room-Kept : Kept l m (make_room l (pos n)).0
  make_room-Kept =
      make_room_cases (λ r. Kept l m r.0) l (pos n) init_center-Kept recenter-Kept
        (λ ready holds. same_reads (in_range l (pos m)) (get_level-out v m))

module _ {l : PriceLadder} (v : IsValid l) (ready : l.initialized ≡ true) where
  pub reads_store :
      (i : ℕ) (qty p : ℤ)
      → get_level (store l i qty) p
        ≡ (if not (in_range l p) then pos 0 else get_or (set l.qtys i qty) (to_idx l p) (pos 0))
  unfolding store get_level in_range to_idx
  reads_store i qty p = refl

  -- Two prices share an index exactly if they lie in one tick.
  same_index :
      (n m : ℕ)
      → in_range l (pos n) ≡ true
      → in_range l (pos m) ≡ true
      → (to_idx l (pos n) == to_idx l (pos m)) ≡ (n / l.tick_size == m / l.tick_size)
  same_index n m h k = ground (arith, in_range-At v n h, in_range-At v m k)

  get-store :
      (n m : ℕ) (qty : ℤ)
      → in_range l (pos n) ≡ true
      → get_level (store l (to_idx l (pos n)) qty) (pos m) ≡ (
          if not (in_range l (pos m))
          then pos 0
          else if n / l.tick_size == m / l.tick_size
          then qty
          else get_level l (pos m))
  unfolding get_level
  get-store n m qty h = elim (Bool-cases (in_range l (pos m))) [
    | inl k ↦
        let i = to_idx l (pos n) in
        let j = to_idx l (pos m) in
        ground (
          arith,
          reads_store i qty (pos m),
          (in_range-At v n h).1,
          same_index n m h k,
          v.stored,
          get_or-set_self l.qtys i qty (pos 0),
          get_or-set_ne l.qtys i j qty (pos 0),
        )
    | inr k ↦ rw (reads_store (to_idx l (pos n)) qty (pos m), k)
  ]

  in_range-store : (i : ℕ) (qty p : ℤ) → in_range (store l i qty) p ≡ in_range l p
  unfolding store in_range
  in_range-store i qty p = refl

module _ {l : PriceLadder} (v : IsValid l) (n : ℕ) (qty : ℤ) (fits : neg_part qty ≡ 0) where
  -- `set` keeps the invariant of a ladder, for a price and a quantity that are not negative.
  pub set_level-IsValid : IsValid (set_level l (pos n) qty).0
  unfolding set_level
  set_level-IsValid =
      let room = make_room-Room v n in
      store-IsValid room.valid (to_idx _ (pos n)) qty (in_range-At room.valid n room.holds).1 fits
        room.ready

  -- In a valid ladder, after `set` of a price and a quantity that are not negative, a price in the
  -- window reads the new quantity if it lies in the tick that was written, and what it read before
  -- otherwise; a price outside the window, which may have moved, reads 0.
  pub get-set_level :
      (m : ℕ)
      → let l' = (set_level l (pos n) qty).0 in
        get_level l' (pos m) ≡ (
          if not (in_range l' (pos m))
          then pos 0
          else if n / l.tick_size == m / l.tick_size
          then qty
          else get_level l (pos m))
  unfolding set_level
  get-set_level m =
      let room = make_room-Room v n in
      let l' = (make_room l (pos n)).0 in
      let i = to_idx l' (pos n) in
      ground (
        arith,
        get-store room.valid room.ready n m qty room.holds,
        in_range-store room.valid room.ready i qty (pos m),
        make_room-Kept v n m,
        room.tick,
      )

  -- In a valid ladder, after `set` of a price and a quantity that are not negative, the price is in
  -- the window and reads the quantity.
  pub get-set_level_self :
      let l' = (set_level l (pos n) qty).0 in
      (in_range l' (pos n) ≡ true) × (get_level l' (pos n) ≡ qty)
  unfolding set_level
  get-set_level_self =
      let room = make_room-Room v n in
      let l' = (make_room l (pos n)).0 in
      let i = to_idx l' (pos n) in
      ground (
        arith,
        get-store room.valid room.ready n n qty room.holds,
        in_range-store room.valid room.ready i qty (pos n),
        room.holds,
      )
