-- ===== src/PriceLadder/Window.antt =====
-- The window of a ladder: which prices it holds, at which index, and that `set` makes room.
use mathlib.Core.Bool.{false≢true}
use native.Mathlib.Nat.{mod-lt}
use lob.Prelude.{
  ℕ, ◌+◌, ◌*◌, ◌/◌, ◌%◌, ◌<◌, ◌≡◌, refl, ap, ◌∙◌, Bool, true, false, arith, if◌then◌else◌, not,
}
use lob.Prelude.Int.{
  ℤ, pos, negsuc, pos_part, neg_part, ltb_ℤ, ◌+ℤ◌, ◌-ℤ◌, ◌*ℤ◌, ◌/ℤ◌, int_laws, *ℤ_parts, +ℤ_parts,
  -ℤ_parts, eq_of_parts,
}
use lob.PriceLadder.{
  PriceLadder, offset, to_idx, in_range, make_room, recenter, init_center, centred,
  rebuild_best_indices, set_level, store,
}
use lob.PriceLadder.Invariant.{IsValid, recenter-IsValid, init_center-IsValid}

-- The price lies in the tick of index `i`: `r` above the price of the index.
abbrev pub Slot : PriceLadder → ℤ → ℕ → Type 0
Slot l p i = (r : ℕ) × (r < l.tick_size) × (p ≡ l.base_price +ℤ pos (i * l.tick_size + r))

pub quot_pos : (n t : ℕ) → pos n /ℤ pos t ≡ pos (n / t)
unfolding ◌/ℤ◌
quot_pos n t = ground arith

pub div_unique : (i r t : ℕ) → r < t → (i * t + r) / t ≡ i
div_unique i r t h = grind arith

pub range_cases :
    (b : Bool) (o : ℤ) (t size : ℕ)
    → (if not b then false else if ltb_ℤ o (pos 0) then false else ltb_ℤ (o /ℤ pos t) (pos size))
      ≡ true
    → (b ≡ true) × (neg_part o ≡ 0) × (pos_part o / t < size)
range_cases false o t size h = absurd (false≢true h)
range_cases true (pos n) t size h = (refl, refl, ground (arith, quot_pos n t))
range_cases true (negsuc n) t size h = ground arith

pub nonneg_pos : (o : ℤ) → neg_part o ≡ 0 → o ≡ pos (pos_part o)
nonneg_pos o h = ground arith

module _ (l : PriceLadder) where
  pub offset_of : (p : ℤ) (m : ℕ) → p ≡ l.base_price +ℤ pos m → offset l p ≡ pos m
  offset_of p m e = rw e (omega int_laws)

  pub of_offset : (p : ℤ) (m : ℕ) → offset l p ≡ pos m → p ≡ l.base_price +ℤ pos m
  of_offset p m e = eq_of_parts _ _ (omega (int_laws, ap pos_part e, ap neg_part e))

  pub to_idx_of_Slot : (p : ℤ) (i : ℕ) → Slot l p i → to_idx l p ≡ i
  unfolding to_idx
  to_idx_of_Slot p i (r, h, e) =
      rw (offset_of p (i * l.tick_size + r) e, quot_pos) (div_unique i r l.tick_size h)

  pub in_range_of_Slot :
      (p : ℤ) (i : ℕ) → l.initialized ≡ true → Slot l p i → i < l.size → in_range l p ≡ true
  unfolding in_range
  in_range_of_Slot p i ready (r, h, e) inside =
      rw (offset_of p (i * l.tick_size + r) e, quot_pos, div_unique i r l.tick_size h)
        (ground arith)

  in_range-offset :
      (p : ℤ)
      → in_range l p ≡ true
      → (l.initialized ≡ true)
        × (neg_part (offset l p) ≡ 0)
        × (pos_part (offset l p) / l.tick_size < l.size)
  unfolding in_range
  in_range-offset p h = range_cases l.initialized (offset l p) l.tick_size l.size h

  pub Slot-of_in_range :
      (p : ℤ)
      → 0 < l.tick_size
      → in_range l p ≡ true
      → (l.initialized ≡ true) × Slot l p (to_idx l p) × (to_idx l p < l.size)
  Slot-of_in_range p t h =
      let (ready, n, inside) = in_range-offset p h in
      let m = pos_part (offset l p) in
      let e : p ≡ l.base_price +ℤ pos m = of_offset p m (nonneg_pos (offset l p) n) in
      let split : m ≡ m / l.tick_size * l.tick_size + m % l.tick_size = omega arith in
      let slot : Slot l p (m / l.tick_size) =
        (m % l.tick_size, mod-lt m t, e ∙ ap (λ k. l.base_price +ℤ pos k) split) in
      let idx : to_idx l p ≡ m / l.tick_size = to_idx_of_Slot p (m / l.tick_size) slot in
      (ready, rw idx slot, rw idx inside)

  -- The tick of a price that is not negative is in the middle of the window centred on it.
  centred_slot :
      (n : ℕ)
      → 0 < l.tick_size
      → pos n ≡ centred l (pos n) +ℤ pos (l.half_range * l.tick_size + n % l.tick_size)
  unfolding centred
  centred_slot n t =
      let rounded = pos (n / l.tick_size) *ℤ pos l.tick_size in
      let low = pos (l.half_range * l.tick_size) in
      rw quot_pos (
        eq_of_parts _ _ (
          omega (
            arith,
            *ℤ_parts (pos (n / l.tick_size)) (pos l.tick_size),
            -ℤ_parts rounded low,
            +ℤ_parts (rounded -ℤ low) (pos (l.half_range * l.tick_size + n % l.tick_size)),
          )))

-- `l'` is `l` with a window that holds the price.
pub record Room (l : PriceLadder) (price : ℤ) (l' : PriceLadder) : Type 0 where
  pub valid : IsValid l'
  pub ready : l'.initialized ≡ true
  pub holds : in_range l' price ≡ true
  pub tick : l'.tick_size ≡ l.tick_size
  pub width : l'.size ≡ l.size

room_cases {ℓ} :
    {A : Type ℓ} (P : A → Type 0) (b c : Bool) {x y z : A}
    → (b ≡ false → P x)
    → (b ≡ true → c ≡ false → P y)
    → (b ≡ true → c ≡ true → P z)
    → P (if not b then x else if not c then y else z)
room_cases P false c f g h = f refl
room_cases P true false f g h = g refl refl
room_cases P true true f g h = h refl refl

-- The three ways in which `set` finds its window.
pub make_room_cases :
    (P : PriceLadder × Bool → Type 0) (l : PriceLadder) (price : ℤ)
    → (l.initialized ≡ false → P (init_center l price, false))
    → (l.initialized ≡ true → in_range l price ≡ false → P (recenter l price, true))
    → (l.initialized ≡ true → in_range l price ≡ true → P (l, false))
    → P (make_room l price)
unfolding make_room
make_room_cases P l price f g h = room_cases P l.initialized (in_range l price) f g h

module _ {l : PriceLadder} (v : IsValid l) (n : ℕ) where
  middle : l.half_range < l.size
  middle = omega (arith, v.width)

  pub init_center-Room : Room l (pos n) (init_center l (pos n))
  unfolding init_center
  init_center-Room = record {
    valid = init_center-IsValid v (pos n);
    ready = refl;
    holds =
        in_range_of_Slot _ (pos n) l.half_range refl
          (n % l.tick_size, mod-lt n v.tick_pos, centred_slot l n v.tick_pos) middle;
    tick = refl;
    width = refl;
  }

  pub recenter-Room : l.initialized ≡ true → Room l (pos n) (recenter l (pos n))
  unfolding recenter
  recenter-Room ready = record {
    valid = recenter-IsValid v (pos n) ready;
    ready = ready;
    holds =
        in_range_of_Slot _ (pos n) l.half_range ready
          (n % l.tick_size, mod-lt n v.tick_pos, centred_slot l n v.tick_pos) middle;
    tick = refl;
    width = refl;
  }

  -- `set` writes a price that is not negative inside the window: its second assert never fails.
  pub make_room-Room : Room l (pos n) (make_room l (pos n)).0
  make_room-Room =
      make_room_cases (λ r. Room l (pos n) r.0) l (pos n) (λ _. init_center-Room)
        (λ ready _. recenter-Room ready)
        (λ ready holds. record {
          valid = v;
          ready = ready;
          holds = holds;
          tick = refl;
          width = refl;
        })

same_tick : (l : PriceLadder) (p : ℤ) → (recenter l p).tick_size ≡ l.tick_size
unfolding recenter rebuild_best_indices
same_tick l p = refl

-- `set` keeps the tick.
pub set_level-tick : (l : PriceLadder) (p q : ℤ) → (set_level l p q).0.tick_size ≡ l.tick_size
unfolding set_level store init_center
set_level-tick l p q =
    make_room_cases (λ r. r.0.tick_size ≡ l.tick_size) l p (λ _. refl) (λ _ _. same_tick l p)
      (λ _ _. refl)
