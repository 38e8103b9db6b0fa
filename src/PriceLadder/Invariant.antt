-- ===== src/PriceLadder/Invariant.antt =====
-- The representation invariant of `PriceLadder`, and that its operations keep it.
use mathlib.Core.Bool.{false≢true}
use lob.Prelude.{
  ℕ, zero, suc, ◌+◌, ◌-◌, ◌*◌, ◌≤◌, ◌<◌, ◌≡◌, refl, sym, ap, ◌∙◌, Bool, true, false, Option, none,
  some, arith, ◌⊎◌, List, length, get_or, replicate, length-set, length-replicate, get_or-replicate,
  get_or-beyond, inl, inr, Bool-cases, if◌then◌else◌, ◌||◌, ◌/◌,
}
use lob.Prelude.Int.{
  ℤ, pos, negsuc, pos_part, neg_part, ltb_ℤ, leb_ℤ, ◌*ℤ◌, ◌-ℤ◌, ◌/ℤ◌, ◌≤ℤ◌, ◌<ℤ◌, eq_of_parts,
  *ℤ_parts, -ℤ_parts,
}
use lob.PriceLadder.{
  PriceLadder, active, store, make, empty_ladder, int_max, clear, recenter, init_center, centred,
  shifted,
}
use lob.PriceLadder.Scan.{IsLast, IsFirst, count_below, above}
use lob.PriceLadder.Store.{new_nonneg, next_count_lem, high_kept, low_kept}
use lob.PriceLadder.Rebuild.{rebuild_best_indices_lem}
use lob.PriceLadder.Shift.{length-shifted, get_or-shifted}

-- The base price is a whole number of ticks.
abbrev pub OnGrid : ℕ → ℤ → Type 0
OnGrid tick price = (k : ℤ) × (price ≡ k *ℤ pos tick)

pub record IsValid (l : PriceLadder) : Type 0 where
  pub tick_pos : 0 < l.tick_size
  pub width : l.size ≡ l.half_range * 2 + 1
  pub stored : length l.qtys ≡ l.size
  pub nonneg : (k : ℕ) → neg_part (get_or l.qtys k (pos 0)) ≡ 0
  pub counted : l.count ≡ count_below (active l.qtys) l.size
  pub high : IsLast (active l.qtys) l.size l.best_high_idx
  pub low : IsFirst (active l.qtys) 0 l.size l.best_low_idx
  pub base : OnGrid l.tick_size l.base_price
  pub cleared : l.initialized ≡ false → (k : ℕ) → get_or l.qtys k (pos 0) ≡ pos 0

scale_sub : (a : ℤ) (h t : ℕ) → a *ℤ pos t -ℤ pos (h * t) ≡ (a -ℤ pos h) *ℤ pos t
scale_sub a h t = eq_of_parts _ _ (
    omega (
      arith,
      *ℤ_parts a (pos t),
      *ℤ_parts (a -ℤ pos h) (pos t),
      -ℤ_parts (a *ℤ pos t) (pos (h * t)),
      ap (λ (x : ℕ). x * t) (-ℤ_parts a (pos h)),
    ))

count_none : (p : ℕ → Bool) (n : ℕ) → ((k : ℕ) → p k ≡ false) → 0 ≡ count_below p n
count_none p zero h = refl
count_none p (suc n) h = rw (h n) (omega (arith, count_none p n h))

shifted-zero : (size k : ℕ) (qtys : List ℤ) → get_or (shifted size (pos 0) qtys) k (pos 0) ≡ pos 0
unfolding shifted ◌-ℤ◌
shifted-zero size k qtys = ground (arith, get_or-replicate size k (pos 0))

module _ {l : PriceLadder} (v : IsValid l) where
  pub store-IsValid :
      (idx : ℕ) (qty : ℤ)
      → idx < l.size
      → neg_part qty ≡ 0
      → l.initialized ≡ true
      → IsValid (store l idx qty)
  unfolding store
  store-IsValid idx qty h fits ready = record {
    tick_pos = v.tick_pos;
    width = v.width;
    stored = length-set l.qtys idx qty ∙ v.stored;
    nonneg = new_nonneg l.qtys idx l.size qty h v.stored v.nonneg fits;
    counted = next_count_lem l.qtys idx l.size qty h v.stored v.nonneg fits l.count v.counted;
    high = high_kept l.qtys idx l.size qty h v.stored v.nonneg fits l.best_high_idx v.high;
    low = low_kept l.qtys idx l.size qty h v.stored v.nonneg fits l.best_low_idx v.low;
    base = v.base;
    cleared = λ e. absurd (false≢true (sym e ∙ ready));
  }

  centred-OnGrid : (price : ℤ) → OnGrid l.tick_size (centred l price)
  unfolding centred
  centred-OnGrid price = (
    price /ℤ pos l.tick_size -ℤ pos l.half_range,
    scale_sub (price /ℤ pos l.tick_size) l.half_range l.tick_size,
  )

  pub init_center-IsValid : (price : ℤ) → IsValid (init_center l price)
  unfolding init_center
  init_center-IsValid price = record {
    tick_pos = v.tick_pos;
    width = v.width;
    stored = v.stored;
    nonneg = v.nonneg;
    counted = v.counted;
    high = v.high;
    low = v.low;
    base = centred-OnGrid price;
    cleared = λ e. absurd (false≢true (sym e));
  }

  shifted_nonneg :
      (shift : ℤ) (k : ℕ) → neg_part (get_or (shifted l.size shift l.qtys) k (pos 0)) ≡ 0
  shifted_nonneg shift k = ground (
    arith,
    get_or-beyond (shifted l.size shift l.qtys) k (pos 0),
    length-shifted l.size shift l.qtys v.stored,
    get_or-shifted l.size k shift l.qtys v.stored,
    v.nonneg (k + pos_part shift - neg_part shift),
    shifted-zero l.size k l.qtys,
  )

  pub recenter-IsValid : (price : ℤ) → l.initialized ≡ true → IsValid (recenter l price)
  unfolding recenter
  recenter-IsValid price ready =
      let shift = (centred l price -ℤ l.base_price) /ℤ pos l.tick_size in
      let moved : PriceLadder = record l {
        base_price = centred l price;
        qtys = shifted l.size shift l.qtys;
      } in
      let found = rebuild_best_indices_lem moved in
      record {
        tick_pos = v.tick_pos;
        width = v.width;
        stored = length-shifted l.size shift l.qtys v.stored;
        nonneg = shifted_nonneg shift;
        counted = found.0;
        high = found.1;
        low = found.2;
        base = centred-OnGrid price;
        cleared = λ e. absurd (false≢true (sym e ∙ ready));
      }

  cleared_zero :
      (k : ℕ)
      → get_or (if l.initialized then replicate l.size (pos 0) else l.qtys) k (pos 0) ≡ pos 0
  cleared_zero k = elim (Bool-cases l.initialized) [
    | inl e ↦ rw e (get_or-replicate l.size k (pos 0))
    | inr e ↦ rw e (v.cleared e k)
  ]

  pub clear-IsValid : IsValid (clear l)
  unfolding clear
  clear-IsValid = record {
    tick_pos = v.tick_pos;
    width = v.width;
    stored = ground (arith, length-replicate l.size (pos 0), v.stored);
    nonneg = λ k. rw (cleared_zero k);
    counted = count_none _ l.size λ k. rw (cleared_zero k);
    high = λ k h. rw (cleared_zero k);
    low = λ k h m. rw (cleared_zero k);
    base = v.base;
    cleared = λ e k. cleared_zero k;
  }

-- A new ladder keeps the invariant.
pub empty_ladder-IsValid : (tick half : ℕ) → 0 < tick → IsValid (empty_ladder tick half)
empty_ladder-IsValid tick half h = record {
  tick_pos = h;
  width = refl;
  stored = length-replicate (half * 2 + 1) (pos 0);
  nonneg = λ k. rw (get_or-replicate (half * 2 + 1) k (pos 0));
  counted = count_none _ (half * 2 + 1) λ k. rw (get_or-replicate (half * 2 + 1) k (pos 0));
  high = λ k h. rw (get_or-replicate (half * 2 + 1) k (pos 0));
  low = λ k h m. rw (get_or-replicate (half * 2 + 1) k (pos 0));
  base = (pos 0, eq_of_parts _ _ (omega (arith, *ℤ_parts (pos 0) (pos tick))));
  cleared = λ e k. get_or-replicate (half * 2 + 1) k (pos 0);
}

-- What the constructor may make of a tick and a half range: it refuses a tick that is not positive
-- and a half range that is negative or whose window has more than `int_max` entries.
abbrev pub Made : ℤ → ℤ → Option PriceLadder → Type 0
Made tick half none = (tick ≤ℤ pos 0) ⊎ (half <ℤ pos 0) ⊎ (pos ((int_max - 1) / 2) <ℤ half)
Made tick half (some l) =
    IsValid l
    × (pos l.tick_size ≡ tick)
    × (pos l.half_range ≡ half)
    × (l.size ≤ int_max)
    × (l.count ≡ 0)

made :
    (t h : ℕ) → (t ≡ 0 → ⊥) → h ≤ (int_max - 1) / 2 → Made (pos t) (pos h) (some (empty_ladder t h))
made t h above fits = (empty_ladder-IsValid t h (omega arith), refl, refl, omega arith, refl)

too_wide :
    (half : ℤ)
    → (ltb_ℤ half (pos 0) || ltb_ℤ (pos ((int_max - 1) / 2)) half) ≡ true
    → (half <ℤ pos 0) ⊎ (pos ((int_max - 1) / 2) <ℤ half)
too_wide half h = ground arith

-- The constructor either makes a valid ladder without levels, with the tick and the half range it is
-- given and at most `int_max` entries, or refuses a tick that is not positive, or a half range that
-- is negative or above (int_max - 1) / 2.
pub make-Made : (tick half : ℤ) → Made tick half (make tick half)
unfolding make
make-Made (negsuc t) half =
    let low : leb_ℤ (negsuc t) (pos 0) ≡ true = ground arith in rw low (inl (omega arith))
make-Made (pos zero) half = inl (omega arith)
make-Made (pos (suc t)) half =
    let above : leb_ℤ (pos (suc t)) (pos 0) ≡ false = ground arith in
    elim (Bool-cases (ltb_ℤ half (pos 0) || ltb_ℤ (pos ((int_max - 1) / 2)) half)) [
      | inl e ↦ rw (above, e) (inr (too_wide half e))
      | inr e ↦ rw (above, e) (fits half e)
    ]
  where
    fits :
        (half : ℤ)
        → (ltb_ℤ half (pos 0) || ltb_ℤ (pos ((int_max - 1) / 2)) half) ≡ false
        → Made (pos (suc t)) half (some (empty_ladder (suc t) (pos_part half)))
    fits (pos h) e = made (suc t) h (λ k. omega (arith, k)) (ground arith)
    fits (negsuc h) e = let no : ⊥ = ground arith in absurd no
