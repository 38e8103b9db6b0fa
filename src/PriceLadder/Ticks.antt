-- ===== src/PriceLadder/Ticks.antt =====
-- Reads of a ladder in terms of ticks: the tick of a price `n` is `n / tick_size`, and index `i` of
-- the window is tick `k + i`, where `k` is the tick of the base price.
use mathlib.Core.Bool.{false≢true}
use native.Mathlib.Nat.{mod-lt}
use native.Mathlib.Decide.{dec_le}
use lob.Prelude.{
  ℕ, ◌+◌, ◌-◌, ◌*◌, ◌/◌, ◌%◌, ◌≤◌, ◌<◌, ◌≡◌, sym, ap, ◌∙◌, Bool, true, false, inl, inr, arith,
  Bool-cases, get_or, get_or-beyond,
}
use lob.Prelude.Int.{pos, pos_part, neg_part, +ℤ_parts, *ℤ_parts, eq_of_parts}
use lob.PriceLadder.{PriceLadder, to_idx, in_range, get_level}
use lob.PriceLadder.Invariant.{IsValid}
use lob.PriceLadder.Window.{Slot, to_idx_of_Slot, in_range_of_Slot, Slot-of_in_range, div_unique}

-- Ticks below the base price, and above it.
abbrev pub At : {l : PriceLadder} → IsValid l → ℕ → ℕ → Type 0
At {l} v n i = n / l.tick_size + neg_part v.base.0 ≡ pos_part v.base.0 + i

sub_add : (c b : ℕ) → b ≤ c → c ≡ c - b + b
sub_add c b h = omega arith

pub mul_mono : (a b t : ℕ) → a ≤ b → a * t ≤ b * t
mul_mono a b t h = grind arith

pub true_ne : {b : Bool} → b ≡ false → b ≡ true → ⊥
true_ne e f = false≢true (sym e ∙ f)

tick_of : (n a b i r t : ℕ) → r < t → n + b * t ≡ a * t + (i * t + r) → n / t + b ≡ a + i
tick_of n a b i r t h e = elim (dec_le b (a + i)) [
  | yes le ↦
      let d = a + i - b in
      let n' : n ≡ d * t + r = omega (arith, ap (λ (x : ℕ). x * t) (sub_add (a + i) b le)) in
      omega (arith, ap (λ (x : ℕ). x / t) n', div_unique d r t h)
  | no gt ↦ absurd (omega (arith, mul_mono (a + i + 1) b t (omega arith)))
]

module _ {l : PriceLadder} (v : IsValid l) (n : ℕ) where
  pub base_parts :
      pos_part l.base_price + neg_part v.base.0 * l.tick_size
      ≡ neg_part l.base_price + pos_part v.base.0 * l.tick_size
  base_parts =
      omega (arith, *ℤ_parts v.base.0 (pos l.tick_size), ap pos_part v.base.1, ap neg_part v.base.1)

  pub Slot-At : (i : ℕ) → Slot l (pos n) i → At v n i
  Slot-At i (r, h, e) = tick_of n (pos_part v.base.0) (neg_part v.base.0) i r l.tick_size h (
      omega (
        arith,
        base_parts,
        +ℤ_parts l.base_price (pos (i * l.tick_size + r)),
        ap pos_part e,
        ap neg_part e,
      ))

  At-Slot : (i : ℕ) → At v n i → Slot l (pos n) i
  At-Slot i e = (
    n % l.tick_size,
    mod-lt n v.tick_pos,
    eq_of_parts _ _ (
        omega (
          arith,
          base_parts,
          +ℤ_parts l.base_price (pos (i * l.tick_size + n % l.tick_size)),
          ap (λ (x : ℕ). x * l.tick_size) e,
        )),
  )

  -- Inside the window the index is the tick, counted from the base.
  pub in_range-At :
      in_range l (pos n) ≡ true → At v n (to_idx l (pos n)) × (to_idx l (pos n) < l.size)
  in_range-At h =
      let (_, slot, inside) = Slot-of_in_range l (pos n) v.tick_pos h in (Slot-At _ slot, inside)

  pub At-to_idx : (i : ℕ) → At v n i → to_idx l (pos n) ≡ i
  At-to_idx i e = to_idx_of_Slot l (pos n) i (At-Slot i e)

  pub At-in_range :
      (i : ℕ) → l.initialized ≡ true → At v n i → i < l.size → in_range l (pos n) ≡ true
  At-in_range i ready e h = in_range_of_Slot l (pos n) i ready (At-Slot i e) h

  -- A read is a read of the array at the tick; beyond its end there is nothing.
  pub get_level-At :
      (i : ℕ) → l.initialized ≡ true → At v n i → get_level l (pos n) ≡ get_or l.qtys i (pos 0)
  unfolding get_level
  get_level-At i ready e = elim (Bool-cases (in_range l (pos n))) [
    | inl h ↦ rw (h, At-to_idx i e)
    | inr h ↦ rw h (
        sym (
          get_or-beyond l.qtys i (pos 0) (
            omega (
              arith,
              v.stored,
              λ (lt : i < l.size). absurd {A = ⊥} (true_ne h (At-in_range i ready e lt)),
            ))))
  ]

  pub get_level-out : in_range l (pos n) ≡ false → get_level l (pos n) ≡ pos 0
  unfolding get_level
  get_level-out h = rw h
