-- ===== src/OrderBook/Visit.antt =====
-- What `forEach` visits, which `getSnapshot` lists: every active level once, in ascending order.
use lob.Prelude.{
  ℕ, zero, suc, ◌+◌, ◌*◌, ◌<◌, ◌≡◌, refl, sym, ap, ◌∙◌, Bool, true, false, inl, inr, arith,
  Bool-cases, List, [], ◌∷◌, length, All, get_or,
}
use lob.Prelude.Int.{ℤ, pos, ltb_ℤ, +ℤ_parts}
use lob.PriceLadder.Neighbours.{IsLevel}
use lob.PriceLadder.Levels.{level-qty}
use lob.PriceLadder.{PriceLadder, get_level, active, to_price, levels_from, for_each}
use lob.PriceLadder.Scan.{count_below}
use lob.PriceLadder.Invariant.{IsValid}
use lob.OfiView.{before}
use lob.OfiView.Order.{AllAfter, IsSorted}

one_if : Bool → ℕ
one_if true = 1
one_if false = 0

count_front :
    (p : ℕ → Bool) (n : ℕ) → count_below p (suc n) ≡ one_if (p 0) + count_below (λ k. p (suc k)) n
unfolding one_if
count_front p zero = elim (Bool-cases (p 0)) [
  | inl e ↦ rw e (omega arith)
  | inr e ↦ rw e (omega arith)
]
count_front p (suc n) = ground (arith, count_front p n)

length-levels_from :
    (l : PriceLadder) (qs : List ℤ) (i : ℕ)
    → length (levels_from l qs i) ≡ count_below (active qs) (length qs)
unfolding levels_from one_if
length-levels_from l [] i = refl
length-levels_from l (q ∷ qs) i =
    let rest = length-levels_from l qs (i + 1) in
    let front = count_front (active (q ∷ qs)) (length qs) in ground (arith, rest, front)

module _ (l : PriceLadder) (above : 0 < l.tick_size) where
  price-before : (i j : ℕ) → i < j → before false (to_price l i) (to_price l j) ≡ true
  unfolding to_price
  price-before i j h =
      let apart : i * l.tick_size < j * l.tick_size = grind arith in
      let below = +ℤ_parts l.base_price (pos (i * l.tick_size)) in
      let beyond = +ℤ_parts l.base_price (pos (j * l.tick_size)) in ground (arith, below, beyond)

  levels_from-after :
      (qs : List ℤ) (i j : ℕ) → i < j → AllAfter false (to_price l i) (levels_from l qs j)
  unfolding levels_from
  levels_from-after [] i j h = tt
  levels_from-after (q ∷ qs) i j h = elim (Bool-cases (ltb_ℤ (pos 0) q)) [
    | inl e ↦ rw e (price-before i j h, levels_from-after qs i (j + 1) (omega arith))
    | inr e ↦ rw e (levels_from-after qs i (j + 1) (omega arith))
  ]

  levels_from-IsSorted : (qs : List ℤ) (i : ℕ) → IsSorted false (levels_from l qs i)
  unfolding levels_from
  levels_from-IsSorted [] i = tt
  levels_from-IsSorted (q ∷ qs) i = elim (Bool-cases (ltb_ℤ (pos 0) q)) [
    | inl e ↦ rw e (levels_from-after qs i (i + 1) (omega arith), levels_from-IsSorted qs (i + 1))
    | inr e ↦ rw e (levels_from-IsSorted qs (i + 1))
  ]

module _ {l : PriceLadder} (v : IsValid l) where
  levels_from-IsLevel :
      (qs : List ℤ) (i : ℕ)
      → ((k : ℕ) → get_or qs k (pos 0) ≡ get_or l.qtys (i + k) (pos 0))
      → i + length qs ≡ l.size
      → All (λ e. IsLevel l e.0 × (e.1 ≡ get_level l e.0)) (levels_from l qs i)
  unfolding levels_from
  levels_from-IsLevel [] i same fits = tt
  levels_from-IsLevel (q ∷ qs) i same fits =
      let shifted : (k : ℕ) → get_or qs k (pos 0) ≡ get_or l.qtys (i + 1 + k) (pos 0) =
        λ k. same (suc k) ∙ ap (λ m. get_or l.qtys m (pos 0)) (omega arith) in
      let rest = levels_from-IsLevel qs (i + 1) shifted (omega (arith, fits)) in
      let here : q ≡ get_or l.qtys i (pos 0) =
        same 0 ∙ ap (λ m. get_or l.qtys m (pos 0)) (omega arith) in
      elim (Bool-cases (ltb_ℤ (pos 0) q)) [
        | inl e ↦
            let lv : IsLevel l (to_price l i) =
              (i, omega (arith, fits), ap (ltb_ℤ (pos 0)) (sym here) ∙ e, refl) in
            rw e ((lv, here ∙ sym (level-qty v {p = to_price l i} lv)), rest)
        | inr e ↦ rw e rest
      ]

-- In a valid ladder, `forEach` visits as many levels as `activeCount` says, in strictly ascending
-- order of their prices, each an active level with the quantity that `get` reads.
pub for_each_lem :
    {l : PriceLadder}
    → IsValid l
    → (length (for_each l) ≡ l.count)
      × IsSorted false (for_each l)
      × All (λ e. IsLevel l e.0 × (e.1 ≡ get_level l e.0)) (for_each l)
unfolding for_each
for_each_lem {l} v = (
  length-levels_from l l.qtys 0 ∙ (ap (count_below (active l.qtys)) v.stored ∙ sym v.counted),
  levels_from-IsSorted l v.tick_pos l.qtys 0,
  levels_from-IsLevel v l.qtys 0 (λ k. ap (λ m. get_or l.qtys m (pos 0)) (omega arith))
      (omega (arith, v.stored)),
)
