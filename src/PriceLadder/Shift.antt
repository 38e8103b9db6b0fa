-- ===== src/PriceLadder/Shift.antt =====
-- What a move of the window keeps of the array: the entries that are in both windows.

use lob.Prelude.{
  ℕ, zero, suc, ◌+◌, ◌-◌, ◌<◌, ◌≡◌, ◌≢◌, refl, sym, ◌∙◌, inl, inr, arith, Bool-cases, List, ◌++◌,
  length, get_or, take, drop, replicate, length-append, length-take, length-drop, length-replicate,
  get_or-drop, get_or-take, get_or-replicate, get_or-append_left, get_or-append_right,
  get_or-beyond, if◌then◌else◌, ltb,
}
use lob.Prelude.Int.{ℤ, pos, negsuc, ◌-ℤ◌, pos_part, neg_part}
use lob.PriceLadder.{shifted}

pub length-shifted :
    (size : ℕ) (shift : ℤ) (qtys : List ℤ)
    → length qtys ≡ size
    → length (shifted size shift qtys) ≡ size
unfolding shifted ◌-ℤ◌
length-shifted size shift qtys e = ground (
  arith,
  length-append (drop (pos_part shift) qtys) (replicate (pos_part shift) (pos 0)),
  length-append (replicate (neg_part shift) (pos 0)) (take (size - neg_part shift) qtys),
  length-drop (pos_part shift) qtys,
  length-take (size - neg_part shift) qtys,
  length-replicate (pos_part shift) (pos 0),
  length-replicate (neg_part shift) (pos 0),
  length-replicate size (pos 0),
)

get_or-drop_fill :
    (n k : ℕ) (qtys : List ℤ) (d : ℤ)
    → get_or (drop n qtys ++ replicate n d) k d ≡ get_or qtys (n + k) d
get_or-drop_fill n k qtys d = elim (Bool-cases (ltb k (length (drop n qtys)))) [
  | inl lt ↦
      get_or-append_left (drop n qtys) (replicate n d) k d (ground arith) ∙ get_or-drop n k qtys d
  | inr ge ↦
      get_or-append_right (drop n qtys) (replicate n d) k d (ground arith)
      ∙ (get_or-replicate n (k - length (drop n qtys)) d
          ∙ sym (get_or-beyond qtys (n + k) d (ground (arith, length-drop n qtys))))
]

get_or-fill_take :
    (n m k : ℕ) (qtys : List ℤ) (d : ℤ)
    → k < n + m
    → get_or (replicate n d ++ take m qtys) k d ≡ (if ltb k n then d else get_or qtys (k - n) d)
get_or-fill_take n m k qtys d h = ground (
  arith,
  length-replicate n d,
  get_or-append_left (replicate n d) (take m qtys) k d,
  get_or-append_right (replicate n d) (take m qtys) k d,
  get_or-replicate n k d,
  get_or-take m (k - n) qtys d,
)

-- Index `k` of the new window is index `k + shift` of the old one; the entries that come into the
-- window are zero. (A move by 0, which `recenter` does not make, would erase the array.)
pub get_or-shifted :
    (size k : ℕ) (shift : ℤ) (qtys : List ℤ)
    → length qtys ≡ size
    → k < size
    → shift ≢ pos 0
    → get_or (shifted size shift qtys) k (pos 0) ≡ (
        if ltb (k + pos_part shift) (neg_part shift)
        then pos 0
        else get_or qtys (k + pos_part shift - neg_part shift) (pos 0))
unfolding shifted ◌-ℤ◌
get_or-shifted size k (pos zero) qtys e h ne = absurd (ne refl)
get_or-shifted size k (pos (suc n)) qtys e h ne = ground (
  arith,
  get_or-drop_fill (suc n) k qtys (pos 0),
  get_or-replicate size k (pos 0),
  get_or-beyond qtys (k + suc n) (pos 0),
)
get_or-shifted size k (negsuc n) qtys e h ne =
    ground (
      arith,
      get_or-fill_take (suc n) (size - suc n) k qtys (pos 0),
      get_or-replicate size k (pos 0),
    )
