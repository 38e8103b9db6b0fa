-- ===== src/PriceLadder/Rebuild.antt =====
-- `rebuildBestIndices` finds the number of active levels, and the first and the last of them.
use native.Mathlib.Numerals.{add-one}
use lob.Prelude.{
  ℕ, zero, suc, ◌+◌, ◌≡◌, refl, Bool, true, false, Option, none, some, max, arith, List,
}
use lob.Prelude.Int.{ℤ}
use lob.PriceLadder.{
  PriceLadder, Extremes, active, visit, rebuild_from, rebuild_best_indices, raise, first_found,
}
use lob.PriceLadder.Scan.{IsLast, IsFirst, count_below, at_eq, IsLast-skip}

-- What the loop knows after the indices below `i`.
record Seen (p : ℕ → Bool) (i : ℕ) (s : Extremes) : Type 0 where
  total : s.total ≡ count_below p i
  high : IsLast p i s.high
  low : IsFirst p 0 i s.low

raise-IsLast :
    (p : ℕ → Bool) (i : ℕ) (r : Option ℕ) → p i ≡ true → IsLast p i r → IsLast p (suc i) (raise r i)
raise-IsLast p i none e h = (omega arith, e, λ k l m. absurd (omega arith))
raise-IsLast p i (some j) e (a, b, c) =
    let top : max j i ≡ i = omega arith in (omega arith, rw top e, λ k l m. absurd (omega arith))

first_found-IsFirst :
    (p : ℕ → Bool) (i : ℕ) (r : Option ℕ)
    → p i ≡ true
    → IsFirst p 0 i r
    → IsFirst p 0 (suc i) (first_found r i)
first_found-IsFirst p i none e h = (omega arith, omega arith, e, λ k l m. h k l m)
first_found-IsFirst p i (some j) e (a, b, c, d) = (omega arith, omega arith, c, d)

IsFirst-extend :
    (p : ℕ → Bool) (i : ℕ) (r : Option ℕ) → p i ≡ false → IsFirst p 0 i r → IsFirst p 0 (suc i) r
IsFirst-extend p i none e h = λ k l m. ground (arith, h k l, at_eq p i e k)
IsFirst-extend p i (some j) e (a, b, c, d) = (omega arith, omega arith, c, d)

visit-Seen :
    (p : ℕ → Bool) (i : ℕ) (s : Extremes) (b : Bool)
    → p i ≡ b
    → Seen p i s
    → Seen p (suc i) (visit b i s)
visit-Seen p i s true e v = record {
  total = rw e (omega (arith, v.total));
  high = raise-IsLast p i s.high e v.high;
  low = first_found-IsFirst p i s.low e v.low;
}
visit-Seen p i s false e v = record {
  total = rw e (omega (arith, v.total));
  high = IsLast-skip p i s.high e v.high;
  low = IsFirst-extend p i s.low e v.low;
}

rebuild_from-Seen :
    (qtys : List ℤ) (n i m : ℕ) (s : Extremes)
    → i + n ≡ m
    → Seen (active qtys) i s
    → Seen (active qtys) m (rebuild_from qtys n i s)
unfolding rebuild_from
rebuild_from-Seen qtys zero i m s e v = let e' : i ≡ m = omega arith in rw (← e') v
rebuild_from-Seen qtys (suc n) i m s e v =
    rebuild_from-Seen qtys n (i + 1) m _ (omega arith)
      (rw add-one (visit-Seen (active qtys) i s (active qtys i) refl v))

-- The three values that `rebuildBestIndices` stores are those of the array.
pub rebuild_best_indices_lem :
    (l : PriceLadder)
    → let r = rebuild_best_indices l in
      (r.count ≡ count_below (active l.qtys) l.size)
      × IsLast (active l.qtys) l.size r.best_high_idx
      × IsFirst (active l.qtys) 0 l.size r.best_low_idx
unfolding rebuild_best_indices
rebuild_best_indices_lem l =
    let v =
      rebuild_from-Seen l.qtys l.size 0 l.size (record { total = 0; high = none; low = none })
        (omega arith)
        (record {
          total = refl;
          high = λ k h. absurd (omega arith);
          low = λ k h m. absurd (omega arith);
        }) in
    (v.total, v.high, v.low)
