-- ===== src/OfiView.antt =====
-- The OFI view of one side (src/order_book.cpp: `updateOfiView`, `rebuildOfiSide`): the best levels
-- of a ladder, best first, at most `depth` of them. The source writes each branch twice, for bids
-- (descending, `prevBelow`, `bestHigh`) and for asks (ascending, `nextAbove`, `bestLow`); here the
-- side is an argument, true for bids.
pub mod Order
pub mod Edits
pub mod Top
pub mod Update
pub mod Source
pub mod Totals
pub mod Growth
pub mod Balance
use lob.Prelude.{
  ℕ, zero, suc, ◌+◌, Bool, true, false, not, ◌&&◌, ◌||◌, List, [], ◌∷◌, ◌++◌, Option, none, some,
  if◌then◌else◌, ltb, ◌==◌, length,
}
use lob.Prelude.Int.{ℤ, pos, ltb_ℤ, ◌==ℤ◌}
use lob.PriceLadder
use lob.PriceLadder.{PriceLadder}

-- {price, qty}
abbrev pub Level : Type 0
Level = ℤ × ℤ

-- The order of a view.
abbrev pub before : Bool → ℤ → ℤ → Bool
before true a b = ltb_ℤ b a
before false a b = ltb_ℤ a b

abbrev pub best_level : Bool → PriceLadder → ℤ
best_level true l = PriceLadder.best_high l
best_level false l = PriceLadder.best_low l

abbrev pub next_level : Bool → PriceLadder → ℤ → ℤ
next_level true l bound = PriceLadder.prev_below l bound
next_level false l bound = PriceLadder.next_above l bound

-- std::lower_bound: the first position whose price is not before the given one.
unfoldable pub lower_bound : Bool → List Level → ℤ → ℕ
lower_bound s [] price = 0
lower_bound s (x ∷ xs) price = if before s x.0 price then suc (lower_bound s xs price) else 0

-- `it != end() && it->first == price`
unfoldable pub price_at : List Level → ℕ → ℤ → Bool
price_at [] i price = false
price_at (x ∷ xs) zero price = x.0 ==ℤ price
price_at (x ∷ xs) (suc i) price = price_at xs i price

unfoldable pub erase_at : List Level → ℕ → List Level
erase_at [] i = []
erase_at (x ∷ xs) zero = xs
erase_at (x ∷ xs) (suc i) = x ∷ erase_at xs i

unfoldable pub insert_at : List Level → ℕ → Level → List Level
insert_at xs zero y = y ∷ xs
insert_at [] (suc i) y = y ∷ []
insert_at (x ∷ xs) (suc i) y = x ∷ insert_at xs i y

-- `it->second = qty`
unfoldable pub assign_at : List Level → ℕ → ℤ → List Level
assign_at [] i q = []
assign_at (x ∷ xs) zero q = (x.0, q) ∷ xs
assign_at (x ∷ xs) (suc i) q = x ∷ assign_at xs i q

-- `back()`
unfoldable pub back : List Level → Option Level
back [] = none
back (x ∷ []) = some x
back (x ∷ y ∷ xs) = back (y ∷ xs)

unfoldable pub pop_back : List Level → List Level
pop_back [] = []
pop_back (x ∷ []) = []
pop_back (x ∷ y ∷ xs) = x ∷ pop_back (y ∷ xs)

-- std::any_of over the view, for a price.
unfoldable pub has_price : List Level → ℤ → Bool
has_price [] price = false
has_price (x ∷ xs) price = (x.0 ==ℤ price) || has_price xs price

-- A price of 0 says that nothing was evicted, or replaced.
pub record ViewChangeResult : Type 0 where
  pub evicted_price : ℤ
  pub evicted_qty : ℤ
  pub replacement_price : ℤ
  pub replacement_qty : ℤ

abbrev pub no_change : ViewChangeResult
no_change = record {
  evicted_price = pos 0;
  evicted_qty = pos 0;
  replacement_price = pos 0;
  replacement_qty = pos 0;
}

abbrev pub evicted : Option Level → ViewChangeResult
evicted none = no_change
evicted (some (p, q)) = record no_change { evicted_price = p; evicted_qty = q }

abbrev pub replaced : Option Level → ViewChangeResult
replaced none = no_change
replaced (some (p, q)) = record no_change { replacement_price = p; replacement_qty = q }

-- The level that takes the place of an erased one: the best beyond the worst that is left.
abbrev pub replacement_from : Bool → PriceLadder → Option Level → ℤ
replacement_from s l none = best_level s l
replacement_from s l (some worst) = next_level s l worst.0

unfoldable pub refill : Bool → PriceLadder → List Level → List Level
refill s l erased =
    let price = replacement_from s l (back erased) in
    let qty = if ltb_ℤ (pos 0) price then PriceLadder.get_level l price else pos 0 in
    if price ==ℤ pos 0 then erased else erased ++ (price, qty) ∷ []

-- `!view.empty() && price` is before the worst.
abbrev pub beats : Bool → ℤ → Option Level → Bool
beats s price none = false
beats s price (some worst) = before s price worst.0

-- The three cases of `updateOfiView`.
unfoldable pub remove_level :
    Bool → ℕ → PriceLadder → List Level → ℕ → List Level × ViewChangeResult
unfolding refill
remove_level s depth l view i =
    let after = refill s l (erase_at view i) in
    (
      after,
      if (length view == depth) && (length after == depth)
          then replaced (back after)
          else no_change,
    )

unfoldable pub add_level : Bool → ℕ → List Level → ℕ → ℤ → ℤ → List Level × ViewChangeResult
add_level s depth view i price qty =
    if ltb (length view) depth || beats s price (back view)
    then (let grown = insert_at view i (price, qty) in
        if ltb depth (length grown)
        then (pop_back grown, evicted (back grown))
        else (grown, no_change))
    else (view, no_change)

unfoldable pub update_ofi_view :
    Bool → ℕ → PriceLadder → List Level → ℤ → ℤ → List Level × ViewChangeResult
unfolding remove_level add_level
update_ofi_view s depth l view price qty =
    let i = lower_bound s view price in
    if price_at view i price
    then if qty ==ℤ pos 0 then remove_level s depth l view i else (assign_at view i qty, no_change)
    else if ltb_ℤ (pos 0) qty
    then add_level s depth view i price qty
    else (view, no_change)

-- `while (p > 0 && view.size() < depth)`: the last argument is the room that is left.
unfoldable pub rebuild_loop : Bool → PriceLadder → ℤ → ℕ → List Level
rebuild_loop s l p zero = []
rebuild_loop s l p (suc room) =
    let rest = rebuild_loop s l (next_level s l p) room in
    if ltb_ℤ (pos 0) p then (p, PriceLadder.get_level l p) ∷ rest else []

unfoldable pub rebuild_ofi_side : Bool → ℕ → PriceLadder → List Level
unfolding rebuild_loop
rebuild_ofi_side s depth l = rebuild_loop s l (best_level s l) depth
