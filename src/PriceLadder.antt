-- ===== src/PriceLadder.antt =====
-- src/price_ladder.hpp and src/price_ladder.cpp: one side of a book as an array of quantities,
-- indexed by price tick. Prices and quantities are `long long`, here integers; an index is a
-- number, and the index -1 ("no level") is `none`. `memmove` and `memset` are `drop`, `take` and
-- `replicate`. The asserts are not executed: `set` is described for the inputs that they admit.
pub mod Scan
mod Rebuild
mod Shift
mod Store
pub mod Invariant
pub mod Window
pub mod Ticks
pub mod Lookup
pub mod Neighbours
pub mod Levels
use lob.Prelude.{
  ℕ, zero, suc, ◌+◌, ◌-◌, ◌*◌, ◌/◌, ◌^◌, max, Bool, true, false, not, ◌&&◌, ◌||◌, List, [], ◌∷◌,
  ◌++◌, Option, none, some, arith, if◌then◌else◌, ltb, leb, ◌==◌, get_or, set, drop, take,
  replicate,
}
use lob.Prelude.Int.{
  ℤ, pos, negsuc, pos_part, neg_part, ◌+ℤ◌, ◌-ℤ◌, ◌*ℤ◌, ◌/ℤ◌, ltb_ℤ, leb_ℤ, ◌==ℤ◌,
}
use Scan.{scan_down, scan_up, above, below, equals}

pub record PriceLadder : Type 0 where
  pub tick_size : ℕ
  pub half_range : ℕ
  pub size : ℕ
  pub base_price : ℤ
  pub initialized : Bool
  pub qtys : List ℤ
  pub count : ℕ
  pub best_high_idx : Option ℕ
  pub best_low_idx : Option ℕ

abbrev pub default_tick : ℤ
default_tick = pos 1_000_000

abbrev pub default_half_range : ℤ
default_half_range = pos 5_000

-- std::numeric_limits<int>::max()
abbrev pub int_max : ℕ
int_max = 2 ^ 31 - 1

abbrev pub empty_ladder : ℕ → ℕ → PriceLadder
empty_ladder tick half = record {
  tick_size = tick;
  half_range = half;
  size = half * 2 + 1;
  base_price = pos 0;
  initialized = false;
  qtys = replicate (half * 2 + 1) (pos 0);
  count = 0;
  best_high_idx = none;
  best_low_idx = none;
}

-- The constructor; `none` is the `invalid_argument` that it throws.
unfoldable pub make : ℤ → ℤ → Option PriceLadder
make tick half =
    if leb_ℤ tick (pos 0)
    then none
    else if ltb_ℤ half (pos 0) || ltb_ℤ (pos ((int_max - 1) / 2)) half
    then none
    else some (empty_ladder (pos_part tick) (pos_part half))

abbrev pub offset : PriceLadder → ℤ → ℤ
offset l price = price -ℤ l.base_price

-- Only called on a price in range, so the quotient is not negative.
unfoldable pub to_idx : PriceLadder → ℤ → ℕ
to_idx l price = pos_part (offset l price /ℤ pos l.tick_size)

unfoldable pub to_price : PriceLadder → ℕ → ℤ
to_price l i = l.base_price +ℤ pos (i * l.tick_size)

unfoldable pub in_range : PriceLadder → ℤ → Bool
in_range l price =
    if not l.initialized
    then false
    else if ltb_ℤ (offset l price) (pos 0)
    then false
    else ltb_ℤ (offset l price /ℤ pos l.tick_size) (pos l.size)

unfoldable pub window_low : PriceLadder → ℤ
window_low l = if l.initialized then l.base_price else pos 0

unfoldable pub window_high : PriceLadder → ℤ
window_high l = if l.initialized then l.base_price +ℤ pos ((l.size - 1) * l.tick_size) else pos 0

-- The base of a window that is centred on the tick of a price.
unfoldable pub centred : PriceLadder → ℤ → ℤ
centred l price = (price /ℤ pos l.tick_size) *ℤ pos l.tick_size -ℤ pos (l.half_range * l.tick_size)

unfoldable pub init_center : PriceLadder → ℤ → PriceLadder
init_center l price = record l { base_price = centred l price; initialized = true }

-- `qtys[i] > 0`
abbrev pub active : List ℤ → ℕ → Bool
active qtys i = ltb_ℤ (pos 0) (get_or qtys i (pos 0))

-- `qtys[i] != 0`, where the loops of `set` stop
abbrev pub nonzero : List ℤ → ℕ → Bool
nonzero qtys i = not (get_or qtys i (pos 0) ==ℤ pos 0)

pub record Extremes : Type 0 where
  pub total : ℕ
  pub high : Option ℕ
  pub low : Option ℕ

abbrev pub raise : Option ℕ → ℕ → Option ℕ
raise none i = some i
raise (some j) i = some (max j i)

abbrev pub first_found : Option ℕ → ℕ → Option ℕ
first_found none i = some i
first_found (some j) i = some j

abbrev pub visit : Bool → ℕ → Extremes → Extremes
visit true i s = record { total = s.total + 1; high = raise s.high i; low = first_found s.low i }
visit false i s = s

-- The loop of `rebuildBestIndices`: `n` rounds from index `i` on.
unfoldable pub rebuild_from : List ℤ → ℕ → ℕ → Extremes → Extremes
rebuild_from qtys zero i s = s
rebuild_from qtys (suc n) i s = rebuild_from qtys n (i + 1) (visit (active qtys i) i s)

unfoldable pub rebuild_best_indices : PriceLadder → PriceLadder
rebuild_best_indices l =
    let s = rebuild_from l.qtys l.size 0 (record { total = 0; high = none; low = none }) in
    record l { count = s.total; best_high_idx = s.high; best_low_idx = s.low }

-- The entries of `qtys` after a move of the window by `shift` ticks.
unfoldable pub shifted : ℕ → ℤ → List ℤ → List ℤ
shifted size shift qtys =
    if ltb_ℤ (pos 0) shift && ltb_ℤ shift (pos size)
    then drop (pos_part shift) qtys ++ replicate (pos_part shift) (pos 0)
    else if ltb_ℤ shift (pos 0) && ltb_ℤ (pos 0 -ℤ shift) (pos size)
    then replicate (neg_part shift) (pos 0) ++ take (size - neg_part shift) qtys
    else replicate size (pos 0)

unfoldable pub recenter : PriceLadder → ℤ → PriceLadder
unfolding rebuild_best_indices
recenter l price =
    let new_base = centred l price in
    let shift = (new_base -ℤ l.base_price) /ℤ pos l.tick_size in
    rebuild_best_indices (record l { base_price = new_base; qtys = shifted l.size shift l.qtys })

-- The updates that `set` makes once the price is in the window.
unfoldable pub next_count : ℤ → ℤ → ℕ → ℕ
next_count old qty count =
    if (old ==ℤ pos 0) && ltb_ℤ (pos 0) qty
    then count + 1
    else if ltb_ℤ (pos 0) old && (qty ==ℤ pos 0)
    then count - 1
    else count

unfoldable pub next_high : List ℤ → ℤ → ℕ → Option ℕ → Option ℕ
next_high qtys qty idx high =
    if ltb_ℤ (pos 0) qty && above idx high
    then some idx
    else if (qty ==ℤ pos 0) && equals idx high
    then scan_down (nonzero qtys) (suc idx)
    else high

unfoldable pub next_low : ℕ → List ℤ → ℤ → ℕ → Option ℕ → Option ℕ
next_low size qtys qty idx low =
    if ltb_ℤ (pos 0) qty && below idx low
    then some idx
    else if (qty ==ℤ pos 0) && equals idx low
    then scan_up (nonzero qtys) (idx + 1) (size - (idx + 1))
    else low

unfoldable pub store : PriceLadder → ℕ → ℤ → PriceLadder
unfolding next_count next_high next_low
store l idx qty =
    let after = set l.qtys idx qty in
    record l {
      qtys = after;
      count = next_count (get_or l.qtys idx (pos 0)) qty l.count;
      best_high_idx = next_high after qty idx l.best_high_idx;
      best_low_idx = next_low l.size after qty idx l.best_low_idx;
    }

-- The window that `set` writes into, and whether it was moved there.
unfoldable pub make_room : PriceLadder → ℤ → PriceLadder × Bool
make_room l price =
    if not l.initialized
    then (init_center l price, false)
    else if not (in_range l price)
    then (recenter l price, true)
    else (l, false)

unfoldable pub set_level : PriceLadder → ℤ → ℤ → PriceLadder × Bool
unfolding make_room
set_level l price qty =
    let (l', recentered) = make_room l price in (store l' (to_idx l' price) qty, recentered)

unfoldable pub get_level : PriceLadder → ℤ → ℤ
get_level l price = if not (in_range l price) then pos 0 else get_or l.qtys (to_idx l price) (pos 0)

unfoldable pub clear : PriceLadder → PriceLadder
clear l = record l {
  qtys = if l.initialized then replicate l.size (pos 0) else l.qtys;
  count = 0;
  best_high_idx = none;
  best_low_idx = none;
  initialized = false;
}

-- A price that is looked for, 0 if there is none.
abbrev pub price_or_zero : PriceLadder → Option ℕ → ℤ
price_or_zero l none = pos 0
price_or_zero l (some i) = to_price l i

unfoldable pub best_high : PriceLadder → ℤ
best_high l = price_or_zero l l.best_high_idx

unfoldable pub best_low : PriceLadder → ℤ
best_low l = price_or_zero l l.best_low_idx

abbrev pub is_none : Option ℕ → Bool
is_none none = true
is_none (some i) = false

unfoldable pub prev_below : PriceLadder → ℤ → ℤ
prev_below l bound =
    if not l.initialized || is_none l.best_high_idx
    then pos 0
    else if leb_ℤ (offset l bound) (pos 0)
    then pos 0
    else (let raw = pos_part ((offset l bound -ℤ pos 1) /ℤ pos l.tick_size) in
        price_or_zero l (scan_down (active l.qtys) (if leb l.size raw then l.size else suc raw)))

unfoldable pub next_above : PriceLadder → ℤ → ℤ
next_above l bound =
    if not l.initialized || is_none l.best_low_idx
    then pos 0
    else if ltb_ℤ (offset l bound) (pos 0)
    then price_or_zero l (scan_up (active l.qtys) 0 l.size)
    else (let raw = pos_part (offset l bound /ℤ pos l.tick_size) + 1 in
        if leb l.size raw
        then pos 0
        else price_or_zero l (scan_up (active l.qtys) raw (l.size - raw)))

-- The loop of `forEach`: the active levels from index `i` on, in ascending order.
unfoldable pub levels_from : PriceLadder → List ℤ → ℕ → List (ℤ × ℤ)
levels_from l [] i = []
levels_from l (q ∷ qs) i =
    let rest = levels_from l qs (i + 1) in
    if ltb_ℤ (pos 0) q then (to_price l i, q) ∷ rest else rest

unfoldable pub for_each : PriceLadder → List (ℤ × ℤ)
for_each l = levels_from l l.qtys 0
