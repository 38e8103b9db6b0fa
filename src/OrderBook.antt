-- ===== src/OrderBook.antt =====
-- src/order_book.hpp and src/order_book.cpp: a book of two price ladders with an OFI view on each.
-- The mutex is held through every operation, so each is one step on the state. A JSON message is
-- given by its fields, levels as pairs of texts; a text that `parseDecimal` refuses throws before
-- the book is touched.
pub mod Side
pub mod Valid
pub mod Session
pub mod Best
pub mod Visit
pub mod Parse
pub mod Messages
use lob.Prelude.{
  ℕ, Bool, true, false, not, ◌&&◌, ◌||◌, List, [], ◌∷◌, ◌++◌, if◌then◌else◌, ltb, ◌==◌, reverse,
  Option, none, some,
}
use lob.Prelude.Int.{ℤ, pos, ◌+ℤ◌, ◌-ℤ◌, ltb_ℤ, leb_ℤ, ◌==ℤ◌}
use lob.PriceLadder
use lob.PriceLadder.{PriceLadder}
use lob.OfiTypes.{EventKind, LevelDelta, UpdateResult, secondary}
use lob.OfiView.{Level, has_price, update_ofi_view, rebuild_ofi_side, ViewChangeResult}

pub record OrderBook : Type 0 where
  pub last_update_id : ℤ
  pub snapshot_applied : Bool
  pub ofi_depth : ℕ
  pub bid_ladder : PriceLadder
  pub ask_ladder : PriceLadder
  pub ofi_bids : List Level
  pub ofi_asks : List Level

-- The constructor, for a ladder that its own constructor made.
unfoldable pub make : ℕ → PriceLadder → OrderBook
make depth ladder = record {
  last_update_id = pos 0;
  snapshot_applied = false;
  ofi_depth = depth;
  bid_ladder = ladder;
  ask_ladder = ladder;
  ofi_bids = [];
  ofi_asks = [];
}

-- What `isBid ? bidLadder : askLadder` refers to, with its view.
abbrev pub ladder : Bool → OrderBook → PriceLadder
ladder true b = b.bid_ladder
ladder false b = b.ask_ladder

abbrev pub view : Bool → OrderBook → List Level
view true b = b.ofi_bids
view false b = b.ofi_asks

abbrev pub with_side : Bool → PriceLadder → List Level → OrderBook → OrderBook
with_side true l w b = record b { bid_ladder = l; ofi_bids = w }
with_side false l w b = record b { ask_ladder = l; ofi_asks = w }

-- A level behind the window, which `applyLevelChange` drops.
unfoldable pub is_deep : Bool → PriceLadder → ℤ → Bool
is_deep true l price = ltb_ℤ price (PriceLadder.window_low l)
is_deep false l price = ltb_ℤ (PriceLadder.window_high l) price

abbrev pub secondary_delta : Bool → EventKind → ViewChangeResult → List LevelDelta
secondary_delta is_bid kind c =
    (if c.evicted_price ==ℤ pos 0
      then []
      else record {
        price = c.evicted_price;
        new_qty = c.evicted_qty;
        delta_qty = pos 0 -ℤ c.evicted_qty;
        is_bid = is_bid;
        was_in_view = true;
        in_ofi_view = false;
        kind = secondary kind;
      }
        ∷ [])
    ++ (if c.replacement_price ==ℤ pos 0
        then []
        else record {
          price = c.replacement_price;
          new_qty = c.replacement_qty;
          delta_qty = c.replacement_qty;
          is_bid = is_bid;
          was_in_view = false;
          in_ofi_view = true;
          kind = secondary kind;
        }
          ∷ [])

-- One side of `applyLevelChange`: the ladder and the view after it, and the deltas it emits.
pub record Change : Type 0 where
  pub ladder : PriceLadder
  pub view : List Level
  pub deltas : List LevelDelta

-- The part after `ladder.set`: `l` is the new ladder, `w` the view (rebuilt after a recenter).
unfoldable pub follow : Bool → ℕ → PriceLadder → List Level → ℤ → ℤ → ℤ → EventKind → Change
follow is_bid depth l w price new_qty prev_qty kind =
    let delta = new_qty -ℤ prev_qty in
    let (w', change) = update_ofi_view is_bid depth l w price new_qty in
    if delta ==ℤ pos 0 then record { ladder = l; view = w; deltas = [] } else record {
      ladder = l;
      view = w';
      deltas =
          record {
            price = price;
            new_qty = new_qty;
            delta_qty = delta;
            is_bid = is_bid;
            was_in_view = has_price w price;
            in_ofi_view = has_price w' price;
            kind = kind;
          }
          ∷ secondary_delta is_bid kind change;
    }

unfoldable pub change_side : Bool → ℕ → PriceLadder → List Level → ℤ → ℤ → EventKind → Change
unfolding follow
change_side is_bid depth l w price new_qty kind =
    let prev_qty = PriceLadder.get_level l price in
    let (l', recentered) = PriceLadder.set_level l price new_qty in
    if ltb 0 l.count && not (PriceLadder.in_range l price) && is_deep is_bid l price
    then record { ladder = l; view = w; deltas = [] }
    else follow is_bid depth l' (if recentered then rebuild_ofi_side is_bid depth l' else w) price
        new_qty prev_qty kind

-- `applyLevelChange`: the book after it, and what it appends to `out`.
unfoldable pub apply_level_change :
    OrderBook → ℤ → ℤ → Bool → EventKind → OrderBook × List LevelDelta
unfolding change_side
apply_level_change b price new_qty is_bid kind =
    let c = change_side is_bid b.ofi_depth (ladder is_bid b) (view is_bid b) price new_qty kind in
    (with_side is_bid c.ladder c.view b, c.deltas)

unfoldable pub apply_levels :
    OrderBook → List Level → Bool → EventKind → OrderBook × List LevelDelta
apply_levels b [] is_bid kind = (b, [])
apply_levels b ((price, qty) ∷ levels) is_bid kind =
    let (b', deltas) = apply_level_change b price qty is_bid kind in
    let (b'', rest) = apply_levels b' levels is_bid kind in (b'', deltas ++ rest)

-- `applyUpdateCore`, which both overloads of `applyUpdate` end in.
unfoldable pub apply_update :
    OrderBook → ℤ → ℤ → List Level → List Level → EventKind → OrderBook × UpdateResult
apply_update b first_id last_id asks bids kind =
    let (b', ask_deltas) = apply_levels b asks false kind in
    let (b'', bid_deltas) = apply_levels b' bids true kind in
    if leb_ℤ last_id b.last_update_id
    then (b, record { success = true; deltas = [] })
    else if ltb_ℤ (b.last_update_id +ℤ pos 1) first_id
    then (b, record { success = false; deltas = [] })
    else (
      record b'' { last_update_id = last_id },
      record { success = true; deltas = ask_deltas ++ bid_deltas },
    )

-- `applyDelta` on the parsed levels: bids first, then asks.
unfoldable pub apply_delta :
    OrderBook → List Level → List Level → EventKind → OrderBook × List LevelDelta
apply_delta b bids asks kind =
    let (b', bid_deltas) = apply_levels b bids true kind in
    let (b'', ask_deltas) = apply_levels b' asks false kind in (b'', bid_deltas ++ ask_deltas)

-- `for (p, q : levels) if (inRange(p) || !activeCount()) set(p, q)`
unfoldable pub load : PriceLadder → List Level → PriceLadder
load l [] = l
load l ((price, qty) ∷ levels) =
    load
      (if PriceLadder.in_range l price || (l.count == 0)
        then (PriceLadder.set_level l price qty).0
        else l)
      levels

-- The levels that `applySnapshot` keeps.
unfoldable pub positive_levels : List Level → List Level
positive_levels [] = []
positive_levels ((price, qty) ∷ levels) =
    let rest = positive_levels levels in if ltb_ℤ (pos 0) qty then (price, qty) ∷ rest else rest

unfoldable pub apply_snapshot : OrderBook → ℤ → List Level → List Level → OrderBook
unfolding load positive_levels
apply_snapshot b new_id asks bids =
    let bid_ladder' = load (PriceLadder.clear b.bid_ladder) (positive_levels bids) in
    let ask_ladder' = load (PriceLadder.clear b.ask_ladder) (positive_levels asks) in
    record {
      last_update_id = new_id;
      snapshot_applied = true;
      ofi_depth = b.ofi_depth;
      bid_ladder = bid_ladder';
      ask_ladder = ask_ladder';
      ofi_bids = rebuild_ofi_side true b.ofi_depth bid_ladder';
      ofi_asks = rebuild_ofi_side false b.ofi_depth ask_ladder';
    }

unfoldable pub clear : OrderBook → OrderBook
clear b = record {
  last_update_id = pos 0;
  snapshot_applied = false;
  ofi_depth = b.ofi_depth;
  bid_ladder = PriceLadder.clear b.bid_ladder;
  ask_ladder = PriceLadder.clear b.ask_ladder;
  ofi_bids = [];
  ofi_asks = [];
}

-- The prices of `Stats` before they are divided by 10 ^ 8; 0 where the view is empty.
pub record Stats : Type 0 where
  pub asks_count : ℕ
  pub bids_count : ℕ
  pub best_ask : ℤ
  pub best_bid : ℤ

abbrev pub front_price : List Level → ℤ
front_price [] = pos 0
front_price (x ∷ xs) = x.0

unfoldable pub get_stats : OrderBook → Stats
get_stats b = record {
  asks_count = b.ask_ladder.count;
  bids_count = b.bid_ladder.count;
  best_ask = front_price b.ofi_asks;
  best_bid = front_price b.ofi_bids;
}

pub record Snapshot : Type 0 where
  pub applied : Bool
  pub asks : List Level
  pub bids : List Level

unfoldable pub get_snapshot : OrderBook → Snapshot
get_snapshot b =
    if b.snapshot_applied
    then record {
      applied = true;
      asks = PriceLadder.for_each b.ask_ladder;
      bids = reverse (PriceLadder.for_each b.bid_ladder);
    }
    else record { applied = false; asks = []; bids = [] }
