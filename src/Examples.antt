-- ===== src/Examples.antt =====
-- The theorems of the library at concrete inputs: a ladder of seven ticks of 10 around the price
-- 107, and a book with an OFI depth of 2.
mod Server
mod Feeds
mod Settings
mod Kraken
use lob.Prelude.{
  All, length, false, ◌≡◌, refl, true, arith, [], ◌∷◌, some, ok, err, overflow_error, Bytes, codes,
  same_text,
}
use lob.Prelude.Int.{pos, ◌+ℤ◌, ◌-ℤ◌, ◌*ℤ◌, ◌/ℤ◌, ◌<ℤ◌, llong_max, llong_min}
use lob.PriceLadder
use lob.PriceLadder.{
  PriceLadder, empty_ladder, get_level, set_level, in_range, prev_below, next_above, best_high,
  best_low,
}
use lob.PriceLadder.Scan.{scan_down, scan_up}
use lob.PriceLadder.Invariant.{IsValid, empty_ladder-IsValid, Made, make-Made}
use lob.PriceLadder.Lookup.{set_level-IsValid, get-set_level, get-set_level_self}
use lob.PriceLadder.Neighbours.{HighestWith, LowestWith, prev_below_lem, next_above_lem}
use lob.Decimal.{parse_decimal}
use lob.Decimal.Numerals.{parse_decimal-numeral}
use lob.SubscriberProtocol.{format_scaled, parse_stream}
use lob.SubscriberProtocol.Format.{parse-format_scaled}
use lob.SubscriberProtocol.Stream.{parse_stream_lem}
use lob.SymbolNormalizer.{
  default_normalizer, to_canonical, from_canonical, add, starts_with, find, auto_canonical,
  split_quote,
}
use lob.SymbolNormalizer.RoundTrip.{from-to_canonical_binance, from-to_canonical_kraken, add-lookup}
use lob.OfiTypes.{genuine}
use lob.OfiView.{rebuild_ofi_side}
use lob.OfiView.Top.{IsTop}
use lob.OfiView.Update.{rebuild_ofi_side-IsTop}
use lob.OfiView.Source.{ladder-LevelSource}
use lob.PriceLadder.Neighbours.{IsLevel}
use lob.OrderBook.{OrderBook, make, apply_snapshot, apply_update, get_stats, change_side}
use lob.OfiView.Totals.{total}
use lob.Main.OfiSum.{ofi_sum}
use lob.Main.ViewChange.{signed, change_side-total}
use lob.OrderBook.Valid.{BookValid}
use lob.OrderBook.Session.{
  Reachable, made, snapshot, update, reachable-BookValid, Follows, apply_update-Follows,
  apply_update-again,
}
use lob.OrderBook.Best.{get_stats-best}
use lob.OfiView.Order.{IsSorted}
use lob.OrderBook.Visit.{for_each_lem}
use lob.SafeArithmetic.{
  safe_multiply, safe_add, safe_subtract, checked_add, checked_subtract, checked_multiply,
}
use lob.SafeArithmetic.Exact.{
  safe_multiply_lem, safe_add_lem, safe_subtract_lem, checked_add_lem, checked_subtract_lem,
  checked_multiply_lem,
}

abbrev empty : PriceLadder
empty = empty_ladder 10 3

abbrev one_level : PriceLadder
one_level = (set_level empty (pos 107) (pos 5)).0

abbrev two_levels : PriceLadder
two_levels = (set_level one_level (pos 120) (pos 8)).0

abbrev one_level_valid : IsValid one_level
one_level_valid = set_level-IsValid (empty_ladder-IsValid 10 3 (omega arith)) 107 (pos 5) refl

abbrev two_levels_valid : IsValid two_levels
two_levels_valid = set_level-IsValid one_level_valid 120 (pos 8) refl

set_level-IsValid_example : IsValid (set_level two_levels (pos 160) (pos 3)).0
set_level-IsValid_example = set_level-IsValid two_levels_valid 160 (pos 3) refl

get-set_level_example : get_level (set_level two_levels (pos 101) (pos 9)).0 (pos 125) ≡ pos 8
unfolding set_level in_range get_level PriceLadder.store PriceLadder.init_center ◌-ℤ◌
    PriceLadder.centred ◌*ℤ◌ ◌/ℤ◌ PriceLadder.to_idx
get-set_level_example = get-set_level two_levels_valid 101 (pos 9) refl 125

-- A price far above moves the window.

prev_below_lem_example : HighestWith two_levels (λ p. p <ℤ pos 120) (pos 100)
unfolding prev_below set_level in_range scan_down PriceLadder.to_price ◌+ℤ◌ PriceLadder.store
    PriceLadder.init_center ◌-ℤ◌ PriceLadder.centred ◌*ℤ◌ ◌/ℤ◌ PriceLadder.to_idx
prev_below_lem_example = prev_below_lem two_levels_valid (pos 120)

next_above_lem_example : LowestWith two_levels (λ p. pos 100 <ℤ p) (pos 120)
unfolding next_above set_level in_range scan_up PriceLadder.to_price ◌+ℤ◌ PriceLadder.store
    PriceLadder.init_center ◌-ℤ◌ PriceLadder.centred ◌*ℤ◌ ◌/ℤ◌ PriceLadder.to_idx
next_above_lem_example = next_above_lem two_levels_valid (pos 100)

for_each_lem_example :
    (length (PriceLadder.for_each two_levels) ≡ two_levels.count)
    × IsSorted false (PriceLadder.for_each two_levels)
    × All
        (λ e. IsLevel two_levels e.0 × (e.1 ≡ get_level two_levels e.0))
        (PriceLadder.for_each two_levels)
for_each_lem_example = for_each_lem two_levels_valid

make-Made_example : Made (pos 10) (pos 3) (PriceLadder.make (pos 10) (pos 3))
make-Made_example = make-Made (pos 10) (pos 3)

-- Two levels on each side, then an update that adds a better bid.
abbrev pub book : OrderBook
book =
    apply_snapshot (make 2 empty) (pos 7) ((pos 110, pos 4) ∷ (pos 120, pos 6) ∷ [])
      ((pos 100, pos 5) ∷ (pos 80, pos 2) ∷ [])

abbrev book_reachable : Reachable 10 2 3 book
book_reachable =
    snapshot made (pos 7) ((pos 110, pos 4) ∷ (pos 120, pos 6) ∷ [])
      ((pos 100, pos 5) ∷ (pos 80, pos 2) ∷ [])
      ((110, refl, omega arith, refl, refl), ((120, refl, omega arith, refl, refl), tt))
      ((100, refl, omega arith, refl, refl), ((80, refl, omega arith, refl, refl), tt))

reachable-BookValid_example :
    BookValid 10 (apply_update book (pos 8) (pos 9) [] ((pos 90, pos 1) ∷ []) genuine).0
reachable-BookValid_example = reachable-BookValid 10 2 3 (omega arith) (
    update book_reachable (pos 8) (pos 9) [] ((pos 90, pos 1) ∷ []) genuine tt
      ((90, refl, omega arith, refl, refl), tt))

apply_update-Follows_example :
    Follows book
      (pos 8)
      (pos 9)
      (apply_update book (pos 8) (pos 9) [] ((pos 90, pos 1) ∷ []) genuine)
apply_update-Follows_example =
    apply_update-Follows book (pos 8) (pos 9) [] ((pos 90, pos 1) ∷ []) genuine

apply_update-again_example :
    let b' = (apply_update book (pos 8) (pos 9) [] ((pos 90, pos 1) ∷ []) genuine).0 in
    (apply_update b' (pos 8) (pos 9) [] ((pos 90, pos 1) ∷ []) genuine).0 ≡ b'
apply_update-again_example =
    apply_update-again book (pos 8) (pos 9) [] ((pos 90, pos 1) ∷ []) genuine

abbrev book_valid : BookValid 10 book
book_valid = reachable-BookValid 10 2 3 (omega arith) book_reachable

change_side-total_example :
    let c = change_side true 2 book.bid_ladder book.ofi_bids (pos 90) (pos 1) genuine in
    ofi_sum c.deltas ≡ signed true (total c.view -ℤ total book.ofi_bids)
unfolding apply_snapshot make in_range PriceLadder.clear set_level PriceLadder.store
    PriceLadder.init_center ◌-ℤ◌ PriceLadder.centred ◌*ℤ◌ ◌/ℤ◌
change_side-total_example =
    change_side-total true 2 book_valid.bid_side 90 (pos 1) (omega arith) refl refl refl

get_stats-best_example :
    ((get_stats book).best_bid ≡ best_high book.bid_ladder)
    × ((get_stats book).best_ask ≡ best_low book.ask_ladder)
unfolding apply_snapshot make
get_stats-best_example = get_stats-best 10 book_valid (omega arith)

rebuild_ofi_side-IsTop_example :
    IsTop true
      (IsLevel book.bid_ladder)
      (get_level book.bid_ladder)
      2
      (rebuild_ofi_side true 2 book.bid_ladder)
rebuild_ofi_side-IsTop_example =
    rebuild_ofi_side-IsTop true book.bid_ladder
      (ladder-LevelSource true book_valid.bid_side.valid book_valid.bid_side.positive) 2

safe_multiply_lem_example :
    safe_multiply (pos 92_233_720_368) (pos 100_000_000) ≡ ok (pos 9_223_372_036_800_000_000)
unfolding ◌*ℤ◌
safe_multiply_lem_example = safe_multiply_lem (pos 92_233_720_368) (pos 100_000_000)

safe_add_lem_example : safe_add llong_max (pos 1) ≡ err overflow_error
unfolding ◌+ℤ◌
safe_add_lem_example = safe_add_lem llong_max (pos 1) (omega arith)

parse_decimal-numeral_example : parse_decimal (codes "102.5") ≡ ok (pos 10_250_000_000)
parse_decimal-numeral_example =
    parse_decimal-numeral (codes "102") (codes "5") (refl, (refl, (refl, tt))) (omega arith)
      (refl, tt) (omega arith)

from-to_canonical_binance_example :
    from_canonical default_normalizer (codes "binance") (codes "BTC-USDT") ≡ some (codes "BTCUSDT")
unfolding to_canonical find auto_canonical split_quote same_text
from-to_canonical_binance_example =
    from-to_canonical_binance (codes "BTCUSDT") (codes "BTC-USDT")
      (refl, (refl, (refl, (refl, (refl, (refl, (refl, tt))))))) refl

from-to_canonical_kraken_example :
    (c : Bytes) × (to_canonical default_normalizer (codes "kraken") (codes "ETH/USD") ≡ some c)
    × (from_canonical default_normalizer (codes "kraken") c ≡ some (codes "ETH/USD"))
unfolding starts_with same_text
from-to_canonical_kraken_example =
    from-to_canonical_kraken (codes "ETH/USD")
      (refl, (refl, (refl, (refl, (refl, (refl, (refl, tt))))))) refl

add-lookup_example :
    (to_canonical
        (add default_normalizer (codes "kraken") (codes "XBT/USD") (codes "BTC-USD"))
        (codes "kraken")
        (codes "XBT/USD")
      ≡ some (codes "BTC-USD"))
    × (from_canonical
          (add default_normalizer (codes "kraken") (codes "XBT/USD") (codes "BTC-USD"))
          (codes "kraken")
          (codes "BTC-USD")
        ≡ some (codes "XBT/USD"))
add-lookup_example =
    add-lookup default_normalizer (codes "kraken") (codes "XBT/USD") (codes "BTC-USD")

parse-format_scaled_example :
    parse_decimal (format_scaled (pos 10_250_000_000)) ≡ ok (pos 10_250_000_000)
parse-format_scaled_example = parse-format_scaled 10_250_000_000 (omega arith)

parse_stream_lem_example :
    parse_stream (codes "kraken.BTC-USD.book") ≡ some (codes "kraken", codes "BTC-USD")
parse_stream_lem_example =
    parse_stream_lem (codes "kraken") (codes "BTC-USD")
      (refl, (refl, (refl, (refl, (refl, (refl, tt))))))
      (refl, (refl, (refl, (refl, (refl, (refl, (refl, tt))))))) (omega arith) (omega arith)
