-- ===== src/OrderBook/Parse.antt =====
-- The overloads of src/order_book.cpp that take a JSON message, given by its fields: the update ids
-- and the levels as pairs of texts. All texts are read before the mutex is taken, so a text that
-- `parseDecimal` refuses throws and leaves the book as it was.
use lob.Prelude.{Bytes, List, [], ◌∷◌, Result, ok, ◌>>=◌}
use lob.Prelude.Int.{ℤ}
use lob.Decimal.{parse_decimal}
use lob.OfiTypes.{EventKind, LevelDelta, UpdateResult}
use lob.OfiView.{Level}
use lob.OrderBook.{OrderBook, apply_snapshot, apply_update, apply_delta}

-- `["price", "qty"]` pairs.
abbrev pub TextLevels : Type 0
TextLevels = List (Bytes × Bytes)

unfoldable pub parse_level : Bytes × Bytes → Result Level
parse_level (price, qty) = parse_decimal price >>= λ p. parse_decimal qty >>= λ q. ok (p, q)

unfoldable pub parse_levels : TextLevels → Result (List Level)
unfolding parse_level
parse_levels [] = ok []
parse_levels (t ∷ texts) =
    parse_level t >>= λ level. parse_levels texts >>= λ levels. ok (level ∷ levels)

unfoldable pub apply_snapshot_message : OrderBook → ℤ → TextLevels → TextLevels → Result OrderBook
unfolding parse_levels
apply_snapshot_message b new_id ask_texts bid_texts = parse_levels ask_texts >>= λ asks.
    parse_levels bid_texts >>= λ bids. ok (apply_snapshot b new_id asks bids)

unfoldable pub apply_update_message :
    OrderBook → ℤ → ℤ → TextLevels → TextLevels → EventKind → Result (OrderBook × UpdateResult)
unfolding parse_levels
apply_update_message b first_id last_id ask_texts bid_texts kind =
    parse_levels ask_texts >>= λ asks.
    parse_levels bid_texts >>= λ bids. ok (apply_update b first_id last_id asks bids kind)

unfoldable pub apply_delta_message :
    OrderBook → TextLevels → TextLevels → EventKind → Result (OrderBook × List LevelDelta)
unfolding parse_levels
apply_delta_message b bid_texts ask_texts kind = parse_levels bid_texts >>= λ bids.
    parse_levels ask_texts >>= λ asks. ok (apply_delta b bids asks kind)
