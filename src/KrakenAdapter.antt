-- ===== src/KrakenAdapter.antt =====
-- src/kraken_adapter.hpp and src/kraken_adapter.cpp: the books of Kraken, kept from the snapshots and
-- updates of its book channel. A frame of the WebSocket library, with its text parsed as JSON if it is,
-- and the clocks are arguments; the text of a double and `isoTimestampToMs` are the parameter `Texts`.
-- The maps `books_` and `metricsMap_` have the same keys after `start` and are one map here. A key that
-- is missing throws (for "bids" and "asks" the library asserts that it is there).
pub mod Startup
pub mod Coverage
pub mod Reachable
use lob.Prelude.{
  ℕ, Bool, true, false, not, ◌&&◌, List, [], ◌∷◌, ◌++◌, Option, none, some, if◌then◌else◌, Bytes,
  codes, same_text, Result, ok, err, runtime_error, ◌>>=◌,
}
use lob.Prelude.Int.{ℤ, pos, ◌-ℤ◌, ltb_ℤ, ◌==ℤ◌}
use lob.Prelude.Maps.{lookup, assign, modify, remove_text, add_text}
use lob.OfiTypes.{genuine, LevelDelta}
use lob.OrderBook
use lob.OrderBook.{OrderBook}
use lob.OrderBook.Parse.{TextLevels, apply_snapshot_message, apply_delta_message}
use lob.SymbolNormalizer.{SymbolNormalizer, to_canonical}
use lob.Metrics.{Metrics}
use lob.Json.{Json, boolean, text, member, range, as_array, as_text}
use lob.KrakenUtils.{levels_to_string_pairs}
use lob.BinanceAdapter.{Clock, count_message}
use lob.BinanceAdapter.Connection.{Update}

pub record Texts : Type 0 where
  pub format : Json → Result Bytes
  pub iso_timestamp_to_ms : Bytes → ℤ

-- The state of one symbol.
pub record KrakenFeed : Type 0 where
  pub book : OrderBook
  pub metrics : Metrics

pub record KrakenAdapter : Type 0 where
  pub normalizer : SymbolNormalizer
  pub ws_connected : Bool
  pub last_connection_activity_ms : ℤ
  pub pending_snapshots : List Bytes
  pub subscribe_error : Bool
  pub snapshot_depth : ℕ
  pub kraken_symbols : List Bytes
  pub subscribed_symbols : List Bytes
  pub feeds : List (Bytes × KrakenFeed)

-- `get<std::string>()`
abbrev pub get_text : Option Json → Result Bytes
get_text (some (text s)) = ok s
get_text _ = err runtime_error

abbrev pub pairs_of : Texts → Option Json → Result TextLevels
pairs_of texts none = err runtime_error
pairs_of texts (some levels) = levels_to_string_pairs texts.format (range levels)

-- The "bids" and "asks" of an item.
unfoldable pub sides : Texts → Json → Result (TextLevels × TextLevels)
sides texts item = pairs_of texts (member item (codes "bids")) >>= λ bids.
    pairs_of texts (member item (codes "asks")) >>= λ asks. ok (bids, asks)

abbrev pub canonical_of : KrakenAdapter → Bytes → Option Bytes
canonical_of a sym = to_canonical a.normalizer (codes "kraken") sym

abbrev pub stamp : Clock → Metrics → Metrics
stamp clock m = record m { last_update_time_ms = clock.steady_ms }

unfoldable pub snapshot_feed :
    Texts → Clock → Json → Bytes → Option KrakenFeed → KrakenAdapter → Result KrakenAdapter
unfolding sides
snapshot_feed texts clock item sym none a = ok a
snapshot_feed texts clock item sym (some f) a = sides texts item >>= λ levels.
    apply_snapshot_message f.book (pos 0) levels.1 levels.0 >>= λ book. ok (record a {
      feeds = assign sym (record { book = book; metrics = stamp clock f.metrics }) a.feeds;
      pending_snapshots = remove_text sym a.pending_snapshots;
    })

abbrev pub snapshot_symbol :
    Texts → Clock → Json → Option Bytes → KrakenAdapter → Result KrakenAdapter
snapshot_symbol texts clock item none a = ok a
snapshot_symbol texts clock item (some sym) a =
    snapshot_feed texts clock item sym (lookup a.feeds sym) a

unfoldable pub handle_book_snapshot : Texts → Clock → Json → KrakenAdapter → Result KrakenAdapter
unfolding snapshot_feed
handle_book_snapshot texts clock item a = get_text (member item (codes "symbol")) >>= λ sym.
    snapshot_symbol texts clock item (canonical_of a sym) a

-- The time of an update, 0 if it has none.
abbrev pub event_ms : Texts → Option Json → ℤ
event_ms texts (some (text s)) = texts.iso_timestamp_to_ms s
event_ms texts _ = pos 0

abbrev pub lag : Clock → ℤ → Metrics → Metrics
lag clock event m =
    if ltb_ℤ (pos 0) event then record m { last_event_lag_ms = clock.system_ms -ℤ event } else m

abbrev pub apply_item :
    Texts → Clock → Json → Bytes → KrakenFeed → KrakenAdapter → Result (KrakenAdapter × List Update)
apply_item texts clock item sym f a = sides texts item >>= λ levels.
    apply_delta_message f.book levels.0 levels.1 genuine >>= λ r.
    let event = event_ms texts (member item (codes "timestamp")) in
    ok (
      record a {
        feeds =
            assign sym
              (record { book = r.0; metrics = count_message clock (lag clock event f.metrics) })
              a.feeds;
      },
      record { symbol = sym; deltas = r.1; event_time = event } ∷ [],
    )

unfoldable pub update_feed :
    Texts
    → Clock
    → Json
    → Bytes
    → Option KrakenFeed
    → KrakenAdapter
    → Result (KrakenAdapter × List Update)
unfolding sides
update_feed texts clock item sym none a = ok (a, [])
update_feed texts clock item sym (some f) a =
    if f.book.snapshot_applied then apply_item texts clock item sym f a else ok (a, [])

abbrev pub update_symbol :
    Texts → Clock → Json → Option Bytes → KrakenAdapter → Result (KrakenAdapter × List Update)
update_symbol texts clock item none a = ok (a, [])
update_symbol texts clock item (some sym) a =
    update_feed texts clock item sym (lookup a.feeds sym) a

unfoldable pub handle_book_update :
    Texts → Clock → Json → KrakenAdapter → Result (KrakenAdapter × List Update)
unfolding update_feed
handle_book_update texts clock item a = get_text (member item (codes "symbol")) >>= λ sym.
    update_symbol texts clock item (canonical_of a sym) a

abbrev pub no_updates : Result KrakenAdapter → Result (KrakenAdapter × List Update)
no_updates (ok a) = ok (a, [])
no_updates (err e) = err e

unfoldable pub handle_item :
    Texts → Clock → Bytes → Json → KrakenAdapter → Result (KrakenAdapter × List Update)
unfolding handle_book_snapshot handle_book_update
handle_item texts clock type item a =
    if same_text type (codes "snapshot")
    then no_updates (handle_book_snapshot texts clock item a)
    else if same_text type (codes "update")
    then handle_book_update texts clock item a
    else ok (a, [])

-- The loop over "data"; an item that throws ends it.
abbrev pub after_item :
    (KrakenAdapter → KrakenAdapter × List Update)
    → KrakenAdapter
    → Result (KrakenAdapter × List Update)
    → KrakenAdapter × List Update
after_item rest a (err e) = (a, [])
after_item rest a (ok (a', updates)) = let (a'', more) = rest a' in (a'', updates ++ more)

unfoldable pub handle_items :
    Texts → Clock → Bytes → List Json → KrakenAdapter → KrakenAdapter × List Update
unfolding handle_item
handle_items texts clock type [] a = (a, [])
handle_items texts clock type (item ∷ items) a =
    after_item (λ b. handle_items texts clock type items b) a (handle_item texts clock type item a)

-- What a subscribe acknowledgement says: success, a failure, or a value that throws.
abbrev pub ack_success : Option Json → Result Bool
ack_success none = ok true
ack_success (some (boolean b)) = ok b
ack_success (some _) = err runtime_error

abbrev pub ack_error : Option Json → Result Bool
ack_error none = ok true
ack_error (some (text s)) = ok true
ack_error (some _) = err runtime_error

abbrev pub result_symbol : Option Json → Option Json
result_symbol none = none
result_symbol (some result) = member result (codes "symbol")

abbrev pub fail_all : KrakenAdapter → KrakenAdapter
fail_all a = record a { subscribe_error = true; pending_snapshots = [] }

abbrev pub fail_symbol : Option Bytes → KrakenAdapter → KrakenAdapter
fail_symbol none a = fail_all a
fail_symbol (some sym) a = record a { pending_snapshots = remove_text sym a.pending_snapshots }

abbrev pub on_failure : Option Json → KrakenAdapter → KrakenAdapter
on_failure none a = fail_all a
on_failure (some (text s)) a = fail_symbol (canonical_of a s) a
on_failure (some _) a = a

abbrev pub on_error : Json → Result Bool → KrakenAdapter → KrakenAdapter
on_error j (err e) a = a
on_error j (ok known) a = on_failure (result_symbol (member j (codes "result"))) a

abbrev pub on_ack : Json → Result Bool → KrakenAdapter → KrakenAdapter
on_ack j (err e) a = a
on_ack j (ok true) a = a
on_ack j (ok false) a = on_error j (ack_error (member j (codes "error"))) a

abbrev pub is_text : Option Json → Bytes → Bool
is_text (some (text s)) t = same_text s t
is_text _ t = false

abbrev pub on_data :
    Texts → Clock → Option Bytes → Option (List Json) → KrakenAdapter → KrakenAdapter × List Update
on_data texts clock (some type) (some items) a = handle_items texts clock type items a
on_data texts clock (some type) none a = (a, [])
on_data texts clock none items a = (a, [])

unfoldable pub on_json : Texts → Clock → Json → KrakenAdapter → KrakenAdapter × List Update
unfolding handle_items
on_json texts clock j a =
    if is_text (member j (codes "method")) (codes "subscribe")
    then (on_ack j (ack_success (member j (codes "success"))) a, [])
    else if is_text (member j (codes "channel")) (codes "book")
    then on_data texts clock (as_text (member j (codes "type")))
        (as_array (member j (codes "data"))) a
    else (a, [])

-- What the WebSocket library reports, a message as the JSON that it parses to, if it does.
pub data Frame : Type 0 where
  opened closed failed other : Frame
  message : Option Json → Frame

abbrev pub is_traffic : Frame → Bool
is_traffic opened = true
is_traffic (message j) = true
is_traffic _ = false

abbrev pub touch : Clock → Frame → KrakenAdapter → KrakenAdapter
touch clock frame a =
    if is_traffic frame then record a { last_connection_activity_ms = clock.steady_ms } else a

-- A symbol on a reconnect: the OFI accumulator stays.
unfoldable pub stale_feed : KrakenFeed → KrakenFeed
stale_feed f = record {
  book = OrderBook.clear f.book;
  metrics = record f.metrics { last_update_time_ms = pos 0 };
}

abbrev pub stale_feeds : List Bytes → List (Bytes × KrakenFeed) → List (Bytes × KrakenFeed)
stale_feeds [] feeds = feeds
stale_feeds (sym ∷ symbols) feeds = stale_feeds symbols (modify stale_feed sym feeds)

abbrev pub add_all : List Bytes → List Bytes → List Bytes
add_all [] pending = pending
add_all (sym ∷ symbols) pending = add_all symbols (add_text sym pending)

unfoldable pub on_open : KrakenAdapter → KrakenAdapter
unfolding stale_feed
on_open a =
    if a.ws_connected
    then record a {
      feeds = stale_feeds a.subscribed_symbols a.feeds;
      subscribe_error = false;
      pending_snapshots = add_all a.subscribed_symbols [];
    }
    else record a { ws_connected = true }

abbrev pub on_frame : Texts → Clock → Frame → KrakenAdapter → KrakenAdapter × List Update
on_frame texts clock opened a = (on_open a, [])
on_frame texts clock (message (some j)) a = on_json texts clock j a
on_frame texts clock (message none) a = (a, [])
on_frame texts clock _ a = (a, [])

-- `handleWsMessage`: the adapter after it, and the calls of the update callback.
unfoldable pub handle_ws_message :
    Texts → Clock → Frame → KrakenAdapter → KrakenAdapter × List Update
unfolding on_open on_json
handle_ws_message texts clock frame a = on_frame texts clock frame (touch clock frame a)

-- One round of `runWatchdog`, and whether it restarts the WebSocket.
unfoldable pub watchdog : ℤ → KrakenAdapter → KrakenAdapter × Bool
watchdog now a =
    if a.last_connection_activity_ms ==ℤ pos 0
    then (a, false)
    else if ltb_ℤ (pos 2000) (now -ℤ a.last_connection_activity_ms)
    then (record a { last_connection_activity_ms = pos 0 }, true)
    else (a, false)
