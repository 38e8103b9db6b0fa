-- ===== src/BinanceAdapter.antt =====
-- src/binance_adapter.hpp, src/binance_adapter.cpp and src/binance_utils.hpp: the books of Binance,
-- kept from its depth stream and from REST snapshots. A frame of the WebSocket library, a response of
-- the HTTP library and the clocks are arguments; the JSON libraries have read a message into its
-- fields, and a message that they refuse is `malformed`. The maps `books`, `metricsMap` and
-- `symbolBuffers` have the same keys after `start` (a buffer that is not there is empty), and are one
-- map of `Feed`s here. Each handler, and each fetch from the response on, is one step.
pub mod Fetch
pub mod Live
pub mod Connection
pub mod FeedValid
pub mod Reachable
pub mod Start
pub mod Retry
pub mod Watchdog
use lob.Prelude.{
  ℕ, suc, ◌+◌, ◌-◌, ◌==◌, Bool, true, false, not, ◌&&◌, ◌||◌, List, [], ◌∷◌, ◌++◌, Option, none,
  some, if◌then◌else◌, ltb, Bytes, codes, length, Result, ok, err, ◌>>=◌, map,
}
use lob.Prelude.Int.{ℤ, pos, ◌-ℤ◌, ltb_ℤ, ◌==ℤ◌}
use lob.Prelude.Maps.{lookup, assign, modify}
use lob.OfiTypes.{EventKind, genuine, backfill, LevelDelta, UpdateResult}
use lob.OrderBook
use lob.OrderBook.{OrderBook, apply_update}
use lob.OrderBook.Parse.{TextLevels, parse_levels, apply_snapshot_message, apply_update_message}
use lob.Metrics.{Metrics, record_processing_us}

-- A depth update: the fields "E", "U", "u", "a" and "b".
pub record DepthMessage : Type 0 where
  pub event_time : ℤ
  pub first_id : ℤ
  pub last_id : ℤ
  pub asks : TextLevels
  pub bids : TextLevels

-- The state of one symbol.
pub record Feed : Type 0 where
  pub book : OrderBook
  pub metrics : Metrics
  pub buffer : List DepthMessage

-- The system and the steady clock in ms, and the time that the message took so far in µs.
pub record Clock : Type 0 where
  pub system_ms : ℤ
  pub steady_ms : ℤ
  pub elapsed_us : ℤ

-- What became of a message.
pub data Outcome : Type 0 where
  buffered : Outcome
  message_error : Outcome
  missed_updates : Outcome
  updated : List LevelDelta → Outcome

abbrev pub max_buffered_msgs_per_symbol : ℕ
max_buffered_msgs_per_symbol = 5000

unfoldable pub push_buffered : DepthMessage → List DepthMessage → List DepthMessage
push_buffered msg buffer =
    if ltb (length buffer) max_buffered_msgs_per_symbol then buffer ++ msg ∷ [] else buffer

abbrev pub set_live : Bool → Metrics → Metrics
set_live live m = record m { live_ready = live }

abbrev pub set_lag : Clock → DepthMessage → Metrics → Metrics
set_lag clock msg m = record m { last_event_lag_ms = clock.system_ms -ℤ msg.event_time }

-- `lastUpdateTimeMs`, `ofiAccumulator` and `liveReady` at their first values.
abbrev pub reset_metrics : Metrics → Metrics
reset_metrics m = record m {
  last_update_time_ms = pos 0;
  ofi_accumulator = pos 0;
  live_ready = false;
}

-- Where a feed is thrown away: after missed updates, and on a reconnect.
unfoldable pub reset_feed : Feed → Feed
reset_feed f = record {
  book = OrderBook.clear f.book;
  metrics = reset_metrics f.metrics;
  buffer = [];
}

abbrev pub count_message : Clock → Metrics → Metrics
count_message clock m =
    let m' = record_processing_us m clock.elapsed_us in
    record m' { msg_count = m'.msg_count + 1; last_update_time_ms = clock.steady_ms }

-- The end of both paths, for what `applyUpdate` returned.
unfoldable pub finish : Clock → Feed → OrderBook × UpdateResult → Feed × Outcome
unfolding reset_feed
finish clock f (book, result) =
    if result.success
    then (
      record { book = book; metrics = count_message clock f.metrics; buffer = f.buffer },
      updated result.deltas,
    )
    else (reset_feed (record f { book = book }), missed_updates)

abbrev pub finish_result : Clock → Feed → Result (OrderBook × UpdateResult) → Feed × Outcome
finish_result clock f (err e) = (f, message_error)
finish_result clock f (ok r) = finish clock f r

-- The path of start and resync, by the JSON library that builds a document.
unfoldable pub slow_path : Clock → DepthMessage → Feed → Feed × Outcome
unfolding push_buffered finish
slow_path clock msg f =
    if not f.book.snapshot_applied
    then (record f { buffer = push_buffered msg f.buffer }, buffered)
    else finish_result clock (record f { metrics = set_lag clock msg (set_live true f.metrics) })
        (apply_update_message f.book msg.first_id msg.last_id msg.asks msg.bids genuine)

-- The texts of both sides, bids first; a text that `parseDecimal` refuses throws before anything is
-- changed.
abbrev pub fast_levels : OrderBook → DepthMessage → Result (OrderBook × UpdateResult)
fast_levels book msg = parse_levels msg.bids >>= λ bids. parse_levels msg.asks >>= λ asks.
    ok (apply_update book msg.first_id msg.last_id asks bids genuine)

abbrev pub fast_result :
    Clock → DepthMessage → Feed → Result (OrderBook × UpdateResult) → Feed × Outcome
fast_result clock msg f (err e) = (f, message_error)
fast_result clock msg f (ok r) = finish clock (record f { metrics = set_lag clock msg f.metrics }) r

unfoldable pub fast_path : Clock → DepthMessage → Feed → Feed × Outcome
unfolding finish
fast_path clock msg f = fast_result clock msg f (fast_levels f.book msg)

unfoldable pub receive : Clock → DepthMessage → Feed → Feed × Outcome
unfolding slow_path fast_path
receive clock msg f = if f.metrics.live_ready then fast_path clock msg f else slow_path clock msg f

-- A response of the REST endpoint: its status, the number that `stoi` reads from its Retry-After
-- header, if it does, and the fields of its body, if it is a snapshot.
pub record SnapshotBody : Type 0 where
  pub last_update_id : ℤ
  pub asks : TextLevels
  pub bids : TextLevels

pub record HttpResponse : Type 0 where
  pub status_code : ℕ
  pub retry_after : Option ℤ
  pub body : Option SnapshotBody

-- The loop over the buffered messages: to its end, to one that the book refuses, or to one that throws.
pub data Replay : Type 0 where
  replayed : OrderBook → Replay
  out_of_order : OrderBook → Replay
  snapshot_error : OrderBook → Replay

abbrev pub replay_next :
    (OrderBook → Replay) → OrderBook → Result (OrderBook × UpdateResult) → Replay
replay_next rest book (err e) = snapshot_error book
replay_next rest book (ok (book', result)) =
    if result.success then rest book' else out_of_order book'

unfoldable pub replay : OrderBook → List DepthMessage → Replay
replay book [] = replayed book
replay book (msg ∷ buffer) =
    replay_next (λ b. replay b buffer) book
      (apply_update_message book msg.first_id msg.last_id msg.asks msg.bids backfill)

abbrev pub after_replay : Feed → Replay → Feed × Bool
after_replay f (replayed book) =
    (record { book = book; metrics = set_live true f.metrics; buffer = [] }, true)
after_replay f (out_of_order book) = (record f { book = book; buffer = [] }, false)
after_replay f (snapshot_error book) = (record f { book = book }, false)

abbrev pub after_snapshot : Feed → Result OrderBook → Feed × Bool
after_snapshot f (err e) = (f, false)
after_snapshot f (ok book) = after_replay f (replay book f.buffer)

abbrev pub apply_body : Option SnapshotBody → Feed → Feed × Bool
apply_body none f = (f, false)
apply_body (some body) f =
    after_snapshot f (apply_snapshot_message f.book body.last_update_id body.asks body.bids)

-- `fetchAndApplySnapshot` from the response on.
unfoldable pub fetch_and_apply_snapshot : HttpResponse → Feed → Feed × Bool
unfolding replay
fetch_and_apply_snapshot response f =
    if response.status_code == 200 then apply_body response.body f else (f, false)

-- The seconds that it waits before it returns.
abbrev pub value_or : Option ℤ → ℤ → ℤ
value_or none d = d
value_or (some v) d = v

unfoldable pub wait_seconds : HttpResponse → ℤ
wait_seconds response =
    if response.status_code == 429
    then value_or response.retry_after (pos 60)
    else if response.status_code == 418
    then pos 120
    else pos 0
