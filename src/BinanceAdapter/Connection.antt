-- ===== src/BinanceAdapter/Connection.antt =====
-- src/binance_adapter.hpp and src/binance_adapter.cpp: the adapter over all its symbols: the events
-- of the WebSocket, the resync queue and the watchdog.
use lob.Prelude.{
  Bool, true, false, List, [], ◌∷◌, ◌++◌, Option, none, some, if◌then◌else◌, Bytes, to_upper, ◌==◌,
}
use lob.Prelude.Int.{ℤ, pos, ◌-ℤ◌, ltb_ℤ, ◌==ℤ◌}
use lob.Prelude.Maps.{lookup, assign, modify}
use lob.OfiTypes.{LevelDelta}
use lob.BinanceAdapter.{
  DepthMessage, Feed, Clock, Outcome, missed_updates, updated, receive, reset_feed, HttpResponse,
  fetch_and_apply_snapshot,
}

pub record BinanceAdapter : Type 0 where
  pub ws_connected : Bool
  pub last_connection_activity_ms : ℤ
  pub subscribed_symbols : List Bytes
  pub binance_to_canonical : List (Bytes × Bytes)
  pub feeds : List (Bytes × Feed)
  pub resync_queue : List Bytes

-- What the WebSocket library reports; `malformed` is a message that the JSON libraries refuse.
pub data Frame : Type 0 where
  opened closed failed ping pong fragment malformed : Frame
  message : (stream : Bytes) → DepthMessage → Frame

-- The update callback's arguments.
pub record Update : Type 0 where
  pub symbol : Bytes
  pub deltas : List LevelDelta
  pub event_time : ℤ

-- `streamToSymbol`: what stands before the first '@', in upper case.
abbrev pub before_at : Bytes → Bytes
before_at [] = []
before_at (c ∷ stream) = if c == b'@' then [] else c ∷ before_at stream

unfoldable pub stream_to_symbol : Bytes → Bytes
stream_to_symbol stream = to_upper (before_at stream)

-- Whether a frame refreshes the activity timestamp.
abbrev pub is_traffic : Frame → Bool
is_traffic opened = true
is_traffic (message stream msg) = true
is_traffic malformed = true
is_traffic _ = false

abbrev pub touch : Clock → Frame → BinanceAdapter → BinanceAdapter
touch clock frame a =
    if is_traffic frame then record a { last_connection_activity_ms = clock.steady_ms } else a

abbrev pub reset_feeds : List Bytes → List (Bytes × Feed) → List (Bytes × Feed)
reset_feeds [] feeds = feeds
reset_feeds (sym ∷ symbols) feeds = reset_feeds symbols (modify reset_feed sym feeds)

-- The first `Open`, and one on a reconnect.
unfoldable pub on_open : BinanceAdapter → BinanceAdapter
on_open a =
    if a.ws_connected
    then record a {
      feeds = reset_feeds a.subscribed_symbols a.feeds;
      resync_queue = a.resync_queue ++ a.subscribed_symbols;
    }
    else record a { ws_connected = true }

abbrev pub queue_resync : Outcome → Bytes → List Bytes → List Bytes
queue_resync missed_updates sym queue = queue ++ sym ∷ []
queue_resync _ sym queue = queue

abbrev pub publish : Outcome → Bytes → DepthMessage → List Update
publish (updated deltas) sym msg =
    record { symbol = sym; deltas = deltas; event_time = msg.event_time } ∷ []
publish _ sym msg = []

abbrev pub on_feed :
    Clock → DepthMessage → Bytes → Option Feed → BinanceAdapter → BinanceAdapter × List Update
on_feed clock msg sym none a = (a, [])
on_feed clock msg sym (some f) a =
    let (f', outcome) = receive clock msg f in
    (
      record a {
        feeds = assign sym f' a.feeds;
        resync_queue = queue_resync outcome sym a.resync_queue;
      },
      publish outcome sym msg,
    )

abbrev pub on_symbol :
    Clock → DepthMessage → Option Bytes → BinanceAdapter → BinanceAdapter × List Update
on_symbol clock msg none a = (a, [])
on_symbol clock msg (some sym) a = on_feed clock msg sym (lookup a.feeds sym) a

abbrev pub on_frame : Clock → Frame → BinanceAdapter → BinanceAdapter × List Update
on_frame clock opened a = (on_open a, [])
on_frame clock (message stream msg) a =
    on_symbol clock msg (lookup a.binance_to_canonical (stream_to_symbol stream)) a
on_frame clock _ a = (a, [])

-- `handleWsMessage`: the adapter after it, and the calls of the update callback.
unfoldable pub handle_ws_message : Clock → Frame → BinanceAdapter → BinanceAdapter × List Update
unfolding stream_to_symbol on_open
handle_ws_message clock frame a = on_frame clock frame (touch clock frame a)

-- `runResyncWorker`: the symbol that it takes from the queue, and one attempt for it.
abbrev pub take_first : List Bytes → BinanceAdapter → BinanceAdapter × Option Bytes
take_first [] a = (a, none)
take_first (sym ∷ queue) a = (record a { resync_queue = queue }, some sym)

unfoldable pub take_resync : BinanceAdapter → BinanceAdapter × Option Bytes
take_resync a = take_first a.resync_queue a

abbrev pub fetch_feed : HttpResponse → Bytes → Option Feed → BinanceAdapter → BinanceAdapter × Bool
fetch_feed response sym none a = (a, false)
fetch_feed response sym (some f) a =
    let (f', ok) = fetch_and_apply_snapshot response f in
    (record a { feeds = assign sym f' a.feeds }, ok)

unfoldable pub fetch_symbol : HttpResponse → Bytes → BinanceAdapter → BinanceAdapter × Bool
fetch_symbol response sym a = fetch_feed response sym (lookup a.feeds sym) a

abbrev pub stale_threshold_ms : ℤ
stale_threshold_ms = pos 2000

-- One round of `runWatchdog`, and whether it restarts the WebSocket.
unfoldable pub watchdog : ℤ → BinanceAdapter → BinanceAdapter × Bool
watchdog now a =
    if a.last_connection_activity_ms ==ℤ pos 0
    then (a, false)
    else if ltb_ℤ stale_threshold_ms (now -ℤ a.last_connection_activity_ms)
    then (record a { last_connection_activity_ms = pos 0 }, true)
    else (a, false)
