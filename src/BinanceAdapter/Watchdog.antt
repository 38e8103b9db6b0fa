-- ===== src/BinanceAdapter/Watchdog.antt =====
-- src/binance_adapter.cpp: `runWatchdog` against the frames that arrive.
use mathlib.Core.Bool.{false≢true}
use lob.Prelude.{
  sym, Option, none, some, Bytes, ◌≡◌, refl, Bool, true, false, not, ◌&&◌, List, [], ◌∷◌, arith,
  inl, inr, Bool-cases,
}
use lob.Prelude.Int.{ℤ, pos, ◌==ℤ◌, ◌-ℤ◌, ltb_ℤ}
use lob.Prelude.Maps.{lookup}
use lob.OrderBook.Side.{if_two}
use lob.BinanceAdapter.{Clock, DepthMessage, Feed}
use lob.BinanceAdapter.Connection.{
  BinanceAdapter, Frame, opened, closed, failed, ping, pong, fragment, malformed, message,
  is_traffic, on_feed, on_symbol, on_open, stream_to_symbol, handle_ws_message, watchdog,
  stale_threshold_ms,
}

-- The adapter after some frames.
unfoldable pub handle_all : List (Clock × Frame) → BinanceAdapter → BinanceAdapter
handle_all [] a = a
handle_all ((clock, frame) ∷ frames) a = handle_all frames (handle_ws_message clock frame a).0

unfoldable pub all_quiet : List (Clock × Frame) → Bool
all_quiet [] = true
all_quiet ((clock, frame) ∷ frames) = not (is_traffic frame) && all_quiet frames

handle-quiet :
    (clock : Clock) (frame : Frame) (a : BinanceAdapter)
    → is_traffic frame ≡ false
    → (handle_ws_message clock frame a).0 ≡ a
unfolding handle_ws_message
handle-quiet clock opened a h = absurd (false≢true (sym h))
handle-quiet clock closed a h = refl
handle-quiet clock failed a h = refl
handle-quiet clock ping a h = refl
handle-quiet clock pong a h = refl
handle-quiet clock fragment a h = refl
handle-quiet clock malformed a h = absurd (false≢true (sym h))
handle-quiet clock (message stream msg) a h = absurd (false≢true (sym h))

handle_all-quiet :
    (frames : List (Clock × Frame)) (a : BinanceAdapter)
    → all_quiet frames ≡ true
    → handle_all frames a ≡ a
unfolding all_quiet handle_all
handle_all-quiet [] a h = refl
handle_all-quiet ((clock, frame) ∷ frames) a h =
    let here = handle-quiet clock frame a (ground (arith, h)) in
    rw here (handle_all-quiet frames a (ground (arith, h)))

watchdog-sentinel :
    (now : ℤ) (a : BinanceAdapter)
    → (watchdog now a).1 ≡ true
    → (watchdog now a).0.last_connection_activity_ms ≡ pos 0
unfolding watchdog
watchdog-sentinel now a h = elim (Bool-cases (a.last_connection_activity_ms ==ℤ pos 0)) [
  | inl idle ↦ absurd (false≢true (rw idle at h))
  | inr seen ↦ elim (Bool-cases (ltb_ℤ stale_threshold_ms (now -ℤ a.last_connection_activity_ms))) [
    | inl stale ↦ rw (seen, stale) refl
    | inr fresh ↦ absurd (false≢true (rw (seen, fresh) at h))
  ]
]

sentinel-silent :
    (now : ℤ) (a : BinanceAdapter)
    → a.last_connection_activity_ms ≡ pos 0
    → (watchdog now a).1 ≡ false
unfolding watchdog
sentinel-silent now a h = rw h refl

-- After the watchdog has restarted the WebSocket, it does not do so again before a frame that is an
-- open or a message arrives, whatever the time.
pub watchdog-once :
    (now later : ℤ) (a : BinanceAdapter) (frames : List (Clock × Frame))
    → (watchdog now a).1 ≡ true
    → all_quiet frames ≡ true
    → (watchdog later (handle_all frames (watchdog now a).0)).1 ≡ false
watchdog-once now later a frames restarted quiet =
    let same = handle_all-quiet frames (watchdog now a).0 quiet in
    rw same (sentinel-silent later (watchdog now a).0 (watchdog-sentinel now a restarted))

on_feed-activity :
    (clock : Clock) (msg : DepthMessage) (symbol : Bytes) (found : Option Feed) (a : BinanceAdapter)
    → (on_feed clock msg symbol found a).0.last_connection_activity_ms
      ≡ a.last_connection_activity_ms
on_feed-activity clock msg symbol none a = refl
on_feed-activity clock msg symbol (some f) a = refl

on_symbol-activity :
    (clock : Clock) (msg : DepthMessage) (found : Option Bytes) (a : BinanceAdapter)
    → (on_symbol clock msg found a).0.last_connection_activity_ms ≡ a.last_connection_activity_ms
on_symbol-activity clock msg none a = refl
on_symbol-activity clock msg (some symbol) a =
    on_feed-activity clock msg symbol (lookup a.feeds symbol) a

handle-traffic :
    (clock : Clock) (frame : Frame) (a : BinanceAdapter)
    → is_traffic frame ≡ true
    → (handle_ws_message clock frame a).0.last_connection_activity_ms ≡ clock.steady_ms
unfolding handle_ws_message on_open
handle-traffic clock opened a h =
    if_two (λ (x : BinanceAdapter). x.last_connection_activity_ms ≡ clock.steady_ms) a.ws_connected
      (λ _. refl) (λ _. refl)
handle-traffic clock closed a h = absurd (false≢true h)
handle-traffic clock failed a h = absurd (false≢true h)
handle-traffic clock ping a h = absurd (false≢true h)
handle-traffic clock pong a h = absurd (false≢true h)
handle-traffic clock fragment a h = absurd (false≢true h)
handle-traffic clock malformed a h = refl
handle-traffic clock (message stream msg) a h =
    on_symbol-activity clock msg (lookup a.binance_to_canonical (stream_to_symbol stream))
      (record a { last_connection_activity_ms = clock.steady_ms })

-- Once an open or a message has arrived, and no other since, the watchdog restarts the WebSocket just
-- when more than 2000 ms have passed on the steady clock, unless that clock was at 0.
pub watchdog-stale :
    (clock : Clock) (frame : Frame) (a : BinanceAdapter) (frames : List (Clock × Frame)) (now : ℤ)
    → is_traffic frame ≡ true
    → all_quiet frames ≡ true
    → (watchdog now (handle_all frames (handle_ws_message clock frame a).0)).1
      ≡ (not (clock.steady_ms ==ℤ pos 0) && ltb_ℤ (pos 2000) (now -ℤ clock.steady_ms))
unfolding watchdog
watchdog-stale clock frame a frames now traffic quiet =
    let same = handle_all-quiet frames (handle_ws_message clock frame a).0 quiet in
    let at = handle-traffic clock frame a traffic in
    rw (same, at)
      (elim (Bool-cases (clock.steady_ms ==ℤ pos 0)) [
        | inl idle ↦ rw idle refl
        | inr seen ↦ rw seen (
            if_two (λ (x : BinanceAdapter × Bool). x.1 ≡ ltb_ℤ (pos 2000) (now -ℤ clock.steady_ms))
              (ltb_ℤ (pos 2000) (now -ℤ clock.steady_ms)) (λ e. sym e) (λ e. sym e))
      ])
