-- ===== src/Examples/Feeds.antt =====
-- The theorems on the Binance adapter at concrete inputs: one symbol that waits for its snapshot,
-- with an update in its buffer.
use mathlib.Core.Bool.{false≢true}
use lob.Prelude.{
  ◌⊎◌, inl, inr, sym, ◌∙◌, ◌<◌, ◌+◌, if◌then◌else◌, ◌==◌, ℕ, ◌≡◌, refl, true, false, [], ◌∷◌, some,
  none, codes, arith,
}
use lob.Prelude.Int.{pos, ◌-ℤ◌, ◌/ℤ◌, ◌*ℤ◌, ◌+ℤ◌}
use lob.PriceLadder.{empty_ladder}
use lob.OrderBook.{make, apply_snapshot, apply_update, apply_levels, apply_level_change}
use lob.OrderBook.Parse.{apply_snapshot_message, apply_update_message}
use lob.Decimal.{parse_decimal}
use lob.SafeArithmetic.{safe_multiply, safe_add}
use lob.OrderBook.Valid.{make-BookValid}
use lob.Metrics.{new_metrics}
use lob.BinanceAdapter.{
  DepthMessage, Feed, Clock, HttpResponse, SnapshotBody, receive, fetch_and_apply_snapshot,
  slow_path, push_buffered,
}
use lob.BinanceAdapter.Fetch.{Synced, fetch_and_apply_snapshot-Synced}
use lob.BinanceAdapter.Live.{Handled, receive-Handled, with_live, receive-with_live}
use lob.BinanceAdapter.FeedValid.{FeedValid, known-Quotes}
use lob.BinanceAdapter.Connection.{BinanceAdapter, opened, closed, handle_ws_message, watchdog}
use lob.BinanceAdapter.Watchdog.{handle_all, all_quiet, watchdog-stale}
use lob.BinanceAdapter.Start.{fetch_attempts}
use lob.BinanceAdapter.Retry.{multiples, EndsAfter, fetch_attempts-ends, fetch_attempts-succeeds}

abbrev msg : DepthMessage
msg = record {
  event_time = pos 1000;
  first_id = pos 6;
  last_id = pos 9;
  asks = (codes "2.5", codes "1") ∷ [];
  bids = (codes "1.5", codes "2") ∷ [];
}

-- Ticks of one unit.
abbrev waiting : Feed
waiting = record {
  book = make 2 (empty_ladder 10000000 3);
  metrics = new_metrics;
  buffer = msg ∷ [];
}

abbrev body : SnapshotBody
body = record {
  last_update_id = pos 7;
  asks = (codes "2.4", codes "1") ∷ [];
  bids = (codes "1.4", codes "2") ∷ [];
}

abbrev response : HttpResponse
response = record { status_code = 200; retry_after = none; body = some body }

abbrev busy : HttpResponse
busy = record { status_code = 429; retry_after = some (pos 5); body = none }

abbrev clock : Clock
clock = record { system_ms = pos 1010; steady_ms = pos 500; elapsed_us = pos 40 }

abbrev synced : Feed
synced = (fetch_and_apply_snapshot response waiting).0

fetch_and_apply_snapshot-Synced_example :
    (response.status_code ≡ 200) × Synced waiting (fetch_and_apply_snapshot response waiting).0
unfolding fetch_and_apply_snapshot apply_snapshot_message parse_decimal safe_multiply ◌/ℤ◌ safe_add
    ◌*ℤ◌ ◌-ℤ◌ apply_update_message apply_update apply_snapshot ◌+ℤ◌
fetch_and_apply_snapshot-Synced_example = fetch_and_apply_snapshot-Synced response waiting refl

receive-Handled_example : Handled clock msg synced (receive clock msg synced)
receive-Handled_example = receive-Handled clock msg synced

receive-with_live_example :
    receive clock msg (with_live true synced) ≡ receive clock msg (with_live false synced)
unfolding fetch_and_apply_snapshot apply_snapshot_message parse_decimal safe_multiply ◌/ℤ◌ safe_add
    ◌*ℤ◌ ◌-ℤ◌ apply_update_message apply_update apply_snapshot ◌+ℤ◌ apply_levels apply_level_change
receive-with_live_example =
    receive-with_live clock msg synced {asks = (pos 250000000, pos 100000000) ∷ []}
      {bids = (pos 150000000, pos 200000000) ∷ []} refl refl refl

abbrev waiting_valid : FeedValid 10000000 waiting
unfolding fetch_and_apply_snapshot apply_snapshot_message parse_decimal safe_multiply ◌/ℤ◌ safe_add
    ◌*ℤ◌ ◌-ℤ◌ apply_update_message apply_update apply_snapshot ◌+ℤ◌
waiting_valid = record {
  book = make-BookValid 10000000 2 3 (omega arith);
  room = omega arith;
  quotes = (
    (
      known-Quotes 10000000 msg.asks ((pos 250000000, pos 100000000) ∷ []) refl
          ((250000000, refl, omega arith, refl, refl), tt),
      known-Quotes 10000000 msg.bids ((pos 150000000, pos 200000000) ∷ []) refl
          ((150000000, refl, omega arith, refl, refl), tt),
    ),
    tt,
  );
  live = λ e. absurd (false≢true e);
}

abbrev adapter : BinanceAdapter
adapter = record {
  ws_connected = false;
  last_connection_activity_ms = pos 0;
  subscribed_symbols = codes "BTC-USDT" ∷ [];
  binance_to_canonical = (codes "BTCUSDT", codes "BTC-USDT") ∷ [];
  feeds = (codes "BTC-USDT", waiting) ∷ [];
  resync_queue = [];
}

watchdog-stale_example :
    (watchdog
      (pos 2501)
      (handle_all ((clock, closed) ∷ []) (handle_ws_message clock opened adapter).0)).1
    ≡ true
unfolding ◌-ℤ◌ all_quiet
watchdog-stale_example =
    watchdog-stale clock opened adapter ((clock, closed) ∷ []) (pos 2501) refl refl

-- Busy once, then the snapshot.
abbrev respond : ℕ → HttpResponse
respond n = if n == 1 then busy else response

fetch_attempts-ends_example :
    let r = fetch_attempts 2000 respond (λ _ f. f) (λ _. false) 5 1 waiting in
    (k : ℕ) × (k < 5)
    × EndsAfter 2000 respond (λ _ f. f) (λ _. false) k 5 1 waiting (r.feed, r.succeeded)
    × (r.delays_ms ≡ multiples 2000 k 1)
fetch_attempts-ends_example =
    fetch_attempts-ends 2000 respond (λ _ f. f) (λ _. false) 5 1 waiting (omega arith)

-- In the wait after the first attempt the message arrives a second time, and is buffered.
abbrev meanwhile : ℕ → Feed → Feed
meanwhile n f = (receive clock msg f).0

abbrev waiting_twice : Feed
waiting_twice = record waiting { buffer = msg ∷ msg ∷ [] }

received_again : meanwhile 1 waiting ≡ waiting_twice
unfolding receive slow_path push_buffered make
received_again = refl

succeeds_then : (fetch_and_apply_snapshot response waiting_twice).1 ≡ true
unfolding fetch_and_apply_snapshot apply_snapshot_message parse_decimal safe_multiply ◌/ℤ◌ safe_add
    ◌*ℤ◌ ◌-ℤ◌ apply_update_message apply_update apply_snapshot ◌+ℤ◌
succeeds_then = refl

fails_first : (fetch_and_apply_snapshot busy waiting).0 ≡ waiting
unfolding fetch_and_apply_snapshot
fails_first = refl

abbrev Stage : ℕ → Feed → Type 0
Stage n f = ((n ≡ 1) × (f ≡ waiting)) ⊎ ((n ≡ 2) × (f ≡ waiting_twice))

Stage-next :
    (n : ℕ) (g : Feed)
    → Stage n g
    → (fetch_and_apply_snapshot (respond n) g).1 ≡ false
    → Stage (n + 1) (meanwhile n (fetch_and_apply_snapshot (respond n) g).0)
Stage-next n g (inl (e, h)) failed = rw (e, h, fails_first) (inr (refl, received_again))
Stage-next n g (inr (e, h)) failed = absurd (false≢true (sym failed ∙ rw (e, h) succeeds_then))

Stage-won : (g : Feed) → Stage 2 g → (fetch_and_apply_snapshot (respond 2) g).1 ≡ true
Stage-won g (inl (e, h)) = absurd (omega (arith, e))
Stage-won g (inr (e, h)) = rw h succeeds_then

fetch_attempts-succeeds_example :
    (fetch_attempts 2000 respond meanwhile (λ _. false) 5 1 waiting).succeeded ≡ true
fetch_attempts-succeeds_example =
    fetch_attempts-succeeds 2000 respond meanwhile (λ _. false) Stage 1 5 1 waiting Stage-next
      (λ _. refl) Stage-won (inl (refl, refl)) (omega arith)
