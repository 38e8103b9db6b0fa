-- ===== src/BinanceAdapter/Live.antt =====
-- src/binance_adapter.cpp: what `handleWsMessage` does with an update of a known symbol, on each of
-- its paths.

use mathlib.Core.Bool.{false≢true}
use lob.PriceLadder
use lob.Prelude.{
  if◌then◌else◌, ltb, length, ◌++◌, ◌∷◌, ◌⊎◌, inl, inr, sym, Exception, ◌+◌, ◌≡◌, refl, ap, Bool,
  true, false, not, List, [], arith, Result, ok, err, ◌>>=◌,
}
use lob.Prelude.Int.{pos, ◌≤ℤ◌, ◌<ℤ◌, ◌+ℤ◌, ◌-ℤ◌, leb_ℤ, ltb_ℤ}
use lob.OfiTypes.{genuine, UpdateResult}
use lob.OfiView.{Level}
use lob.OrderBook
use lob.OrderBook.{OrderBook, apply_update}
use lob.OrderBook.Parse.{parse_levels, apply_update_message}
use lob.OrderBook.Session.{apply_update-Follows}
use lob.OrderBook.Side.{if_two}
use lob.Metrics.{Metrics, record_processing_us}
use lob.BinanceAdapter.{
  DepthMessage, Feed, Clock, Outcome, buffered, message_error, missed_updates, updated,
  push_buffered, set_live, set_lag, finish, finish_result, fast_result, slow_path, fast_path,
  receive, reset_feed,
}

-- A feed with the live flag given.
abbrev pub with_live : Bool → Feed → Feed
with_live live f = record f { metrics = set_live live f.metrics }

-- Once the snapshot is applied, the path of the streaming JSON library and the path of the one that
-- builds a document do the same with an update whose texts are decimals.
pub receive-with_live :
    (clock : Clock) (msg : DepthMessage) (f : Feed) {asks bids : List Level}
    → f.book.snapshot_applied ≡ true
    → parse_levels msg.asks ≡ ok asks
    → parse_levels msg.bids ≡ ok bids
    → receive clock msg (with_live true f) ≡ receive clock msg (with_live false f)
unfolding receive slow_path fast_path apply_update_message
receive-with_live clock msg f applied ha hb = rw (applied, ha, hb) refl

-- The feed takes a message: its flag is set, or its book has a snapshot.
abbrev pub IsActive : Feed → Type 0
IsActive f = (f.metrics.live_ready ≡ true) ⊎ (f.book.snapshot_applied ≡ true)

-- A text of the levels is no decimal.
abbrev pub Unreadable : DepthMessage → Type 0
Unreadable msg =
    ((e : Exception) × (parse_levels msg.asks ≡ err e))
    ⊎ ((e : Exception) × (parse_levels msg.bids ≡ err e))

-- The update is not over yet, and starts beyond the next id of the book.
abbrev pub IsGap : DepthMessage → OrderBook → Type 0
IsGap msg b = (b.last_update_id <ℤ msg.last_id) × (b.last_update_id +ℤ pos 1 <ℤ msg.first_id)

abbrev pub NoGap : DepthMessage → OrderBook → Type 0
NoGap msg b = (msg.last_id ≤ℤ b.last_update_id) ⊎ (msg.first_id ≤ℤ b.last_update_id +ℤ pos 1)

-- The update of a book with the levels of the message.
abbrev pub update_of : DepthMessage → List Level → List Level → OrderBook → OrderBook × UpdateResult
update_of msg asks bids b = apply_update b msg.first_id msg.last_id asks bids genuine

-- A book that waits for a snapshot: it has no levels, no views and the id 0.
abbrev pub IsUnsynced : OrderBook → Type 0
IsUnsynced b =
    (b.snapshot_applied ≡ false)
    × (b.last_update_id ≡ pos 0)
    × (b.bid_ladder.count ≡ 0)
    × (b.ask_ladder.count ≡ 0)
    × (b.ofi_bids ≡ [])
    × (b.ofi_asks ≡ [])

clear-IsUnsynced : (b : OrderBook) → IsUnsynced (OrderBook.clear b)
unfolding OrderBook.clear PriceLadder.clear
clear-IsUnsynced b = (refl, refl, refl, refl, refl, refl)

-- What a message owes a feed that is active, by its levels.
unfoldable pub Applied :
    Clock → DepthMessage → List Level → List Level → Feed → Feed × Outcome → Type 0
Applied clock msg asks bids f (f', outcome) =
    (IsGap msg f.book
      × (outcome ≡ missed_updates)
      × (f'.book ≡ OrderBook.clear f.book)
      × IsUnsynced f'.book
      × (f'.buffer ≡ [])
      × (f'.metrics.live_ready ≡ false))
    ⊎ (NoGap msg f.book
        × (outcome ≡ updated (update_of msg asks bids f.book).1.deltas)
        × (f'.book ≡ (update_of msg asks bids f.book).0)
        × (msg.last_id ≤ℤ f'.book.last_update_id)
        × (f'.buffer ≡ f.buffer)
        × (f'.metrics.live_ready ≡ true)
        × (f'.metrics.msg_count ≡ f.metrics.msg_count + 1)
        × (f'.metrics.last_event_lag_ms ≡ clock.system_ms -ℤ msg.event_time)
        × (f'.metrics.last_update_time_ms ≡ clock.steady_ms))

-- What it owes any feed.
unfoldable pub Handled : Clock → DepthMessage → Feed → Feed × Outcome → Type 0
Handled clock msg f (f', outcome) =
    ((f.metrics.live_ready ≡ false)
      × (f.book.snapshot_applied ≡ false)
      × (outcome ≡ buffered)
      × (f'.book ≡ f.book)
      × (f'.metrics ≡ f.metrics)
      × (f'.buffer ≡ (if ltb (length f.buffer) 5000 then f.buffer ++ msg ∷ [] else f.buffer)))
    ⊎ (IsActive f
        × ((Unreadable msg
              × (outcome ≡ message_error)
              × (f'.book ≡ f.book)
              × (f'.buffer ≡ f.buffer))
            ⊎ ((asks : List Level) × (bids : List Level) × (parse_levels msg.asks ≡ ok asks)
                × (parse_levels msg.bids ≡ ok bids)
                × Applied clock msg asks bids f (f', outcome))))

success-NoGap :
    (msg : DepthMessage) (asks bids : List Level) (b : OrderBook)
    → (update_of msg asks bids b).1.success ≡ true
    → NoGap msg b
unfolding apply_update
success-NoGap msg asks bids b =
    if_two (λ (r : OrderBook × UpdateResult). r.1.success ≡ true → NoGap msg b)
      (leb_ℤ msg.last_id b.last_update_id) (λ old _. inl (ground (arith, old)))
      (λ _.
        if_two (λ (r : OrderBook × UpdateResult). r.1.success ≡ true → NoGap msg b)
          (ltb_ℤ (b.last_update_id +ℤ pos 1) msg.first_id) (λ _ h. absurd (false≢true h))
          (λ next _. inr (ground (arith, next))))

failure-IsGap :
    (msg : DepthMessage) (asks bids : List Level) (b : OrderBook)
    → (update_of msg asks bids b).1.success ≡ false
    → IsGap msg b
unfolding apply_update
failure-IsGap msg asks bids b =
    if_two (λ (r : OrderBook × UpdateResult). r.1.success ≡ false → IsGap msg b)
      (leb_ℤ msg.last_id b.last_update_id) (λ _ h. absurd (false≢true (sym h)))
      (λ new.
        if_two (λ (r : OrderBook × UpdateResult). r.1.success ≡ false → IsGap msg b)
          (ltb_ℤ (b.last_update_id +ℤ pos 1) msg.first_id)
          (λ gap _. (ground (arith, new), ground (arith, gap)))
          (λ _ h. absurd (false≢true (sym h))))

module _ (clock : Clock) (msg : DepthMessage) (f : Feed) where
  finish-Applied :
      (m : Metrics) (asks bids : List Level)
      → m.live_ready ≡ true
      → m.msg_count ≡ f.metrics.msg_count
      → m.last_event_lag_ms ≡ clock.system_ms -ℤ msg.event_time
      → Applied clock msg asks bids f
          (finish clock (record f { metrics = m }) (update_of msg asks bids f.book))
  unfolding finish reset_feed Applied record_processing_us
  finish-Applied m asks bids live count lag =
      let (_, reached, refused) =
        apply_update-Follows f.book msg.first_id msg.last_id asks bids genuine in
      let r = update_of msg asks bids f.book in
      if_two (Applied clock msg asks bids f) r.1.success
        (λ done. inr (
          success-NoGap msg asks bids f.book done,
          refl,
          refl,
          reached done,
          refl,
          live,
          ap (λ n. n + 1) count,
          lag,
          refl,
        ))
        (λ gap. inl (
          failure-IsGap msg asks bids f.book gap,
          refl,
          ap OrderBook.clear (refused gap).0,
          clear-IsUnsynced (update_of msg asks bids f.book).0,
          refl,
          refl,
        ))

  slow-Handled :
      (x y : Result (List Level))
      → f.book.snapshot_applied ≡ true
      → parse_levels msg.asks ≡ x
      → parse_levels msg.bids ≡ y
      → Handled clock msg f (
          finish_result clock
            (record f { metrics = set_lag clock msg (set_live true f.metrics) })
            (x >>= λ asks. y >>= λ bids. ok (update_of msg asks bids f.book)))
  unfolding Handled
  slow-Handled (err e) y active ha hb = inr (inr active, inl (inl (e, ha), refl, refl, refl))
  slow-Handled (ok asks) (err e) active ha hb =
      inr (inr active, inl (inr (e, hb), refl, refl, refl))
  slow-Handled (ok asks) (ok bids) active ha hb =
      let m = set_lag clock msg (set_live true f.metrics) in
      inr (inr active, inr (asks, bids, ha, hb, finish-Applied m asks bids refl refl refl))

  fast-Handled :
      (x y : Result (List Level))
      → f.metrics.live_ready ≡ true
      → parse_levels msg.bids ≡ x
      → parse_levels msg.asks ≡ y
      → Handled clock msg f (
          fast_result clock msg f (x >>= λ bids. y >>= λ asks. ok (update_of msg asks bids f.book)))
  unfolding Handled
  fast-Handled (err e) y live hb ha = inr (inl live, inl (inr (e, hb), refl, refl, refl))
  fast-Handled (ok bids) (err e) live hb ha = inr (inl live, inl (inl (e, ha), refl, refl, refl))
  fast-Handled (ok bids) (ok asks) live hb ha =
      let m = set_lag clock msg f.metrics in
      inr (inl live, inr (asks, bids, ha, hb, finish-Applied m asks bids live refl refl))

  -- A feed that is not live and has no snapshot buffers the message if it has fewer than 5000, and
  -- changes nothing else. Any other one refuses a message with a text that is no decimal, and keeps its
  -- book and its buffer; where all texts are decimals, an update with a last id that is new and a first
  -- id beyond the next one clears the book, the buffer and the live flag, and any other is applied to
  -- the book, which reaches its last id, is reported with its changes, counted and timed, and leaves the
  -- feed live and the buffer as it is.
  pub receive-Handled : Handled clock msg f (receive clock msg f)
  unfolding receive slow_path fast_path Handled apply_update_message push_buffered
  receive-Handled =
      if_two (Handled clock msg f) f.metrics.live_ready
        (λ live. fast-Handled (parse_levels msg.bids) (parse_levels msg.asks) live refl refl)
        (λ not_live.
          if_two (Handled clock msg f) (not f.book.snapshot_applied)
            (λ waiting. inl (not_live, ground (arith, waiting), refl, refl, refl, refl))
            (λ has.
              slow-Handled (parse_levels msg.asks) (parse_levels msg.bids) (ground (arith, has))
                refl refl))
