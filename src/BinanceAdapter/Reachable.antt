-- ===== src/BinanceAdapter/Reachable.antt =====
-- src/binance_adapter.cpp: the adapter's states under any interleaving of its handlers, fetches and
-- watchdog rounds, and the invariant of all its feeds.
use lob.Prelude.{
  ℕ, ◌≡◌, refl, ◌∙◌, Bool, true, List, [], ◌∷◌, Option, none, some, arith, Result, ok, err, All,
  ◌==◌, Bytes,
}
use lob.Prelude.Int.{ℤ}
use lob.Prelude.Maps.{Each}
use lob.OfiTypes.{backfill, UpdateResult}
use lob.OfiView.{Level}
use lob.OrderBook.{OrderBook, apply_snapshot}
use lob.OrderBook.Parse.{apply_update_message, apply_snapshot_message}
use lob.OrderBook.Side.{if_two}
use lob.OrderBook.Valid.{BookValid, IsQuote, apply_snapshot-BookValid}
use lob.BinanceAdapter.{
  DepthMessage, Feed, Clock, Replay, replayed, out_of_order, snapshot_error, replay_next, replay,
  after_replay, after_snapshot, apply_body, SnapshotBody, HttpResponse, fetch_and_apply_snapshot,
}
use lob.BinanceAdapter.Connection.{
  BinanceAdapter, Frame, message, handle_ws_message, take_resync, fetch_symbol, watchdog,
}
use lob.OrderBook.Messages.{message_snapshot}
use lob.BinanceAdapter.FeedValid.{FeedValid, Quotes, QuoteMessage, Keeps, message-Keeps}

-- A snapshot, a response and a frame of quotes.
abbrev pub QuoteBody : ℕ → Option SnapshotBody → Type 0
QuoteBody tick none = Unit
QuoteBody tick (some body) = Quotes tick body.asks × Quotes tick body.bids

abbrev pub QuoteFrame : ℕ → Frame → Type 0
QuoteFrame tick (message stream msg) = QuoteMessage tick msg
QuoteFrame tick _ = Unit

abbrev pub replay_book : Replay → OrderBook
replay_book (replayed b) = b
replay_book (out_of_order b) = b
replay_book (snapshot_error b) = b

-- The adapters that the steps lead to from a first one, if every price and quantity is a quote.
pub data Reachable (tick : ℕ) (first : BinanceAdapter) : BinanceAdapter → Type 0 where
  begun : Reachable tick first first
  framed :
      {a : BinanceAdapter}
      → Reachable tick first a
      → (clock : Clock) (frame : Frame) → QuoteFrame tick frame
      → Reachable tick first (handle_ws_message clock frame a).0
  fetched :
      {a : BinanceAdapter}
      → Reachable tick first a
      → (response : HttpResponse) (symbol : Bytes) → QuoteBody tick response.body
      → Reachable tick first (fetch_symbol response symbol a).0
  dequeued : {a : BinanceAdapter} → Reachable tick first a → Reachable tick first (take_resync a).0
  watched :
      {a : BinanceAdapter}
      → Reachable tick first a
      → (now : ℤ) → Reachable tick first (watchdog now a).0

module _ (tick : ℕ) where
  record ReplayKeeps (b : OrderBook) (x : Replay) : Type 0 where
    valid : BookValid tick (replay_book x)
    same_applied : (replay_book x).snapshot_applied ≡ b.snapshot_applied

  next-ReplayKeeps :
      (b : OrderBook) (rest : OrderBook → Replay) (x : Result (OrderBook × UpdateResult))
      → BookValid tick b
      → ((r : OrderBook × UpdateResult) → x ≡ ok r → Keeps tick b r)
      → ((c : OrderBook) → BookValid tick c → ReplayKeeps c (rest c))
      → ReplayKeeps b (replay_next rest b x)
  next-ReplayKeeps b rest (err _) v step more = record { valid = v; same_applied = refl }
  next-ReplayKeeps b rest (ok (c, result)) v step more =
      let k = step (c, result) refl in
      if_two (ReplayKeeps b) result.success
        (λ _.
          let m = more c k.valid in
          record { valid = m.valid; same_applied = m.same_applied ∙ k.same_applied })
        (λ _. record { valid = k.valid; same_applied = k.same_applied })

  replay-ReplayKeeps :
      (b : OrderBook) (buffer : List DepthMessage)
      → BookValid tick b
      → All (QuoteMessage tick) buffer
      → ReplayKeeps b (replay b buffer)
  unfolding replay
  replay-ReplayKeeps b [] v h = record { valid = v; same_applied = refl }
  replay-ReplayKeeps b (msg ∷ buffer) v (q, h) =
      next-ReplayKeeps b (λ c. replay c buffer)
        (apply_update_message b msg.first_id msg.last_id msg.asks msg.bids backfill) v
        (λ r at. message-Keeps tick b msg backfill v q at)
        (λ c vc. replay-ReplayKeeps c buffer vc h)

  after_replay-FeedValid :
      {f : Feed} (b : OrderBook) (x : Replay)
      → FeedValid tick f
      → b.snapshot_applied ≡ true
      → ReplayKeeps b x
      → FeedValid tick (after_replay f x).0
  after_replay-FeedValid b (replayed c) v applied k = record {
    book = k.valid;
    room = omega arith;
    quotes = tt;
    live = λ _. k.same_applied ∙ applied;
  }
  after_replay-FeedValid b (out_of_order c) v applied k = record {
    book = k.valid;
    room = omega arith;
    quotes = tt;
    live = λ _. k.same_applied ∙ applied;
  }
  after_replay-FeedValid b (snapshot_error c) v applied k = record {
    book = k.valid;
    room = v.room;
    quotes = v.quotes;
    live = λ _. k.same_applied ∙ applied;
  }

  record Loaded (b : OrderBook) : Type 0 where
    valid : BookValid tick b
    applied : b.snapshot_applied ≡ true

  apply_snapshot-Loaded :
      {b : OrderBook} (new_id : ℤ) (asks bids : List Level)
      → BookValid tick b
      → All (IsQuote tick) asks
      → All (IsQuote tick) bids
      → Loaded (apply_snapshot b new_id asks bids)
  unfolding apply_snapshot
  apply_snapshot-Loaded new_id asks bids v ha hb = record {
    valid = apply_snapshot-BookValid tick new_id asks bids v ha hb;
    applied = refl;
  }

  apply_body-FeedValid :
      (body : Option SnapshotBody) {f : Feed}
      → FeedValid tick f
      → QuoteBody tick body
      → FeedValid tick (apply_body body f).0
  apply_body-FeedValid none v q = v
  apply_body-FeedValid (some body) {f} v (qa, qb) =
      go (apply_snapshot_message f.book body.last_update_id body.asks body.bids) refl
    where
      go :
          (x : Result OrderBook)
          → apply_snapshot_message f.book body.last_update_id body.asks body.bids ≡ x
          → FeedValid tick (after_snapshot f x).0
      go (err _) at = v
      go (ok b) at =
          let l : Loaded b =
            message_snapshot Loaded f.book body.last_update_id body.asks body.bids
              (λ asks bids ea eb.
                apply_snapshot-Loaded body.last_update_id asks bids v.book (qa asks ea)
                  (qb bids eb))
              at in
          after_replay-FeedValid b (replay b f.buffer) v l.applied
            (replay-ReplayKeeps b f.buffer l.valid v.quotes)

  -- A fetch keeps a feed valid, whatever the response and the buffer.
  pub fetch_and_apply_snapshot-FeedValid :
      (response : HttpResponse) {f : Feed}
      → FeedValid tick f
      → QuoteBody tick response.body
      → FeedValid tick (fetch_and_apply_snapshot response f).0
  unfolding fetch_and_apply_snapshot
  fetch_and_apply_snapshot-FeedValid response v q =
      if_two (λ (x : Feed × Bool). FeedValid tick x.0) (response.status_code == 200)
        (λ _. apply_body-FeedValid response.body v q) (λ _. v)

  AllValid : BinanceAdapter → Type 0
  AllValid a = Each (λ _ f. FeedValid tick f) a.feeds
