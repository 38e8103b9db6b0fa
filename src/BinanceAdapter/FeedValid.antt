-- ===== src/BinanceAdapter/FeedValid.antt =====
-- The invariant of a feed, and that every handler of src/binance_adapter.cpp keeps it.
use mathlib.Core.Bool.{false≢true}
use mathlib.Core.Path.{subst}
use lob.Prelude.{
  ok_inj, sym, ℕ, ◌≡◌, ◌≤◌, refl, ◌∙◌, true, not, List, [], ◌∷◌, ◌++◌, inl, inr, arith, Result, ok,
  err, ◌>>=◌, Bool-cases, All, length, length-append, ltb,
}
use lob.Prelude.Int.{ℤ}
use lob.OfiTypes.{EventKind, genuine, UpdateResult}
use lob.OfiView.{Level}
use lob.OrderBook.{OrderBook, apply_update}
use lob.OrderBook.Parse.{TextLevels, parse_levels, apply_update_message}
use lob.OrderBook.Side.{if_two}
use lob.OrderBook.Valid.{BookValid, IsQuote, apply_update-BookValid, clear-BookValid}
use lob.Metrics.{Metrics}
use lob.BinanceAdapter.{
  DepthMessage, Feed, Clock, Outcome, push_buffered, set_live, set_lag, finish, finish_result,
  fast_result, slow_path, fast_path, receive, reset_feed, max_buffered_msgs_per_symbol,
}
use lob.OrderBook.Messages.{message_update, apply_update-snapshot_applied}

-- Texts that, if they are decimals, are quotes on the grid.
abbrev pub Quotes : ℕ → TextLevels → Type 0
Quotes tick texts =
    (levels : List Level) → parse_levels texts ≡ ok levels → All (IsQuote tick) levels

-- Texts that are read as quotes are such texts.
pub known-Quotes :
    (tick : ℕ) (texts : TextLevels) (levels : List Level)
    → parse_levels texts ≡ ok levels
    → All (IsQuote tick) levels
    → Quotes tick texts
known-Quotes tick texts levels at h others e = subst (All (IsQuote tick)) (ok_inj (sym at ∙ e)) h

abbrev pub QuoteMessage : ℕ → DepthMessage → Type 0
QuoteMessage tick msg = Quotes tick msg.asks × Quotes tick msg.bids

-- The book is valid, the buffer holds at most 5000 messages, all of quotes, and a live symbol has a
-- snapshot.
pub record FeedValid (tick : ℕ) (f : Feed) : Type 0 where
  pub book : BookValid tick f.book
  pub room : length f.buffer ≤ max_buffered_msgs_per_symbol
  pub quotes : All (QuoteMessage tick) f.buffer
  pub live : f.metrics.live_ready ≡ true → f.book.snapshot_applied ≡ true

push_buffered-room :
    (msg : DepthMessage) (buffer : List DepthMessage)
    → length buffer ≤ max_buffered_msgs_per_symbol
    → length (push_buffered msg buffer) ≤ max_buffered_msgs_per_symbol
unfolding push_buffered
push_buffered-room msg buffer h =
    elim (Bool-cases (ltb (length buffer) max_buffered_msgs_per_symbol)) [
      | inl room ↦ rw room (ground (arith, length-append buffer (msg ∷ []), room))
      | inr full ↦ rw full h
    ]

append-All :
    {A : Type 0} (P : A → Type 0) (xs : List A) (x : A) → All P xs → P x → All P (xs ++ x ∷ [])
append-All P [] x h p = (p, tt)
append-All P (y ∷ xs) x (q, h) p = (q, append-All P xs x h p)

module _ (tick : ℕ) where
  -- What an update must leave for its feed to stay valid.
  pub record Keeps (b : OrderBook) (r : OrderBook × UpdateResult) : Type 0 where
    pub valid : BookValid tick r.0
    pub same_applied : r.0.snapshot_applied ≡ b.snapshot_applied

  apply_update-Keeps :
      (b : OrderBook) (first_id last_id : ℤ) (asks bids : List Level) (kind : EventKind)
      → BookValid tick b
      → All (IsQuote tick) asks
      → All (IsQuote tick) bids
      → Keeps b (apply_update b first_id last_id asks bids kind)
  apply_update-Keeps b first_id last_id asks bids kind v ha hb = record {
    valid = apply_update-BookValid tick first_id last_id asks bids kind v ha hb;
    same_applied = apply_update-snapshot_applied b first_id last_id asks bids kind;
  }

  pub message-Keeps :
      (b : OrderBook) (msg : DepthMessage) (kind : EventKind) {r : OrderBook × UpdateResult}
      → BookValid tick b
      → QuoteMessage tick msg
      → apply_update_message b msg.first_id msg.last_id msg.asks msg.bids kind ≡ ok r
      → Keeps b r
  message-Keeps b msg kind v (qa, qb) at =
      message_update (Keeps b) b msg.first_id msg.last_id msg.asks msg.bids kind
        (λ asks bids ea eb.
          apply_update-Keeps b msg.first_id msg.last_id asks bids kind v (qa asks ea) (qb bids eb))
        at

  pub reset_feed-FeedValid : {f : Feed} → FeedValid tick f → FeedValid tick (reset_feed f)
  unfolding reset_feed
  reset_feed-FeedValid {f} v = record {
    book = clear-BookValid tick v.book;
    room = omega arith;
    quotes = tt;
    live = λ e. absurd (false≢true e);
  }

  finish-FeedValid :
      (clock : Clock) {f : Feed} (r : OrderBook × UpdateResult)
      → FeedValid tick f
      → Keeps f.book r
      → f.book.snapshot_applied ≡ true
      → FeedValid tick (finish clock f r).0
  unfolding finish reset_feed
  finish-FeedValid clock {f} r v k applied =
      if_two (λ (x : Feed × Outcome). FeedValid tick x.0) r.1.success
        (λ _. record {
          book = k.valid;
          room = v.room;
          quotes = v.quotes;
          live = λ _. k.same_applied ∙ applied;
        })
        (λ _. record {
          book = clear-BookValid tick k.valid;
          room = omega arith;
          quotes = tt;
          live = λ e. absurd (false≢true e);
        })

  -- Any change of the metrics of a feed that has a snapshot.
  with_metrics :
      {f : Feed} (m : Metrics)
      → FeedValid tick f
      → f.book.snapshot_applied ≡ true
      → FeedValid tick (record f { metrics = m })
  with_metrics m v applied = record {
    book = v.book;
    room = v.room;
    quotes = v.quotes;
    live = λ _. applied;
  }

  slow-FeedValid :
      (clock : Clock) (msg : DepthMessage) {f : Feed} (m : Metrics)
      (x : Result (OrderBook × UpdateResult))
      → FeedValid tick f
      → QuoteMessage tick msg
      → f.book.snapshot_applied ≡ true
      → apply_update_message f.book msg.first_id msg.last_id msg.asks msg.bids genuine ≡ x
      → FeedValid tick (finish_result clock (record f { metrics = m }) x).0
  slow-FeedValid clock msg m (err _) v q applied at = with_metrics m v applied
  slow-FeedValid clock msg {f} m (ok r) v q applied at =
      finish-FeedValid clock r (with_metrics m v applied)
        (message-Keeps f.book msg genuine v.book q at) applied

  fast-FeedValid :
      (clock : Clock) (msg : DepthMessage) {f : Feed} (x y : Result (List Level))
      → FeedValid tick f
      → QuoteMessage tick msg
      → f.book.snapshot_applied ≡ true
      → parse_levels msg.bids ≡ x
      → parse_levels msg.asks ≡ y
      → FeedValid tick
          (fast_result clock msg f (
            x >>= λ bids.
            y >>= λ asks. ok (apply_update f.book msg.first_id msg.last_id asks bids genuine))).0
  fast-FeedValid clock msg (err _) y v q applied ex ey = v
  fast-FeedValid clock msg (ok bids) (err _) v q applied ex ey = v
  fast-FeedValid clock msg {f} (ok bids) (ok asks) v q applied ex ey =
      finish-FeedValid clock (apply_update f.book msg.first_id msg.last_id asks bids genuine)
        (with_metrics (set_lag clock msg f.metrics) v applied)
        (apply_update-Keeps f.book msg.first_id msg.last_id asks bids genuine v.book (q.0 asks ey)
          (q.1 bids ex))
        applied

  -- A message of quotes keeps a feed valid, whatever becomes of it.
  pub receive-FeedValid :
      (clock : Clock) (msg : DepthMessage) {f : Feed}
      → FeedValid tick f
      → QuoteMessage tick msg
      → FeedValid tick (receive clock msg f).0
  unfolding receive slow_path fast_path
  receive-FeedValid clock msg {f} v q =
      if_two (λ (x : Feed × Outcome). FeedValid tick x.0) f.metrics.live_ready
        (λ live.
          fast-FeedValid clock msg (parse_levels msg.bids) (parse_levels msg.asks) v q (v.live live)
            refl refl)
        (λ _.
          if_two (λ (x : Feed × Outcome). FeedValid tick x.0) (not f.book.snapshot_applied)
            (λ _. record {
              book = v.book;
              room = push_buffered-room msg f.buffer v.room;
              quotes =
                  if_two (All (QuoteMessage tick))
                    (ltb (length f.buffer) max_buffered_msgs_per_symbol)
                    (λ _. append-All (QuoteMessage tick) f.buffer msg v.quotes q) (λ _. v.quotes);
              live = v.live;
            })
            (λ e.
              slow-FeedValid clock msg (set_lag clock msg (set_live true f.metrics)) _ v q
                (ground (arith, e)) refl))
