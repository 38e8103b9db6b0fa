-- ===== src/BinanceAdapter/Fetch.antt =====
-- src/binance_adapter.cpp: what a fetch promises: the book is the snapshot with every buffered update
-- replayed, in order and none lost.
use mathlib.Core.Bool.{false≢true}
use lob.Prelude.{
  ◌≡◌, refl, sym, ap, ◌∙◌, true, List, [], ◌∷◌, Option, none, some, inl, inr, arith, All, Result,
  ok, err, Bool-cases, ◌==◌, ==_iff,
}
use lob.Prelude.Int.{ℤ, ◌≤ℤ◌}
use lob.OfiTypes.{EventKind, backfill, UpdateResult}
use lob.OfiView.{Level}
use lob.OrderBook.{OrderBook, apply_snapshot}
use lob.OrderBook.Parse.{apply_snapshot_message, apply_update_message}
use lob.OrderBook.Session.{apply_update-Follows}
use lob.OrderBook.Messages.{message_update, message_snapshot, apply_update-snapshot_applied}
use lob.BinanceAdapter.{
  DepthMessage, Feed, Replay, replayed, out_of_order, snapshot_error, replay_next, replay,
  after_replay, after_snapshot, apply_body, SnapshotBody, HttpResponse, fetch_and_apply_snapshot,
}

-- What an update leaves: the book's id has not decreased, has reached the update's on success, and
-- whether a snapshot was applied is the same.
pub record Advances (b : OrderBook) (last_id : ℤ) (r : OrderBook × UpdateResult) : Type 0 where
  pub monotone : b.last_update_id ≤ℤ r.0.last_update_id
  pub reached : r.1.success ≡ true → last_id ≤ℤ r.0.last_update_id
  pub same_applied : r.0.snapshot_applied ≡ b.snapshot_applied

pub message-Advances :
    (b : OrderBook) (msg : DepthMessage) (kind : EventKind) {r : OrderBook × UpdateResult}
    → apply_update_message b msg.first_id msg.last_id msg.asks msg.bids kind ≡ ok r
    → Advances b msg.last_id r
message-Advances b msg kind e =
    message_update (Advances b msg.last_id) b msg.first_id msg.last_id msg.asks msg.bids kind
      (λ asks bids _ _.
        let (monotone, reached, _) =
          apply_update-Follows b msg.first_id msg.last_id asks bids kind in
        record {
          monotone = monotone;
          reached = reached;
          same_applied = apply_update-snapshot_applied b msg.first_id msg.last_id asks bids kind;
        })
      e

-- The replay has reached the last id of each buffered message.
pub record Drained (b : OrderBook) (buffer : List DepthMessage) (b' : OrderBook) : Type 0 where
  pub monotone : b.last_update_id ≤ℤ b'.last_update_id
  pub caught_up : All (λ (m : DepthMessage). m.last_id ≤ℤ b'.last_update_id) buffer
  pub same_applied : b'.snapshot_applied ≡ b.snapshot_applied

order-ne : {b c : OrderBook} → out_of_order b ≡ replayed c → ⊥
order-ne h = cc

next-Drained :
    (b : OrderBook) (msg : DepthMessage) (buffer : List DepthMessage) (rest : OrderBook → Replay)
    (x : Result (OrderBook × UpdateResult)) {b' : OrderBook}
    → ((r : OrderBook × UpdateResult) → x ≡ ok r → Advances b msg.last_id r)
    → ((c : OrderBook) → rest c ≡ replayed b' → Drained c buffer b')
    → replay_next rest b x ≡ replayed b'
    → Drained b (msg ∷ buffer) b'
next-Drained b msg buffer rest (err _) step more e = absurd cc
next-Drained b msg buffer rest (ok (c, result)) step more e = elim (Bool-cases result.success) [
  | inl done ↦
      let a = step (c, result) refl in
      let d = more c (rw done at e) in
      record {
        monotone = omega (arith, a.monotone, d.monotone);
        caught_up = (omega (arith, a.reached done, d.monotone), d.caught_up);
        same_applied = d.same_applied ∙ a.same_applied;
      }
  | inr gap ↦ absurd (order-ne (rw gap at e))
]

replay-Drained :
    (b : OrderBook) (buffer : List DepthMessage) {b' : OrderBook}
    → replay b buffer ≡ replayed b'
    → Drained b buffer b'
unfolding replay
replay-Drained b [] {b'} e =
    let same : b ≡ b' = cc in
    record {
      monotone = rw same (omega arith);
      caught_up = tt;
      same_applied = ap (λ (c : OrderBook). c.snapshot_applied) (sym same);
    }
replay-Drained b (msg ∷ buffer) e =
    next-Drained b msg buffer (λ c. replay c buffer)
      (apply_update_message b msg.first_id msg.last_id msg.asks msg.bids backfill)
      (λ _ at. message-Advances b msg backfill at) (λ c. replay-Drained c buffer) e

-- What a fetch that returns true has made of a feed.
pub record Synced (f f' : Feed) : Type 0 where
  pub live : f'.metrics.live_ready ≡ true
  pub applied : f'.book.snapshot_applied ≡ true
  pub drained : f'.buffer ≡ []
  pub caught_up : All (λ (m : DepthMessage). m.last_id ≤ℤ f'.book.last_update_id) f.buffer

after_replay-Synced :
    (f : Feed) (b : OrderBook) (x : Replay)
    → b.snapshot_applied ≡ true
    → replay b f.buffer ≡ x
    → (after_replay f x).1 ≡ true
    → Synced f (after_replay f x).0
after_replay-Synced f b (replayed b') applied at h =
    let d = replay-Drained b f.buffer at in
    record {
      live = refl;
      applied = d.same_applied ∙ applied;
      drained = refl;
      caught_up = d.caught_up;
    }
after_replay-Synced f b (out_of_order b') applied at h = absurd (false≢true h)
after_replay-Synced f b (snapshot_error b') applied at h = absurd (false≢true h)

IsApplied : OrderBook → Type 0
IsApplied b = b.snapshot_applied ≡ true

apply_snapshot-IsApplied :
    (b : OrderBook) (new_id : ℤ) (asks bids : List Level)
    → IsApplied (apply_snapshot b new_id asks bids)
unfolding apply_snapshot IsApplied
apply_snapshot-IsApplied b new_id asks bids = refl

apply_body-Synced :
    (body : Option SnapshotBody) (f : Feed)
    → (apply_body body f).1 ≡ true
    → Synced f (apply_body body f).0
unfolding IsApplied
apply_body-Synced none f h = absurd (false≢true h)
apply_body-Synced (some body) f h =
    go (apply_snapshot_message f.book body.last_update_id body.asks body.bids) refl h
  where
    go :
        (x : Result OrderBook)
        → apply_snapshot_message f.book body.last_update_id body.asks body.bids ≡ x
        → (after_snapshot f x).1 ≡ true
        → Synced f (after_snapshot f x).0
    go (err _) at h' = absurd (false≢true h')
    go (ok b) at h' =
        after_replay-Synced f b (replay b f.buffer)
          (message_snapshot IsApplied f.book body.last_update_id body.asks body.bids
            (λ asks bids _ _. apply_snapshot-IsApplied f.book body.last_update_id asks bids) at)
          refl h'

-- A fetch that returns true has had the status 200; its book has a snapshot and has reached the last
-- id of every update that was buffered, the buffer is empty and the symbol is live.
pub fetch_and_apply_snapshot-Synced :
    (response : HttpResponse) (f : Feed)
    → (fetch_and_apply_snapshot response f).1 ≡ true
    → (response.status_code ≡ 200) × Synced f (fetch_and_apply_snapshot response f).0
unfolding fetch_and_apply_snapshot
fetch_and_apply_snapshot-Synced response f = elim (Bool-cases (response.status_code == 200)) [
  | inl good ↦
      rw good (λ h. ((==_iff response.status_code 200).0 good, apply_body-Synced response.body f h))
  | inr bad ↦ rw bad (λ h. absurd (false≢true h))
]
