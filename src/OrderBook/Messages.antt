-- ===== src/OrderBook/Messages.antt =====
-- The overloads of src/order_book.cpp that read messages, by the calls they end in.
use mathlib.Core.Path.{subst}
use lob.Prelude.{
  ◌≡◌, refl, ◌∙◌, Bool, true, false, List, [], ◌∷◌, Result, ok, err, ◌>>=◌, err-ne-ok, ok_inj,
}
use lob.Prelude.Int.{ℤ, pos, ◌+ℤ◌, leb_ℤ, ltb_ℤ}
use lob.PriceLadder.{PriceLadder}
use lob.OfiTypes.{EventKind, LevelDelta, UpdateResult}
use lob.OfiView.{Level}
use lob.OrderBook.{
  OrderBook, with_side, apply_level_change, apply_levels, apply_update, apply_snapshot, apply_delta,
}
use lob.OrderBook.Side.{if_two}
use lob.OrderBook.Parse.{
  TextLevels, parse_levels, apply_update_message, apply_snapshot_message, apply_delta_message,
}

with_side-snapshot_applied :
    (s : Bool) (l : PriceLadder) (w : List Level) (b : OrderBook)
    → (with_side s l w b).snapshot_applied ≡ b.snapshot_applied
with_side-snapshot_applied true l w b = refl
with_side-snapshot_applied false l w b = refl

apply_levels-snapshot_applied :
    (b : OrderBook) (levels : List Level) (is_bid : Bool) (kind : EventKind)
    → (apply_levels b levels is_bid kind).0.snapshot_applied ≡ b.snapshot_applied
unfolding apply_levels apply_level_change
apply_levels-snapshot_applied b [] is_bid kind = refl
apply_levels-snapshot_applied b (e ∷ levels) is_bid kind =
    apply_levels-snapshot_applied (apply_level_change b e.0 e.1 is_bid kind).0 levels is_bid kind
    ∙ with_side-snapshot_applied is_bid _ _ b

-- An update does not change whether a snapshot was applied.
pub apply_update-snapshot_applied :
    (b : OrderBook) (first_id last_id : ℤ) (asks bids : List Level) (kind : EventKind)
    → (apply_update b first_id last_id asks bids kind).0.snapshot_applied ≡ b.snapshot_applied
unfolding apply_update
apply_update-snapshot_applied b first_id last_id asks bids kind =
    if_two (λ (r : OrderBook × UpdateResult). r.0.snapshot_applied ≡ b.snapshot_applied)
      (leb_ℤ last_id b.last_update_id) (λ _. refl)
      (λ _.
        if_two (λ (r : OrderBook × UpdateResult). r.0.snapshot_applied ≡ b.snapshot_applied)
          (ltb_ℤ (b.last_update_id +ℤ pos 1) first_id) (λ _. refl)
          (λ _.
            apply_levels-snapshot_applied (apply_levels b asks false kind).0 bids true kind
            ∙ apply_levels-snapshot_applied b asks false kind))

-- What `apply_update_message` returns is what an update with the parsed levels returns.
pub message_update :
    (P : OrderBook × UpdateResult → Type 0) (b : OrderBook) (first_id last_id : ℤ)
    (ask_texts bid_texts : TextLevels) (kind : EventKind) {r : OrderBook × UpdateResult}
    → ((asks bids : List Level)
        → parse_levels ask_texts ≡ ok asks
        → parse_levels bid_texts ≡ ok bids
        → P (apply_update b first_id last_id asks bids kind))
    → apply_update_message b first_id last_id ask_texts bid_texts kind ≡ ok r
    → P r
unfolding apply_update_message
message_update P b first_id last_id ask_texts bid_texts kind {r} given e =
    go (parse_levels ask_texts) (parse_levels bid_texts) refl refl e
  where
    go :
        (x y : Result (List Level))
        → parse_levels ask_texts ≡ x
        → parse_levels bid_texts ≡ y
        → (x >>= λ asks. y >>= λ bids. ok (apply_update b first_id last_id asks bids kind)) ≡ ok r
        → P r
    go (err _) y _ _ h = absurd (err-ne-ok h)
    go (ok asks) (err _) _ _ h = absurd (err-ne-ok h)
    go (ok asks) (ok bids) ha hb h = subst P (ok_inj h) (given asks bids ha hb)

-- What `apply_snapshot_message` returns is what a snapshot with the parsed levels gives.
pub message_snapshot :
    (P : OrderBook → Type 0) (b : OrderBook) (new_id : ℤ) (ask_texts bid_texts : TextLevels)
    {c : OrderBook}
    → ((asks bids : List Level)
        → parse_levels ask_texts ≡ ok asks
        → parse_levels bid_texts ≡ ok bids
        → P (apply_snapshot b new_id asks bids))
    → apply_snapshot_message b new_id ask_texts bid_texts ≡ ok c
    → P c
unfolding apply_snapshot_message
message_snapshot P b new_id ask_texts bid_texts {c} given e =
    go (parse_levels ask_texts) (parse_levels bid_texts) refl refl e
  where
    go :
        (x y : Result (List Level))
        → parse_levels ask_texts ≡ x
        → parse_levels bid_texts ≡ y
        → (x >>= λ asks. y >>= λ bids. ok (apply_snapshot b new_id asks bids)) ≡ ok c
        → P c
    go (err _) y _ _ h = absurd (err-ne-ok h)
    go (ok asks) (err _) _ _ h = absurd (err-ne-ok h)
    go (ok asks) (ok bids) ha hb h = subst P (ok_inj h) (given asks bids ha hb)

-- A delta does not change whether a snapshot was applied.
pub apply_delta-snapshot_applied :
    (b : OrderBook) (bids asks : List Level) (kind : EventKind)
    → (apply_delta b bids asks kind).0.snapshot_applied ≡ b.snapshot_applied
unfolding apply_delta
apply_delta-snapshot_applied b bids asks kind =
    apply_levels-snapshot_applied (apply_levels b bids true kind).0 asks false kind
    ∙ apply_levels-snapshot_applied b bids true kind

-- What `apply_delta_message` returns is what a delta with the parsed levels returns.
pub message_delta :
    (P : OrderBook × List LevelDelta → Type 0) (b : OrderBook) (bid_texts ask_texts : TextLevels)
    (kind : EventKind) {r : OrderBook × List LevelDelta}
    → ((bids asks : List Level)
        → parse_levels bid_texts ≡ ok bids
        → parse_levels ask_texts ≡ ok asks
        → P (apply_delta b bids asks kind))
    → apply_delta_message b bid_texts ask_texts kind ≡ ok r
    → P r
unfolding apply_delta_message
message_delta P b bid_texts ask_texts kind {r} given e =
    go (parse_levels bid_texts) (parse_levels ask_texts) refl refl e
  where
    go :
        (x y : Result (List Level))
        → parse_levels bid_texts ≡ x
        → parse_levels ask_texts ≡ y
        → (x >>= λ bids. y >>= λ asks. ok (apply_delta b bids asks kind)) ≡ ok r
        → P r
    go (err _) y _ _ h = absurd (err-ne-ok h)
    go (ok bids) (err _) _ _ h = absurd (err-ne-ok h)
    go (ok bids) (ok asks) hb ha h = subst P (ok_inj h) (given bids asks hb ha)
