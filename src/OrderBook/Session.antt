-- ===== src/OrderBook/Session.antt =====
-- The life of a book: the calls that a feed makes on it, in any order, and what holds in between.
use mathlib.Core.Bool.{false≢true}
use lob.Prelude.{ℕ, ◌<◌, ◌≡◌, refl, sym, ap, true, false, Bool-cases, inl, inr, arith, List, All}
use lob.Prelude.Int.{ℤ, pos, ltb_ℤ, leb_ℤ, ◌+ℤ◌, ◌<ℤ◌, ◌≤ℤ◌}
use lob.PriceLadder.{empty_ladder}
use lob.OfiTypes.{EventKind, UpdateResult}
use lob.OfiView.{Level}
use lob.OrderBook.{OrderBook, make, apply_update, apply_delta, apply_snapshot, clear}
use lob.OrderBook.Side.{if_two}
use lob.OrderBook.Valid.{
  BookValid, IsQuote, make-BookValid, apply_snapshot-BookValid, apply_update-BookValid,
  apply_delta-BookValid, clear-BookValid,
}

-- The books that the calls of a feed lead to, if its levels are quotes on the grid of the book.
pub data Reachable (tick depth half : ℕ) : OrderBook → Type 0 where
  made : Reachable tick depth half (make depth (empty_ladder tick half))
  snapshot :
      {b : OrderBook}
      → Reachable tick depth half b
      → (new_id : ℤ) (asks bids : List Level) → All (IsQuote tick) asks
      → All (IsQuote tick) bids
      → Reachable tick depth half (apply_snapshot b new_id asks bids)
  update :
      {b : OrderBook}
      → Reachable tick depth half b
      → (first_id last_id : ℤ) (asks bids : List Level) (kind : EventKind) → All (IsQuote tick) asks
      → All (IsQuote tick) bids
      → Reachable tick depth half (apply_update b first_id last_id asks bids kind).0
  delta :
      {b : OrderBook}
      → Reachable tick depth half b
      → (bids asks : List Level) (kind : EventKind) → All (IsQuote tick) bids
      → All (IsQuote tick) asks
      → Reachable tick depth half (apply_delta b bids asks kind).0
  cleared : {b : OrderBook} → Reachable tick depth half b → Reachable tick depth half (clear b)

-- In every book that a feed can reach, with a tick above 0, both ladders keep their invariant and
-- each OFI view is the best `ofi_depth` levels of its ladder, best first, with their quantities.
pub reachable-BookValid :
    (tick depth half : ℕ) {b : OrderBook}
    → 0 < tick
    → Reachable tick depth half b
    → BookValid tick b
reachable-BookValid tick depth half above made = make-BookValid tick depth half above
reachable-BookValid tick depth half above (snapshot r new_id asks bids ha hb) =
    apply_snapshot-BookValid tick new_id asks bids (reachable-BookValid tick depth half above r) ha
      hb
reachable-BookValid tick depth half above (update r first_id last_id asks bids kind ha hb) =
    apply_update-BookValid tick first_id last_id asks bids kind
      (reachable-BookValid tick depth half above r) ha hb
reachable-BookValid tick depth half above (delta r bids asks kind hb ha) =
    apply_delta-BookValid tick bids asks kind (reachable-BookValid tick depth half above r) hb ha
reachable-BookValid tick depth half above (cleared r) =
    clear-BookValid tick (reachable-BookValid tick depth half above r)

-- The promise of an update: after it the book's last id has not decreased, a success has reached the update's last
-- id, and a failure (only for an update that starts beyond the next id) has changed nothing.
abbrev pub Follows : OrderBook → ℤ → ℤ → OrderBook × UpdateResult → Type 0
Follows b first_id last_id (b', result) =
    (b.last_update_id ≤ℤ b'.last_update_id)
    × (result.success ≡ true → last_id ≤ℤ b'.last_update_id)
    × (result.success ≡ false → (b' ≡ b) × (b.last_update_id +ℤ pos 1 <ℤ first_id))

-- After every update the book's last id has not decreased; a success has reached the last id of the
-- update, and a failure has left the book as it was and says that the update starts beyond the next
-- id.
pub apply_update-Follows :
    (b : OrderBook) (first_id last_id : ℤ) (asks bids : List Level) (kind : EventKind)
    → Follows b first_id last_id (apply_update b first_id last_id asks bids kind)
unfolding apply_update
apply_update-Follows b first_id last_id asks bids kind =
    if_two (Follows b first_id last_id) (leb_ℤ last_id b.last_update_id)
      (λ stale. (omega arith, λ _. ground arith, λ e. absurd (false≢true (sym e))))
      (λ fresh.
        if_two (Follows b first_id last_id) (ltb_ℤ (b.last_update_id +ℤ pos 1) first_id)
          (λ gap. (omega arith, λ e. absurd (false≢true e), λ _. (refl, ground arith)))
          (λ _. (ground arith, λ _. omega arith, λ e. absurd (false≢true (sym e)))))

stale-same :
    (b : OrderBook) (first_id last_id : ℤ) (asks bids : List Level) (kind : EventKind)
    → last_id ≤ℤ b.last_update_id
    → (apply_update b first_id last_id asks bids kind).0 ≡ b
unfolding apply_update
stale-same b first_id last_id asks bids kind h =
    let stale : leb_ℤ last_id b.last_update_id ≡ true = ground arith in rw stale

-- An update that is applied a second time, right after the first, leaves the book as it is.
pub apply_update-again :
    (b : OrderBook) (first_id last_id : ℤ) (asks bids : List Level) (kind : EventKind)
    → let b' = (apply_update b first_id last_id asks bids kind).0 in
      (apply_update b' first_id last_id asks bids kind).0 ≡ b'
apply_update-again b first_id last_id asks bids kind =
    let (_, reached, refused) = apply_update-Follows b first_id last_id asks bids kind in
    elim (Bool-cases (apply_update b first_id last_id asks bids kind).1.success) [
      | inl e ↦ stale-same _ first_id last_id asks bids kind (reached e)
      | inr e ↦ ap (λ x. (apply_update x first_id last_id asks bids kind).0) (refused e).0
    ]
