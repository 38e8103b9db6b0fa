-- ===== src/SubscriberServer/Genuine.antt =====
-- src/subscriber_server.hpp: which changes of a batch a broadcast tells the subscribers of.
use lob.Prelude.{◌≡◌, refl, ◌&&◌, Bool, true, false, List, [], ◌∷◌, if◌then◌else◌, Bytes, ap, ◌∙◌}
use lob.Prelude.Int.{ℤ}
use lob.OfiTypes.{EventKind, genuine, backfill, maintenance, LevelDelta}
use lob.SubscriberProtocol.{format_scaled}
use lob.SubscriberServer.{
  Rows, Sockets, SubscriberServer, is_genuine, same_side, rows_of, broadcast_update,
}

-- The live changes of a batch, and the others: those of a backfill and of the upkeep of the view.
abbrev if_genuine : EventKind → LevelDelta → List LevelDelta → List LevelDelta
if_genuine genuine d deltas = d ∷ deltas
if_genuine backfill d deltas = deltas
if_genuine maintenance d deltas = deltas

abbrev unless_genuine : EventKind → LevelDelta → List LevelDelta → List LevelDelta
unless_genuine genuine d deltas = deltas
unless_genuine backfill d deltas = d ∷ deltas
unless_genuine maintenance d deltas = d ∷ deltas

unfoldable pub genuine_only : List LevelDelta → List LevelDelta
genuine_only [] = []
genuine_only (d ∷ deltas) = if_genuine d.kind d (genuine_only deltas)

unfoldable pub without_genuine : List LevelDelta → List LevelDelta
without_genuine [] = []
without_genuine (d ∷ deltas) = unless_genuine d.kind d (without_genuine deltas)

-- The rows of a batch by its first change.
row_of : Bool → EventKind → LevelDelta → Rows → Rows
row_of side k d rows =
    if is_genuine k && same_side side d.is_bid
    then (format_scaled d.price, format_scaled d.new_qty) ∷ rows
    else rows

rows_of-if_genuine :
    (side : Bool) (k : EventKind) (d : LevelDelta) (deltas : List LevelDelta)
    → d.kind ≡ k
    → rows_of side (if_genuine k d deltas) ≡ row_of side k d (rows_of side deltas)
unfolding rows_of row_of
rows_of-if_genuine side genuine d deltas e = rw e refl
rows_of-if_genuine side backfill d deltas e = refl
rows_of-if_genuine side maintenance d deltas e = refl

rows_of-unless_genuine :
    (side : Bool) (k : EventKind) (d : LevelDelta) (deltas : List LevelDelta)
    → d.kind ≡ k
    → rows_of side (unless_genuine k d deltas) ≡ rows_of side deltas
unfolding rows_of
rows_of-unless_genuine side genuine d deltas e = refl
rows_of-unless_genuine side backfill d deltas e = rw e refl
rows_of-unless_genuine side maintenance d deltas e = rw e refl

rows_of-genuine_only :
    (side : Bool) (deltas : List LevelDelta)
    → rows_of side (genuine_only deltas) ≡ rows_of side deltas
unfolding rows_of genuine_only row_of
rows_of-genuine_only side [] = refl
rows_of-genuine_only side (d ∷ deltas) =
    rows_of-if_genuine side d.kind d (genuine_only deltas) refl
    ∙ ap (row_of side d.kind d) (rows_of-genuine_only side deltas)

rows_of-without_genuine :
    (side : Bool) (deltas : List LevelDelta) → rows_of side (without_genuine deltas) ≡ []
unfolding rows_of without_genuine
rows_of-without_genuine side [] = refl
rows_of-without_genuine side (d ∷ deltas) =
    rows_of-unless_genuine side d.kind d (without_genuine deltas) refl
    ∙ rows_of-without_genuine side deltas

-- A broadcast sends and does the same as one without the Backfill and Maintenance changes, and these
-- alone send nothing and leave the server as it is.
pub broadcast_update-genuine_only :
    (sockets : Sockets) (exchange symbol : Bytes) (deltas : List LevelDelta) (ts ofi_delta : ℤ)
    (s : SubscriberServer)
    → (broadcast_update sockets exchange symbol deltas ts ofi_delta s
        ≡ broadcast_update sockets exchange symbol (genuine_only deltas) ts ofi_delta s)
      × (broadcast_update sockets exchange symbol (without_genuine deltas) ts ofi_delta s ≡ (s, []))
unfolding broadcast_update
broadcast_update-genuine_only sockets exchange symbol deltas ts ofi_delta s = (
  rw (rows_of-genuine_only true deltas, rows_of-genuine_only false deltas) refl,
  rw (rows_of-without_genuine true deltas, rows_of-without_genuine false deltas) refl,
)
