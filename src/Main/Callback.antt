-- ===== src/Main/Callback.antt =====
-- src/main.cpp: the update callback that it gives to the adapters: the OFI change of a batch, its
-- broadcast, and its sum in the metrics. The loop of `compare_exchange_weak` is one addition.
use lob.Prelude.{Bool, true, false, not, ◌&&◌, ◌||◌, List, [], ◌∷◌, if◌then◌else◌, Bytes}
use lob.Prelude.Int.{ℤ, pos}
use lob.Prelude.Maps.{modify}
use lob.OfiTypes.{EventKind, genuine, backfill, maintenance, LevelDelta}
use lob.SafeArithmetic.{checked_add, checked_subtract}
use lob.Metrics.{Metrics}
use lob.SubscriberServer.{SubscriberServer, Sockets, Action, broadcast_update}

abbrev pub is_backfill : EventKind → Bool
is_backfill genuine = false
is_backfill backfill = true
is_backfill maintenance = false

abbrev pub counts : LevelDelta → Bool
counts d = not (is_backfill d.kind) && (d.was_in_view || d.in_ofi_view)

-- The loop over the deltas: `ofi` and `hasOfiDelta` from their values before it.
unfoldable pub sum_ofi : ℤ × Bool → List LevelDelta → ℤ × Bool
sum_ofi (ofi, has) [] = (ofi, has)
sum_ofi (ofi, has) (d ∷ deltas) =
    if counts d
    then sum_ofi
        (if d.is_bid then checked_add ofi d.delta_qty else checked_subtract ofi d.delta_qty, true)
        deltas
    else sum_ofi (ofi, has) deltas

abbrev pub add_ofi : ℤ → Metrics → Metrics
add_ofi ofi m = record m { ofi_accumulator = checked_add m.ofi_accumulator ofi }

-- The server and the metrics after the callback, and what the sockets are told.
unfoldable pub on_update :
    Sockets
    → Bytes
    → Bytes
    → List LevelDelta
    → ℤ
    → SubscriberServer × List (Bytes × Metrics)
    → (SubscriberServer × List (Bytes × Metrics)) × List Action
unfolding sum_ofi
on_update sockets exchange symbol deltas ts (server, metrics) =
    let (ofi, has) = sum_ofi (pos 0, false) deltas in
    let (server', actions) = broadcast_update sockets exchange symbol deltas ts ofi server in
    ((server', if has then modify (add_ofi ofi) symbol metrics else metrics), actions)
