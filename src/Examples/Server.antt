-- ===== src/Examples/Server.antt =====
-- The theorems on the server, the callback and the metrics at concrete inputs: two clients of one
-- stream, of which the second has too full a buffer.
use lob.Prelude.{
  ◌≡◌, ◌+◌, ◌%◌, ◌^◌, refl, true, false, List, [], ◌∷◌, some, if◌then◌else◌, ◌==◌, Bytes, codes,
  arith, All, same_text,
}
use lob.Prelude.Int.{pos, ◌+ℤ◌, ◌-ℤ◌}
use lob.Prelude.Maps.{map_some, lookup, has_text}
use lob.OfiTypes.{LevelDelta, genuine, backfill, maintenance}
use lob.Examples.{book}
use lob.OrderBook.{OrderBook, get_snapshot}
use lob.SubscriberServer.{
  SubscriberServer, Sockets, update_message, broadcast_update, rows_of, register, collect, seq_of,
  stream_key, next_seq, targets_of, send_all, deliver,
}
use lob.SubscriberServer.Delivery.{
  count_sends, count_closes, sends_to, closes_to, listeners, Carries, broadcast_update-counters,
  broadcast_update-listeners,
}
use lob.SubscriberServer.Genuine.{genuine_only, without_genuine, broadcast_update-genuine_only}
use lob.SubscriberServer.Sequence.{
  Event, connected, collected, run, subscribed, count_updates, snapshot_seq, all_keep,
  collect-after_snapshot, register-subscribed,
}
use lob.SubscriberProtocol.Request.{request_json, parse_client_message, parse-request_json}
use lob.Metrics.{Metrics, new_metrics}
use lob.Metrics.Histogram.{record_all, histogram, count_up_to, total, record_all-histogram}
use lob.Main.Callback.{on_update}
use lob.Main.OfiSum.{ofi_sum, SumsFit, ofi_of, on_update-accumulates}

abbrev exchange : Bytes
exchange = codes "binance"

abbrev symbol : Bytes
symbol = codes "BTC-USDT"

abbrev key : Bytes
key = stream_key exchange symbol

abbrev sockets : Sockets
sockets = record { alive = λ ws. true; buffered_amount = λ ws. if ws == 2 then 2000000 else 0 }

abbrev server : SubscriberServer
server = record {
  clients =
      (codes "a", record { ws = some 1; streams = key ∷ [] })
      ∷ (codes "b", record { ws = some 2; streams = key ∷ [] })
      ∷ [];
  seq_map = (key, 4) ∷ [];
  messages_sent = 0;
  backpressure_disconnects = 0;
}

abbrev bid : LevelDelta
bid = record {
  price = pos 100;
  new_qty = pos 7;
  delta_qty = pos 3;
  is_bid = true;
  was_in_view = true;
  in_ofi_view = true;
  kind = genuine;
}

abbrev ask : LevelDelta
ask = record bid { is_bid = false; delta_qty = pos 5 }

abbrev batch : List LevelDelta
batch = bid ∷ record bid { kind = backfill } ∷ record bid { kind = maintenance } ∷ ask ∷ []

broadcast_update-counters_example :
    ((broadcast_update sockets exchange symbol batch (pos 9) (pos 0) server).0.messages_sent ≡ 1)
    × ((broadcast_update sockets exchange symbol batch
          (pos 9)
          (pos 0)
          server).0.backpressure_disconnects
        ≡ 1)
unfolding broadcast_update count_sends count_closes rows_of targets_of send_all collect deliver
    has_text same_text
broadcast_update-counters_example =
    broadcast_update-counters sockets exchange symbol batch (pos 9) (pos 0) server

broadcast_update-listeners_example :
    (sends_to 1 (broadcast_update sockets exchange symbol batch (pos 9) (pos 0) server).1 ≡ 1)
    × (closes_to 1 (broadcast_update sockets exchange symbol batch (pos 9) (pos 0) server).1 ≡ 0)
    × All
        (Carries (
          update_message exchange symbol
            (pos 9)
            (rows_of true batch)
            (rows_of false batch)
            (pos 0)
            5))
        (broadcast_update sockets exchange symbol batch (pos 9) (pos 0) server).1
unfolding rows_of listeners has_text same_text next_seq lookup
broadcast_update-listeners_example =
    broadcast_update-listeners sockets exchange symbol batch (pos 9) (pos 0) server 1 refl

broadcast_update-genuine_only_example :
    (broadcast_update sockets exchange symbol batch (pos 9) (pos 0) server
      ≡ broadcast_update sockets exchange symbol (bid ∷ ask ∷ []) (pos 9) (pos 0) server)
    × (broadcast_update sockets exchange symbol
          (record bid { kind = backfill } ∷ record bid { kind = maintenance } ∷ [])
          (pos 9)
          (pos 0)
          server
        ≡ (server, []))
unfolding genuine_only without_genuine
broadcast_update-genuine_only_example =
    broadcast_update-genuine_only sockets exchange symbol batch (pos 9) (pos 0) server

abbrev filled : OrderBook
filled = record book { snapshot_applied = true }

abbrev books : List (Bytes × OrderBook)
books = (key, filled) ∷ []

abbrev between : List Event
between =
    collected sockets key ∷ connected (codes "c") 3 ∷ collected sockets (codes "kraken.X") ∷ []

collect-after_snapshot_example :
    (map_some (λ n. (n + count_updates key between + 1) % 2 ^ 64) (some 4))
    ≡ some
        (collect sockets key
          (run between (register books (pos 9) 10 (codes "a") exchange symbol server).0)).1
unfolding register lookup same_text snapshot_seq seq_of get_snapshot
collect-after_snapshot_example =
    collect-after_snapshot books (pos 9) 10 (codes "a") exchange symbol server sockets between
      (omega arith) refl

register-subscribed_example :
    subscribed
      (run between (register books (pos 9) 10 (codes "a") exchange symbol server).0)
      (codes "a")
      key
    ≡ true
unfolding all_keep same_text
register-subscribed_example =
    register-subscribed books (pos 9) 10 (codes "a") exchange symbol server between refl

parse-request_json_example :
    parse_client_message
      (some (request_json (codes "subscribe") (codes "binance.BTC-USDT.book" ∷ [])))
    ≡ some (record { op = codes "subscribe"; streams = codes "binance.BTC-USDT.book" ∷ [] })
unfolding same_text
parse-request_json_example =
    parse-request_json (codes "subscribe") (codes "binance.BTC-USDT.book" ∷ [])

record_all-histogram_example :
    ((record_all (pos 30 ∷ pos 3 ∷ pos 9000 ∷ [])).processing_buckets
      ≡ 0 ∷ 1 ∷ 1 ∷ 1 ∷ 2 ∷ 2 ∷ 2 ∷ 2 ∷ 2 ∷ 2 ∷ 3 ∷ [])
    × ((record_all (pos 30 ∷ pos 3 ∷ pos 9000 ∷ [])).processing_us_sum ≡ pos 9033)
unfolding histogram count_up_to total ◌+ℤ◌
record_all-histogram_example = record_all-histogram (pos 30 ∷ pos 3 ∷ pos 9000 ∷ [])

abbrev metrics : List (Bytes × Metrics)
metrics = (symbol, new_metrics) ∷ (codes "ETH-USDT", new_metrics) ∷ []

on_update-accumulates_example :
    let after = (on_update sockets exchange symbol batch (pos 9) (server, metrics)).0.1 in
    (lookup after symbol ≡ some (record new_metrics { ofi_accumulator = pos 0 +ℤ ofi_sum batch }))
    × (lookup after (codes "ETH-USDT") ≡ lookup metrics (codes "ETH-USDT"))
unfolding lookup same_text SumsFit ofi_of ofi_sum ◌+ℤ◌ ◌-ℤ◌
on_update-accumulates_example =
    on_update-accumulates sockets exchange symbol batch (pos 9) server metrics new_metrics
      (codes "ETH-USDT") refl refl (omega arith, omega arith)
      (
        (omega arith, omega arith),
        (
          (omega arith, omega arith),
          ((omega arith, omega arith), ((omega arith, omega arith), (omega arith, omega arith))),
        ),
      )
      (omega arith, omega arith)
