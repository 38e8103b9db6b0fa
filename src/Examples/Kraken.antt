-- ===== src/Examples/Kraken.antt =====
-- The theorem on the start of the Kraken adapter at a concrete input: one symbol, whose snapshot
-- arrives after the connection.
use mathlib.Core.Path.{subst}
use lob.Prelude.{
  ◌≡◌, refl, true, false, List, [], ◌∷◌, some, Bytes, codes, same_text, arith, Result, ok, err,
  runtime_error, ok_inj,
}
use lob.Prelude.Int.{pos, ◌/ℤ◌, ◌*ℤ◌, ◌+ℤ◌, ◌-ℤ◌}
use lob.Prelude.Maps.{Each, lookup, has_text, add_text, modify, remove_text}
use lob.PriceLadder.{empty_ladder}
use lob.OrderBook
use lob.PriceLadder
use lob.OrderBook.{make}
use lob.OrderBook.Valid.{BookValid, make-BookValid}
use lob.Decimal.{parse_decimal}
use lob.SafeArithmetic.{safe_multiply, safe_add}
use lob.SymbolNormalizer.{default_normalizer, from_canonical, to_canonical}
use lob.Metrics.{new_metrics}
use lob.Json.{range, Json, real, text, array, object, nil, cons, field, end, find_field}
use lob.KrakenUtils.{clamp_book_depth, levels_to_string_pairs}
use lob.OrderBook.Parse.{parse_levels, apply_snapshot_message}
use lob.BinanceAdapter.{Clock}
use lob.BinanceAdapter.FeedValid.{Quotes, known-Quotes}
use lob.KrakenAdapter.{Texts, KrakenFeed, KrakenAdapter, opened, message, handle_ws_message, sides}
use lob.KrakenAdapter.Coverage.{has_snapshot}
use lob.KrakenAdapter.Startup.{prepare, start_result}
use lob.KrakenAdapter.Reachable.{begun, framed, start_result-KrakenValid}

abbrev number_text : Json → Result Bytes
number_text (real s) = ok s
number_text _ = err runtime_error

abbrev texts : Texts
texts = record { format = number_text; iso_timestamp_to_ms = λ _. pos 0 }

abbrev level : Bytes → Bytes → Json
level price qty = object (field (codes "price") (real price) (field (codes "qty") (real qty) end))

abbrev item : Json
item = object (
    field (codes "symbol") (text (codes "BTC/USD")) (
      field (codes "bids") (array (cons (level (codes "1.5") (codes "2")) nil))
        (field (codes "asks") (array (cons (level (codes "2.5") (codes "1")) nil)) end)))

abbrev snapshot_json : Json
snapshot_json = object (
    field (codes "channel") (text (codes "book")) (
      field (codes "type") (text (codes "snapshot"))
        (field (codes "data") (array (cons item nil)) end)))

abbrev feeds : List (Bytes × KrakenFeed)
feeds =
    (codes "BTC-USD", record { book = make 2 (empty_ladder 10000000 3); metrics = new_metrics })
    ∷ []

abbrev before : KrakenAdapter
before = record {
  normalizer = default_normalizer;
  ws_connected = true;
  last_connection_activity_ms = pos 7;
  pending_snapshots = [];
  subscribe_error = true;
  snapshot_depth = 1000;
  kraken_symbols = [];
  subscribed_symbols = [];
  feeds = [];
}

abbrev first : KrakenAdapter
first = record before {
  ws_connected = false;
  last_connection_activity_ms = pos 0;
  pending_snapshots = codes "BTC-USD" ∷ [];
  subscribe_error = false;
  snapshot_depth = 25;
  kraken_symbols = codes "BTC/USD" ∷ [];
  subscribed_symbols = codes "BTC-USD" ∷ [];
  feeds = feeds;
}

abbrev clock : Clock
clock = record { system_ms = pos 1010; steady_ms = pos 500; elapsed_us = pos 40 }

abbrev ready : KrakenAdapter
ready =
    (handle_ws_message texts clock (message (some snapshot_json))
      (handle_ws_message texts clock opened first).0).0

start_result-KrakenValid_example :
    (has_snapshot (lookup ready.feeds (codes "BTC-USD")) ≡ true)
    × Each (λ _ f. BookValid 10000000 f.book) ready.feeds
unfolding sides range prepare from_canonical same_text lookup add_text clamp_book_depth modify make
    OrderBook.clear PriceLadder.clear find_field levels_to_string_pairs parse_levels parse_decimal
    safe_multiply ◌/ℤ◌ safe_add ◌*ℤ◌ ◌-ℤ◌ ◌+ℤ◌ has_text start_result handle_ws_message to_canonical
    apply_snapshot_message remove_text
start_result-KrakenValid_example =
    start_result-KrakenValid 10000000 30 texts (codes "BTC-USD" ∷ []) feeds before first ready
      (codes "BTC-USD") (make-BookValid 10000000 2 3 (omega arith), tt) refl
      (framed (framed begun clock opened tt refl) clock (message (some snapshot_json))
        (
          λ levels e.
              subst (λ l. Quotes 10000000 l.0 × Quotes 10000000 l.1) (ok_inj e)
                (
                  known-Quotes 10000000 ((codes "1.5", codes "2") ∷ [])
                      ((pos 150000000, pos 200000000) ∷ []) refl
                      ((150000000, refl, omega arith, refl, refl), tt),
                  known-Quotes 10000000 ((codes "2.5", codes "1") ∷ [])
                      ((pos 250000000, pos 100000000) ∷ []) refl
                      ((250000000, refl, omega arith, refl, refl), tt),
                ),
          tt,
        )
        refl)
      refl refl
