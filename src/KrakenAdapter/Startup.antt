-- ===== src/KrakenAdapter/Startup.antt =====
-- src/kraken_adapter.cpp: what `start` checks and sets before it connects, and when it succeeds; and
-- that the adapter's invariant holds through every interleaving after it.

use lob.Prelude.{ℕ, Bool, true, false, not, ◌&&◌, List, [], ◌∷◌, Option, none, some, Bytes, codes}
use lob.Prelude.Int.{pos}
use lob.Prelude.Maps.{lookup, modify}
use lob.OrderBook
use lob.SymbolNormalizer.{from_canonical}
use lob.KrakenUtils.{clamp_book_depth}
use lob.KrakenAdapter.{KrakenFeed, KrakenAdapter, add_all}

abbrev pub cons_some : Bytes → Option (List Bytes) → Option (List Bytes)
cons_some s none = none
cons_some s (some ss) = some (s ∷ ss)

abbrev pub with_feed : Option KrakenFeed → Option (List Bytes) → Option (List Bytes)
with_feed none rest = none
with_feed (some f) rest = rest

abbrev pub with_symbol : Option Bytes → Option (List Bytes) → Option (List Bytes)
with_symbol none rest = none
with_symbol (some s) rest = cons_some s rest

-- The loop that checks the symbols and finds their names at Kraken; `none` where it returns false.
unfoldable pub local_symbols :
    KrakenAdapter → List (Bytes × KrakenFeed) → List Bytes → Option (List Bytes)
local_symbols a feeds [] = some []
local_symbols a feeds (canonical ∷ symbols) =
    with_symbol (from_canonical a.normalizer (codes "kraken") canonical)
      (with_feed (lookup feeds canonical) (local_symbols a feeds symbols))

abbrev pub clear_feed : KrakenFeed → KrakenFeed
clear_feed f = record f { book = OrderBook.clear f.book }

abbrev pub clear_feeds : List (Bytes × KrakenFeed) → List (Bytes × KrakenFeed)
clear_feeds [] = []
clear_feeds ((s, f) ∷ feeds) = (s, clear_feed f) ∷ clear_feeds feeds

abbrev pub unset : KrakenFeed → KrakenFeed
unset f = record f { metrics = record f.metrics { last_update_time_ms = pos 0 } }

abbrev pub unset_all : List Bytes → List (Bytes × KrakenFeed) → List (Bytes × KrakenFeed)
unset_all [] feeds = feeds
unset_all (s ∷ symbols) feeds = unset_all symbols (modify unset s feeds)

abbrev pub prepared :
    ℕ
    → List Bytes
    → List (Bytes × KrakenFeed)
    → KrakenAdapter
    → Option (List Bytes)
    → Option KrakenAdapter
prepared depth symbols feeds a none = none
prepared depth symbols feeds a (some names) = some (record a {
  ws_connected = false;
  last_connection_activity_ms = pos 0;
  pending_snapshots = add_all symbols [];
  subscribe_error = false;
  snapshot_depth = clamp_book_depth depth;
  kraken_symbols = names;
  subscribed_symbols = symbols;
  feeds = unset_all symbols (clear_feeds feeds);
})

-- `start` up to the connection; the feeds are the maps that it is given.
unfoldable pub prepare :
    ℕ → List Bytes → List (Bytes × KrakenFeed) → KrakenAdapter → Option KrakenAdapter
unfolding local_symbols
prepare depth symbols feeds a = prepared depth symbols feeds a (local_symbols a feeds symbols)

abbrev pub is_none : List Bytes → Bool
is_none [] = true
is_none (s ∷ ss) = false

-- What `start` returns when its wait for the snapshots ends.
unfoldable pub start_result : KrakenAdapter → Bool
start_result a = is_none a.pending_snapshots && not a.subscribe_error
