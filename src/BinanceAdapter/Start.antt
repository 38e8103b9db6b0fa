-- ===== src/BinanceAdapter/Start.antt =====
-- src/binance_adapter.cpp: the constructor, what `start` checks and sets before it connects, and the
-- loops that retry a fetch. While a loop waits, other calls may change the feed: `meanwhile` says how.

use lob.Prelude.{
  ℕ, zero, suc, ◌+◌, ◌*◌, Bool, true, false, not, ◌||◌, ◌&&◌, List, [], ◌∷◌, ◌++◌, Option, none,
  some, if◌then◌else◌, ◌==◌, Bytes, codes, invalid_argument, Result, ok, err, to_lower,
}
use lob.Prelude.Int.{pos}
use lob.Prelude.Maps.{lookup, assign, modify}
use lob.OrderBook
use lob.SymbolNormalizer.{SymbolNormalizer, from_canonical}
use lob.BinanceAdapter.{Feed, HttpResponse, fetch_and_apply_snapshot}
use lob.BinanceAdapter.Connection.{BinanceAdapter}

-- The constructor's check.
unfoldable pub make : ℕ → Result ℕ
make update_interval_ms =
    if not (update_interval_ms == 100) && not (update_interval_ms == 1000)
    then err invalid_argument
    else ok update_interval_ms

abbrev pub or_else : Option Bytes → Bytes → Bytes
or_else none s = s
or_else (some t) s = t

unfoldable pub binance_symbol : SymbolNormalizer → Bytes → Bytes
binance_symbol n canonical = or_else (from_canonical n (codes "binance") canonical) canonical

abbrev pub is_some : {A : Type 0} → Option A → Bool
is_some none = false
is_some (some a) = true

-- The loop that checks the symbols and fills `binanceToCanonical_`; `none` where it returns false.
unfoldable pub index_symbols :
    SymbolNormalizer
    → List (Bytes × Feed)
    → List Bytes
    → List (Bytes × Bytes)
    → Option (List (Bytes × Bytes))
unfolding binance_symbol
index_symbols n feeds [] index = some index
index_symbols n feeds (canonical ∷ symbols) index =
    let rest =
      index_symbols n feeds symbols (assign (binance_symbol n canonical) canonical index) in
    if is_some (lookup feeds canonical) then rest else none

-- All books and buffers are cleared, and the sentinels of the symbols.
abbrev pub clear_feed : Feed → Feed
clear_feed f = record f { book = OrderBook.clear f.book; buffer = [] }

abbrev pub clear_feeds : List (Bytes × Feed) → List (Bytes × Feed)
clear_feeds [] = []
clear_feeds ((sym, f) ∷ feeds) = (sym, clear_feed f) ∷ clear_feeds feeds

abbrev pub unready : Feed → Feed
unready f = record f {
  metrics = record f.metrics { last_update_time_ms = pos 0; live_ready = false };
}

abbrev pub unready_all : List Bytes → List (Bytes × Feed) → List (Bytes × Feed)
unready_all [] feeds = feeds
unready_all (sym ∷ symbols) feeds = unready_all symbols (modify unready sym feeds)

abbrev pub prepared :
    List Bytes
    → List (Bytes × Feed)
    → BinanceAdapter
    → Option (List (Bytes × Bytes))
    → Option BinanceAdapter
prepared symbols feeds a none = none
prepared symbols feeds a (some index) = some (record a {
  ws_connected = false;
  last_connection_activity_ms = pos 0;
  subscribed_symbols = symbols;
  binance_to_canonical = index;
  feeds = unready_all symbols (clear_feeds feeds);
})

-- `start` up to the connection; the feeds are the maps it is given.
unfoldable pub prepare :
    SymbolNormalizer → List Bytes → List (Bytes × Feed) → BinanceAdapter → Option BinanceAdapter
unfolding index_symbols
prepare n symbols feeds a = prepared symbols feeds a (index_symbols n feeds symbols [])

-- The streams of the URL.
abbrev pub stream_name : SymbolNormalizer → Bytes → Bytes → Bytes
stream_name n interval canonical =
    to_lower (binance_symbol n canonical) ++ codes "@depth@" ++ interval ++ codes "ms"

abbrev pub join_stream : Bytes → Bytes → Bytes
join_stream [] name = name
join_stream url name = url ++ b'/' ∷ name

unfoldable pub url_streams : SymbolNormalizer → Bytes → List Bytes → Bytes → Bytes
url_streams n interval [] url = url
url_streams n interval (canonical ∷ symbols) url =
    url_streams n interval symbols (join_stream url (stream_name n interval canonical))

-- What a loop of attempts ends with: the feed, whether it succeeded, and the delays in ms that it
-- waited.
pub record Attempts : Type 0 where
  pub feed : Feed
  pub succeeded : Bool
  pub delays_ms : List ℕ

-- The loop from attempt number `attempt` on, with `left` attempts to go; `base` is 2000 in `start` and
-- 1000 in `runResyncWorker`.
unfoldable pub fetch_attempts :
    (base : ℕ)
    → (ℕ → HttpResponse)
    → (ℕ → Feed → Feed)
    → (ℕ → Bool)
    → (left attempt : ℕ) → Feed
    → Attempts
fetch_attempts base respond meanwhile stopped zero attempt f = record {
  feed = f;
  succeeded = false;
  delays_ms = [];
}
fetch_attempts base respond meanwhile stopped (suc left) attempt f =
    let (f', done) = fetch_and_apply_snapshot (respond attempt) f in
    let rest =
      fetch_attempts base respond meanwhile stopped left (attempt + 1) (meanwhile attempt f') in
    if done
    then record { feed = f'; succeeded = true; delays_ms = [] }
    else if stopped attempt || left == 0
    then record { feed = f'; succeeded = false; delays_ms = [] }
    else record rest { delays_ms = base * attempt ∷ rest.delays_ms }
