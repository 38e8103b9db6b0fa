-- ===== src/Lib.antt =====
-- LOB: a multi-exchange order book server (https://github.com/bountx/LOB).
--
-- The server keeps one order book for each exchange and symbol. An adapter feeds it messages; the
-- book answers with the level changes from which order-flow imbalance (OFI) is computed, and hands
-- snapshots to subscribers.
--
--   PriceLadder (src/price_ladder.hpp, src/price_ladder.cpp): one side of a book, an array of
--     quantities indexed by price tick, with a window that `set` moves (`recenter`). `set_level`
--     is `set`, `get_level` is `get`; the indices -1 are `none`.
--   OfiView (src/order_book.cpp, updateOfiView and rebuildOfiSide): the best levels of a side.
--   OrderBook (src/order_book.hpp, src/order_book.cpp, src/ofi_types.hpp): two ladders with a
--     view on each. `change_side` is one side of applyLevelChange, `apply_update` is
--     applyUpdateCore; OrderBook.Parse has the overloads that read JSON messages.
--   Decimal (src/decimal.hpp): decimal texts, scaled by 10 ^ 8.
--   SafeArithmetic (src/safe_arithmetic.hpp, src/utils/checked_arith.hpp): arithmetic on
--     `long long` that throws or clamps.
--   SymbolNormalizer (src/symbol_normalizer.hpp): exchange symbols and canonical names.
--   SubscriberProtocol (src/subscriber_protocol.hpp): the texts of prices and quantities, and the
--     names of streams.
--     SubscriberProtocol.Request has parseClientMessage.
--   SubscriberServer (src/subscriber_server.hpp, src/subscriber_stats.hpp): the table of clients,
--     the sequence numbers and the counters. `collect` and `deliver` are the parts of
--     broadcastUpdate with and after the mutex, `register` the locked part of handleSubscribe;
--     SubscriberServer.Messages has the JSON values that the protocol builds.
--   BinanceAdapter (src/binance_adapter.hpp, src/binance_adapter.cpp, src/binance_utils.hpp): one
--     symbol is a `Feed`; `receive` is handleWsMessage for its book, with a slow and a fast path.
--     BinanceAdapter.Connection has the events of the socket, the resync queue and the watchdog,
--     BinanceAdapter.Start the constructor, the checks of `start` and the loop of attempts.
--   KrakenAdapter (src/kraken_adapter.hpp, src/kraken_adapter.cpp): the handlers of the book channel;
--     KrakenAdapter.Startup has what `start` sets and returns.
--   KrakenUtils (src/kraken_utils.hpp): clampBookDepth and levelsToStringPairs.
--   Metrics (src/metrics.hpp): the counters and the histogram of one symbol.
--   PrometheusFormat (src/prometheus_format.hpp): escapeLabelValue and writeLine.
--   Main (src/main.cpp): Main.Config has the checks on the configuration, Main.Callback the update
--     callback, Main.Startup the start of the adapters with its attempts and waits.
--   Json: the values of the JSON library and what the source asks of them.
--   Prelude: shared names, the integers with the limits of `long long`, lists, texts, results, maps.
--   Examples: the theorems at concrete inputs.
--
-- An OrderBook calls its PriceLadders, and an OFI view is built and updated from the ladder behind
-- it: a view asks of the ladder only what OfiView.Update.LevelSource says, which OfiView.Source
-- proves of a valid ladder. Decimal uses SafeArithmetic, and the messages of a book are read with
-- Decimal. An adapter applies snapshots and updates to the book of a feed and gives the deltas to the
-- callback of Main, which broadcasts them with SubscriberServer and adds their OFI to the Metrics;
-- a subscription takes its snapshot from the book.
--
-- Numbers: `long long` values are integers without bounds, and the limits of the type are written
-- out where the source tests them (SafeArithmetic, Decimal); sums of prices and ticks in a ladder
-- are taken to fit. An index is a natural number. Every loop is structural recursion on a list or
-- on the number of entries that are left, so there is no fuel, but for `to_string`, whose 20
-- digits are enough for the 64-bit numbers that it is given. A book is locked through every
-- operation, so an operation is one step. Levels of a message are assumed to be quotes: a price
-- above 0 that is a multiple of the tick, and a quantity that is not negative
-- (OrderBook.Valid.IsQuote).
--
-- The handlers of an adapter and the locked parts of the server are steps, and the theorems on them
-- hold for any sequence of steps. A fetch from its response on is one step too, although the fast path
-- of a message takes no bufferMutex and can come between its parts. The WebSocket and HTTP libraries and the clocks are arguments:
-- frames, responses, times, and for the server whether a socket is alive and what it has queued.
-- The retry loop recurses on the attempts that are left; what other threads do to the feed while
-- it waits is its argument `meanwhile`.
--
-- Not modelled: the scrape as a whole and the metrics server, the reading of the configuration
-- file, threads, sockets and signals, which are mostly I/O and wiring;
-- the parsing and dumping of JSON, and messages of Binance that lack a field; the texts of
-- exceptions and what is printed; the division of scaled numbers into floating point.
pub mod Prelude
pub mod PriceLadder
pub mod OfiTypes
pub mod OfiView
pub mod SafeArithmetic
pub mod Decimal
pub mod OrderBook
pub mod SymbolNormalizer
pub mod Json
pub mod SubscriberProtocol
pub mod SubscriberServer
pub mod Metrics
pub mod PrometheusFormat
pub mod Examples
pub mod BinanceAdapter
pub mod KrakenUtils
pub mod Main
pub mod KrakenAdapter
