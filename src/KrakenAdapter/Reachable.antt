-- ===== src/KrakenAdapter/Reachable.antt =====
-- src/kraken_adapter.cpp: the adapter's states after `start` has set them, under any interleaving of
-- frames that refuse no subscription and of watchdog rounds; and what a `start` that succeeds has
-- reached.
use mathlib.Core.Bool.{false≢true}
use mathlib.Core.Path.{subst}
use lob.Prelude.{
  ℕ, ◌≡◌, refl, sym, ap, ◌∙◌, Bool, true, false, ◌&&◌, ◌||◌, List, [], ◌∷◌, Option, none, some,
  arith, Bytes, codes, All, Result, ok, err,
}
use lob.Prelude.Int.{ℤ, pos, ◌==ℤ◌, ◌-ℤ◌, ltb_ℤ}
use lob.Prelude.Maps.{
  lookup, modify, has_text, add_text, Each, modify-Each, has_text-add_text, none-ne-some, some_inj,
}
use lob.OrderBook.Side.{if_two}
use lob.OrderBook.Valid.{BookValid, clear-BookValid}
use lob.Json.{Json, member, as_array, as_text}
use lob.BinanceAdapter.{Clock}
use lob.BinanceAdapter.Connection.{Update}
use lob.KrakenAdapter.{
  Texts, KrakenFeed, KrakenAdapter, ack_success, on_ack, is_text, on_data, on_json, Frame, opened,
  closed, failed, other, message, is_traffic, stale_feed, stale_feeds, add_all, on_open, on_frame,
  handle_ws_message, watchdog,
}
use lob.KrakenAdapter.Coverage.{
  has_snapshot, covered, KrakenValid, QuoteItem, handle_items-KrakenValid,
}
use lob.KrakenAdapter.Startup.{
  clear_feeds, unset, unset_all, prepared, prepare, local_symbols, is_none, start_result,
}

-- A frame that refuses a subscription, and one of quotes.
abbrev pub is_failure : Result Bool → Bool
is_failure (ok false) = true
is_failure _ = false

abbrev pub is_refusal : Frame → Bool
is_refusal (message (some j)) =
    is_text (member j (codes "method")) (codes "subscribe")
    && is_failure (ack_success (member j (codes "success")))
is_refusal _ = false

abbrev pub QuoteItems : ℕ → Texts → Option (List Json) → Type 0
QuoteItems tick texts none = Unit
QuoteItems tick texts (some items) = All (QuoteItem tick texts) items

abbrev pub QuoteFrame : ℕ → Texts → Frame → Type 0
QuoteFrame tick texts (message (some j)) =
    QuoteItems tick texts (as_array (member j (codes "data")))
QuoteFrame tick texts _ = Unit

-- The adapters that frames and watchdog rounds lead to, if no frame refuses a subscription.
pub data Reachable (tick : ℕ) (texts : Texts) (first : KrakenAdapter) : KrakenAdapter → Type 0 where
  begun : Reachable tick texts first first
  framed :
      {a : KrakenAdapter}
      → Reachable tick texts first a
      → (clock : Clock) (frame : Frame) → QuoteFrame tick texts frame
      → is_refusal frame ≡ false
      → Reachable tick texts first (handle_ws_message texts clock frame a).0
  watched :
      {a : KrakenAdapter}
      → Reachable tick texts first a
      → (now : ℤ) → Reachable tick texts first (watchdog now a).0

has_text-add_all :
    (symbols pending : List Bytes) (t : Bytes)
    → has_text (add_all symbols pending) t ≡ (has_text symbols t || has_text pending t)
unfolding has_text
has_text-add_all [] pending t = refl
has_text-add_all (s ∷ symbols) pending t =
    ground (arith, has_text-add_all symbols (add_text s pending) t, has_text-add_text s t pending)

Books : ℕ → List (Bytes × KrakenFeed) → Type 0
Books tick feeds = Each (λ _ f. BookValid tick f.book) feeds

module _ (tick : ℕ) where
  stale_feeds-Books :
      (symbols : List Bytes) (feeds : List (Bytes × KrakenFeed))
      → Books tick feeds
      → Books tick (stale_feeds symbols feeds)
  unfolding Books stale_feed
  stale_feeds-Books [] feeds h = h
  stale_feeds-Books (s ∷ symbols) feeds h = stale_feeds-Books symbols (modify stale_feed s feeds) (
      modify-Each (λ _ f. BookValid tick f.book) stale_feed s feeds (λ f v. clear-BookValid tick v)
        h)

  clear_feeds-Books :
      (feeds : List (Bytes × KrakenFeed)) → Books tick feeds → Books tick (clear_feeds feeds)
  unfolding Books
  clear_feeds-Books [] h = h
  clear_feeds-Books ((s, f) ∷ feeds) (v, h) = (clear-BookValid tick v, clear_feeds-Books feeds h)

  unset_all-Books :
      (symbols : List Bytes) (feeds : List (Bytes × KrakenFeed))
      → Books tick feeds
      → Books tick (unset_all symbols feeds)
  unfolding Books
  unset_all-Books [] feeds h = h
  unset_all-Books (s ∷ symbols) feeds h =
      unset_all-Books symbols (modify unset s feeds)
        (modify-Each (λ _ f. BookValid tick f.book) unset s feeds (λ f v. v) h)

  -- Every symbol waits for its snapshot.
  prepared-KrakenValid :
      (depth : ℕ) (symbols : List Bytes) (feeds : List (Bytes × KrakenFeed)) (a : KrakenAdapter)
      (found : Option (List Bytes)) {first : KrakenAdapter}
      → Books tick feeds
      → prepared depth symbols feeds a found ≡ some first
      → KrakenValid tick symbols first
  unfolding Books covered has_text
  prepared-KrakenValid depth symbols feeds a none h e = absurd (none-ne-some e)
  prepared-KrakenValid depth symbols feeds a (some names) h e =
      subst (KrakenValid tick symbols) (some_inj e) (record {
        same_symbols = refl;
        books = unset_all-Books symbols (clear_feeds feeds) (clear_feeds-Books feeds h);
        all_covered = λ t. ground (arith, has_text-add_all symbols [] t);
      })

  module _ (symbols : List Bytes) where
    on_open-KrakenValid :
        {a : KrakenAdapter} → KrakenValid tick symbols a → KrakenValid tick symbols (on_open a)
    unfolding on_open Books covered has_text
    on_open-KrakenValid {a} v =
        if_two (KrakenValid tick symbols) a.ws_connected
          (λ _. record {
            same_symbols = v.same_symbols;
            books = stale_feeds-Books a.subscribed_symbols a.feeds v.books;
            all_covered = λ t. ground (arith, has_text-add_all a.subscribed_symbols [] t);
          })
          (λ _. record {
            same_symbols = v.same_symbols;
            books = v.books;
            all_covered = v.all_covered;
          })

    on_ack-KrakenValid :
        (j : Json) (x : Result Bool) {a : KrakenAdapter}
        → is_failure x ≡ false
        → KrakenValid tick symbols a
        → KrakenValid tick symbols (on_ack j x a)
    on_ack-KrakenValid j (err e) good v = v
    on_ack-KrakenValid j (ok true) good v = v
    on_ack-KrakenValid j (ok false) good v = absurd (false≢true (sym good))

    on_data-KrakenValid :
        (texts : Texts) (clock : Clock) (type : Option Bytes) (items : Option (List Json))
        {a : KrakenAdapter}
        → QuoteItems tick texts items
        → KrakenValid tick symbols a
        → KrakenValid tick symbols (on_data texts clock type items a).0
    on_data-KrakenValid texts clock none items q v = v
    on_data-KrakenValid texts clock (some type) none q v = v
    on_data-KrakenValid texts clock (some type) (some items) q v =
        handle_items-KrakenValid tick symbols texts clock type items q v

    on_json-KrakenValid :
        (texts : Texts) (clock : Clock) (j : Json) {a : KrakenAdapter}
        → QuoteFrame tick texts (message (some j))
        → is_refusal (message (some j)) ≡ false
        → KrakenValid tick symbols a
        → KrakenValid tick symbols (on_json texts clock j a).0
    unfolding on_json
    on_json-KrakenValid texts clock j {a} q good v =
        if_two (λ (x : KrakenAdapter × List Update). KrakenValid tick symbols x.0)
          (is_text (member j (codes "method")) (codes "subscribe"))
          (λ ack.
            on_ack-KrakenValid j (ack_success (member j (codes "success")))
              (ground (arith, ack, good)) v)
          (λ _.
            if_two (λ (x : KrakenAdapter × List Update). KrakenValid tick symbols x.0)
              (is_text (member j (codes "channel")) (codes "book"))
              (λ _.
                on_data-KrakenValid texts clock (as_text (member j (codes "type")))
                  (as_array (member j (codes "data"))) q v)
              (λ _. v))

    on_frame-KrakenValid :
        (texts : Texts) (clock : Clock) (frame : Frame) {a : KrakenAdapter}
        → QuoteFrame tick texts frame
        → is_refusal frame ≡ false
        → KrakenValid tick symbols a
        → KrakenValid tick symbols (on_frame texts clock frame a).0
    on_frame-KrakenValid texts clock opened q good v = on_open-KrakenValid v
    on_frame-KrakenValid texts clock closed q good v = v
    on_frame-KrakenValid texts clock failed q good v = v
    on_frame-KrakenValid texts clock other q good v = v
    on_frame-KrakenValid texts clock (message none) q good v = v
    on_frame-KrakenValid texts clock (message (some j)) q good v =
        on_json-KrakenValid texts clock j q good v

    -- The time of the last activity does not matter to it.
    at_time :
        (ms : ℤ) {a : KrakenAdapter}
        → KrakenValid tick symbols a
        → KrakenValid tick symbols (record a { last_connection_activity_ms = ms })
    unfolding covered
    at_time ms v = record {
      same_symbols = v.same_symbols;
      books = v.books;
      all_covered = v.all_covered;
    }

    watchdog-KrakenValid :
        (now : ℤ) {a : KrakenAdapter}
        → KrakenValid tick symbols a
        → KrakenValid tick symbols (watchdog now a).0
    unfolding watchdog
    watchdog-KrakenValid now {a} v =
        if_two (λ (x : KrakenAdapter × Bool). KrakenValid tick symbols x.0)
          (a.last_connection_activity_ms ==ℤ pos 0) (λ _. v)
          (λ _.
            if_two (λ (x : KrakenAdapter × Bool). KrakenValid tick symbols x.0)
              (ltb_ℤ (pos 2000) (now -ℤ a.last_connection_activity_ms)) (λ _. at_time (pos 0) v)
              (λ _. v))

    reachable-KrakenValid :
        (texts : Texts) {first a : KrakenAdapter}
        → KrakenValid tick symbols first
        → Reachable tick texts first a
        → KrakenValid tick symbols a
    unfolding handle_ws_message
    reachable-KrakenValid texts v begun = v
    reachable-KrakenValid texts v (framed {a} r clock frame q good) =
        on_frame-KrakenValid texts clock frame q good (
          if_two (KrakenValid tick symbols) (is_traffic frame)
            (λ _. at_time clock.steady_ms (reachable-KrakenValid texts v r))
            (λ _. reachable-KrakenValid texts v r))
    reachable-KrakenValid texts v (watched r now) =
        watchdog-KrakenValid now (reachable-KrakenValid texts v r)

none_has : (pending : List Bytes) (s : Bytes) → is_none pending ≡ true → has_text pending s ≡ false
unfolding has_text
none_has [] s h = refl
none_has (t ∷ pending) s h = absurd (false≢true h)

started :
    (a : KrakenAdapter) (s : Bytes)
    → start_result a ≡ true
    → covered a s ≡ true
    → has_text a.subscribed_symbols s ≡ true
    → has_snapshot (lookup a.feeds s) ≡ true
unfolding start_result covered
started a s h c m = ground (arith, none_has a.pending_snapshots s (ground (arith, h)), c, m)

-- If `start` has set up its symbols on valid books, and from there on frames of quotes that refuse no
-- subscription and watchdog rounds lead to a state in which it succeeds, then every one of its
-- symbols has a book with a snapshot, and all books are valid.
pub start_result-KrakenValid :
    (tick depth : ℕ) (texts : Texts) (symbols : List Bytes) (feeds : List (Bytes × KrakenFeed))
    (before first a : KrakenAdapter) (s : Bytes)
    → Each (λ _ f. BookValid tick f.book) feeds
    → prepare depth symbols feeds before ≡ some first
    → Reachable tick texts first a
    → start_result a ≡ true
    → has_text symbols s ≡ true
    → (has_snapshot (lookup a.feeds s) ≡ true) × Each (λ _ f. BookValid tick f.book) a.feeds
unfolding prepare Books
start_result-KrakenValid tick depth texts symbols feeds before first a s h e r success listed =
    let v =
      reachable-KrakenValid tick symbols texts
        (prepared-KrakenValid tick depth symbols feeds before (local_symbols before feeds symbols) h
          e)
        r in
    (
      started a s success (v.all_covered s) (ap (λ ss. has_text ss s) v.same_symbols ∙ listed),
      v.books,
    )
