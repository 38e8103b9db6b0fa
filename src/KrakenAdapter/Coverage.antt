-- ===== src/KrakenAdapter/Coverage.antt =====
-- The invariant of src/kraken_adapter.cpp: the books are valid, and a subscribed symbol that no longer
-- waits for its snapshot has one, as long as no subscription is refused.
use mathlib.Core.Path.{subst}
use lob.Prelude.{
  ℕ, ◌≡◌, refl, ◌∙◌, Bool, true, false, not, ◌||◌, List, [], ◌∷◌, Option, none, some, inl, inr,
  arith, Bytes, codes, same_text, Bool-cases, All, Result, ok, err, err-ne-ok, ok_inj, then_ok,
}
use lob.Prelude.Int.{ℤ, pos}
use lob.Prelude.Maps.{
  lookup, assign, has_text, remove_text, Each, lookup-Each, assign-Each, lookup-assign,
  has_text-remove_text,
}
use lob.OfiTypes.{genuine, LevelDelta}
use lob.OfiView.{Level}
use lob.OrderBook.{OrderBook, apply_snapshot}
use lob.OrderBook.Parse.{TextLevels, apply_snapshot_message, apply_delta_message}
use lob.OrderBook.Messages.{message_snapshot, message_delta, apply_delta-snapshot_applied}
use lob.OrderBook.Side.{if_two}
use lob.OrderBook.Valid.{BookValid, IsQuote, apply_snapshot-BookValid, apply_delta-BookValid}
use lob.Json.{Json, member}
use lob.BinanceAdapter.{Clock}
use lob.BinanceAdapter.Connection.{Update}
use lob.BinanceAdapter.FeedValid.{Quotes}
use lob.KrakenAdapter.{
  Texts, KrakenFeed, KrakenAdapter, get_text, sides, canonical_of, snapshot_feed, snapshot_symbol,
  handle_book_snapshot, apply_item, update_feed, update_symbol, handle_book_update, no_updates,
  handle_item, after_item, handle_items,
}

abbrev pub has_snapshot : Option KrakenFeed → Bool
has_snapshot none = false
has_snapshot (some f) = f.book.snapshot_applied

-- A symbol is not subscribed, waits for its snapshot, or has it.
unfoldable pub covered : KrakenAdapter → Bytes → Bool
covered a s =
    not (has_text a.subscribed_symbols s)
    || has_text a.pending_snapshots s
    || has_snapshot (lookup a.feeds s)

pub record KrakenValid (tick : ℕ) (symbols : List Bytes) (a : KrakenAdapter) : Type 0 where
  pub same_symbols : a.subscribed_symbols ≡ symbols
  pub books : Each (λ _ f. BookValid tick f.book) a.feeds
  pub all_covered : (s : Bytes) → covered a s ≡ true

-- An item whose texts, if they are decimals, are quotes on the grid.
abbrev pub QuoteItem : ℕ → Texts → Json → Type 0
QuoteItem tick texts item =
    (levels : TextLevels × TextLevels)
    → sides texts item ≡ ok levels
    → Quotes tick levels.0 × Quotes tick levels.1

module _ (tick : ℕ) (symbols : List Bytes) (texts : Texts) (clock : Clock) where
  record Loaded (b : OrderBook) : Type 0 where
    valid : BookValid tick b
    applied : b.snapshot_applied ≡ true

  apply_snapshot-Loaded :
      {b : OrderBook} (new_id : ℤ) (asks bids : List Level)
      → BookValid tick b
      → All (IsQuote tick) asks
      → All (IsQuote tick) bids
      → Loaded (apply_snapshot b new_id asks bids)
  unfolding apply_snapshot
  apply_snapshot-Loaded new_id asks bids v ha hb = record {
    valid = apply_snapshot-BookValid tick new_id asks bids v ha hb;
    applied = refl;
  }

  -- A symbol gets a book with a snapshot, and may stop waiting.
  assign-KrakenValid :
      (s : Bytes) (f : KrakenFeed) (pending : List Bytes) {a : KrakenAdapter}
      → Loaded f.book
      → ((t : Bytes) → same_text s t ≡ false → has_text pending t ≡ has_text a.pending_snapshots t)
      → KrakenValid tick symbols a
      → KrakenValid tick symbols
          (record a { feeds = assign s f a.feeds; pending_snapshots = pending })
  unfolding covered
  assign-KrakenValid s f pending {a} l waits v = record {
    same_symbols = v.same_symbols;
    books = assign-Each (λ _ g. BookValid tick g.book) s f a.feeds l.valid v.books;
    all_covered =
        λ t. ground (arith, lookup-assign s t f a.feeds, l.applied, waits t, v.all_covered t);
  }

  snapshot_feed-KrakenValid :
      (item : Json) (s : Bytes) (found : Option KrakenFeed) {a a' : KrakenAdapter}
      → ((f : KrakenFeed) → found ≡ some f → BookValid tick f.book)
      → QuoteItem tick texts item
      → KrakenValid tick symbols a
      → snapshot_feed texts clock item s found a ≡ ok a'
      → KrakenValid tick symbols a'
  unfolding snapshot_feed
  snapshot_feed-KrakenValid item s none known q v h = subst (KrakenValid tick symbols) (ok_inj h) v
  snapshot_feed-KrakenValid item s (some f) {a} known q v h =
      let (levels, at, h1) = then_ok (sides texts item) _ h in
      let (book, loaded, h2) =
        then_ok (apply_snapshot_message f.book (pos 0) levels.1 levels.0) _ h1 in
      let (qb, qa) = q levels at in
      let l : Loaded book =
        message_snapshot Loaded f.book (pos 0) levels.1 levels.0
          (λ asks bids ea eb.
            apply_snapshot-Loaded (pos 0) asks bids (known f refl) (qa asks ea) (qb bids eb))
          loaded in
      subst (KrakenValid tick symbols) (ok_inj h2) (
        assign-KrakenValid s _ (remove_text s a.pending_snapshots) l
          (λ t differs. has_text-remove_text s t a.pending_snapshots ∙ rw differs refl) v)

  record Follows (b : OrderBook) (r : OrderBook × List LevelDelta) : Type 0 where
    valid : BookValid tick r.0
    same_applied : r.0.snapshot_applied ≡ b.snapshot_applied

  apply_item-KrakenValid :
      (item : Json) (s : Bytes) (f : KrakenFeed) {a : KrakenAdapter}
      {r : KrakenAdapter × List Update}
      → BookValid tick f.book
      → f.book.snapshot_applied ≡ true
      → QuoteItem tick texts item
      → KrakenValid tick symbols a
      → apply_item texts clock item s f a ≡ ok r
      → KrakenValid tick symbols r.0
  apply_item-KrakenValid item s f {a} known applied q v h =
      let (levels, at, h1) = then_ok (sides texts item) _ h in
      let (r, followed, h2) = then_ok (apply_delta_message f.book levels.0 levels.1 genuine) _ h1 in
      let (qb, qa) = q levels at in
      let l : Follows f.book r =
        message_delta (Follows f.book) f.book levels.0 levels.1 genuine
          (λ bids asks eb ea. record {
            valid = apply_delta-BookValid tick bids asks genuine known (qb bids eb) (qa asks ea);
            same_applied = apply_delta-snapshot_applied f.book bids asks genuine;
          })
          followed in
      subst (λ (x : KrakenAdapter × List Update). KrakenValid tick symbols x.0) (ok_inj h2)
        (assign-KrakenValid s _ a.pending_snapshots
          (record { valid = l.valid; applied = l.same_applied ∙ applied }) (λ _ _. refl) v)

  update_feed-KrakenValid :
      (item : Json) (s : Bytes) (found : Option KrakenFeed) {a : KrakenAdapter}
      {r : KrakenAdapter × List Update}
      → ((f : KrakenFeed) → found ≡ some f → BookValid tick f.book)
      → QuoteItem tick texts item
      → KrakenValid tick symbols a
      → update_feed texts clock item s found a ≡ ok r
      → KrakenValid tick symbols r.0
  unfolding update_feed
  update_feed-KrakenValid item s none known q v h =
      subst (λ (x : KrakenAdapter × List Update). KrakenValid tick symbols x.0) (ok_inj h) v
  update_feed-KrakenValid item s (some f) {a} {r} known q v h =
      if_two (λ x. x ≡ ok r → KrakenValid tick symbols r.0) f.book.snapshot_applied
        (λ ready e. apply_item-KrakenValid item s f (known f refl) ready q v e)
        (λ _ e.
          subst (λ (x : KrakenAdapter × List Update). KrakenValid tick symbols x.0) (ok_inj e) v)
        h

  known_books :
      (s : Bytes) {a : KrakenAdapter}
      → KrakenValid tick symbols a
      → (f : KrakenFeed) → lookup a.feeds s ≡ some f
      → BookValid tick f.book
  known_books s {a} v f at = lookup-Each (λ _ g. BookValid tick g.book) s a.feeds v.books at

  snapshot_symbol-KrakenValid :
      (item : Json) (found : Option Bytes) {a a' : KrakenAdapter}
      → QuoteItem tick texts item
      → KrakenValid tick symbols a
      → snapshot_symbol texts clock item found a ≡ ok a'
      → KrakenValid tick symbols a'
  snapshot_symbol-KrakenValid item none q v h = subst (KrakenValid tick symbols) (ok_inj h) v
  snapshot_symbol-KrakenValid item (some s) {a} q v h =
      snapshot_feed-KrakenValid item s (lookup a.feeds s) (known_books s v) q v h

  update_symbol-KrakenValid :
      (item : Json) (found : Option Bytes) {a : KrakenAdapter} {r : KrakenAdapter × List Update}
      → QuoteItem tick texts item
      → KrakenValid tick symbols a
      → update_symbol texts clock item found a ≡ ok r
      → KrakenValid tick symbols r.0
  update_symbol-KrakenValid item none q v h =
      subst (λ (x : KrakenAdapter × List Update). KrakenValid tick symbols x.0) (ok_inj h) v
  update_symbol-KrakenValid item (some s) {a} q v h =
      update_feed-KrakenValid item s (lookup a.feeds s) (known_books s v) q v h

  no_updates-KrakenValid :
      (x : Result KrakenAdapter) {r : KrakenAdapter × List Update}
      → ((a : KrakenAdapter) → x ≡ ok a → KrakenValid tick symbols a)
      → no_updates x ≡ ok r
      → KrakenValid tick symbols r.0
  no_updates-KrakenValid (ok a) given h =
      subst (λ (y : KrakenAdapter × List Update). KrakenValid tick symbols y.0) (ok_inj h)
        (given a refl)
  no_updates-KrakenValid (err e) given h = absurd (err-ne-ok h)

  handle_item-KrakenValid :
      (type : Bytes) (item : Json) {a : KrakenAdapter} {r : KrakenAdapter × List Update}
      → QuoteItem tick texts item
      → KrakenValid tick symbols a
      → handle_item texts clock type item a ≡ ok r
      → KrakenValid tick symbols r.0
  unfolding handle_item handle_book_snapshot handle_book_update
  handle_item-KrakenValid type item {a} q v h =
      elim (Bool-cases (same_text type (codes "snapshot"))) [
        | inl snapshot ↦
            no_updates-KrakenValid (handle_book_snapshot texts clock item a)
              (λ b e.
                let (s, _, h1) = then_ok (get_text (member item (codes "symbol"))) _ e in
                snapshot_symbol-KrakenValid item (canonical_of a s) q v h1)
              (rw snapshot at h)
        | inr no_snapshot ↦ elim (Bool-cases (same_text type (codes "update"))) [
          | inl update ↦
              let h0 = rw (no_snapshot, update) at h in
              let (s, _, h1) = then_ok (get_text (member item (codes "symbol"))) _ h0 in
              update_symbol-KrakenValid item (canonical_of a s) q v h1
          | inr neither ↦
              subst (λ (x : KrakenAdapter × List Update). KrakenValid tick symbols x.0)
                (ok_inj (rw (no_snapshot, neither) at h)) v
        ]
      ]

  after_item-KrakenValid :
      (rest : KrakenAdapter → KrakenAdapter × List Update)
      (x : Result (KrakenAdapter × List Update)) {a : KrakenAdapter}
      → ((r : KrakenAdapter × List Update) → x ≡ ok r → KrakenValid tick symbols r.0)
      → ((b : KrakenAdapter) → KrakenValid tick symbols b → KrakenValid tick symbols (rest b).0)
      → KrakenValid tick symbols a
      → KrakenValid tick symbols (after_item rest a x).0
  after_item-KrakenValid rest (err e) step more v = v
  after_item-KrakenValid rest (ok (b, updates)) step more v = more b (step (b, updates) refl)

  pub handle_items-KrakenValid :
      (type : Bytes) (items : List Json) {a : KrakenAdapter}
      → All (QuoteItem tick texts) items
      → KrakenValid tick symbols a
      → KrakenValid tick symbols (handle_items texts clock type items a).0
  unfolding handle_items
  handle_items-KrakenValid type [] q v = v
  handle_items-KrakenValid type (item ∷ items) {a} (q, qs) v =
      after_item-KrakenValid (λ b. handle_items texts clock type items b)
        (handle_item texts clock type item a) (λ r h. handle_item-KrakenValid type item q v h)
        (λ b vb. handle_items-KrakenValid type items qs vb) v
