-- ===== src/OrderBook/Valid.antt =====
-- The invariant of a whole book, and that every operation keeps it.
use lob.Prelude.{
  ℕ, ◌%◌, ◌<◌, ◌≡◌, refl, ap, ◌∙◌, Bool, true, false, not, ◌&&◌, ◌||◌, ◌==◌, arith, List, [], ◌∷◌,
  ltb, All,
}
use lob.Prelude.Int.{ℤ, pos, neg_part, ltb_ℤ, leb_ℤ, ◌+ℤ◌, ◌-ℤ◌, ◌==ℤ◌}
use lob.PriceLadder
use lob.PriceLadder.{PriceLadder, in_range, set_level, get_level, empty_ladder}
use lob.PriceLadder.Invariant.{IsValid, clear-IsValid, empty_ladder-IsValid}
use lob.PriceLadder.Window.{set_level-tick}
use lob.PriceLadder.Lookup.{set_level-IsValid}
use lob.PriceLadder.Levels.{level-ready}
use lob.PriceLadder.Ticks.{true_ne}
use lob.PriceLadder.Neighbours.{IsLevel}
use lob.OfiTypes.{EventKind, UpdateResult}
use lob.OfiView.{Level, rebuild_ofi_side}
use lob.OfiView.Top.{IsTop}
use lob.OfiView.Update.{rebuild_ofi_side-IsTop}
use lob.OfiView.Source.{IsPositive, ladder-LevelSource, set-IsPositive}
use lob.OrderBook.{
  OrderBook, make, Change, change_side, is_deep, follow, apply_level_change, apply_levels,
  apply_update, apply_delta, load, positive_levels, apply_snapshot, clear,
}
use lob.OrderBook.Side.{SideValid, if_two, change_side-SideValid}

-- Both ladders are well formed and have the tick, and each view is the best `ofi_depth` levels of its ladder.
pub record BookValid (tick : ℕ) (b : OrderBook) : Type 0 where
  pub bid_side : SideValid true b.ofi_depth b.bid_ladder b.ofi_bids
  pub ask_side : SideValid false b.ofi_depth b.ask_ladder b.ofi_asks
  pub bid_tick : b.bid_ladder.tick_size ≡ tick
  pub ask_tick : b.ask_ladder.tick_size ≡ tick

-- A level of a message: a price above 0 that is a multiple of the tick, a quantity that is not negative.
abbrev pub IsQuote : ℕ → Level → Type 0
IsQuote tick e = (n : ℕ) × (e.0 ≡ pos n) × (0 < n) × (n % tick ≡ 0) × (neg_part e.1 ≡ 0)

change_side-tick :
    (s : Bool) (depth : ℕ) (l : PriceLadder) (w : List Level) (price qty : ℤ) (kind : EventKind)
    → (change_side s depth l w price qty kind).ladder.tick_size ≡ l.tick_size
unfolding change_side follow
change_side-tick s depth l w price qty kind =
    if_two (λ (c : Change). c.ladder.tick_size ≡ l.tick_size)
      (ltb 0 l.count && not (in_range l price) && is_deep s l price) (λ _. refl)
      (λ _.
        if_two (λ (c : Change). c.ladder.tick_size ≡ l.tick_size)
          ((qty -ℤ get_level l price) ==ℤ pos 0) (λ _. set_level-tick l price qty)
          (λ _. set_level-tick l price qty))

module _ (tick : ℕ) where
  -- One change of a level.
  pub apply_level_change-BookValid :
      {b : OrderBook} (e : Level) (is_bid : Bool) (kind : EventKind)
      → BookValid tick b
      → IsQuote tick e
      → BookValid tick (apply_level_change b e.0 e.1 is_bid kind).0
  unfolding apply_level_change
  apply_level_change-BookValid {b} e true kind v (n, at, above, grid, fits) = rw at (record {
    bid_side =
        change_side-SideValid true b.ofi_depth v.bid_side n e.1 above
          (ap (λ t. n % t) v.bid_tick ∙ grid) fits kind;
    ask_side = v.ask_side;
    bid_tick =
        change_side-tick true b.ofi_depth b.bid_ladder b.ofi_bids (pos n) e.1 kind ∙ v.bid_tick;
    ask_tick = v.ask_tick;
  })
  apply_level_change-BookValid {b} e false kind v (n, at, above, grid, fits) = rw at (record {
    bid_side = v.bid_side;
    ask_side =
        change_side-SideValid false b.ofi_depth v.ask_side n e.1 above
          (ap (λ t. n % t) v.ask_tick ∙ grid) fits kind;
    bid_tick = v.bid_tick;
    ask_tick =
        change_side-tick false b.ofi_depth b.ask_ladder b.ofi_asks (pos n) e.1 kind ∙ v.ask_tick;
  })

  pub apply_levels-BookValid :
      (levels : List Level) (is_bid : Bool) (kind : EventKind) {b : OrderBook}
      → BookValid tick b
      → All (IsQuote tick) levels
      → BookValid tick (apply_levels b levels is_bid kind).0
  unfolding apply_levels
  apply_levels-BookValid [] is_bid kind v h = v
  apply_levels-BookValid (e ∷ levels) is_bid kind v (q, h) =
      apply_levels-BookValid levels is_bid kind (apply_level_change-BookValid e is_bid kind v q) h

  pub apply_delta-BookValid :
      {b : OrderBook} (bids asks : List Level) (kind : EventKind)
      → BookValid tick b
      → All (IsQuote tick) bids
      → All (IsQuote tick) asks
      → BookValid tick (apply_delta b bids asks kind).0
  unfolding apply_delta
  apply_delta-BookValid bids asks kind v hb ha =
      apply_levels-BookValid asks false kind (apply_levels-BookValid bids true kind v hb) ha

  pub apply_update-BookValid :
      {b : OrderBook} (first_id last_id : ℤ) (asks bids : List Level) (kind : EventKind)
      → BookValid tick b
      → All (IsQuote tick) asks
      → All (IsQuote tick) bids
      → BookValid tick (apply_update b first_id last_id asks bids kind).0
  unfolding apply_update
  apply_update-BookValid {b} first_id last_id asks bids kind v ha hb =
      let t =
        apply_levels-BookValid bids true kind (apply_levels-BookValid asks false kind v ha) hb in
      if_two (λ (r : OrderBook × UpdateResult). BookValid tick r.0) (leb_ℤ last_id b.last_update_id)
        (λ _. v)
        (λ _.
          if_two (λ (r : OrderBook × UpdateResult). BookValid tick r.0)
            (ltb_ℤ (b.last_update_id +ℤ pos 1) first_id) (λ _. v)
            (λ _. record {
              bid_side = t.bid_side;
              ask_side = t.ask_side;
              bid_tick = t.bid_tick;
              ask_tick = t.ask_tick;
            }))

  LadderValid : PriceLadder → Type 0
  LadderValid l = IsValid l × IsPositive l × (l.tick_size ≡ tick)

  set-LadderValid :
      (e : Level) (l : PriceLadder)
      → IsQuote tick e
      → LadderValid l
      → LadderValid (set_level l e.0 e.1).0
  unfolding LadderValid
  set-LadderValid e l (n, at, above, grid, fits) (v, positive, t) = rw at (
    set_level-IsValid v n e.1 fits,
    set-IsPositive v n e.1 (ap (λ t. n % t) t ∙ grid) fits above positive,
    set_level-tick l (pos n) e.1 ∙ t,
  )

  load-LadderValid :
      (levels : List Level) (l : PriceLadder)
      → All (IsQuote tick) levels
      → LadderValid l
      → LadderValid (load l levels)
  unfolding load
  load-LadderValid [] l h v = v
  load-LadderValid (e ∷ levels) l (q, h) v = load-LadderValid levels _ h (
      if_two LadderValid (in_range l e.0 || (l.count == 0)) (λ _. set-LadderValid e l q v) (λ _. v))

  positive_levels-All :
      (levels : List Level)
      → All (IsQuote tick) levels
      → All (IsQuote tick) (positive_levels levels)
  unfolding positive_levels
  positive_levels-All [] h = tt
  positive_levels-All ((price, qty) ∷ levels) (q, h) =
      let rest = positive_levels-All levels h in
      if_two (All (IsQuote tick)) (ltb_ℤ (pos 0) qty) (λ _. (q, rest)) (λ _. rest)

  no_levels-IsTop :
      (s : Bool) (depth : ℕ) {l : PriceLadder}
      → IsValid l
      → l.initialized ≡ false
      → IsTop s (IsLevel l) (get_level l) depth []
  no_levels-IsTop s depth {l} v off = record {
    sorted = tt;
    levels = tt;
    short = omega arith;
    complete = λ p lv _. absurd (true_ne off (level-ready v {p = p} lv));
  }

  no_levels-SideValid :
      (s : Bool) (depth : ℕ) {l : PriceLadder}
      → IsValid l
      → l.initialized ≡ false
      → SideValid s depth l []
  no_levels-SideValid s depth {l} v off = record {
    valid = v;
    positive = λ p lv. absurd (true_ne off (level-ready v {p = p} lv));
    top = no_levels-IsTop s depth v off;
  }

  -- The book that the constructor makes.
  pub make-BookValid :
      (depth half : ℕ) → 0 < tick → BookValid tick (make depth (empty_ladder tick half))
  unfolding make
  make-BookValid depth half above =
      let v = empty_ladder-IsValid tick half above in
      record {
        bid_side = no_levels-SideValid true depth v refl;
        ask_side = no_levels-SideValid false depth v refl;
        bid_tick = refl;
        ask_tick = refl;
      }

  pub clear-BookValid : {b : OrderBook} → BookValid tick b → BookValid tick (clear b)
  unfolding clear PriceLadder.clear
  clear-BookValid {b} v = record {
    bid_side = no_levels-SideValid true b.ofi_depth (clear-IsValid v.bid_side.valid) refl;
    ask_side = no_levels-SideValid false b.ofi_depth (clear-IsValid v.ask_side.valid) refl;
    bid_tick = v.bid_tick;
    ask_tick = v.ask_tick;
  }

  cleared-LadderValid :
      {l : PriceLadder} → IsValid l → l.tick_size ≡ tick → LadderValid (PriceLadder.clear l)
  unfolding LadderValid PriceLadder.clear
  cleared-LadderValid v t =
      (clear-IsValid v, λ p lv. absurd (true_ne refl (level-ready (clear-IsValid v) {p = p} lv)), t)

  loaded-SideValid :
      (s : Bool) (depth : ℕ) {l : PriceLadder}
      → LadderValid l
      → SideValid s depth l (rebuild_ofi_side s depth l)
  unfolding LadderValid
  loaded-SideValid s depth {l} (v, positive, t) = record {
    valid = v;
    positive = positive;
    top = rebuild_ofi_side-IsTop s l (ladder-LevelSource s v positive) depth;
  }

  pub apply_snapshot-BookValid :
      {b : OrderBook} (new_id : ℤ) (asks bids : List Level)
      → BookValid tick b
      → All (IsQuote tick) asks
      → All (IsQuote tick) bids
      → BookValid tick (apply_snapshot b new_id asks bids)
  unfolding apply_snapshot LadderValid
  apply_snapshot-BookValid {b} new_id asks bids v ha hb =
      let bid =
        load-LadderValid (positive_levels bids) _ (positive_levels-All bids hb)
          (cleared-LadderValid v.bid_side.valid v.bid_tick) in
      let ask =
        load-LadderValid (positive_levels asks) _ (positive_levels-All asks ha)
          (cleared-LadderValid v.ask_side.valid v.ask_tick) in
      record {
        bid_side = loaded-SideValid true b.ofi_depth bid;
        ask_side = loaded-SideValid false b.ofi_depth ask;
        bid_tick = bid.2;
        ask_tick = ask.2;
      }
