-- ===== src/OrderBook/Best.antt =====
-- The front of a view, which `getStats` reports, against the best level of the ladder.
use mathlib.Core.Bool.{false≢true}
use lob.Prelude.{
  ℕ, ◌<◌, ◌≡◌, refl, sym, ◌∙◌, Bool, true, false, inl, inr, arith, Bool-cases, List, [], ◌∷◌,
}
use lob.Prelude.Int.{ℤ, ◌==ℤ◌, ==ℤ_iff}
use lob.PriceLadder
use lob.PriceLadder.{PriceLadder, get_level}
use lob.PriceLadder.Neighbours.{IsLevel}
use lob.OfiView.{Level, before, has_price}
use lob.OfiView.Order.{before_asym, AllAfter-trans, AllAfter-absent}
use lob.OfiView.Top.{IsTop}
use lob.OfiView.Update.{FirstWith}
use lob.OfiView.Source.{ladder-LevelSource}
use lob.OrderBook.{OrderBook, front_price, get_stats}
use lob.OrderBook.Valid.{BookValid}

module _ (s : Bool) (depth : ℕ) (l : PriceLadder) (above : 0 < depth) where
  front-best :
      (w : List Level) (p : ℤ)
      → IsTop s (IsLevel l) (get_level l) depth w
      → FirstWith s (IsLevel l) (λ _. Unit {0}) p
      → front_price w ≡ p
  unfolding has_price
  front-best [] p t (inl (e, none_there)) = sym e
  front-best [] p t (inr (lv, _, first)) =
      let (full, _) = t.complete p lv refl in absurd (omega (arith, full))
  front-best (x ∷ xs) p t (inl (e, none_there)) = absurd (none_there x.0 t.levels.0.0 tt)
  front-best (x ∷ xs) p t (inr (lv, _, first)) = elim (Bool-cases (p ==ℤ x.0)) [
    | inl e ↦ sym ((==ℤ_iff p x.0).0 e)
    | inr ne ↦
        let b : before s p x.0 ≡ true = first x.0 t.levels.0.0 tt ne in
        let absent = AllAfter-absent s p (x ∷ xs) (b, AllAfter-trans s p x.0 xs b t.sorted.0) in
        absurd (false≢true (sym (before_asym s p x.0 b) ∙ (t.complete p lv absent).1.0))
  ]

-- In a valid book with an OFI depth above 0, `getStats` reports the best prices of the ladders: the
-- highest bid and the lowest ask, 0 on a side without levels.
pub get_stats-best :
    (tick : ℕ) {b : OrderBook}
    → BookValid tick b
    → 0 < b.ofi_depth
    → ((get_stats b).best_bid ≡ PriceLadder.best_high b.bid_ladder)
      × ((get_stats b).best_ask ≡ PriceLadder.best_low b.ask_ladder)
unfolding get_stats
get_stats-best tick {b} v above = (
  front-best true b.ofi_depth b.bid_ladder above b.ofi_bids _ v.bid_side.top
      (ladder-LevelSource true v.bid_side.valid v.bid_side.positive).best,
  front-best false b.ofi_depth b.ask_ladder above b.ofi_asks _ v.ask_side.top
      (ladder-LevelSource false v.ask_side.valid v.ask_side.positive).best,
)
