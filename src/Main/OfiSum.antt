-- ===== src/Main/OfiSum.antt =====
-- src/main.cpp: the OFI change of a batch without the clamps, and that the callback adds just that.
use lob.Prelude.{
  ◌≡◌, refl, sym, ap, not, ◌&&◌, ◌∙◌, Bool, true, false, ◌||◌, List, [], ◌∷◌, some, if◌then◌else◌,
  Bytes, inl, inr, Bool-cases, arith, same_text, same_text_refl,
}
use lob.Prelude.Int.{ℤ, pos, ◌+ℤ◌, ◌-ℤ◌, int_laws, FitsLlong, +ℤ_assoc}
use lob.Prelude.Maps.{lookup, lookup-modify}
use lob.OfiTypes.{EventKind, genuine, backfill, maintenance, LevelDelta}
use lob.SafeArithmetic.Exact.{checked_add_lem, checked_subtract_lem}
use mathlib.Core.Bool.{false≢true}
use mathlib.Core.Path.{subst}
use lob.SafeArithmetic.{checked_add, checked_subtract}
use lob.Metrics.{Metrics}
use lob.SubscriberServer.{SubscriberServer, Sockets}
use lob.Main.Callback.{is_backfill, counts, sum_ofi, add_ofi, on_update}

-- What a kind of event lets through: a backfill rebuilds a book and is no order flow.
abbrev flow : EventKind → ℤ → ℤ
flow genuine x = x
flow maintenance x = x
flow backfill x = pos 0

-- The OFI change of one delta: bids add, asks subtract, and a change that neither starts nor ends in
-- the view is none.
unfoldable pub ofi_of : LevelDelta → ℤ
ofi_of d = flow d.kind (
    if d.was_in_view || d.in_ofi_view
    then (if d.is_bid then d.delta_qty else pos 0 -ℤ d.delta_qty)
    else pos 0)

unfoldable pub ofi_sum : List LevelDelta → ℤ
ofi_sum [] = pos 0
ofi_sum (d ∷ deltas) = ofi_of d +ℤ ofi_sum deltas

-- No sum overflows: `ofi` and all that follow it, delta by delta, fit into a long long.
unfoldable pub SumsFit : ℤ → List LevelDelta → Type 0
SumsFit ofi [] = FitsLlong ofi
SumsFit ofi (d ∷ deltas) = FitsLlong ofi × SumsFit (ofi +ℤ ofi_of d) deltas

unfoldable pub any_counts : List LevelDelta → Bool
any_counts [] = false
any_counts (d ∷ deltas) = counts d || any_counts deltas

checked_add-exact : (a b : ℤ) → FitsLlong a → FitsLlong (a +ℤ b) → checked_add a b ≡ a +ℤ b
unfolding ◌+ℤ◌
checked_add-exact a b h k = checked_add_lem a b h ∙ ground (arith, k)

checked_subtract-exact :
    (a b : ℤ) → FitsLlong a → FitsLlong (a -ℤ b) → checked_subtract a b ≡ a -ℤ b
unfolding ◌-ℤ◌
checked_subtract-exact a b h k = checked_subtract_lem a b h ∙ ground (arith, k)

SumsFit-now : (ofi : ℤ) (deltas : List LevelDelta) → SumsFit ofi deltas → FitsLlong ofi
unfolding SumsFit
SumsFit-now ofi [] h = h
SumsFit-now ofi (d ∷ deltas) h = h.0

minus_plus : (a b : ℤ) → a -ℤ b ≡ a +ℤ (pos 0 -ℤ b)
minus_plus a b = omega int_laws

left_zero : (a : ℤ) → pos 0 +ℤ a ≡ a
left_zero a = omega int_laws

right_zero : (a : ℤ) → a +ℤ pos 0 ≡ a
right_zero a = omega int_laws

pair_eq : {A B : Type 0} {x y : A × B} → x.0 ≡ y.0 → x.1 ≡ y.1 → x ≡ y
pair_eq h k = cc

ofi_of-out : (d : LevelDelta) → counts d ≡ false → ofi_of d ≡ pos 0
unfolding ofi_of
ofi_of-out d h = by_kind d.kind h
  where
    by_kind :
        (k : EventKind)
        → (not (is_backfill k) && (d.was_in_view || d.in_ofi_view)) ≡ false
        → flow k (
            if d.was_in_view || d.in_ofi_view
            then (if d.is_bid then d.delta_qty else pos 0 -ℤ d.delta_qty)
            else pos 0)
          ≡ pos 0
    by_kind genuine out = rw out refl
    by_kind maintenance out = rw out refl
    by_kind backfill out = refl

ofi_of-in :
    (d : LevelDelta)
    → counts d ≡ true
    → ofi_of d ≡ (if d.is_bid then d.delta_qty else pos 0 -ℤ d.delta_qty)
unfolding ofi_of
ofi_of-in d h = by_kind d.kind h
  where
    by_kind :
        (k : EventKind)
        → (not (is_backfill k) && (d.was_in_view || d.in_ofi_view)) ≡ true
        → flow k (
            if d.was_in_view || d.in_ofi_view
            then (if d.is_bid then d.delta_qty else pos 0 -ℤ d.delta_qty)
            else pos 0)
          ≡ (if d.is_bid then d.delta_qty else pos 0 -ℤ d.delta_qty)
    by_kind genuine seen = rw seen refl
    by_kind maintenance seen = rw seen refl
    by_kind backfill seen = absurd (false≢true seen)

-- One step of the loop adds the change of the delta, if that fits.
step-exact :
    (acc : ℤ) (d : LevelDelta)
    → counts d ≡ true
    → FitsLlong acc
    → FitsLlong (acc +ℤ ofi_of d)
    → (if d.is_bid then checked_add acc d.delta_qty else checked_subtract acc d.delta_qty)
      ≡ acc +ℤ ofi_of d
step-exact acc d seen now next = by_side d.is_bid d.delta_qty (ofi_of d) (ofi_of-in d seen) next
  where
    by_side :
        (bid : Bool) (q o : ℤ)
        → o ≡ (if bid then q else pos 0 -ℤ q)
        → FitsLlong (acc +ℤ o)
        → (if bid then checked_add acc q else checked_subtract acc q) ≡ acc +ℤ o
    by_side true q o at fits =
        let same = ap (λ x. acc +ℤ x) at in
        checked_add-exact acc q now (subst FitsLlong same fits) ∙ sym same
    by_side false q o at fits =
        let same = ap (λ x. acc +ℤ x) at ∙ sym (minus_plus acc q) in
        checked_subtract-exact acc q now (subst FitsLlong same fits) ∙ sym same

-- If no sum overflows, the sum that the callback computes is the exact one, and its flag says whether
-- any change counts.
pub sum_ofi-exact :
    (acc : ℤ) (has : Bool) (deltas : List LevelDelta)
    → SumsFit acc deltas
    → ◌≡◌ {A = ℤ × Bool}
        (sum_ofi (acc, has) deltas)
        (acc +ℤ ofi_sum deltas, has || any_counts deltas)
unfolding sum_ofi ofi_sum SumsFit any_counts
sum_ofi-exact acc has [] h = pair_eq (sym (right_zero acc)) (ground arith)
sum_ofi-exact acc has (d ∷ deltas) (now, h) = elim (Bool-cases (counts d)) [
  | inr out ↦
      let none = ofi_of-out d out in
      let h' : SumsFit acc deltas =
        subst (λ x. SumsFit x deltas) (ap (λ x. acc +ℤ x) none ∙ right_zero acc) h in
      rw (out, none)
        (sum_ofi-exact acc has deltas h'
          ∙ pair_eq (ap (λ x. acc +ℤ x) (sym (left_zero (ofi_sum deltas)))) refl)
  | inl in_view ↦
      rw (in_view, step-exact acc d in_view now (SumsFit-now (acc +ℤ ofi_of d) deltas h))
        (sum_ofi-exact (acc +ℤ ofi_of d) true deltas h
          ∙ pair_eq (+ℤ_assoc acc (ofi_of d) (ofi_sum deltas)) (ground arith))
]

sum_ofi-any : (deltas : List LevelDelta) → any_counts deltas ≡ false → ofi_sum deltas ≡ pos 0
unfolding any_counts ofi_sum ◌+ℤ◌
sum_ofi-any [] h = refl
sum_ofi-any (d ∷ deltas) h = elim (Bool-cases (counts d)) [
  | inr out ↦ rw (ofi_of-out d out, sum_ofi-any deltas (ground (arith, h, out))) refl
  | inl in_view ↦ absurd (ground (arith, h, in_view))
]

-- If no sum overflows, neither of the batch nor with the accumulator, the callback adds to the accumulator of the symbol the exact OFI change of the
-- batch, and leaves every other field and symbol as it is.
pub on_update-accumulates :
    (sockets : Sockets) (exchange symbol : Bytes) (deltas : List LevelDelta) (ts : ℤ)
    (server : SubscriberServer) (metrics : List (Bytes × Metrics)) (m : Metrics) (other : Bytes)
    → lookup metrics symbol ≡ some m
    → same_text symbol other ≡ false
    → FitsLlong m.ofi_accumulator
    → SumsFit (pos 0) deltas
    → FitsLlong (m.ofi_accumulator +ℤ ofi_sum deltas)
    → let after = (on_update sockets exchange symbol deltas ts (server, metrics)).0.1 in
      (lookup after symbol
        ≡ some (record m { ofi_accumulator = m.ofi_accumulator +ℤ ofi_sum deltas }))
      × (lookup after other ≡ lookup metrics other)
unfolding on_update
on_update-accumulates sockets exchange symbol deltas ts server metrics m other at differs before
      fits after =
    let exact = sum_ofi-exact (pos 0) false deltas fits in
    elim (Bool-cases (any_counts deltas)) [
      | inl some_count ↦
          let add = checked_add-exact m.ofi_accumulator (ofi_sum deltas) before after in
          rw
            (
              exact,
              some_count,
              left_zero (ofi_sum deltas),
              lookup-modify (add_ofi (ofi_sum deltas)) symbol symbol metrics,
              lookup-modify (add_ofi (ofi_sum deltas)) symbol other metrics,
              same_text_refl symbol,
              differs,
              at,
              add,
            )
            (refl, refl)
      | inr none_counts ↦
          rw (exact, none_counts, at, sum_ofi-any deltas none_counts, right_zero m.ofi_accumulator)
            (refl, refl)
    ]
