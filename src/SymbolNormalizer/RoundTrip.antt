-- ===== src/SymbolNormalizer/RoundTrip.antt =====
-- Symbols survive the way to the canonical name and back, and entries override the rules.
use mathlib.Core.Bool.{false≢true}
use mathlib.Core.Path.{subst}
use lob.Prelude.{
  ℕ, ◌-◌, suc, zero, ◌≡◌, refl, ap, Bool, true, false, ◌&&◌, inl, inr, arith, Bool-cases, List, [],
  ◌∷◌, ◌++◌, Option, none, some, ltb, ◌==◌, length, take, drop, Bytes, codes, same_text,
  same_text-eq, same_text_refl, All,
}
use lob.SymbolNormalizer.{
  SymbolNormalizer, default_normalizer, make_key, find, add, replace, remove_dashes, starts_with,
  quotes, split_quote, kraken_canonical, auto_canonical, auto_local, to_canonical, from_canonical,
}

-- No byte of the text is `c`.
abbrev pub Without : ℕ → Bytes → Type 0
Without c s = All (λ x. (x == c) ≡ false) s

remove_dashes-id : (s : Bytes) → Without b'-' s → remove_dashes s ≡ s
unfolding remove_dashes
remove_dashes-id [] h = refl
remove_dashes-id (c ∷ s) (hc, h) = rw (hc, remove_dashes-id s h)

-- A dash put in anywhere is the one that is removed.
remove_dashes-split :
    (n : ℕ) (s : Bytes) → Without b'-' s → remove_dashes (take n s ++ b'-' ∷ drop n s) ≡ s
unfolding remove_dashes
remove_dashes-split zero s h = remove_dashes-id s h
remove_dashes-split (suc n) [] h = refl
remove_dashes-split (suc n) (c ∷ s) (hc, h) = rw (hc, remove_dashes-split n s h)

is_some : Option Bytes → Bool
is_some none = false
is_some (some x) = true

value_or : Bytes → Option Bytes → Bytes
value_or d none = d
value_or d (some x) = x

split_quote-back :
    (qs : List Bytes) (local c : Bytes)
    → Without b'-' local
    → split_quote qs local ≡ some c
    → remove_dashes c ≡ local
unfolding split_quote is_some value_or
split_quote-back [] local c h e = absurd (false≢true (ap is_some e))
split_quote-back (q ∷ qs) local c h e =
    let n = length local - length q in
    elim (Bool-cases (ltb (length q) (length local) && same_text (drop n local) q)) [
      | inl t ↦
          let suffix : drop n local ≡ q = same_text-eq _ _ (ground arith) in
          let split : take n local ++ b'-' ∷ q ≡ c = ap (value_or []) (rw t at e) in
          subst (λ (x : Bytes). remove_dashes x ≡ local) split
            (subst (λ (x : Bytes). remove_dashes (take n local ++ b'-' ∷ x) ≡ local) suffix
              (remove_dashes-split n local h))
      | inr f ↦ split_quote-back qs local c h (rw f at e)
    ]

-- With no entries, a Binance symbol without a dash that has a canonical name comes back from it.
pub from-to_canonical_binance :
    (local c : Bytes)
    → Without b'-' local
    → to_canonical default_normalizer (codes "binance") local ≡ some c
    → from_canonical default_normalizer (codes "binance") c ≡ some local
unfolding to_canonical from_canonical auto_canonical auto_local find same_text
from-to_canonical_binance local c h e = ap some (split_quote-back quotes local c h e)

replace-back : (a b : ℕ) (s : Bytes) → Without b s → replace b a (replace a b s) ≡ s
unfolding replace
replace-back a b [] h = refl
replace-back a b (c ∷ s) (hc, h) = ground (arith, replace-back a b s h)

-- The canonical name starts with "XBT-" only if the symbol starts with "XBT/".
legacy :
    (s : Bytes)
    → Without b'-' s
    → starts_with (replace b'/' b'-' s) (codes "XBT-") ≡ starts_with s (codes "XBT/")
unfolding starts_with replace same_text
legacy [] h = refl
legacy (a ∷ []) h = ground arith
legacy (a ∷ b ∷ []) h = ground arith
legacy (a ∷ b ∷ c ∷ []) h = ground arith
legacy (a ∷ b ∷ c ∷ d ∷ s) h = ground arith

-- With no entries, a Kraken symbol without a dash that does not start with "XBT/" has a canonical
-- name and comes back from it.
pub from-to_canonical_kraken :
    (local : Bytes)
    → Without b'-' local
    → starts_with local (codes "XBT/") ≡ false
    → (c : Bytes) × (to_canonical default_normalizer (codes "kraken") local ≡ some c)
      × (from_canonical default_normalizer (codes "kraken") c ≡ some local)
unfolding to_canonical from_canonical auto_canonical auto_local kraken_canonical find same_text
from-to_canonical_kraken local h e =
    (replace b'/' b'-' local, rw (legacy local h, e) refl, ap some (replace-back b'/' b'-' local h))

-- After `add`, the entry is found in both directions, whatever was there before.
pub add-lookup :
    (n : SymbolNormalizer) (exchange local canonical : Bytes)
    → (to_canonical (add n exchange local canonical) exchange local ≡ some canonical)
      × (from_canonical (add n exchange local canonical) exchange canonical ≡ some local)
unfolding to_canonical from_canonical add find
add-lookup n exchange local canonical = (
  rw (same_text_refl (make_key exchange local)),
  rw (same_text_refl (make_key exchange canonical)),
)
