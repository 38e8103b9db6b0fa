-- ===== src/SymbolNormalizer.antt =====
-- src/symbol_normalizer.hpp: exchange symbols and canonical BASE-QUOTE names. A symbol is its bytes;
-- a map is a list of entries, the last assignment first.
pub mod RoundTrip
use lob.Prelude.{
  ℕ, ◌-◌, Bool, ◌&&◌, List, [], ◌∷◌, ◌++◌, Option, none, some, if◌then◌else◌, ltb, ◌==◌, length,
  take, drop, Bytes, codes, same_text,
}

pub record SymbolNormalizer : Type 0 where
  pub to_canonical_map : List (Bytes × Bytes)
  pub from_canonical_map : List (Bytes × Bytes)

abbrev pub default_normalizer : SymbolNormalizer
default_normalizer = record { to_canonical_map = []; from_canonical_map = [] }

abbrev pub make_key : Bytes → Bytes → Bytes
make_key a b = a ++ 1 ∷ b

unfoldable pub find : List (Bytes × Bytes) → Bytes → Option Bytes
find [] key = none
find ((k, v) ∷ entries) key =
    let rest = find entries key in if same_text k key then some v else rest

unfoldable pub add : SymbolNormalizer → Bytes → Bytes → Bytes → SymbolNormalizer
add n exchange local canonical = record {
  to_canonical_map = (make_key exchange local, canonical) ∷ n.to_canonical_map;
  from_canonical_map = (make_key exchange canonical, local) ∷ n.from_canonical_map;
}

-- `for (char& c : result) if (c == from) c = to`
unfoldable pub replace : ℕ → ℕ → Bytes → Bytes
replace a b [] = []
replace a b (c ∷ s) = (if c == a then b else c) ∷ replace a b s

-- `for (char c : canonical) if (c != '-') result += c`
unfoldable pub remove_dashes : Bytes → Bytes
remove_dashes [] = []
remove_dashes (c ∷ s) = let rest = remove_dashes s in if c == b'-' then rest else c ∷ rest

unfoldable pub starts_with : Bytes → Bytes → Bool
starts_with s prefix = same_text (take (length prefix) s) prefix

-- `kQuotes`
abbrev pub quotes : List Bytes
quotes =
    codes "USDT"
    ∷ codes "BUSD"
    ∷ codes "USDC"
    ∷ codes "USD"
    ∷ codes "BTC"
    ∷ codes "ETH"
    ∷ codes "BNB"
    ∷ codes "EUR"
    ∷ []

-- The first quote that is a proper suffix is split off.
unfoldable pub split_quote : List Bytes → Bytes → Option Bytes
split_quote [] local = none
split_quote (q ∷ qs) local =
    let rest = split_quote qs local in
    let n = length local - length q in
    if ltb (length q) (length local) && same_text (drop n local) q
    then some (take n local ++ b'-' ∷ q)
    else rest

unfoldable pub kraken_canonical : Bytes → Bytes
unfolding replace starts_with
kraken_canonical local =
    let result = replace b'/' b'-' local in
    if starts_with result (codes "XBT-") then codes "BTC" ++ drop 3 result else result

unfoldable pub auto_canonical : Bytes → Bytes → Option Bytes
unfolding kraken_canonical split_quote
auto_canonical exchange local =
    if same_text exchange (codes "kraken")
    then some (kraken_canonical local)
    else if same_text exchange (codes "binance")
    then split_quote quotes local
    else none

unfoldable pub auto_local : Bytes → Bytes → Option Bytes
unfolding replace remove_dashes
auto_local exchange canonical =
    if same_text exchange (codes "kraken")
    then some (replace b'-' b'/' canonical)
    else if same_text exchange (codes "binance")
    then some (remove_dashes canonical)
    else none

-- An entry overrides the rules.
abbrev pub found_or : Option Bytes → Option Bytes → Option Bytes
found_or none rule = rule
found_or (some v) rule = some v

unfoldable pub to_canonical : SymbolNormalizer → Bytes → Bytes → Option Bytes
unfolding find auto_canonical
to_canonical n exchange local =
    found_or (find n.to_canonical_map (make_key exchange local)) (auto_canonical exchange local)

unfoldable pub from_canonical : SymbolNormalizer → Bytes → Bytes → Option Bytes
unfolding find auto_local
from_canonical n exchange canonical =
    found_or (find n.from_canonical_map (make_key exchange canonical))
      (auto_local exchange canonical)
