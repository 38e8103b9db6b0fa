-- ===== src/Main/Config.antt =====
-- src/main.cpp: the checks on the configuration. `none` is a return of -1 after a message.
use lob.Prelude.{
  ℕ, ◌-◌, ◌^◌, ◌%◌, ◌==◌, Bool, true, false, not, ◌&&◌, ◌||◌, List, [], ◌∷◌, Option, none, some,
  if◌then◌else◌, ltb, Bytes, codes, same_text, to_upper, length,
}
use lob.Prelude.Int.{ℤ, pos, negsuc, leb_ℤ, pos_part, ◌==ℤ◌}
use lob.Prelude.Maps.{has_text}
use lob.Json.{Json, integer, member, as_array, as_text}
use lob.KrakenUtils.{clamp_book_depth}

infixl 5 ◌>>=?◌
abbrev pub ◌>>=?◌ : {A B : Type 0} → Option A → (A → Option B) → Option B
none >>=? f = none
some a >>=? f = f a

-- A check that returns -1 if it does not hold.
abbrev pub require : Bool → Option Bool
require true = some true
require false = none

-- `get<int>()` of a JSON integer: the low 32 bits, signed.
abbrev pub signed_32 : ℕ → ℤ
signed_32 m = if ltb m (2 ^ 31) then pos m else negsuc (2 ^ 32 - 1 - m)

unfoldable pub to_int : ℤ → ℤ
to_int (pos n) = signed_32 (n % 2 ^ 32)
to_int (negsuc n) = signed_32 (2 ^ 32 - 1 - n % 2 ^ 32)

-- An integer of a range, if the key is there.
abbrev pub in_bounds : ℕ → ℕ → ℤ → Option ℕ
in_bounds low high v = require (leb_ℤ (pos low) v && leb_ℤ v (pos high)) >>=? λ _. some (pos_part v)

abbrev pub read_int : ℕ → ℕ → ℕ → Option Json → Option ℕ
read_int d low high none = some d
read_int d low high (some (integer v)) = in_bounds low high (to_int v)
read_int d low high (some _) = none

-- The texts before and after the first dash.
abbrev pub cons_before : ℕ → Option (Bytes × Bytes) → Option (Bytes × Bytes)
cons_before c none = none
cons_before c (some (s, t)) = some (c ∷ s, t)

abbrev pub split_dash : Bytes → Option (Bytes × Bytes)
split_dash [] = none
split_dash (c ∷ s) = if c == b'-' then some ([], s) else cons_before c (split_dash s)

abbrev pub has_dash : Bytes → Bool
has_dash [] = false
has_dash (c ∷ s) = c == b'-' || has_dash s

abbrev pub is_base_quote : Option (Bytes × Bytes) → Bool
is_base_quote none = false
is_base_quote (some (base, quote)) =
    not (length base == 0) && not (length quote == 0) && not (has_dash quote)

unfoldable pub is_canonical : Bytes → Bool
is_canonical sym = is_base_quote (split_dash sym)

unfoldable pub parse_symbol : Json → Option Bytes
parse_symbol v =
    as_text (some v) >>=? λ s. require (is_canonical (to_upper s)) >>=? λ _. some (to_upper s)

unfoldable pub parse_symbols : List Bytes → List Json → Option (List Bytes)
unfolding parse_symbol
parse_symbols seen [] = some []
parse_symbols seen (v ∷ vs) = parse_symbol v >>=? λ sym. require (not (has_text seen sym)) >>=? λ _.
    parse_symbols (sym ∷ seen) vs >>=? λ symbols. some (sym ∷ symbols)

pub record ExchangeConfig : Type 0 where
  pub name : Bytes
  pub update_interval_ms : ℕ
  pub symbols : List Bytes

abbrev pub is_exchange : Bytes → Bool
is_exchange name = same_text name (codes "binance") || same_text name (codes "kraken")

abbrev pub interval_of : ℤ → Option ℕ
interval_of v = if v ==ℤ pos 100 then some 100 else if v ==ℤ pos 1000 then some 1000 else none

abbrev pub read_interval : Option Json → Option ℕ
read_interval none = some 100
read_interval (some (integer v)) = interval_of (to_int v)
read_interval (some _) = none

unfoldable pub parse_interval : Bytes → Json → Option ℕ
parse_interval name entry =
    if same_text name (codes "binance")
    then read_interval (member entry (codes "update_interval_ms"))
    else some 100

abbrev pub non_empty : {A : Type 0} → List A → Bool
non_empty [] = false
non_empty (x ∷ xs) = true

unfoldable pub parse_exchange : List Bytes → Json → Option ExchangeConfig
parse_exchange seen entry = as_text (member entry (codes "name")) >>=? λ name.
    require (is_exchange name) >>=? λ _. require (not (has_text seen name)) >>=? λ _.
    parse_interval name entry >>=? λ ms. as_array (member entry (codes "symbols")) >>=? λ items.
    require (non_empty items) >>=? λ _. parse_symbols [] items >>=? λ symbols.
    some (record { name = name; update_interval_ms = ms; symbols = symbols })

unfoldable pub parse_exchanges : List Bytes → List Json → Option (List ExchangeConfig)
unfolding parse_exchange
parse_exchanges seen [] = some []
parse_exchanges seen (entry ∷ entries) = parse_exchange seen entry >>=? λ ec.
    parse_exchanges (ec.name ∷ seen) entries >>=? λ configs. some (ec ∷ configs)

-- The guard on the depth that Kraken clamps.
unfoldable pub depth_fits : ℕ → ℕ → List ExchangeConfig → Bool
depth_fits snapshot_depth ofi_depth [] = true
depth_fits snapshot_depth ofi_depth (ec ∷ configs) =
    if same_text ec.name (codes "kraken")
    then ltb ofi_depth (clamp_book_depth snapshot_depth)
    else depth_fits snapshot_depth ofi_depth configs

unfoldable pub has_symbol : Bytes → List ExchangeConfig → Bool
has_symbol sym [] = false
has_symbol sym (ec ∷ configs) = has_text ec.symbols sym || has_symbol sym configs

pub record Config : Type 0 where
  pub snapshot_depth : ℕ
  pub ofi_depth : ℕ
  pub exchanges : List ExchangeConfig
  pub primary_symbol : Bytes

unfoldable pub parse_config : Json → Option Config
unfolding parse_exchanges depth_fits has_symbol
parse_config config = as_array (member config (codes "exchanges")) >>=? λ entries.
    require (non_empty entries) >>=? λ _.
    read_int 1000 5 5000 (member config (codes "snapshot_depth")) >>=? λ snapshot_depth.
    read_int 10 1 snapshot_depth (member config (codes "ofi_depth")) >>=? λ ofi_depth.
    parse_exchanges [] entries >>=? λ exchanges.
    require (depth_fits snapshot_depth ofi_depth exchanges) >>=? λ _.
    as_text (member config (codes "primary_symbol")) >>=? λ primary.
    require (has_symbol (to_upper primary) exchanges) >>=? λ _. some (record {
      snapshot_depth = snapshot_depth;
      ofi_depth = ofi_depth;
      exchanges = exchanges;
      primary_symbol = to_upper primary;
    })
