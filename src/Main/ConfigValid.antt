-- ===== src/Main/ConfigValid.antt =====
-- src/main.cpp: what a configuration that passes the checks is.
use mathlib.Core.Bool.{false≢true}
use mathlib.Core.Path.{subst}
use lob.Prelude.{
  ℕ, ◌≡◌, ◌≤◌, ◌<◌, ◌⊎◌, inl, inr, refl, sym, ◌∙◌, Bool, true, false, not, ◌&&◌, List, [], ◌∷◌,
  Option, none, some, Bytes, codes, same_text, to_upper, text_iff, arith, Bool-cases, All, ok,
  ltb→lt,
}
use lob.Prelude.Int.{ℤ, pos, leb_ℤ, ◌==ℤ◌}
use lob.Prelude.Maps.{has_text, none-ne-some, some_inj}
use lob.Json.{Json, null, boolean, integer, real, text, array, object, member, as_array, as_text}
use lob.KrakenUtils.{clamp_book_depth}
use lob.BinanceAdapter.Start
use lob.Main.Config.{
  ◌>>=?◌, require, to_int, read_int, is_canonical, parse_symbol, parse_symbols, ExchangeConfig,
  is_exchange, interval_of, read_interval, parse_interval, non_empty, parse_exchange,
  parse_exchanges, depth_fits, has_symbol, Config, parse_config,
}

-- A chain of checks that ends in a value passed each of them.
then_some :
    {A B : Type 0} (o : Option A) (f : A → Option B) {b : B}
    → (o >>=? f) ≡ some b
    → (a : A) × (o ≡ some a) × (f a ≡ some b)
then_some none f h = absurd (none-ne-some h)
then_some (some a) f h = (a, refl, h)

require_then :
    {B : Type 0} (t : Bool) (f : Bool → Option B) {b : B}
    → (require t >>=? f) ≡ some b
    → (t ≡ true) × (f true ≡ some b)
require_then true f h = (refl, h)
require_then false f h = absurd (none-ne-some h)

-- No text stands twice.
abbrev pub Distinct : List Bytes → Type 0
Distinct [] = Unit
Distinct (s ∷ ss) = (has_text ss s ≡ false) × Distinct ss

-- A canonical symbol that was not seen.
abbrev pub Fresh : List Bytes → Bytes → Type 0
Fresh seen s = has_text seen s ≡ false

Fresh-absent :
    (s : Bytes) (seen ss : List Bytes) → All (Fresh (s ∷ seen)) ss → has_text ss s ≡ false
unfolding has_text
Fresh-absent s seen [] h = refl
Fresh-absent s seen (t ∷ ss) (new, h) =
    ground (arith, Fresh-absent s seen ss h, text_iff s t, text_iff t s, new)

Fresh-weaken : (s : Bytes) (seen ss : List Bytes) → All (Fresh (s ∷ seen)) ss → All (Fresh seen) ss
unfolding has_text
Fresh-weaken s seen [] h = tt
Fresh-weaken s seen (t ∷ ss) (new, h) = (ground (arith, new), Fresh-weaken s seen ss h)

record SymbolsValid (seen symbols : List Bytes) : Type 0 where
  distinct : Distinct symbols
  canonical : All (λ s. is_canonical s ≡ true) symbols
  fresh : All (Fresh seen) symbols

parse_symbol-canonical : (v : Json) {s : Bytes} → parse_symbol v ≡ some s → is_canonical s ≡ true
unfolding parse_symbol
parse_symbol-canonical v h =
    let (t, _, h1) = then_some (as_text (some v)) _ h in
    let (good, h2) = require_then (is_canonical (to_upper t)) _ h1 in
    subst (λ s. is_canonical s ≡ true) (some_inj h2) good

parse_symbols-SymbolsValid :
    (seen : List Bytes) (items : List Json) {symbols : List Bytes}
    → parse_symbols seen items ≡ some symbols
    → SymbolsValid seen symbols
unfolding parse_symbols
parse_symbols-SymbolsValid seen [] h =
    subst (SymbolsValid seen) (some_inj h) (record { distinct = tt; canonical = tt; fresh = tt })
parse_symbols-SymbolsValid seen (v ∷ items) h =
    let (s, h1, h2) = then_some (parse_symbol v) _ h in
    let (new, h3) = require_then (not (has_text seen s)) _ h2 in
    let (rest, h4, h5) = then_some (parse_symbols (s ∷ seen) items) _ h3 in
    let r = parse_symbols-SymbolsValid (s ∷ seen) items h4 in
    subst (SymbolsValid seen) (some_inj h5) (record {
      distinct = (Fresh-absent s seen rest r.fresh, r.distinct);
      canonical = (parse_symbol-canonical v h1, r.canonical);
      fresh = (ground (arith, new), Fresh-weaken s seen rest r.fresh);
    })

-- An exchange's part: a known name, an interval that the adapter takes, and symbols of the canonical
-- form, none twice.
pub record ExchangeValid (ec : ExchangeConfig) : Type 0 where
  pub known : is_exchange ec.name ≡ true
  pub interval : Start.make ec.update_interval_ms ≡ ok ec.update_interval_ms
  pub listed : non_empty ec.symbols ≡ true
  pub canonical : All (λ s. is_canonical s ≡ true) ec.symbols
  pub distinct : Distinct ec.symbols

interval_of-make : (v : ℤ) {ms : ℕ} → interval_of v ≡ some ms → Start.make ms ≡ ok ms
unfolding Start.make
interval_of-make v h = elim (Bool-cases (v ==ℤ pos 100)) [
  | inl short ↦ subst (λ ms. Start.make ms ≡ ok ms) (some_inj (rw short at h)) refl
  | inr e ↦ elim (Bool-cases (v ==ℤ pos 1000)) [
    | inl long ↦ subst (λ ms. Start.make ms ≡ ok ms) (some_inj (rw (e, long) at h)) refl
    | inr other ↦ absurd (none-ne-some (rw (e, other) at h))
  ]
]

read_interval-make : (v : Option Json) {ms : ℕ} → read_interval v ≡ some ms → Start.make ms ≡ ok ms
unfolding Start.make
read_interval-make none h = subst (λ ms. Start.make ms ≡ ok ms) (some_inj h) refl
read_interval-make (some (integer v)) h = interval_of-make (to_int v) h
read_interval-make (some null) h = absurd (none-ne-some h)
read_interval-make (some (boolean b)) h = absurd (none-ne-some h)
read_interval-make (some (real s)) h = absurd (none-ne-some h)
read_interval-make (some (text s)) h = absurd (none-ne-some h)
read_interval-make (some (array items)) h = absurd (none-ne-some h)
read_interval-make (some (object fields)) h = absurd (none-ne-some h)

parse_interval-make :
    (name : Bytes) (entry : Json) {ms : ℕ}
    → parse_interval name entry ≡ some ms
    → Start.make ms ≡ ok ms
unfolding parse_interval
parse_interval-make name entry h = elim (Bool-cases (same_text name (codes "binance"))) [
  | inl binance ↦ read_interval-make (member entry (codes "update_interval_ms")) (rw binance at h)
  | inr other ↦ read_interval-make none (rw other at h)
]

non_empty-symbols :
    (seen : List Bytes) (items : List Json) {symbols : List Bytes}
    → parse_symbols seen items ≡ some symbols
    → non_empty items ≡ true
    → non_empty symbols ≡ true
unfolding parse_symbols
non_empty-symbols seen [] h e = absurd (false≢true e)
non_empty-symbols seen (v ∷ items) h e =
    let (s, _, h2) = then_some (parse_symbol v) _ h in
    let (_, h3) = require_then (not (has_text seen s)) _ h2 in
    let (rest, _, h5) = then_some (parse_symbols (s ∷ seen) items) _ h3 in
    subst (λ ss. non_empty ss ≡ true) (some_inj h5) refl

record ExchangeFresh (seen : List Bytes) (ec : ExchangeConfig) : Type 0 where
  valid : ExchangeValid ec
  fresh : Fresh seen ec.name

parse_exchange-ExchangeFresh :
    (seen : List Bytes) (entry : Json) {ec : ExchangeConfig}
    → parse_exchange seen entry ≡ some ec
    → ExchangeFresh seen ec
unfolding parse_exchange
parse_exchange-ExchangeFresh seen entry h =
    let (name, _, h1) = then_some (as_text (member entry (codes "name"))) _ h in
    let (known, h2) = require_then (is_exchange name) _ h1 in
    let (new, h3) = require_then (not (has_text seen name)) _ h2 in
    let (ms, interval, h4) = then_some (parse_interval name entry) _ h3 in
    let (items, _, h5) = then_some (as_array (member entry (codes "symbols"))) _ h4 in
    let (some_items, h6) = require_then (non_empty items) _ h5 in
    let (symbols, parsed, h7) = then_some (parse_symbols [] items) _ h6 in
    let r = parse_symbols-SymbolsValid [] items parsed in
    subst (ExchangeFresh seen) (some_inj h7) (record {
      valid = record {
        known = known;
        interval = parse_interval-make name entry interval;
        listed = non_empty-symbols [] items parsed some_items;
        canonical = r.canonical;
        distinct = r.distinct;
      };
      fresh = ground (arith, new);
    })

abbrev pub names : List ExchangeConfig → List Bytes
names [] = []
names (ec ∷ configs) = ec.name ∷ names configs

record ExchangesValid (seen : List Bytes) (configs : List ExchangeConfig) : Type 0 where
  valid : All ExchangeValid configs
  distinct : Distinct (names configs)
  fresh : All (Fresh seen) (names configs)

parse_exchanges-ExchangesValid :
    (seen : List Bytes) (entries : List Json) {configs : List ExchangeConfig}
    → parse_exchanges seen entries ≡ some configs
    → ExchangesValid seen configs
unfolding parse_exchanges
parse_exchanges-ExchangesValid seen [] h =
    subst (ExchangesValid seen) (some_inj h) (record { valid = tt; distinct = tt; fresh = tt })
parse_exchanges-ExchangesValid seen (entry ∷ entries) h =
    let (ec, h1, h2) = then_some (parse_exchange seen entry) _ h in
    let (rest, h3, h4) = then_some (parse_exchanges (ec.name ∷ seen) entries) _ h2 in
    let first = parse_exchange-ExchangeFresh seen entry h1 in
    let r = parse_exchanges-ExchangesValid (ec.name ∷ seen) entries h3 in
    subst (ExchangesValid seen) (some_inj h4) (record {
      valid = (first.valid, r.valid);
      distinct = (Fresh-absent ec.name seen (names rest) r.fresh, r.distinct);
      fresh = (first.fresh, Fresh-weaken ec.name seen (names rest) r.fresh);
    })

-- The OFI view of a Kraken book is smaller than the depth that it subscribes to.
abbrev pub KrakenFits : ℕ → ℕ → ExchangeConfig → Type 0
KrakenFits snapshot_depth ofi_depth ec =
    same_text ec.name (codes "kraken") ≡ true → ofi_depth < clamp_book_depth snapshot_depth

always-KrakenFits :
    (snapshot_depth ofi_depth : ℕ) (configs : List ExchangeConfig)
    → ofi_depth < clamp_book_depth snapshot_depth
    → All (KrakenFits snapshot_depth ofi_depth) configs
always-KrakenFits snapshot_depth ofi_depth [] h = tt
always-KrakenFits snapshot_depth ofi_depth (ec ∷ configs) h =
    (λ _. h, always-KrakenFits snapshot_depth ofi_depth configs h)

depth_fits-KrakenFits :
    (snapshot_depth ofi_depth : ℕ) (configs : List ExchangeConfig)
    → depth_fits snapshot_depth ofi_depth configs ≡ true
    → All (KrakenFits snapshot_depth ofi_depth) configs
unfolding depth_fits
depth_fits-KrakenFits snapshot_depth ofi_depth [] h = tt
depth_fits-KrakenFits snapshot_depth ofi_depth (ec ∷ configs) h =
    elim (Bool-cases (same_text ec.name (codes "kraken"))) [
      | inl kraken ↦
          always-KrakenFits snapshot_depth ofi_depth (ec ∷ configs)
            (ltb→lt ofi_depth (clamp_book_depth snapshot_depth) (rw kraken at h))
      | inr other ↦ (
        λ e. absurd (false≢true (sym other ∙ e)),
        depth_fits-KrakenFits snapshot_depth ofi_depth configs (rw other at h),
      )
    ]

read_int-bounds :
    (d low high : ℕ) (v : Option Json) {n : ℕ}
    → read_int d low high v ≡ some n
    → ((low ≤ n) × (n ≤ high)) ⊎ (n ≡ d)
read_int-bounds d low high none h = inr (sym (some_inj h))
read_int-bounds d low high (some (integer i)) h =
    let (inside, h1) =
      require_then (leb_ℤ (pos low) (to_int i) && leb_ℤ (to_int i) (pos high)) _ h in
    let at = some_inj h1 in inl (ground (arith, inside, at), ground (arith, inside, at))
read_int-bounds d low high (some null) h = absurd (none-ne-some h)
read_int-bounds d low high (some (boolean b)) h = absurd (none-ne-some h)
read_int-bounds d low high (some (real s)) h = absurd (none-ne-some h)
read_int-bounds d low high (some (text s)) h = absurd (none-ne-some h)
read_int-bounds d low high (some (array items)) h = absurd (none-ne-some h)
read_int-bounds d low high (some (object fields)) h = absurd (none-ne-some h)

upper_part : {low high n d : ℕ} → ((low ≤ n) × (n ≤ high)) ⊎ (n ≡ d) → (n ≤ high) ⊎ (n ≡ d)
upper_part (inl (_, h)) = inl h
upper_part (inr e) = inr e

-- A configuration that the program runs with.
pub record ConfigValid (c : Config) : Type 0 where
  pub snapshot_low : 5 ≤ c.snapshot_depth
  pub snapshot_high : c.snapshot_depth ≤ 5000
  pub ofi_low : 1 ≤ c.ofi_depth
  pub ofi_high : (c.ofi_depth ≤ c.snapshot_depth) ⊎ (c.ofi_depth ≡ 10)
  pub exchanges : All ExchangeValid c.exchanges
  pub distinct : Distinct (names c.exchanges)
  pub kraken : All (KrakenFits c.snapshot_depth c.ofi_depth) c.exchanges
  pub primary : has_symbol c.primary_symbol c.exchanges ≡ true

-- A configuration that passes the checks has a snapshot depth of 5 to 5000, an OFI depth above 0 that
-- is at most that one or the default of 10, exchanges of known names, none twice, with intervals that
-- the Binance adapter takes and canonical symbols, none twice, an OFI depth below the depth that Kraken
-- clamps to if Kraken is among them, and a primary symbol of one of them.
pub parse_config-ConfigValid :
    (json : Json) {c : Config} → parse_config json ≡ some c → ConfigValid c
unfolding parse_config
parse_config-ConfigValid json h =
    let (entries, _, h1) = then_some (as_array (member json (codes "exchanges"))) _ h in
    let (_, h2) = require_then (non_empty entries) _ h1 in
    let (snapshot_depth, snapshot, h3) =
      then_some (read_int 1000 5 5000 (member json (codes "snapshot_depth"))) _ h2 in
    let (ofi_depth, ofi, h4) =
      then_some (read_int 10 1 snapshot_depth (member json (codes "ofi_depth"))) _ h3 in
    let (exchanges, parsed, h5) = then_some (parse_exchanges [] entries) _ h4 in
    let (fits, h6) = require_then (depth_fits snapshot_depth ofi_depth exchanges) _ h5 in
    let (primary, _, h7) = then_some (as_text (member json (codes "primary_symbol"))) _ h6 in
    let (found, h8) = require_then (has_symbol (to_upper primary) exchanges) _ h7 in
    let depth = read_int-bounds 1000 5 5000 (member json (codes "snapshot_depth")) snapshot in
    let view = read_int-bounds 10 1 snapshot_depth (member json (codes "ofi_depth")) ofi in
    let r = parse_exchanges-ExchangesValid [] entries parsed in
    subst ConfigValid (some_inj h8) (record {
      snapshot_low = ground (arith, depth);
      snapshot_high = ground (arith, depth);
      ofi_low = ground (arith, view);
      ofi_high = upper_part view;
      exchanges = r.valid;
      distinct = r.distinct;
      kraken = depth_fits-KrakenFits snapshot_depth ofi_depth exchanges fits;
      primary = found;
    })
