-- ===== src/Examples/Settings.antt =====
-- The theorems on the configuration, on the start of the adapters, on the lines of the metrics and on
-- the depths of Kraken at concrete inputs.
use lob.Prelude.{
  ◌≡◌, ◌⊎◌, false, ◌==◌, ltb, ℕ, Bool, not, ◌&&◌, ◌≤◌, refl, true, [], ◌∷◌, List, Bytes, codes,
  same_text, arith,
}
use lob.Prelude.Maps.{has_text}
use lob.Prelude.Int.{pos}
use lob.Json.{Json, integer, text, array, object, nil, cons, end, field, texts, find_field}
use lob.Main.Config.{Config, parse_config, parse_symbols, parse_interval, is_canonical, to_int}
use lob.Main.ConfigValid.{ConfigValid, parse_config-ConfigValid}
use lob.Main.Startup.{start_all}
use lob.Main.Stopped.{FirstRunning, NoneRunning, AllSucceed, OneFails, start_all-running}
use lob.PrometheusFormat.Labels.{write_line-injective}
use lob.KrakenUtils.{clamp_book_depth, one_of, valid_depths, clamp_book_depth_lem}

abbrev exchange_json : Bytes → List Bytes → Json
exchange_json name symbols =
    object (field (codes "name") (text name) (field (codes "symbols") (array (texts symbols)) end))

abbrev config_json : Json
config_json = object (
    field (codes "exchanges")
      (array (
        cons (exchange_json (codes "binance") (codes "btc-usdt" ∷ codes "ETH-USDT" ∷ []))
          (cons (exchange_json (codes "kraken") (codes "BTC-USD" ∷ [])) nil)))
      (field (codes "snapshot_depth") (integer (pos 500))
        (field (codes "primary_symbol") (text (codes "BTC-USDT")) end)))

abbrev config : Config
config = record {
  snapshot_depth = 500;
  ofi_depth = 10;
  exchanges =
      record {
        name = codes "binance";
        update_interval_ms = 100;
        symbols = codes "BTC-USDT" ∷ codes "ETH-USDT" ∷ [];
      }
      ∷ record { name = codes "kraken"; update_interval_ms = 100; symbols = codes "BTC-USD" ∷ [] }
      ∷ [];
  primary_symbol = codes "BTC-USDT";
}

parse_config-ConfigValid_example : ConfigValid config
unfolding parse_config find_field same_text to_int has_text parse_interval parse_symbols
    is_canonical clamp_book_depth
parse_config-ConfigValid_example = parse_config-ConfigValid config_json refl

clamp_book_depth_lem_example :
    (one_of valid_depths (clamp_book_depth 750) ≡ true)
    × (clamp_book_depth 750 ≤ 750)
    × (100 ≤ clamp_book_depth 750)
clamp_book_depth_lem_example = clamp_book_depth_lem 750 100 (omega arith) refl (omega arith)

-- The second of three adapters never starts, the others do so in the third attempt.
abbrev second_fails : ℕ → ℕ → Bool
second_fails i attempt = ltb 2 attempt && not (i == 1)

start_all-running_example :
    let (started, running) = start_all second_fails true 3 in
    ((started ≡ true) × FirstRunning 3 running × AllSucceed second_fails 0 3 × (true ≡ true))
    ⊎ ((started ≡ false) × NoneRunning running × (OneFails second_fails 3 ⊎ (true ≡ false)))
start_all-running_example = start_all-running second_fails true 3

write_line-injective_example :
    (codes "a\"b" ≡ codes "a\"b") × (codes "BTC-USD" ≡ codes "BTC-USD") × (codes "3" ≡ codes "3")
write_line-injective_example =
    write_line-injective (codes "lob_messages_total") {ex = codes "a\"b"} {ex' = codes "a\"b"}
      {symbol = codes "BTC-USD"} {symbol' = codes "BTC-USD"} {value = codes "3"}
      {value' = codes "3"} refl
