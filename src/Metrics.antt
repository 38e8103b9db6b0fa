-- ===== src/Metrics.antt =====
-- src/metrics.hpp: the counters of one symbol. They are atomics, each read and written on its own;
-- a histogram bucket counts the observations up to its bound, the last one all of them.
pub mod Histogram
use lob.Prelude.{ℕ, ◌+◌, Bool, false, List, [], ◌∷◌, if◌then◌else◌}
use lob.Prelude.Int.{ℤ, pos, ◌+ℤ◌, leb_ℤ}

pub record Metrics : Type 0 where
  pub msg_count : ℕ
  pub last_event_lag_ms : ℤ
  pub last_update_time_ms : ℤ
  pub ofi_accumulator : ℤ
  pub live_ready : Bool
  pub processing_buckets : List ℕ
  pub processing_us_sum : ℤ

abbrev pub bucket_bounds : List ℤ
bucket_bounds =
    pos 1
    ∷ pos 5
    ∷ pos 10
    ∷ pos 25
    ∷ pos 50
    ∷ pos 100
    ∷ pos 250
    ∷ pos 500
    ∷ pos 1000
    ∷ pos 5000
    ∷ []

abbrev pub new_metrics : Metrics
new_metrics = record {
  msg_count = 0;
  last_event_lag_ms = pos 0;
  last_update_time_ms = pos 0;
  ofi_accumulator = pos 0;
  live_ready = false;
  processing_buckets = 0 ∷ 0 ∷ 0 ∷ 0 ∷ 0 ∷ 0 ∷ 0 ∷ 0 ∷ 0 ∷ 0 ∷ 0 ∷ [];
  processing_us_sum = pos 0;
}

-- The loop over the bounds, and the bucket behind them.
unfoldable pub count_in_buckets : ℤ → List ℤ → List ℕ → List ℕ
count_in_buckets us bounds [] = []
count_in_buckets us [] (n ∷ counts) = (n + 1) ∷ counts
count_in_buckets us (bound ∷ bounds) (n ∷ counts) =
    (if leb_ℤ us bound then n + 1 else n) ∷ count_in_buckets us bounds counts

unfoldable pub record_processing_us : Metrics → ℤ → Metrics
unfolding count_in_buckets
record_processing_us m us = record m {
  processing_us_sum = m.processing_us_sum +ℤ us;
  processing_buckets = count_in_buckets us bucket_bounds m.processing_buckets;
}
