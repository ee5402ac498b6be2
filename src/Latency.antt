-- ===== src/Latency.antt =====
-- Latency percentiles: `latency_snapshot_and_reset` of hft-lead-lag/src/event_loop_execution.rs and
-- of hft-lead-lag/src/event_loop_core.rs, which are the same code.
pub mod Sorted
use hft_lead_lag.Prelude.{ℕ, ◌-◌, ◌*◌, ◌/◌, List, [], ◌∷◌, leb, length, get_or, if◌then◌else◌}

pub record LatencyStatsSnapshot : Type 0 where
  pub samples : ℕ
  pub p50_us : ℕ
  pub p95_us : ℕ
  pub p99_us : ℕ
  pub max_us : ℕ

abbrev pub no_samples : LatencyStatsSnapshot
no_samples = record { samples = 0; p50_us = 0; p95_us = 0; p99_us = 0; max_us = 0 }

unfoldable pub place : ℕ → List ℕ → List ℕ
place x [] = x ∷ []
place x (y ∷ ys) = let later = y ∷ place x ys in if leb x y then x ∷ y ∷ ys else later

-- `sort_unstable` of numbers.
unfoldable pub sort : List ℕ → List ℕ
sort [] = []
sort (x ∷ xs) = place x (sort xs)

-- `samples[i]` of a vector that is not empty; `Sorted.index_lt` has the bounds.
unfoldable pub snapshot_of : List ℕ → LatencyStatsSnapshot
snapshot_of sorted =
    let n = length sorted in
    record {
      samples = n;
      p50_us = get_or sorted (n / 2) 0;
      p95_us = get_or sorted (n * 95 / 100) 0;
      p99_us = get_or sorted (n * 99 / 100) 0;
      max_us = get_or sorted (n - 1) 0;
    }

-- The snapshot; the samples are cleared.
unfoldable pub latency_snapshot_and_reset : List ℕ → LatencyStatsSnapshot × List ℕ
latency_snapshot_and_reset [] = (no_samples, [])
latency_snapshot_and_reset (x ∷ xs) = (snapshot_of (sort (x ∷ xs)), [])
