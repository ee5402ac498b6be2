-- ===== src/ClockOffset.antt =====
-- The clock offset of an exchange: hft-lead-lag/src/domain/screener/clock_offset.rs.
pub mod Bounds
use hft_lead_lag.Prelude.{
  ℕ, zero, suc, ◌+◌, ◌-◌, ◌/◌, Bool, ◌||◌, String, List, [], ◌∷◌, ◌++◌, ℤ, pos, ltb, leb, nat_beq,
  leb_ℤ, length, drop, get_or, saturating_add, saturating_sub, unsigned_abs, sat_inc, u32_max,
  string_key, ◌==◌, if◌then◌else◌,
}
use hft_lead_lag.Prelude.Ordering.{cmp_ℤ}
use hft_lead_lag.Portfolio.Ranking.{sort_by}

abbrev pub offset_window_samples : ℕ
offset_window_samples = 512

abbrev pub offset_recompute_interval : ℕ
offset_recompute_interval = 64

abbrev pub max_offset_sample_abs_ms : ℕ
max_offset_sample_abs_ms = 21_600_000

pub record ClockOffsetEstimator : Type 0 where
  pub samples : List ℤ
  pub cached_median_ms : ℤ
  pub pending_updates : ℕ

abbrev pub default_estimator : ClockOffsetEstimator
default_estimator = record { samples = []; cached_median_ms = pos 0; pending_updates = 0 }

-- `while self.samples.len() > OFFSET_WINDOW_SAMPLES { self.samples.pop_front(); }`
unfoldable pub trim_window : List ℤ → List ℤ
trim_window samples = drop (length samples - offset_window_samples) samples

unfoldable pub median_of : List ℤ → ℤ
median_of samples =
    let sorted = sort_by cmp_ℤ samples in
    if nat_beq (length samples) 0 then pos 0 else get_or sorted (length sorted / 2) (pos 0)

unfoldable pub observe : ClockOffsetEstimator → ℤ → ℤ → ClockOffsetEstimator
observe est ingress_ts_ms exchange_ts_ms =
    let sample = saturating_sub ingress_ts_ms exchange_ts_ms in
    let samples = trim_window (est.samples ++ sample ∷ []) in
    let pending = sat_inc u32_max est.pending_updates in
    let recomputed : ClockOffsetEstimator = record {
      samples = samples;
      cached_median_ms = median_of samples;
      pending_updates = 0;
    } in
    let kept : ClockOffsetEstimator = record est { samples = samples; pending_updates = pending } in
    if leb_ℤ ingress_ts_ms (pos 0) || leb_ℤ exchange_ts_ms (pos 0)
    then est
    else if ltb max_offset_sample_abs_ms (unsigned_abs sample)
    then est
    else if nat_beq (length samples) 1 || leb offset_recompute_interval pending
    then recomputed
    else kept

abbrev pub corrected_exchange_ms : ClockOffsetEstimator → ℤ → ℤ
corrected_exchange_ms est exchange_ts_ms = saturating_add exchange_ts_ms est.cached_median_ms

pub record ExchangeClockOffsets : Type 0 where
  pub binance : ClockOffsetEstimator
  pub gate : ClockOffsetEstimator

-- `ExchangeClockOffsets::corrected_exchange_ms`
unfoldable pub correct : ExchangeClockOffsets → String → ℤ → ℤ → ℤ × ExchangeClockOffsets
correct offsets exchange exchange_ts_ms ingress_ts_ms =
    let binance = observe offsets.binance ingress_ts_ms exchange_ts_ms in
    let gate = observe offsets.gate ingress_ts_ms exchange_ts_ms in
    if exchange == "binance"
    then (corrected_exchange_ms binance exchange_ts_ms, record offsets { binance = binance })
    else if exchange == "gate"
    then (corrected_exchange_ms gate exchange_ts_ms, record offsets { gate = gate })
    else (exchange_ts_ms, offsets)
