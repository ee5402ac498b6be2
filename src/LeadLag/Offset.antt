-- ===== src/LeadLag/Offset.antt =====
-- `ExchangeClockOffset` of hft-lead-lag/src/application/services/lead_lag.rs.
use hft_lead_lag.Prelude.{
  ℕ, ◌-◌, ◌/◌, ◌||◌, List, [], ◌∷◌, ◌++◌, ℤ, pos, ltb, leb, nat_beq, leb_ℤ, length, drop, get_or,
  saturating_add, saturating_sub, unsigned_abs, sat_inc, u32_max, if◌then◌else◌,
}
use hft_lead_lag.Prelude.Ordering.{cmp_ℤ}
use hft_lead_lag.Portfolio.Ranking.{sort_by}

abbrev pub max_offset_sample_abs_ns : ℕ
max_offset_sample_abs_ns = 21_600_000_000_000

pub record ExchangeClockOffset : Type 0 where
  pub samples : List ℤ
  pub cached_median_ns : ℤ
  pub pending_updates : ℕ

abbrev pub default_offset : ExchangeClockOffset
default_offset = record { samples = []; cached_median_ns = pos 0; pending_updates = 0 }

unfoldable pub recompute_median : ExchangeClockOffset → ExchangeClockOffset
recompute_median o =
    let sorted = sort_by cmp_ℤ o.samples in
    record o {
      cached_median_ns =
          if nat_beq (length o.samples) 0 then pos 0 else get_or sorted (length sorted / 2) (pos 0);
    }

-- A sample joins the window of 256.
unfoldable pub observe_sample : ℤ → ExchangeClockOffset → ExchangeClockOffset
observe_sample sample o =
    let pushed = o.samples ++ sample ∷ [] in
    let samples = drop (length pushed - 256) pushed in
    let pending = sat_inc u32_max o.pending_updates in
    let kept : ExchangeClockOffset = record o { samples = samples; pending_updates = pending } in
    if nat_beq (length samples) 1 || leb 64 pending
    then record (recompute_median kept) { pending_updates = 0 }
    else kept

unfoldable pub observe_ns : ℤ → ℤ → ExchangeClockOffset → ExchangeClockOffset
observe_ns local_ts_ns exchange_ts_ns o =
    let sample = saturating_sub local_ts_ns exchange_ts_ns in
    if leb_ℤ local_ts_ns (pos 0) || leb_ℤ exchange_ts_ns (pos 0)
    then o
    else if ltb max_offset_sample_abs_ns (unsigned_abs sample)
    then o
    else observe_sample sample o

abbrev pub corrected_exchange_ts_ns : ExchangeClockOffset → ℤ → ℤ
corrected_exchange_ts_ns o exchange_ts_ns = saturating_add exchange_ts_ns o.cached_median_ns
