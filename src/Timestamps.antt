-- ===== src/Timestamps.antt =====
-- Timestamps of hft-lead-lag/src/domain/screener/utils.rs: their normalisation to milliseconds, and the
-- drift between two clocks.
use hft_lead_lag.Prelude.{
  ℕ, ◌*◌, ◌/◌, Bool, true, false, Option, none, some, ℤ, pos, negsuc, leb, leb_ℤ, saturating_sub,
  if◌then◌else◌,
}
use hft_lead_lag.Prelude.Float.{Float64, le_f64}
pub mod Units

-- `i64::checked_mul` of numbers that are not negative.
abbrev pub checked_mul : ℕ → ℕ → Option ℤ
checked_mul a b = if leb (a * b) 9_223_372_036_854_775_807 then some (pos (a * b)) else none

unfoldable pub normalize_exchange_ts_ms : ℤ → Option ℤ
normalize_exchange_ts_ms (negsuc n) = none
normalize_exchange_ts_ms (pos raw_ts_ns) =
    if leb raw_ts_ns 0
    then none
    else if leb 1_000_000_000_000_000_000 raw_ts_ns
    then some (pos (raw_ts_ns / 1_000_000))
    else if leb 1_000_000_000_000_000 raw_ts_ns
    then some (pos (raw_ts_ns / 1_000))
    else if leb 1_000_000_000_000 raw_ts_ns
    then some (pos raw_ts_ns)
    else if leb 1_000_000_000 raw_ts_ns
    then checked_mul raw_ts_ns 1_000
    else none

pub record TimeDomainSample : Type 0 where
  pub exchange_event_ts_ms : ℤ
  pub ingress_ts_ms : ℤ
  pub decision_ts_ms : ℤ

abbrev pub unwrap_or : Option ℤ → ℤ → ℤ
unwrap_or none b = b
unwrap_or (some a) b = a

unfoldable pub from_raw : ℤ → ℤ → ℤ → TimeDomainSample
from_raw raw_exchange_ts_ns raw_local_receive_ts_ns decision_ts_ms = record {
  exchange_event_ts_ms = unwrap_or (normalize_exchange_ts_ms raw_exchange_ts_ns) decision_ts_ms;
  ingress_ts_ms = unwrap_or (normalize_exchange_ts_ms raw_local_receive_ts_ns) decision_ts_ms;
  decision_ts_ms = decision_ts_ms;
}

module _ (fl : Float64) where
  abbrev pub max_drift_abs_ms : fl.F
  max_drift_abs_ms = fl.ratio 30_000 1

  abbrev pub compute_drift_ms : ℤ → ℤ → Option fl.F
  compute_drift_ms local_ts_ms exchange_ts_ms =
      let drift_ms = fl.of_int (saturating_sub local_ts_ms exchange_ts_ms) in
      if le_f64 fl (fl.abs drift_ms) max_drift_abs_ms then some drift_ms else none

  abbrev pub decision_ws_drift_ms : TimeDomainSample → Option fl.F
  decision_ws_drift_ms t = compute_drift_ms t.decision_ts_ms t.exchange_event_ts_ms

  abbrev pub ingress_ws_drift_ms : TimeDomainSample → Option fl.F
  ingress_ws_drift_ms t = compute_drift_ms t.ingress_ts_ms t.exchange_event_ts_ms

  abbrev pub calculate_ws_drift_ms : ℤ → ℤ → Option fl.F
  calculate_ws_drift_ms local_ts_ms raw_exchange_ts_ns =
      elim (normalize_exchange_ts_ms raw_exchange_ts_ns) [
        | none ↦ none
        | some exchange_ts_ms ↦ compute_drift_ms local_ts_ms exchange_ts_ms
      ]
