-- ===== src/Examples/Times.antt =====
-- Timestamps of hft-lead-lag/src/domain/screener/utils.rs.
use hft_lead_lag.Prelude.{◌≡◌, ◌⊎◌, none, some, ℤ, pos, ◌<ℤ◌, arith}
use hft_lead_lag.Timestamps.{normalize_exchange_ts_ms}
use hft_lead_lag.Timestamps.Units.{
  IsMillis, normalize_exchange_ts_ms-IsMillis, normalize_exchange_ts_ms_units,
}

normalize_exchange_ts_ms-IsMillis_example :
    ((pos 1_700_000_000 <ℤ pos 1_000_000_000)
      × (normalize_exchange_ts_ms (pos 1_700_000_000) ≡ none))
    ⊎ ((ms : ℤ) × (normalize_exchange_ts_ms (pos 1_700_000_000) ≡ some ms)
        × IsMillis ms
        × (normalize_exchange_ts_ms ms ≡ some ms))
normalize_exchange_ts_ms-IsMillis_example =
    normalize_exchange_ts_ms-IsMillis (pos 1_700_000_000)
      (record { below = omega arith; above = omega arith })

normalize_exchange_ts_ms_units_example :
    (normalize_exchange_ts_ms (pos 1_700_000_000_000) ≡ some (pos 1_700_000_000_000))
    × (normalize_exchange_ts_ms (pos 1_700_000_000_000_123) ≡ some (pos 1_700_000_000_000))
    × (normalize_exchange_ts_ms (pos 1_700_000_000_000_123_456) ≡ some (pos 1_700_000_000_000))
normalize_exchange_ts_ms_units_example =
    normalize_exchange_ts_ms_units 1_700_000_000_000 123 456 (omega arith, omega arith)
      (omega arith) (omega arith) (record { below = omega arith; above = omega arith })
