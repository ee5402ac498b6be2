-- ===== src/Quotes.antt =====
-- The quotes of a symbol: `ingest_quote` and `update_lag` of
-- hft-lead-lag/src/domain/screener/state.rs. Of `SymbolState`, the fields that they use.
pub mod Monotone
use hft_lead_lag.Prelude.{
  ℕ, Bool, true, false, String, Option, none, some, ℤ, pos, ltb_ℤ, ◌-%◌, unsigned_abs, string_key,
  ◌==◌, if◌then◌else◌,
}
use hft_lead_lag.Prelude.Float.{Float64, lt_f64}

pub record Quote (fl : Float64) : Type 0 where
  pub bid : fl.F
  pub ask : fl.F
  pub ts_ms : ℤ

pub record SymbolState (fl : Float64) : Type 0 where
  pub binance : Option (Quote fl)
  pub gate : Option (Quote fl)
  pub binance_event_ts_ms : Option ℤ
  pub gate_event_ts_ms : Option ℤ
  pub lag_ms : fl.F

-- `is_some_and(|previous_ts_ms| monotonic_ts_ms < previous_ts_ms)`
abbrev pub goes_back : Option ℤ → ℤ → Bool
goes_back none ts = false
goes_back (some previous) ts = ltb_ℤ ts previous

module _ (fl : Float64) where
  abbrev pub monotonic_ts : Quote fl → ℤ → ℤ
  monotonic_ts quote exchange_event_ts_ms =
      if ltb_ℤ (pos 0) exchange_event_ts_ms then exchange_event_ts_ms else quote.ts_ms

  unfoldable pub ingest_quote : SymbolState fl → String → Quote fl → ℤ → Bool × SymbolState fl
  ingest_quote s exchange quote exchange_event_ts_ms =
      let ts = monotonic_ts quote exchange_event_ts_ms in
      let from_binance : SymbolState fl = record s {
        binance = some quote;
        binance_event_ts_ms = some ts;
      } in
      let from_gate : SymbolState fl = record s { gate = some quote; gate_event_ts_ms = some ts } in
      if lt_f64 fl quote.ask quote.bid
      then (false, s)
      else if exchange == "binance"
      then (if goes_back s.binance_event_ts_ms ts then (false, s) else (true, from_binance))
      else if exchange == "gate"
      then (if goes_back s.gate_event_ts_ms ts then (false, s) else (true, from_gate))
      else (false, s)

  -- The distance of the two times, which wraps as `i64` does.
  unfoldable pub update_lag : SymbolState fl → SymbolState fl
  update_lag s = elim s.binance [
    | none ↦ s
    | some b ↦ elim s.gate [
      | none ↦ s
      | some g ↦ record s { lag_ms = fl.of_nat (unsigned_abs (b.ts_ms -% g.ts_ms)) }
    ]
  ]
