-- ===== src/Shadow/Tick.antt =====
-- `tick_with_context` of hft-lead-lag/src/domain/screener/shadow_trader.rs.
use hft_lead_lag.Prelude.{
  ℕ, ◌-◌, Bool, true, false, String, List, [], ◌∷◌, Option, none, some, ℤ, pos, negsuc, ◌-%◌, leb,
  ltb_ℤ, is_some, saturating_sub, unsigned_abs, if_both, if_cases, ◌≡◌, arith, if◌then◌else◌,
}
use hft_lead_lag.Prelude.Float.{Float64}
use hft_lead_lag.Quotes.{Quote}
use hft_lead_lag.Prices.{PriceSample, pop_before}
use hft_lead_lag.Shadow.Types.{ShadowTrader}
use hft_lead_lag.Shadow.Orders.{try_fill, try_exit}
use hft_lead_lag.Shadow.Gap.{try_entry}

-- `as u64` of an `i64`.
abbrev pub as_u64 : ℤ → ℕ
as_u64 (pos n) = n
as_u64 (negsuc n) = 18_446_744_073_709_551_615 - n

abbrev pub or_start : Option ℤ → ℤ → ℤ
or_start none ts = ts
or_start (some start) ts = start

-- The arguments of a tick.
pub record TickInput (fl : Float64) : Type 0 where
  pub ts_ms : ℤ
  pub binance : Quote fl
  pub gate : Quote fl
  pub samples : List (PriceSample fl)
  pub window_ms : ℤ
  pub gate_natr_30m_pct_at_entry : fl.F
  pub run_id : Option String

module _ (fl : Float64) where
  abbrev pub cleanup_spikes : ℤ → ShadowTrader fl → ShadowTrader fl
  cleanup_spikes ts_ms s = record s {
    spike_timestamps = pop_before (λ t. t) (ts_ms -% pos 120_000) s.spike_timestamps;
  }

  -- A quote that is not older or newer than the configuration allows.
  abbrev pub is_fresh : ShadowTrader fl → ℤ → Quote fl → Bool
  is_fresh s ts_ms quote =
      leb (unsigned_abs (ts_ms -% quote.ts_ms)) (as_u64 s.config.quote_freshness_ms)

  -- The start of a tick: its time is noted, old spikes go.
  unfoldable pub begin_tick : ℤ → ShadowTrader fl → ShadowTrader fl
  begin_tick ts_ms s =
      cleanup_spikes ts_ms
        (record s { start_ts_ms = some (or_start s.start_ts_ms ts_ms); latest_ts_ms = ts_ms })

  -- Fills and exits; the flag tells that the tick returns after them.
  unfoldable pub exit_lifecycle : TickInput fl → ShadowTrader fl → Bool × ShadowTrader fl
  exit_lifecycle i s =
      let filled = try_fill fl i.ts_ms i.gate i.window_ms s in
      let exited = try_exit fl i.ts_ms i.gate filled in
      if is_some filled.pending then (true, filled) else (is_some exited.pending, exited)

  -- The end of a tick with two fresh quotes.
  unfoldable pub enter : TickInput fl → ShadowTrader fl → ShadowTrader fl
  enter i s =
      let elapsed = saturating_sub i.ts_ms (or_start s.start_ts_ms i.ts_ms) in
      if ltb_ℤ elapsed s.config.warmup_ms
      then s
      else try_entry fl i.ts_ms i.binance i.gate i.samples i.gate_natr_30m_pct_at_entry i.run_id s

  unfoldable pub tick_with_context : TickInput fl → ShadowTrader fl → ShadowTrader fl
  tick_with_context i s =
      let begun = begin_tick i.ts_ms s in
      let binance_fresh = is_fresh s i.ts_ms i.binance in
      let gate_fresh = is_fresh s i.ts_ms i.gate in
      let managed = exit_lifecycle i begun in
      if gate_fresh
      then (if managed.0 then managed.1 else if binance_fresh then enter i managed.1 else managed.1)
      else begun

  -- What a tick leaves: its start, its fills and exits, or these and an entry.
  pub tick_cases {κ} :
      (P : ShadowTrader fl → Type κ) (i : TickInput fl) (s : ShadowTrader fl)
      → P (begin_tick i.ts_ms s)
      → P (exit_lifecycle i (begin_tick i.ts_ms s)).1
      → ((exit_lifecycle i (begin_tick i.ts_ms s)).0 ≡ false
          → P (enter i (exit_lifecycle i (begin_tick i.ts_ms s)).1))
      → P (tick_with_context i s)
  unfolding tick_with_context
  tick_cases P i s start managed entered =
      let begun = begin_tick i.ts_ms s in
      let m = exit_lifecycle i begun in
      if_both P (is_fresh s i.ts_ms i.gate)
        (if m.0 then m.1 else if is_fresh s i.ts_ms i.binance then enter i m.1 else m.1) begun
        (if_cases P m.0 m.1 (if is_fresh s i.ts_ms i.binance then enter i m.1 else m.1)
          (λ e. managed)
          (λ e. if_both P (is_fresh s i.ts_ms i.binance) (enter i m.1) m.1 (entered e) managed))
        start

  -- The same with a fresh quote of the gate.
  pub tick_fresh_cases {κ} :
      (P : ShadowTrader fl → Type κ) (i : TickInput fl) (s : ShadowTrader fl)
      → is_fresh s i.ts_ms i.gate ≡ true
      → P (exit_lifecycle i (begin_tick i.ts_ms s)).1
      → ((exit_lifecycle i (begin_tick i.ts_ms s)).0 ≡ false
          → P (enter i (exit_lifecycle i (begin_tick i.ts_ms s)).1))
      → P (tick_with_context i s)
  unfolding tick_with_context
  tick_fresh_cases P i s fresh managed entered =
      let begun = begin_tick i.ts_ms s in
      let m = exit_lifecycle i begun in
      let on = if m.0 then m.1 else if is_fresh s i.ts_ms i.binance then enter i m.1 else m.1 in
      if_cases P (is_fresh s i.ts_ms i.gate) on begun
        (λ t.
          if_cases P m.0 m.1 (if is_fresh s i.ts_ms i.binance then enter i m.1 else m.1)
            (λ e. managed)
            (λ e. if_both P (is_fresh s i.ts_ms i.binance) (enter i m.1) m.1 (entered e) managed))
        (λ stale. absurd (ground (arith, stale, fresh)))

  -- Ticks in order.
  unfoldable pub ticks : List (TickInput fl) → ShadowTrader fl → ShadowTrader fl
  ticks [] s = s
  ticks (i ∷ later) s = ticks later (tick_with_context i s)
