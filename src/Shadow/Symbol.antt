-- ===== src/Shadow/Symbol.antt =====
-- A symbol with its paper trader: `tick_shadow` of hft-lead-lag/src/domain/screener/state.rs.
use hft_lead_lag.Prelude.{List, none, some, ℤ}
use hft_lead_lag.Prelude.Float.{Float64}
use hft_lead_lag.Quotes.{Quote, SymbolState}
use hft_lead_lag.Prices.{PriceSample, push, cleanup}
use hft_lead_lag.Shadow.Types.{ShadowTrader}
use hft_lead_lag.Shadow.Tick.{tick_with_context}

-- The fields of a symbol's state that the paper trader uses, beside the quotes.
pub record WatchedSymbol (fl : Float64) : Type 0 where
  pub quotes : SymbolState fl
  pub gate_natr_30m_pct : fl.F
  pub price_samples : List (PriceSample fl)
  pub shadow : ShadowTrader fl

module _ (fl : Float64) where
  -- The part with two quotes.
  abbrev pub tick_quotes : ℤ → ℤ → Quote fl → Quote fl → WatchedSymbol fl → WatchedSymbol fl
  tick_quotes exchange_ts_ms window_ms binance gate w =
      let sample : PriceSample fl = record {
        ts_ms = exchange_ts_ms;
        gate_bid = gate.bid;
        gate_ask = gate.ask;
        binance_bid = binance.bid;
        binance_ask = binance.ask;
      } in
      let samples = cleanup exchange_ts_ms (push sample w.price_samples) in
      record w {
        price_samples = samples;
        shadow =
            tick_with_context fl
              (record {
                ts_ms = exchange_ts_ms;
                binance = binance;
                gate = gate;
                samples = samples;
                window_ms = window_ms;
                gate_natr_30m_pct_at_entry = w.gate_natr_30m_pct;
                run_id = none;
              })
              w.shadow;
      }

  unfoldable pub tick_shadow : ℤ → ℤ → WatchedSymbol fl → WatchedSymbol fl
  tick_shadow exchange_ts_ms window_ms w = elim w.quotes.binance [
    | none ↦ w
    | some binance ↦ elim w.quotes.gate [
      | none ↦ w
      | some gate ↦ tick_quotes exchange_ts_ms window_ms binance gate w
    ]
  ]
