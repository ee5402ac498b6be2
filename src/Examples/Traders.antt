-- ===== src/Examples/Traders.antt =====
-- Runs of the paper trader of hft-lead-lag/src/domain/screener/shadow_trader.rs.
use hft_lead_lag.Prelude.{
  ◌≡◌, refl, ◌+◌, ◌≤◌, false, List, [], ◌∷◌, none, some, ℤ, pos, inl, inr, arith, length, ◌-ℤ◌,
  ◌+ℤ◌, clamp_i64, i64_max, negsuc, ◌-%◌, ◌+%◌, wrap_i64,
}
use hft_lead_lag.Examples.Floats.{cents}
use hft_lead_lag.Quotes.{Quote}
use hft_lead_lag.Prices.{PriceSample}
use hft_lead_lag.Shadow.Config.{TraderConfig, default_trader_config}
use hft_lead_lag.Shadow.Types.{ShadowTrader, OpenPosition, exit, new_trader, long, timeout}
use hft_lead_lag.Shadow.Orders.{fill_exit}
use hft_lead_lag.Shadow.Tick.{TickInput, tick_with_context, ticks}
use hft_lead_lag.Shadow.Life.{FollowsLife}
use hft_lead_lag.Shadow.Life.Whole.{tick-Follows}
use hft_lead_lag.Shadow.Books.{IsBalanced, ticks-IsBalanced}
use hft_lead_lag.Shadow.Deadlines.{HasClosed, closes_in_time}
use hft_lead_lag.Shadow.Quiet.{IsIdle, ticks-IsIdle}
use hft_lead_lag.Shadow.Views.{chart_data}
use hft_lead_lag.Shadow.Chart.{IsSize, chart_data-IsSize}

abbrev cfg : TraderConfig cents
cfg = default_trader_config cents

abbrev quote_at : ℤ → Quote cents
quote_at ts = record { bid = some (pos 10_000); ask = some (pos 10_001); ts_ms = ts }

abbrev pub tick_at : ℤ → TickInput cents
tick_at ts = record {
  ts_ms = ts;
  binance = quote_at ts;
  gate = quote_at ts;
  samples = [];
  window_ms = pos 3_600_000;
  gate_natr_30m_pct_at_entry = some (pos 0);
  run_id = some "run-1";
}

abbrev held : OpenPosition cents
held = record {
  direction = long;
  gate_entry_price = some (pos 9_990);
  entry_ts_ms = pos 100_000;
  spike_bps = some (pos 6_000);
  gate_spread_at_entry_bps = some (pos 100);
  gate_natr_30m_pct_at_entry = some (pos 0);
  run_id = some "run-1";
  peak_unrealized_bps = some (pos 0);
  breakeven_activated = false;
}

abbrev holder : ShadowTrader cents
holder = record (new_trader cents cfg) {
  position = some held;
  start_ts_ms = some (pos 0);
  latest_ts_ms = pos 100_000;
}

abbrev pub leaver : ShadowTrader cents
leaver = record holder {
  position = none;
  pending = some (exit (record { fire_ts_ms = pos 110_000; held = held; reason = timeout }));
}

tick-Follows_example :
    FollowsLife cents (pos 110_010) leaver (tick_with_context cents (tick_at (pos 110_010)) leaver)
unfolding ◌+ℤ◌
tick-Follows_example =
    tick-Follows cents (tick_at (pos 110_010)) leaver refl
      (record { above = omega arith; below = omega arith })
      (record { above = omega arith; below = omega arith })

ticks-IsBalanced_example :
    IsBalanced cents (ticks cents (tick_at (pos 110_010) ∷ tick_at (pos 110_020) ∷ []) leaver)
    × ((ticks cents (tick_at (pos 110_010) ∷ tick_at (pos 110_020) ∷ []) leaver).session_trades
        ≤ leaver.session_trades + 2)
ticks-IsBalanced_example =
    ticks-IsBalanced cents (tick_at (pos 110_010) ∷ tick_at (pos 110_020) ∷ []) leaver
      (record { paired = refl; kept = omega arith; won = omega arith }) (omega arith)

-- The longest cooldown that a configuration may have wraps around to a time before the exit.
cooldown_wraps :
    (fill_exit cents
      (pos 110_010)
      (quote_at (pos 110_010))
      (pos 3_600_000)
      held
      timeout
      (record leaver { config = record cfg { cooldown_ms = i64_max } })).cooldown_until_ms
    ≡ negsuc 9_223_372_036_854_665_798
unfolding fill_exit ◌+ℤ◌ ◌+%◌ wrap_i64
cooldown_wraps = refl

closes_in_time_example : HasClosed cents holder (
    tick_with_context cents
      (tick_at (pos 110_010))
      (tick_with_context cents (tick_at (pos 110_000)) holder))
unfolding ◌-ℤ◌ ◌+ℤ◌ ◌-%◌ ◌+%◌ wrap_i64
closes_in_time_example =
    closes_in_time cents (tick_at (pos 110_000)) (tick_at (pos 110_010)) holder held refl refl refl
      refl refl refl

-- It warms up until 30000 and cools down until 33000.
abbrev rester : ShadowTrader cents
rester = record (new_trader cents cfg) {
  start_ts_ms = some (pos 0);
  session_trades = 1;
  cooldown_until_ms = pos 33_000;
}

ticks-IsIdle_example :
    IsIdle cents cfg
      (pos 0)
      (pos 33_000)
      1
      (ticks cents (tick_at (pos 20_000) ∷ tick_at (pos 31_000) ∷ []) rester)
unfolding clamp_i64 ◌-ℤ◌
ticks-IsIdle_example =
    ticks-IsIdle cents cfg (pos 0) (pos 33_000) 1 (tick_at (pos 20_000) ∷ tick_at (pos 31_000) ∷ [])
      rester (inr refl, (inl refl, tt))
      (record {
        no_order = refl;
        no_position = refl;
        same_start = refl;
        same_until = refl;
        same_count = refl;
        same_config = refl;
      })

abbrev sample_at : ℤ → PriceSample cents
sample_at ts = record {
  ts_ms = ts;
  gate_bid = some (pos 10_000);
  gate_ask = some (pos 10_001);
  binance_bid = some (pos 10_000);
  binance_ask = some (pos 10_001);
}

abbrev two_samples : List (PriceSample cents)
two_samples = sample_at (pos 1) ∷ sample_at (pos 2) ∷ []

chart_data-IsSize_example :
    IsSize 2 (length (chart_data cents "BTC" two_samples holder).ts)
    × (length (chart_data cents "BTC" two_samples holder).gate_bid
        ≡ length (chart_data cents "BTC" two_samples holder).ts)
    × (length (chart_data cents "BTC" two_samples holder).gate_ask
        ≡ length (chart_data cents "BTC" two_samples holder).ts)
    × (length (chart_data cents "BTC" two_samples holder).binance_bid
        ≡ length (chart_data cents "BTC" two_samples holder).ts)
    × (length (chart_data cents "BTC" two_samples holder).binance_ask
        ≡ length (chart_data cents "BTC" two_samples holder).ts)
chart_data-IsSize_example = chart_data-IsSize cents "BTC" two_samples holder
