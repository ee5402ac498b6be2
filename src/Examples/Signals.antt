-- ===== src/Examples/Signals.antt =====
-- Signals of hft-lead-lag/src/application/services/lead_lag.rs on two quotes.
use hft_lead_lag.Prelude.{
  ◌≡◌, ◌↔◌, arith, refl, String, List, [], ◌∷◌, Option, none, some, ℤ, pos, ◌-ℤ◌, ◌+ℤ◌, clamp_i64,
  true,
}
use hft_lead_lag.Prelude.Float.{ge_f64}
use hft_lead_lag.Examples.Floats.{cents, cents-IsPartialOrder}
use hft_lead_lag.LeadLag.Types.{
  BookTicker, LeadLagSignal, LeadLagStrategyConfig, binance_futures, gate_futures, long_lagger,
  default_lead_lag_config,
}
use hft_lead_lag.LeadLag.Strategy.{
  new_strategy, check_signal, signal_of, check_quotes, update_primary_book, update_hedge_book,
}
use hft_lead_lag.LeadLag.Offset.{observe_ns, observe_sample, recompute_median}
use hft_lead_lag.Portfolio.Ranking.{sort_by, place_by}
use hft_lead_lag.Prelude.Maps.{insert, lookup}
use hft_lead_lag.LeadLag.Latest.{
  BookUpdate, primary, hedge, update_all, latest_primary, latest_hedge,
}
use hft_lead_lag.LeadLag.Signal.{IsSignal, IsTradable, check_signal-Iff}
use hft_lead_lag.LeadLag.Runtime.{
  StrategySignal, LeadLagRuntimeStrategy, LeadLagConfig, lead_lag_classic, get_symbol, new_runtime,
  build_runtime_strategy, check_runtime, min_trigger_spread_bps, strategy_signal,
  resolve_lead_lag_config, binance, gate,
}
use hft_lead_lag.LeadLag.Feed.{feed}
use hft_lead_lag.LeadLag.Threshold.{runtime_signal_above}

abbrev ticker : ℤ → ℤ → BookTicker
ticker bid ask = record {
  symbol = "BTC";
  bid_price_ticks = bid;
  ask_price_ticks = ask;
  bid_qty_ticks = pos 1;
  ask_qty_ticks = pos 1;
  exchange_ts_ns = pos 5;
  local_ts_ns = pos 9;
  strategy_symbol_id = some 0;
}

-- The primary exchange bids 110 where the other asks 101.
abbrev quotes : List BookUpdate
quotes =
    primary (ticker (pos 11_000_000_000) (pos 11_100_000_000))
    ∷ hedge (ticker (pos 10_000_000_000) (pos 10_100_000_000))
    ∷ []

abbrev file : LeadLagConfig cents
file = record {
  primary_exchange = binance;
  hedge_exchange = gate;
  trigger_spread_bps = some (pos 1_000);
  max_position_age_ms = 5_000;
  symbols = [];
  max_quote_skew_ms = none;
  max_quote_age_ms = some 400;
}

abbrev symbols : List String
symbols = "BTC" ∷ []

abbrev cfg : LeadLagStrategyConfig cents
cfg = default_lead_lag_config cents

-- 110 above 101 is 800 basis points as these numbers round; below 0 they stop at 0.
abbrev found : LeadLagSignal cents
found = record {
  symbol = "BTC";
  leader = binance_futures;
  lagger = gate_futures;
  leader_bid_ticks = pos 11_000_000_000;
  leader_ask_ticks = pos 11_100_000_000;
  lagger_bid_ticks = pos 10_000_000_000;
  lagger_ask_ticks = pos 10_100_000_000;
  spread_bps = some (pos 80_000);
  direction = long_lagger;
  bid_ask_bps = some (pos 80_000);
  ask_bid_bps = some (pos 0);
  timestamp_ns = pos 10;
}

check_signal-Iff_example :
    (check_signal cents (update_all cents quotes (new_strategy cents cfg)) "BTC" (pos 10)
      ≡ some found)
    ↔ ((p : BookTicker) × (q : BookTicker) × (latest_primary "BTC" quotes none ≡ some p)
        × (latest_hedge "BTC" quotes none ≡ some q)
        × IsSignal cents cfg "BTC" (pos 10) p q found
        × IsTradable cents cfg quotes (pos 10) p q found)
check_signal-Iff_example = check_signal-Iff cents cfg quotes "BTC" (pos 10) found

signals :
    check_signal cents (update_all cents quotes (new_strategy cents cfg)) "BTC" (pos 10)
    ≡ some found
unfolding update_all check_signal check_quotes signal_of update_primary_book update_hedge_book
    insert lookup observe_ns observe_sample recompute_median sort_by place_by ◌-ℤ◌ ◌+ℤ◌ clamp_i64
signals = refl

abbrev runtime : LeadLagRuntimeStrategy cents
runtime = new_runtime cents (resolve_lead_lag_config cents (some file) symbols)

abbrev describe : LeadLagSignal cents → String
describe signal = "signal"

abbrev emitted : StrategySignal cents
emitted = strategy_signal cents describe (
    signal_of cents (resolve_lead_lag_config cents (some file) symbols) "BTC" (pos 10)
      (ticker (pos 11_000_000_000) (pos 11_100_000_000))
      (ticker (pos 10_000_000_000) (pos 10_100_000_000)))

emits : check_runtime cents describe (feed cents quotes runtime) 0 (pos 10) ≡ some emitted
unfolding check_runtime feed resolve_lead_lag_config check_signal check_quotes signal_of
    update_primary_book update_hedge_book insert lookup observe_ns observe_sample recompute_median
    sort_by place_by ◌-ℤ◌ ◌+ℤ◌ clamp_i64
emits = refl

nan_fails : (a b : Option ℤ) → cents.is_nan a ≡ true → cents.partial_cmp a b ≡ none
nan_fails none b h = refl
nan_fails (some a) b h = absurd (ground (arith, h))

runtime_signal_above_example :
    (ge_f64 cents emitted.spread_bps (min_trigger_spread_bps cents) ≡ true)
    × (get_symbol symbols 0 ≡ some emitted.symbol)
unfolding build_runtime_strategy
runtime_signal_above_example =
    runtime_signal_above cents cents-IsPartialOrder nan_fails refl refl describe lead_lag_classic
      (some file) symbols runtime quotes 0 (pos 10) emitted refl emits
