-- ===== src/LeadLag/Types.antt =====
-- The data of hft-lead-lag/src/application/services/lead_lag.rs, with `BookTicker` of
-- hft-lead-lag/src/domain/messages.rs and `ExchangeId` of hft-lead-lag/src/domain/exchange.rs.
use hft_lead_lag.Prelude.{ℕ, String, List, [], ◌∷◌, Option, ℤ}
use hft_lead_lag.Prelude.Float.{Float64}

pub data ExchangeId : Type 0 where
  binance_futures gate_futures : ExchangeId

pub data SignalDirection : Type 0 where
  long_lagger short_lagger : SignalDirection

abbrev pub direction_name : SignalDirection → String
direction_name long_lagger = "LONG_LAGGER"
direction_name short_lagger = "SHORT_LAGGER"

pub record BookTicker : Type 0 where
  pub symbol : String
  pub bid_price_ticks : ℤ
  pub ask_price_ticks : ℤ
  pub bid_qty_ticks : ℤ
  pub ask_qty_ticks : ℤ
  pub exchange_ts_ns : ℤ
  pub local_ts_ns : ℤ
  pub strategy_symbol_id : Option ℕ

pub record LeadLagSignal (fl : Float64) : Type 0 where
  pub symbol : String
  pub leader : ExchangeId
  pub lagger : ExchangeId
  pub leader_bid_ticks : ℤ
  pub leader_ask_ticks : ℤ
  pub lagger_bid_ticks : ℤ
  pub lagger_ask_ticks : ℤ
  pub spread_bps : fl.F
  pub direction : SignalDirection
  pub bid_ask_bps : fl.F
  pub ask_bid_bps : fl.F
  pub timestamp_ns : ℤ

pub record LeadLagStrategyConfig (fl : Float64) : Type 0 where
  pub primary_exchange : ExchangeId
  pub hedge_exchange : ExchangeId
  pub min_entry_spread_bps : fl.F
  pub target_exit_spread_bps : fl.F
  pub max_position_age_ms : ℕ
  pub order_qty_usd : fl.F
  pub symbols : List String
  pub max_quote_skew_ms : ℕ
  pub max_quote_age_ms : ℕ

abbrev pub default_lead_lag_config : (fl : Float64) → LeadLagStrategyConfig fl
default_lead_lag_config fl = record {
  primary_exchange = binance_futures;
  hedge_exchange = gate_futures;
  min_entry_spread_bps = fl.ratio 30 1;
  target_exit_spread_bps = fl.ratio 1 1;
  max_position_age_ms = 5_000;
  order_qty_usd = fl.ratio 10 1;
  symbols = "BTCUSDT" ∷ "ETHUSDT" ∷ [];
  max_quote_skew_ms = 1_000;
  max_quote_age_ms = 2_000;
}
