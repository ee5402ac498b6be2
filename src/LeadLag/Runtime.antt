-- ===== src/LeadLag/Runtime.antt =====
-- The strategy as the signal loop uses it: hft-lead-lag/src/application/strategies/mod.rs, with
-- `LeadLagConfig` and `StrategyKind` of hft-lead-lag/src/config/mod.rs.
use hft_lead_lag.Prelude.{
  ℕ, zero, suc, String, List, [], ◌∷◌, Option, none, some, ℤ, if◌then◌else◌, ◌⊎◌, inl, inr,
}
use hft_lead_lag.Prelude.Float.{Float64, lt_f64, gt_f64}
use hft_lead_lag.LeadLag.Types.{
  BookTicker, ExchangeId, binance_futures, gate_futures, LeadLagSignal, LeadLagStrategyConfig,
  default_lead_lag_config, direction_name,
}
use hft_lead_lag.LeadLag.Strategy.{
  LeadLagStrategy, new_strategy, update_primary_book, update_hedge_book, check_signal,
}

pub data StrategyKind : Type 0 where
  lead_lag_classic dislocation_reversion : StrategyKind

pub data ConfigExchangeId : Type 0 where
  binance gate : ConfigExchangeId

pub record LeadLagConfig (fl : Float64) : Type 0 where
  pub primary_exchange : ConfigExchangeId
  pub hedge_exchange : ConfigExchangeId
  pub trigger_spread_bps : fl.F
  pub max_position_age_ms : ℕ
  pub symbols : List String
  pub max_quote_skew_ms : Option ℕ
  pub max_quote_age_ms : Option ℕ

pub record StrategySignal (fl : Float64) : Type 0 where
  pub strategy : String
  pub symbol : String
  pub spread_bps : fl.F
  pub direction : String
  pub bid_ask_bps : fl.F
  pub ask_bid_bps : fl.F
  pub context : String

pub record LeadLagRuntimeStrategy (fl : Float64) : Type 0 where
  pub inner : LeadLagStrategy fl
  pub symbols : List String

abbrev pub map_exchange_id : ConfigExchangeId → ExchangeId
map_exchange_id binance = binance_futures
map_exchange_id gate = gate_futures

abbrev pub override : Option ℕ → ℕ → ℕ
override none old = old
override (some new) old = new

-- `Vec::get`
abbrev pub get_symbol : List String → ℕ → Option String
get_symbol [] i = none
get_symbol (x ∷ xs) zero = some x
get_symbol (x ∷ xs) (suc i) = get_symbol xs i

module _ (fl : Float64) where
  abbrev pub min_trigger_spread_bps : fl.F
  min_trigger_spread_bps = fl.ratio 25 1

  abbrev pub max_trigger_spread_bps : fl.F
  max_trigger_spread_bps = fl.ratio 100 1

  -- `f64::clamp`, which leaves NaN as it is.
  abbrev pub clamp_f64 : fl.F → fl.F → fl.F → fl.F
  clamp_f64 low high x = if lt_f64 fl x low then low else if gt_f64 fl x high then high else x

  -- The settings of a file and the live symbols.
  unfoldable pub resolve_lead_lag_config :
      Option (LeadLagConfig fl) → List String → LeadLagStrategyConfig fl
  resolve_lead_lag_config none strategy_symbols = record (default_lead_lag_config fl) {
    symbols = strategy_symbols;
  }
  resolve_lead_lag_config (some file) strategy_symbols =
      let base = default_lead_lag_config fl in
      record base {
        symbols = strategy_symbols;
        primary_exchange = map_exchange_id file.primary_exchange;
        hedge_exchange = map_exchange_id file.hedge_exchange;
        min_entry_spread_bps =
            clamp_f64 min_trigger_spread_bps max_trigger_spread_bps file.trigger_spread_bps;
        max_position_age_ms = file.max_position_age_ms;
        max_quote_skew_ms = override file.max_quote_skew_ms base.max_quote_skew_ms;
        max_quote_age_ms = override file.max_quote_age_ms base.max_quote_age_ms;
      }

  abbrev pub new_runtime : LeadLagStrategyConfig fl → LeadLagRuntimeStrategy fl
  new_runtime config = record { inner = new_strategy fl config; symbols = config.symbols }

  -- The strategy, or the kind that is not implemented.
  unfoldable pub build_runtime_strategy :
      StrategyKind
      → Option (LeadLagConfig fl)
      → List String
      → StrategyKind ⊎ LeadLagRuntimeStrategy fl
  build_runtime_strategy lead_lag_classic file strategy_symbols =
      inr (new_runtime (resolve_lead_lag_config file strategy_symbols))
  build_runtime_strategy dislocation_reversion file strategy_symbols = inl dislocation_reversion

  abbrev pub on_primary_book : BookTicker → LeadLagRuntimeStrategy fl → LeadLagRuntimeStrategy fl
  on_primary_book ticker r = record r { inner = update_primary_book fl ticker r.inner }

  abbrev pub on_hedge_book : BookTicker → LeadLagRuntimeStrategy fl → LeadLagRuntimeStrategy fl
  on_hedge_book ticker r = record r { inner = update_hedge_book fl ticker r.inner }

  -- `context` is the text that `format!` makes of a signal.
  abbrev pub strategy_signal : (LeadLagSignal fl → String) → LeadLagSignal fl → StrategySignal fl
  strategy_signal context signal = record {
    strategy = "lead_lag_classic";
    symbol = signal.symbol;
    spread_bps = signal.spread_bps;
    direction = direction_name signal.direction;
    bid_ask_bps = signal.bid_ask_bps;
    ask_bid_bps = signal.ask_bid_bps;
    context = context signal;
  }

  unfoldable pub check_runtime :
      (LeadLagSignal fl → String) → LeadLagRuntimeStrategy fl → ℕ → ℤ → Option (StrategySignal fl)
  check_runtime context r symbol_id now_ns = elim (get_symbol r.symbols symbol_id) [
    | none ↦ none
    | some symbol ↦ elim (check_signal fl r.inner symbol now_ns) [
      | none ↦ none
      | some signal ↦ some (strategy_signal context signal)
    ]
  ]
