-- ===== src/Shadow/Views.antt =====
-- The read models of hft-lead-lag/src/domain/screener/shadow_trader.rs: statistics, debug view, chart.
use hft_lead_lag.Prelude.{
  ℕ, suc, ◌%◌, ◌/◌, String, List, [], ◌∷◌, ◌++◌, map, Option, none, some, ℤ, pos, ◌-%◌, ltb_ℤ,
  saturating_sub, nat_beq, is_some, ltb, length, take, if◌then◌else◌, max,
}
use hft_lead_lag.Prelude.Float.{Float64}
use hft_lead_lag.Prices.{PriceSample, last}
use hft_lead_lag.Shadow.Types.{ClosedTrade, ShadowTrader, short, long, as_str, direction_str}

pub record ShadowStats (fl : Float64) : Type 0 where
  pub session_pnl_pct : fl.F
  pub session_trades : ℕ
  pub avg_trade_pct : fl.F
  pub win_rate_pct : fl.F
  pub position : String
  pub spikes_detected : ℕ
  pub avg_catchup_pct : fl.F
  pub avg_catchup_lag_ms : fl.F

pub record ShadowDebug (fl : Float64) : Type 0 where
  pub samples : ℕ
  pub last_binance_bid : fl.F
  pub last_binance_ask : fl.F
  pub last_gate_bid : fl.F
  pub last_gate_ask : fl.F
  pub completed_trades_in_window : ℕ
  pub cooldown_remaining_ms : ℤ
  pub warmup_remaining_ms : ℤ
  pub position : String
  pub entry_price : Option fl.F
  pub last_5_trades_pnl_pct : List fl.F
  pub spike_threshold_bps : fl.F
  pub spikes_in_window : ℕ
  pub max_hold_ms : ℤ
  pub stop_loss_bps : fl.F

pub record ChartTrade (fl : Float64) : Type 0 where
  pub entry_ts_ms : ℤ
  pub exit_ts_ms : ℤ
  pub direction : String
  pub pnl_pct : fl.F
  pub exit_reason : String
  pub spike_bps : fl.F
  pub catchup_pct : fl.F
  pub entry_price : fl.F
  pub exit_price : fl.F

pub record ChartData (fl : Float64) : Type 0 where
  pub symbol : String
  pub ts : List fl.F
  pub gate_bid : List fl.F
  pub gate_ask : List fl.F
  pub binance_bid : List fl.F
  pub binance_ask : List fl.F
  pub trades : List (ChartTrade fl)
  pub position : String
  pub entry_price : Option fl.F
  pub entry_ts_ms : Option ℤ

module _ {ℓ κ} {A : Type ℓ} {B : Type κ} where
  -- `map` and `map(..).unwrap_or(b)` of an option.
  abbrev pub view : (A → B) → Option A → Option B
  view f none = none
  view f (some a) = some (f a)

  abbrev pub view_or : B → (A → B) → Option A → B
  view_or b f none = b
  view_or b f (some a) = f a

module _ {ℓ} {A : Type ℓ} where
  abbrev pub reversed : List A → List A
  reversed [] = []
  reversed (x ∷ xs) = reversed xs ++ x ∷ []

  -- The elements at the multiples of `step`, for a list that starts at index `i`.
  unfoldable pub thin : ℕ → ℕ → List A → List A
  thin step i [] = []
  thin step i (x ∷ xs) =
      let rest = thin step (suc i) xs in if nat_beq (i % step) 0 then x ∷ rest else rest

-- `(len / 600).max(1)`
abbrev pub chart_step : ℕ → ℕ
chart_step n = max (n / 600) 1

-- `.max(0)`
abbrev pub at_least_zero : ℤ → ℤ
at_least_zero a = if ltb_ℤ a (pos 0) then pos 0 else a

module _ (fl : Float64) where
  abbrev pub position_label : ShadowTrader fl → String
  position_label s = if is_some s.pending then "PENDING" else elim s.position [
    | none ↦ "FLAT"
    | some p ↦ elim p.direction [ short ↦ "SHORT_GT" | long ↦ "LONG_GT" ]
  ]

  -- The mean over the trades of the window.
  abbrev pub window_mean : (ClosedTrade fl → fl.F) → List (ClosedTrade fl) → fl.F
  window_mean f trades =
      if ltb 0 (length trades)
      then fl.div (fl.sum (map f trades)) (fl.of_nat (length trades))
      else fl.ratio 0 1

  unfoldable pub stats : ShadowTrader fl → ShadowStats fl
  stats s =
      if nat_beq s.session_trades 0
      then record {
        session_pnl_pct = fl.ratio 0 1;
        session_trades = 0;
        avg_trade_pct = fl.ratio 0 1;
        win_rate_pct = fl.ratio 0 1;
        position = position_label s;
        spikes_detected = length s.spike_timestamps;
        avg_catchup_pct = fl.ratio 0 1;
        avg_catchup_lag_ms = fl.ratio 0 1;
      }
      else record {
        session_pnl_pct = s.session_total_pnl_pct;
        session_trades = s.session_trades;
        avg_trade_pct = fl.div s.session_total_pnl_pct (fl.of_nat s.session_trades);
        win_rate_pct =
            fl.mul (fl.div (fl.of_nat s.session_wins) (fl.of_nat s.session_trades))
              (fl.ratio 100 1);
        position = position_label s;
        spikes_detected = length s.spike_timestamps;
        avg_catchup_pct = window_mean (λ t. t.catchup_pct) s.completed_trades;
        avg_catchup_lag_ms = window_mean (λ t. fl.of_int t.catchup_ms) s.completed_trades;
      }

  unfoldable pub debug : List (PriceSample fl) → ShadowTrader fl → ShadowDebug fl
  debug samples s =
      let elapsed = view_or (pos 0) (λ start. saturating_sub s.latest_ts_ms start) s.start_ts_ms in
      let newest = last samples in
      record {
        samples = length samples;
        last_binance_bid = view_or (fl.ratio 0 1) (λ p. p.binance_bid) newest;
        last_binance_ask = view_or (fl.ratio 0 1) (λ p. p.binance_ask) newest;
        last_gate_bid = view_or (fl.ratio 0 1) (λ p. p.gate_bid) newest;
        last_gate_ask = view_or (fl.ratio 0 1) (λ p. p.gate_ask) newest;
        completed_trades_in_window = length s.completed_trades;
        cooldown_remaining_ms = at_least_zero (s.cooldown_until_ms -% s.latest_ts_ms);
        warmup_remaining_ms = at_least_zero (s.config.warmup_ms -% elapsed);
        position = position_label s;
        entry_price = view (λ p. p.gate_entry_price) s.position;
        last_5_trades_pnl_pct = map (λ t. t.pnl_pct) (take 5 (reversed s.completed_trades));
        spike_threshold_bps = s.config.spike_threshold_bps;
        spikes_in_window = length s.spike_timestamps;
        max_hold_ms = s.config.max_hold_ms;
        stop_loss_bps = s.config.stop_loss_bps;
      }

  abbrev pub chart_trade : ClosedTrade fl → ChartTrade fl
  chart_trade t = record {
    entry_ts_ms = t.entry_ts_ms;
    exit_ts_ms = t.ts_ms;
    direction = direction_str t.direction;
    pnl_pct = t.pnl_pct;
    exit_reason = as_str t.exit_reason;
    spike_bps = t.spike_bps;
    catchup_pct = t.catchup_pct;
    entry_price = t.entry_price;
    exit_price = t.exit_price;
  }

  unfoldable pub chart_data : String → List (PriceSample fl) → ShadowTrader fl → ChartData fl
  chart_data symbol samples s =
      let shown = thin (chart_step (length samples)) 0 samples in
      record {
        symbol = symbol;
        ts = map (λ p. fl.div (fl.of_int p.ts_ms) (fl.ratio 1_000 1)) shown;
        gate_bid = map (λ p. p.gate_bid) shown;
        gate_ask = map (λ p. p.gate_ask) shown;
        binance_bid = map (λ p. p.binance_bid) shown;
        binance_ask = map (λ p. p.binance_ask) shown;
        trades = map chart_trade s.completed_trades;
        position = position_label s;
        entry_price = view (λ p. p.gate_entry_price) s.position;
        entry_ts_ms = view (λ p. p.entry_ts_ms) s.position;
      }
