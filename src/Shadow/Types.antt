-- ===== src/Shadow/Types.antt =====
-- The data of hft-lead-lag/src/domain/screener/shadow_trader.rs.
use hft_lead_lag.Prelude.{ℕ, Bool, true, false, String, List, [], Option, none, ℤ, pos}
use hft_lead_lag.Prelude.Float.{Float64}
use hft_lead_lag.Shadow.Config.{TraderConfig}

abbrev pub early_stop_churn_hold_ms : ℤ
early_stop_churn_hold_ms = pos 500

pub data Direction : Type 0 where
  short long : Direction

pub data ExitReason : Type 0 where
  stop_loss breakeven trailing_take timeout : ExitReason

abbrev pub as_str : ExitReason → String
as_str stop_loss = "stop_loss"
as_str breakeven = "breakeven"
as_str trailing_take = "trailing_take"
as_str timeout = "timeout"

abbrev pub is_stop_loss : ExitReason → Bool
is_stop_loss stop_loss = true
is_stop_loss breakeven = false
is_stop_loss trailing_take = false
is_stop_loss timeout = false

abbrev pub direction_str : Direction → String
direction_str long = "LONG"
direction_str short = "SHORT"

pub record OpenPosition (fl : Float64) : Type 0 where
  pub direction : Direction
  pub gate_entry_price : fl.F
  pub entry_ts_ms : ℤ
  pub spike_bps : fl.F
  pub gate_spread_at_entry_bps : fl.F
  pub gate_natr_30m_pct_at_entry : fl.F
  pub run_id : Option String
  pub peak_unrealized_bps : fl.F
  pub breakeven_activated : Bool

pub record ClosedTrade (fl : Float64) : Type 0 where
  pub pnl_pct : fl.F
  pub ts_ms : ℤ
  pub direction : Direction
  pub entry_ts_ms : ℤ
  pub entry_price : fl.F
  pub exit_price : fl.F
  pub exit_reason : ExitReason
  pub spike_bps : fl.F
  pub catchup_pct : fl.F
  pub catchup_ms : ℤ
  pub gate_spread_at_entry_bps : fl.F
  pub gate_natr_30m_pct_at_entry : fl.F
  pub hold_ms : ℤ
  pub early_stop_churn : Bool

pub record EntryOrder (fl : Float64) : Type 0 where
  pub direction : Direction
  pub fire_ts_ms : ℤ
  pub spike_bps : fl.F
  pub gate_spread_at_entry_bps : fl.F
  pub gate_natr_30m_pct_at_entry : fl.F
  pub run_id : Option String

pub record ExitOrder (fl : Float64) : Type 0 where
  pub fire_ts_ms : ℤ
  pub held : OpenPosition fl
  pub reason : ExitReason

pub data PendingOrder (fl : Float64) : Type 0 where
  entry : EntryOrder fl → PendingOrder fl
  exit : ExitOrder fl → PendingOrder fl

pub record ShadowTrader (fl : Float64) : Type 0 where
  pub config : TraderConfig fl
  pub position : Option (OpenPosition fl)
  pub pending : Option (PendingOrder fl)
  pub completed_trades : List (ClosedTrade fl)
  pub completed_trade_run_ids : List (Option String)
  pub session_total_pnl_pct : fl.F
  pub session_trades : ℕ
  pub session_wins : ℕ
  pub spike_timestamps : List ℤ
  pub start_ts_ms : Option ℤ
  pub latest_ts_ms : ℤ
  pub cooldown_until_ms : ℤ

abbrev pub new_trader : (fl : Float64) → TraderConfig fl → ShadowTrader fl
new_trader fl config = record {
  config = config;
  position = none;
  pending = none;
  completed_trades = [];
  completed_trade_run_ids = [];
  session_total_pnl_pct = fl.ratio 0 1;
  session_trades = 0;
  session_wins = 0;
  spike_timestamps = [];
  start_ts_ms = none;
  latest_ts_ms = pos 0;
  cooldown_until_ms = pos 0;
}
