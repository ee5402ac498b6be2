-- ===== src/Fleet/Policy.antt =====
-- The scores of a configuration in hft-lead-lag/src/domain/screener/shadow_fleet.rs.
use hft_lead_lag.Prelude.{
  ℕ, Bool, true, false, String, Option, none, some, ℤ, pos, leb_ℤ, ltb_ℤ, ◌-%◌, if◌then◌else◌,
}
use hft_lead_lag.Prelude.Float.{Float64, lt_f64, le_f64, gt_f64}
use hft_lead_lag.Shadow.Gap.{zero_f64}
use hft_lead_lag.Shadow.Types.{ClosedTrade, is_stop_loss}

abbrev pub policy_window_1h_ms : ℤ
policy_window_1h_ms = pos 3_600_000

abbrev pub policy_window_6h_ms : ℤ
policy_window_6h_ms = pos 21_600_000

abbrev pub policy_window_24h_ms : ℤ
policy_window_24h_ms = pos 86_400_000

pub record PolicyWindowMetrics (fl : Float64) : Type 0 where
  pub trades : fl.F
  pub wins : fl.F
  pub stop_loss_trades : fl.F
  pub early_stop_churn_trades : fl.F
  pub avg_pnl_pct : fl.F
  pub win_rate_pct : fl.F
  pub stop_loss_share_pct : fl.F
  pub early_stop_churn_share_pct : fl.F

pub record PolicyConfigSnapshot (fl : Float64) : Type 0 where
  pub config_id : ℕ
  pub score : fl.F
  pub gate_enabled : Bool
  pub gate_reason : String
  pub metrics_1h : PolicyWindowMetrics fl
  pub metrics_6h : PolicyWindowMetrics fl
  pub metrics_24h : PolicyWindowMetrics fl

pub record DecayedWindow (fl : Float64) : Type 0 where
  pub horizon_ms : ℤ
  pub last_ts_ms : Option ℤ
  pub trades : fl.F
  pub wins : fl.F
  pub stop_loss_trades : fl.F
  pub early_stop_churn_trades : fl.F
  pub pnl_sum_pct : fl.F

pub record ConfigPolicyState (fl : Float64) : Type 0 where
  pub window_1h : DecayedWindow fl
  pub window_6h : DecayedWindow fl
  pub window_24h : DecayedWindow fl

module _ (fl : Float64) where
  abbrev percent : fl.F
  percent = fl.ratio 100 1

  abbrev pub new_window : ℤ → DecayedWindow fl
  new_window horizon_ms = record {
    horizon_ms = horizon_ms;
    last_ts_ms = none;
    trades = zero_f64 fl;
    wins = zero_f64 fl;
    stop_loss_trades = zero_f64 fl;
    early_stop_churn_trades = zero_f64 fl;
    pnl_sum_pct = zero_f64 fl;
  }

  -- `exp(-(dt / horizon))`
  abbrev pub decay : ℤ → ℤ → fl.F
  decay dt_ms horizon_ms = fl.exp (fl.neg (fl.div (fl.of_int dt_ms) (fl.of_int horizon_ms)))

  abbrev pub scale : fl.F → DecayedWindow fl → DecayedWindow fl
  scale by w = record w {
    trades = fl.mul w.trades by;
    wins = fl.mul w.wins by;
    stop_loss_trades = fl.mul w.stop_loss_trades by;
    early_stop_churn_trades = fl.mul w.early_stop_churn_trades by;
    pnl_sum_pct = fl.mul w.pnl_sum_pct by;
  }

  abbrev pub decay_to : ℤ → DecayedWindow fl → DecayedWindow fl
  decay_to ts_ms w = elim w.last_ts_ms [
    | none ↦ record w { last_ts_ms = some ts_ms }
    | some last_ts_ms ↦
        if leb_ℤ ts_ms last_ts_ms
        then w
        else record (scale (decay (ts_ms -% last_ts_ms) w.horizon_ms) w) { last_ts_ms = some ts_ms }
  ]

  abbrev add_one : Bool → fl.F → fl.F
  add_one b x = if b then fl.add x (fl.ratio 1 1) else x

  unfoldable pub observe_window : ℤ → fl.F → Bool → Bool → DecayedWindow fl → DecayedWindow fl
  observe_window ts_ms pnl_pct stopped churned window =
      let w = decay_to ts_ms window in
      record w {
        trades = fl.add w.trades (fl.ratio 1 1);
        wins = add_one (gt_f64 fl pnl_pct (zero_f64 fl)) w.wins;
        stop_loss_trades = add_one stopped w.stop_loss_trades;
        early_stop_churn_trades = add_one churned w.early_stop_churn_trades;
        pnl_sum_pct = fl.add w.pnl_sum_pct pnl_pct;
      }

  -- The sums of the window at a time; a window without a trade has none.
  abbrev pub sums_at : ℤ → DecayedWindow fl → DecayedWindow fl
  sums_at ts_ms w = elim w.last_ts_ms [
    | none ↦ new_window w.horizon_ms
    | some last_ts_ms ↦
        if ltb_ℤ last_ts_ms ts_ms then scale (decay (ts_ms -% last_ts_ms) w.horizon_ms) w else w
  ]

  abbrev pub no_metrics : PolicyWindowMetrics fl
  no_metrics = record {
    trades = zero_f64 fl;
    wins = zero_f64 fl;
    stop_loss_trades = zero_f64 fl;
    early_stop_churn_trades = zero_f64 fl;
    avg_pnl_pct = zero_f64 fl;
    win_rate_pct = zero_f64 fl;
    stop_loss_share_pct = zero_f64 fl;
    early_stop_churn_share_pct = zero_f64 fl;
  }

  unfoldable pub metrics_at : ℤ → DecayedWindow fl → PolicyWindowMetrics fl
  metrics_at ts_ms window =
      let w = sums_at ts_ms window in
      if le_f64 fl w.trades (fl.ratio 1 1_000_000_000) then no_metrics else record {
        trades = w.trades;
        wins = w.wins;
        stop_loss_trades = w.stop_loss_trades;
        early_stop_churn_trades = w.early_stop_churn_trades;
        avg_pnl_pct = fl.div w.pnl_sum_pct w.trades;
        win_rate_pct = fl.mul (fl.div w.wins w.trades) percent;
        stop_loss_share_pct = fl.mul (fl.div w.stop_loss_trades w.trades) percent;
        early_stop_churn_share_pct = fl.mul (fl.div w.early_stop_churn_trades w.trades) percent;
      }

  abbrev pub new_policy : ConfigPolicyState fl
  new_policy = record {
    window_1h = new_window policy_window_1h_ms;
    window_6h = new_window policy_window_6h_ms;
    window_24h = new_window policy_window_24h_ms;
  }

  unfoldable pub observe_trade : ClosedTrade fl → ConfigPolicyState fl → ConfigPolicyState fl
  observe_trade trade p =
      let seen =
        observe_window trade.ts_ms trade.pnl_pct (is_stop_loss trade.exit_reason)
          trade.early_stop_churn in
      record {
        window_1h = seen p.window_1h;
        window_6h = seen p.window_6h;
        window_24h = seen p.window_24h;
      }

  -- The weights are 1, 0.2 and 0.5.
  abbrev pub score : PolicyWindowMetrics fl → fl.F
  score m =
      fl.sub
        (fl.add (fl.mul (fl.ratio 1 1) (fl.div m.avg_pnl_pct percent))
          (fl.mul (fl.ratio 1 5) (fl.div m.win_rate_pct percent)))
        (fl.mul (fl.ratio 1 2) (fl.div m.stop_loss_share_pct percent))

  -- Whether the gate is enabled, and why.
  abbrev pub gate : PolicyWindowMetrics fl → Bool × String
  gate m =
      if lt_f64 fl m.trades (fl.ratio 5 1)
      then (false, "min_trades")
      else if le_f64 fl m.avg_pnl_pct (zero_f64 fl)
      then (false, "expectancy")
      else if gt_f64 fl m.stop_loss_share_pct (fl.ratio 55 1)
      then (false, "stop_loss_share")
      else (true, "ok")

  -- The snapshot at a time.
  unfoldable pub snapshot : ℤ → ℕ → ConfigPolicyState fl → PolicyConfigSnapshot fl
  snapshot now_ms config_id p =
      let metrics_6h = metrics_at now_ms p.window_6h in
      let (gate_enabled, gate_reason) = gate metrics_6h in
      record {
        config_id = config_id;
        score = score metrics_6h;
        gate_enabled = gate_enabled;
        gate_reason = gate_reason;
        metrics_1h = metrics_at now_ms p.window_1h;
        metrics_6h = metrics_6h;
        metrics_24h = metrics_at now_ms p.window_24h;
      }
