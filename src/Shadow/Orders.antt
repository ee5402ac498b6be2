-- ===== src/Shadow/Orders.antt =====
-- Fills and exits of hft-lead-lag/src/domain/screener/shadow_trader.rs: `try_fill`, `fill_exit`,
-- `unrealized_bps`, `determine_exit_reason`, `try_exit`. Sums and differences of timestamps wrap around,
-- as those of `i64` do without overflow checks.
use hft_lead_lag.Prelude.{
  ℕ, ◌+◌, ◌%◌, true, false, ◌&&◌, not, List, [], ◌∷◌, ◌++◌, Option, none, some, ℤ, ◌+%◌, ◌-%◌,
  leb_ℤ, ltb_ℤ, saturating_sub, if◌then◌else◌, String,
}
use hft_lead_lag.Prelude.Float.{Float64, gt_f64, ge_f64, le_f64}
use hft_lead_lag.Quotes.{Quote}
use hft_lead_lag.Shadow.Config.{TraderConfig}
use hft_lead_lag.Shadow.Types.{
  short, long, ExitReason, stop_loss, breakeven, trailing_take, timeout, is_stop_loss,
  early_stop_churn_hold_ms, OpenPosition, ClosedTrade, EntryOrder, PendingOrder, entry, exit,
  ShadowTrader,
}

-- `+= 1` of a `usize`, without overflow checks.
abbrev pub wrapping_inc : ℕ → ℕ
wrapping_inc n = (n + 1) % 18_446_744_073_709_551_616

module _ (fl : Float64) where
  abbrev pub unrealized_bps : OpenPosition fl → Quote fl → fl.F
  unrealized_bps position gate =
      let gain : fl.F = elim position.direction [
        | long ↦ fl.sub gate.bid position.gate_entry_price
        | short ↦ fl.sub position.gate_entry_price gate.ask
      ] in
      fl.mul (fl.div gain position.gate_entry_price) (fl.ratio 10_000 1)

  unfoldable pub determine_exit_reason :
      TraderConfig fl → OpenPosition fl → fl.F → ℤ → Option ExitReason
  determine_exit_reason cfg position unrealized hold_ms =
      let timed_out = leb_ℤ cfg.max_hold_ms hold_ms in
      let decayed = fl.mul position.peak_unrealized_bps cfg.trailing_decay_ratio in
      if position.breakeven_activated
      then (if le_f64 fl unrealized (fl.ratio 0 1)
          then some breakeven
          else if le_f64 fl unrealized decayed
          then some trailing_take
          else if timed_out
          then some timeout
          else none)
      else if le_f64 fl unrealized (fl.neg cfg.stop_loss_bps)
      then some stop_loss
      else if timed_out
      then some timeout
      else none

  -- The position after the peak and the breakeven are brought up to date.
  unfoldable pub mark_position : TraderConfig fl → OpenPosition fl → Quote fl → OpenPosition fl
  mark_position cfg position gate =
      let unrealized = unrealized_bps position gate in
      let breakeven_threshold = fl.mul position.spike_bps cfg.target_ratio in
      record position {
        peak_unrealized_bps =
            if gt_f64 fl unrealized position.peak_unrealized_bps
            then unrealized
            else position.peak_unrealized_bps;
        breakeven_activated =
            if not position.breakeven_activated && ge_f64 fl unrealized breakeven_threshold
            then true
            else position.breakeven_activated;
      }

  unfoldable pub exit_position : ℤ → Quote fl → OpenPosition fl → ShadowTrader fl → ShadowTrader fl
  exit_position ts_ms gate position s =
      let marked = mark_position s.config position gate in
      let unrealized = unrealized_bps position gate in
      elim (determine_exit_reason s.config marked unrealized (ts_ms -% position.entry_ts_ms)) [
        | none ↦ record s { position = some marked }
        | some reason ↦ record s {
          position = none;
          pending = some (exit (record { fire_ts_ms = ts_ms; held = marked; reason = reason }));
        }
      ]

  unfoldable pub try_exit : ℤ → Quote fl → ShadowTrader fl → ShadowTrader fl
  try_exit ts_ms gate s = elim s.position [
    | none ↦ s
    | some position ↦ exit_position ts_ms gate position s
  ]

  -- `pop_front` of both queues, for trades before the cutoff.
  unfoldable pub pop_trades :
      ℤ
      → List (ClosedTrade fl)
      → List (Option String)
      → List (ClosedTrade fl) × List (Option String)
  pop_trades cutoff [] ids = ([], ids)
  pop_trades cutoff (t ∷ ts) [] =
      if leb_ℤ cutoff t.ts_ms then (t ∷ ts, []) else pop_trades cutoff ts []
  pop_trades cutoff (t ∷ ts) (i ∷ ids) =
      if leb_ℤ cutoff t.ts_ms then (t ∷ ts, i ∷ ids) else pop_trades cutoff ts ids

  -- The trade that an exit makes.
  abbrev pub closed_trade :
      TraderConfig fl → ℤ → Quote fl → OpenPosition fl → ExitReason → ClosedTrade fl
  closed_trade cfg ts_ms gate position exit_reason =
      let fees = fl.mul cfg.taker_fee (fl.ratio 2 1) in
      let exit_price : fl.F = elim position.direction [ long ↦ gate.bid | short ↦ gate.ask ] in
      let gain : fl.F = elim position.direction [
        | long ↦ fl.sub exit_price position.gate_entry_price
        | short ↦ fl.sub position.gate_entry_price exit_price
      ] in
      let raw = fl.div gain position.gate_entry_price in
      let hold_ms = saturating_sub ts_ms position.entry_ts_ms in
      record {
        pnl_pct = fl.mul (fl.sub raw fees) (fl.ratio 100 1);
        ts_ms = ts_ms;
        direction = position.direction;
        entry_ts_ms = position.entry_ts_ms;
        entry_price = position.gate_entry_price;
        exit_price = exit_price;
        exit_reason = exit_reason;
        spike_bps = position.spike_bps;
        catchup_pct = fl.mul raw (fl.ratio 100 1);
        catchup_ms = ts_ms -% position.entry_ts_ms;
        gate_spread_at_entry_bps = position.gate_spread_at_entry_bps;
        gate_natr_30m_pct_at_entry = position.gate_natr_30m_pct_at_entry;
        hold_ms = hold_ms;
        early_stop_churn = is_stop_loss exit_reason && leb_ℤ hold_ms early_stop_churn_hold_ms;
      }

  unfoldable pub fill_exit :
      ℤ → Quote fl → ℤ → OpenPosition fl → ExitReason → ShadowTrader fl → ShadowTrader fl
  fill_exit ts_ms gate window_ms position exit_reason s =
      let trade = closed_trade s.config ts_ms gate position exit_reason in
      let kept =
        pop_trades (ts_ms -% window_ms) (s.completed_trades ++ trade ∷ [])
          (s.completed_trade_run_ids ++ position.run_id ∷ []) in
      record s {
        completed_trades = kept.0;
        completed_trade_run_ids = kept.1;
        session_total_pnl_pct = fl.add s.session_total_pnl_pct trade.pnl_pct;
        session_trades = wrapping_inc s.session_trades;
        session_wins =
            if gt_f64 fl trade.pnl_pct (fl.ratio 0 1)
            then wrapping_inc s.session_wins
            else s.session_wins;
        cooldown_until_ms = ts_ms +% s.config.cooldown_ms;
      }

  -- The position that an entry order opens.
  abbrev pub opened : ℤ → Quote fl → EntryOrder fl → OpenPosition fl
  opened ts_ms gate order = record {
    direction = order.direction;
    gate_entry_price = elim order.direction [ long ↦ gate.ask | short ↦ gate.bid ];
    entry_ts_ms = ts_ms;
    spike_bps = order.spike_bps;
    gate_spread_at_entry_bps = order.gate_spread_at_entry_bps;
    gate_natr_30m_pct_at_entry = order.gate_natr_30m_pct_at_entry;
    run_id = order.run_id;
    peak_unrealized_bps = fl.ratio 0 1;
    breakeven_activated = false;
  }

  abbrev pub fire_ts : PendingOrder fl → ℤ
  fire_ts (entry order) = order.fire_ts_ms
  fire_ts (exit order) = order.fire_ts_ms

  -- The order leaves `pending` and is carried out.
  unfoldable pub fill : ℤ → Quote fl → ℤ → PendingOrder fl → ShadowTrader fl → ShadowTrader fl
  fill ts_ms gate window_ms (exit order) s =
      fill_exit ts_ms gate window_ms order.held order.reason (record s { pending = none })
  fill ts_ms gate window_ms (entry order) s = record s {
    pending = none;
    position = some (opened ts_ms gate order);
  }

  unfoldable pub try_fill : ℤ → Quote fl → ℤ → ShadowTrader fl → ShadowTrader fl
  try_fill ts_ms gate window_ms s = elim s.pending [
    | none ↦ s
    | some order ↦
        if ltb_ℤ ts_ms (fire_ts order +% s.config.fill_delay_ms)
        then s
        else fill ts_ms gate window_ms order s
  ]
