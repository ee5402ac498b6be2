-- ===== src/Portfolio/Paper.antt =====
-- The paper account of a portfolio: `PortfolioPaperStateV1` of
-- hft-lead-lag/src/domain/screener/portfolio_runtime.rs.
use Prim.Native.Nat.{Ordering}
use hft_lead_lag.Prelude.{
  Bool, ℕ, ◌+◌, ◌≤◌, ◌≡◌, List, [], ◌∷◌, Option, none, some, ℤ, arith, ltb_ℤ, length, sat_inc,
  u64_max, if◌then◌else◌,
}
use hft_lead_lag.Prelude.Float.{Float64, IsPartialOrder, gt_f64, lt_f64}

pub record PaperState (fl : Float64) : Type 0 where
  pub equity_usd : fl.F
  pub realized_pnl_usd : fl.F
  pub closed_trades : ℕ
  pub profitable_trades : ℕ
  pub losing_trades : ℕ
  pub last_trade_ts_ms : Option ℤ

abbrev pub default_paper : (fl : Float64) → PaperState fl
default_paper fl = record {
  equity_usd = fl.ratio 10_000 1;
  realized_pnl_usd = fl.ratio 0 1;
  closed_trades = 0;
  profitable_trades = 0;
  losing_trades = 0;
  last_trade_ts_ms = none;
}

-- `last_trade_ts_ms.map(|last| last.max(ts_ms)).unwrap_or(ts_ms)`
abbrev pub later_ts : Option ℤ → ℤ → ℤ
later_ts none ts_ms = ts_ms
later_ts (some last) ts_ms = if ltb_ℤ last ts_ms then ts_ms else last

unfoldable pub observe_trade : (fl : Float64) → PaperState fl → fl.F → ℤ → PaperState fl
observe_trade fl s pnl_pct ts_ms =
    let pnl_usd = fl.mul (fl.ratio 100 1) (fl.div pnl_pct (fl.ratio 100 1)) in
    let won = gt_f64 fl pnl_pct (fl.ratio 0 1) in
    let lost = lt_f64 fl pnl_pct (fl.ratio 0 1) in
    record {
      equity_usd = fl.add s.equity_usd pnl_usd;
      realized_pnl_usd = fl.add s.realized_pnl_usd pnl_usd;
      closed_trades = sat_inc u64_max s.closed_trades;
      profitable_trades = if won then sat_inc u64_max s.profitable_trades else s.profitable_trades;
      losing_trades =
          if won
          then s.losing_trades
          else if lost
          then sat_inc u64_max s.losing_trades
          else s.losing_trades;
      last_trade_ts_ms = some (later_ts s.last_trade_ts_ms ts_ms);
    }

module _ (fl : Float64) where
  -- The trades in order.
  unfoldable pub observe_trades : PaperState fl → List (fl.F × ℤ) → PaperState fl
  observe_trades s [] = s
  observe_trades s ((pnl_pct, ts_ms) ∷ ts) = observe_trades (observe_trade fl s pnl_pct ts_ms) ts

  -- The trades whose result passes a test.
  abbrev pub count_results : (fl.F → Bool) → List (fl.F × ℤ) → ℕ
  count_results test [] = 0
  count_results test ((pnl_pct, ts_ms) ∷ ts) =
      let rest = count_results test ts in if test pnl_pct then 1 + rest else rest

  -- With partial_cmp as documented, observing trades adds their number to closed_trades, the
  -- number of those with a result above 0 to profitable_trades, and the number of those with a
  -- result below 0 to losing_trades, if each of the three 64-bit counters has room for as many as
  -- there are trades.
  pub observe_trades_count :
      (o : IsPartialOrder fl) (s : PaperState fl) (ts : List (fl.F × ℤ))
      → s.closed_trades + length ts ≤ 18_446_744_073_709_551_615
      → s.profitable_trades + length ts ≤ 18_446_744_073_709_551_615
      → s.losing_trades + length ts ≤ 18_446_744_073_709_551_615
      → ((observe_trades s ts).closed_trades ≡ s.closed_trades + length ts)
        × ((observe_trades s ts).profitable_trades
            ≡ s.profitable_trades + count_results (λ p. gt_f64 fl p (fl.ratio 0 1)) ts)
        × ((observe_trades s ts).losing_trades
            ≡ s.losing_trades + count_results (λ p. lt_f64 fl p (fl.ratio 0 1)) ts)
  unfolding observe_trades observe_trade
  observe_trades_count o s [] c w l = (omega arith, omega arith, omega arith)
  observe_trades_count o s ((pnl_pct, ts_ms) ∷ ts) c w l =
      let next = observe_trade fl s pnl_pct ts_ms in
      let rest = observe_trades_count o next ts (ground arith) (ground arith) (ground arith) in
      let below = o.mirrors pnl_pct (fl.ratio 0 1) Ordering.lt in
      (ground (arith, rest.0), ground (arith, rest.1, below), ground (arith, rest.2, below))
