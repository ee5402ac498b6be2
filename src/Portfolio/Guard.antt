-- ===== src/Portfolio/Guard.antt =====
-- The stop-loss guard of a symbol: `record_closed_trade`, `can_reenter` and the accessors of the
-- guards in hft-lead-lag/src/domain/screener/portfolio_runtime.rs.
pub mod Streak
pub mod Fast
pub mod Cooldown
use hft_lead_lag.Prelude.{
  ℕ, ◌+◌, ◌≡◌, Bool, true, false, ◌&&◌, ◌||◌, not, String, List, [], ◌∷◌, Option, none, some, ℤ,
  ltb, leb, nat_beq, string_key, leb_ℤ, ltb_ℤ, saturating_add, saturating_sub, sat_inc, u32_max,
  if◌then◌else◌,
}
use hft_lead_lag.Prelude.Float.{Float64, gt_f64, ge_f64}
use hft_lead_lag.Prelude.Maps.{lookup, insert}
use hft_lead_lag.Portfolio.Types.{
  SymbolStats, GuardState, default_guard, Engine, fast_streak_window_ms, cooldown_ms,
}

abbrev pub or_default : Option GuardState → GuardState
or_default none = default_guard
or_default (some g) = g

-- `first_streak_ts_ms.unwrap_or(ts_ms)`
abbrev pub or_now : Option ℤ → ℤ → ℤ
or_now none ts = ts
or_now (some first) ts = first

-- A stop loss: the streak grows, and a fast or a long one starts the cooldown.
unfoldable pub stop_loss : GuardState → ℤ → GuardState × Bool
stop_loss g ts =
    let first = if nat_beq g.streak_count 0 then some ts else g.first_streak_ts_ms in
    let count = sat_inc u32_max g.streak_count in
    let fast = leb 5 count && leb_ℤ (saturating_sub ts (or_now first ts)) fast_streak_window_ms in
    if fast || leb 6 count
    then (
      record {
        streak_count = 0;
        first_streak_ts_ms = none;
        cooldown_until_ms = some (saturating_add ts cooldown_ms);
      },
      true,
    )
    else (record g { streak_count = count; first_streak_ts_ms = first }, false)

-- The body of `record_closed_trade` on the guard of the symbol.
unfoldable pub close_trade : (fl : Float64) → GuardState → fl.F → Bool → ℤ → GuardState × Bool
close_trade fl g pnl_pct is_stop_loss ts =
    if gt_f64 fl pnl_pct (fl.ratio 0 1)
    then (record g { streak_count = 0; first_streak_ts_ms = none }, false)
    else if not is_stop_loss
    then (g, false)
    else stop_loss g ts

unfoldable pub record_closed_trade :
    (fl : Float64) → Engine → String → fl.F → Bool → ℤ → Engine × Bool
record_closed_trade fl e symbol pnl_pct is_stop_loss ts =
    let (g, triggered) =
      close_trade fl (or_default (lookup symbol e.guards)) pnl_pct is_stop_loss ts in
    (record e { guards = insert symbol g e.guards }, triggered)

-- `guard_state`, `replace_guard_states`
pub guard_state : Engine → String → GuardState
guard_state e symbol = or_default (lookup symbol e.guards)

extend : List (String × GuardState) → List (String × GuardState) → List (String × GuardState)
extend m [] = m
extend m ((k, g) ∷ rows) = extend (insert k g m) rows

pub replace_guard_states : Engine → List (String × GuardState) → Engine
unfolding extend
replace_guard_states e rows = record e { guards = extend [] rows }

unfoldable pub compute_useful_winrate : (fl : Float64) → SymbolStats fl → fl.F
compute_useful_winrate fl stats =
    if nat_beq stats.closed_trades 0
    then fl.ratio 0 1
    else fl.div (fl.of_nat stats.profitable_trades) (fl.of_nat stats.closed_trades)

unfoldable pub eligible : (fl : Float64) → SymbolStats fl → Bool
eligible fl stats =
    ltb 5 stats.age_minutes_from_first_tick
    && (ltb 5 stats.closed_trades
        && (ge_f64 fl (compute_useful_winrate fl stats) (fl.ratio 30 100)
            && ge_f64 fl stats.avg_pnl_pct (fl.ratio 0 1)))

-- `now_ms < until` for a guard that is there and cools down.
abbrev pub cooling : Option GuardState → ℤ → Bool
cooling none now = false
cooling (some g) now = elim g.cooldown_until_ms [ none ↦ false | some until ↦ ltb_ℤ now until ]

unfoldable pub can_reenter : (fl : Float64) → Engine → String → SymbolStats fl → ℤ → Bool
can_reenter fl e symbol stats now =
    if cooling (lookup symbol e.guards) now then false else eligible fl stats
