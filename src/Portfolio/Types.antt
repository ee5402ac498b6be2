-- ===== src/Portfolio/Types.antt =====
-- The records and constants of hft-lead-lag/src/domain/screener/portfolio_runtime.rs. An `f64` is a
-- value of the parameter `fl`.
use hft_lead_lag.Prelude.{ℕ, String, List, [], ◌∷◌, Option, none, ℤ, pos}
use hft_lead_lag.Prelude.Float.{Float64}

abbrev pub shortlist_size : ℕ
shortlist_size = 5

abbrev pub max_active_symbols : ℕ
max_active_symbols = 4

abbrev pub fast_streak_window_ms : ℤ
fast_streak_window_ms = pos 120_000

abbrev pub cooldown_ms : ℤ
cooldown_ms = pos 300_000

abbrev pub default_portfolio_ids : List String
default_portfolio_ids = "A" ∷ "B" ∷ []

pub record SymbolStats (fl : Float64) : Type 0 where
  pub symbol : String
  pub age_minutes_from_first_tick : ℕ
  pub closed_trades : ℕ
  pub profitable_trades : ℕ
  pub losing_trades : ℕ
  pub avg_pnl_pct : fl.F

pub record PortfolioState : Type 0 where
  pub shortlist : List String
  pub active_symbols : List String

pub record GuardState : Type 0 where
  pub streak_count : ℕ
  pub first_streak_ts_ms : Option ℤ
  pub cooldown_until_ms : Option ℤ

abbrev pub default_guard : GuardState
default_guard = record { streak_count = 0; first_streak_ts_ms = none; cooldown_until_ms = none }

pub record Engine : Type 0 where
  pub guards : List (String × GuardState)
  pub portfolio_ids : List String

abbrev pub default_engine : Engine
default_engine = record { guards = []; portfolio_ids = default_portfolio_ids }
