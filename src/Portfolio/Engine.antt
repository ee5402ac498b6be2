-- ===== src/Portfolio/Engine.antt =====
-- `assign_without_overlap` of hft-lead-lag/src/domain/screener/portfolio_runtime.rs: ranking,
-- shortlists and active symbols in one.
pub mod Result
use hft_lead_lag.Prelude.{
  ℕ, ◌+◌, ◌*◌, String, List, [], ◌∷◌, Option, none, some, ℤ, map, length, string_key,
}
use hft_lead_lag.Prelude.Float.{Float64}
use hft_lead_lag.Prelude.Maps.{lookup, insert}
use hft_lead_lag.Portfolio.Types.{SymbolStats, PortfolioState, Engine}
use hft_lead_lag.Portfolio.Ranking.{build_shortlist_pool}
use hft_lead_lag.Portfolio.Shortlist.{Lists, build_shortlists_no_overlap, ◌>>=◌}
use hft_lead_lag.Portfolio.Active.{assign_active_symbols_no_overlap}

-- `.cloned().unwrap_or_default()`
abbrev pub list_or_default : Option (List String) → List String
list_or_default none = []
list_or_default (some l) = l

-- The map of the states: the loop inserts them in order; here the last is inserted first.
unfoldable pub states_of : List String → Lists → Lists → List (String × PortfolioState)
states_of [] shortlists active = []
states_of (id ∷ ids) shortlists active =
    let state : PortfolioState = record {
      shortlist = list_or_default (lookup id shortlists);
      active_symbols = list_or_default (lookup id active);
    } in
    insert id state (states_of ids shortlists active)

-- The symbols of the ranked pool.
unfoldable pub pool_symbols : {fl : Float64} → List (SymbolStats fl) → List String
pool_symbols [] = []
pool_symbols (s ∷ ss) = s.symbol ∷ pool_symbols ss

-- `none` stands for a panic, or for a loop of the active symbols that does not end.
unfoldable pub assign_without_overlap :
    (fl : Float64) → Engine → List (SymbolStats fl) → ℤ → Option (List (String × PortfolioState))
assign_without_overlap fl e candidates now_ms = do
  let ids = e.portfolio_ids
  shortlists ←
      build_shortlists_no_overlap ids (pool_symbols (build_shortlist_pool fl e candidates now_ms))
  active ← assign_active_symbols_no_overlap (length ids * 4 + 1) ids shortlists
  some (states_of ids shortlists active)
