-- ===== src/Examples/Portfolios.antt =====
-- The ranking, the portfolio ids, the paper account and the whole assignment of
-- hft-lead-lag/src/domain/screener/portfolio_runtime.rs on concrete candidates.
use hft_lead_lag.Prelude.{
  ℕ, ◌≡◌, refl, String, List, [], ◌∷◌, Option, some, ℤ, pos, negsuc, arith, string_key,
}
use hft_lead_lag.Prelude.Maps.{contains}
use hft_lead_lag.Prelude.Ordering.{IsOrdering}
use hft_lead_lag.Portfolio.Types.{SymbolStats, PortfolioState, default_engine}
use hft_lead_lag.Portfolio.Ranking.{rank_tuple_cmp, rank_candidates, filter}
use hft_lead_lag.Portfolio.Ranking.Order.{rank_tuple_cmp-IsOrdering}
use hft_lead_lag.Portfolio.Ranking.Sort.{IsBestFirst, is_eq, rank_candidates-IsBestFirst}
use hft_lead_lag.Portfolio.Ids.{normalize_portfolio_ids, AreNormalized, normalize_portfolio_ids_lem}
use hft_lead_lag.Portfolio.Shortlist.Rounds.{AreDistinct}
use hft_lead_lag.Portfolio.Engine.{assign_without_overlap}
use hft_lead_lag.Portfolio.Engine.Result.{IsAssigned, assign_without_overlap-IsAssigned}
use hft_lead_lag.Portfolio.Paper.{default_paper, observe_trades, observe_trades_count}
use hft_lead_lag.Examples.Floats.{cents, cents-IsPartialOrder}

abbrev stats : String → ℕ → SymbolStats cents
stats name won = record {
  symbol = name;
  age_minutes_from_first_tick = 60;
  closed_trades = 20;
  profitable_trades = won;
  losing_trades = 5;
  avg_pnl_pct = some (pos 10);
}

abbrev candidates : List (SymbolStats cents)
candidates = stats "X" 10 ∷ stats "Y" 15 ∷ stats "Z" 12 ∷ []

rank_tuple_cmp-IsOrdering_example : IsOrdering (rank_tuple_cmp cents)
rank_tuple_cmp-IsOrdering_example = rank_tuple_cmp-IsOrdering cents cents-IsPartialOrder

rank_candidates-IsBestFirst_example :
    IsBestFirst cents (rank_candidates cents candidates)
    × (filter
          (λ s. is_eq (rank_tuple_cmp cents (stats "X" 10) s))
          (rank_candidates cents candidates)
        ≡ filter (λ s. is_eq (rank_tuple_cmp cents (stats "X" 10) s)) candidates)
rank_candidates-IsBestFirst_example =
    rank_candidates-IsBestFirst cents candidates (stats "X" 10) cents-IsPartialOrder

assign_without_overlap-IsAssigned_example :
    (states : List (String × PortfolioState)) × (assign_without_overlap cents default_engine
        candidates
        (pos 7)
      ≡ some states)
    × IsAssigned cents default_engine candidates (pos 7) states "B"
unfolding contains
assign_without_overlap-IsAssigned_example =
    assign_without_overlap-IsAssigned cents default_engine candidates (pos 7) "B" (refl, (refl, tt))
      refl

normalize_portfolio_ids_lem_example :
    AreDistinct (normalize_portfolio_ids (λ s. s) ("C" ∷ "A" ∷ "C" ∷ []))
    × AreNormalized
        (λ s. s)
        ("C" ∷ "A" ∷ "C" ∷ [])
        (normalize_portfolio_ids (λ s. s) ("C" ∷ "A" ∷ "C" ∷ []))
normalize_portfolio_ids_lem_example = normalize_portfolio_ids_lem (λ s. s) ("C" ∷ "A" ∷ "C" ∷ [])

abbrev trades : List (Option ℤ × ℤ)
trades = (some (pos 10), pos 1) ∷ (some (negsuc 10), pos 2) ∷ (some (pos 0), pos 3) ∷ []

observe_trades_count_example :
    ((observe_trades cents (default_paper cents) trades).closed_trades ≡ 3)
    × ((observe_trades cents (default_paper cents) trades).profitable_trades ≡ 1)
    × ((observe_trades cents (default_paper cents) trades).losing_trades ≡ 1)
observe_trades_count_example =
    observe_trades_count cents cents-IsPartialOrder (default_paper cents) trades (omega arith)
      (omega arith) (omega arith)
