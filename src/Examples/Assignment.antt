-- ===== src/Examples/Assignment.antt =====
-- The shortlists and active symbols of hft-lead-lag/src/domain/screener/portfolio_runtime.rs on
-- concrete pools.
use hft_lead_lag.Prelude.{string_key, ◌≤◌, ◌≡◌, refl, true, List, [], ◌∷◌, some, arith, String}
use hft_lead_lag.Prelude.Maps.{lookup, insert, contains, occurrences}
use hft_lead_lag.Portfolio.Shortlist.{
  Lists, build_shortlists_no_overlap, deal_rounds, deal_round, no_lists,
}
use hft_lead_lag.Portfolio.Shortlist.Counts.{total}
use hft_lead_lag.Portfolio.Shortlist.Deal.{HasList}
use hft_lead_lag.Portfolio.Shortlist.Overlap.{shortlists_of_best}
use hft_lead_lag.Portfolio.Active.{assign_active_symbols_no_overlap}
use hft_lead_lag.Portfolio.Active.Result.{IsFilled, active_symbols-IsFilled}

abbrev ids : List String
ids = "A" ∷ "B" ∷ []

abbrev dealt : Lists
dealt = ("B", "y" ∷ []) ∷ ("A", "x" ∷ "z" ∷ []) ∷ []

-- Two portfolios take turns.
deals_in_turn : build_shortlists_no_overlap ids ("x" ∷ "y" ∷ "z" ∷ []) ≡ some dealt
unfolding build_shortlists_no_overlap deal_rounds deal_round no_lists lookup insert
deals_in_turn = refl

abbrev pool : List String
pool = "x" ∷ "y" ∷ "z" ∷ []

shortlists_of_best_example :
    (m : Lists) × (build_shortlists_no_overlap ids pool ≡ some m)
    × ((id : String) → contains id ids ≡ true → HasList m id)
    × ((a : String) → total a m ≡ occurrences a pool)
unfolding contains
shortlists_of_best_example = shortlists_of_best ids pool (refl, (refl, tt))

-- Both portfolios list "x".
abbrev overlapping : Lists
overlapping = ("A", "x" ∷ "y" ∷ []) ∷ ("B", "x" ∷ "z" ∷ []) ∷ []

active_symbols-IsFilled_example :
    (m : Lists) × (assign_active_symbols_no_overlap 9 ids overlapping ≡ some m)
    × ((id : String) → contains id ids ≡ true → IsFilled overlapping m id)
    × ((a : String) → total a m ≤ 1)
active_symbols-IsFilled_example = active_symbols-IsFilled 9 ids overlapping (omega arith)
