-- ===== src/Portfolio/Ranking.antt =====
-- The ranking of candidates: `safe_f64`, `rank_tuple_cmp`, `rank_candidates` and `build_shortlist_pool`
-- of hft-lead-lag/src/domain/screener/portfolio_runtime.rs.
pub mod Order
pub mod Sort
use Prim.Native.Nat.{Ordering, compare}
use Prim.Native.String.{compare as compare_str}
use hft_lead_lag.Prelude.{ℕ, Bool, true, false, String, List, [], ◌∷◌, ℤ, pos, ◌-ℤ◌, if◌then◌else◌}
use hft_lead_lag.Prelude.Float.{Float64, cmp_or_equal, then_with}
use hft_lead_lag.Prelude.Ordering.{cmp_ℤ}
use hft_lead_lag.Portfolio.Types.{SymbolStats, Engine}
use hft_lead_lag.Portfolio.Guard.{compute_useful_winrate, can_reenter}

-- A difference of two `u32`, which an `i64` holds.
abbrev pub compute_pm_raw : (fl : Float64) → SymbolStats fl → ℤ
compute_pm_raw fl stats = pos stats.profitable_trades -ℤ pos stats.losing_trades

unfoldable pub safe_f64 : (fl : Float64) → fl.F → fl.F
safe_f64 fl value = if fl.is_nan value then fl.neg_infinity else value

unfoldable pub rank_tuple_cmp : (fl : Float64) → SymbolStats fl → SymbolStats fl → Ordering
rank_tuple_cmp fl left right =
    then_with
      (then_with
        (then_with
          (then_with
            (cmp_or_equal fl (safe_f64 fl (compute_useful_winrate fl right))
              (safe_f64 fl (compute_useful_winrate fl left)))
            (cmp_ℤ (compute_pm_raw fl right) (compute_pm_raw fl left)))
          (cmp_or_equal fl (safe_f64 fl right.avg_pnl_pct) (safe_f64 fl left.avg_pnl_pct)))
        (compare right.closed_trades left.closed_trades))
      (compare_str left.symbol right.symbol)

-- `Vec::sort_by` keeps the order of elements that compare equal: an element is put before the first
-- that does not compare less than it.
unfoldable pub place_by {ℓ} : {A : Type ℓ} → (A → A → Ordering) → A → List A → List A
place_by c x [] = x ∷ []
place_by c x (y ∷ ys) =
    let later = y ∷ place_by c x ys in elim (c x y) [ Ordering.gt ↦ later | _ ↦ x ∷ y ∷ ys ]

unfoldable pub sort_by {ℓ} : {A : Type ℓ} → (A → A → Ordering) → List A → List A
sort_by c [] = []
sort_by c (x ∷ xs) = place_by c x (sort_by c xs)

abbrev pub rank_candidates : (fl : Float64) → List (SymbolStats fl) → List (SymbolStats fl)
rank_candidates fl candidates = sort_by (rank_tuple_cmp fl) candidates

unfoldable pub filter {ℓ} : {A : Type ℓ} → (A → Bool) → List A → List A
filter test [] = []
filter test (x ∷ xs) = let kept = filter test xs in if test x then x ∷ kept else kept

unfoldable pub build_shortlist_pool :
    (fl : Float64) → Engine → List (SymbolStats fl) → ℤ → List (SymbolStats fl)
build_shortlist_pool fl e candidates now_ms =
    filter (λ stats. can_reenter fl e stats.symbol stats now_ms) (rank_candidates fl candidates)
