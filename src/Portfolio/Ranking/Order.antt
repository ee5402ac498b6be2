-- ===== src/Portfolio/Ranking/Order.antt =====
-- `rank_tuple_cmp` of hft-lead-lag/src/domain/screener/portfolio_runtime.rs as an ordering.
use Prim.Native.Nat.{Ordering, compare}
use Prim.Native.String.{compare as compare_str}
use hft_lead_lag.Prelude.{◌≡◌, false, inl, inr, some, arith, Option-cases}
use hft_lead_lag.Prelude.Float.{Float64, IsPartialOrder, cmp_or_equal}
use hft_lead_lag.Prelude.Ordering.{
  IsOrdering, cmp_ℤ, compare-IsOrdering, cmp_ℤ-IsOrdering, by_key-IsOrdering, flip_cmp-IsOrdering,
  lex-IsOrdering, lex,
}
use hft_lead_lag.Prelude.Texts.{compare_str-IsOrdering}
use hft_lead_lag.Portfolio.Types.{SymbolStats}
use hft_lead_lag.Portfolio.Guard.{compute_useful_winrate}
use hft_lead_lag.Portfolio.Ranking.{compute_pm_raw, safe_f64, rank_tuple_cmp}

module _ (fl : Float64) (o : IsPartialOrder fl) where
  safe_is_not_nan : (a : fl.F) → fl.is_nan (safe_f64 fl a) ≡ false
  unfolding safe_f64
  safe_is_not_nan a = ground (arith, o.neg_infinity_ordered)

  pub safe_ordered :
      (a b : fl.F) → (r : Ordering) × (fl.partial_cmp (safe_f64 fl a) (safe_f64 fl b) ≡ some r)
  safe_ordered a b = elim (Option-cases (fl.partial_cmp (safe_f64 fl a) (safe_f64 fl b))) [
    | inr (r, e) ↦ (r, e)
    | inl e ↦ absurd (
        ground
          (arith, o.fails (safe_f64 fl a) (safe_f64 fl b) e, safe_is_not_nan a, safe_is_not_nan b))
  ]

  cmp_safe-IsOrdering : IsOrdering (λ a b. cmp_or_equal fl (safe_f64 fl a) (safe_f64 fl b))
  cmp_safe-IsOrdering = record {
    swaps = λ a b.
        let (r, e) = safe_ordered a b in
        let back = o.mirrors (safe_f64 fl a) (safe_f64 fl b) r e in ground (arith, e, back);
    alike = λ a b d h.
        let (r, e) = safe_ordered a b in
        let same = o.eq_left (safe_f64 fl a) (safe_f64 fl b) (safe_f64 fl d) in
        ground (arith, e, h, same);
    transitive = λ a b d h k.
        let (r, e) = safe_ordered a b in
        let (s, f) = safe_ordered b d in
        let less = o.lt_trans (safe_f64 fl a) (safe_f64 fl b) (safe_f64 fl d) in
        ground (arith, e, f, h, k, less);
  }

  -- The five comparisons of a ranking.
  abbrev cmp_safe : fl.F → fl.F → Ordering
  cmp_safe a b = cmp_or_equal fl (safe_f64 fl a) (safe_f64 fl b)

  abbrev by_winrate : SymbolStats fl → SymbolStats fl → Ordering
  by_winrate l r = cmp_safe (compute_useful_winrate fl r) (compute_useful_winrate fl l)

  abbrev by_pm : SymbolStats fl → SymbolStats fl → Ordering
  by_pm l r = cmp_ℤ (compute_pm_raw fl r) (compute_pm_raw fl l)

  abbrev by_pnl : SymbolStats fl → SymbolStats fl → Ordering
  by_pnl l r = cmp_safe r.avg_pnl_pct l.avg_pnl_pct

  abbrev by_trades : SymbolStats fl → SymbolStats fl → Ordering
  by_trades l r = compare r.closed_trades l.closed_trades

  abbrev by_symbol : SymbolStats fl → SymbolStats fl → Ordering
  by_symbol l r = compare_str l.symbol r.symbol

  descending :
      {K : Type 0} {c : K → K → Ordering}
      → IsOrdering c
      → (key : SymbolStats fl → K) → IsOrdering (λ l r. c (key r) (key l))
  descending {c = c} q key =
      flip_cmp-IsOrdering (λ l r. c (key l) (key r)) (by_key-IsOrdering key c q)

  -- With partial_cmp as documented, rank_tuple_cmp is a total preorder, also for statistics that
  -- are NaN: swapping its arguments reverses it, candidates that compare equal compare alike with
  -- others, and less is transitive.
  pub rank_tuple_cmp-IsOrdering : IsOrdering (rank_tuple_cmp fl)
  unfolding rank_tuple_cmp
  rank_tuple_cmp-IsOrdering =
      lex-IsOrdering (lex (lex (lex by_winrate by_pm) by_pnl) by_trades)
        (lex-IsOrdering (lex (lex by_winrate by_pm) by_pnl)
          (lex-IsOrdering (lex by_winrate by_pm)
            (lex-IsOrdering by_winrate (descending cmp_safe-IsOrdering (compute_useful_winrate fl))
              by_pm (descending cmp_ℤ-IsOrdering (compute_pm_raw fl)))
            by_pnl (descending cmp_safe-IsOrdering (λ s. s.avg_pnl_pct)))
          by_trades (descending compare-IsOrdering (λ s. s.closed_trades)))
        by_symbol (by_key-IsOrdering (λ s. s.symbol) compare_str compare_str-IsOrdering)
