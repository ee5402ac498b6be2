-- ===== src/Portfolio/Ranking/Sort.antt =====
-- The stable sort of `rank_candidates` in
-- hft-lead-lag/src/domain/screener/portfolio_runtime.rs.
use Prim.Native.Nat.{Ordering}
use Prim.Native.String.{compare as compare_str}
use hft_lead_lag.Portfolio.Guard.{compute_useful_winrate}
use hft_lead_lag.Prelude.{
  ◌+◌, ◌<◌, ◌⊎◌, pos, -ℤ_parts, some, ◌≡◌, refl, ap, ◌∙◌, Bool, true, false, inl, inr, List, [],
  ◌∷◌, arith, Bool-cases, All, if◌then◌else◌, nat_beq,
}
use hft_lead_lag.Prelude.Float.{Float64, IsPartialOrder}
use hft_lead_lag.Prelude.Ordering.{IsOrdering}
use hft_lead_lag.Portfolio.Types.{SymbolStats}
use hft_lead_lag.Portfolio.Ranking.{
  place_by, sort_by, filter, rank_tuple_cmp, rank_candidates, safe_f64,
}
use hft_lead_lag.Portfolio.Ranking.Order.{rank_tuple_cmp-IsOrdering, safe_ordered}

abbrev pub is_gt : Ordering → Bool
is_gt Ordering.lt = false
is_gt Ordering.eq = false
is_gt Ordering.gt = true

abbrev pub is_eq : Ordering → Bool
is_eq Ordering.lt = false
is_eq Ordering.eq = true
is_eq Ordering.gt = false

module _ {ℓ} {A : Type ℓ} (c : A → A → Ordering) where
  -- No element compares greater than a later one.
  abbrev pub IsRanked : List A → Type 0
  IsRanked [] = Unit
  IsRanked (x ∷ xs) = All (λ y. is_gt (c x y) ≡ false) xs × IsRanked xs

  module _ (o : IsOrdering c) where
    not_gt_trans :
        (x y z : A) → is_gt (c x y) ≡ false → is_gt (c y z) ≡ false → is_gt (c x z) ≡ false
    not_gt_trans x y z h k = ground (
      arith,
      h,
      k,
      o.alike x y z,
      o.alike z y x,
      o.swaps x z,
      o.swaps y z,
      o.swaps x y,
      o.transitive x y z,
    )

    All-place_by :
        (y x : A) (xs : List A)
        → is_gt (c y x) ≡ false
        → All (λ z. is_gt (c y z) ≡ false) xs
        → All (λ z. is_gt (c y z) ≡ false) (place_by c x xs)
    unfolding place_by
    All-place_by y x [] h a = (h, tt)
    All-place_by y x (z ∷ zs) h a = let later = All-place_by y x zs h a.1 in ground arith

    All-trans :
        (x y : A) (zs : List A)
        → is_gt (c x y) ≡ false
        → All (λ z. is_gt (c y z) ≡ false) zs
        → All (λ z. is_gt (c x z) ≡ false) zs
    All-trans x y [] h a = tt
    All-trans x y (z ∷ zs) h a = (not_gt_trans x y z h a.0, All-trans x y zs h a.1)

    place_by-IsRanked : (x : A) (xs : List A) → IsRanked xs → IsRanked (place_by c x xs)
    unfolding place_by
    place_by-IsRanked x [] r = (tt, tt)
    place_by-IsRanked x (y ∷ ys) r = elim (Bool-cases (is_gt (c x y))) [
      | inl later ↦
          let e : c x y ≡ Ordering.gt = ground arith in
          let below : is_gt (c y x) ≡ false = ground (arith, o.swaps x y) in
          rw (place_by, e) (All-place_by y x ys below r.0, place_by-IsRanked x ys r.1)
      | inr here ↦ let front = All-trans x y ys here r.0 in ground arith
    ]

    place_by_keeps :
        (a x : A) (xs : List A)
        → filter (λ y. is_eq (c a y)) (place_by c x xs) ≡ filter (λ y. is_eq (c a y)) (x ∷ xs)
    unfolding place_by filter
    place_by_keeps a x [] = refl
    place_by_keeps a x (y ∷ ys) = ground (arith, place_by_keeps a x ys, o.alike a x y)

    sort_by-IsRanked : (xs : List A) → IsRanked (sort_by c xs)
    unfolding sort_by
    sort_by-IsRanked [] = tt
    sort_by-IsRanked (x ∷ xs) = place_by-IsRanked x (sort_by c xs) (sort_by-IsRanked xs)

    sort_by_keeps :
        (a : A) (xs : List A)
        → filter (λ y. is_eq (c a y)) (sort_by c xs) ≡ filter (λ y. is_eq (c a y)) xs
    unfolding sort_by filter
    sort_by_keeps a [] = refl
    sort_by_keeps a (x ∷ xs) =
        place_by_keeps a x (sort_by c xs)
        ∙ ap (λ ys. if is_eq (c a x) then x ∷ ys else ys) (sort_by_keeps a xs)

module _ (fl : Float64) where
  -- A value as it is ranked: NaN is below the numbers.
  abbrev ranked_value : fl.F → fl.F
  ranked_value v = if fl.is_nan v then fl.neg_infinity else v

  -- Winners per closed trade, 0 without trades.
  abbrev win_rate : SymbolStats fl → fl.F
  win_rate x =
      if nat_beq x.closed_trades 0
      then fl.ratio 0 1
      else fl.div (fl.of_nat x.profitable_trades) (fl.of_nat x.closed_trades)

  -- The first is ranked before the second or as high: by the win rate, then by winners less losers,
  -- by the mean result, by the number of trades, and by the name.
  abbrev pub IsBetter : SymbolStats fl → SymbolStats fl → Type 0
  IsBetter x y =
      let rate = fl.partial_cmp (ranked_value (win_rate x)) (ranked_value (win_rate y)) in
      let pnl = fl.partial_cmp (ranked_value x.avg_pnl_pct) (ranked_value y.avg_pnl_pct) in
      (rate ≡ some Ordering.gt)
      ⊎ ((rate ≡ some Ordering.eq)
          × ((y.profitable_trades + x.losing_trades < x.profitable_trades + y.losing_trades)
              ⊎ ((y.profitable_trades + x.losing_trades ≡ x.profitable_trades + y.losing_trades)
                  × ((pnl ≡ some Ordering.gt)
                      ⊎ ((pnl ≡ some Ordering.eq)
                          × ((y.closed_trades < x.closed_trades)
                              ⊎ ((y.closed_trades ≡ x.closed_trades)
                                  × (is_gt (compare_str x.symbol y.symbol) ≡ false))))))))

  -- Each is better than all that follow.
  abbrev pub IsBestFirst : List (SymbolStats fl) → Type 0
  IsBestFirst [] = Unit
  IsBestFirst (x ∷ xs) = All (IsBetter x) xs × IsBestFirst xs

  module _ (o : IsPartialOrder fl) where
    not_gt-IsBetter : (x y : SymbolStats fl) → is_gt (rank_tuple_cmp fl x y) ≡ false → IsBetter x y
    unfolding rank_tuple_cmp safe_f64 compute_useful_winrate
    not_gt-IsBetter x y h =
        let (r, e) =
          safe_ordered fl o (compute_useful_winrate fl y) (compute_useful_winrate fl x) in
        let (q, f) = safe_ordered fl o y.avg_pnl_pct x.avg_pnl_pct in
        let e' = o.mirrors _ _ r e in
        let f' = o.mirrors _ _ q f in
        let pm = -ℤ_parts (pos x.profitable_trades) (pos x.losing_trades) in
        let pm' = -ℤ_parts (pos y.profitable_trades) (pos y.losing_trades) in
        ground (arith, h, e, f, e', f', pm, pm')

    All-IsBetter :
        (x : SymbolStats fl) (xs : List (SymbolStats fl))
        → All (λ y. is_gt (rank_tuple_cmp fl x y) ≡ false) xs
        → All (IsBetter x) xs
    All-IsBetter x [] h = tt
    All-IsBetter x (y ∷ ys) h = (not_gt-IsBetter x y h.0, All-IsBetter x ys h.1)

    ranked-IsBestFirst :
        (xs : List (SymbolStats fl)) → IsRanked (rank_tuple_cmp fl) xs → IsBestFirst xs
    ranked-IsBestFirst [] r = tt
    ranked-IsBestFirst (x ∷ xs) r = (All-IsBetter x xs r.0, ranked-IsBestFirst xs r.1)

-- With partial_cmp as documented, rank_candidates puts the best first: each candidate that it
-- returns has a higher win rate (winners per closed trade, 0 without trades) than any later one,
-- or an equal one and then more winners less losers, or as many and then a higher mean result, or
-- an equal one and then more closed trades, or as many and a name that is not greater; NaN counts
-- as minus infinity. The candidates that compare equal to a given one are those of the input in
-- the same order.
pub rank_candidates-IsBestFirst :
    (fl : Float64) (candidates : List (SymbolStats fl)) (a : SymbolStats fl)
    → IsPartialOrder fl
    → IsBestFirst fl (rank_candidates fl candidates)
      × (filter (λ s. is_eq (rank_tuple_cmp fl a s)) (rank_candidates fl candidates)
          ≡ filter (λ s. is_eq (rank_tuple_cmp fl a s)) candidates)
rank_candidates-IsBestFirst fl candidates a o =
    let q = rank_tuple_cmp-IsOrdering fl o in
    (
      ranked-IsBestFirst fl o (rank_candidates fl candidates)
          (sort_by-IsRanked (rank_tuple_cmp fl) q candidates),
      sort_by_keeps (rank_tuple_cmp fl) q a candidates,
    )
