-- ===== src/ClockOffset/Bounds.antt =====
-- How large the clock offsets of hft-lead-lag/src/domain/screener/clock_offset.rs get.
use hft_lead_lag.Prelude.{
  ℕ, zero, suc, ◌-◌, ◌/◌, ◌≤◌, ◌<◌, ◌≡◌, inl, inr, String, List, [], ◌∷◌, ◌++◌, ℤ, pos, arith, ltb,
  nat_beq, length, drop, get_or, All, saturating_sub, unsigned_abs, Bool-cases, if_both, string_key,
}
use hft_lead_lag.Prelude.Ordering.{cmp_ℤ}
use hft_lead_lag.Portfolio.Ranking.{place_by, sort_by}
use hft_lead_lag.ClockOffset.{
  ClockOffsetEstimator, trim_window, median_of, observe, ExchangeClockOffsets, correct,
}

-- A sample within the safety bound.
abbrev pub IsSmall : ℤ → Type 0
IsSmall a = unsigned_abs a ≤ 21_600_000

-- At most 512 samples, each and the offset within six hours; fewer than 64 updates pending.
pub record IsValid (est : ClockOffsetEstimator) : Type 0 where
  pub window : length est.samples ≤ 512
  pub small_samples : All IsSmall est.samples
  pub small_offset : IsSmall est.cached_median_ms
  pub recomputed : est.pending_updates < 64

length-drop : (n : ℕ) (xs : List ℤ) → length (drop n xs) ≡ length xs - n
length-drop zero xs = omega arith
length-drop (suc n) [] = omega arith
length-drop (suc n) (x ∷ xs) = omega (arith, length-drop n xs)

All-drop : (n : ℕ) (xs : List ℤ) → All IsSmall xs → All IsSmall (drop n xs)
All-drop zero xs a = a
All-drop (suc n) [] a = tt
All-drop (suc n) (x ∷ xs) a = All-drop n xs a.1

All-append : (xs : List ℤ) (x : ℤ) → All IsSmall xs → IsSmall x → All IsSmall (xs ++ x ∷ [])
All-append [] x a h = (h, tt)
All-append (y ∷ xs) x a h = (a.0, All-append xs x a.1 h)

All-place_by :
    (x : ℤ) (xs : List ℤ) → IsSmall x → All IsSmall xs → All IsSmall (place_by cmp_ℤ x xs)
unfolding place_by
All-place_by x [] h a = (h, tt)
All-place_by x (y ∷ ys) h a = let later = All-place_by x ys h a.1 in ground arith

All-sort_by : (xs : List ℤ) → All IsSmall xs → All IsSmall (sort_by cmp_ℤ xs)
unfolding sort_by
All-sort_by [] a = tt
All-sort_by (x ∷ xs) a = All-place_by x (sort_by cmp_ℤ xs) a.0 (All-sort_by xs a.1)

get_or-IsSmall : (xs : List ℤ) (i : ℕ) → All IsSmall xs → IsSmall (get_or xs i (pos 0))
get_or-IsSmall [] i a = omega arith
get_or-IsSmall (x ∷ xs) zero a = a.0
get_or-IsSmall (x ∷ xs) (suc i) a = get_or-IsSmall xs i a.1

median_of-IsSmall : (xs : List ℤ) → All IsSmall xs → IsSmall (median_of xs)
unfolding median_of
median_of-IsSmall xs a =
    let sorted = sort_by cmp_ℤ xs in
    if_both IsSmall (nat_beq (length xs) 0) (pos 0) (get_or sorted (length sorted / 2) (pos 0))
      (omega arith) (get_or-IsSmall sorted (length sorted / 2) (All-sort_by xs a))

observe-IsValid :
    (est : ClockOffsetEstimator) (ingress_ts_ms exchange_ts_ms : ℤ)
    → IsValid est
    → IsValid (observe est ingress_ts_ms exchange_ts_ms)
unfolding observe trim_window
observe-IsValid est ingress_ts_ms exchange_ts_ms v =
    let sample = saturating_sub ingress_ts_ms exchange_ts_ms in
    let pushed = est.samples ++ sample ∷ [] in
    let n = length pushed - 512 in
    elim (Bool-cases (ltb 21_600_000 (unsigned_abs sample))) [
      | inl large ↦ ground (arith, v, large)
      | inr ok ↦
          let small : IsSmall sample = ground arith in
          let all = All-drop n pushed (All-append est.samples sample v.small_samples small) in
          let len = length-drop n pushed in
          let median = median_of-IsSmall (drop n pushed) all in ground (arith, ok, all, len, median)
    ]

-- Correcting a timestamp keeps both estimators valid: at most 512 samples, each and the offset
-- within six hours, and fewer than 64 updates pending.
pub correct-IsValid :
    (offsets : ExchangeClockOffsets) (exchange : String) (exchange_ts_ms ingress_ts_ms : ℤ)
    → IsValid offsets.binance
    → IsValid offsets.gate
    → IsValid (correct offsets exchange exchange_ts_ms ingress_ts_ms).1.binance
      × IsValid (correct offsets exchange exchange_ts_ms ingress_ts_ms).1.gate
unfolding correct
correct-IsValid offsets exchange exchange_ts_ms ingress_ts_ms b g =
    let b' = observe-IsValid offsets.binance ingress_ts_ms exchange_ts_ms b in
    let g' = observe-IsValid offsets.gate ingress_ts_ms exchange_ts_ms g in
    (ground (arith, b, b'), ground (arith, g, g'))
