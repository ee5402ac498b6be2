-- ===== src/Shadow/Chart.antt =====
-- The size of a chart of hft-lead-lag/src/domain/screener/shadow_trader.rs: `chart_data`.
use hft_lead_lag.Prelude.{
  ℕ, zero, suc, ◌+◌, ◌*◌, ◌/◌, ◌%◌, ◌≤◌, ◌<◌, ◌≡◌, ◌≢◌, refl, ◌∙◌, ap, subst, sym, String, List, [],
  ◌∷◌, map, length, ◌⊎◌, inl, inr, arith, nat_beq, if_cases,
}
use native.Mathlib.Nat.{
  suc-mod, mul-le-mul_left, mul-suc, mod-lt, mul-add, lt_of_mul-lt-mul_left, div-add-mod, zero-mod,
  mod-eq_of_lt, mod_self,
}
use hft_lead_lag.Prelude.Float.{Float64}
use hft_lead_lag.Prices.{PriceSample}
use hft_lead_lag.Shadow.Types.{ShadowTrader}
use hft_lead_lag.Shadow.Views.{thin, chart_step, chart_data}

small_or_full : (a b : ℕ) → (a < b) ⊎ (b ≤ a)
small_or_full a b = ground arith

-- The remainder grows by one, or wraps.
next_mod : (i k : ℕ) → (suc i % suc k ≡ suc (i % suc k)) ⊎ ((i % suc k ≡ k) × (suc i % suc k ≡ 0))
next_mod i k = elim (small_or_full (suc (i % suc k)) (suc k)) [
  | inl small ↦ inl (suc-mod i (suc k) ∙ mod-eq_of_lt small)
  | inr large ↦
      let full : i % suc k ≡ k = omega (arith, large, mod-lt i {m = suc k} (omega arith)) in
      inr (full, suc-mod i (suc k) ∙ ap (λ m. suc m % suc k) full ∙ mod_self (suc k))
]

-- How far the bounds on a count are off when the first index leaves the remainder `r`.
abbrev before : ℕ → ℕ → ℕ
before k zero = 0
before k (suc r) = suc k

abbrev after : ℕ → ℕ → ℕ
after k zero = k
after k (suc r) = r

-- `count` multiples of `suc k` among `n` numbers, of which the first leaves the remainder `r`.
record IsCount (k r n count : ℕ) : Type 0 where
  covers : n + r ≤ suc k * count + before k r
  bounded : suc k * count ≤ n + after k r

hit-IsCount :
    (k m r n count : ℕ)
    → m ≡ 0
    → (r ≡ suc m) ⊎ ((m ≡ k) × (r ≡ 0))
    → IsCount k r n count
    → IsCount k m (suc n) (suc count)
hit-IsCount k zero r n count z h c = record {
  covers = ground (arith, h, c.covers, mul-suc (suc k) count);
  bounded = ground (arith, h, c.bounded, mul-suc (suc k) count);
}
hit-IsCount k (suc m) r n count z h c = absurd (omega (arith, z))

miss-IsCount :
    (k m r n count : ℕ)
    → m ≢ 0
    → (r ≡ suc m) ⊎ ((m ≡ k) × (r ≡ 0))
    → IsCount k r n count
    → IsCount k m (suc n) count
miss-IsCount k zero r n count z h c = absurd (z refl)
miss-IsCount k (suc m) r n count z h c = record {
  covers = ground (arith, h, c.covers);
  bounded = ground (arith, h, c.bounded);
}

nothing-IsCount : (k r : ℕ) → r < suc k → IsCount k r 0 0
nothing-IsCount k zero h = record { covers = omega arith; bounded = omega arith }
nothing-IsCount k (suc r) h = record { covers = omega arith; bounded = omega arith }

module _ {ℓ} {A : Type ℓ} where
  thin-IsCount :
      (k i : ℕ) (xs : List A) → IsCount k (i % suc k) (length xs) (length (thin (suc k) i xs))
  unfolding thin
  thin-IsCount k i [] = nothing-IsCount k (i % suc k) (mod-lt i (omega arith))
  thin-IsCount k i (x ∷ xs) =
      let rest = thin (suc k) (suc i) xs in
      let c = thin-IsCount k (suc i) xs in
      let n = length xs in
      if_cases (λ ys. IsCount k (i % suc k) (suc n) (length ys)) (nat_beq (i % suc k) 0) (x ∷ rest)
        rest
        (λ e.
          hit-IsCount k (i % suc k) (suc i % suc k) n (length rest) (ground (arith, e))
            (next_mod i k) c)
        (λ e.
          miss-IsCount k (i % suc k) (suc i % suc k) n (length rest) (λ z. ground (arith, e, z))
            (next_mod i k) c)

-- The points of a chart of `n` samples.
abbrev pub IsSize : ℕ → ℕ → Type 0
IsSize n points =
    (n ≤ chart_step n * points)
    × (chart_step n * points < n + chart_step n)
    × (points ≤ n / chart_step n + 1)
    × (points ≤ 1_199)

counted-IsSize : (n k points : ℕ) → chart_step n ≡ suc k → IsCount k 0 n points → IsSize n points
counted-IsSize n k points e c =
    let few : points < n / suc k + 2 = lt_of_mul-lt-mul_left (suc k) (
      omega (
        arith,
        c.bounded,
        div-add-mod n (suc k),
        mod-lt n {m = suc k} (omega arith),
        mul-add (suc k) (n / suc k) 2,
      )) in
    let capped : points ≤ 1_199 = elim (small_or_full points 1_200) [
      | inl small ↦ omega (arith, small)
      | inr large ↦ absurd (omega (arith, c.bounded, e, mul-le-mul_left (suc k) large))
    ] in
    (
      rw e (omega (arith, c.covers)),
      rw e (omega (arith, c.bounded)),
      rw e (omega (arith, few)),
      capped,
    )

module _ {ℓ κ} {A : Type ℓ} {B : Type κ} where
  length-map : (f : A → B) (xs : List A) → length (map f xs) ≡ length xs
  length-map f [] = refl
  length-map f (x ∷ xs) = ap suc (length-map f xs)

  -- Two columns of one list.
  length-columns :
      {C : Type κ} (f : A → B) (g : A → C) (xs : List A) → length (map f xs) ≡ length (map g xs)
  length-columns f g [] = refl
  length-columns f g (x ∷ xs) = ap suc (length-columns f g xs)

module _ {ℓ} {A : Type ℓ} where
  thin-IsSize :
      (step : ℕ) (xs : List A)
      → chart_step (length xs) ≡ step
      → IsSize (length xs) (length (thin step 0 xs))
  thin-IsSize zero xs e = absurd (omega (arith, e))
  thin-IsSize (suc k) xs e =
      let points = length (thin (suc k) 0 xs) in
      let c : IsCount k 0 (length xs) points =
        subst (λ r. IsCount k r (length xs) points) (zero-mod (suc k)) (thin-IsCount k 0 xs) in
      counted-IsSize (length xs) k points e c

module _ (fl : Float64) where
  -- The five columns of a chart have one length: each step of samples, of which the last may be
  -- cut short, gives one point, so there are no more points than capacity was reserved for, and at
  -- most 1199.
  pub chart_data-IsSize :
      (symbol : String) (samples : List (PriceSample fl)) (s : ShadowTrader fl)
      → IsSize (length samples) (length (chart_data fl symbol samples s).ts)
        × (length (chart_data fl symbol samples s).gate_bid
            ≡ length (chart_data fl symbol samples s).ts)
        × (length (chart_data fl symbol samples s).gate_ask
            ≡ length (chart_data fl symbol samples s).ts)
        × (length (chart_data fl symbol samples s).binance_bid
            ≡ length (chart_data fl symbol samples s).ts)
        × (length (chart_data fl symbol samples s).binance_ask
            ≡ length (chart_data fl symbol samples s).ts)
  unfolding chart_data
  chart_data-IsSize symbol samples s =
      let shown = thin (chart_step (length samples)) 0 samples in
      let time = λ (p : PriceSample fl). fl.div (fl.of_int p.ts_ms) (fl.ratio 1_000 1) in
      (
        subst (λ points. IsSize (length samples) points) (sym (length-map time shown))
            (thin-IsSize (chart_step (length samples)) samples refl),
        length-columns (λ p. p.gate_bid) time shown,
        length-columns (λ p. p.gate_ask) time shown,
        length-columns (λ p. p.binance_bid) time shown,
        length-columns (λ p. p.binance_ask) time shown,
      )
