-- ===== src/Prices.antt =====
-- The shared price history of a symbol: hft-lead-lag/src/domain/screener/price_samples.rs.
use hft_lead_lag.Prelude.{
  List, [], ◌∷◌, ◌++◌, Option, none, some, ℤ, pos, ◌-%◌, leb_ℤ, if◌then◌else◌,
}
use hft_lead_lag.Prelude.Float.{Float64}

pub record PriceSample (fl : Float64) : Type 0 where
  pub ts_ms : ℤ
  pub gate_bid : fl.F
  pub gate_ask : fl.F
  pub binance_bid : fl.F
  pub binance_ask : fl.F

module _ {ℓ} {A : Type ℓ} where
  -- `while let Some(x) = queue.front()`, which breaks at the first that is not before the cutoff.
  unfoldable pub pop_before : (A → ℤ) → ℤ → List A → List A
  pop_before ts cutoff [] = []
  pop_before ts cutoff (x ∷ xs) = if leb_ℤ cutoff (ts x) then x ∷ xs else pop_before ts cutoff xs

  abbrev pub last : List A → Option A
  last [] = none
  last (x ∷ []) = some x
  last (x ∷ y ∷ ys) = last (y ∷ ys)

-- `PriceSamples` is the list of its samples, oldest first.
abbrev pub push : {fl : Float64} → PriceSample fl → List (PriceSample fl) → List (PriceSample fl)
push sample samples = samples ++ sample ∷ []

abbrev pub chart_retention_ms : ℤ
chart_retention_ms = pos 120_000

unfoldable pub cleanup : {fl : Float64} → ℤ → List (PriceSample fl) → List (PriceSample fl)
cleanup ts_ms samples = pop_before (λ s. s.ts_ms) (ts_ms -% chart_retention_ms) samples
