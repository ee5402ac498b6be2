-- ===== src/LeadLag/Feed.antt =====
-- Quotes on their way into the strategy, and signals out of it:
-- hft-lead-lag/src/application/strategies/mod.rs.
use hft_lead_lag.Prelude.{
  ℕ, ◌≡◌, refl, sym, ap, String, List, [], ◌∷◌, Option, none, some, ℤ, arith,
}
use hft_lead_lag.Prelude.Float.{Float64}
use hft_lead_lag.LeadLag.Types.{LeadLagSignal}
use hft_lead_lag.LeadLag.Strategy.{check_signal}
use hft_lead_lag.LeadLag.Latest.{BookUpdate, primary, hedge, update_all}
use hft_lead_lag.LeadLag.Runtime.{
  LeadLagConfig, StrategySignal, LeadLagRuntimeStrategy, get_symbol, resolve_lead_lag_config,
  check_runtime, on_primary_book, on_hedge_book, strategy_signal,
}

mapped {ℓ κ} :
    {A : Type ℓ} {B : Type κ} (o : Option A) (g : A → B) (y : B)
    → elim o [ none ↦ none | some a ↦ some (g a) ] ≡ some y
    → (a : A) × (o ≡ some a) × (y ≡ g a)
mapped none g y h = absurd (ground (arith, h))
mapped (some a) g y h = (a, refl, ap (λ o. elim o [ none ↦ y | some b ↦ b ]) (sym h))

-- The value that an inner match maps.
mapped_within {ℓ κ ν} :
    {A : Type ℓ} {B : Type κ} {C : Type ν} (o : Option A) (f : A → Option B) (g : B → C) (y : C)
    → elim o [ none ↦ none | some a ↦ elim (f a) [ none ↦ none | some b ↦ some (g b) ] ] ≡ some y
    → (a : A) × (b : B) × (o ≡ some a) × (f a ≡ some b) × (y ≡ g b)
mapped_within none f g y h = absurd (ground (arith, h))
mapped_within (some a) f g y h =
    let (b, found, same) = mapped (f a) g y h in (a, b, refl, found, same)

module _ (fl : Float64) where
  -- Quotes that the signal loop hands to the strategy.
  unfoldable pub feed : List BookUpdate → LeadLagRuntimeStrategy fl → LeadLagRuntimeStrategy fl
  feed [] r = r
  feed (primary t ∷ us) r = feed us (on_primary_book fl t r)
  feed (hedge t ∷ us) r = feed us (on_hedge_book fl t r)

  pub feed_inner :
      (us : List BookUpdate) (r : LeadLagRuntimeStrategy fl)
      → (feed us r).inner ≡ update_all fl us r.inner
  unfolding feed update_all
  feed_inner [] r = refl
  feed_inner (primary t ∷ us) r = feed_inner us (on_primary_book fl t r)
  feed_inner (hedge t ∷ us) r = feed_inner us (on_hedge_book fl t r)

  pub feed_symbols :
      (us : List BookUpdate) (r : LeadLagRuntimeStrategy fl) → (feed us r).symbols ≡ r.symbols
  unfolding feed
  feed_symbols [] r = refl
  feed_symbols (primary t ∷ us) r = feed_symbols us (on_primary_book fl t r)
  feed_symbols (hedge t ∷ us) r = feed_symbols us (on_hedge_book fl t r)

  pub resolved_symbols :
      (file : Option (LeadLagConfig fl)) (symbols : List String)
      → (resolve_lead_lag_config fl file symbols).symbols ≡ symbols
  unfolding resolve_lead_lag_config
  resolved_symbols none symbols = refl
  resolved_symbols (some file) symbols = refl

  -- A signal of the runtime strategy is one of the strategy, for the symbol of the id.
  pub check_runtime-some :
      (context : LeadLagSignal fl → String) (r : LeadLagRuntimeStrategy fl) (symbol_id : ℕ)
      (now_ns : ℤ) (signal : StrategySignal fl)
      → check_runtime fl context r symbol_id now_ns ≡ some signal
      → (symbol : String) × (found : LeadLagSignal fl) × (get_symbol r.symbols symbol_id
          ≡ some symbol)
        × (check_signal fl r.inner symbol now_ns ≡ some found)
        × (signal.spread_bps ≡ found.spread_bps)
        × (signal.symbol ≡ found.symbol)
  unfolding check_runtime
  check_runtime-some context r symbol_id now_ns signal h =
      let (symbol, found, at, checked, same) =
        mapped_within (get_symbol r.symbols symbol_id)
          (λ symbol. check_signal fl r.inner symbol now_ns) (strategy_signal fl context) signal h in
      (symbol, found, at, checked, ap (λ g. g.spread_bps) same, ap (λ g. g.symbol) same)
