-- ===== src/LeadLag/Latest.antt =====
-- The books of hft-lead-lag/src/application/services/lead_lag.rs hold the latest quotes.
use hft_lead_lag.Prelude.{
  ◌≡◌, refl, ◌∙◌, String, List, [], ◌∷◌, Option, some, if◌then◌else◌, ap, string_key, ◌==◌,
}
use hft_lead_lag.Prelude.Maps.{lookup, lookup-insert}
use hft_lead_lag.Prelude.Float.{Float64}
use hft_lead_lag.LeadLag.Types.{BookTicker}
use hft_lead_lag.LeadLag.Strategy.{LeadLagStrategy, update_primary_book, update_hedge_book}

-- A quote of either exchange.
pub data BookUpdate : Type 0 where
  primary hedge : BookTicker → BookUpdate

abbrev pub newer : String → BookTicker → Option BookTicker → Option BookTicker
newer symbol t old = if t.symbol == symbol then some t else old

-- The last quote of a symbol in a run of updates, or the one before them.
unfoldable pub latest_primary : String → List BookUpdate → Option BookTicker → Option BookTicker
latest_primary symbol [] old = old
latest_primary symbol (primary t ∷ us) old = latest_primary symbol us (newer symbol t old)
latest_primary symbol (hedge t ∷ us) old = latest_primary symbol us old

unfoldable pub latest_hedge : String → List BookUpdate → Option BookTicker → Option BookTicker
latest_hedge symbol [] old = old
latest_hedge symbol (primary t ∷ us) old = latest_hedge symbol us old
latest_hedge symbol (hedge t ∷ us) old = latest_hedge symbol us (newer symbol t old)

module _ (fl : Float64) where
  abbrev pub apply_update : BookUpdate → LeadLagStrategy fl → LeadLagStrategy fl
  apply_update (primary t) s = update_primary_book fl t s
  apply_update (hedge t) s = update_hedge_book fl t s

  unfoldable pub update_all : List BookUpdate → LeadLagStrategy fl → LeadLagStrategy fl
  update_all [] s = s
  update_all (u ∷ us) s = update_all us (apply_update u s)

  pub update_all_config :
      (us : List BookUpdate) (s : LeadLagStrategy fl) → (update_all us s).config ≡ s.config
  unfolding update_all update_primary_book update_hedge_book
  update_all_config [] s = refl
  update_all_config (primary t ∷ us) s = update_all_config us (update_primary_book fl t s)
  update_all_config (hedge t ∷ us) s = update_all_config us (update_hedge_book fl t s)

  pub lookup-primary_books :
      (symbol : String) (us : List BookUpdate) (s : LeadLagStrategy fl)
      → lookup symbol (update_all us s).primary_books
        ≡ latest_primary symbol us (lookup symbol s.primary_books)
  unfolding update_all latest_primary update_primary_book update_hedge_book
  lookup-primary_books symbol [] s = refl
  lookup-primary_books symbol (primary t ∷ us) s =
      lookup-primary_books symbol us (update_primary_book fl t s)
      ∙ ap (latest_primary symbol us) (lookup-insert t.symbol symbol t s.primary_books)
  lookup-primary_books symbol (hedge t ∷ us) s =
      lookup-primary_books symbol us (update_hedge_book fl t s)

  pub lookup-hedge_books :
      (symbol : String) (us : List BookUpdate) (s : LeadLagStrategy fl)
      → lookup symbol (update_all us s).hedge_books
        ≡ latest_hedge symbol us (lookup symbol s.hedge_books)
  unfolding update_all latest_hedge update_primary_book update_hedge_book
  lookup-hedge_books symbol [] s = refl
  lookup-hedge_books symbol (primary t ∷ us) s =
      lookup-hedge_books symbol us (update_primary_book fl t s)
  lookup-hedge_books symbol (hedge t ∷ us) s =
      lookup-hedge_books symbol us (update_hedge_book fl t s)
      ∙ ap (latest_hedge symbol us) (lookup-insert t.symbol symbol t s.hedge_books)
