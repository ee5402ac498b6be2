-- ===== src/LeadLag/Clocks.antt =====
-- The clock offsets of hft-lead-lag/src/application/services/lead_lag.rs after a run of quotes.
use hft_lead_lag.Prelude.{◌≡◌, refl, List, [], ◌∷◌}
use hft_lead_lag.Prelude.Float.{Float64}
use hft_lead_lag.LeadLag.Offset.{ExchangeClockOffset, observe_ns}
use hft_lead_lag.LeadLag.Strategy.{LeadLagStrategy, update_primary_book, update_hedge_book}
use hft_lead_lag.LeadLag.Latest.{BookUpdate, primary, hedge, update_all}

-- The clock offset of an exchange after the quotes that it sent, the other's left out.
unfoldable pub primary_offset : List BookUpdate → ExchangeClockOffset → ExchangeClockOffset
primary_offset [] o = o
primary_offset (primary t ∷ us) o = primary_offset us (observe_ns t.local_ts_ns t.exchange_ts_ns o)
primary_offset (hedge t ∷ us) o = primary_offset us o

unfoldable pub hedge_offset : List BookUpdate → ExchangeClockOffset → ExchangeClockOffset
hedge_offset [] o = o
hedge_offset (primary t ∷ us) o = hedge_offset us o
hedge_offset (hedge t ∷ us) o = hedge_offset us (observe_ns t.local_ts_ns t.exchange_ts_ns o)

module _ (fl : Float64) where
  pub offsets-update_all :
      (us : List BookUpdate) (s : LeadLagStrategy fl)
      → ((update_all fl us s).primary_clock_offset ≡ primary_offset us s.primary_clock_offset)
        × ((update_all fl us s).hedge_clock_offset ≡ hedge_offset us s.hedge_clock_offset)
  unfolding update_all update_primary_book update_hedge_book primary_offset hedge_offset
  offsets-update_all [] s = (refl, refl)
  offsets-update_all (primary t ∷ us) s = offsets-update_all us (update_primary_book fl t s)
  offsets-update_all (hedge t ∷ us) s = offsets-update_all us (update_hedge_book fl t s)
