-- ===== src/Shadow/Life/Parts.antt =====
-- How the parts of a tick of hft-lead-lag/src/domain/screener/shadow_trader.rs move the machine.
use hft_lead_lag.Prelude.{
  ◌≡◌, true, false, List, Option, ℤ, ltb_ℤ, ◌+%◌, arith, is_some, String, if_both, saturating_sub,
}
use hft_lead_lag.Prelude.Float.{Float64}
use hft_lead_lag.Quotes.{Quote}
use hft_lead_lag.Prices.{PriceSample}
use hft_lead_lag.Shadow.Types.{ShadowTrader}
use hft_lead_lag.Shadow.Orders.{mark_position, exit_position, try_exit, fill_exit, fill, try_fill}
use hft_lead_lag.Shadow.Gap.{try_entry}
use hft_lead_lag.Shadow.Tick.{TickInput, or_start, enter}
use hft_lead_lag.Shadow.Life.{is_exiting, life, IsExclusive, Follows, refl-Follows}

module _ (fl : Float64) where
  pub try_fill-Follows :
      (ts_ms : ℤ) (gate : Quote fl) (window_ms : ℤ) (s : ShadowTrader fl)
      → IsExclusive fl s
      → Follows fl ts_ms s (try_fill fl ts_ms gate window_ms s)
  unfolding try_fill fill fill_exit
  try_fill-Follows ts_ms gate window_ms s x = record {
    exclusive = ground arith;
    same_config = ground arith;
    moved = ground arith;
  }

  pub try_exit-Follows :
      (ts_ms : ℤ) (gate : Quote fl) (s : ShadowTrader fl)
      → IsExclusive fl s
      → Follows fl ts_ms s (try_exit fl ts_ms gate s)
  unfolding try_exit exit_position mark_position
  try_exit-Follows ts_ms gate s x = record {
    exclusive = ground arith;
    same_config = ground arith;
    moved = ground arith;
  }

  pub try_entry-Follows :
      (ts_ms : ℤ) (binance gate : Quote fl) (samples : List (PriceSample fl)) (natr : fl.F)
      (run_id : Option String) (s : ShadowTrader fl)
      → IsExclusive fl s
      → Follows fl ts_ms s (try_entry fl ts_ms binance gate samples natr run_id s)
  unfolding try_entry
  try_entry-Follows ts_ms binance gate samples natr run_id s x = record {
    exclusive = ground arith;
    same_config = ground arith;
    moved = ground arith;
  }

  -- An exit that is filled starts the cooldown.
  pub try_fill_cools :
      (ts_ms : ℤ) (gate : Quote fl) (window_ms : ℤ) (s : ShadowTrader fl)
      → is_exiting (life fl s) ≡ true
      → is_some (try_fill fl ts_ms gate window_ms s).pending ≡ false
      → (try_fill fl ts_ms gate window_ms s).cooldown_until_ms ≡ ts_ms +% s.config.cooldown_ms
  unfolding try_fill fill fill_exit
  try_fill_cools ts_ms gate window_ms s x p = ground arith

  pub try_exit_keeps_cooldown :
      (ts_ms : ℤ) (gate : Quote fl) (s : ShadowTrader fl)
      → (try_exit fl ts_ms gate s).cooldown_until_ms ≡ s.cooldown_until_ms
  unfolding try_exit exit_position
  try_exit_keeps_cooldown ts_ms gate s = ground arith

  pub enter-Follows :
      (i : TickInput fl) (s : ShadowTrader fl)
      → IsExclusive fl s
      → Follows fl i.ts_ms s (enter fl i s)
  unfolding enter
  enter-Follows i s x =
      let f =
        try_entry-Follows i.ts_ms i.binance i.gate i.samples i.gate_natr_30m_pct_at_entry i.run_id s
          x in
      if_both (λ t. Follows fl i.ts_ms s t)
        (ltb_ℤ (saturating_sub i.ts_ms (or_start s.start_ts_ms i.ts_ms)) s.config.warmup_ms) s
        (try_entry fl i.ts_ms i.binance i.gate i.samples i.gate_natr_30m_pct_at_entry i.run_id s)
        (refl-Follows fl i.ts_ms s x) f

  -- An order is entered only after the cooldown.
  pub enter_cooled :
      (i : TickInput fl) (s : ShadowTrader fl)
      → is_some s.pending ≡ false
      → is_some (enter fl i s).pending ≡ true
      → ltb_ℤ i.ts_ms s.cooldown_until_ms ≡ false
  unfolding enter try_entry
  enter_cooled i s p q = ground arith
