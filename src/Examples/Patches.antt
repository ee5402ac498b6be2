-- ===== src/Examples/Patches.antt =====
-- A patch of hft-lead-lag/src/domain/screener/fleet_reload.rs that adds a configuration for one
-- symbol.
use hft_lead_lag.Prelude.{ℕ, ◌+◌, ◌≡◌, List, [], ◌∷◌, none, some, ◌⊎◌, inl, inr, length}
use hft_lead_lag.Examples.Floats.{cents}
use hft_lead_lag.Examples.Fleets.{fleet}
use hft_lead_lag.Shadow.Config.{TraderConfig, default_trader_config}
use hft_lead_lag.Fleet.Traders.{FleetTrade}
use hft_lead_lag.Patch.Plan.{FleetPatchPlan, incremental, new_plan}
use hft_lead_lag.Patch.Validate.{FleetPatchApplyError, ScreenerStore}
use hft_lead_lag.Patch.Apply.{FleetReloadReport, try_apply_fleet_patch}
use hft_lead_lag.Patch.Whole.{IsSound, IsApplied, try_apply_fleet_patch_lem}

-- A stand-in for the hash of a configuration.
abbrev id_of : TraderConfig cents → ℕ
id_of c = c.min_baseline_samples

abbrev handle : List (FleetTrade cents) → ℕ → ℕ × ℕ
handle trades total = (length trades, total + length trades)

abbrev two_configs : List (TraderConfig cents)
two_configs =
    default_trader_config cents
    ∷ record (default_trader_config cents) { min_baseline_samples = 7 }
    ∷ []

abbrev store : ScreenerStore cents ℕ
store = record { fleet_configs = []; symbols = ("BTC", some fleet) ∷ ("ETH", none) ∷ []; books = 0 }

abbrev plan : FleetPatchPlan
plan = new_plan (λ s. s) (λ s. s) incremental (7 ∷ []) (some ("BTC" ∷ []))

try_apply_fleet_patch_lem_example :
    ((e : FleetPatchApplyError) × (try_apply_fleet_patch cents id_of
          (λ s. s)
          (λ s. s)
          handle
          store
          two_configs
          plan
        ≡ (inl e, store))
      × ¬ IsSound cents id_of store two_configs plan)
    ⊎ ((report : FleetReloadReport) × (t : ScreenerStore cents ℕ) × (try_apply_fleet_patch cents
            id_of
            (λ s. s)
            (λ s. s)
            handle
            store
            two_configs
            plan
          ≡ (inr report, t))
        × IsSound cents id_of store two_configs plan
        × IsApplied cents id_of (λ s. s) (λ s. s) handle store two_configs plan t)
try_apply_fleet_patch_lem_example =
    try_apply_fleet_patch_lem cents id_of (λ s. s) (λ s. s) handle store two_configs plan
