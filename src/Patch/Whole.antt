-- ===== src/Patch/Whole.antt =====
-- The two outcomes of a patch of hft-lead-lag/src/domain/screener/fleet_reload.rs.
use hft_lead_lag.Prelude.{
  ℕ, ◌≡◌, refl, true, false, String, List, [], ◌∷◌, map, Option, none, ◌⊎◌, inl, inr, arith, All,
  Option-cases, Bool-cases,
}
use hft_lead_lag.Prelude.Maps.{contains}
use hft_lead_lag.Prelude.Float.{Float64}
use hft_lead_lag.Shadow.Config.{TraderConfig, validate}
use hft_lead_lag.Fleet.Traders.{FleetTrade, ShadowFleet}
use hft_lead_lag.Patch.Plan.{nat_key, FleetPatchPlan, is_incremental}
use hft_lead_lag.Patch.Validate.{
  FleetPatchApplyError, FleetPatchMatchStats, ScreenerStore, validate_from, validate_patch,
  collect_patch_match_stats, check_incremental,
}
use hft_lead_lag.Patch.Mode.{IsNamed, named, not_named}
use hft_lead_lag.Patch.Apply.{FleetReloadReport, applied, try_apply_fleet_patch}
use hft_lead_lag.Patch.Outcome.{
  HasNoRepeats, validated, accepted, names-reset_symbols, reset_symbols-IsBare,
}

module _ (fl : Float64) (config_id : TraderConfig fl → ℕ) where
  nothing_seen : (cs : List (TraderConfig fl)) → All (λ c. contains (config_id c) [] ≡ false) cs
  unfolding contains
  nothing_seen [] = tt
  nothing_seen (c ∷ cs) = (refl, nothing_seen cs)

  module _ {Books : Type 0} where
    -- A patch that may be applied: valid configurations, no id twice, and what its mode asks for.
    pub record IsSound (store : ScreenerStore fl Books) (new_configs : List (TraderConfig fl))
        (plan : FleetPatchPlan) : Type 0 where
      pub valid : All (λ c. validate fl c ≡ none) new_configs
      pub distinct : HasNoRepeats (map config_id new_configs)
      pub named : IsNamed fl config_id store new_configs plan

    abbrev Verdict : ScreenerStore fl Books → List (TraderConfig fl) → FleetPatchPlan → Type 0
    Verdict store new_configs plan =
        ((e : FleetPatchApplyError) × (validate_patch fl config_id store new_configs plan ≡ inl e)
          × ¬ IsSound store new_configs plan)
        ⊎ ((validate_patch fl config_id store new_configs plan
              ≡ inr (collect_patch_match_stats fl config_id store plan new_configs))
            × IsSound store new_configs plan)

    verdict :
        (store : ScreenerStore fl Books) (new_configs : List (TraderConfig fl))
        (plan : FleetPatchPlan)
        → Verdict store new_configs plan
    unfolding validate_patch
    verdict store new_configs plan =
        let m = collect_patch_match_stats fl config_id store plan new_configs in
        let v = validate_from fl config_id 0 [] new_configs in
        let w = check_incremental fl config_id plan m in
        let absent = nothing_seen new_configs in
        elim (Option-cases v) [
          | inr (e, at) ↦ inl (
            e,
            ground (arith, at),
            λ ok. absurd (
                ground
                  (arith, at, accepted fl config_id 0 [] new_configs ok.valid ok.distinct absent)),
          )
          | inl none_bad ↦ elim (Option-cases w) [
            | inr (e, at) ↦ inl (
              e,
              ground (arith, none_bad, at),
              λ ok.
                  absurd
                    (ground (arith, at, not_named fl config_id store new_configs plan ok.named)),
            )
            | inl all_named ↦
                let (valid, distinct) = validated fl config_id 0 [] new_configs none_bad in
                inr (
                  ground (arith, none_bad, all_named),
                  record {
                    valid = valid;
                    distinct = distinct;
                    named = named fl config_id store new_configs plan all_named;
                  },
                )
          ]
        ]

    module _ (trim to_uppercase : String → String)
        (handle : List (FleetTrade fl) → Books → ℕ × Books) where
      -- The store after a patch: the new configurations, the same symbols, and after a full replacement
      -- no fleet.
      pub record IsApplied (store : ScreenerStore fl Books) (new_configs : List (TraderConfig fl))
          (plan : FleetPatchPlan) (t : ScreenerStore fl Books) : Type 0 where
        pub stored : t.fleet_configs ≡ new_configs
        pub same_names : map (λ e. e.0) t.symbols ≡ map (λ e. e.0) store.symbols
        pub emptied :
            (is_incremental plan.mode ≡ true)
            ⊎ All (λ (e : String × Option (ShadowFleet fl)). e.1 ≡ none) t.symbols

      applied-IsApplied :
          (store : ScreenerStore fl Books) (new_configs : List (TraderConfig fl))
          (plan : FleetPatchPlan) (m : FleetPatchMatchStats)
          → IsApplied store new_configs plan
              (applied fl config_id trim to_uppercase handle store new_configs plan m).1
      applied-IsApplied store new_configs plan m = record {
        stored = refl;
        same_names =
            names-reset_symbols fl config_id trim to_uppercase handle plan m store.symbols _;
        emptied = elim (Bool-cases (is_incremental plan.mode)) [
          | inl i ↦ inl i
          | inr full ↦ inr (
              reset_symbols-IsBare fl config_id trim to_uppercase handle plan m store.symbols _ full
                tt)
        ];
      }

      -- try_apply_fleet_patch has two outcomes. Either it returns an error and leaves the store as
      -- it was, and the patch is not sound; or it returns a report, the patch is sound, the new
      -- configurations are stored, the symbols are the same, and after a full replacement no
      -- symbol has a fleet. A patch is sound if its configurations are valid and no two have the
      -- same id, and if its plan is a full replacement, or some changed id is that of a stored
      -- configuration, of a trader or of a new configuration, and each changed id of a new
      -- configuration is that of a stored one or of a trader unless the plan has a symbol scope
      -- that is not empty.
      pub try_apply_fleet_patch_lem :
          (store : ScreenerStore fl Books) (new_configs : List (TraderConfig fl))
          (plan : FleetPatchPlan)
          → ((e : FleetPatchApplyError) × (try_apply_fleet_patch fl config_id trim to_uppercase
                  handle store new_configs plan
                ≡ (inl e, store))
              × ¬ IsSound store new_configs plan)
            ⊎ ((report : FleetReloadReport) × (t : ScreenerStore fl Books) × (try_apply_fleet_patch
                    fl config_id trim to_uppercase handle store new_configs plan
                  ≡ (inr report, t))
                × IsSound store new_configs plan
                × IsApplied store new_configs plan t)
      unfolding try_apply_fleet_patch
      try_apply_fleet_patch_lem store new_configs plan =
          let m = collect_patch_match_stats fl config_id store plan new_configs in
          let a = applied fl config_id trim to_uppercase handle store new_configs plan m in
          elim (verdict store new_configs plan) [
            | inl (e, at, bad) ↦ inl (e, rw (at, try_apply_fleet_patch) refl, bad)
            | inr (at, sound) ↦ inr (
              a.0,
              a.1,
              rw (at, try_apply_fleet_patch) refl,
              sound,
              applied-IsApplied store new_configs plan m,
            )
          ]
