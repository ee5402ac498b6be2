-- ===== src/Patch/Validate.antt =====
-- `validate_patch` of hft-lead-lag/src/domain/screener/fleet_reload.rs, with the store as it reads it.
use hft_lead_lag.Prelude.{
  ℕ, suc, ◌-◌, Bool, true, false, ◌&&◌, ◌||◌, not, String, List, [], ◌∷◌, ◌++◌, map, Option, none,
  some, ◌⊎◌, inl, inr, length, ltb, if◌then◌else◌,
}
use hft_lead_lag.Prelude.Maps.{contains}
use hft_lead_lag.Prelude.Float.{Float64}
use hft_lead_lag.Shadow.Config.{TraderConfig, validate}
use hft_lead_lag.Fleet.Traders.{Slot, ShadowFleet}
use hft_lead_lag.Patch.Plan.{
  nat_key, FleetPatchPlan, is_incremental, has_changed_configs, has_symbol_scope, symbol_scope_len,
}

pub data FleetPatchApplyError : Type 0 where
  incremental_missing_changed_config_ids : FleetPatchApplyError
  incremental_new_config_ids_require_symbol_scope : ℕ → FleetPatchApplyError
  incremental_no_matched_changed_config_ids : ℕ → ℕ → FleetPatchApplyError
  invalid_config : ℕ → String → String → FleetPatchApplyError
  duplicate_config_id : ℕ → FleetPatchApplyError

pub record FleetPatchMatchStats : Type 0 where
  pub changed_ids_requested : ℕ
  pub matched_changed_ids_old : ℕ
  pub matched_changed_ids_new : ℕ
  pub matched_changed_ids_any : ℕ
  pub unmatched_changed_ids : ℕ
  pub has_new_only_changed_ids : Bool
  pub scope_symbols_requested : ℕ

-- The store; `books` is what the handling of drained trades keeps.
pub record ScreenerStore (fl : Float64) (Books : Type 0) : Type 0 where
  pub fleet_configs : List (TraderConfig fl)
  pub symbols : List (String × Option (ShadowFleet fl))
  pub books : Books

-- An id is counted.
abbrev pub count_id : List ℕ → List ℕ → ℕ → FleetPatchMatchStats → FleetPatchMatchStats
count_id old_ids new_ids id m =
    let in_old = contains id old_ids in
    let in_new = contains id new_ids in
    record m {
      matched_changed_ids_old =
          if in_old then suc m.matched_changed_ids_old else m.matched_changed_ids_old;
      matched_changed_ids_new =
          if in_new then suc m.matched_changed_ids_new else m.matched_changed_ids_new;
      matched_changed_ids_any =
          if in_old || in_new then suc m.matched_changed_ids_any else m.matched_changed_ids_any;
      has_new_only_changed_ids = if in_new && not in_old then true else m.has_new_only_changed_ids;
    }

-- The ids that are counted, one by one.
abbrev pub count_ids : List ℕ → List ℕ → List ℕ → FleetPatchMatchStats → FleetPatchMatchStats
count_ids old_ids new_ids [] m = m
count_ids old_ids new_ids (id ∷ ids) m =
    count_ids old_ids new_ids ids (count_id old_ids new_ids id m)

module _ (fl : Float64) (config_id : TraderConfig fl → ℕ) where
  -- The configurations from an index on, after those with the ids that were seen.
  unfoldable pub validate_from : ℕ → List ℕ → List (TraderConfig fl) → Option FleetPatchApplyError
  validate_from index seen [] = none
  validate_from index seen (c ∷ cs) = elim (validate fl c) [
    | some err ↦ some (invalid_config index err.field err.reason)
    | none ↦ elim (contains (config_id c) seen) [
      | true ↦ some (duplicate_config_id (config_id c))
      | false ↦ validate_from (suc index) (config_id c ∷ seen) cs
    ]
  ]

  abbrev pub validate_new_configs : List (TraderConfig fl) → Option FleetPatchApplyError
  validate_new_configs configs = validate_from 0 [] configs

  abbrev pub slot_ids : List (Slot fl) → List ℕ
  slot_ids [] = []
  slot_ids (s ∷ ss) = s.config_id ∷ slot_ids ss

  abbrev pub fleet_ids : List (String × Option (ShadowFleet fl)) → List ℕ
  fleet_ids [] = []
  fleet_ids ((symbol, none) ∷ rest) = fleet_ids rest
  fleet_ids ((symbol, some fleet) ∷ rest) = slot_ids fleet.slots ++ fleet_ids rest

  unfoldable pub collect_patch_match_stats :
      {Books : Type 0}
      → ScreenerStore fl Books
      → FleetPatchPlan
      → List (TraderConfig fl)
      → FleetPatchMatchStats
  collect_patch_match_stats store plan new_configs =
      let old_ids = map config_id store.fleet_configs ++ fleet_ids store.symbols in
      let requested = length plan.changed_config_ids in
      let m = count_ids old_ids (map config_id new_configs) plan.changed_config_ids (record {
        changed_ids_requested = requested;
        matched_changed_ids_old = 0;
        matched_changed_ids_new = 0;
        matched_changed_ids_any = 0;
        unmatched_changed_ids = 0;
        has_new_only_changed_ids = false;
        scope_symbols_requested = symbol_scope_len plan;
      }) in
      record m { unmatched_changed_ids = requested - m.matched_changed_ids_any }

  -- What an incremental plan may be refused for.
  unfoldable pub check_incremental :
      FleetPatchPlan → FleetPatchMatchStats → Option FleetPatchApplyError
  check_incremental plan m =
      if not (is_incremental plan.mode)
      then none
      else if not (has_changed_configs plan)
      then some incremental_missing_changed_config_ids
      else if not (ltb 0 m.matched_changed_ids_any)
      then some (
          incremental_no_matched_changed_config_ids m.changed_ids_requested
            m.scope_symbols_requested)
      else if m.has_new_only_changed_ids && not (has_symbol_scope plan)
      then some (incremental_new_config_ids_require_symbol_scope m.changed_ids_requested)
      else none

  unfoldable pub validate_patch :
      {Books : Type 0}
      → ScreenerStore fl Books
      → List (TraderConfig fl)
      → FleetPatchPlan
      → FleetPatchApplyError ⊎ FleetPatchMatchStats
  validate_patch store new_configs plan =
      let m = collect_patch_match_stats store plan new_configs in
      elim (validate_new_configs new_configs) [
        | some e ↦ inl e
        | none ↦ elim (check_incremental plan m) [ some e ↦ inl e | none ↦ inr m ]
      ]
