-- ===== src/Patch/Apply.antt =====
-- `try_apply_fleet_patch` of hft-lead-lag/src/domain/screener/fleet_reload.rs. What the store does with
-- the trades that a fleet gives back is the argument `handle`. The lock around the patch is left out: a
-- patch is one step.
use hft_lead_lag.Prelude.{
  ℕ, suc, ◌+◌, Bool, true, false, ◌&&◌, not, String, List, [], ◌∷◌, ◌++◌, Option, none, some, ◌⊎◌,
  inl, inr, length, if◌then◌else◌,
}
use hft_lead_lag.Prelude.Maps.{contains}
use hft_lead_lag.Prelude.Float.{Float64}
use hft_lead_lag.Shadow.Config.{TraderConfig}
use hft_lead_lag.Fleet.Traders.{FleetTrade, ShadowFleet, contains_any_config_ids, drain_trades}
use hft_lead_lag.Patch.Plan.{
  nat_key, FleetPatchPlan, is_incremental, has_changed_configs, has_symbol_scope, symbol_in_scope,
  should_reset_symbol,
}
use hft_lead_lag.Patch.Validate.{
  FleetPatchApplyError, FleetPatchMatchStats, ScreenerStore, validate_patch,
}

pub record FleetReloadReport : Type 0 where
  pub old_config_count : ℕ
  pub new_config_count : ℕ
  pub symbols_reset : ℕ
  pub drained_trades : ℕ
  pub changed_ids_requested : ℕ
  pub matched_changed_ids_old : ℕ
  pub matched_changed_ids_new : ℕ
  pub unmatched_changed_ids : ℕ
  pub scope_symbols_requested : ℕ
  pub scope_symbols_matched : ℕ

module _ (fl : Float64) (config_id : TraderConfig fl → ℕ) (trim to_uppercase : String → String)
    {Books : Type 0} (handle : List (FleetTrade fl) → Books → ℕ × Books) where
  -- The loop over the symbols: its counters, and the symbols that it has passed.
  pub record Resetting : Type 0 where
    pub symbols_reset : ℕ
    pub drained_trades : ℕ
    pub scope_symbols_matched : ℕ
    pub symbols : List (String × Option (ShadowFleet fl))
    pub books : Books

  abbrev pub has_ids : List ℕ → Option (ShadowFleet fl) → Bool
  has_ids ids none = false
  has_ids ids (some fleet) = contains_any_config_ids fl (λ id. contains id ids) fleet.slots

  abbrev pub has_touched_configs :
      FleetPatchPlan → FleetPatchMatchStats → Option (ShadowFleet fl) → Bool
  has_touched_configs plan m fleet =
      if not (is_incremental plan.mode)
      then true
      else if not (has_changed_configs plan)
      then false
      else if is_incremental plan.mode && m.has_new_only_changed_ids
      then true
      else has_ids plan.changed_config_ids fleet

  abbrev pub take_fleet : String → Option (ShadowFleet fl) → Resetting → Resetting
  take_fleet symbol none r = record r { symbols = r.symbols ++ (symbol, none) ∷ [] }
  take_fleet symbol (some fleet) r =
      let (count, books) = handle (drain_trades fl fleet).0 r.books in
      record r {
        symbols_reset = suc r.symbols_reset;
        drained_trades = r.drained_trades + count;
        symbols = r.symbols ++ (symbol, none) ∷ [];
        books = books;
      }

  unfoldable pub reset_one :
      FleetPatchPlan
      → FleetPatchMatchStats
      → String
      → Option (ShadowFleet fl)
      → Resetting
      → Resetting
  reset_one plan m symbol fleet r =
      let matched = has_symbol_scope plan && symbol_in_scope trim to_uppercase plan symbol in
      let counted : Resetting = record r {
        scope_symbols_matched =
            if matched then suc r.scope_symbols_matched else r.scope_symbols_matched;
      } in
      if should_reset_symbol trim to_uppercase plan symbol (has_touched_configs plan m fleet)
      then take_fleet symbol fleet counted
      else record counted { symbols = r.symbols ++ (symbol, fleet) ∷ [] }

  unfoldable pub reset_symbols :
      FleetPatchPlan
      → FleetPatchMatchStats
      → List (String × Option (ShadowFleet fl))
      → Resetting
      → Resetting
  reset_symbols plan m [] r = r
  reset_symbols plan m ((symbol, fleet) ∷ rest) r =
      reset_symbols plan m rest (reset_one plan m symbol fleet r)

  abbrev pub applied :
      ScreenerStore fl Books
      → List (TraderConfig fl)
      → FleetPatchPlan
      → FleetPatchMatchStats
      → FleetReloadReport × ScreenerStore fl Books
  applied store new_configs plan m =
      let r = reset_symbols plan m store.symbols (record {
        symbols_reset = 0;
        drained_trades = 0;
        scope_symbols_matched = 0;
        symbols = [];
        books = store.books;
      }) in
      (
        record {
          old_config_count = length store.fleet_configs;
          new_config_count = length new_configs;
          symbols_reset = r.symbols_reset;
          drained_trades = r.drained_trades;
          changed_ids_requested = m.changed_ids_requested;
          matched_changed_ids_old = m.matched_changed_ids_old;
          matched_changed_ids_new = m.matched_changed_ids_new;
          unmatched_changed_ids = m.unmatched_changed_ids;
          scope_symbols_requested = m.scope_symbols_requested;
          scope_symbols_matched = r.scope_symbols_matched;
        },
        record { fleet_configs = new_configs; symbols = r.symbols; books = r.books },
      )

  unfoldable pub try_apply_fleet_patch :
      ScreenerStore fl Books
      → List (TraderConfig fl)
      → FleetPatchPlan
      → (FleetPatchApplyError ⊎ FleetReloadReport) × ScreenerStore fl Books
  try_apply_fleet_patch store new_configs plan =
      elim (validate_patch fl config_id store new_configs plan) [
        | inl e ↦ (inl e, store)
        | inr m ↦ (inr (applied store new_configs plan m).0, (applied store new_configs plan m).1)
      ]
