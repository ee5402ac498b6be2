-- ===== src/Patch/Plan.antt =====
-- `FleetPatchPlan` of hft-lead-lag/src/domain/screener/fleet_patch.rs. A set is a list without
-- repetitions. `trim` and `to_uppercase` are those of `str`.
use hft_lead_lag.Prelude.{
  ℕ, Bool, true, false, ◌&&◌, not, String, List, [], ◌∷◌, ◌++◌, Option, none, some, length, nat_beq,
  nat_beq_iff, if◌then◌else◌, Key, string_key, ◌==◌,
}
use hft_lead_lag.Prelude.Maps.{contains}

instance abbrev pub nat_key : Key ℕ
nat_key = record { same = nat_beq; same_iff = λ a b. nat_beq_iff a b }

pub data FleetPatchMode : Type 0 where
  full_replace incremental : FleetPatchMode

abbrev pub mode_name : FleetPatchMode → String
mode_name full_replace = "full_replace"
mode_name incremental = "incremental"

abbrev pub is_incremental : FleetPatchMode → Bool
is_incremental full_replace = false
is_incremental incremental = true

pub record FleetPatchPlan : Type 0 where
  pub mode : FleetPatchMode
  pub changed_config_ids : List ℕ
  pub symbol_scope : Option (List String)

-- `collect` into a `HashSet`, after what it has already.
abbrev pub to_set {ℓ} : {K : Type ℓ} ⦃key : Key K⦄ → List K → List K → List K
to_set set [] = set
to_set set (x ∷ xs) = to_set (if contains x set then set else set ++ x ∷ []) xs

module _ (trim to_uppercase : String → String) where
  abbrev pub normalize_symbol_key : String → Option String
  normalize_symbol_key symbol =
      let normalized = to_uppercase (trim symbol) in
      if normalized == "" then none else some normalized

  abbrev pub keys_of : List String → List String
  keys_of [] = []
  keys_of (s ∷ ss) = elim (normalize_symbol_key s) [ none ↦ keys_of ss | some k ↦ k ∷ keys_of ss ]

  abbrev pub scope_of : Option (List String) → Option (List String)
  scope_of none = none
  scope_of (some scope) = some (to_set [] (keys_of scope))

  unfoldable pub new_plan : FleetPatchMode → List ℕ → Option (List String) → FleetPatchPlan
  new_plan mode changed_config_ids symbol_scope = record {
    mode = mode;
    changed_config_ids = to_set [] changed_config_ids;
    symbol_scope = scope_of symbol_scope;
  }

  abbrev pub in_scope : Option (List String) → String → Bool
  in_scope none key = true
  in_scope (some scope) key = contains key scope

  abbrev pub symbol_in_scope : FleetPatchPlan → String → Bool
  symbol_in_scope plan symbol = elim (normalize_symbol_key symbol) [
    | none ↦ false
    | some key ↦ in_scope plan.symbol_scope key
  ]

  abbrev pub should_reset_symbol : FleetPatchPlan → String → Bool → Bool
  should_reset_symbol plan symbol touched = elim plan.mode [
    | full_replace ↦ true
    | incremental ↦ touched && symbol_in_scope plan symbol
  ]

abbrev pub scope_size : Option (List String) → ℕ
scope_size none = 0
scope_size (some scope) = length scope

abbrev pub has_changed_configs : FleetPatchPlan → Bool
has_changed_configs plan = not (nat_beq (length plan.changed_config_ids) 0)

abbrev pub symbol_scope_len : FleetPatchPlan → ℕ
symbol_scope_len plan = scope_size plan.symbol_scope

abbrev pub has_symbol_scope : FleetPatchPlan → Bool
has_symbol_scope plan = not (nat_beq (scope_size plan.symbol_scope) 0)
