-- ===== src/Patch/Mode.antt =====
-- What an incremental plan of hft-lead-lag/src/domain/screener/fleet_reload.rs has to name.
use hft_lead_lag.Prelude.{
  ℕ, ◌≡◌, refl, ◌↔◌, ◌⊎◌, inl, inr, Bool, true, false, ◌||◌, ◌&&◌, not, String, List, [], ◌∷◌, ◌++◌,
  map, Option, none, some, arith, All, ltb, Bool-cases, nat_beq, length,
}
use hft_lead_lag.Prelude.Maps.{contains}
use hft_lead_lag.Prelude.Float.{Float64}
use hft_lead_lag.Shadow.Config.{TraderConfig}
use hft_lead_lag.Patch.Plan.{nat_key, FleetPatchPlan, full_replace, is_incremental, scope_size}
use hft_lead_lag.Patch.Validate.{
  FleetPatchMatchStats, ScreenerStore, fleet_ids, collect_patch_match_stats, check_incremental,
}
use hft_lead_lag.Patch.Named.{
  Any, any, any_iff, none_iff, count_ids-any, count_ids_new_only, contains_iff, HasConfig, HasFleet,
  map_ids_iff, Any-append, fleet_ids_iff,
}

or_iff : (a b : Bool) (P Q : Type 0) → (a ≡ true) ↔ P → (b ≡ true) ↔ Q → ((a || b) ≡ true) ↔ (P ⊎ Q)
or_iff a b P Q p q = (
  (λ h. elim (Bool-cases a) [ inl e ↦ inl (p.0 e) | inr e ↦ inr (q.0 (ground (arith, h, e))) ]),
  (λ h. elim h [
    | inl x ↦ let e = p.1 x in ground (arith, e)
    | inr x ↦ let e = q.1 x in ground (arith, e)
  ]),
)

but_iff :
    (a b : Bool) (P Q : Type 0)
    → (a ≡ true) ↔ P
    → (b ≡ true) ↔ Q
    → ((b && not a) ≡ false) ↔ ((¬ Q) ⊎ P)
but_iff a b P Q p q = (
  (λ h. elim (Bool-cases a) [
    | inl e ↦ inr (p.0 e)
    | inr e ↦ inl (λ x. absurd (ground (arith, h, e, q.1 x)))
  ]),
  (λ h. elim h [
    | inl n ↦ elim (Bool-cases b) [ inl e ↦ absurd (n (q.0 e)) | inr e ↦ ground (arith, e) ]
    | inr x ↦ let e = p.1 x in ground (arith, e)
  ]),
)

-- A list of symbols that a plan is restricted to.
abbrev pub HasScope : FleetPatchPlan → Type 0
HasScope plan = (key : String) × (keys : List String) × (plan.symbol_scope ≡ some (key ∷ keys))

sized_iff :
    (scope : Option (List String))
    → (not (nat_beq (scope_size scope) 0) ≡ true)
      ↔ ((key : String) × (keys : List String) × (scope ≡ some (key ∷ keys)))
sized_iff none = (ground arith, λ (key, keys, e). absurd (ground (arith, e)))
sized_iff (some []) = (ground arith, λ (key, keys, e). absurd (ground (arith, e)))
sized_iff (some (key ∷ keys)) = ((λ h. (key, keys, refl)), (λ h. ground arith))

some_id : (test : ℕ → Bool) (ids : List ℕ) → any test ids ≡ true → nat_beq (length ids) 0 ≡ false
some_id test [] h = absurd (ground (arith, h))
some_id test (id ∷ ids) h = ground arith

module _ (fl : Float64) (config_id : TraderConfig fl → ℕ) where
  new_iff :
      (new_configs : List (TraderConfig fl)) (k : ℕ)
      → (contains k (map config_id new_configs) ≡ true) ↔ HasConfig fl config_id k new_configs
  new_iff new_configs k =
      let found = contains_iff k (map config_id new_configs) in
      let configs = map_ids_iff fl config_id k new_configs in
      ((λ h. configs.0 (found.0 h)), (λ h. found.1 (configs.1 h)))

module _ (fl : Float64) (config_id : TraderConfig fl → ℕ) {Books : Type 0} where
  -- A stored configuration or a trader has the id.
  abbrev pub IsOld : ScreenerStore fl Books → ℕ → Type 0
  IsOld store k =
      HasConfig fl config_id k store.fleet_configs ⊎ HasFleet fl config_id k store.symbols

  -- The plan replaces all, or it names an id that is known or new, and is restricted to symbols
  -- unless each new id that it names is known.
  abbrev pub IsNamed : ScreenerStore fl Books → List (TraderConfig fl) → FleetPatchPlan → Type 0
  IsNamed store new_configs plan =
      (plan.mode ≡ full_replace)
      ⊎ (Any (λ k. IsOld store k ⊎ HasConfig fl config_id k new_configs) plan.changed_config_ids
          × (All (λ k. (¬ HasConfig fl config_id k new_configs) ⊎ IsOld store k)
                plan.changed_config_ids
              ⊎ HasScope plan))

  abbrev old_ids : ScreenerStore fl Books → List ℕ
  old_ids store = map config_id store.fleet_configs ++ fleet_ids fl config_id store.symbols

  IsOld-iff :
      (store : ScreenerStore fl Books) (k : ℕ) → (contains k (old_ids store) ≡ true) ↔ IsOld store k
  IsOld-iff store k =
      let found = contains_iff k (old_ids store) in
      let both =
        Any-append fl config_id k (map config_id store.fleet_configs)
          (fleet_ids fl config_id store.symbols) in
      let configs = map_ids_iff fl config_id k store.fleet_configs in
      let fleets = fleet_ids_iff fl config_id k store.symbols in
      (
        (λ h. elim (both.0 (found.0 h)) [ inl e ↦ inl (configs.0 e) | inr e ↦ inr (fleets.0 e) ]),
        (λ h. found.1 (both.1 (elim h [ inl e ↦ inl (configs.1 e) | inr e ↦ inr (fleets.1 e) ]))),
      )

  module _ (store : ScreenerStore fl Books) (new_configs : List (TraderConfig fl))
      (plan : FleetPatchPlan) where
    abbrev known : Bool
    known =
        any (λ k. contains k (old_ids store) || contains k (map config_id new_configs))
          plan.changed_config_ids

    abbrev only_new : Bool
    only_new =
        any (λ k. contains k (map config_id new_configs) && not (contains k (old_ids store)))
          plan.changed_config_ids

    known_iff :
        (known ≡ true)
        ↔ Any (λ k. IsOld store k ⊎ HasConfig fl config_id k new_configs) plan.changed_config_ids
    known_iff =
        any_iff (λ k. contains k (old_ids store) || contains k (map config_id new_configs))
          (λ k. IsOld store k ⊎ HasConfig fl config_id k new_configs)
          (λ k. or_iff _ _ _ _ (IsOld-iff store k) (new_iff fl config_id new_configs k))
          plan.changed_config_ids

    only_new_iff :
        (only_new ≡ false)
        ↔ All
            (λ k. (¬ HasConfig fl config_id k new_configs) ⊎ IsOld store k)
            plan.changed_config_ids
    only_new_iff =
        none_iff (λ k. contains k (map config_id new_configs) && not (contains k (old_ids store)))
          (λ k. (¬ HasConfig fl config_id k new_configs) ⊎ IsOld store k)
          (λ k. but_iff _ _ _ _ (IsOld-iff store k) (new_iff fl config_id new_configs k))
          plan.changed_config_ids

    abbrev stats : FleetPatchMatchStats
    stats = collect_patch_match_stats fl config_id store plan new_configs

    matched-known : ltb 0 stats.matched_changed_ids_any ≡ known
    unfolding collect_patch_match_stats
    matched-known =
        count_ids-any (old_ids store) (map config_id new_configs) plan.changed_config_ids _

    new_only-only_new : stats.has_new_only_changed_ids ≡ only_new
    unfolding collect_patch_match_stats
    new_only-only_new =
        count_ids_new_only (old_ids store) (map config_id new_configs) plan.changed_config_ids _

    pub named : check_incremental fl config_id plan stats ≡ none → IsNamed store new_configs plan
    unfolding check_incremental
    named h = elim (Bool-cases (is_incremental plan.mode)) [
      | inr full ↦ inl (ground (arith, full))
      | inl inc ↦ inr (
        known_iff.0 (ground (arith, h, inc, matched-known)),
        elim (Bool-cases only_new) [
          | inr e ↦ inl (only_new_iff.0 e)
          | inl e ↦
              inr ((sized_iff plan.symbol_scope).0 (ground (arith, h, inc, e, new_only-only_new)))
        ],
      )
    ]

    pub not_named :
        IsNamed store new_configs plan → check_incremental fl config_id plan stats ≡ none
    unfolding check_incremental
    not_named n = elim n [
      | inl full ↦ ground (arith, full)
      | inr (ids, rest) ↦
          let e = known_iff.1 ids in
          let some_one =
            some_id (λ k. contains k (old_ids store) || contains k (map config_id new_configs))
              plan.changed_config_ids e in
          elim rest [
            | inl covered ↦
                let f = only_new_iff.1 covered in
                ground (arith, e, f, some_one, matched-known, new_only-only_new)
            | inr scope ↦
                let f = (sized_iff plan.symbol_scope).1 scope in
                ground (arith, e, f, some_one, matched-known)
          ]
    ]
