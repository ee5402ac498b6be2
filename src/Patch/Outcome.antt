-- ===== src/Patch/Outcome.antt =====
-- A patch of hft-lead-lag/src/domain/screener/fleet_reload.rs is refused whole or applied whole.
use mathlib.Core.List.{append_assoc, append-nil}
use hft_lead_lag.Prelude.{
  ℕ, suc, ◌≡◌, refl, sym, ap, ◌∙◌, subst, Bool, true, false, String, List, [], ◌∷◌, ◌++◌, map,
  Option, none, some, ◌⊎◌, inl, inr, arith, All, Bool-cases, nat_beq, if_cases, All-append,
}
use hft_lead_lag.Prelude.Maps.{contains}
use hft_lead_lag.Prelude.Float.{Float64}
use hft_lead_lag.Shadow.Config.{TraderConfig, validate}
use hft_lead_lag.Fleet.Traders.{FleetTrade, ShadowFleet}
use hft_lead_lag.Patch.Plan.{nat_key, FleetPatchPlan, is_incremental, should_reset_symbol}
use hft_lead_lag.Patch.Validate.{FleetPatchMatchStats, validate_from}
use hft_lead_lag.Patch.Apply.{Resetting, reset_symbols, reset_one, has_touched_configs, take_fleet}

abbrev pub HasNoRepeats : List ℕ → Type 0
HasNoRepeats [] = Unit {0}
HasNoRepeats (k ∷ ks) = (contains k ks ≡ false) × HasNoRepeats ks

module _ (fl : Float64) (config_id : TraderConfig fl → ℕ) where
  -- One step of the validation.
  validate_step :
      (index : ℕ) (seen : List ℕ) (c : TraderConfig fl) (cs : List (TraderConfig fl))
      → validate_from fl config_id index seen (c ∷ cs) ≡ none
      → (validate fl c ≡ none)
        × (contains (config_id c) seen ≡ false)
        × (validate_from fl config_id (suc index) (config_id c ∷ seen) cs ≡ none)
  unfolding validate_from
  validate_step index seen c cs h = ground (arith, h)

  seen-contains :
      (index : ℕ) (seen : List ℕ) (cs : List (TraderConfig fl)) (k : ℕ)
      → validate_from fl config_id index seen cs ≡ none
      → contains k seen ≡ true
      → contains k (map config_id cs) ≡ false
  unfolding contains
  seen-contains index seen [] k h s = refl
  seen-contains index seen (c ∷ cs) k h s =
      let (valid, fresh, later) = validate_step index seen c cs h in
      let rest = seen-contains (suc index) (config_id c ∷ seen) cs k later (ground (arith, s)) in
      elim (Bool-cases (nat_beq (config_id c) k)) [
        | inl e ↦
            let same : config_id c ≡ k = (nat_key.same_iff (config_id c) k).0 e in
            absurd (ground (arith, fresh, s, same))
        | inr e ↦ ground (arith, e, rest)
      ]

  pub validated :
      (index : ℕ) (seen : List ℕ) (cs : List (TraderConfig fl))
      → validate_from fl config_id index seen cs ≡ none
      → All (λ c. validate fl c ≡ none) cs × HasNoRepeats (map config_id cs)
  unfolding contains
  validated index seen [] h = (tt, tt)
  validated index seen (c ∷ cs) h =
      let (valid, fresh, later) = validate_step index seen c cs h in
      let (all, distinct) = validated (suc index) (config_id c ∷ seen) cs later in
      let here : contains (config_id c) (config_id c ∷ seen) ≡ true = ground arith in
      (
        (valid, all),
        (seen-contains (suc index) (config_id c ∷ seen) cs (config_id c) later here, distinct),
      )

  absent_too :
      (seen : List ℕ) (k : ℕ) (cs : List (TraderConfig fl))
      → contains k (map config_id cs) ≡ false
      → All (λ c. contains (config_id c) seen ≡ false) cs
      → All (λ c. contains (config_id c) (k ∷ seen) ≡ false) cs
  unfolding contains
  absent_too seen k [] h a = tt
  absent_too seen k (c ∷ cs) h a = (
    ground (arith, h, a.0, nat_key.same_iff (config_id c) k, nat_key.same_iff k (config_id c)),
    absent_too seen k cs (ground (arith, h)) a.1,
  )

  -- Valid configurations without repeated ids pass.
  pub accepted :
      (index : ℕ) (seen : List ℕ) (cs : List (TraderConfig fl))
      → All (λ c. validate fl c ≡ none) cs
      → HasNoRepeats (map config_id cs)
      → All (λ c. contains (config_id c) seen ≡ false) cs
      → validate_from fl config_id index seen cs ≡ none
  unfolding validate_from
  accepted index seen [] v d a = refl
  accepted index seen (c ∷ cs) v d a =
      let later =
        accepted (suc index) (config_id c ∷ seen) cs v.1 d.1
          (absent_too seen (config_id c) cs d.0 a.1) in
      ground (arith, v.0, a.0, later)

  module _ (trim to_uppercase : String → String) {Books : Type 0}
      (handle : List (FleetTrade fl) → Books → ℕ × Books) where
    kept_is_incremental :
        (plan : FleetPatchPlan) (symbol : String) (touched : Bool)
        → should_reset_symbol trim to_uppercase plan symbol touched ≡ false
        → is_incremental plan.mode ≡ true
    kept_is_incremental plan symbol touched h = ground arith

    abbrev pub IsBare : String × Option (ShadowFleet fl) → Type 0
    IsBare e = e.1 ≡ none

    abbrev pub names : List (String × Option (ShadowFleet fl)) → List String
    names entries = map (λ e. e.0) entries

    names-append :
        (xs ys : List (String × Option (ShadowFleet fl))) → names (xs ++ ys) ≡ names xs ++ names ys
    names-append [] ys = refl
    names-append (x ∷ xs) ys = ap (λ ns. x.0 ∷ ns) (names-append xs ys)

    -- The symbols that a fleet is taken from.
    symbols-take_fleet :
        (symbol : String) (fleet : Option (ShadowFleet fl))
        (r : Resetting fl config_id trim to_uppercase handle)
        → (take_fleet fl config_id trim to_uppercase handle symbol fleet r).symbols
          ≡ r.symbols ++ (symbol, none) ∷ []
    symbols-take_fleet symbol none r = refl
    symbols-take_fleet symbol (some fleet) r = refl

    -- A symbol that is passed loses its fleet or keeps it.
    reset_one_cases :
        (plan : FleetPatchPlan) (m : FleetPatchMatchStats) (symbol : String)
        (fleet : Option (ShadowFleet fl)) (r : Resetting fl config_id trim to_uppercase handle)
        → ((reset_one fl config_id trim to_uppercase handle plan m symbol fleet r).symbols
            ≡ r.symbols ++ (symbol, none) ∷ [])
          ⊎ (((reset_one fl config_id trim to_uppercase handle plan m symbol fleet r).symbols
                ≡ r.symbols ++ (symbol, fleet) ∷ [])
              × (is_incremental plan.mode ≡ true))
    unfolding reset_one
    reset_one_cases plan m symbol fleet r =
        if_cases
          (λ (t : Resetting fl config_id trim to_uppercase handle).
            (t.symbols ≡ r.symbols ++ (symbol, none) ∷ [])
            ⊎ ((t.symbols ≡ r.symbols ++ (symbol, fleet) ∷ []) × (is_incremental plan.mode ≡ true)))
          (should_reset_symbol trim to_uppercase plan symbol
            (has_touched_configs fl config_id trim to_uppercase handle plan m fleet))
          _ _ (λ e. inl (symbols-take_fleet symbol fleet _))
          (λ e. inr (refl, kept_is_incremental plan symbol _ e))

    pub names-reset_symbols :
        (plan : FleetPatchPlan) (m : FleetPatchMatchStats)
        (todo : List (String × Option (ShadowFleet fl)))
        (r : Resetting fl config_id trim to_uppercase handle)
        → names (reset_symbols fl config_id trim to_uppercase handle plan m todo r).symbols
          ≡ names r.symbols ++ names todo
    unfolding reset_symbols
    names-reset_symbols plan m [] r = sym (append-nil (names r.symbols))
    names-reset_symbols plan m ((symbol, fleet) ∷ rest) r =
        let next = reset_one fl config_id trim to_uppercase handle plan m symbol fleet r in
        let moved : names next.symbols ≡ names r.symbols ++ symbol ∷ [] =
          elim (reset_one_cases plan m symbol fleet r) [
            | inl e ↦ ap names e ∙ names-append r.symbols ((symbol, none) ∷ [])
            | inr (e, i) ↦ ap names e ∙ names-append r.symbols ((symbol, fleet) ∷ [])
          ] in
        names-reset_symbols plan m rest next
        ∙ (ap (λ ns. ns ++ names rest) moved
            ∙ append_assoc (names r.symbols) (symbol ∷ []) (names rest))

    pub reset_symbols-IsBare :
        (plan : FleetPatchPlan) (m : FleetPatchMatchStats)
        (todo : List (String × Option (ShadowFleet fl)))
        (r : Resetting fl config_id trim to_uppercase handle)
        → is_incremental plan.mode ≡ false
        → All IsBare r.symbols
        → All IsBare (reset_symbols fl config_id trim to_uppercase handle plan m todo r).symbols
    unfolding reset_symbols
    reset_symbols-IsBare plan m [] r full bare = bare
    reset_symbols-IsBare plan m ((symbol, fleet) ∷ rest) r full bare =
        let next = reset_one fl config_id trim to_uppercase handle plan m symbol fleet r in
        reset_symbols-IsBare plan m rest next full (elim (reset_one_cases plan m symbol fleet r) [
          | inl e ↦
              subst (All IsBare) (sym e)
                (All-append IsBare r.symbols ((symbol, none) ∷ []) bare (refl, tt))
          | inr (e, i) ↦ absurd (ground (arith, full, i))
        ])
