-- ===== src/Patch/Named.antt =====
-- Which ids a patch of hft-lead-lag/src/domain/screener/fleet_reload.rs may name, said without the
-- counts of `collect_patch_match_stats`.
use hft_lead_lag.Prelude.{
  ℕ, ◌≡◌, refl, ◌↔◌, ◌⊎◌, inl, inr, Bool, true, false, ◌||◌, ◌&&◌, not, String, List, [], ◌∷◌, ◌++◌,
  map, Option, none, some, arith, All, ltb, Bool-cases, nat_beq, nat_beq_iff,
}
use hft_lead_lag.Prelude.Maps.{contains}
use hft_lead_lag.Prelude.Float.{Float64}
use hft_lead_lag.Shadow.Config.{TraderConfig}
use hft_lead_lag.Fleet.Traders.{Slot, ShadowFleet}
use hft_lead_lag.Patch.Plan.{nat_key}
use hft_lead_lag.Patch.Validate.{FleetPatchMatchStats, count_id, count_ids, slot_ids, fleet_ids}

-- Some element has the property.
abbrev pub Any {ℓ} : {A : Type ℓ} → (A → Type 0) → List A → Type 0
Any P [] = ⊥
Any P (x ∷ xs) = P x ⊎ Any P xs

abbrev pub any {ℓ} : {A : Type ℓ} → (A → Bool) → List A → Bool
any test [] = false
any test (x ∷ xs) = test x || any test xs

pub any_iff {ℓ} :
    {A : Type ℓ} (test : A → Bool) (P : A → Type 0)
    → ((x : A) → (test x ≡ true) ↔ P x)
    → (xs : List A) → (any test xs ≡ true) ↔ Any P xs
any_iff test P agree [] = (ground arith, ground arith)
any_iff test P agree (x ∷ xs) =
    let rest = any_iff test P agree xs in
    (
      (λ h. elim (Bool-cases (test x)) [
        | inl e ↦ inl ((agree x).0 e)
        | inr e ↦ inr (rest.0 (ground (arith, h, e)))
      ]),
      (λ h. elim h [
        | inl p ↦ let e = (agree x).1 p in ground (arith, e)
        | inr p ↦ let e = rest.1 p in ground (arith, e)
      ]),
    )

pub none_iff {ℓ} :
    {A : Type ℓ} (test : A → Bool) (P : A → Type 0)
    → ((x : A) → (test x ≡ false) ↔ P x)
    → (xs : List A) → (any test xs ≡ false) ↔ All P xs
none_iff test P agree [] = ((λ h. tt), (λ h. refl))
none_iff test P agree (x ∷ xs) =
    let rest = none_iff test P agree xs in
    (
      (λ h. ((agree x).0 (ground (arith, h)), rest.0 (ground (arith, h)))),
      (λ (p, ps). let e = (agree x).1 p in let es = rest.1 ps in ground (arith, e, es)),
    )

-- The counts are above 0 where there is something to count.
pub count_ids-any :
    (old new ids : List ℕ) (m : FleetPatchMatchStats)
    → ltb 0 (count_ids old new ids m).matched_changed_ids_any
      ≡ ltb 0 m.matched_changed_ids_any || any (λ k. contains k old || contains k new) ids
count_ids-any old new [] m = ground arith
count_ids-any old new (id ∷ ids) m =
    ground (arith, count_ids-any old new ids (count_id old new id m))

pub count_ids_new_only :
    (old new ids : List ℕ) (m : FleetPatchMatchStats)
    → (count_ids old new ids m).has_new_only_changed_ids
      ≡ m.has_new_only_changed_ids || any (λ k. contains k new && not (contains k old)) ids
count_ids_new_only old new [] m = ground arith
count_ids_new_only old new (id ∷ ids) m =
    ground (arith, count_ids_new_only old new ids (count_id old new id m))

pub contains_iff : (k : ℕ) (ks : List ℕ) → (contains k ks ≡ true) ↔ Any (λ j. j ≡ k) ks
unfolding contains
contains_iff k [] = (ground arith, ground arith)
contains_iff k (j ∷ js) =
    let rest = contains_iff k js in
    let here = nat_beq_iff j k in
    (
      (λ h. elim (Bool-cases (nat_beq j k)) [
        | inl e ↦ inl (here.0 e)
        | inr e ↦ inr (rest.0 (ground (arith, h, e)))
      ]),
      (λ h. elim h [
        | inl p ↦ let e = here.1 p in ground (arith, e)
        | inr p ↦ let e = rest.1 p in ground (arith, e)
      ]),
    )

module _ (fl : Float64) (config_id : TraderConfig fl → ℕ) where
  -- A configuration, a trader of a fleet, or a trader of some symbol's fleet has the id.
  abbrev pub HasConfig : ℕ → List (TraderConfig fl) → Type 0
  HasConfig k cs = Any (λ c. config_id c ≡ k) cs

  abbrev pub HasTrader : ℕ → Option (ShadowFleet fl) → Type 0
  HasTrader k none = ⊥
  HasTrader k (some fleet) = Any (λ (s : Slot fl). s.config_id ≡ k) fleet.slots

  abbrev pub HasFleet : ℕ → List (String × Option (ShadowFleet fl)) → Type 0
  HasFleet k entries = Any (λ (e : String × Option (ShadowFleet fl)). HasTrader k e.1) entries

  pub map_ids_iff :
      (k : ℕ) (cs : List (TraderConfig fl)) → Any (λ j. j ≡ k) (map config_id cs) ↔ HasConfig k cs
  map_ids_iff k [] = ((λ h. h), (λ h. h))
  map_ids_iff k (c ∷ cs) =
      let rest = map_ids_iff k cs in
      (
        (λ h. elim h [ inl e ↦ inl e | inr e ↦ inr (rest.0 e) ]),
        (λ h. elim h [ inl e ↦ inl e | inr e ↦ inr (rest.1 e) ]),
      )

  slot_ids_iff :
      (k : ℕ) (ss : List (Slot fl))
      → Any (λ j. j ≡ k) (slot_ids fl config_id ss) ↔ Any (λ (s : Slot fl). s.config_id ≡ k) ss
  slot_ids_iff k [] = ((λ h. h), (λ h. h))
  slot_ids_iff k (s ∷ ss) =
      let rest = slot_ids_iff k ss in
      (
        (λ h. elim h [ inl e ↦ inl e | inr e ↦ inr (rest.0 e) ]),
        (λ h. elim h [ inl e ↦ inl e | inr e ↦ inr (rest.1 e) ]),
      )

  pub Any-append :
      (k : ℕ) (xs ys : List ℕ)
      → Any (λ j. j ≡ k) (xs ++ ys) ↔ (Any (λ j. j ≡ k) xs ⊎ Any (λ j. j ≡ k) ys)
  Any-append k [] ys = ((λ h. inr h), (λ h. elim h [ inl e ↦ absurd e | inr e ↦ e ]))
  Any-append k (x ∷ xs) ys =
      let rest = Any-append k xs ys in
      (
        (λ h. elim h [
          | inl e ↦ inl (inl e)
          | inr e ↦ elim (rest.0 e) [ inl f ↦ inl (inr f) | inr f ↦ inr f ]
        ]),
        (λ h. elim h [
          | inl e ↦ elim e [ inl f ↦ inl f | inr f ↦ inr (rest.1 (inl f)) ]
          | inr e ↦ inr (rest.1 (inr e))
        ]),
      )

  pub fleet_ids_iff :
      (k : ℕ) (entries : List (String × Option (ShadowFleet fl)))
      → Any (λ j. j ≡ k) (fleet_ids fl config_id entries) ↔ HasFleet k entries
  fleet_ids_iff k [] = ((λ h. h), (λ h. h))
  fleet_ids_iff k ((symbol, none) ∷ rest) =
      let later = fleet_ids_iff k rest in
      ((λ h. inr (later.0 h)), (λ h. elim h [ inl e ↦ absurd e | inr e ↦ later.1 e ]))
  fleet_ids_iff k ((symbol, some fleet) ∷ rest) =
      let later = fleet_ids_iff k rest in
      let here = slot_ids_iff k fleet.slots in
      let both = Any-append k (slot_ids fl config_id fleet.slots) (fleet_ids fl config_id rest) in
      (
        (λ h. elim (both.0 h) [ inl e ↦ inl (here.0 e) | inr e ↦ inr (later.0 e) ]),
        (λ h. both.1 (elim h [ inl e ↦ inl (here.1 e) | inr e ↦ inr (later.1 e) ])),
      )
