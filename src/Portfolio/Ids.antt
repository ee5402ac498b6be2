-- ===== src/Portfolio/Ids.antt =====
-- `normalize_portfolio_ids`, `with_portfolio_ids` and `set_portfolio_ids` of
-- hft-lead-lag/src/domain/screener/portfolio_runtime.rs. `trim` is `str::trim`, a parameter.
use hft_lead_lag.Prelude.{
  All, All-append, map, if_cases, ◌⊎◌, ◌≡◌, refl, true, false, String, List, [], ◌∷◌, ◌++◌, arith,
  length, ◌<◌, Bool-cases, inl, inr, string_key, ◌==◌, same_self, if_both, nat_beq, if◌then◌else◌,
}
use hft_lead_lag.Prelude.Maps.{contains, contains-append}
use hft_lead_lag.Portfolio.Types.{Engine, default_portfolio_ids}
use hft_lead_lag.Portfolio.Shortlist.Rounds.{AreDistinct}

first_found : (x : String) (xs : List String) → contains x (x ∷ xs) ≡ true
unfolding contains
first_found x xs = ground (arith, same_self x)

last_found : (x : String) → contains x (x ∷ []) ≡ true
last_found x = first_found x []

module _ (trim : String → String) where
  -- The loop; `normalized` is the vector that it fills.
  unfoldable pub collect_ids : List String → List String → List String
  collect_ids normalized [] = normalized
  collect_ids normalized (raw ∷ raws) =
      let trimmed = trim raw in
      let skip = collect_ids normalized raws in
      let push = collect_ids (normalized ++ trimmed ∷ []) raws in
      if trimmed == "" then skip else if contains trimmed normalized then skip else push

  unfoldable pub normalize_portfolio_ids : List String → List String
  normalize_portfolio_ids portfolio_ids =
      let normalized = collect_ids [] portfolio_ids in
      if nat_beq (length normalized) 0 then default_portfolio_ids else normalized

  abbrev pub with_portfolio_ids : List String → Engine
  with_portfolio_ids portfolio_ids = record {
    guards = [];
    portfolio_ids = normalize_portfolio_ids portfolio_ids;
  }

  abbrev pub set_portfolio_ids : Engine → List String → Engine
  set_portfolio_ids e portfolio_ids = record e {
    portfolio_ids = normalize_portfolio_ids portfolio_ids;
  }

  AreDistinct-append :
      (xs : List String) (x : String)
      → AreDistinct xs
      → contains x xs ≡ false
      → AreDistinct (xs ++ x ∷ [])
  unfolding contains
  AreDistinct-append [] x d h = (refl, tt)
  AreDistinct-append (y ∷ ys) x d h = (
    ground (
      arith,
      contains-append y ys (x ∷ []),
      d.0,
      string_key.same_iff x y,
      string_key.same_iff y x,
    ),
    AreDistinct-append ys x d.1 (ground arith),
  )

  collect_ids-AreDistinct :
      (xs raws : List String) → AreDistinct xs → AreDistinct (collect_ids xs raws)
  unfolding collect_ids
  collect_ids-AreDistinct xs [] d = d
  collect_ids-AreDistinct xs (raw ∷ raws) d =
      let skip = collect_ids-AreDistinct xs raws d in
      elim (Bool-cases (contains (trim raw) xs)) [
        | inl e ↦ ground arith
        | inr e ↦
            let push =
              collect_ids-AreDistinct (xs ++ trim raw ∷ []) raws
                (AreDistinct-append xs (trim raw) d e) in
            ground arith
      ]

  collect_ids_keeps :
      (id : String) (xs raws : List String)
      → contains id xs ≡ true
      → contains id (collect_ids xs raws) ≡ true
  unfolding collect_ids contains
  collect_ids_keeps id xs [] h = h
  collect_ids_keeps id xs (raw ∷ raws) h =
      let skip = collect_ids_keeps id xs raws h in
      let push = collect_ids_keeps id (xs ++ trim raw ∷ []) raws in
      ground (arith, push, contains-append id xs (trim raw ∷ []))

  collect_ids_cases {κ} :
      (P : List String → Type κ) (xs : List String) (raw : String) (raws : List String)
      → ((trim raw == "") ≡ true → P (collect_ids xs raws))
      → (contains (trim raw) xs ≡ true → P (collect_ids xs raws))
      → ((trim raw == "") ≡ false → P (collect_ids (xs ++ trim raw ∷ []) raws))
      → P (collect_ids xs (raw ∷ raws))
  unfolding collect_ids
  collect_ids_cases P xs raw raws blank old new =
      let skip = collect_ids xs raws in
      let push = collect_ids (xs ++ trim raw ∷ []) raws in
      if_cases P (trim raw == "") skip (if contains (trim raw) xs then skip else push) blank
        (λ n. if_cases P (contains (trim raw) xs) skip push old (λ e. new n))

  -- An id is blank or among the given ones.
  abbrev IsTaken : List String → String → Type 0
  IsTaken ids raw = ((trim raw == "") ≡ true) ⊎ (contains (trim raw) ids ≡ true)

  collect_ids_takes : (xs raws : List String) → All (IsTaken (collect_ids xs raws)) raws
  collect_ids_takes xs [] = tt
  collect_ids_takes xs (raw ∷ raws) =
      let skip = collect_ids_takes xs raws in
      let push = collect_ids_takes (xs ++ trim raw ∷ []) raws in
      collect_ids_cases (λ ids. All (IsTaken ids) (raw ∷ raws)) xs raw raws
        (λ blank. (inl blank, skip)) (λ old. (inr (collect_ids_keeps (trim raw) xs raws old), skip))
        (λ new. (
          inr (
              collect_ids_keeps (trim raw) (xs ++ trim raw ∷ []) raws (
                ground
                  (arith, contains-append (trim raw) xs (trim raw ∷ []), last_found (trim raw)))),
          push,
        ))

  -- Not empty, and the trimmed form of a given one.
  abbrev IsGiven : List String → String → Type 0
  IsGiven raws id = ((id == "") ≡ false) × (contains id (map trim raws) ≡ true)

  collect_ids_sound :
      (all xs raws : List String)
      → All (λ raw. contains (trim raw) (map trim all) ≡ true) raws
      → All (IsGiven all) xs
      → All (IsGiven all) (collect_ids xs raws)
  unfolding collect_ids
  collect_ids_sound all xs [] m g = g
  collect_ids_sound all xs (raw ∷ raws) m g =
      let skip = collect_ids_sound all xs raws m.1 g in
      collect_ids_cases (All (IsGiven all)) xs raw raws (λ blank. skip) (λ old. skip)
        (λ new.
          collect_ids_sound all (xs ++ trim raw ∷ []) raws m.1
            (All-append (IsGiven all) xs (trim raw ∷ []) g ((new, m.0), tt)))

  found_after :
      (x : String) (ys raws : List String)
      → All (λ raw. contains (trim raw) ys ≡ true) raws
      → All (λ raw. contains (trim raw) (x ∷ ys) ≡ true) raws
  unfolding contains
  found_after x ys [] m = tt
  found_after x ys (raw ∷ raws) m = (ground (arith, m.0), found_after x ys raws m.1)

  All-found : (raws : List String) → All (λ raw. contains (trim raw) (map trim raws) ≡ true) raws
  All-found [] = tt
  All-found (raw ∷ raws) = (
    first_found (trim raw) (map trim raws),
    found_after (trim raw) (map trim raws) raws (All-found raws),
  )

  All-blank : (raws : List String) → All (IsTaken []) raws → All (λ raw. trim raw ≡ "") raws
  unfolding contains
  All-blank [] t = tt
  All-blank (raw ∷ raws) t = (
    elim t.0 [
      | inl blank ↦ (string_key.same_iff (trim raw) "").0 blank
      | inr found ↦ absurd (ground (arith, found))
    ],
    All-blank raws t.1,
  )

  -- The ids are the default ones, for a list of blank ids, or the trimmed forms of the given ones.
  abbrev pub AreNormalized : List String → List String → Type 0
  AreNormalized raws ids =
      (All (λ raw. trim raw ≡ "") raws × (ids ≡ "A" ∷ "B" ∷ []))
      ⊎ ((0 < length ids) × All (IsTaken ids) raws × All (IsGiven raws) ids)

  of_collected :
      (raws ids : List String)
      → All (IsTaken ids) raws
      → All (IsGiven raws) ids
      → AreNormalized raws (if nat_beq (length ids) 0 then default_portfolio_ids else ids)
  of_collected raws [] taken given = inl (All-blank raws taken, refl)
  of_collected raws (id ∷ ids) taken given =
      let some_id : nat_beq (length (id ∷ ids)) 0 ≡ false = ground arith in
      rw some_id (inr (omega arith, taken, given))

  pub normalize_portfolio_ids-AreDistinct :
      (raws : List String) → AreDistinct (normalize_portfolio_ids raws)
  unfolding normalize_portfolio_ids contains
  normalize_portfolio_ids-AreDistinct raws =
      let distinct = collect_ids-AreDistinct [] raws tt in
      let default : AreDistinct default_portfolio_ids = (refl, (refl, tt)) in
      if_both AreDistinct (nat_beq (length (collect_ids [] raws)) 0) default_portfolio_ids
        (collect_ids [] raws) default distinct

  -- normalize_portfolio_ids returns distinct ids. If all given ids are blank, they are "A" and
  -- "B"; otherwise there is one at least, each is not empty and the trimmed form of a given one,
  -- and the trimmed form of each given one is among them unless it is empty.
  pub normalize_portfolio_ids_lem :
      (raws : List String)
      → AreDistinct (normalize_portfolio_ids raws)
        × AreNormalized raws (normalize_portfolio_ids raws)
  unfolding normalize_portfolio_ids
  normalize_portfolio_ids_lem raws = (
    normalize_portfolio_ids-AreDistinct raws,
    of_collected raws (collect_ids [] raws) (collect_ids_takes [] raws)
        (collect_ids_sound raws [] raws (All-found raws) tt),
  )
