-- ===== src/Portfolio/Active/Invariant.antt =====
-- The invariant of `assign_active_symbols_no_overlap`, and a symbol that becomes active.
use hft_lead_lag.Prelude.{
  ◌≤◌, ◌<◌, ◌≡◌, true, false, ◌⊎◌, inl, inr, String, List, [], ◌∷◌, ◌++◌, some, none, Option, arith,
  string_key, Bool-cases, length, length-append,
}
use hft_lead_lag.Prelude.Maps.{
  lookup, lookup-insert, contains, occurrences, occurrences-append, occurrences_of_absent,
  contains-append,
}
use hft_lead_lag.Portfolio.Shortlist.{Lists}
use hft_lead_lag.Portfolio.Shortlist.Counts.{total, total-insert}
use hft_lead_lag.Portfolio.Active.{Assigning, activate}
use hft_lead_lag.Portfolio.Active.Totals.{AreShort, length-insert, AreShort-insert}

abbrev pub or_empty : Option (List String) → List String
or_empty none = []
or_empty (some l) = l

-- A portfolio has a list, and takes it from its shortlist.
abbrev pub TakesFrom : Lists → Lists → String → Type 0
TakesFrom shortlists m id =
    (l : List String) × (lookup id m ≡ some l)
    × ((a : String) → contains a l ≡ true → contains a (or_empty (lookup id shortlists)) ≡ true)

pub record IsAssigned (shortlists : Lists) (ids : List String) (st : Assigning) : Type 0 where
  pub listed : (id : String) → contains id ids ≡ true → TakesFrom shortlists st.active_by_id id
  pub used : (a : String) → total a st.active_by_id ≡ occurrences a st.used_symbols
  pub once : (a : String) → occurrences a st.used_symbols ≤ 1
  pub short : AreShort st.active_by_id
  pub entries : length st.active_by_id ≤ length ids

-- A portfolio for which there is nothing left to do: it is full, or its shortlist is used up.
abbrev pub IsServed : Lists → Assigning → String → Type 0
IsServed shortlists st id =
    (l : List String) × (lookup id st.active_by_id ≡ some l)
    × ((length l ≡ 4)
        ⊎ ((a : String)
            → contains a (or_empty (lookup id shortlists)) ≡ true
            → contains a st.used_symbols ≡ true))

last_one :
    (a s : String) (l : List String)
    → contains a (l ++ s ∷ []) ≡ true
    → contains a l ≡ false
    → s ≡ a
unfolding contains
last_one a s l h new = ground (arith, contains-append a l (s ∷ []), string_key.same_iff s a)

module _ (shortlists : Lists) (ids : List String) (st : Assigning) (id s : String) (l : List String)
    (v : IsAssigned shortlists ids st) (found : lookup id st.active_by_id ≡ some l)
    (room : length l < 4) (fresh : contains s st.used_symbols ≡ false)
    (from_list : contains s (or_empty (lookup id shortlists)) ≡ true)
    (own : (a : String)
      → contains a l ≡ true
      → contains a (or_empty (lookup id shortlists)) ≡ true) where
  activate-listed :
      (k : String)
      → contains k ids ≡ true
      → TakesFrom shortlists (activate st id l s).active_by_id k
  activate-listed k hk = elim (Bool-cases (string_key.same id k)) [
    | inl same ↦
        let e : id ≡ k = (string_key.same_iff id k).0 same in
        (
          l ++ s ∷ [],
          rw (lookup-insert id k (l ++ s ∷ []) st.active_by_id, same),
          λ a h. rw (← e) (from_own a h),
        )
    | inr other ↦
        let old = v.listed k hk in
        (old.0, rw (lookup-insert id k (l ++ s ∷ []) st.active_by_id, other) old.1, old.2)
  ]
    where
      from_own :
          (a : String)
          → contains a (l ++ s ∷ []) ≡ true
          → contains a (or_empty (lookup id shortlists)) ≡ true
      from_own a h = elim (Bool-cases (contains a l)) [
        | inl old ↦ own a old
        | inr new ↦ let e : s ≡ a = last_one a s l h new in rw (← e) from_list
      ]

  pub activate-IsAssigned : IsAssigned shortlists ids (activate st id l s)
  unfolding occurrences
  activate-IsAssigned = record {
    listed = activate-listed;
    used = λ a. ground (
      arith,
      total-insert a id l (l ++ s ∷ []) st.active_by_id found,
      occurrences-append a l (s ∷ []),
      v.used a,
    );
    once = λ a.
        ground
          (arith, v.once a, string_key.same_iff s a, occurrences_of_absent s st.used_symbols fresh);
    short =
        AreShort-insert id (l ++ s ∷ []) st.active_by_id (omega (arith, length-append l (s ∷ [])))
          v.short;
    entries = omega (arith, length-insert id l (l ++ s ∷ []) st.active_by_id found, v.entries);
  }
