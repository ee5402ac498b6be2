-- ===== src/Portfolio/Active/Result.antt =====
-- What `assign_active_symbols_no_overlap` promises of its result.
use hft_lead_lag.Prelude.{
  ℕ, ◌*◌, ◌≤◌, ◌<◌, ◌≡◌, ◌≢◌, true, false, ◌⊎◌, inl, inr, String, List, [], ◌∷◌, some, arith,
  string_key, Bool-cases, length,
}
use hft_lead_lag.Prelude.Maps.{lookup, contains, occurrences}
use hft_lead_lag.Portfolio.Shortlist.{Lists, no_lists}
use hft_lead_lag.Portfolio.Shortlist.Counts.{total, total-no_lists, lookup-no_lists, two-le-total}
use hft_lead_lag.Portfolio.Shortlist.Overlap.{Among-self, occurrences_of_member}
use hft_lead_lag.Portfolio.Active.{Assigning, assign_active_symbols_no_overlap}
use hft_lead_lag.Portfolio.Active.Totals.{no_lists_start, short_of_lookup}
use hft_lead_lag.Portfolio.Active.Invariant.{or_empty, IsAssigned, IsServed}
use hft_lead_lag.Portfolio.Active.Rounds.{AllServed, assign_rounds-Finishes}

-- The active symbols of one portfolio are at most four of its shortlist, and there are four or all
-- symbols of its shortlist are active in some portfolio.
pub record IsFilled (shortlists m : Lists) (id : String) : Type 0 where
  pub active : List String
  pub found : lookup id m ≡ some active
  pub at_most_four : length active ≤ 4
  pub listed :
      (a : String) → contains a active ≡ true → contains a (or_empty (lookup id shortlists)) ≡ true
  pub full_or_used_up :
      (length active ≡ 4)
      ⊎ ((a : String) → contains a (or_empty (lookup id shortlists)) ≡ true → 0 < total a m)

IsServed-of_all :
    (shortlists : Lists) (st : Assigning) (ids : List String) (id : String)
    → contains id ids ≡ true
    → AllServed shortlists st ids
    → IsServed shortlists st id
unfolding contains
IsServed-of_all shortlists st [] id h a = absurd (cc)
IsServed-of_all shortlists st (k ∷ ids) id h a = elim (Bool-cases (string_key.same k id)) [
  | inl same ↦ let e : k ≡ id = (string_key.same_iff k id).0 same in rw (← e) (a.0)
  | inr other ↦ IsServed-of_all shortlists st ids id (ground arith) a.1
]

start-IsAssigned :
    (shortlists : Lists) (ids : List String)
    → IsAssigned shortlists ids
        (record { used_symbols = []; active_by_id = no_lists ids; progressed = false })
unfolding occurrences contains
start-IsAssigned shortlists ids = record {
  listed = λ id h. ([], lookup-no_lists id ids h, λ a i. cc);
  used = λ a. total-no_lists a ids;
  once = λ a. omega arith;
  short = (no_lists_start ids).0;
  entries = (no_lists_start ids).1;
}

filled :
    (shortlists : Lists) (ids : List String) (st : Assigning) (id : String)
    → contains id ids ≡ true
    → IsAssigned shortlists ids st
    → AllServed shortlists st ids
    → IsFilled shortlists st.active_by_id id
filled shortlists ids st id h v all =
    let (l, e, own) = v.listed id h in
    let (k, e', done) = IsServed-of_all shortlists st ids id h all in
    let same : k ≡ l = cc in
    record {
      active = l;
      found = e;
      at_most_four = short_of_lookup id l st.active_by_id v.short e;
      listed = own;
      full_or_used_up = elim done [
        | inl four ↦ inl (rw (← same) four)
        | inr used ↦
            inr (λ a i. omega (arith, v.used a, occurrences_of_member a st.used_symbols (used a i)))
      ];
    }

-- With fuel for more than four rounds for each id the loop of assign_active_symbols_no_overlap
-- ends without a panic. Each portfolio is filled from its own shortlist (at most four symbols, and
-- four or else its shortlist is used up), and no symbol is active twice.
pub active_symbols-IsFilled :
    (fuel : ℕ) (ids : List String) (shortlists : Lists)
    → length ids * 4 < fuel
    → (m : Lists) × (assign_active_symbols_no_overlap fuel ids shortlists ≡ some m)
      × ((id : String) → contains id ids ≡ true → IsFilled shortlists m id)
      × ((a : String) → total a m ≤ 1)
unfolding assign_active_symbols_no_overlap
active_symbols-IsFilled fuel ids shortlists enough =
    let (st, e, v, all) =
      assign_rounds-Finishes fuel shortlists ids
        (record { used_symbols = []; active_by_id = no_lists ids; progressed = false })
        (Among-self ids) (start-IsAssigned shortlists ids) (omega arith) in
    (
      st.active_by_id,
      rw e,
      (λ id h. filled shortlists ids st id h v all),
      (λ a. omega (arith, v.used a, v.once a)),
    )

-- No symbol is active in two portfolios.
pub active_symbols_disjoint :
    (fuel : ℕ) (ids : List String) (shortlists m : Lists) (p q : String) (l k : List String)
    (a : String)
    → length ids * 4 < fuel
    → assign_active_symbols_no_overlap fuel ids shortlists ≡ some m
    → p ≢ q
    → lookup p m ≡ some l
    → lookup q m ≡ some k
    → contains a l ≡ true
    → contains a k ≡ false
active_symbols_disjoint fuel ids shortlists m p q l k a enough e n hp hq i =
    elim (Bool-cases (contains a k)) [
      | inr absent ↦ absent
      | inl present ↦
          let (m', e', _, once) = active_symbols-IsFilled fuel ids shortlists enough in
          let same : m' ≡ m = cc in
          let once' : total a m ≤ 1 = rw (← same) (once a) in
          absurd (
            omega (
              arith,
              once',
              two-le-total a p q l k m n hp hq,
              occurrences_of_member a l i,
              occurrences_of_member a k present,
            ))
    ]
