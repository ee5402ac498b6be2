-- ===== src/Portfolio/Shortlist/Deal.antt =====
-- Dealing never panics, and gives each symbol of the pool to at most one portfolio.
use hft_lead_lag.Prelude.{
  ℕ, zero, suc, ◌+◌, ◌≤◌, ◌<◌, ◌≡◌, refl, true, String, List, [], ◌∷◌, ◌++◌, some, Option, arith,
  string_key, inl, inr, Bool-cases, length, length-append, take, get_elem?, leb,
}
use hft_lead_lag.Prelude.Maps.{lookup, lookup-insert, contains, occurrences, occurrences-append}
use hft_lead_lag.Portfolio.Shortlist.{Lists, Dealing, deal_one, deal_round}
use hft_lead_lag.Portfolio.Shortlist.Counts.{total, total-insert}

-- The next symbol of a pool, if the cursor stands inside it.
pub next_symbol :
    (pool : List String) (c : ℕ) → c < length pool → (s : String) × (get_elem? pool c ≡ some s)
next_symbol [] c h = absurd (omega arith)
next_symbol (x ∷ xs) zero h = (x, refl)
next_symbol (x ∷ xs) (suc c) h = next_symbol xs c (omega arith)

occurrences-take_suc :
    (a s : String) (pool : List String) (c : ℕ)
    → get_elem? pool c ≡ some s
    → occurrences a (take (c + 1) pool) ≡ occurrences a (take c pool) + occurrences a (s ∷ [])
unfolding occurrences
occurrences-take_suc a s [] c h = cc
occurrences-take_suc a s (x ∷ xs) zero h = ground arith
occurrences-take_suc a s (x ∷ xs) (suc c) h =
    let e : suc c + 1 ≡ suc (c + 1) = omega arith in
    rw e (ground (arith, occurrences-take_suc a s xs c h))

-- The list of a portfolio that takes part.
abbrev pub HasList : Lists → String → Type 0
HasList m id = (l : List String) × (lookup id m ≡ some l) × (length l ≤ 5)

pub record IsDealt (ids pool : List String) (m : Lists) (cursor : ℕ) : Type 0 where
  pub listed : (id : String) → contains id ids ≡ true → HasList m id
  pub within : cursor ≤ length pool
  pub dealt : (a : String) → total a m ≡ occurrences a (take cursor pool)

-- One symbol more for one portfolio.
deal_one-IsDealt :
    (ids pool : List String) (st : Dealing) (id s : String) (l : List String)
    → IsDealt ids pool st.shortlist_by_id st.cursor
    → lookup id st.shortlist_by_id ≡ some l
    → length l < 5
    → st.cursor < length pool
    → get_elem? pool st.cursor ≡ some s
    → IsDealt ids pool (deal_one st id l s).shortlist_by_id (deal_one st id l s).cursor
deal_one-IsDealt ids pool st id s l d h short inside g = record {
  listed = λ k hk. elim (Bool-cases (string_key.same id k)) [
    | inl same ↦ (
      l ++ s ∷ [],
      rw (lookup-insert id k (l ++ s ∷ []) st.shortlist_by_id, same),
      omega (arith, length-append l (s ∷ [])),
    )
    | inr other ↦
        let old = d.listed k hk in
        (old.0, rw (lookup-insert id k (l ++ s ∷ []) st.shortlist_by_id, other) old.1, old.2)
  ];
  within = omega arith;
  dealt = λ a. omega (
    arith,
    total-insert a id l (l ++ s ∷ []) st.shortlist_by_id h,
    occurrences-append a l (s ∷ []),
    d.dealt a,
    occurrences-take_suc a s pool st.cursor g,
  );
}

-- A loop returns, and what it returns is dealt.
abbrev pub Deals : List String → List String → Option Dealing → Type 0
Deals ids pool r = (st : Dealing) × (r ≡ some st) × IsDealt ids pool st.shortlist_by_id st.cursor

abbrev pub Among : List String → List String → Type 0
Among [] ids = Unit {0}
Among (k ∷ ks) ids = (contains k ids ≡ true) × Among ks ids

pub deal_round-Deals :
    (ids pool : List String) (todo : List String) (st : Dealing)
    → Among todo ids
    → IsDealt ids pool st.shortlist_by_id st.cursor
    → Deals ids pool (deal_round pool todo st)
unfolding deal_round
deal_round-Deals ids pool [] st h d = (st, refl, d)
deal_round-Deals ids pool (id ∷ todo) st h d = elim (Bool-cases (leb 5 (length l))) [
  | inl full ↦
      let r = deal_round-Deals ids pool todo st h.1 d in (r.0, rw (e, deal_round, full) r.1, r.2)
  | inr room ↦ elim (Bool-cases (leb (length pool) st.cursor)) [
    | inl over ↦ (st, rw (e, deal_round, room, over), d)
    | inr inside ↦
        let (s, g) = next_symbol pool st.cursor (ground arith) in
        let r =
          deal_round-Deals ids pool todo (deal_one st id l s) h.1
            (deal_one-IsDealt ids pool st id s l d e (ground arith) (ground arith) g) in
        (r.0, rw (e, deal_round, room, inside, g) r.1, r.2)
  ]
]
  where
    l : List String
    l = (d.listed id h.0).0

    e : lookup id st.shortlist_by_id ≡ some l
    e = (d.listed id h.0).1
