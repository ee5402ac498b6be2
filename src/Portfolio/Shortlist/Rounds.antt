-- ===== src/Portfolio/Shortlist/Rounds.antt =====
-- How much of the pool the rounds of `build_shortlists_no_overlap` deal, where the ids are distinct.
use hft_lead_lag.Prelude.{
  ℕ, suc, ◌+◌, ◌≤◌, ◌<◌, ◌≡◌, refl, ◌∙◌, Bool, true, false, String, List, [], ◌∷◌, ◌++◌, some,
  arith, string_key, inl, inr, Bool-cases, same_self, length, length-append, leb, min,
}
use hft_lead_lag.Prelude.Maps.{lookup, insert, lookup-insert, contains}
use hft_lead_lag.Portfolio.Shortlist.{Lists, Dealing, deal_one, deal_round}
use hft_lead_lag.Portfolio.Shortlist.Deal.{next_symbol}

abbrev pub AreDistinct : List String → Type 0
AreDistinct [] = Unit {0}
AreDistinct (k ∷ ks) = (contains k ks ≡ false) × AreDistinct ks

-- The list of `id` has `r` symbols.
abbrev pub HasLength : Lists → ℕ → String → Type 0
HasLength m r id = (l : List String) × (lookup id m ≡ some l) × (length l ≡ r)

abbrev pub AllHave : Lists → ℕ → List String → Type 0
AllHave m r [] = Unit {0}
AllHave m r (k ∷ ks) = HasLength m r k × AllHave m r ks

-- A portfolio that is served leaves the lists of the others alone.
AllHave-insert :
    (m : Lists) (r : ℕ) (id : String) (l : List String) (ks : List String)
    → contains id ks ≡ false
    → AllHave m r ks
    → AllHave (insert id l m) r ks
unfolding contains
AllHave-insert m r id l [] n h = tt
AllHave-insert m r id l (k ∷ ks) n h = (
  (
    h.0.0,
    ground (arith, lookup-insert id k l m, string_key.same_iff id k, string_key.same_iff k id),
    h.0.2,
  ),
  AllHave-insert m r id l ks (ground arith) h.1,
)

-- What one round does from level `r`.
pub record RoundOutcome (pool todo : List String) (r : ℕ) (st st' : Dealing) : Type 0 where
  pub cursor : st'.cursor ≡ min (length pool) (st.cursor + length todo)
  pub idle : st'.progressed ≡ false → st'.cursor ≡ st.cursor
  pub moved : (st.progressed ≡ true) → st'.progressed ≡ true
  pub level : st'.cursor < length pool → AllHave st'.shortlist_by_id (suc r) todo
  pub others :
      (k : String)
      → contains k todo ≡ false
      → lookup k st'.shortlist_by_id ≡ lookup k st.shortlist_by_id

abbrev pub Advances : List String → List String → ℕ → Dealing → Type 0
Advances pool todo r st =
    (st' : Dealing) × (deal_round pool todo st ≡ some st') × RoundOutcome pool todo r st st'

pub deal_round-Advances :
    (pool todo : List String) (r : ℕ) (st : Dealing)
    → AreDistinct todo
    → r < 5
    → AllHave st.shortlist_by_id r todo
    → st.cursor ≤ length pool
    → Advances pool todo r st
unfolding deal_round
deal_round-Advances pool [] r st n h a c = (
  st,
  refl,
  record {
    cursor = omega arith;
    idle = λ _. refl;
    moved = λ p. p;
    level = λ _. tt;
    others = λ k _. refl;
  },
)
deal_round-Advances pool (id ∷ todo) r st n h a c =
    elim (Bool-cases (leb (length pool) st.cursor)) [
      | inl over ↦ (
        st,
        rw (a.0.1, deal_round, room, over),
        record {
          cursor = ground arith;
          idle = λ _. refl;
          moved = λ p. p;
          level = λ lt. absurd (ground arith);
          others = λ k _. refl;
        },
      )
      | inr inside ↦
          let (s, g) = next_symbol pool st.cursor (ground arith) in
          let next = deal_one st id l s in
          let rest =
            deal_round-Advances pool todo r next n.1 h
              (AllHave-insert st.shortlist_by_id r id (l ++ s ∷ []) todo n.0 a.1) (ground arith) in
          (
            rest.0,
            rw (a.0.1, deal_round, room, inside, g) rest.1,
            record {
              cursor = omega (arith, rest.2.cursor);
              idle = λ stopped. absurd (clash (rest.2.moved refl) stopped);
              moved = λ _. rest.2.moved refl;
              level = λ lt. (
                (
                  l ++ s ∷ [],
                  rest.2.others id n.0
                      ∙ rw (lookup-insert id id (l ++ s ∷ []) st.shortlist_by_id, same_self id),
                  omega (arith, length-append l (s ∷ []), a.0.2),
                ),
                rest.2.level lt,
              );
              others = λ k nk.
                  rest.2.others k (absent k nk)
                  ∙ rw (lookup-insert id k (l ++ s ∷ []) st.shortlist_by_id, differs k nk);
            },
          )
    ]
  where
    l : List String
    l = a.0.0

    room : leb 5 (length l) ≡ false
    room = ground (arith, a.0.2)

    clash : {b : Bool} → b ≡ true → b ≡ false → ⊥
    clash p q = cc

    absent : (k : String) → contains k (id ∷ todo) ≡ false → contains k todo ≡ false
    absent k nk = unfold contains in ground arith

    differs : (k : String) → contains k (id ∷ todo) ≡ false → string_key.same id k ≡ false
    differs k nk = unfold contains in ground arith
