-- ===== src/Portfolio/Shortlist/Total.antt =====
-- The shortlists of `build_shortlists_no_overlap`: it returns, and deals as much of the pool as the
-- portfolios can hold.
use hft_lead_lag.Prelude.{
  ℕ, zero, suc, ◌+◌, ◌*◌, ◌≤◌, ◌≡◌, refl, sym, ◌∙◌, ap, subst, Bool, true, false, String, List, [],
  ◌∷◌, some, Option, arith, string_key, if◌then◌else◌, inl, inr, Bool-cases, Option-cases, length,
  leb, min, get_elem?,
}
use hft_lead_lag.Prelude.Maps.{lookup}
use hft_lead_lag.Portfolio.Shortlist.{Dealing, deal_one, deal_round, deal_rounds}
use hft_lead_lag.Portfolio.Shortlist.Deal.{IsDealt, Among, deal_round-Deals}
use hft_lead_lag.Portfolio.Shortlist.Rounds.{
  AreDistinct, AllHave, RoundOutcome, deal_round-Advances,
}

-- A round never takes the cursor back.
deal_round_mono :
    (pool todo : List String) (st st' : Dealing)
    → deal_round pool todo st ≡ some st'
    → st.cursor ≤ st'.cursor
unfolding deal_round
deal_round_mono pool [] st st' e = ground arith
deal_round_mono pool (id ∷ todo) st st' e = elim (Option-cases (lookup id st.shortlist_by_id)) [
  | inl missing ↦ absurd (ground arith)
  | inr (l, found) ↦ elim (Option-cases (get_elem? pool st.cursor)) [
    | inl out ↦ ground (arith, deal_round_mono pool todo st st')
    | inr (s, next) ↦ ground (
      arith,
      deal_round_mono pool todo st st',
      deal_round_mono pool todo (deal_one st id l s) st',
    )
  ]
]

-- `Deals` for the whole loop.
pub deal_rounds-Deals :
    (n : ℕ) (ids pool : List String) (st : Dealing)
    → Among ids ids
    → IsDealt ids pool st.shortlist_by_id st.cursor
    → (st' : Dealing) × (deal_rounds n pool ids st ≡ some st')
      × IsDealt ids pool st'.shortlist_by_id st'.cursor
      × (st.cursor ≤ st'.cursor)
unfolding deal_rounds
deal_rounds-Deals zero ids pool st h d = (st, refl, d, omega arith)
deal_rounds-Deals (suc n) ids pool st h d =
    let once = deal_round-Deals ids pool ids (record st { progressed = false }) h d in
    let grows = deal_round_mono pool ids (record st { progressed = false }) once.0 once.1 in
    elim (Bool-cases once.0.progressed) [
      | inr stopped ↦ (once.0, rw (once.1, deal_rounds, stopped), once.2, grows)
      | inl more ↦
          let rest = deal_rounds-Deals n ids pool once.0 h once.2 in
          (rest.0, rw (once.1, deal_rounds, more) rest.1, rest.2, omega (arith, rest.3))
    ]

some-eq {ℓ} : {A : Type ℓ} (a b : A) {o : Option A} → o ≡ some a → o ≡ some b → a ≡ b
some-eq a b p q = cc

-- What `n` rounds from `st` reach: the end of the pool, or `n` symbols for each id.
abbrev pub Reaches : ℕ → List String → List String → Dealing → Type 0
Reaches n pool ids st =
    (st' : Dealing) × (deal_rounds n pool ids st ≡ some st')
    × IsDealt ids pool st'.shortlist_by_id st'.cursor
    × (st'.cursor ≡ min (length pool) (st.cursor + n * length ids))

-- A round that moved nothing had no ids, or stood at the end of the pool.
idle_end : (n k len c : ℕ) → c ≡ min len (c + k) → c ≡ min len (c + suc n * k)
idle_end n zero len c e = grind arith
idle_end n (suc k) len c e = omega arith

abbrev begin : Dealing → Dealing
begin st = record st { progressed = false }

deal_rounds-suc :
    (n : ℕ) (pool ids : List String) (st one : Dealing) (more : Bool)
    → deal_round pool ids (begin st) ≡ some one
    → one.progressed ≡ more
    → deal_rounds (suc n) pool ids st ≡ (if more then deal_rounds n pool ids one else some one)
unfolding deal_rounds
deal_rounds-suc n pool ids st one more e p =
    rw (e, deal_rounds) (ap (λ b. if b then deal_rounds n pool ids one else some one) p)

round_then :
    (n : ℕ) (pool ids : List String) (r : ℕ) (st one : Dealing)
    → Among ids ids
    → deal_round pool ids (begin st) ≡ some one
    → RoundOutcome pool ids r (begin st) one
    → IsDealt ids pool one.shortlist_by_id one.cursor
    → (AllHave one.shortlist_by_id (suc r) ids → Reaches n pool ids one)
    → Reaches (suc n) pool ids st
unfolding deal_rounds
round_then n pool ids r st one am e o c ih = elim (Bool-cases one.progressed) [
  | inr stopped ↦ (
    one,
    deal_rounds-suc n pool ids st one false e stopped,
    c,
    rw (o.idle stopped)
        (idle_end n (length ids) (length pool) st.cursor (sym (o.idle stopped) ∙ o.cursor)),
  )
  | inl more ↦ elim (Bool-cases (leb (length pool) one.cursor)) [
    | inl over ↦
        let rest = deal_rounds-Deals n ids pool one am c in
        (
          rest.0,
          deal_rounds-suc n pool ids st one true e more ∙ rest.1,
          rest.2,
          at_end rest.0.cursor (ground arith) rest.2.within rest.3,
        )
    | inr inside ↦
        let rest = ih (o.level (ground arith)) in
        (
          rest.0,
          deal_rounds-suc n pool ids st one true e more ∙ rest.1,
          rest.2,
          omega (arith, rest.3, o.cursor),
        )
  ]
]
  where
    at_end :
        (k : ℕ)
        → length pool ≤ one.cursor
        → k ≤ length pool
        → one.cursor ≤ k
        → k ≡ min (length pool) (st.cursor + suc n * length ids)
    at_end k over within grows = omega (arith, o.cursor)

pub deal_rounds-Reaches :
    (n : ℕ) (pool ids : List String) (r : ℕ) (st : Dealing)
    → AreDistinct ids
    → Among ids ids
    → n + r ≤ 5
    → AllHave st.shortlist_by_id r ids
    → IsDealt ids pool st.shortlist_by_id st.cursor
    → Reaches n pool ids st
unfolding deal_rounds
deal_rounds-Reaches zero pool ids r st d am h a c = (st, refl, c, omega (arith, c.within))
deal_rounds-Reaches (suc n) pool ids r st d am h a c =
    let (one, e, o) = deal_round-Advances pool ids r (begin st) d (omega arith) a c.within in
    let (two, f, c') = deal_round-Deals ids pool ids (begin st) am c in
    let c'' : IsDealt ids pool one.shortlist_by_id one.cursor =
      subst (λ (x : Dealing). IsDealt ids pool x.shortlist_by_id x.cursor) (some-eq two one f e)
        c' in
    round_then n pool ids r st one am e o c''
      (λ a'. deal_rounds-Reaches n pool ids (suc r) one d am (omega arith) a' c'')
