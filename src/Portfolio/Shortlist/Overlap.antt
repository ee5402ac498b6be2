-- ===== src/Portfolio/Shortlist/Overlap.antt =====
-- What `build_shortlists_no_overlap` promises of its result.
use hft_lead_lag.Prelude.{
  ℕ, zero, suc, ◌*◌, ◌≤◌, ◌<◌, ◌≡◌, refl, ◌∙◌, ap, ◌≢◌, true, false, String, List, [], ◌∷◌, some,
  arith, string_key, inl, inr, Bool-cases, length, min, take, same_self,
}
use hft_lead_lag.Prelude.Maps.{lookup, contains, occurrences}
use hft_lead_lag.Portfolio.Shortlist.{Lists, no_lists, build_shortlists_no_overlap}
use hft_lead_lag.Portfolio.Shortlist.Counts.{total, total-no_lists, lookup-no_lists, two-le-total}
use hft_lead_lag.Portfolio.Shortlist.Deal.{IsDealt, Among, HasList}
use hft_lead_lag.Portfolio.Shortlist.Rounds.{AreDistinct, AllHave}
use hft_lead_lag.Portfolio.Shortlist.Total.{deal_rounds-Reaches}

-- Every id stands among the ids.
Among-cons : (k : String) (ks ids : List String) → Among ks ids → Among ks (k ∷ ids)
unfolding contains
Among-cons k [] ids h = tt
Among-cons k (j ∷ ks) ids h = (ground (arith, h.0), Among-cons k ks ids h.1)

pub Among-self : (ids : List String) → Among ids ids
unfolding contains
Among-self [] = tt
Among-self (k ∷ ks) = (rw (same_self k), Among-cons k ks ks (Among-self ks))

-- At first every id has the empty list.
AllHave-no_lists : (ids ks : List String) → Among ks ids → AllHave (no_lists ids) 0 ks
AllHave-no_lists ids [] h = tt
AllHave-no_lists ids (k ∷ ks) h =
    (([], lookup-no_lists k ids h.0, refl), AllHave-no_lists ids ks h.1)

IsDealt-no_lists : (ids pool : List String) → IsDealt ids pool (no_lists ids) 0
unfolding occurrences
IsDealt-no_lists ids pool = record {
  listed = λ id h. ([], lookup-no_lists id ids h, omega arith);
  within = omega arith;
  dealt = λ a. total-no_lists a ids;
}

no_symbols : (a : String) (n : ℕ) → 0 ≡ occurrences a (take n [])
unfolding occurrences
no_symbols a zero = refl
no_symbols a (suc n) = refl

-- How much of a pool fits into the shortlists.
abbrev pub capacity : List String → List String → ℕ
capacity ids pool = min (length pool) (5 * length ids)

-- For distinct portfolio ids build_shortlists_no_overlap does not panic. Each id gets a shortlist
-- of at most five symbols, and together the shortlists hold each symbol exactly as often as the
-- best candidates of the pool do, as many of them as five for each id.
pub shortlists_of_best :
    (ids pool : List String)
    → AreDistinct ids
    → (m : Lists) × (build_shortlists_no_overlap ids pool ≡ some m)
      × ((id : String) → contains id ids ≡ true → HasList m id)
      × ((a : String) → total a m ≡ occurrences a (take (capacity ids pool) pool))
unfolding build_shortlists_no_overlap
shortlists_of_best ids [] d =
    let z = IsDealt-no_lists ids [] in
    (no_lists ids, refl, z.listed, λ a. total-no_lists a ids ∙ no_symbols a (capacity ids []))
shortlists_of_best ids (x ∷ pool) d =
    let (st, e, dealt, c) =
      deal_rounds-Reaches 5 (x ∷ pool) ids 0
        (record { shortlist_by_id = no_lists ids; cursor = 0; progressed = false }) d
        (Among-self ids) (omega arith) (AllHave-no_lists ids ids (Among-self ids))
        (IsDealt-no_lists ids (x ∷ pool)) in
    (
      st.shortlist_by_id,
      ground (arith, e),
      dealt.listed,
      λ a. dealt.dealt a ∙ ap (λ n. occurrences a (take n (x ∷ pool))) (omega (arith, c)),
    )

pub occurrences-take-le :
    (a : String) (n : ℕ) (pool : List String) → occurrences a (take n pool) ≤ occurrences a pool
unfolding occurrences
occurrences-take-le a zero pool = omega arith
occurrences-take-le a (suc n) [] = omega arith
occurrences-take-le a (suc n) (x ∷ pool) = ground (arith, occurrences-take-le a n pool)

pub occurrences_of_member :
    (a : String) (l : List String) → contains a l ≡ true → 0 < occurrences a l
unfolding occurrences contains
occurrences_of_member a [] h = cc
occurrences_of_member a (x ∷ l) h = ground (arith, occurrences_of_member a l)

-- For distinct portfolio ids and a pool of distinct symbols, no symbol stands on the shortlists of
-- two portfolios.
pub shortlists_disjoint :
    (ids pool : List String) (m : Lists) (p q : String) (l k : List String) (a : String)
    → AreDistinct ids
    → ((b : String) → occurrences b pool ≤ 1)
    → build_shortlists_no_overlap ids pool ≡ some m
    → p ≢ q
    → lookup p m ≡ some l
    → lookup q m ≡ some k
    → contains a l ≡ true
    → contains a k ≡ false
shortlists_disjoint ids pool m p q l k a d once built n hp hq inl_l =
    elim (Bool-cases (contains a k)) [
      | inr absent ↦ absent
      | inl present ↦
          let (m', e, _, t) = shortlists_of_best ids pool d in
          let same : m' ≡ m = cc in
          let t' : total a m ≡ occurrences a (take (capacity ids pool) pool) = rw (← same) (t a) in
          absurd (
            omega (
              arith,
              t',
              once a,
              occurrences-take-le a (capacity ids pool) pool,
              two-le-total a p q l k m n hp hq,
              occurrences_of_member a l inl_l,
              occurrences_of_member a k present,
            ))
    ]
