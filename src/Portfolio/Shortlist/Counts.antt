-- ===== src/Portfolio/Shortlist/Counts.antt =====
-- How often a symbol stands in the lists of all portfolios together.
use hft_lead_lag.Prelude.{
  ℕ, ◌+◌, ◌≤◌, ◌≡◌, refl, ◌≢◌, true, String, List, [], ◌∷◌, some, arith, string_key,
}
use hft_lead_lag.Prelude.Maps.{lookup, insert, lookup-insert, contains, occurrences}
use hft_lead_lag.Portfolio.Shortlist.{Lists, no_lists}

unfoldable pub total : String → Lists → ℕ
total a [] = 0
total a ((id, l) ∷ m) = occurrences a l + total a m

-- Replacing the list of one portfolio changes the total by that list.
pub total-insert :
    (a id : String) (l l' : List String) (m : Lists)
    → lookup id m ≡ some l
    → total a (insert id l' m) + occurrences a l ≡ total a m + occurrences a l'
unfolding total lookup insert
total-insert a id l l' [] h = cc
total-insert a id l l' ((j, k) ∷ m) h = ground (arith, total-insert a id l l' m)

total-insert_new : (a id : String) (m : Lists) → total a (insert id [] m) ≤ total a m
unfolding total insert occurrences
total-insert_new a id [] = omega arith
total-insert_new a id ((j, k) ∷ m) = ground (arith, total-insert_new a id m)

pub total-no_lists : (a : String) (ids : List String) → total a (no_lists ids) ≡ 0
unfolding no_lists total
total-no_lists a [] = refl
total-no_lists a (id ∷ ids) =
    omega (arith, total-insert_new a id (no_lists ids), total-no_lists a ids)

pub lookup-no_lists :
    (id : String) (ids : List String) → contains id ids ≡ true → lookup id (no_lists ids) ≡ some []
unfolding no_lists contains
lookup-no_lists id [] h = cc
lookup-no_lists id (k ∷ ids) h =
    ground (arith, lookup-insert k id [] (no_lists ids), lookup-no_lists id ids)

-- The list of one portfolio is part of the total, and those of two portfolios are disjoint parts.
pub occurrences-le-total :
    (a id : String) (l : List String) (m : Lists)
    → lookup id m ≡ some l
    → occurrences a l ≤ total a m
unfolding total lookup
occurrences-le-total a id l [] h = cc
occurrences-le-total a id l ((j, k) ∷ m) h = ground (arith, occurrences-le-total a id l m)

pub two-le-total :
    (a p q : String) (l k : List String) (m : Lists)
    → p ≢ q
    → lookup p m ≡ some l
    → lookup q m ≡ some k
    → occurrences a l + occurrences a k ≤ total a m
unfolding total lookup
two-le-total a p q l k [] n h i = cc
two-le-total a p q l k ((j, v) ∷ m) n h i = ground (
  arith,
  string_key.same_iff j p,
  string_key.same_iff j q,
  two-le-total a p q l k m n,
  occurrences-le-total a p l m,
  occurrences-le-total a q k m,
)
