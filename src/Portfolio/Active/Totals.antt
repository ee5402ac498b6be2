-- ===== src/Portfolio/Active/Totals.antt =====
-- The state of `assign_active_symbols_no_overlap` between two portfolios: what holds of it, and how
-- many symbols it has made active.
use hft_lead_lag.Prelude.{
  ℕ, ◌+◌, ◌*◌, ◌≤◌, ◌≡◌, true, false, inl, inr, String, List, [], ◌∷◌, some, none, arith,
  string_key, Bool-cases, length, same_self,
}
use hft_lead_lag.Prelude.Maps.{lookup, insert, contains}
use hft_lead_lag.Portfolio.Shortlist.{Lists, no_lists}
use hft_lead_lag.Portfolio.Active.{find_unused}

-- All symbols of all portfolios.
unfoldable pub size : Lists → ℕ
size [] = 0
size ((id, l) ∷ m) = length l + size m

abbrev pub AreShort : Lists → Type 0
AreShort [] = Unit {0}
AreShort ((id, l) ∷ m) = (length l ≤ 4) × AreShort m

pub size-le : (m : Lists) → AreShort m → size m ≤ length m * 4
unfolding size
size-le [] h = omega arith
size-le ((id, l) ∷ m) h = omega (arith, size-le m h.1)

pub size-insert :
    (id : String) (l l' : List String) (m : Lists)
    → lookup id m ≡ some l
    → size (insert id l' m) + length l ≡ size m + length l'
unfolding size lookup insert
size-insert id l l' [] h = cc
size-insert id l l' ((j, k) ∷ m) h = ground (arith, size-insert id l l' m)

pub length-insert :
    (id : String) (l l' : List String) (m : Lists)
    → lookup id m ≡ some l
    → length (insert id l' m) ≡ length m
unfolding lookup insert
length-insert id l l' [] h = cc
length-insert id l l' ((j, k) ∷ m) h = ground (arith, length-insert id l l' m)

pub AreShort-insert :
    (id : String) (l : List String) (m : Lists)
    → length l ≤ 4
    → AreShort m
    → AreShort (insert id l m)
unfolding insert
AreShort-insert id l [] h s = (h, tt)
AreShort-insert id l ((j, k) ∷ m) h s = elim (Bool-cases (string_key.same j id)) [
  | inl same ↦ rw same (h, s.1)
  | inr other ↦ rw other (s.0, AreShort-insert id l m h s.1)
]

pub short_of_lookup :
    (id : String) (l : List String) (m : Lists) → AreShort m → lookup id m ≡ some l → length l ≤ 4
unfolding lookup
short_of_lookup id l [] s h = cc
short_of_lookup id l ((j, k) ∷ m) s h = ground (arith, short_of_lookup id l m s.1)

length-insert-le : (id : String) (m : Lists) → length (insert id [] m) ≤ length m + 1
unfolding insert
length-insert-le id [] = omega arith
length-insert-le id ((j, k) ∷ m) = ground (arith, length-insert-le id m)

pub no_lists_start :
    (ids : List String) → AreShort (no_lists ids) × (length (no_lists ids) ≤ length ids)
unfolding no_lists
no_lists_start [] = (tt, omega arith)
no_lists_start (id ∷ ids) = (
  AreShort-insert id [] (no_lists ids) (omega arith) (no_lists_start ids).0,
  omega (arith, length-insert-le id (no_lists ids), (no_lists_start ids).1),
)

-- `find` returns the first symbol that is not used, and nothing only if all are used.
pub find_unused-some :
    (used l : List String) (s : String)
    → find_unused used l ≡ some s
    → (contains s used ≡ false) × (contains s l ≡ true)
unfolding find_unused contains
find_unused-some used [] s h = cc
find_unused-some used (x ∷ l) s h = elim (Bool-cases (contains x used)) [
  | inl taken ↦ ground (arith, find_unused-some used l s)
  | inr free ↦ ground (arith, same_self x)
]

pub find_unused-none :
    (used l : List String) (a : String)
    → find_unused used l ≡ none
    → contains a l ≡ true
    → contains a used ≡ true
unfolding find_unused contains
find_unused-none used [] a h i = cc
find_unused-none used (x ∷ l) a h i =
    ground (arith, find_unused-none used l a, string_key.same_iff x a)
