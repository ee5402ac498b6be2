-- ===== src/Prelude/Maps.antt =====
-- Maps (`HashMap`, `BTreeMap`, `HashSet`) as association lists, and how often a key stands in a list.
use Prim.Native.Nat.{ℕ, suc, ◌+◌}
use mathlib.Core.Path.{◌≡◌, refl}
use mathlib.Core.Bool.{Bool, false, ◌||◌}
use mathlib.Core.Option.{Option, none, some}
use mathlib.Core.List.{List, [], ◌∷◌, ◌++◌}
use native.Mathlib.Omega.{arith}
use hft_lead_lag.Prelude.Tests.{Key, ◌==◌, if◌then◌else◌}

module _ {ℓ κ} {K : Type ℓ} {V : Type κ} ⦃key : Key K⦄ where
  unfoldable pub lookup : K → List (K × V) → Option V
  lookup wanted [] = none
  lookup wanted ((k, v) ∷ rest) = if k == wanted then some v else lookup wanted rest

  -- The value of a key that is there is replaced in its place.
  unfoldable pub insert : K → V → List (K × V) → List (K × V)
  insert k new [] = (k, new) ∷ []
  insert k new ((other, old) ∷ rest) =
      if other == k then (k, new) ∷ rest else (other, old) ∷ insert k new rest

  pub lookup-insert :
      (k wanted : K) (new : V) (m : List (K × V))
      → lookup wanted (insert k new m) ≡ (if k == wanted then some new else lookup wanted m)
  unfolding lookup insert
  lookup-insert k wanted new [] = refl
  lookup-insert k wanted new ((other, old) ∷ rest) = ground (
    arith,
    lookup-insert k wanted new rest,
    key.same_iff other wanted,
    key.same_iff k wanted,
    key.same_iff other k,
  )

module _ {ℓ} {K : Type ℓ} ⦃key : Key K⦄ where
  unfoldable pub contains : K → List K → Bool
  contains k [] = false
  contains k (j ∷ js) = j == k || contains k js

  unfoldable pub occurrences : K → List K → ℕ
  occurrences k [] = 0
  occurrences k (j ∷ js) = if j == k then suc (occurrences k js) else occurrences k js

  pub occurrences-append :
      (k : K) (xs ys : List K) → occurrences k (xs ++ ys) ≡ occurrences k xs + occurrences k ys
  unfolding occurrences
  occurrences-append k [] ys = omega arith
  occurrences-append k (x ∷ xs) ys = ground (arith, occurrences-append k xs ys)

  pub occurrences_of_absent : (k : K) (xs : List K) → contains k xs ≡ false → occurrences k xs ≡ 0
  unfolding occurrences contains
  occurrences_of_absent k [] h = refl
  occurrences_of_absent k (x ∷ xs) h = ground (arith, occurrences_of_absent k xs)

  pub contains-append :
      (k : K) (xs ys : List K) → contains k (xs ++ ys) ≡ contains k xs || contains k ys
  unfolding contains
  contains-append k [] ys = refl
  contains-append k (x ∷ xs) ys = ground (arith, contains-append k xs ys)
