-- ===== src/Prelude/Texts.antt =====
-- `Ord` of strings orders them: `compare` of the native strings, character by character.
use Prim.Native.Nat.{Ordering}
use Prim.Native.String.compare as compare_clauses
use Prim.Native.String.{String, [], ◌∷◌, compare as compare_str}
use mathlib.Core.Path.{◌≡◌, sym, ap, ◌∙◌}
use native.Mathlib.Omega.{arith}
use text.Mathlib.TextEquality.{path_by_compare}
use hft_lead_lag.Prelude.Float.{reverse_order}
use hft_lead_lag.Prelude.Ordering.{IsOrdering}

swaps : (s t : String) → compare_str t s ≡ reverse_order (compare_str s t)
swaps [] [] = compare_clauses.nil-nil ∙ ap reverse_order (sym compare_clauses.nil-nil)
swaps [] (d ∷ t) =
    compare_clauses.cons-nil d t ∙ ap reverse_order (sym (compare_clauses.nil-cons d t))
swaps (c ∷ s) [] =
    compare_clauses.nil-cons c s ∙ ap reverse_order (sym (compare_clauses.cons-nil c s))
swaps (c ∷ s) (d ∷ t) =
    ground (arith, compare_clauses.cons-cons c d s t, compare_clauses.cons-cons d c t s, swaps s t)

transitive :
    (s t u : String)
    → compare_str s t ≡ Ordering.lt
    → compare_str t u ≡ Ordering.lt
    → compare_str s u ≡ Ordering.lt
transitive [] [] [] h k = absurd (ground (arith, compare_clauses.nil-nil, h))
transitive [] (d ∷ t) [] h k = absurd (ground (arith, compare_clauses.cons-nil d t, k))
transitive [] t (e ∷ u) h k = compare_clauses.nil-cons e u
transitive (c ∷ s) [] u h k = absurd (ground (arith, compare_clauses.cons-nil c s, h))
transitive (c ∷ s) (d ∷ t) [] h k = absurd (ground (arith, compare_clauses.cons-nil d t, k))
transitive (c ∷ s) (d ∷ t) (e ∷ u) h k = ground (
  arith,
  compare_clauses.cons-cons c d s t,
  compare_clauses.cons-cons d e t u,
  compare_clauses.cons-cons c e s u,
  transitive s t u,
)

pub compare_str-IsOrdering : IsOrdering compare_str
compare_str-IsOrdering = record {
  swaps = swaps;
  alike = λ s t u h. ap (λ v. compare_str v u) (path_by_compare s t h);
  transitive = transitive;
}
