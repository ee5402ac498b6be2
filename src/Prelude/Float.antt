-- ===== src/Prelude/Float.antt =====
-- `f64` as a parameter: the operations that the program uses, and the documented behaviour of its
-- comparisons as a separate record of laws.
use Prim.Native.Nat.{ℕ, Ordering}
use mathlib.Core.Path.{◌≡◌}
use mathlib.Core.Bool.{Bool, true, false, ◌||◌}
use mathlib.Core.Option.{Option, none, some}
use mathlib.Core.List.{List}
use hft_lead_lag.Prelude.Int.{ℤ}

-- `Ordering::reverse` and `Ordering::then_with`.
abbrev pub reverse_order : Ordering → Ordering
reverse_order Ordering.lt = Ordering.gt
reverse_order Ordering.eq = Ordering.eq
reverse_order Ordering.gt = Ordering.lt

abbrev pub then_with : Ordering → Ordering → Ordering
then_with Ordering.eq o = o
then_with Ordering.lt o = Ordering.lt
then_with Ordering.gt o = Ordering.gt

-- `F` is `f64`; `ratio n d` is the literal or constant `n / d`, `sum` is `Iterator::sum`.
pub record Float64 : Type 1 where
  pub F : Type 0
  pub ratio : ℕ → ℕ → F
  pub neg_infinity : F
  pub of_nat : ℕ → F
  pub of_int : ℤ → F
  pub neg : F → F
  pub abs : F → F
  pub exp : F → F
  pub sum : List F → F
  pub add : F → F → F
  pub sub : F → F → F
  pub mul : F → F → F
  pub div : F → F → F
  pub is_nan : F → Bool
  pub is_finite : F → Bool
  pub partial_cmp : F → F → Option Ordering

module _ (fl : Float64) where
  open fl use {F, partial_cmp, is_nan, neg_infinity}

  -- `a < b`, `a <= b` and their mirror images.
  abbrev pub lt_f64 : F → F → Bool
  lt_f64 a b = elim (partial_cmp a b) [
    | none ↦ false
    | some o ↦ elim o [ Ordering.lt ↦ true | _ ↦ false ]
  ]

  abbrev pub le_f64 : F → F → Bool
  le_f64 a b = elim (partial_cmp a b) [
    | none ↦ false
    | some o ↦ elim o [ Ordering.gt ↦ false | _ ↦ true ]
  ]

  abbrev pub gt_f64 : F → F → Bool
  gt_f64 a b = lt_f64 b a

  abbrev pub ge_f64 : F → F → Bool
  ge_f64 a b = le_f64 b a

  -- `partial_cmp(..).unwrap_or(Ordering::Equal)`
  abbrev pub cmp_or_equal : F → F → Ordering
  cmp_or_equal a b = elim (partial_cmp a b) [ none ↦ Ordering.eq | some o ↦ o ]

-- What Rust documents of `f64::partial_cmp`: it fails on NaN alone, and orders the other values.
pub record IsPartialOrder (fl : Float64) : Type 0 where
  pub fails : (a b : fl.F) → fl.partial_cmp a b ≡ none → (fl.is_nan a || fl.is_nan b) ≡ true
  pub mirrors :
      (a b : fl.F) (o : Ordering)
      → fl.partial_cmp a b ≡ some o
      → fl.partial_cmp b a ≡ some (reverse_order o)
  pub eq_left :
      (a b c : fl.F)
      → fl.partial_cmp a b ≡ some Ordering.eq
      → fl.partial_cmp a c ≡ fl.partial_cmp b c
  pub lt_trans :
      (a b c : fl.F)
      → fl.partial_cmp a b ≡ some Ordering.lt
      → fl.partial_cmp b c ≡ some Ordering.lt
      → fl.partial_cmp a c ≡ some Ordering.lt
  pub neg_infinity_ordered : fl.is_nan fl.neg_infinity ≡ false
