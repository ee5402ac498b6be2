-- ===== src/Examples/Floats.antt =====
-- A concrete `Float64` for the examples: decimal numbers with two places, and NaN.
use Prim.Native.Nat.{Ordering, compare}
use hft_lead_lag.Prelude.{
  ◌+◌, ◌*◌, ◌/◌, ◌≡◌, refl, Bool, true, false, not, ◌||◌, List, [], ◌∷◌, Option, none, some, ℤ, pos,
  negsuc, ◌+ℤ◌, ◌-ℤ◌, pos_part, neg_part, arith,
}
use hft_lead_lag.Prelude.Float.{Float64, IsPartialOrder, reverse_order}

abbrev cmp_ℤ : ℤ → ℤ → Ordering
cmp_ℤ a b = compare (pos_part a + neg_part b) (pos_part b + neg_part a)

abbrev lift : (ℤ → ℤ → ℤ) → Option ℤ → Option ℤ → Option ℤ
lift f none b = none
lift f (some a) none = none
lift f (some a) (some b) = some (f a b)

abbrev cmp_cents : Option ℤ → Option ℤ → Option Ordering
cmp_cents none b = none
cmp_cents (some a) none = none
cmp_cents (some a) (some b) = some (cmp_ℤ a b)

abbrev is_none : Option ℤ → Bool
is_none none = true
is_none (some a) = false

abbrev abs_cents : Option ℤ → Option ℤ
abs_cents none = none
abs_cents (some a) = some (pos (pos_part a + neg_part a))

abbrev negate : Option ℤ → Option ℤ
negate a = lift ◌-ℤ◌ (some (pos 0)) a

abbrev add_up : List (Option ℤ) → Option ℤ
add_up [] = some (pos 0)
add_up (a ∷ rest) = lift ◌+ℤ◌ a (add_up rest)

-- `none` is NaN, `some c` is `c` hundredths.
abbrev pub cents : Float64
cents = record {
  F = Option ℤ;
  ratio = λ n d. some (pos (n * 100 / d));
  neg_infinity = some (negsuc 1_000_000_000_000);
  of_nat = λ n. some (pos (n * 100));
  of_int = λ a. some (pos (pos_part a * 100) -ℤ pos (neg_part a * 100));
  neg = negate;
  abs = abs_cents;
  exp = λ a. lift ◌+ℤ◌ (some (pos 100)) a;
  sum = add_up;
  add = lift ◌+ℤ◌;
  sub = lift ◌-ℤ◌;
  mul = lift (λ a b. pos (pos_part a * pos_part b / 100));
  div = lift (λ a b. pos (pos_part a * 100 / pos_part b));
  is_nan = is_none;
  is_finite = λ a. not (is_none a);
  partial_cmp = cmp_cents;
}

fails : (a b : Option ℤ) → cmp_cents a b ≡ none → (is_none a || is_none b) ≡ true
fails none b h = refl
fails (some a) none h = refl
fails (some a) (some b) h = ground arith

mirrors :
    (a b : Option ℤ) (o : Ordering)
    → cmp_cents a b ≡ some o
    → cmp_cents b a ≡ some (reverse_order o)
mirrors none b o h = absurd (ground arith)
mirrors (some a) none o h = absurd (ground arith)
mirrors (some a) (some b) o h = ground arith

eq_left : (a b c : Option ℤ) → cmp_cents a b ≡ some Ordering.eq → cmp_cents a c ≡ cmp_cents b c
eq_left none b c h = absurd (ground arith)
eq_left (some a) none c h = absurd (ground arith)
eq_left (some a) (some b) none h = refl
eq_left (some a) (some b) (some c) h = ground arith

lt_trans :
    (a b c : Option ℤ)
    → cmp_cents a b ≡ some Ordering.lt
    → cmp_cents b c ≡ some Ordering.lt
    → cmp_cents a c ≡ some Ordering.lt
lt_trans none b c h k = absurd (ground arith)
lt_trans (some a) none c h k = absurd (ground arith)
lt_trans (some a) (some b) none h k = absurd (ground arith)
lt_trans (some a) (some b) (some c) h k = ground arith

pub cents-IsPartialOrder : IsPartialOrder cents
cents-IsPartialOrder = record {
  fails = fails;
  mirrors = mirrors;
  eq_left = eq_left;
  lt_trans = lt_trans;
  neg_infinity_ordered = refl;
}
