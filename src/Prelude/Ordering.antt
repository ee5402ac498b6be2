-- ===== src/Prelude/Ordering.antt =====
-- Comparison functions that order a type, and what keeps that: `reverse`, `then_with`, comparing by a
-- key.
use Prim.Native.Nat.{◌+◌, Ordering, compare}
use mathlib.Core.Path.{◌≡◌, sym, ap, ◌∙◌}
use native.Mathlib.Omega.{arith}
use hft_lead_lag.Prelude.Float.{reverse_order, then_with}
use hft_lead_lag.Prelude.Int.{ℤ, pos_part, neg_part}

-- A comparison that is a total preorder: swapping reverses it, values that compare equal compare alike
-- with the others, and less is transitive.
pub record IsOrdering {ℓ} {A : Type ℓ} (c : A → A → Ordering) : Type ℓ where
  pub swaps : (a b : A) → c b a ≡ reverse_order (c a b)
  pub alike : (a b d : A) → c a b ≡ Ordering.eq → c a d ≡ c b d
  pub transitive : (a b d : A) → c a b ≡ Ordering.lt → c b d ≡ Ordering.lt → c a d ≡ Ordering.lt

abbrev pub cmp_ℤ : ℤ → ℤ → Ordering
cmp_ℤ a b = compare (pos_part a + neg_part b) (pos_part b + neg_part a)

pub compare-IsOrdering : IsOrdering compare
compare-IsOrdering = record {
  swaps = λ a b. ground arith;
  alike = λ a b d h. ground (arith, h);
  transitive = λ a b d h k. ground (arith, h, k);
}

pub cmp_ℤ-IsOrdering : IsOrdering cmp_ℤ
cmp_ℤ-IsOrdering = record {
  swaps = λ a b. ground arith;
  alike = λ a b d h. ground (arith, h);
  transitive = λ a b d h k. ground (arith, h, k);
}

module _ {ℓ} {A : Type ℓ} where
  abbrev pub flip_cmp : (A → A → Ordering) → A → A → Ordering
  flip_cmp c a b = c b a

  abbrev pub lex : (A → A → Ordering) → (A → A → Ordering) → A → A → Ordering
  lex c d a b = then_with (c a b) (d a b)

  pub by_key-IsOrdering {κ} :
      {K : Type κ} (key : A → K) (c : K → K → Ordering)
      → IsOrdering c
      → IsOrdering (λ a b. c (key a) (key b))
  by_key-IsOrdering key c o = record {
    swaps = λ a b. o.swaps (key a) (key b);
    alike = λ a b d h. o.alike (key a) (key b) (key d) h;
    transitive = λ a b d h k. o.transitive (key a) (key b) (key d) h k;
  }

  module _ (c : A → A → Ordering) (o : IsOrdering c) where
    alike_right : (a b d : A) → c b d ≡ Ordering.eq → c a b ≡ c a d
    alike_right a b d h = o.swaps b a ∙ (ap reverse_order (o.alike b d a h) ∙ sym (o.swaps d a))

    pub flip_cmp-IsOrdering : IsOrdering (flip_cmp c)
    flip_cmp-IsOrdering = record {
      swaps = λ a b. o.swaps b a;
      alike = λ a b d h. sym (alike_right d b a h);
      transitive = λ a b d h k. o.transitive d b a k h;
    }

    pub lex-IsOrdering : (d : A → A → Ordering) → IsOrdering d → IsOrdering (lex c d)
    lex-IsOrdering d q = record {
      swaps = λ a b. ground (arith, o.swaps a b, q.swaps a b);
      alike = λ a b x h. ground (arith, h, o.alike a b x, q.alike a b x);
      transitive = λ a b x h k.
          ground
            (arith, h, k, o.alike a b x, alike_right a b x, o.transitive a b x, q.transitive a b x);
    }
