-- ===== src/Prelude/Int.antt =====
-- Signed integers over the native numbers, under the library's names (its ℤ stands on the unary ℕ),
-- with the saturating and the wrapping arithmetic of `i64`.
use Prim.Native.Nat.{ℕ, suc, ◌+◌, ◌-◌, ◌%◌, ◌≤◌}
use mathlib.Core.Path.{◌≡◌}
use mathlib.Core.Bool.{Bool}
use native.Mathlib.Omega.{arith}
use hft_lead_lag.Prelude.Tests.{ltb, leb, if◌then◌else◌}

-- `negsuc n` is -(n + 1).
pub data ℤ : Type 0 where
  pos : ℕ → ℤ
  negsuc : ℕ → ℤ

abbrev pub pos_part : ℤ → ℕ
pos_part (pos n) = n
pos_part (negsuc n) = 0

abbrev pub neg_part : ℤ → ℕ
neg_part (pos n) = 0
neg_part (negsuc n) = suc n

abbrev pub sub_ℕ : ℕ → ℕ → ℤ
sub_ℕ a b = if leb b a then pos (a - b) else negsuc (b - a - 1)

infixl 65 ◌+ℤ◌ ◌-ℤ◌
infix 50 ◌≤ℤ◌ ◌<ℤ◌
unfoldable pub ◌+ℤ◌ : ℤ → ℤ → ℤ
a +ℤ b = sub_ℕ (pos_part a + pos_part b) (neg_part a + neg_part b)

unfoldable pub ◌-ℤ◌ : ℤ → ℤ → ℤ
a -ℤ b = sub_ℕ (pos_part a + neg_part b) (neg_part a + pos_part b)

abbrev pub ◌≤ℤ◌ : ℤ → ℤ → Type 0
a ≤ℤ b = pos_part a + neg_part b ≤ pos_part b + neg_part a

abbrev pub ◌<ℤ◌ : ℤ → ℤ → Type 0
a <ℤ b = suc (pos_part a + neg_part b) ≤ pos_part b + neg_part a

abbrev pub ltb_ℤ : ℤ → ℤ → Bool
ltb_ℤ a b = ltb (pos_part a + neg_part b) (pos_part b + neg_part a)

abbrev pub leb_ℤ : ℤ → ℤ → Bool
leb_ℤ a b = leb (pos_part a + neg_part b) (pos_part b + neg_part a)

pub +ℤ_parts :
    (a b : ℤ)
    → pos_part (a +ℤ b) + neg_part a + neg_part b ≡ neg_part (a +ℤ b) + pos_part a + pos_part b
unfolding ◌+ℤ◌
+ℤ_parts a b = ground arith

pub -ℤ_parts :
    (a b : ℤ)
    → pos_part (a -ℤ b) + neg_part a + pos_part b ≡ neg_part (a -ℤ b) + pos_part a + neg_part b
unfolding ◌-ℤ◌
-ℤ_parts a b = ground arith

pub eq_of_parts : (a b : ℤ) → pos_part a + neg_part b ≡ pos_part b + neg_part a → a ≡ b
eq_of_parts a b h = ground arith

-- `unsigned_abs`; of a value above `i64::MIN` it is also `abs`.
abbrev pub unsigned_abs : ℤ → ℕ
unsigned_abs a = pos_part a + neg_part a

-- `i64::MAX` and `i64::MIN`
abbrev pub i64_max : ℤ
i64_max = pos 9_223_372_036_854_775_807

abbrev pub i64_min : ℤ
i64_min = negsuc 9_223_372_036_854_775_807

-- A value of type `i64`.
abbrev pub IsI64 : ℤ → Type 0
IsI64 a = record { above : i64_min ≤ℤ a; below : a ≤ℤ i64_max }

unfoldable pub clamp_i64 : ℤ → ℤ
clamp_i64 a = if ltb_ℤ i64_max a then i64_max else if ltb_ℤ a i64_min then i64_min else a

-- `saturating_add` and `saturating_sub` of `i64`.
abbrev pub saturating_add : ℤ → ℤ → ℤ
saturating_add a b = clamp_i64 (a +ℤ b)

abbrev pub saturating_sub : ℤ → ℤ → ℤ
saturating_sub a b = clamp_i64 (a -ℤ b)

pub clamp_i64-IsI64 : (a : ℤ) → IsI64 (clamp_i64 a)
unfolding clamp_i64
clamp_i64-IsI64 a = record { above = ground arith; below = ground arith }

-- The value of `i64` that a machine keeps of an integer: its residue, in two's complement.
unfoldable pub wrap_i64 : ℤ → ℤ
wrap_i64 a =
    let size : ℕ = 18_446_744_073_709_551_616 in
    let r = (pos_part a + (size - neg_part a % size)) % size in
    if ltb r 9_223_372_036_854_775_808 then pos r else negsuc (size - 1 - r)

-- `+` and `-` of `i64`, without overflow checks.
infixl 65 ◌+%◌ ◌-%◌
unfoldable pub ◌+%◌ : ℤ → ℤ → ℤ
a +% b = wrap_i64 (a +ℤ b)

unfoldable pub ◌-%◌ : ℤ → ℤ → ℤ
a -% b = wrap_i64 (a -ℤ b)

wrap_i64-exact : (a : ℤ) → IsI64 a → wrap_i64 a ≡ a
unfolding wrap_i64
wrap_i64-exact (pos n) h = ground (arith, h.below)
wrap_i64-exact (negsuc n) h = ground (arith, h.above)

pub +%_exact : (a b : ℤ) → IsI64 (a +ℤ b) → a +% b ≡ a +ℤ b
unfolding ◌+%◌
+%_exact a b h = wrap_i64-exact (a +ℤ b) h

pub -%_exact : (a b : ℤ) → IsI64 (a -ℤ b) → a -% b ≡ a -ℤ b
unfolding ◌-%◌
-%_exact a b h = wrap_i64-exact (a -ℤ b) h

-- `saturating_add` of `u32` and `u64`, by their largest value.
abbrev pub sat_inc : ℕ → ℕ → ℕ
sat_inc top n = if ltb n top then n + 1 else top

abbrev pub u32_max : ℕ
u32_max = 4_294_967_295

abbrev pub u64_max : ℕ
u64_max = 18_446_744_073_709_551_615

pub saturating_add_mono : (a b c : ℤ) → a ≤ℤ b → saturating_add a c ≤ℤ saturating_add b c
unfolding clamp_i64
saturating_add_mono a b c h = ground (arith, +ℤ_parts a c, +ℤ_parts b c)
