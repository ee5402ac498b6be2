-- ===== src/Word/Bits.antt =====
-- What each word operation does to each bit.
use native.Mathlib.Nat.{pow-suc}
use hft_lead_lag.Prelude.{
  ℕ, zero, suc, ◌+◌, ◌*◌, ◌/◌, ◌%◌, ◌^◌, ◌≤◌, ◌<◌, ◌≡◌, refl, ◌≢◌, true, false, ◌&&◌, nat_beq, leb,
  if◌then◌else◌, arith, Bool-cases, inl, inr,
}
use hft_lead_lag.Word.{test_bit, set_bit, clear_bit, mask_from, zeros_below, trailing_zeros}

pub test_bit-set_bit :
    (w b j : ℕ) → test_bit (set_bit w b) j ≡ (if nat_beq j b then true else test_bit w j)
unfolding test_bit set_bit
test_bit-set_bit w zero zero = ground arith
test_bit-set_bit w zero (suc j) =
    let e : (w / 2 * 2 + 1) / 2 ≡ w / 2 = omega arith in rw e (ground arith)
test_bit-set_bit w (suc b) zero = ground arith
test_bit-set_bit w (suc b) (suc j) =
    let e : (w % 2 + set_bit (w / 2) b * 2) / 2 ≡ set_bit (w / 2) b = omega arith in
    rw e (ground (arith, test_bit-set_bit (w / 2) b j))

pub test_bit-clear_bit :
    (w b j : ℕ) → test_bit (clear_bit w b) j ≡ (if nat_beq j b then false else test_bit w j)
unfolding test_bit clear_bit
test_bit-clear_bit w zero zero = ground arith
test_bit-clear_bit w zero (suc j) =
    let e : w / 2 * 2 / 2 ≡ w / 2 = omega arith in rw e (ground arith)
test_bit-clear_bit w (suc b) zero = ground arith
test_bit-clear_bit w (suc b) (suc j) =
    let e : (w % 2 + clear_bit (w / 2) b * 2) / 2 ≡ clear_bit (w / 2) b = omega arith in
    rw e (ground (arith, test_bit-clear_bit (w / 2) b j))

pub test_bit-mask_from : (w k j : ℕ) → test_bit (mask_from w k) j ≡ leb k j && test_bit w j
unfolding test_bit mask_from
test_bit-mask_from w zero j = ground arith
test_bit-mask_from w (suc k) zero = ground arith
test_bit-mask_from w (suc k) (suc j) =
    let e : mask_from (w / 2) k * 2 / 2 ≡ mask_from (w / 2) k = omega arith in
    rw e (ground (arith, test_bit-mask_from (w / 2) k j))

pub test_bit-zero : (j : ℕ) → test_bit 0 j ≡ false
unfolding test_bit
test_bit-zero zero = refl
test_bit-zero (suc j) = test_bit-zero j

-- A word of `f` bits has none above.
pub test_bit_above : (f w j : ℕ) → w < 2 ^ f → f ≤ j → test_bit w j ≡ false
unfolding test_bit
test_bit_above zero w j h k = let e : w ≡ 0 = omega arith in rw e (test_bit-zero j)
test_bit_above (suc f) w zero h k = absurd (omega arith)
test_bit_above (suc f) w (suc j) h k =
    test_bit_above f (w / 2) j (omega (arith, pow-suc 2 f)) (omega arith)

-- A word with a bit is no zero, and a word that is no zero has a lowest bit.
pub ne-zero_of_bit : (w j : ℕ) → test_bit w j ≡ true → w ≢ 0
ne-zero_of_bit w j h e = let z : test_bit w j ≡ false = rw e (test_bit-zero j) in ground arith

pub zeros_below_lem :
    (f w : ℕ) → w < 2 ^ f → w ≢ 0 → (zeros_below f w < f) × (test_bit w (zeros_below f w) ≡ true)
unfolding zeros_below test_bit
zeros_below_lem zero w h n = absurd (omega arith)
zeros_below_lem (suc f) w h n = elim (Bool-cases (nat_beq (w % 2) 1)) [
  | inl odd ↦ rw odd (omega arith, odd)
  | inr even ↦
      let rest = zeros_below_lem f (w / 2) (omega (arith, pow-suc 2 f)) (ground arith) in
      rw even (omega arith, rest.1)
]

pub zeros_below_first : (f w j : ℕ) → j < zeros_below f w → test_bit w j ≡ false
unfolding zeros_below test_bit
zeros_below_first zero w j h = absurd (omega arith)
zeros_below_first (suc f) w zero h = ground arith
zeros_below_first (suc f) w (suc j) h = ground (arith, zeros_below_first f (w / 2) j)

-- The bounds of each result.
pub set_bit-lt : (f w b : ℕ) → w < 2 ^ f → b < f → set_bit w b < 2 ^ f
unfolding set_bit
set_bit-lt zero w b h k = absurd (omega arith)
set_bit-lt (suc f) w zero h k = omega (arith, pow-suc 2 f)
set_bit-lt (suc f) w (suc b) h k =
    omega (arith, pow-suc 2 f, set_bit-lt f (w / 2) b (omega (arith, pow-suc 2 f)) (omega arith))

pub clear_bit-le : (w b : ℕ) → clear_bit w b ≤ w
unfolding clear_bit
clear_bit-le w zero = omega arith
clear_bit-le w (suc b) = omega (arith, clear_bit-le (w / 2) b)

pub mask_from-le : (w k : ℕ) → mask_from w k ≤ w
unfolding mask_from
mask_from-le w zero = omega arith
mask_from-le w (suc k) = omega (arith, mask_from-le (w / 2) k)

pub trailing_zeros_lem :
    (w : ℕ) → w < 2 ^ 64 → w ≢ 0 → (trailing_zeros w < 64) × (test_bit w (trailing_zeros w) ≡ true)
unfolding trailing_zeros
trailing_zeros_lem w h n = zeros_below_lem 64 w h n

pub trailing_zeros_first : (w j : ℕ) → j < trailing_zeros w → test_bit w j ≡ false
unfolding trailing_zeros
trailing_zeros_first w j h = zeros_below_first 64 w j h
