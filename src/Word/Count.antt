-- ===== src/Word/Count.antt =====
-- How each word operation changes the number of bits that are set.
use hft_lead_lag.Prelude.{ℕ, zero, suc, ◌+◌, ◌*◌, ◌/◌, ◌%◌, ◌≤◌, ◌<◌, ◌≡◌, refl, true, false, arith}
use hft_lead_lag.Word.{test_bit, set_bit, clear_bit, count_bits}

pub count_bits-set_bit :
    (f w b : ℕ) → b < f → test_bit w b ≡ false → count_bits f (set_bit w b) ≡ count_bits f w + 1
unfolding count_bits set_bit test_bit
count_bits-set_bit zero w b h t = absurd (omega arith)
count_bits-set_bit (suc f) w zero h t =
    let e : (w / 2 * 2 + 1) / 2 ≡ w / 2 = omega arith in rw e (ground arith)
count_bits-set_bit (suc f) w (suc b) h t =
    let e : (w % 2 + set_bit (w / 2) b * 2) / 2 ≡ set_bit (w / 2) b = omega arith in
    rw e (omega (arith, count_bits-set_bit f (w / 2) b (omega arith) t))

pub count_bits-clear_bit :
    (f w b : ℕ) → b < f → test_bit w b ≡ true → count_bits f (clear_bit w b) + 1 ≡ count_bits f w
unfolding count_bits clear_bit test_bit
count_bits-clear_bit zero w b h t = absurd (omega arith)
count_bits-clear_bit (suc f) w zero h t =
    let e : w / 2 * 2 / 2 ≡ w / 2 = omega arith in rw e (ground arith)
count_bits-clear_bit (suc f) w (suc b) h t =
    let e : (w % 2 + clear_bit (w / 2) b * 2) / 2 ≡ clear_bit (w / 2) b = omega arith in
    rw e (omega (arith, count_bits-clear_bit f (w / 2) b (omega arith) t))

-- A bit that is set is counted.
pub count_bits-pos : (f w b : ℕ) → b < f → test_bit w b ≡ true → 0 < count_bits f w
unfolding count_bits test_bit
count_bits-pos zero w b h t = absurd (omega arith)
count_bits-pos (suc f) w zero h t = ground arith
count_bits-pos (suc f) w (suc b) h t = omega (arith, count_bits-pos f (w / 2) b (omega arith) t)

pub count_bits-le : (f w : ℕ) → count_bits f w ≤ f
unfolding count_bits
count_bits-le zero w = omega arith
count_bits-le (suc f) w = omega (arith, count_bits-le f (w / 2))

pub count_bits-zero : (f : ℕ) → count_bits f 0 ≡ 0
unfolding count_bits
count_bits-zero zero = refl
count_bits-zero (suc f) = omega (arith, count_bits-zero f)
