-- ===== src/Word.antt =====
-- The operations on a `u64` that hft-lead-lag/src/event_loop_core.rs uses, by recursion on the bit.
pub mod Bits
pub mod Count
use hft_lead_lag.Prelude.{ℕ, zero, suc, ◌+◌, ◌*◌, ◌/◌, ◌%◌, Bool, nat_beq, if◌then◌else◌}

-- `(w & (1 << b)) != 0`
unfoldable pub test_bit : ℕ → ℕ → Bool
test_bit w zero = nat_beq (w % 2) 1
test_bit w (suc b) = test_bit (w / 2) b

-- `w | (1 << b)`
unfoldable pub set_bit : ℕ → ℕ → ℕ
set_bit w zero = w / 2 * 2 + 1
set_bit w (suc b) = w % 2 + set_bit (w / 2) b * 2

-- `w & !(1 << b)`
unfoldable pub clear_bit : ℕ → ℕ → ℕ
clear_bit w zero = w / 2 * 2
clear_bit w (suc b) = w % 2 + clear_bit (w / 2) b * 2

-- `w & (!0 << k)`
unfoldable pub mask_from : ℕ → ℕ → ℕ
mask_from w zero = w
mask_from w (suc k) = mask_from (w / 2) k * 2

-- The zeros below the lowest bit that is set, at most `f`.
unfoldable pub zeros_below : ℕ → ℕ → ℕ
zeros_below zero w = 0
zeros_below (suc f) w =
    let more = suc (zeros_below f (w / 2)) in if nat_beq (w % 2) 1 then 0 else more

-- `w.trailing_zeros()`, which is 64 for 0.
unfoldable pub trailing_zeros : ℕ → ℕ
unfolding zeros_below
trailing_zeros w = zeros_below 64 w

-- How many of the lowest `f` bits are set.
unfoldable pub count_bits : ℕ → ℕ → ℕ
count_bits zero w = 0
count_bits (suc f) w = w % 2 + count_bits f (w / 2)
