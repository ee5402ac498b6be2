-- ===== src/Timestamps/Units.antt =====
-- What the normalisation of hft-lead-lag/src/domain/screener/utils.rs promises.
use hft_lead_lag.Prelude.{
  ℕ, ◌+◌, ◌*◌, ◌/◌, leb, if_cases, refl, negsuc, ◌<◌, ◌≡◌, ◌⊎◌, inl, inr, Option, none, some, ℤ,
  pos, ◌<ℤ◌, ◌≤ℤ◌, IsI64, arith,
}
use hft_lead_lag.Timestamps.{normalize_exchange_ts_ms, checked_mul}

-- Milliseconds between the years 2001 and 33658.
abbrev pub IsMillis : ℤ → Type 0
IsMillis a = (pos 1_000_000_000_000 ≤ℤ a) × (a <ℤ pos 1_000_000_000_000_000)

millis_stay : (ms : ℤ) → IsMillis ms → normalize_exchange_ts_ms ms ≡ some ms
unfolding normalize_exchange_ts_ms
millis_stay (pos ms) h = ground arith
millis_stay (negsuc ms) h = absurd (omega (arith, h.0))

-- Too small, or milliseconds, which normalise to themselves.
abbrev IsNormal : ℤ → Option ℤ → Type 0
IsNormal raw r =
    ((raw <ℤ pos 1_000_000_000) × (r ≡ none))
    ⊎ ((ms : ℤ) × (r ≡ some ms) × IsMillis ms × (normalize_exchange_ts_ms ms ≡ some ms))

in_millis : (raw : ℤ) (ms : ℕ) → IsMillis (pos ms) → IsNormal raw (some (pos ms))
in_millis raw ms h = inr (pos ms, refl, h, millis_stay (pos ms) h)

-- normalize_exchange_ts_ms of an i64 below 10^9 is nothing; of any other it gives, without
-- overflow, milliseconds from 10^12 to less than 10^15, which normalise to themselves.
pub normalize_exchange_ts_ms-IsMillis :
    (raw : ℤ)
    → IsI64 raw
    → ((raw <ℤ pos 1_000_000_000) × (normalize_exchange_ts_ms raw ≡ none))
      ⊎ ((ms : ℤ) × (normalize_exchange_ts_ms raw ≡ some ms)
          × IsMillis ms
          × (normalize_exchange_ts_ms ms ≡ some ms))
unfolding normalize_exchange_ts_ms
normalize_exchange_ts_ms-IsMillis (negsuc n) h = inl (omega arith, refl)
normalize_exchange_ts_ms-IsMillis (pos n) h =
    let P = IsNormal (pos n) in
    if_cases P (leb n 0) none _ (λ a. inl (ground (arith, a), refl))
      (λ a.
        if_cases P (leb 1_000_000_000_000_000_000 n) (some (pos (n / 1_000_000))) _
          (λ b. in_millis (pos n) (n / 1_000_000) (ground (arith, b, h)))
          (λ b.
            if_cases P (leb 1_000_000_000_000_000 n) (some (pos (n / 1_000))) _
              (λ c. in_millis (pos n) (n / 1_000) (ground (arith, b, c)))
              (λ c.
                if_cases P (leb 1_000_000_000_000 n) (some (pos n)) _
                  (λ d. in_millis (pos n) n (ground (arith, c, d)))
                  (λ d.
                    if_cases P (leb 1_000_000_000 n) (checked_mul n 1_000) none
                      (λ e.
                        if_cases P (leb (n * 1_000) 9_223_372_036_854_775_807)
                          (some (pos (n * 1_000))) none
                          (λ f. in_millis (pos n) (n * 1_000) (ground (arith, d, e)))
                          (λ f. absurd (ground (arith, d, f))))
                      (λ e. inl (ground (arith, e), refl))))))

-- Milliseconds between 10^12 and 10^15, written as milliseconds, as microseconds or, where that
-- fits an i64, as nanoseconds, all with any smaller digits, normalise to the same milliseconds.
pub normalize_exchange_ts_ms_units :
    (ms us ns : ℕ)
    → IsMillis (pos ms)
    → us < 1_000
    → ns < 1_000
    → IsI64 (pos ((ms * 1_000 + us) * 1_000 + ns))
    → (normalize_exchange_ts_ms (pos ms) ≡ some (pos ms))
      × (normalize_exchange_ts_ms (pos (ms * 1_000 + us)) ≡ some (pos ms))
      × (normalize_exchange_ts_ms (pos ((ms * 1_000 + us) * 1_000 + ns)) ≡ some (pos ms))
unfolding normalize_exchange_ts_ms
normalize_exchange_ts_ms_units ms us ns h hu hn small = (ground arith, ground arith, ground arith)
