-- ===== src/LeadLag/Checks.antt =====
-- When the strategy of hft-lead-lag/src/application/services/lead_lag.rs signals, in its own words.
use hft_lead_lag.Prelude.{
  ℕ, ◌≤◌, ◌≡◌, ◌↔◌, refl, sym, ap, ◌∙◌, subst, Bool, true, false, ◌||◌, String, List, Option, none,
  some, ℤ, pos, ◌-ℤ◌, ◌<ℤ◌, ◌≤ℤ◌, ◌⊎◌, arith, unsigned_abs, leb_ℤ, if◌then◌else◌, string_key,
}
use hft_lead_lag.Prelude.Maps.{lookup}
use hft_lead_lag.Prelude.Float.{Float64, ge_f64}
use hft_lead_lag.LeadLag.Types.{BookTicker, LeadLagSignal, LeadLagStrategyConfig}
use hft_lead_lag.LeadLag.Offset.{corrected_exchange_ts_ns}
use hft_lead_lag.LeadLag.Strategy.{
  LeadLagStrategy, new_strategy, ms_to_ns, too_far, signal_of, check_quotes, check_signal,
}
use hft_lead_lag.LeadLag.Latest.{
  BookUpdate, latest_primary, latest_hedge, update_all, update_all_config, lookup-primary_books,
  lookup-hedge_books,
}

-- Two times are at most a limit apart, where 0 is no limit.
abbrev pub IsNear : ℕ → ℤ → ℤ → Type 0
IsNear limit a b = (limit ≡ 0) ⊎ (unsigned_abs (a -ℤ b) ≤ limit)

too_far_lem : (limit : ℕ) (a b : ℤ) → (too_far limit a b ≡ false) ↔ IsNear limit a b
too_far_lem limit a b = (ground arith, ground arith)

-- Four guards that give nothing, and a last test.
abbrev guarded {ℓ} : {A : Type ℓ} → Bool → Bool → Bool → Bool → Bool → A → Option A
guarded a b c d e x =
    if a
    then none
    else if b
    then none
    else if c
    then none
    else if d
    then none
    else if e
    then some x
    else none

guarded-some {ℓ} :
    {A : Type ℓ} (a b c d e : Bool) (x y : A)
    → guarded a b c d e x ≡ some y
    → (a ≡ false) × (b ≡ false) × (c ≡ false) × (d ≡ false) × (e ≡ true) × (y ≡ x)
guarded-some a b c d e x y h = ground arith

pass_guards {ℓ} :
    {A : Type ℓ} (a b c d e : Bool) (x : A)
    → a ≡ false
    → b ≡ false
    → c ≡ false
    → d ≡ false
    → e ≡ true
    → guarded a b c d e x ≡ some x
pass_guards a b c d e x ha hb hc hd he = ground arith

-- The two values that a nested match finds.
both_found {ℓ κ} :
    {A : Type ℓ} {B : Type κ} (o p : Option A) (f : A → A → Option B) (y : B)
    → elim o [ none ↦ none | some a ↦ elim p [ none ↦ none | some b ↦ f a b ] ] ≡ some y
    → (a : A) × (b : A) × (o ≡ some a) × (p ≡ some b) × (f a b ≡ some y)
both_found none p f y h = absurd (ground (arith, h))
both_found (some a) none f y h = absurd (ground (arith, h))
both_found (some a) (some b) f y h = (a, b, refl, refl, h)

match_both {ℓ κ} :
    {A : Type ℓ} {B : Type κ} (o p : Option A) (f : A → A → Option B) (a b : A)
    → o ≡ some a
    → p ≡ some b
    → elim o [ none ↦ none | some a ↦ elim p [ none ↦ none | some b ↦ f a b ] ] ≡ f a b
match_both o p f a b h k = rw h (rw k refl)

module _ (fl : Float64) where
  -- What the strategy asks of the two quotes of a symbol, with its own state.
  pub record IsPassed (s : LeadLagStrategy fl) (now_ns : ℤ) (primary hedge : BookTicker)
      (signal : LeadLagSignal fl) : Type 0 where
    pub primary_received : pos 0 <ℤ primary.local_ts_ns
    pub hedge_received : pos 0 <ℤ hedge.local_ts_ns
    pub primary_young : IsNear (ms_to_ns s.config.max_quote_age_ms) now_ns primary.local_ts_ns
    pub hedge_young : IsNear (ms_to_ns s.config.max_quote_age_ms) now_ns hedge.local_ts_ns
    pub together :
        IsNear (ms_to_ns s.config.max_quote_skew_ms) primary.local_ts_ns hedge.local_ts_ns
    pub leads :
        corrected_exchange_ts_ns s.hedge_clock_offset hedge.exchange_ts_ns
        ≤ℤ corrected_exchange_ts_ns s.primary_clock_offset primary.exchange_ts_ns
    pub wide : ge_f64 fl signal.spread_bps s.config.min_entry_spread_bps ≡ true

  check_quotes-some :
      (s : LeadLagStrategy fl) (symbol : String) (now_ns : ℤ) (primary hedge : BookTicker)
      (signal : LeadLagSignal fl)
      → check_quotes fl s symbol now_ns primary hedge ≡ some signal
      → (signal ≡ signal_of fl s.config symbol now_ns primary hedge)
        × IsPassed s now_ns primary hedge signal
  unfolding check_quotes
  check_quotes-some s symbol now_ns primary hedge signal h =
      let age = ms_to_ns s.config.max_quote_age_ms in
      let (received, young, together, leads, wide, same) =
        guarded-some (leb_ℤ primary.local_ts_ns (pos 0) || leb_ℤ hedge.local_ts_ns (pos 0))
          (too_far age now_ns primary.local_ts_ns || too_far age now_ns hedge.local_ts_ns)
          (too_far (ms_to_ns s.config.max_quote_skew_ms) primary.local_ts_ns hedge.local_ts_ns) _ _
          _ signal h in
      (
        same,
        record {
          primary_received = ground (arith, received);
          hedge_received = ground (arith, received);
          primary_young = (too_far_lem age now_ns primary.local_ts_ns).0 (ground (arith, young));
          hedge_young = (too_far_lem age now_ns hedge.local_ts_ns).0 (ground (arith, young));
          together = (too_far_lem _ primary.local_ts_ns hedge.local_ts_ns).0 together;
          leads = ground (arith, leads);
          wide =
              subst (λ g. ge_f64 fl g.spread_bps s.config.min_entry_spread_bps ≡ true) (sym same)
                wide;
        },
      )

  check_quotes-IsPassed :
      (s : LeadLagStrategy fl) (symbol : String) (now_ns : ℤ) (primary hedge : BookTicker)
      → IsPassed s now_ns primary hedge (signal_of fl s.config symbol now_ns primary hedge)
      → check_quotes fl s symbol now_ns primary hedge
        ≡ some (signal_of fl s.config symbol now_ns primary hedge)
  unfolding check_quotes
  check_quotes-IsPassed s symbol now_ns primary hedge t =
      let age = ms_to_ns s.config.max_quote_age_ms in
      let p = (too_far_lem age now_ns primary.local_ts_ns).1 t.primary_young in
      let q = (too_far_lem age now_ns hedge.local_ts_ns).1 t.hedge_young in
      let r =
        (too_far_lem (ms_to_ns s.config.max_quote_skew_ms) primary.local_ts_ns hedge.local_ts_ns).1
          t.together in
      pass_guards _ _ _ _ _ (signal_of fl s.config symbol now_ns primary hedge)
        (ground (arith, t.primary_received, t.hedge_received)) (ground (arith, p, q)) r
        (ground (arith, t.leads)) t.wide

  -- The latest quotes pass, and the signal is the code's.
  abbrev pub Passes :
      LeadLagStrategyConfig fl → List BookUpdate → String → ℤ → LeadLagSignal fl → Type 0
  Passes cfg us symbol now_ns signal =
      (primary : BookTicker) × (hedge : BookTicker) × (latest_primary symbol us none ≡ some primary)
      × (latest_hedge symbol us none ≡ some hedge)
      × (signal ≡ signal_of fl cfg symbol now_ns primary hedge)
      × IsPassed (update_all fl us (new_strategy fl cfg)) now_ns primary hedge signal

  pub check_signal-Passes :
      (cfg : LeadLagStrategyConfig fl) (us : List BookUpdate) (symbol : String) (now_ns : ℤ)
      (signal : LeadLagSignal fl)
      → (check_signal fl (update_all fl us (new_strategy fl cfg)) symbol now_ns ≡ some signal)
        ↔ Passes cfg us symbol now_ns signal
  unfolding check_signal lookup
  check_signal-Passes cfg us symbol now_ns signal =
      let s = update_all fl us (new_strategy fl cfg) in
      let config = update_all_config fl us (new_strategy fl cfg) in
      let primaries = lookup-primary_books fl symbol us (new_strategy fl cfg) in
      let hedges = lookup-hedge_books fl symbol us (new_strategy fl cfg) in
      (
        (λ h.
            let (primary, hedge, found, found', checked) =
              both_found (lookup symbol s.primary_books) (lookup symbol s.hedge_books)
                (λ p q. check_quotes fl s symbol now_ns p q) signal h in
            let (same, tradable) = check_quotes-some s symbol now_ns primary hedge signal checked in
            (
              primary,
              hedge,
              sym primaries ∙ found,
              sym hedges ∙ found',
              same ∙ ap (λ c. signal_of fl c symbol now_ns primary hedge) config,
              tradable,
            )),
        (λ (primary, hedge, found, found', same, tradable).
            let same' : signal ≡ signal_of fl s.config symbol now_ns primary hedge =
              same ∙ ap (λ c. signal_of fl c symbol now_ns primary hedge) (sym config) in
            match_both (lookup symbol s.primary_books) (lookup symbol s.hedge_books)
              (λ p q. check_quotes fl s symbol now_ns p q) primary hedge (primaries ∙ found)
              (hedges ∙ found')
            ∙ (check_quotes-IsPassed s symbol now_ns primary hedge
                  (subst (IsPassed s now_ns primary hedge) same' tradable)
                ∙ ap some (sym same'))),
      )
