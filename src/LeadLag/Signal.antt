-- ===== src/LeadLag/Signal.antt =====
-- When the strategy of hft-lead-lag/src/application/services/lead_lag.rs signals, and what.
use Prim.Native.Nat.{Ordering}
use hft_lead_lag.Prelude.{
  ℕ, ◌*◌, min, ◌≡◌, ◌↔◌, refl, sym, subst, true, false, String, List, none, some, ℤ, pos, ◌<ℤ◌,
  ◌≤ℤ◌, ◌⊎◌, arith, saturating_add,
}
use hft_lead_lag.Prelude.Float.{Float64, ge_f64}
use hft_lead_lag.LeadLag.Types.{
  BookTicker, LeadLagSignal, LeadLagStrategyConfig, long_lagger, short_lagger,
}
use hft_lead_lag.LeadLag.Offset.{default_offset}
use hft_lead_lag.LeadLag.Clocks.{primary_offset, hedge_offset, offsets-update_all}
use hft_lead_lag.LeadLag.Strategy.{LeadLagStrategy, new_strategy, signal_of, check_signal}
use hft_lead_lag.LeadLag.Latest.{
  BookUpdate, latest_primary, latest_hedge, update_all, update_all_config,
}
use hft_lead_lag.LeadLag.Checks.{IsNear, IsPassed, check_signal-Passes}

-- Milliseconds as nanoseconds, at most the largest `u64`.
abbrev pub in_ns : ℕ → ℕ
in_ns ms = min (ms * 1_000_000) 18_446_744_073_709_551_615

module _ (fl : Float64) where
  -- How far one price in ticks is above another, in basis points; 0 over a price of 0.
  abbrev pub leg_bps : ℤ → ℤ → fl.F
  leg_bps top bottom =
      let sold = fl.div (fl.of_int top) (fl.ratio 100_000_000 1) in
      let bought = fl.div (fl.of_int bottom) (fl.ratio 100_000_000 1) in
      let gap = fl.mul (fl.div (fl.sub sold bought) bought) (fl.ratio 10_000 1) in
      elim (fl.partial_cmp bought (fl.ratio 0 1)) [
        | none ↦ gap
        | some o ↦ elim o [ Ordering.eq ↦ fl.ratio 0 1 | _ ↦ gap ]
      ]

  -- The signal of two quotes: both legs, of which the wider one gives the spread and the direction.
  pub record IsSignal (cfg : LeadLagStrategyConfig fl) (symbol : String) (now_ns : ℤ)
      (primary hedge : BookTicker) (signal : LeadLagSignal fl) : Type 0 where
    pub same_symbol : signal.symbol ≡ symbol
    pub leads : signal.leader ≡ cfg.primary_exchange
    pub lags : signal.lagger ≡ cfg.hedge_exchange
    pub leader_bid : signal.leader_bid_ticks ≡ primary.bid_price_ticks
    pub leader_ask : signal.leader_ask_ticks ≡ primary.ask_price_ticks
    pub lagger_bid : signal.lagger_bid_ticks ≡ hedge.bid_price_ticks
    pub lagger_ask : signal.lagger_ask_ticks ≡ hedge.ask_price_ticks
    pub at_now : signal.timestamp_ns ≡ now_ns
    pub bid_ask : signal.bid_ask_bps ≡ leg_bps primary.bid_price_ticks hedge.ask_price_ticks
    pub ask_bid : signal.ask_bid_bps ≡ leg_bps hedge.bid_price_ticks primary.ask_price_ticks
    pub wider :
        ((signal.direction ≡ long_lagger)
          × (signal.spread_bps ≡ signal.bid_ask_bps)
          × (ge_f64 fl signal.bid_ask_bps signal.ask_bid_bps ≡ true))
        ⊎ ((signal.direction ≡ short_lagger)
            × (signal.spread_bps ≡ signal.ask_bid_bps)
            × (ge_f64 fl signal.bid_ask_bps signal.ask_bid_bps ≡ false))

  signal_of-IsSignal :
      (cfg : LeadLagStrategyConfig fl) (symbol : String) (now_ns : ℤ) (primary hedge : BookTicker)
      → IsSignal cfg symbol now_ns primary hedge (signal_of fl cfg symbol now_ns primary hedge)
  unfolding signal_of
  signal_of-IsSignal cfg symbol now_ns primary hedge = record {
    same_symbol = refl;
    leads = refl;
    lags = refl;
    leader_bid = refl;
    leader_ask = refl;
    lagger_bid = refl;
    lagger_ask = refl;
    at_now = refl;
    bid_ask = ground arith;
    ask_bid = ground arith;
    wider = ground arith;
  }

  only_signal :
      (cfg : LeadLagStrategyConfig fl) (symbol : String) (now_ns : ℤ) (primary hedge : BookTicker)
      (signal : LeadLagSignal fl)
      → IsSignal cfg symbol now_ns primary hedge signal
      → signal ≡ signal_of fl cfg symbol now_ns primary hedge
  unfolding signal_of
  only_signal cfg symbol now_ns primary hedge signal i = ground arith

  -- What is asked of the two quotes of a symbol.
  pub record IsTradable (cfg : LeadLagStrategyConfig fl) (us : List BookUpdate) (now_ns : ℤ)
      (primary hedge : BookTicker) (signal : LeadLagSignal fl) : Type 0 where
    pub primary_received : pos 0 <ℤ primary.local_ts_ns
    pub hedge_received : pos 0 <ℤ hedge.local_ts_ns
    pub primary_young : IsNear (in_ns cfg.max_quote_age_ms) now_ns primary.local_ts_ns
    pub hedge_young : IsNear (in_ns cfg.max_quote_age_ms) now_ns hedge.local_ts_ns
    pub together : IsNear (in_ns cfg.max_quote_skew_ms) primary.local_ts_ns hedge.local_ts_ns
    pub leads :
        saturating_add hedge.exchange_ts_ns (hedge_offset us default_offset).cached_median_ns
        ≤ℤ saturating_add primary.exchange_ts_ns (primary_offset us default_offset).cached_median_ns
    pub wide : ge_f64 fl signal.spread_bps cfg.min_entry_spread_bps ≡ true

  module _ (cfg : LeadLagStrategyConfig fl) (us : List BookUpdate) (now_ns : ℤ)
      (primary hedge : BookTicker) (signal : LeadLagSignal fl) where
    abbrev after : LeadLagStrategy fl
    after = update_all fl us (new_strategy fl cfg)

    tradable :
        IsPassed fl after now_ns primary hedge signal
        → IsTradable cfg us now_ns primary hedge signal
    tradable p =
        let config = update_all_config fl us (new_strategy fl cfg) in
        let offsets = offsets-update_all fl us (new_strategy fl cfg) in
        record {
          primary_received = p.primary_received;
          hedge_received = p.hedge_received;
          primary_young =
              subst (λ c. IsNear (in_ns c.max_quote_age_ms) now_ns primary.local_ts_ns) config
                p.primary_young;
          hedge_young =
              subst (λ c. IsNear (in_ns c.max_quote_age_ms) now_ns hedge.local_ts_ns) config
                p.hedge_young;
          together =
              subst (λ c. IsNear (in_ns c.max_quote_skew_ms) primary.local_ts_ns hedge.local_ts_ns)
                config p.together;
          leads = ground (arith, p.leads, offsets.0, offsets.1);
          wide = ground (arith, p.wide, config);
        }

    passed :
        IsTradable cfg us now_ns primary hedge signal
        → IsPassed fl after now_ns primary hedge signal
    passed t =
        let config = sym (update_all_config fl us (new_strategy fl cfg)) in
        let offsets = offsets-update_all fl us (new_strategy fl cfg) in
        record {
          primary_received = t.primary_received;
          hedge_received = t.hedge_received;
          primary_young =
              subst (λ c. IsNear (in_ns c.max_quote_age_ms) now_ns primary.local_ts_ns) config
                t.primary_young;
          hedge_young =
              subst (λ c. IsNear (in_ns c.max_quote_age_ms) now_ns hedge.local_ts_ns) config
                t.hedge_young;
          together =
              subst (λ c. IsNear (in_ns c.max_quote_skew_ms) primary.local_ts_ns hedge.local_ts_ns)
                config t.together;
          leads = ground (arith, t.leads, offsets.0, offsets.1);
          wide = ground (arith, t.wide, config);
        }

  -- After any run of book updates a new strategy signals for a symbol exactly if both exchanges
  -- have quoted it, the latest quotes of both were received at times above 0, neither is further
  -- from now than the age limit, they are no further apart than the skew limit (where a limit of 0
  -- is none), the corrected time of the primary is not behind that of the hedge, and the spread
  -- reaches the entry threshold. The signal has the prices of these two quotes, both legs in basis
  -- points, and the direction and the spread of the wider leg, the long one if it compares at
  -- least as wide. A corrected time adds the offset that observing the quotes of that exchange one
  -- by one has left, and saturates.
  pub check_signal-Iff :
      (cfg : LeadLagStrategyConfig fl) (us : List BookUpdate) (symbol : String) (now_ns : ℤ)
      (signal : LeadLagSignal fl)
      → (check_signal fl (update_all fl us (new_strategy fl cfg)) symbol now_ns ≡ some signal) ↔ (
          (primary : BookTicker) × (hedge : BookTicker) × (latest_primary symbol us none
            ≡ some primary)
          × (latest_hedge symbol us none ≡ some hedge)
          × IsSignal cfg symbol now_ns primary hedge signal
          × IsTradable cfg us now_ns primary hedge signal)
  check_signal-Iff cfg us symbol now_ns signal =
      let passes = check_signal-Passes fl cfg us symbol now_ns signal in
      (
        (λ h.
            let (p, q, found, found', same, passed_checks) = passes.0 h in
            (
              p,
              q,
              found,
              found',
              subst (IsSignal cfg symbol now_ns p q) (sym same)
                  (signal_of-IsSignal cfg symbol now_ns p q),
              tradable cfg us now_ns p q signal passed_checks,
            )),
        (λ (p, q, found, found', is_signal, is_tradable). passes.1 (
          p,
          q,
          found,
          found',
          only_signal cfg symbol now_ns p q signal is_signal,
          passed cfg us now_ns p q signal is_tradable,
        )),
      )
