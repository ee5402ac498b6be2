-- ===== src/LeadLag/Strategy.antt =====
-- `LeadLagStrategy` of hft-lead-lag/src/application/services/lead_lag.rs. Its list of positions, which
-- nothing fills, is left out.
use Prim.Native.Nat.{Ordering}
use hft_lead_lag.Prelude.{
  ℕ, ◌*◌, min, Bool, true, false, ◌&&◌, ◌||◌, String, List, [], Option, none, some, ℤ, pos, ◌-ℤ◌,
  ltb, leb_ℤ, ltb_ℤ, unsigned_abs, u64_max, if◌then◌else◌, string_key,
}
use hft_lead_lag.Prelude.Maps.{lookup, insert}
use hft_lead_lag.Prelude.Float.{Float64, ge_f64}
use hft_lead_lag.LeadLag.Types.{
  BookTicker, LeadLagSignal, LeadLagStrategyConfig, long_lagger, short_lagger,
}
use hft_lead_lag.LeadLag.Offset.{
  ExchangeClockOffset, default_offset, observe_ns, corrected_exchange_ts_ns,
}

pub record LeadLagStrategy (fl : Float64) : Type 0 where
  pub config : LeadLagStrategyConfig fl
  pub primary_books : List (String × BookTicker)
  pub hedge_books : List (String × BookTicker)
  pub primary_clock_offset : ExchangeClockOffset
  pub hedge_clock_offset : ExchangeClockOffset

-- `saturating_mul(1_000_000)` of a `u64`.
abbrev pub ms_to_ns : ℕ → ℕ
ms_to_ns ms = min (ms * 1_000_000) u64_max

-- Whether two times are further apart than a limit, which 0 turns off.
abbrev pub too_far : ℕ → ℤ → ℤ → Bool
too_far limit a b = ltb 0 limit && ltb limit (unsigned_abs (a -ℤ b))

module _ (fl : Float64) where
  abbrev pub new_strategy : LeadLagStrategyConfig fl → LeadLagStrategy fl
  new_strategy config = record {
    config = config;
    primary_books = [];
    hedge_books = [];
    primary_clock_offset = default_offset;
    hedge_clock_offset = default_offset;
  }

  unfoldable pub update_primary_book : BookTicker → LeadLagStrategy fl → LeadLagStrategy fl
  update_primary_book ticker s = record s {
    primary_clock_offset =
        observe_ns ticker.local_ts_ns ticker.exchange_ts_ns s.primary_clock_offset;
    primary_books = insert ticker.symbol ticker s.primary_books;
  }

  unfoldable pub update_hedge_book : BookTicker → LeadLagStrategy fl → LeadLagStrategy fl
  update_hedge_book ticker s = record s {
    hedge_clock_offset = observe_ns ticker.local_ts_ns ticker.exchange_ts_ns s.hedge_clock_offset;
    hedge_books = insert ticker.symbol ticker s.hedge_books;
  }

  abbrev pub ticks_to_decimal : ℤ → fl.F
  ticks_to_decimal ticks = fl.div (fl.of_int ticks) (fl.ratio 100_000_000 1)

  -- `x == 0.0`
  abbrev pub is_zero : fl.F → Bool
  is_zero x = elim (fl.partial_cmp x (fl.ratio 0 1)) [
    | none ↦ false
    | some o ↦ elim o [ Ordering.eq ↦ true | _ ↦ false ]
  ]

  abbrev pub calculate_spread_bps : fl.F → fl.F → fl.F
  calculate_spread_bps leader_price lagger_price =
      if is_zero lagger_price
      then fl.ratio 0 1
      else fl.mul (fl.div (fl.sub leader_price lagger_price) lagger_price) (fl.ratio 10_000 1)

  abbrev pub directional_spread_bps : ℤ → ℤ → fl.F
  directional_spread_bps top bottom =
      calculate_spread_bps (ticks_to_decimal top) (ticks_to_decimal bottom)

  -- The signal of two quotes: the wider of the two legs.
  unfoldable pub signal_of :
      LeadLagStrategyConfig fl → String → ℤ → BookTicker → BookTicker → LeadLagSignal fl
  signal_of cfg symbol now_ns primary hedge =
      let bid_ask_bps = directional_spread_bps primary.bid_price_ticks hedge.ask_price_ticks in
      let ask_bid_bps = directional_spread_bps hedge.bid_price_ticks primary.ask_price_ticks in
      let is_long = ge_f64 fl bid_ask_bps ask_bid_bps in
      record {
        symbol = symbol;
        leader = cfg.primary_exchange;
        lagger = cfg.hedge_exchange;
        leader_bid_ticks = primary.bid_price_ticks;
        leader_ask_ticks = primary.ask_price_ticks;
        lagger_bid_ticks = hedge.bid_price_ticks;
        lagger_ask_ticks = hedge.ask_price_ticks;
        spread_bps = if is_long then bid_ask_bps else ask_bid_bps;
        direction = if is_long then long_lagger else short_lagger;
        bid_ask_bps = bid_ask_bps;
        ask_bid_bps = ask_bid_bps;
        timestamp_ns = now_ns;
      }

  -- The check of two quotes, after both are found.
  unfoldable pub check_quotes :
      LeadLagStrategy fl → String → ℤ → BookTicker → BookTicker → Option (LeadLagSignal fl)
  check_quotes s symbol now_ns primary hedge =
      let age = ms_to_ns s.config.max_quote_age_ms in
      let skew = ms_to_ns s.config.max_quote_skew_ms in
      let primary_ts = corrected_exchange_ts_ns s.primary_clock_offset primary.exchange_ts_ns in
      let hedge_ts = corrected_exchange_ts_ns s.hedge_clock_offset hedge.exchange_ts_ns in
      let signal = signal_of s.config symbol now_ns primary hedge in
      if leb_ℤ primary.local_ts_ns (pos 0) || leb_ℤ hedge.local_ts_ns (pos 0)
      then none
      else if too_far age now_ns primary.local_ts_ns || too_far age now_ns hedge.local_ts_ns
      then none
      else if too_far skew primary.local_ts_ns hedge.local_ts_ns
      then none
      else if ltb_ℤ primary_ts hedge_ts
      then none
      else if ge_f64 fl signal.spread_bps s.config.min_entry_spread_bps
      then some signal
      else none

  unfoldable pub check_signal : LeadLagStrategy fl → String → ℤ → Option (LeadLagSignal fl)
  check_signal s symbol now_ns = elim (lookup symbol s.primary_books) [
    | none ↦ none
    | some primary ↦ elim (lookup symbol s.hedge_books) [
      | none ↦ none
      | some hedge ↦ check_quotes s symbol now_ns primary hedge
    ]
  ]
