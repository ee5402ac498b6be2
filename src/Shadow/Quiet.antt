-- ===== src/Shadow/Quiet.antt =====
-- When the paper trader of hft-lead-lag/src/domain/screener/shadow_trader.rs leaves the market alone:
-- while it warms up and while it cools down.
use hft_lead_lag.Prelude.{
  ℕ, ◌≡◌, Bool, true, ◌||◌, List, [], ◌∷◌, none, some, ℤ, ◌⊎◌, arith, is_some, ltb_ℤ,
  saturating_sub, option_cases, if_cases, if_both, ◌+%◌, if◌then◌else◌, All,
}
use hft_lead_lag.Prelude.Float.{Float64}
use hft_lead_lag.Shadow.Config.{TraderConfig}
use hft_lead_lag.Shadow.Types.{ShadowTrader}
use hft_lead_lag.Shadow.Orders.{try_exit, try_fill, exit_position, fill, fire_ts}
use hft_lead_lag.Shadow.Gap.{try_entry, place_entry, detect_gap, too_wide}
use hft_lead_lag.Shadow.Tick.{
  TickInput, or_start, begin_tick, exit_lifecycle, enter, tick_with_context, tick_cases, ticks,
}

module _ (fl : Float64) where
  -- No order and no position; the start, the cooldown and the settings are those given.
  pub record IsIdle (cfg : TraderConfig fl) (start until : ℤ) (count : ℕ) (s : ShadowTrader fl)
      : Type 0 where
    pub no_order : s.pending ≡ none
    pub no_position : s.position ≡ none
    pub same_start : s.start_ts_ms ≡ some start
    pub same_until : s.cooldown_until_ms ≡ until
    pub same_count : s.session_trades ≡ count
    pub same_config : s.config ≡ cfg

  -- A tick before the end of the cooldown, or within the warmup.
  abbrev pub IsEarly : TraderConfig fl → ℤ → ℤ → TickInput fl → Type 0
  IsEarly cfg start until i =
      (ltb_ℤ i.ts_ms until ≡ true) ⊎ (ltb_ℤ (saturating_sub i.ts_ms start) cfg.warmup_ms ≡ true)

  module _ (cfg : TraderConfig fl) (start until : ℤ) (count : ℕ) where
    begin_tick-IsIdle :
        (ts_ms : ℤ) (s : ShadowTrader fl)
        → IsIdle cfg start until count s
        → IsIdle cfg start until count (begin_tick fl ts_ms s)
    unfolding begin_tick
    begin_tick-IsIdle ts_ms s h = record {
      no_order = h.no_order;
      no_position = h.no_position;
      same_start = ground arith;
      same_until = h.same_until;
      same_count = h.same_count;
      same_config = h.same_config;
    }

    exit_lifecycle-IsIdle :
        (i : TickInput fl) (s : ShadowTrader fl)
        → IsIdle cfg start until count s
        → IsIdle cfg start until count (exit_lifecycle fl i s).1
    unfolding exit_lifecycle try_fill try_exit
    exit_lifecycle-IsIdle i s h =
        let filled = try_fill fl i.ts_ms i.gate i.window_ms s in
        let exited = try_exit fl i.ts_ms i.gate filled in
        let f : IsIdle cfg start until count filled =
          option_cases (λ t. IsIdle cfg start until count t) s.pending s
            (λ order.
              if ltb_ℤ i.ts_ms (fire_ts fl order +% s.config.fill_delay_ms)
              then s
              else fill fl i.ts_ms i.gate i.window_ms order s)
            (λ e. h) (λ order e. absurd (ground (arith, e, h.no_order))) in
        let x : IsIdle cfg start until count exited =
          option_cases (λ t. IsIdle cfg start until count t) filled.position filled
            (λ p. exit_position fl i.ts_ms i.gate p filled) (λ e. f)
            (λ p e. absurd (ground (arith, e, f.no_position))) in
        if_both (λ (r : Bool × ShadowTrader fl). IsIdle cfg start until count r.1)
          (is_some filled.pending) (true, filled) (is_some exited.pending, exited) f x

    enter-IsIdle :
        (i : TickInput fl) (s : ShadowTrader fl)
        → IsEarly cfg start until i
        → IsIdle cfg start until count s
        → IsIdle cfg start until count (enter fl i s)
    unfolding enter try_entry
    enter-IsIdle i s early h =
        let P : ShadowTrader fl → Type 0 = λ t. IsIdle cfg start until count t in
        let elapsed = saturating_sub i.ts_ms (or_start s.start_ts_ms i.ts_ms) in
        let placed =
          place_entry fl i.ts_ms i.gate i.gate_natr_30m_pct_at_entry i.run_id
            (detect_gap fl s.config i.ts_ms i.binance i.gate i.samples) s in
        if_cases P (ltb_ℤ elapsed s.config.warmup_ms) s
          (try_entry fl i.ts_ms i.binance i.gate i.samples i.gate_natr_30m_pct_at_entry i.run_id s)
          (λ warm. h)
          (λ hot.
            if_cases P
              (is_some s.position || is_some s.pending || ltb_ℤ i.ts_ms s.cooldown_until_ms) s
              (if too_wide fl s.config i.gate then s else placed) (λ busy. h)
              (λ free. absurd (
                ground (
                  arith, early, hot, free, h.no_order, h.no_position, h.same_start, h.same_until,
                  h.same_config,
                ))))

    tick-IsIdle :
        (i : TickInput fl) (s : ShadowTrader fl)
        → IsEarly cfg start until i
        → IsIdle cfg start until count s
        → IsIdle cfg start until count (tick_with_context fl i s)
    tick-IsIdle i s early h =
        let begun = begin_tick-IsIdle i.ts_ms s h in
        let managed = exit_lifecycle-IsIdle i (begin_tick fl i.ts_ms s) begun in
        tick_cases fl (λ t. IsIdle cfg start until count t) i s begun managed
          (λ e. enter-IsIdle i (exit_lifecycle fl i (begin_tick fl i.ts_ms s)).1 early managed)

    -- A trader without order and position, with a given start, end of cooldown and number of
    -- trades, keeps all of these through any run of ticks of which each comes before the end of
    -- the cooldown or within the warmup after the start.
    pub ticks-IsIdle :
        (is : List (TickInput fl)) (s : ShadowTrader fl)
        → All (IsEarly cfg start until) is
        → IsIdle cfg start until count s
        → IsIdle cfg start until count (ticks fl is s)
    unfolding ticks
    ticks-IsIdle [] s early h = h
    ticks-IsIdle (i ∷ is) s early h =
        ticks-IsIdle is (tick_with_context fl i s) early.1 (tick-IsIdle i s early.0 h)
