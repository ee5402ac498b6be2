-- ===== src/Shadow/Deadlines.antt =====
-- How long a position of hft-lead-lag/src/domain/screener/shadow_trader.rs can stay open.
use hft_lead_lag.Prelude.{
  ◌≡◌, refl, ◌∙◌, Bool, true, false, none, some, ℤ, ◌-%◌, ◌+%◌, arith, is_some, leb_ℤ, ltb_ℤ,
  option_cases, if_cases, if_both, if◌then◌else◌, ap, sym, subst, leb, unsigned_abs,
}
use hft_lead_lag.Prelude.Float.{Float64}
use hft_lead_lag.Quotes.{Quote}
use hft_lead_lag.Shadow.Config.{TraderConfig}
use hft_lead_lag.Shadow.Types.{OpenPosition, ShadowTrader}
use hft_lead_lag.Shadow.Orders.{
  unrealized_bps, mark_position, determine_exit_reason, exit_position, try_exit, fill_exit, fill,
  try_fill, fire_ts, wrapping_inc,
}
use hft_lead_lag.Shadow.Gap.{try_entry}
use hft_lead_lag.Shadow.Tick.{
  TickInput, is_fresh, begin_tick, exit_lifecycle, enter, tick_with_context, tick_fresh_cases,
  as_u64,
}
use hft_lead_lag.Shadow.Life.{exiting, life}

module _ (fl : Float64) where
  -- Past the longest hold there is always a reason to exit, whatever the prices are.
  determine_exit_reason-late :
      (cfg : TraderConfig fl) (position : OpenPosition fl) (unrealized : fl.F) (hold_ms : ℤ)
      → leb_ℤ cfg.max_hold_ms hold_ms ≡ true
      → is_some (determine_exit_reason fl cfg position unrealized hold_ms) ≡ true
  unfolding determine_exit_reason
  determine_exit_reason-late cfg position unrealized hold_ms late = ground arith

  -- The exit order of `now` stands, no position is held, and no trade has been closed.
  pub record HasExit (now : ℤ) (s t : ShadowTrader fl) : Type 0 where
    pub ordered : life fl t ≡ exiting now
    pub not_held : is_some t.position ≡ false
    pub same_count : t.session_trades ≡ s.session_trades
    pub same_config : t.config ≡ s.config

  exit_position-HasExit :
      (ts_ms : ℤ) (gate : Quote fl) (position : OpenPosition fl) (s : ShadowTrader fl)
      → leb_ℤ s.config.max_hold_ms (ts_ms -% position.entry_ts_ms) ≡ true
      → HasExit ts_ms s (exit_position fl ts_ms gate position s)
  unfolding exit_position
  exit_position-HasExit ts_ms gate position s late =
      let marked = mark_position fl s.config position gate in
      let reason =
        determine_exit_reason-late s.config marked (unrealized_bps fl position gate)
          (ts_ms -% position.entry_ts_ms) late in
      ground arith

  try_fill-idle :
      (ts_ms : ℤ) (gate : Quote fl) (window_ms : ℤ) (s : ShadowTrader fl)
      → s.pending ≡ none
      → try_fill fl ts_ms gate window_ms s ≡ s
  unfolding try_fill
  try_fill-idle ts_ms gate window_ms s p =
      option_cases (λ t. t ≡ s) s.pending s
        (λ order.
          if ltb_ℤ ts_ms (fire_ts fl order +% s.config.fill_delay_ms)
          then s
          else fill fl ts_ms gate window_ms order s)
        (λ e. refl) (λ order e. absurd (ground (arith, e, p)))

  try_exit-HasExit :
      (ts_ms : ℤ) (gate : Quote fl) (s : ShadowTrader fl) (position : OpenPosition fl)
      → s.position ≡ some position
      → leb_ℤ s.config.max_hold_ms (ts_ms -% position.entry_ts_ms) ≡ true
      → HasExit ts_ms s (try_exit fl ts_ms gate s)
  unfolding try_exit
  try_exit-HasExit ts_ms gate s position q late =
      option_cases (λ t. HasExit ts_ms s t) s.position s (λ p. exit_position fl ts_ms gate p s)
        (λ e. absurd (ground (arith, e, q)))
        (λ p e. exit_position-HasExit ts_ms gate p s (ground (arith, late, e, q)))

  exit_lifecycle-HasExit :
      (i : TickInput fl) (s : ShadowTrader fl) (position : OpenPosition fl)
      → s.pending ≡ none
      → s.position ≡ some position
      → leb_ℤ s.config.max_hold_ms (i.ts_ms -% position.entry_ts_ms) ≡ true
      → HasExit i.ts_ms s (exit_lifecycle fl i s).1 × ((exit_lifecycle fl i s).0 ≡ true)
  unfolding exit_lifecycle
  exit_lifecycle-HasExit i s position p q late =
      let filled = try_fill fl i.ts_ms i.gate i.window_ms s in
      let exit_of = λ (t : ShadowTrader fl). try_exit fl i.ts_ms i.gate t in
      let same = try_fill-idle i.ts_ms i.gate i.window_ms s p in
      let has = try_exit-HasExit i.ts_ms i.gate s position q late in
      let done : is_some (exit_of s).pending ≡ true = ground (arith, has.ordered) in
      if_cases (λ (r : Bool × ShadowTrader fl). HasExit i.ts_ms s r.1 × (r.0 ≡ true))
        (is_some filled.pending) (true, filled) (is_some (exit_of filled).pending, exit_of filled)
        (λ e. absurd (ground (arith, e, p, ap (λ (t : ShadowTrader fl). is_some t.pending) same)))
        (λ e.
          subst
            (λ (f : ShadowTrader fl).
              HasExit i.ts_ms s (exit_of f) × (is_some (exit_of f).pending ≡ true))
            (sym same) (has, done))

  -- From an open position that is held too long, the first tick orders the exit.
  first_tick :
      (i : TickInput fl) (s : ShadowTrader fl) (position : OpenPosition fl)
      → s.pending ≡ none
      → s.position ≡ some position
      → is_fresh fl s i.ts_ms i.gate ≡ true
      → leb_ℤ s.config.max_hold_ms (i.ts_ms -% position.entry_ts_ms) ≡ true
      → HasExit i.ts_ms s (tick_with_context fl i s)
  unfolding begin_tick
  first_tick i s position p q fresh late =
      let begun = begin_tick fl i.ts_ms s in
      let (has, done) = exit_lifecycle-HasExit i begun position p q late in
      tick_fresh_cases fl (λ t. HasExit i.ts_ms s t) i s fresh
        (record {
          ordered = has.ordered;
          not_held = has.not_held;
          same_count = has.same_count;
          same_config = has.same_config;
        })
        (λ e. absurd (ground (arith, e, done)))

  -- A trade has been closed, and no position is held.
  pub record HasClosed (s t : ShadowTrader fl) : Type 0 where
    pub counted : t.session_trades ≡ wrapping_inc s.session_trades
    pub free : is_some t.position ≡ false

  try_fill-HasClosed :
      (ts_ms : ℤ) (gate : Quote fl) (window_ms : ℤ) (s : ShadowTrader fl) (fire : ℤ)
      → life fl s ≡ exiting fire
      → is_some s.position ≡ false
      → ltb_ℤ ts_ms (fire +% s.config.fill_delay_ms) ≡ false
      → HasClosed s (try_fill fl ts_ms gate window_ms s)
  unfolding try_fill fill fill_exit
  try_fill-HasClosed ts_ms gate window_ms s fire o p due = ground arith

  try_exit-HasClosed :
      (ts_ms : ℤ) (gate : Quote fl) (s t : ShadowTrader fl)
      → HasClosed s t
      → HasClosed s (try_exit fl ts_ms gate t)
  unfolding try_exit
  try_exit-HasClosed ts_ms gate s t c =
      option_cases (λ u. HasClosed s u) t.position t (λ p. exit_position fl ts_ms gate p t) (λ e. c)
        (λ p e. absurd (ground (arith, e, c.free)))

  enter-HasClosed :
      (i : TickInput fl) (s t : ShadowTrader fl) → HasClosed s t → HasClosed s (enter fl i t)
  unfolding enter try_entry
  enter-HasClosed i s t c = ground arith

  -- The tick that finds the exit order due closes the trade.
  second_tick :
      (i : TickInput fl) (s : ShadowTrader fl) (fire : ℤ)
      → life fl s ≡ exiting fire
      → is_some s.position ≡ false
      → is_fresh fl s i.ts_ms i.gate ≡ true
      → ltb_ℤ i.ts_ms (fire +% s.config.fill_delay_ms) ≡ false
      → HasClosed s (tick_with_context fl i s)
  unfolding begin_tick exit_lifecycle
  second_tick i s fire o p fresh due =
      let begun = begin_tick fl i.ts_ms s in
      let filled = try_fill fl i.ts_ms i.gate i.window_ms begun in
      let exited = try_exit fl i.ts_ms i.gate filled in
      let c = try_fill-HasClosed i.ts_ms i.gate i.window_ms begun fire o p due in
      let d = try_exit-HasClosed i.ts_ms i.gate begun filled c in
      let m =
        if_both (λ (r : Bool × ShadowTrader fl). HasClosed s r.1) (is_some filled.pending)
          (true, filled) (is_some exited.pending, exited)
          (record { counted = c.counted; free = c.free })
          (record { counted = d.counted; free = d.free }) in
      tick_fresh_cases fl (λ t. HasClosed s t) i s fresh m
        (λ e. enter-HasClosed i s (exit_lifecycle fl i begun).1 m)

  -- A position without an order, which the gate quote of a tick i finds fresh and held for the
  -- maximum time, is closed by i and any later tick j whose gate quote is fresh and which comes
  -- after the fill delay, run one after the other, whatever the prices: one trade more is counted
  -- (as a 64-bit counter) and no position is left. The hold time and the end of the fill delay are
  -- computed in 64-bit arithmetic, which wraps.
  pub closes_in_time :
      (i j : TickInput fl) (s : ShadowTrader fl) (position : OpenPosition fl)
      → s.pending ≡ none
      → s.position ≡ some position
      → is_fresh fl s i.ts_ms i.gate ≡ true
      → leb_ℤ s.config.max_hold_ms (i.ts_ms -% position.entry_ts_ms) ≡ true
      → is_fresh fl s j.ts_ms j.gate ≡ true
      → ltb_ℤ j.ts_ms (i.ts_ms +% s.config.fill_delay_ms) ≡ false
      → HasClosed s (tick_with_context fl j (tick_with_context fl i s))
  closes_in_time i j s position p q fresh late fresh' due =
      let t = tick_with_context fl i s in
      let has = first_tick i s position p q fresh late in
      let closed =
        second_tick j t i.ts_ms has.ordered has.not_held
          (subst
            (λ (c : TraderConfig fl).
              leb (unsigned_abs (j.ts_ms -% j.gate.ts_ms)) (as_u64 c.quote_freshness_ms) ≡ true)
            (sym has.same_config) fresh')
          (subst (λ (c : TraderConfig fl). ltb_ℤ j.ts_ms (i.ts_ms +% c.fill_delay_ms) ≡ false)
            (sym has.same_config) due) in
      record { counted = closed.counted ∙ ap wrapping_inc has.same_count; free = closed.free }
