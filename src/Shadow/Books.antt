-- ===== src/Shadow/Books.antt =====
-- The books of the paper trader of hft-lead-lag/src/domain/screener/shadow_trader.rs: its trades, their
-- run ids and the counters of the session.
use hft_lead_lag.Prelude.{
  ◌+◌, ◌≤◌, ◌<◌, ◌≡◌, Bool, true, String, List, [], ◌∷◌, ◌++◌, Option, none, ℤ, ◌-%◌, arith, length,
  length-append, if◌then◌else◌, if_both, is_some, ltb_ℤ, ◌+%◌, option_cases, ap,
}
use hft_lead_lag.Prelude.Float.{Float64}
use hft_lead_lag.Quotes.{Quote}
use hft_lead_lag.Shadow.Types.{
  OpenPosition, ClosedTrade, ExitReason, PendingOrder, entry, exit, ShadowTrader,
}
use hft_lead_lag.Shadow.Orders.{
  exit_position, try_exit, pop_trades, closed_trade, fill_exit, fill, try_fill, fire_ts,
}
use hft_lead_lag.Shadow.Gap.{try_entry}
use hft_lead_lag.Shadow.Tick.{
  TickInput, begin_tick, exit_lifecycle, enter, tick_with_context, tick_cases, ticks,
}

module _ (fl : Float64) where
  -- Each kept trade has its run id; wins and kept trades are at most the trades of the session.
  pub record IsBalanced (s : ShadowTrader fl) : Type 0 where
    pub paired : length s.completed_trades ≡ length s.completed_trade_run_ids
    pub kept : length s.completed_trades ≤ s.session_trades
    pub won : s.session_wins ≤ s.session_trades

  -- Balanced books after at most one more trade.
  pub record OneMore (s t : ShadowTrader fl) : Type 0 where
    pub balanced : IsBalanced t
    pub grows : s.session_trades ≤ t.session_trades
    pub at_most_one : t.session_trades ≤ s.session_trades + 1

  length-pop_trades :
      (cutoff : ℤ) (ts : List (ClosedTrade fl)) (ids : List (Option String))
      → length ts ≡ length ids
      → (length (pop_trades fl cutoff ts ids).0 ≡ length (pop_trades fl cutoff ts ids).1)
        × (length (pop_trades fl cutoff ts ids).0 ≤ length ts)
  unfolding pop_trades
  length-pop_trades cutoff [] ids h = (h, omega arith)
  length-pop_trades cutoff (t ∷ ts) [] h = absurd (omega arith)
  length-pop_trades cutoff (t ∷ ts) (i ∷ ids) h =
      let rest = length-pop_trades cutoff ts ids (omega arith) in ground arith

  fill_exit-OneMore :
      (ts_ms : ℤ) (gate : Quote fl) (window_ms : ℤ) (position : OpenPosition fl)
      (reason : ExitReason) (s : ShadowTrader fl)
      → IsBalanced s
      → s.session_trades < 18_446_744_073_709_551_615
      → OneMore s (fill_exit fl ts_ms gate window_ms position reason s)
  unfolding fill_exit
  fill_exit-OneMore ts_ms gate window_ms position reason s b small =
      let trade = closed_trade fl s.config ts_ms gate position reason in
      let pushed = s.completed_trades ++ trade ∷ [] in
      let ids = s.completed_trade_run_ids ++ position.run_id ∷ [] in
      let more = length-append s.completed_trades (trade ∷ []) in
      let more_ids = length-append s.completed_trade_run_ids (position.run_id ∷ []) in
      let same : length pushed ≡ length ids = omega (arith, b.paired, more, more_ids) in
      let popped = length-pop_trades (ts_ms -% window_ms) pushed ids same in
      record {
        balanced = record {
          paired = popped.0;
          kept = omega (arith, popped.1, b.kept, more);
          won = ground (arith, b.won);
        };
        grows = omega arith;
        at_most_one = omega arith;
      }

  same-OneMore : (s : ShadowTrader fl) → IsBalanced s → OneMore s s
  same-OneMore s b = record { balanced = b; grows = omega arith; at_most_one = omega arith }

  fill-OneMore :
      (ts_ms : ℤ) (gate : Quote fl) (window_ms : ℤ) (order : PendingOrder fl) (s : ShadowTrader fl)
      → IsBalanced s
      → s.session_trades < 18_446_744_073_709_551_615
      → OneMore s (fill fl ts_ms gate window_ms order s)
  unfolding fill
  fill-OneMore ts_ms gate window_ms (entry order) s b small = record {
    balanced = record { paired = b.paired; kept = b.kept; won = b.won };
    grows = omega arith;
    at_most_one = omega arith;
  }
  fill-OneMore ts_ms gate window_ms (exit order) s b small =
      let cleared : ShadowTrader fl = record s { pending = none } in
      let f =
        fill_exit-OneMore ts_ms gate window_ms order.held order.reason cleared
          (record { paired = b.paired; kept = b.kept; won = b.won }) small in
      record { balanced = f.balanced; grows = f.grows; at_most_one = f.at_most_one }

  try_fill-OneMore :
      (ts_ms : ℤ) (gate : Quote fl) (window_ms : ℤ) (s : ShadowTrader fl)
      → IsBalanced s
      → s.session_trades < 18_446_744_073_709_551_615
      → OneMore s (try_fill fl ts_ms gate window_ms s)
  unfolding try_fill
  try_fill-OneMore ts_ms gate window_ms s b small =
      let kept = same-OneMore s b in
      option_cases (λ t. OneMore s t) s.pending s
        (λ order.
          if ltb_ℤ ts_ms (fire_ts fl order +% s.config.fill_delay_ms)
          then s
          else fill fl ts_ms gate window_ms order s)
        (λ e. kept)
        (λ order e.
          if_both (λ t. OneMore s t) (ltb_ℤ ts_ms (fire_ts fl order +% s.config.fill_delay_ms)) s
            (fill fl ts_ms gate window_ms order s) kept
            (fill-OneMore ts_ms gate window_ms order s b small))

  -- The counters and the trades are as they were.
  pub record SameBooks (s t : ShadowTrader fl) : Type 0 where
    pub same_trades : t.completed_trades ≡ s.completed_trades
    pub same_ids : t.completed_trade_run_ids ≡ s.completed_trade_run_ids
    pub same_count : t.session_trades ≡ s.session_trades
    pub same_wins : t.session_wins ≡ s.session_wins

  pub try_exit-SameBooks :
      (ts_ms : ℤ) (gate : Quote fl) (s : ShadowTrader fl) → SameBooks s (try_exit fl ts_ms gate s)
  unfolding try_exit exit_position
  try_exit-SameBooks ts_ms gate s = ground arith

  pub enter-SameBooks : (i : TickInput fl) (s : ShadowTrader fl) → SameBooks s (enter fl i s)
  unfolding enter try_entry
  enter-SameBooks i s = ground arith

  keep-OneMore : (s t u : ShadowTrader fl) → OneMore s t → SameBooks t u → OneMore s u
  keep-OneMore s t u f g = record {
    balanced = record {
      paired = omega (arith, f.balanced.paired, ap length g.same_trades, ap length g.same_ids);
      kept = omega (arith, f.balanced.kept, ap length g.same_trades, g.same_count);
      won = omega (arith, f.balanced.won, g.same_wins, g.same_count);
    };
    grows = omega (arith, f.grows, g.same_count);
    at_most_one = omega (arith, f.at_most_one, g.same_count);
  }

  exit_lifecycle-OneMore :
      (i : TickInput fl) (s : ShadowTrader fl)
      → IsBalanced s
      → s.session_trades < 18_446_744_073_709_551_615
      → OneMore s (exit_lifecycle fl i s).1
  unfolding exit_lifecycle
  exit_lifecycle-OneMore i s b small =
      let filled = try_fill fl i.ts_ms i.gate i.window_ms s in
      let exited = try_exit fl i.ts_ms i.gate filled in
      let f = try_fill-OneMore i.ts_ms i.gate i.window_ms s b small in
      if_both (λ (r : Bool × ShadowTrader fl). OneMore s r.1) (is_some filled.pending)
        (true, filled) (is_some exited.pending, exited) f
        (keep-OneMore s filled exited f (try_exit-SameBooks i.ts_ms i.gate filled))

  keep_begun :
      (i : TickInput fl) (s t : ShadowTrader fl) → OneMore (begin_tick fl i.ts_ms s) t → OneMore s t
  unfolding begin_tick
  keep_begun i s t f = record {
    balanced = f.balanced;
    grows = f.grows;
    at_most_one = f.at_most_one;
  }

  pub tick-OneMore :
      (i : TickInput fl) (s : ShadowTrader fl)
      → IsBalanced s
      → s.session_trades < 18_446_744_073_709_551_615
      → OneMore s (tick_with_context fl i s)
  unfolding begin_tick
  tick-OneMore i s b small =
      let begun = begin_tick fl i.ts_ms s in
      let b' : IsBalanced begun = record { paired = b.paired; kept = b.kept; won = b.won } in
      let view = λ (t : ShadowTrader fl) (f : OneMore begun t). keep_begun i s t f in
      let m = exit_lifecycle-OneMore i begun b' small in
      let managed = (exit_lifecycle fl i begun).1 in
      tick_cases fl (λ t. OneMore s t) i s (view begun (same-OneMore begun b')) (view managed m)
        (λ e.
          view (enter fl i managed)
            (keep-OneMore begun managed (enter fl i managed) m (enter-SameBooks i managed)))

  -- Any run of ticks keeps the books of a trader balanced: as many run ids as kept trades, no more
  -- kept trades and no more wins than trades of the session; and these grow by at most one per
  -- tick, if the 64-bit counter has room for the ticks.
  pub ticks-IsBalanced :
      (is : List (TickInput fl)) (s : ShadowTrader fl)
      → IsBalanced s
      → s.session_trades + length is ≤ 18_446_744_073_709_551_615
      → IsBalanced (ticks fl is s) × ((ticks fl is s).session_trades ≤ s.session_trades + length is)
  unfolding ticks
  ticks-IsBalanced [] s b h = (b, omega arith)
  ticks-IsBalanced (i ∷ is) s b h =
      let one = tick-OneMore i s b (omega arith) in
      let t = tick_with_context fl i s in
      let (balanced, count) = ticks-IsBalanced is t one.balanced (omega (arith, one.at_most_one)) in
      (balanced, omega (arith, count, one.at_most_one))
