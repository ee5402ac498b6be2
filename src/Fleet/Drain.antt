-- ===== src/Fleet/Drain.antt =====
-- A trade that a paper trader closes reaches the fleet's buffer once:
-- hft-lead-lag/src/domain/screener/shadow_fleet.rs with shadow_trader.rs beside it.
use hft_lead_lag.Prelude.{
  suc, ◌-◌, ◌≡◌, refl, Bool, true, List, [], ◌∷◌, ◌++◌, Option, some, ℤ, ◌-%◌, String, arith,
  length, drop, ◌⊎◌, inl, inr, ap, ◌∙◌, leb_ℤ, if_both, option_cases, is_some, ltb_ℤ, ◌+%◌,
  if◌then◌else◌,
}
use hft_lead_lag.Prelude.Float.{Float64}
use hft_lead_lag.Prices.{last}
use hft_lead_lag.Quotes.{Quote}
use hft_lead_lag.Shadow.Types.{ClosedTrade, PendingOrder, entry, exit, ShadowTrader}
use hft_lead_lag.Shadow.Orders.{pop_trades, fill, fill_exit, try_fill, try_exit, fire_ts}
use hft_lead_lag.Shadow.Tick.{
  TickInput, begin_tick, exit_lifecycle, enter, tick_with_context, tick_cases,
}
use hft_lead_lag.Shadow.Books.{SameBooks, try_exit-SameBooks, enter-SameBooks}

module _ {ℓ} {A : Type ℓ} where
  last-append : (xs : List A) (x : A) → last (xs ++ x ∷ []) ≡ some x
  last-append [] x = refl
  last-append (y ∷ []) x = refl
  last-append (y ∷ z ∷ zs) x = last-append (z ∷ zs) x

  pub drop_to_last : (xs : List A) (x : A) → last xs ≡ some x → drop (length xs - 1) xs ≡ x ∷ []
  drop_to_last [] x h = absurd (ground (arith, h))
  drop_to_last (y ∷ []) x h = ground (arith, h)
  drop_to_last (y ∷ z ∷ zs) x h =
      let down : suc (suc (length zs)) - 1 ≡ suc (suc (length zs) - 1) = omega arith in
      ap (λ n. drop n (y ∷ z ∷ zs)) down ∙ drop_to_last (z ∷ zs) x h

module _ (fl : Float64) where
  -- No trade was added, or the newest is of the time of the tick.
  abbrev pub Listed : ℤ → ShadowTrader fl → ShadowTrader fl → Type 0
  Listed ts_ms s t =
      (t.session_trades ≡ s.session_trades)
      ⊎ ((trade : ClosedTrade fl) × (last t.completed_trades ≡ some trade) × (trade.ts_ms ≡ ts_ms))

  last-pop_trades :
      (cutoff : ℤ) (ts : List (ClosedTrade fl)) (trade : ClosedTrade fl)
      (ids : List (Option String))
      → leb_ℤ cutoff trade.ts_ms ≡ true
      → last (pop_trades fl cutoff (ts ++ trade ∷ []) ids).0 ≡ some trade
  unfolding pop_trades
  last-pop_trades cutoff [] trade [] h = ground arith
  last-pop_trades cutoff [] trade (i ∷ ids) h = ground arith
  last-pop_trades cutoff (t ∷ ts) trade [] h =
      ground (arith, last-append (t ∷ ts) trade, last-pop_trades cutoff ts trade [] h)
  last-pop_trades cutoff (t ∷ ts) trade (i ∷ ids) h =
      ground (arith, last-append (t ∷ ts) trade, last-pop_trades cutoff ts trade ids h)

  module _ (ts_ms window_ms : ℤ) (keeps : leb_ℤ (ts_ms -% window_ms) ts_ms ≡ true) where
    fill-Listed :
        (gate : Quote fl) (order : PendingOrder fl) (s : ShadowTrader fl)
        → Listed ts_ms s (fill fl ts_ms gate window_ms order s)
    unfolding fill fill_exit
    fill-Listed gate (entry order) s = inl refl
    fill-Listed gate (exit order) s = inr (
      _,
      last-pop_trades (ts_ms -% window_ms) s.completed_trades _
          (s.completed_trade_run_ids ++ order.held.run_id ∷ []) keeps,
      refl,
    )

    try_fill-Listed :
        (gate : Quote fl) (s : ShadowTrader fl)
        → Listed ts_ms s (try_fill fl ts_ms gate window_ms s)
    unfolding try_fill
    try_fill-Listed gate s =
        option_cases (Listed ts_ms s) s.pending s
          (λ order.
            if ltb_ℤ ts_ms (fire_ts fl order +% s.config.fill_delay_ms)
            then s
            else fill fl ts_ms gate window_ms order s)
          (λ e. inl refl)
          (λ order e.
            if_both (Listed ts_ms s) (ltb_ℤ ts_ms (fire_ts fl order +% s.config.fill_delay_ms)) s
              (fill fl ts_ms gate window_ms order s) (inl refl) (fill-Listed gate order s))

  keep-Listed :
      (ts_ms : ℤ) (s t u : ShadowTrader fl) → Listed ts_ms s t → SameBooks fl t u → Listed ts_ms s u
  keep-Listed ts_ms s t u (inl same) b = inl (b.same_count ∙ same)
  keep-Listed ts_ms s t u (inr (trade, newest, time)) b =
      inr (trade, ap last b.same_trades ∙ newest, time)

  exit_lifecycle-Listed :
      (i : TickInput fl) (s : ShadowTrader fl)
      → leb_ℤ (i.ts_ms -% i.window_ms) i.ts_ms ≡ true
      → Listed i.ts_ms s (exit_lifecycle fl i s).1
  unfolding exit_lifecycle
  exit_lifecycle-Listed i s keeps =
      let filled = try_fill fl i.ts_ms i.gate i.window_ms s in
      let exited = try_exit fl i.ts_ms i.gate filled in
      let f = try_fill-Listed i.ts_ms i.window_ms keeps i.gate s in
      if_both (λ (r : Bool × ShadowTrader fl). Listed i.ts_ms s r.1) (is_some filled.pending)
        (true, filled) (is_some exited.pending, exited) f
        (keep-Listed i.ts_ms s filled exited f (try_exit-SameBooks fl i.ts_ms i.gate filled))

  pub tick-Listed :
      (i : TickInput fl) (s : ShadowTrader fl)
      → leb_ℤ (i.ts_ms -% i.window_ms) i.ts_ms ≡ true
      → Listed i.ts_ms s (tick_with_context fl i s)
  unfolding begin_tick
  tick-Listed i s keeps =
      let begun = begin_tick fl i.ts_ms s in
      let managed = (exit_lifecycle fl i begun).1 in
      let m = exit_lifecycle-Listed i begun keeps in
      tick_cases fl (Listed i.ts_ms s) i s (inl refl) m
        (λ e. keep-Listed i.ts_ms s managed (enter fl i managed) m (enter-SameBooks fl i managed))
