-- ===== src/Shadow/Life/Whole.antt =====
-- A whole tick of hft-lead-lag/src/domain/screener/shadow_trader.rs moves the machine.
use hft_lead_lag.Prelude.{
  ◌≡◌, ◌∙◌, subst, Bool, true, false, ◌&&◌, ℤ, ltb_ℤ, ◌+%◌, ◌+ℤ◌, IsI64, arith, is_some, inl, inr,
  ◌⊎◌, if_cases, Bool-cases,
}
use hft_lead_lag.Prelude.Float.{Float64}
use hft_lead_lag.Quotes.{Quote}
use hft_lead_lag.Shadow.Types.{ShadowTrader}
use hft_lead_lag.Shadow.Orders.{exit_position, try_exit, try_fill}
use hft_lead_lag.Shadow.Tick.{
  TickInput, begin_tick, exit_lifecycle, enter, tick_with_context, tick_cases,
}
use hft_lead_lag.Shadow.Life.{
  is_exiting, is_entering, life, IsExclusive, Follows, refl-Follows, compose-Follows, DelayFits,
  FollowsLife, exact-Moves,
}
use hft_lead_lag.Shadow.Life.Parts.{
  try_fill-Follows, try_exit-Follows, try_fill_cools, try_exit_keeps_cooldown, enter-Follows,
  enter_cooled,
}

module _ (fl : Float64) where
  try_exit-no_entry :
      (ts_ms : ℤ) (gate : Quote fl) (s : ShadowTrader fl)
      → is_some s.pending ≡ false
      → is_entering (life fl (try_exit fl ts_ms gate s)) ≡ false
  unfolding try_exit exit_position
  try_exit-no_entry ts_ms gate s n = ground arith

  exit_lifecycle-Follows :
      (i : TickInput fl) (s : ShadowTrader fl)
      → IsExclusive fl s
      → Follows fl i.ts_ms s (exit_lifecycle fl i s).1
  unfolding exit_lifecycle
  exit_lifecycle-Follows i s x =
      let filled = try_fill fl i.ts_ms i.gate i.window_ms s in
      let exited = try_exit fl i.ts_ms i.gate filled in
      let f = try_fill-Follows fl i.ts_ms i.gate i.window_ms s x in
      let e = try_exit-Follows fl i.ts_ms i.gate filled f.exclusive in
      if_cases (λ (r : Bool × ShadowTrader fl). Follows fl i.ts_ms s r.1) (is_some filled.pending)
        (true, filled) (is_some exited.pending, exited) (λ p. f)
        (λ p.
          compose-Follows fl i.ts_ms s filled exited f p e
            (inl (ground (arith, try_exit-no_entry i.ts_ms i.gate filled p))))

  -- A tick that goes on after fills and exits has no order, and has started the cooldown if an exit
  -- was filled.
  exit_lifecycle_cools :
      (i : TickInput fl) (s : ShadowTrader fl)
      → (exit_lifecycle fl i s).0 ≡ false
      → (is_some (exit_lifecycle fl i s).1.pending ≡ false)
        × ((is_exiting (life fl s) ≡ false)
            ⊎ ((exit_lifecycle fl i s).1.cooldown_until_ms ≡ i.ts_ms +% s.config.cooldown_ms))
  unfolding exit_lifecycle
  exit_lifecycle_cools i s =
      let filled = try_fill fl i.ts_ms i.gate i.window_ms s in
      let exited = try_exit fl i.ts_ms i.gate filled in
      if_cases
        (λ (r : Bool × ShadowTrader fl).
          r.0 ≡ false
          → (is_some r.1.pending ≡ false)
            × ((is_exiting (life fl s) ≡ false)
                ⊎ (r.1.cooldown_until_ms ≡ i.ts_ms +% s.config.cooldown_ms)))
        (is_some filled.pending) (true, filled) (is_some exited.pending, exited)
        (λ p q. absurd (ground (arith, q)))
        (λ p q. (
          q,
          elim (Bool-cases (is_exiting (life fl s))) [
            | inl x ↦ inr (
                try_exit_keeps_cooldown fl i.ts_ms i.gate filled
                ∙ try_fill_cools fl i.ts_ms i.gate i.window_ms s x p)
            | inr x ↦ inl x
          ],
        ))

  managed-Follows :
      (i : TickInput fl) (s : ShadowTrader fl)
      → IsExclusive fl s
      → (exit_lifecycle fl i s).0 ≡ false
      → Follows fl i.ts_ms s (enter fl i (exit_lifecycle fl i s).1)
  managed-Follows i s x go_on =
      let managed = (exit_lifecycle fl i s).1 in
      let f = exit_lifecycle-Follows i s x in
      let (settled, cooled) = exit_lifecycle_cools i s go_on in
      let g = enter-Follows fl i managed f.exclusive in
      let after = enter fl i managed in
      compose-Follows fl i.ts_ms s managed after f settled g
        (elim (Bool-cases (is_exiting (life fl s) && is_entering (life fl after))) [
          | inr e ↦ inl e
          | inl e ↦
              let late = enter_cooled fl i managed settled (ground (arith, e)) in
              elim cooled [
                | inl no_exit ↦ absurd (ground (arith, e, no_exit))
                | inr until ↦ inr (subst (λ u. ltb_ℤ i.ts_ms u ≡ false) until late)
              ]
        ])

  keep_begun :
      (i : TickInput fl) (s t : ShadowTrader fl)
      → Follows fl i.ts_ms (begin_tick fl i.ts_ms s) t
      → Follows fl i.ts_ms s t
  unfolding begin_tick
  keep_begun i s t f = record {
    exclusive = f.exclusive;
    same_config = f.same_config;
    moved = f.moved;
  }

  tick-Follows_wrapping :
      (i : TickInput fl) (s : ShadowTrader fl)
      → IsExclusive fl s
      → Follows fl i.ts_ms s (tick_with_context fl i s)
  unfolding begin_tick
  tick-Follows_wrapping i s x =
      let begun = begin_tick fl i.ts_ms s in
      let view = λ (t : ShadowTrader fl) (f : Follows fl i.ts_ms begun t). keep_begun i s t f in
      tick_cases fl (λ t. Follows fl i.ts_ms s t) i s (view begun (refl-Follows fl i.ts_ms begun x))
        (view (exit_lifecycle fl i begun).1 (exit_lifecycle-Follows i begun x))
        (λ e. view (enter fl i (exit_lifecycle fl i begun).1) (managed-Follows i begun x e))

  -- A tick of a trader that does not hold an order and a position at once keeps that and the
  -- configuration, and makes a move of the abstract life cycle: an order placed at the tick, a
  -- position opened or an exit filled only after the fill delay, and after an exit a new order in
  -- the same tick only if no cooldown is configured (none above 0). The time of a pending order
  -- with the fill delay, and the time of the tick with the cooldown, are values of i64.
  pub tick-Follows :
      (i : TickInput fl) (s : ShadowTrader fl)
      → IsExclusive fl s
      → DelayFits s.config.fill_delay_ms (life fl s)
      → IsI64 (i.ts_ms +ℤ s.config.cooldown_ms)
      → FollowsLife fl i.ts_ms s (tick_with_context fl i s)
  tick-Follows i s x delay_fits cooldown_fits =
      let f = tick-Follows_wrapping i s x in
      record {
        exclusive = f.exclusive;
        same_config = f.same_config;
        moved =
            exact-Moves s.config.fill_delay_ms s.config.cooldown_ms i.ts_ms (life fl s)
              (life fl (tick_with_context fl i s)) delay_fits cooldown_fits f.moved;
      }
