-- ===== src/Shadow/Life.antt =====
-- The life cycle of a paper trade in hft-lead-lag/src/domain/screener/shadow_trader.rs, as an abstract
-- machine with its times.
pub mod Parts
pub mod Whole
use hft_lead_lag.Prelude.{
  ℕ, ◌+◌, ◌≤◌, ◌≡◌, refl, ◌∙◌, subst, Bool, true, false, ◌&&◌, ◌||◌, not, List, [], ◌∷◌, Option,
  none, some, ℤ, ltb_ℤ, ◌+%◌, ◌+ℤ◌, IsI64, +%_exact, ◌≤ℤ◌, arith, is_some, if◌then◌else◌, inl, inr,
  Option-cases, String, ◌⊎◌, if_both, if_cases, saturating_sub, Bool-cases,
}
use hft_lead_lag.Prelude.Float.{Float64}
use hft_lead_lag.Quotes.{Quote}
use hft_lead_lag.Prices.{PriceSample}
use hft_lead_lag.Shadow.Config.{TraderConfig}
use hft_lead_lag.Shadow.Types.{
  Direction, OpenPosition, EntryOrder, ExitOrder, PendingOrder, entry, exit, ShadowTrader,
}
use hft_lead_lag.Shadow.Orders.{
  mark_position, determine_exit_reason, exit_position, try_exit, fill_exit, fill, try_fill, fire_ts,
}
use hft_lead_lag.Shadow.Gap.{detect_gap, try_entry, place_entry}
use hft_lead_lag.Shadow.Tick.{
  TickInput, or_start, is_fresh, begin_tick, exit_lifecycle, enter, tick_with_context,
}

-- No trade; an entry order since a time; a position since a time; an exit order since a time.
pub data Life : Type 0 where
  idle : Life
  entering holding exiting : ℤ → Life

-- An order of the time `fire` may be filled; `plus` adds times.
abbrev pub IsDue : (ℤ → ℤ → ℤ) → ℤ → ℤ → ℤ → Type 0
IsDue plus delay now fire = ltb_ℤ now (plus fire delay) ≡ false

-- What one tick at `now` may do. After an exit a new order follows at once only if no cooldown is
-- configured.
abbrev pub MovesBy : (ℤ → ℤ → ℤ) → ℤ → ℤ → ℤ → Life → Life → Type 0
MovesBy plus delay cooldown now idle idle = Unit {0}
MovesBy plus delay cooldown now idle (entering fire) = fire ≡ now
MovesBy plus delay cooldown now idle (holding since) = ⊥
MovesBy plus delay cooldown now idle (exiting fire) = ⊥
MovesBy plus delay cooldown now (entering fire) idle = ⊥
MovesBy plus delay cooldown now (entering fire) (entering fire') = fire' ≡ fire
MovesBy plus delay cooldown now (entering fire) (holding since) =
    (since ≡ now) × IsDue plus delay now fire
MovesBy plus delay cooldown now (entering fire) (exiting fire') =
    (fire' ≡ now) × IsDue plus delay now fire
MovesBy plus delay cooldown now (holding since) idle = ⊥
MovesBy plus delay cooldown now (holding since) (entering fire) = ⊥
MovesBy plus delay cooldown now (holding since) (holding since') = since' ≡ since
MovesBy plus delay cooldown now (holding since) (exiting fire) = fire ≡ now
MovesBy plus delay cooldown now (exiting fire) idle = IsDue plus delay now fire
MovesBy plus delay cooldown now (exiting fire) (entering fire') =
    (fire' ≡ now) × IsDue plus delay now fire × (ltb_ℤ now (plus now cooldown) ≡ false)
MovesBy plus delay cooldown now (exiting fire) (holding since) = ⊥
MovesBy plus delay cooldown now (exiting fire) (exiting fire') = fire' ≡ fire

-- The moves with the sums of the machine.
abbrev pub Moves : ℤ → ℤ → ℤ → Life → Life → Type 0
Moves delay cooldown now a b = MovesBy (λ x y. x +% y) delay cooldown now a b

-- The sum of an order's time and the fill delay is an `i64`.
abbrev pub DelayFits : ℤ → Life → Type 0
DelayFits delay idle = Unit {0}
DelayFits delay (entering fire) = IsI64 (fire +ℤ delay)
DelayFits delay (holding since) = Unit {0}
DelayFits delay (exiting fire) = IsI64 (fire +ℤ delay)

-- Where the sums fit, the moves are those with the sums of integers.
pub exact-Moves :
    (delay cooldown now : ℤ) (a b : Life)
    → DelayFits delay a
    → IsI64 (now +ℤ cooldown)
    → Moves delay cooldown now a b
    → MovesBy (λ x y. x +ℤ y) delay cooldown now a b
exact-Moves delay cooldown now idle b f c h = ground (arith, h)
exact-Moves delay cooldown now (holding since) b f c h = ground (arith, h)
exact-Moves delay cooldown now (entering fire) b f c h =
    let e = +%_exact fire delay f in ground (arith, e, h)
exact-Moves delay cooldown now (exiting fire) b f c h =
    let e = +%_exact fire delay f in let d = +%_exact now cooldown c in ground (arith, e, d, h)

abbrev pub is_exiting : Life → Bool
is_exiting idle = false
is_exiting (entering fire) = false
is_exiting (holding since) = false
is_exiting (exiting fire) = true

abbrev pub is_entering : Life → Bool
is_entering idle = false
is_entering (entering fire) = true
is_entering (holding since) = false
is_entering (exiting fire) = false

abbrev pub is_ordered : Life → Bool
is_ordered a = is_entering a || is_exiting a

-- Two parts of one tick, of which the first leaves no order.
compose-Moves :
    (delay cooldown now : ℤ) (a b c : Life)
    → Moves delay cooldown now a b
    → is_ordered b ≡ false
    → Moves delay cooldown now b c
    → ((is_exiting a && is_entering c) ≡ false) ⊎ (ltb_ℤ now (now +% cooldown) ≡ false)
    → Moves delay cooldown now a c
compose-Moves delay cooldown now a b c h n k x = ground arith

module _ (fl : Float64) where
  abbrev pub life_of : Option (PendingOrder fl) → Option (OpenPosition fl) → Life
  life_of (some (entry order)) position = entering order.fire_ts_ms
  life_of (some (exit order)) position = exiting order.fire_ts_ms
  life_of none (some position) = holding position.entry_ts_ms
  life_of none none = idle

  abbrev pub life : ShadowTrader fl → Life
  life s = life_of s.pending s.position

  -- A trader with an order holds no position.
  abbrev pub IsExclusive : ShadowTrader fl → Type 0
  IsExclusive s = (is_some s.pending && is_some s.position) ≡ false

  -- What filling leaves: nothing new, or a position of now, or no trade and a cooldown.
  pub record Follows (now : ℤ) (s t : ShadowTrader fl) : Type 0 where
    pub exclusive : IsExclusive t
    pub same_config : t.config ≡ s.config
    pub moved : Moves s.config.fill_delay_ms s.config.cooldown_ms now (life s) (life t)

  -- The same with the sums of integers.
  pub record FollowsLife (now : ℤ) (s t : ShadowTrader fl) : Type 0 where
    pub exclusive : IsExclusive t
    pub same_config : t.config ≡ s.config
    pub moved :
        MovesBy (λ x y. x +ℤ y) s.config.fill_delay_ms s.config.cooldown_ms now (life s) (life t)

  pub refl-Follows : (now : ℤ) (s : ShadowTrader fl) → IsExclusive s → Follows now s s
  refl-Follows now s x = record { exclusive = x; same_config = refl; moved = ground arith }

  pub compose-Follows :
      (now : ℤ) (s t u : ShadowTrader fl)
      → Follows now s t
      → is_some t.pending ≡ false
      → Follows now t u
      → ((is_exiting (life s) && is_entering (life u)) ≡ false)
        ⊎ (ltb_ℤ now (now +% s.config.cooldown_ms) ≡ false)
      → Follows now s u
  compose-Follows now s t u f n g c = record {
    exclusive = g.exclusive;
    same_config = g.same_config ∙ f.same_config;
    moved =
        compose-Moves s.config.fill_delay_ms s.config.cooldown_ms now (life s) (life t) (life u)
          f.moved (ground arith)
          (subst
            (λ (cfg : TraderConfig fl).
              Moves cfg.fill_delay_ms cfg.cooldown_ms now (life t) (life u))
            f.same_config g.moved)
          c;
  }
