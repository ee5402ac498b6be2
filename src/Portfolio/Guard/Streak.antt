-- ===== src/Portfolio/Guard/Streak.antt =====
-- Streaks of stop losses: how long they get, and when they start a cooldown.
use hft_lead_lag.Prelude.{
  ◌+◌, ◌≤◌, ◌≡◌, refl, Bool, true, false, ◌||◌, inl, inr, List, [], ◌∷◌, some, ℤ, arith, is_some,
  nat_beq, not, Bool-cases, length,
}
use hft_lead_lag.Prelude.Float.{Float64, gt_f64}
use hft_lead_lag.Portfolio.Types.{GuardState, default_guard}
use hft_lead_lag.Portfolio.Guard.{stop_loss, close_trade, or_now}

-- A streak is shorter than six, and its start is known exactly while there is one.
pub record IsValid (g : GuardState) : Type 0 where
  pub short : g.streak_count ≤ 5
  pub started : nat_beq g.streak_count 0 ≡ not (is_some g.first_streak_ts_ms)

pub default-IsValid : IsValid default_guard
default-IsValid = record { short = omega arith; started = refl }

pub stop_loss-IsValid : (g : GuardState) (ts : ℤ) → IsValid g → IsValid (stop_loss g ts).0
unfolding stop_loss
stop_loss-IsValid g ts v = ground arith

-- A closed trade keeps a guard valid: a streak of at most five, whose start is known exactly while
-- there is one.
pub close_trade-IsValid :
    (fl : Float64) (g : GuardState) (pnl : fl.F) (sl : Bool) (ts : ℤ)
    → IsValid g
    → IsValid (close_trade fl g pnl sl ts).0
unfolding close_trade
close_trade-IsValid fl g pnl sl ts v = let s = stop_loss-IsValid g ts v in ground arith

pub record Trade (fl : Float64) : Type 0 where
  pub pnl_pct : fl.F
  pub is_stop_loss : Bool
  pub ts_ms : ℤ

-- The closed trades of one symbol in order: its guard after them, and whether one of them started a
-- cooldown.
unfoldable pub close_trades : (fl : Float64) → GuardState → List (Trade fl) → GuardState × Bool
close_trades fl g [] = (g, false)
close_trades fl g (t ∷ ts) =
    let (h, now) = close_trade fl g t.pnl_pct t.is_stop_loss t.ts_ms in
    let (final, later) = close_trades fl h ts in (final, now || later)

-- Every trade is a stop loss, and none makes a profit.
abbrev pub AreLosses : (fl : Float64) → List (Trade fl) → Type 0
AreLosses fl [] = Unit {0}
AreLosses fl (t ∷ ts) =
    (gt_f64 fl t.pnl_pct (fl.ratio 0 1) ≡ false) × (t.is_stop_loss ≡ true) × AreLosses fl ts

-- A stop loss that starts no cooldown makes the streak longer by one, and keeps when it began.
pub stop_loss_quiet :
    (g : GuardState) (ts : ℤ)
    → IsValid g
    → (stop_loss g ts).1 ≡ false
    → ((stop_loss g ts).0.streak_count ≡ g.streak_count + 1)
      × ((stop_loss g ts).0.first_streak_ts_ms ≡ some (or_now g.first_streak_ts_ms ts))
unfolding stop_loss
stop_loss_quiet g ts v q = ground arith

pub close_loss :
    (fl : Float64) (g : GuardState) (t : Trade fl)
    → gt_f64 fl t.pnl_pct (fl.ratio 0 1) ≡ false
    → t.is_stop_loss ≡ true
    → close_trade fl g t.pnl_pct t.is_stop_loss t.ts_ms ≡ stop_loss g t.ts_ms
unfolding close_trade
close_loss fl g t p l = rw (p, l)

-- A run of stop losses in which no cooldown starts makes the streak longer by its length.
pub close_trades_quiet :
    (fl : Float64) (g : GuardState) (ts : List (Trade fl))
    → IsValid g
    → AreLosses fl ts
    → (close_trades fl g ts).1 ≡ false
    → ((close_trades fl g ts).0.streak_count ≡ g.streak_count + length ts)
      × IsValid (close_trades fl g ts).0
unfolding close_trades
close_trades_quiet fl g [] v l q = (omega arith, v)
close_trades_quiet fl g (t ∷ ts) v l q = rw (close_loss fl g t l.0 l.1) (
    ground (
      arith,
      close_loss fl g t l.0 l.1,
      stop_loss_quiet g t.ts_ms v,
      close_trades_quiet fl (stop_loss g t.ts_ms).0 ts (stop_loss-IsValid g t.ts_ms v) l.2,
    ))

-- From a valid guard, among any six stop losses of a symbol in a row, with no profit between them,
-- one starts a cooldown.
pub six_losses_cool_down :
    (fl : Float64) (g : GuardState) (ts : List (Trade fl))
    → IsValid g
    → AreLosses fl ts
    → 6 ≤ length ts
    → (close_trades fl g ts).1 ≡ true
six_losses_cool_down fl g ts v l n = elim (Bool-cases (close_trades fl g ts).1) [
  | inl yes_one ↦ yes_one
  | inr quiet ↦ absurd (bound (close_trades_quiet fl g ts v l quiet))
]
  where
    bound :
        ((close_trades fl g ts).0.streak_count ≡ g.streak_count + length ts)
          × IsValid (close_trades fl g ts).0
        → ⊥
    bound q = omega (arith, q.1.short)

close_trade_grows :
    (fl : Float64) (g : GuardState) (pnl : fl.F) (sl : Bool) (ts : ℤ)
    → IsValid g
    → ((close_trade fl g pnl sl ts).0.streak_count ≤ g.streak_count + 1)
      × ((close_trade fl g pnl sl ts).1 ≡ true → 4 ≤ g.streak_count)
unfolding close_trade stop_loss
close_trade_grows fl g pnl sl ts v = (ground arith, λ q. ground arith)

-- Trades after which a valid guard has started a cooldown are, with the streak that the guard had
-- before, at least five.
pub cool_down_needs_five :
    (fl : Float64) (g : GuardState) (ts : List (Trade fl))
    → IsValid g
    → (close_trades fl g ts).1 ≡ true
    → 5 ≤ g.streak_count + length ts
unfolding close_trades
cool_down_needs_five fl g [] v q = cc
cool_down_needs_five fl g (t ∷ ts) v q = ground (
  arith,
  close_trade_grows fl g t.pnl_pct t.is_stop_loss t.ts_ms v,
  cool_down_needs_five fl (close_trade fl g t.pnl_pct t.is_stop_loss t.ts_ms).0 ts
      (close_trade-IsValid fl g t.pnl_pct t.is_stop_loss t.ts_ms v),
)
