-- ===== src/Portfolio/Guard/Fast.antt =====
-- Fast streaks: five stop losses within two minutes.
use hft_lead_lag.Prelude.{
  ◌≡◌, true, false, ◌||◌, List, [], ◌∷◌, ◌++◌, some, none, ℤ, arith, leb_ℤ, ◌≤ℤ◌, pos,
  saturating_sub, inl, inr, Bool-cases, length,
}
use hft_lead_lag.Prelude.Float.{Float64}
use hft_lead_lag.Portfolio.Types.{GuardState, fast_streak_window_ms}
use hft_lead_lag.Portfolio.Guard.{stop_loss, close_trade}
use hft_lead_lag.Portfolio.Guard.Streak.{
  IsValid, Trade, AreLosses, close_trades, close_loss, stop_loss_quiet, stop_loss-IsValid,
  close_trades_quiet,
}

-- A run without a cooldown keeps the time at which its streak began.
close_trades_quiet_first :
    (fl : Float64) (g : GuardState) (ts : List (Trade fl)) (first : ℤ)
    → IsValid g
    → g.first_streak_ts_ms ≡ some first
    → AreLosses fl ts
    → (close_trades fl g ts).1 ≡ false
    → (close_trades fl g ts).0.first_streak_ts_ms ≡ some first
unfolding close_trades
close_trades_quiet_first fl g [] first v f l q = f
close_trades_quiet_first fl g (t ∷ ts) first v f l q = ground (
  arith,
  close_loss fl g t l.0 l.1,
  stop_loss_quiet g t.ts_ms v,
  close_trades_quiet_first fl (stop_loss g t.ts_ms).0 ts first (stop_loss-IsValid g t.ts_ms v),
)

AreLosses-init :
    (fl : Float64) (ts : List (Trade fl)) (u : Trade fl)
    → AreLosses fl (ts ++ u ∷ [])
    → AreLosses fl ts × AreLosses fl (u ∷ [])
AreLosses-init fl [] u l = (tt, l)
AreLosses-init fl (t ∷ ts) u l = let (a, b) = AreLosses-init fl ts u l.2 in ((l.0, l.1, a), b)

close_trades-snoc :
    (fl : Float64) (g : GuardState) (ts : List (Trade fl)) (u : Trade fl)
    → AreLosses fl (u ∷ [])
    → (close_trades fl g (ts ++ u ∷ [])).1
      ≡ (close_trades fl g ts).1 || (stop_loss (close_trades fl g ts).0 u.ts_ms).1
unfolding close_trades
close_trades-snoc fl g [] u l = ground (arith, close_loss fl g u l.0 l.1)
close_trades-snoc fl g (t ∷ ts) u l =
    ground
      (arith, close_trades-snoc fl (close_trade fl g t.pnl_pct t.is_stop_loss t.ts_ms).0 ts u l)

-- At a streak of four, a stop loss within the window of the first starts a cooldown.
stop_loss_fast :
    (g : GuardState) (first ts : ℤ)
    → g.streak_count ≡ 4
    → g.first_streak_ts_ms ≡ some first
    → leb_ℤ (saturating_sub ts first) fast_streak_window_ms ≡ true
    → (stop_loss g ts).1 ≡ true
unfolding stop_loss
stop_loss_fast g first ts c f w = ground arith

no_first : (g : GuardState) → IsValid g → g.streak_count ≡ 0 → g.first_streak_ts_ms ≡ none
no_first g v z = ground arith

-- A quiet run from no streak has the time of its first trade.
first_of_run :
    (fl : Float64) (g : GuardState) (t : Trade fl) (ts : List (Trade fl))
    → IsValid g
    → g.streak_count ≡ 0
    → AreLosses fl (t ∷ ts)
    → (close_trades fl g (t ∷ ts)).1 ≡ false
    → (close_trades fl g (t ∷ ts)).0.first_streak_ts_ms ≡ some t.ts_ms
unfolding close_trades
first_of_run fl g t ts v z l q = ground (
  arith,
  no_first g v z,
  close_loss fl g t l.0 l.1,
  stop_loss_quiet g t.ts_ms v,
  close_trades_quiet_first fl (stop_loss g t.ts_ms).0 ts t.ts_ms (stop_loss-IsValid g t.ts_ms v),
)

-- From a valid guard without a streak, five trades in a row that are stop losses and are not
-- closed at a profit, the last at most two minutes (120000 ms) after the first, start a cooldown
-- by the last of them.
pub five_fast_losses_cool_down :
    (fl : Float64) (g : GuardState) (t : Trade fl) (ts : List (Trade fl)) (u : Trade fl)
    → IsValid g
    → AreLosses fl ((t ∷ ts) ++ u ∷ [])
    → length ts ≡ 3
    → saturating_sub u.ts_ms t.ts_ms ≤ℤ pos 120_000
    → g.streak_count ≡ 0
    → (close_trades fl g ((t ∷ ts) ++ u ∷ [])).1 ≡ true
five_fast_losses_cool_down fl g t ts u v l n w z =
    elim (Bool-cases (close_trades fl g (t ∷ ts)).1) [
      | inl early ↦ rw (close_trades-snoc fl g (t ∷ ts) u init.1, early)
      | inr quiet ↦
          let four = (close_trades_quiet fl g (t ∷ ts) v init.0 quiet).0 in
          rw (close_trades-snoc fl g (t ∷ ts) u init.1, quiet)
            (stop_loss_fast (close_trades fl g (t ∷ ts)).0 t.ts_ms u.ts_ms (omega arith)
              (first_of_run fl g t ts v z init.0 quiet) (ground (arith, w)))
    ]
  where
    init : AreLosses fl (t ∷ ts) × AreLosses fl (u ∷ [])
    init = AreLosses-init fl (t ∷ ts) u l
