-- ===== src/Examples/Guards.antt =====
-- The guards of hft-lead-lag/src/domain/screener/portfolio_runtime.rs on concrete trades.
use hft_lead_lag.Prelude.{
  ℕ, ◌+◌, ◌≤◌, ◌≡◌, refl, true, false, List, [], ◌∷◌, none, some, pos, negsuc, arith, clamp_i64,
  ◌+ℤ◌, ◌-ℤ◌,
}
use hft_lead_lag.Prelude.Maps.{lookup}
use hft_lead_lag.Portfolio.Types.{GuardState, default_guard, SymbolStats, Engine}
use hft_lead_lag.Portfolio.Guard.{close_trade, stop_loss, can_reenter, record_closed_trade}
use hft_lead_lag.Portfolio.Guard.Streak.{
  IsValid, default-IsValid, close_trade-IsValid, Trade, close_trades, six_losses_cool_down,
  cool_down_needs_five,
}
use hft_lead_lag.Portfolio.Guard.Fast.{five_fast_losses_cool_down}
use hft_lead_lag.Portfolio.Guard.Cooldown.{no_reentry_while_cooling, record_trades}
use hft_lead_lag.Examples.Floats.{cents}

-- A stop loss of 0.50 %.
abbrev loss : ℕ → Trade cents
loss ts = record { pnl_pct = some (negsuc 49); is_stop_loss = true; ts_ms = pos ts }

abbrev slow_losses : List (Trade cents)
slow_losses = loss 0 ∷ loss 100_000 ∷ loss 200_000 ∷ loss 300_000 ∷ loss 400_000 ∷ loss 500_000 ∷ []

abbrev fast_losses : List (Trade cents)
fast_losses = loss 2_000 ∷ loss 3_000 ∷ loss 4_000 ∷ []

close_trade-IsValid_example :
    IsValid (close_trade cents default_guard (some (negsuc 49)) true (pos 7)).0
close_trade-IsValid_example =
    close_trade-IsValid cents default_guard (some (negsuc 49)) true (pos 7) default-IsValid

six_losses_cool_down_example : (close_trades cents default_guard slow_losses).1 ≡ true
six_losses_cool_down_example =
    six_losses_cool_down cents default_guard slow_losses default-IsValid
      (refl, refl, (refl, refl, (refl, refl, (refl, refl, (refl, refl, (refl, refl, tt))))))
      (omega arith)

five_fast_losses_cool_down_example :
    (close_trades cents default_guard
      (loss 1_000 ∷ loss 2_000 ∷ loss 3_000 ∷ loss 4_000 ∷ loss 5_000 ∷ [])).1
    ≡ true
unfolding clamp_i64 ◌-ℤ◌
five_fast_losses_cool_down_example =
    five_fast_losses_cool_down cents default_guard (loss 1_000) fast_losses (loss 5_000)
      default-IsValid (refl, refl, (refl, refl, (refl, refl, (refl, refl, (refl, refl, tt))))) refl
      (omega arith) refl

-- Five stop losses within two minutes start a cooldown, five slow ones do not.
slow_five :
    (close_trades cents default_guard
      (loss 0 ∷ loss 100_000 ∷ loss 200_000 ∷ loss 300_000 ∷ loss 400_000 ∷ [])).1
    ≡ false
unfolding close_trades close_trade stop_loss clamp_i64 ◌-ℤ◌
slow_five = refl

cool_down_needs_five_example : 5 ≤ 0 + 6
unfolding close_trades close_trade stop_loss clamp_i64 ◌-ℤ◌
cool_down_needs_five_example =
    cool_down_needs_five cents default_guard slow_losses default-IsValid refl

abbrev hot_guard : GuardState
hot_guard = record {
  streak_count = 4;
  first_streak_ts_ms = some (pos 1_000);
  cooldown_until_ms = none;
}

abbrev hot_engine : Engine
hot_engine = record { guards = ("BTC_USDT", hot_guard) ∷ []; portfolio_ids = "A" ∷ [] }

abbrev good_stats : SymbolStats cents
good_stats = record {
  symbol = "BTC_USDT";
  age_minutes_from_first_tick = 60;
  closed_trades = 20;
  profitable_trades = 15;
  losing_trades = 5;
  avg_pnl_pct = some (pos 10);
}

no_reentry_while_cooling_example :
    can_reenter cents
      (record_trades cents hot_engine (("BTC_USDT", loss 5_000) ∷ ("ETH_USDT", loss 6_000) ∷ []))
      "BTC_USDT"
      good_stats
      (pos 100_000)
    ≡ false
unfolding record_closed_trade close_trade stop_loss lookup clamp_i64 ◌-ℤ◌ ◌+ℤ◌
no_reentry_while_cooling_example =
    no_reentry_while_cooling cents hot_engine "BTC_USDT" (loss 5_000)
      (("ETH_USDT", loss 6_000) ∷ []) good_stats (pos 100_000) refl (omega arith, tt) (omega arith)
