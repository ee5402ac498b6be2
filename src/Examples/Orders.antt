-- ===== src/Examples/Orders.antt =====
-- The execution runtime on a channel that holds two intents.
use hft_lead_lag.Prelude.{
  string_key, ◌%◌, ◌≤◌, sym, ℕ, ◌+◌, ◌≡◌, refl, true, false, String, List, [], ◌∷◌, Option, none,
  some, pos, arith, clamp_i64, ◌+ℤ◌,
}
use hft_lead_lag.Prelude.Maps.{lookup}
use hft_lead_lag.Execution.Types.{
  Platform, Channel, TrySend, sent, full, closed, IsBounded, OrderIntent, World,
  spawn_execution_runtime, default_config,
}
use hft_lead_lag.Execution.Runs.{Event, enqueue, take_turn, send_timed_out, run, step}
use hft_lead_lag.Execution.Overflow.{enqueue_all, last_refused, enqueue_all_keeps_latest}
use hft_lead_lag.Execution.Queue.{try_enqueue, offer, answer, keep_latest}
use hft_lead_lag.Execution.Ledger.{ledger, accounted}
use hft_lead_lag.Execution.KillSwitch.{StaysTripped, no_send_during_cooldown, recovers}
use hft_lead_lag.Execution.Streak.{no_trip_below_threshold, trips_again}
use hft_lead_lag.Execution.Depth.{IsExact, run-IsExact}
use hft_lead_lag.Execution.Consistent.{IsConsistent, run-IsConsistent}
use hft_lead_lag.Examples.Floats.{cents}

-- At most two messages.
data Slots (A : Type 0) : Type 0 where
  free : Slots A
  single : A → Slots A
  both : A → A → Slots A

abbrev filled : {A : Type 0} → Slots A → ℕ
filled free = 0
filled (single a) = 1
filled (both a b) = 2

abbrev push_slot : {A : Type 0} → Slots A → A → TrySend × Slots A
push_slot free x = (sent, single x)
push_slot (single a) x = (sent, both a x)
push_slot (both a b) x = (full, both a b)

abbrev take_slot : {A : Type 0} → Slots A → Option (A × Slots A)
take_slot free = none
take_slot (single a) = some (a, free)
take_slot (both a b) = some (a, single b)

abbrev slots : (A : Type 0) → Channel A
slots A = record { State = Slots A; pending = filled; try_send = push_slot; recv = take_slot }

push_slot-sent :
    {A : Type 0} (c : Slots A) (a : A)
    → (push_slot c a).0 ≡ sent
    → filled (push_slot c a).1 ≡ filled c + 1
push_slot-sent free a h = refl
push_slot-sent (single b) a h = refl
push_slot-sent (both b d) a h = absurd (ground arith)

push_slot-refused :
    {A : Type 0} (c : Slots A) (a : A) (o : TrySend)
    → (o ≡ sent → ⊥)
    → (push_slot c a).0 ≡ o
    → filled (push_slot c a).1 ≡ filled c
push_slot-refused free a o n h = absurd (n (sym h))
push_slot-refused (single b) a o n h = absurd (n (sym h))
push_slot-refused (both b d) a o n h = refl

take_slot-some :
    {A : Type 0} (c rest : Slots A) (a : A)
    → take_slot c ≡ some (a, rest)
    → filled c ≡ filled rest + 1
take_slot-some free rest a h = absurd (ground arith)
take_slot-some (single b) rest a h = ground arith
take_slot-some (both b d) rest a h = ground arith

filled_le : {A : Type 0} (c : Slots A) → filled c ≤ 2_305_843_009_213_693_951
filled_le free = omega arith
filled_le (single a) = omega arith
filled_le (both a b) = omega arith

slots-IsBounded : (A : Type 0) → IsBounded (slots A)
slots-IsBounded A = record {
  grows = push_slot-sent;
  refuses_full = λ c a h. push_slot-refused c a full (λ e. ground (arith, e)) h;
  refuses_closed = λ c a h. push_slot-refused c a closed (λ e. ground (arith, e)) h;
  shrinks = take_slot-some;
  bounded = filled_le;
}

abbrev platform : Platform
platform = record { float = cents; channel = slots (OrderIntent cents) }

abbrev order : String → OrderIntent cents
order s = record {
  signal = record {
    strategy = "lead_lag_classic";
    symbol = s;
    spread_bps = some (pos 35);
    direction = "LONG_LAGGER";
    bid_ask_bps = some (pos 36);
    ask_bid_bps = some (pos 12);
    context = "test";
  };
  signal_decided_ts_ns = pos 0;
  enqueued_ts_ns = pos 1;
}

abbrev fresh : World platform
fresh = spawn_execution_runtime platform free

abbrev offers : List (Event platform)
offers =
    enqueue true (order "BTCUSDT")
    ∷ enqueue true (order "ETHUSDT")
    ∷ enqueue true (order "BTCUSDT")
    ∷ []

abbrev quiet_turn : Event platform
quiet_turn = take_turn true none false (pos 5) (pos 5)

abbrev fresh-IsConsistent : IsConsistent platform fresh
fresh-IsConsistent = record {
  scheduled = refl;
  off_while_sending = refl;
  running_while_sending = refl;
}

ledger_example :
    accounted platform (run platform default_config offers fresh) % 18_446_744_073_709_551_616
    ≡ (accounted platform fresh + 3) % 18_446_744_073_709_551_616
ledger_example = ledger platform default_config offers fresh (slots-IsBounded (OrderIntent cents))

run-IsExact_example : IsExact platform (run platform default_config offers fresh)
run-IsExact_example =
    run-IsExact platform default_config offers fresh (slots-IsBounded (OrderIntent cents))
      (record { exact = refl })

run-IsConsistent_example :
    IsConsistent platform (run platform default_config (quiet_turn ∷ offers) fresh)
run-IsConsistent_example =
    run-IsConsistent platform default_config (quiet_turn ∷ offers) fresh fresh-IsConsistent

-- Two orders wait in the channel.
abbrev filled_up : World platform
filled_up = record fresh { channel = both (order "BTCUSDT") (order "ETHUSDT"); queue_depth = 2 }

enqueue_all_keeps_latest_example :
    lookup "BTCUSDT"
      (enqueue_all platform
        (order "BTCUSDT" ∷ order "ETHUSDT" ∷ order "BTCUSDT" ∷ [])
        filled_up).overflow_latest_by_symbol
    ≡ last_refused platform "BTCUSDT"
        (order "BTCUSDT" ∷ order "ETHUSDT" ∷ order "BTCUSDT" ∷ [])
        filled_up.channel
        (lookup "BTCUSDT" filled_up.overflow_latest_by_symbol)
enqueue_all_keeps_latest_example =
    enqueue_all_keeps_latest platform "BTCUSDT"
      (order "BTCUSDT" ∷ order "ETHUSDT" ∷ order "BTCUSDT" ∷ []) filled_up refl

-- Three sends have timed out and a fourth is awaited.
abbrev failing : World platform
failing = record fresh { consecutive_timeouts = 3; sending = some (order "BTCUSDT") }

no_send_during_cooldown_example :
    StaysTripped platform
      (pos 5_000_000_007)
      (step platform default_config (send_timed_out (pos 7)) failing)
      (run platform default_config (send_timed_out (pos 7) ∷ quiet_turn ∷ offers) failing)
    × ((try_enqueue platform true
          (order "ETHUSDT")
          (run platform default_config (send_timed_out (pos 7) ∷ quiet_turn ∷ offers) failing)).0
        ≡ false)
unfolding clamp_i64 ◌+ℤ◌
no_send_during_cooldown_example =
    no_send_during_cooldown platform default_config (pos 7) (quiet_turn ∷ offers) failing true
      (order "ETHUSDT") refl (omega arith) (omega arith, tt)

abbrev tripped : World platform
tripped = record fresh {
  health = record fresh.health { runtime_execution_kill_switch_active = true };
  kill_switch_recover_at_ns = some (pos 100);
  consecutive_timeouts = 4;
}

recovers_example :
    (step platform default_config
      (take_turn true none true (pos 100) (pos 101))
      tripped).health.runtime_execution_kill_switch_active
    ≡ false
recovers_example =
    recovers platform default_config true none (pos 100) (pos 100) (pos 101) tripped refl
      (record { active = refl; deadline = refl; idle = refl }) (omega arith)

no_trip_below_threshold_example :
    (run platform default_config
      (send_timed_out (pos 7) ∷ offers)
      (record failing { consecutive_timeouts = 2 })).health.runtime_execution_kill_switch_active
    ≡ false
no_trip_below_threshold_example =
    no_trip_below_threshold platform default_config (send_timed_out (pos 7) ∷ offers)
      (record failing { consecutive_timeouts = 2 }) refl (omega arith)

-- The switch has recovered and the next send is awaited.
abbrev recovered : World platform
recovered = record fresh { consecutive_timeouts = 4; sending = some (order "BTCUSDT") }

trips_again_example :
    (step platform default_config
      (send_timed_out (pos 7))
      (run platform default_config offers recovered)).health.runtime_execution_kill_switch_active
    ≡ true
unfolding run step try_enqueue offer answer keep_latest lookup
trips_again_example =
    trips_again platform default_config offers (pos 7) recovered (omega arith) (omega arith) refl
      refl
