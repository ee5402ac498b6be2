-- ===== src/Execution/Types.antt =====
-- The data of hft-lead-lag/src/event_loop_execution.rs: intents, the configuration and its reading
-- from the environment, the shared state and that of the worker. The bounded channel is tokio's, a
-- parameter.
use hft_lead_lag.Prelude.{
  ℕ, ◌+◌, ◌≤◌, ◌≡◌, max, Bool, true, false, String, List, [], Option, none, some, ℤ, pos,
}
use hft_lead_lag.Prelude.Float.{Float64}
use hft_lead_lag.Latency.{LatencyStatsSnapshot, no_samples}

pub record StrategySignal (fl : Float64) : Type 0 where
  pub strategy : String
  pub symbol : String
  pub spread_bps : fl.F
  pub direction : String
  pub bid_ask_bps : fl.F
  pub ask_bid_bps : fl.F
  pub context : String

pub record OrderIntent (fl : Float64) : Type 0 where
  pub signal : StrategySignal fl
  pub signal_decided_ts_ns : ℤ
  pub enqueued_ts_ns : ℤ

pub record ExecutionConfig : Type 0 where
  pub queue_capacity : ℕ
  pub send_timeout_ms : ℕ
  pub kill_switch_timeout_streak : ℕ
  pub kill_switch_cooldown_ms : ℕ
  pub metrics_flush_interval_ms : ℕ
  pub simulated_send_delay_ms : ℕ
  pub max_intent_age_ms : ℕ

abbrev pub default_config : ExecutionConfig
default_config = record {
  queue_capacity = 2_048;
  send_timeout_ms = 25;
  kill_switch_timeout_streak = 4;
  kill_switch_cooldown_ms = 5_000;
  metrics_flush_interval_ms = 1_000;
  simulated_send_delay_ms = 0;
  max_intent_age_ms = 250;
}

-- What the variables of the environment parse to.
pub record Environment : Type 0 where
  pub queue_capacity : Option ℕ
  pub send_timeout_ms : Option ℕ
  pub kill_switch_timeout_streak : Option ℕ
  pub kill_switch_cooldown_ms : Option ℕ
  pub metrics_flush_interval_ms : Option ℕ
  pub simulated_send_delay_ms : Option ℕ
  pub max_intent_age_ms : Option ℕ

abbrev pub at_least : Option ℕ → ℕ → ℕ → ℕ
at_least none lowest default = default
at_least (some v) lowest default = max v lowest

unfoldable pub from_env : Environment → ExecutionConfig
from_env e = record {
  queue_capacity = at_least e.queue_capacity 1 2_048;
  send_timeout_ms = at_least e.send_timeout_ms 1 25;
  kill_switch_timeout_streak = at_least e.kill_switch_timeout_streak 1 4;
  kill_switch_cooldown_ms = at_least e.kill_switch_cooldown_ms 100 5_000;
  metrics_flush_interval_ms = at_least e.metrics_flush_interval_ms 100 1_000;
  simulated_send_delay_ms = at_least e.simulated_send_delay_ms 0 0;
  max_intent_age_ms = at_least e.max_intent_age_ms 1 250;
}

-- The outcome of `try_send`.
pub data TrySend : Type 0 where
  sent : TrySend
  full : TrySend
  closed : TrySend

-- `tokio::sync::mpsc`: `pending` is the number of messages in the channel.
pub record Channel (A : Type 0) : Type 1 where
  pub State : Type 0
  pub pending : State → ℕ
  pub try_send : State → A → TrySend × State
  pub recv : State → Option (A × State)

-- What tokio documents: a message is sent, or refused and the channel stays as it is; one that is
-- received leaves it; the capacity is at most `usize::MAX >> 3`.
pub record IsBounded {A : Type 0} (ch : Channel A) : Type 0 where
  pub grows :
      (c : ch.State) (a : A)
      → (ch.try_send c a).0 ≡ sent
      → ch.pending (ch.try_send c a).1 ≡ ch.pending c + 1
  pub refuses_full :
      (c : ch.State) (a : A)
      → (ch.try_send c a).0 ≡ full
      → ch.pending (ch.try_send c a).1 ≡ ch.pending c
  pub refuses_closed :
      (c : ch.State) (a : A)
      → (ch.try_send c a).0 ≡ closed
      → ch.pending (ch.try_send c a).1 ≡ ch.pending c
  pub shrinks :
      (c rest : ch.State) (a : A) → ch.recv c ≡ some (a, rest) → ch.pending c ≡ ch.pending rest + 1
  pub bounded : (c : ch.State) → ch.pending c ≤ 2_305_843_009_213_693_951

-- What the program runs on.
pub record Platform : Type 1 where
  pub float : Float64
  pub channel : Channel (OrderIntent float)

-- The counters of `HealthState` that the execution runtime writes.
pub record HealthState : Type 0 where
  pub runtime_last_order_intent_sent_ts_ns : ℤ
  pub runtime_execution_queue_depth : ℕ
  pub runtime_execution_sent_intents : ℕ
  pub runtime_execution_dropped_intents : ℕ
  pub runtime_execution_send_timeouts : ℕ
  pub runtime_execution_kill_switch_active : Bool
  pub runtime_execution_intent_to_sent : LatencyStatsSnapshot

abbrev pub new_health : HealthState
new_health = record {
  runtime_last_order_intent_sent_ts_ns = pos 0;
  runtime_execution_queue_depth = 0;
  runtime_execution_sent_intents = 0;
  runtime_execution_dropped_intents = 0;
  runtime_execution_send_timeouts = 0;
  runtime_execution_kill_switch_active = false;
  runtime_execution_intent_to_sent = no_samples;
}

-- The state that the producers and the worker share, and the variables of the worker. `sending` is
-- the intent whose send the worker awaits, `running` is false when its loop has ended.
pub record World (p : Platform) : Type 0 where
  pub channel : p.channel.State
  pub queue_depth : ℕ
  pub overflow_latest_by_symbol : List (String × OrderIntent p.float)
  pub health : HealthState
  pub intent_to_sent_samples_us : List ℕ
  pub consecutive_timeouts : ℕ
  pub kill_switch_recover_at_ns : Option ℤ
  pub sending : Option (OrderIntent p.float)
  pub running : Bool

-- `spawn_execution_runtime_with_config` with a new channel.
abbrev pub spawn_execution_runtime : (p : Platform) → p.channel.State → World p
spawn_execution_runtime p c = record {
  channel = c;
  queue_depth = 0;
  overflow_latest_by_symbol = [];
  health = new_health;
  intent_to_sent_samples_us = [];
  consecutive_timeouts = 0;
  kill_switch_recover_at_ns = none;
  sending = none;
  running = true;
}
