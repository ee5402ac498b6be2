-- ===== src/Execution/Worker.antt =====
-- `run_execution_worker` and what it calls. `process_intent` is split at its `await`; each reading of
-- the clock is an argument.
use hft_lead_lag.Prelude.{
  ℕ, ◌*◌, ◌/◌, min, Bool, true, false, ◌&&◌, ◌||◌, String, List, [], ◌∷◌, ◌++◌, Option, none, some,
  ℤ, pos, ◌-ℤ◌, ltb, leb, leb_ℤ, ltb_ℤ, saturating_add, saturating_sub, unsigned_abs, pos_part,
  sat_inc, u32_max, u64_max, if◌then◌else◌,
}
use hft_lead_lag.Latency.{latency_snapshot_and_reset}
use hft_lead_lag.Execution.Types.{Platform, ExecutionConfig, World, OrderIntent}
use hft_lead_lag.Execution.Queue.{fetch_add, drop_intent, release, store_depth, pop_overflow_intent}

-- `saturating_mul` of `u64`.
abbrev pub saturating_mul : ℕ → ℕ → ℕ
saturating_mul a b = min (a * b) u64_max

-- The cooldown in nanoseconds, as an `i64`.
abbrev pub cooldown_ns : ExecutionConfig → ℤ
cooldown_ns config =
    pos (min (saturating_mul config.kill_switch_cooldown_ms 1_000_000) 9_223_372_036_854_775_807)

module _ (p : Platform) where
  unfoldable pub is_stale_intent : ℤ → OrderIntent p.float → ℕ → Bool
  is_stale_intent now intent max_intent_age_ms =
      if leb_ℤ intent.signal_decided_ts_ns (pos 0) || leb_ℤ now intent.signal_decided_ts_ns
      then false
      else ltb (saturating_mul max_intent_age_ms 1_000_000)
          (unsigned_abs (now -ℤ intent.signal_decided_ts_ns))

  abbrev pub switch : Bool → World p → World p
  switch active w = record w {
    health = record w.health { runtime_execution_kill_switch_active = active };
  }

  unfoldable pub recover : ℤ → Option ℤ → World p → World p
  recover now none w = w
  recover now (some recover_at_ns) w =
      if ltb_ℤ now recover_at_ns
      then w
      else record (switch false w) { kill_switch_recover_at_ns = none }

  unfoldable pub maybe_recover_kill_switch : ℤ → World p → World p
  maybe_recover_kill_switch now w = recover now w.kill_switch_recover_at_ns w

  -- `process_intent` after the recovery, up to its `await`.
  unfoldable pub start_send : ExecutionConfig → ℤ → OrderIntent p.float → World p → World p
  start_send config now intent w =
      if w.health.runtime_execution_kill_switch_active
      then drop_intent p w
      else if is_stale_intent now intent config.max_intent_age_ms
      then drop_intent p w
      else record w { sending = some intent }

  unfoldable pub process_intent : ExecutionConfig → ℤ → ℤ → OrderIntent p.float → World p → World p
  process_intent config now later intent w =
      start_send config later intent (maybe_recover_kill_switch now w)

  abbrev pub sample_latency : ℤ → OrderIntent p.float → List ℕ → List ℕ
  sample_latency sent_ts_ns intent samples =
      if ltb_ℤ (pos 0) intent.enqueued_ts_ns && ltb_ℤ intent.enqueued_ts_ns sent_ts_ns
      then samples ++ (pos_part (saturating_sub sent_ts_ns intent.enqueued_ts_ns) / 1_000) ∷ []
      else samples

  -- The send succeeded.
  unfoldable pub finish_sent : ℤ → OrderIntent p.float → World p → World p
  finish_sent sent_ts_ns intent w = record w {
    sending = none;
    consecutive_timeouts = 0;
    health = record w.health {
      runtime_last_order_intent_sent_ts_ns = sent_ts_ns;
      runtime_execution_sent_intents = fetch_add w.health.runtime_execution_sent_intents;
    };
    intent_to_sent_samples_us = sample_latency sent_ts_ns intent w.intent_to_sent_samples_us;
  }

  abbrev pub trip : ExecutionConfig → ℤ → World p → World p
  trip config now w = record (switch true w) {
    kill_switch_recover_at_ns = some (saturating_add now (cooldown_ns config));
  }

  -- The send timed out.
  unfoldable pub finish_timeout : ExecutionConfig → ℤ → World p → World p
  finish_timeout config now w =
      let streak = sat_inc u32_max w.consecutive_timeouts in
      let counted : World p = record w {
        sending = none;
        consecutive_timeouts = streak;
        health = record w.health {
          runtime_execution_send_timeouts = fetch_add w.health.runtime_execution_send_timeouts;
        };
      } in
      if leb config.kill_switch_timeout_streak streak then trip config now counted else counted

  unfoldable pub flush_execution_latency_metrics : World p → World p
  flush_execution_latency_metrics w =
      let (snapshot, cleared) = latency_snapshot_and_reset w.intent_to_sent_samples_us in
      record w {
        intent_to_sent_samples_us = cleared;
        health = record w.health { runtime_execution_intent_to_sent = snapshot };
      }

  -- A tick of the flush interval.
  unfoldable pub flush_tick : ℤ → World p → World p
  flush_tick now w =
      store_depth p (maybe_recover_kill_switch now (flush_execution_latency_metrics w))

  -- The channel is closed and empty: the loop breaks.
  unfoldable pub stop : World p → World p
  stop w =
      let flushed = flush_execution_latency_metrics w in
      record flushed {
        running = false;
        health = record flushed.health { runtime_execution_queue_depth = 0 };
      }

  -- The branch of `receiver.recv()`.
  unfoldable pub receive : ExecutionConfig → ℤ → ℤ → World p → World p
  receive config now later w = elim (p.channel.recv w.channel) [
    | none ↦ stop w
    | some message ↦
        process_intent config now later message.0 (release p (record w { channel = message.1 }))
  ]

  -- The overflow comes first; `select!` takes the message or the tick, whichever is ready.
  unfoldable pub select : ExecutionConfig → Bool → ℤ → ℤ → World p → World p
  select config tick now later w = if tick then flush_tick now w else receive config now later w

  unfoldable pub turn : ExecutionConfig → Bool → Option String → Bool → ℤ → ℤ → World p → World p
  turn config locked next_key tick now later w =
      let (popped, overflow) = pop_overflow_intent locked next_key w.overflow_latest_by_symbol in
      elim popped [
        | none ↦ select config tick now later w
        | some intent ↦
            process_intent config now later intent
              (record w { overflow_latest_by_symbol = overflow })
      ]
