-- ===== src/Execution/KillSwitch.antt =====
-- The kill switch of hft-lead-lag/src/event_loop_execution.rs: when it is on, what it stops, and when
-- it goes off.
use hft_lead_lag.Prelude.{
  ℕ, ◌≤◌, ◌≡◌, refl, ◌∙◌, Bool, true, false, String, List, [], ◌∷◌, Option, none, some, ℤ, ◌<ℤ◌,
  ◌≤ℤ◌, ltb_ℤ, leb, arith, is_some, sat_inc, u32_max, saturating_add,
}
use hft_lead_lag.Execution.Types.{Platform, ExecutionConfig, World, OrderIntent}
use hft_lead_lag.Execution.Queue.{try_enqueue, release}
use hft_lead_lag.Execution.Worker.{
  recover, maybe_recover_kill_switch, start_send, process_intent, finish_timeout,
  flush_execution_latency_metrics, flush_tick, stop, turn, cooldown_ns,
}
use hft_lead_lag.Execution.Runs.{
  Event, enqueue, take_turn, send_succeeded, send_timed_out, step, run, turn_cases,
}

module _ (p : Platform) where
  -- The switch is on, is to go off at `until`, and no send is awaited.
  pub record IsTripped (until : ℤ) (w : World p) : Type 0 where
    pub active : w.health.runtime_execution_kill_switch_active ≡ true
    pub deadline : w.kill_switch_recover_at_ns ≡ some until
    pub idle : w.sending ≡ none

  -- It stays tripped, and no send ends.
  pub record StaysTripped (until : ℤ) (w later : World p) : Type 0 where
    pub tripped : IsTripped until later
    pub same_sent :
        later.health.runtime_execution_sent_intents ≡ w.health.runtime_execution_sent_intents
    pub same_timeouts :
        later.health.runtime_execution_send_timeouts ≡ w.health.runtime_execution_send_timeouts

  module _ (until : ℤ) where
    recover-StaysTripped :
        (now : ℤ) (w : World p)
        → now <ℤ until
        → IsTripped until w
        → StaysTripped until w (maybe_recover_kill_switch p now w)
    unfolding maybe_recover_kill_switch recover
    recover-StaysTripped now w h t = ground arith

    start_send-StaysTripped :
        (config : ExecutionConfig) (now : ℤ) (intent : OrderIntent p.float) (w : World p)
        → IsTripped until w
        → StaysTripped until w (start_send p config now intent w)
    unfolding start_send
    start_send-StaysTripped config now intent w t = ground arith

    try_enqueue-StaysTripped :
        (locked : Bool) (intent : OrderIntent p.float) (w : World p)
        → IsTripped until w
        → StaysTripped until w (try_enqueue p locked intent w).1
    unfolding try_enqueue
    try_enqueue-StaysTripped locked intent w t = ground arith

    trans-StaysTripped :
        (u v w : World p) → StaysTripped until u v → StaysTripped until v w → StaysTripped until u w
    trans-StaysTripped u v w f g = record {
      tripped = g.tripped;
      same_sent = g.same_sent ∙ f.same_sent;
      same_timeouts = g.same_timeouts ∙ f.same_timeouts;
    }

    process_intent-StaysTripped :
        (config : ExecutionConfig) (now later : ℤ) (intent : OrderIntent p.float) (u w : World p)
        → now <ℤ until
        → StaysTripped until u w
        → StaysTripped until u (process_intent p config now later intent w)
    unfolding process_intent
    process_intent-StaysTripped config now later intent u w h s =
        let r = recover-StaysTripped now w h s.tripped in
        let ready = maybe_recover_kill_switch p now w in
        let v = trans-StaysTripped u w ready s r in
        trans-StaysTripped u ready (start_send p config later intent ready) v
          (start_send-StaysTripped config later intent ready v.tripped)

    -- Every reading of the clock that a turn makes for the switch is before `until`.
    abbrev pub AreBefore : List (Event p) → Type 0
    AreBefore [] = Unit {0}
    AreBefore (enqueue locked intent ∷ es) = AreBefore es
    AreBefore (take_turn locked next_key tick now later ∷ es) = (now <ℤ until) × AreBefore es
    AreBefore (send_succeeded now ∷ es) = AreBefore es
    AreBefore (send_timed_out now ∷ es) = AreBefore es

    flush_tick-StaysTripped :
        (now : ℤ) (w : World p)
        → now <ℤ until
        → IsTripped until w
        → StaysTripped until w (flush_tick p now w)
    unfolding flush_tick flush_execution_latency_metrics
    flush_tick-StaysTripped now w h t =
        let flushed = flush_execution_latency_metrics p w in
        let same : IsTripped until flushed = record {
          active = t.active;
          deadline = t.deadline;
          idle = t.idle;
        } in
        let r = recover-StaysTripped now flushed h same in
        record {
          tripped = record {
            active = r.tripped.active;
            deadline = r.tripped.deadline;
            idle = r.tripped.idle;
          };
          same_sent = r.same_sent;
          same_timeouts = r.same_timeouts;
        }

    stop-StaysTripped : (w : World p) → IsTripped until w → StaysTripped until w (stop p w)
    unfolding stop flush_execution_latency_metrics
    stop-StaysTripped w t = record {
      tripped = record { active = t.active; deadline = t.deadline; idle = t.idle };
      same_sent = refl;
      same_timeouts = refl;
    }

    refl-StaysTripped : (w : World p) → IsTripped until w → StaysTripped until w w
    refl-StaysTripped w t = record { tripped = t; same_sent = refl; same_timeouts = refl }

    -- A world that differs from a tripped one in the channel, its depth or the overflow.
    moved-StaysTripped :
        (c : p.channel.State) (d : ℕ) (m : List (String × OrderIntent p.float)) (w : World p)
        → IsTripped until w
        → StaysTripped until w
            (record w { channel = c; queue_depth = d; overflow_latest_by_symbol = m })
    moved-StaysTripped c d m w t = record {
      tripped = record { active = t.active; deadline = t.deadline; idle = t.idle };
      same_sent = refl;
      same_timeouts = refl;
    }

    released-StaysTripped :
        (w v : World p) → StaysTripped until w v → StaysTripped until w (release p v)
    released-StaysTripped w v s = record {
      tripped = record {
        active = s.tripped.active;
        deadline = s.tripped.deadline;
        idle = s.tripped.idle;
      };
      same_sent = s.same_sent;
      same_timeouts = s.same_timeouts;
    }

    turn-StaysTripped :
        (config : ExecutionConfig) (locked : Bool) (next_key : Option String) (tick : Bool)
        (now later : ℤ) (w : World p)
        → now <ℤ until
        → IsTripped until w
        → StaysTripped until w (turn p config locked next_key tick now later w)
    turn-StaysTripped config locked next_key tick now later w h t =
        turn_cases p config (λ v. StaysTripped until w v) locked next_key tick now later w
          (λ intent overflow.
            process_intent-StaysTripped config now later intent w
              (record w { overflow_latest_by_symbol = overflow }) h
              (moved-StaysTripped w.channel w.queue_depth overflow w t))
          (flush_tick-StaysTripped now w h t) (λ e. stop-StaysTripped w t)
          (λ m e f.
            let taken : World p = record w { channel = m.1 } in
            process_intent-StaysTripped config now later m.0 w (release p taken) h (
              released-StaysTripped w taken
                (moved-StaysTripped m.1 w.queue_depth w.overflow_latest_by_symbol w t)))

    step-StaysTripped :
        (config : ExecutionConfig) (e : Event p) (es : List (Event p)) (w : World p)
        → AreBefore (e ∷ es)
        → IsTripped until w
        → StaysTripped until w (step p config e w) × AreBefore es
    unfolding step
    step-StaysTripped config (enqueue locked intent) es w h t =
        (try_enqueue-StaysTripped locked intent w t, h)
    step-StaysTripped config (take_turn locked next_key tick now later) es w h t =
        let s = turn-StaysTripped config locked next_key tick now later w h.0 t in
        let r = refl-StaysTripped w t in (ground arith, h.1)
    step-StaysTripped config (send_succeeded now) es w h t =
        let r = refl-StaysTripped w t in (ground arith, h)
    step-StaysTripped config (send_timed_out now) es w h t =
        let r = refl-StaysTripped w t in (ground arith, h)

    run-StaysTripped :
        (config : ExecutionConfig) (es : List (Event p)) (w : World p)
        → AreBefore es
        → IsTripped until w
        → StaysTripped until w (run p config es w)
    unfolding run
    run-StaysTripped config [] w h t = refl-StaysTripped w t
    run-StaysTripped config (e ∷ es) w h t =
        let s = step-StaysTripped config e es w h t in
        let v = step p config e w in
        trans-StaysTripped w v (run p config es v) s.0
          (run-StaysTripped config es v s.1 s.0.tripped)

  finish_timeout-IsTripped :
      (config : ExecutionConfig) (now : ℤ) (w : World p)
      → config.kill_switch_timeout_streak ≤ sat_inc u32_max w.consecutive_timeouts
      → IsTripped (saturating_add now (cooldown_ns config)) (finish_timeout p config now w)
  unfolding finish_timeout
  finish_timeout-IsTripped config now w h =
      let reached : leb config.kill_switch_timeout_streak (sat_inc u32_max w.consecutive_timeouts)
          ≡ true =
        ground arith in
      record { active = ground arith; deadline = ground arith; idle = ground arith }

  pub timed_out-IsTripped :
      (config : ExecutionConfig) (now : ℤ) (w : World p)
      → is_some w.sending ≡ true
      → config.kill_switch_timeout_streak ≤ sat_inc u32_max w.consecutive_timeouts
      → IsTripped (saturating_add now (cooldown_ns config)) (step p config (send_timed_out now) w)
  unfolding step
  timed_out-IsTripped config now w s h =
      let t = finish_timeout-IsTripped config now w h in ground arith

  refused :
      (locked : Bool) (intent : OrderIntent p.float) (w : World p)
      → w.health.runtime_execution_kill_switch_active ≡ true
      → (try_enqueue p locked intent w).0 ≡ false
  unfolding try_enqueue
  refused locked intent w h = ground arith

  -- When a send times out that brings the streak to the threshold, the kill switch goes on until
  -- the cooldown is over: in any run whose readings of the clock are before that time no send
  -- starts, succeeds or times out, the switch stays on, and a call of try_enqueue is refused.
  pub no_send_during_cooldown :
      (config : ExecutionConfig) (now : ℤ) (es : List (Event p)) (w : World p) (locked : Bool)
      (intent : OrderIntent p.float)
      → is_some w.sending ≡ true
      → config.kill_switch_timeout_streak ≤ sat_inc u32_max w.consecutive_timeouts
      → AreBefore (saturating_add now (cooldown_ns config)) es
      → StaysTripped
          (saturating_add now (cooldown_ns config))
          (step p config (send_timed_out now) w)
          (run p config (send_timed_out now ∷ es) w)
        × ((try_enqueue p locked intent (run p config (send_timed_out now ∷ es) w)).0 ≡ false)
  unfolding run
  no_send_during_cooldown config now es w locked intent s h b =
      let until = saturating_add now (cooldown_ns config) in
      let tripped = step p config (send_timed_out now) w in
      let stays =
        run-StaysTripped until config es tripped b (timed_out-IsTripped config now w s h) in
      (stays, refused locked intent (run p config es tripped) stays.tripped.active)

  recover-inactive :
      (until now : ℤ) (w : World p)
      → IsTripped until w
      → ltb_ℤ now until ≡ false
      → (maybe_recover_kill_switch p now w).health.runtime_execution_kill_switch_active ≡ false
  unfolding maybe_recover_kill_switch recover
  recover-inactive until now w t h = ground arith

  start_send-active :
      (config : ExecutionConfig) (now : ℤ) (intent : OrderIntent p.float) (w : World p)
      → (start_send p config now intent w).health.runtime_execution_kill_switch_active
        ≡ w.health.runtime_execution_kill_switch_active
  unfolding start_send
  start_send-active config now intent w = ground arith

  process_intent-recovers :
      (config : ExecutionConfig) (until now later : ℤ) (intent : OrderIntent p.float) (w : World p)
      → IsTripped until w
      → ltb_ℤ now until ≡ false
      → (process_intent p config now later intent w).health.runtime_execution_kill_switch_active
        ≡ false
  unfolding process_intent
  process_intent-recovers config until now later intent w t h =
      start_send-active config later intent (maybe_recover_kill_switch p now w)
      ∙ recover-inactive until now w t h

  flush_tick-recovers :
      (until now : ℤ) (w : World p)
      → IsTripped until w
      → ltb_ℤ now until ≡ false
      → (flush_tick p now w).health.runtime_execution_kill_switch_active ≡ false
  unfolding flush_tick flush_execution_latency_metrics
  flush_tick-recovers until now w t h =
      let flushed = flush_execution_latency_metrics p w in
      let same : IsTripped until flushed = record {
        active = t.active;
        deadline = t.deadline;
        idle = t.idle;
      } in
      recover-inactive until now flushed same h

  turn-recovers :
      (config : ExecutionConfig) (locked : Bool) (next_key : Option String) (until now later : ℤ)
      (w : World p)
      → IsTripped until w
      → ltb_ℤ now until ≡ false
      → (turn p config locked next_key true now later w).health.runtime_execution_kill_switch_active
        ≡ false
  turn-recovers config locked next_key until now later w t h =
      turn_cases p config (λ v. v.health.runtime_execution_kill_switch_active ≡ false) locked
        next_key true now later w
        (λ intent overflow.
          process_intent-recovers config until now later intent
            (record w { overflow_latest_by_symbol = overflow })
            (moved-StaysTripped until w.channel w.queue_depth overflow w t).tripped h)
        (flush_tick-recovers until now w t h) (λ e. absurd (ground (arith, e)))
        (λ m e f. absurd (ground (arith, e)))

  -- While the kill switch is on and no send is awaited, a flush tick of a running worker at or
  -- after the recovery time turns it off, also if an overflowing intent comes before the tick.
  pub recovers :
      (config : ExecutionConfig) (locked : Bool) (next_key : Option String) (until now later : ℤ)
      (w : World p)
      → w.running ≡ true
      → IsTripped until w
      → until ≤ℤ now
      → (step p config
          (take_turn locked next_key true now later)
          w).health.runtime_execution_kill_switch_active
        ≡ false
  unfolding step
  recovers config locked next_key until now later w r t h =
      let late : ltb_ℤ now until ≡ false = ground arith in
      let off = turn-recovers config locked next_key until now later w t late in ground arith
