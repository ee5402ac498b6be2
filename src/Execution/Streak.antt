-- ===== src/Execution/Streak.antt =====
-- Timeouts in a row and the kill switch of hft-lead-lag/src/event_loop_execution.rs: how many trip it.
use hft_lead_lag.Prelude.{
  ℕ, suc, ◌+◌, ◌≤◌, ◌<◌, ◌≡◌, refl, Bool, true, false, String, List, [], ◌∷◌, Option, ℤ, arith,
  is_some, if_both, u32_max,
}
use hft_lead_lag.Execution.Types.{
  Platform, ExecutionConfig, World, OrderIntent, TrySend, sent, full, closed,
}
use hft_lead_lag.Execution.Queue.{
  keep_latest, answer, offer, try_enqueue, release, reserve, drop_intent,
}
use hft_lead_lag.Execution.Worker.{
  recover, maybe_recover_kill_switch, start_send, process_intent, finish_sent, finish_timeout,
  flush_execution_latency_metrics, flush_tick, stop, turn,
}
use hft_lead_lag.Execution.Runs.{
  Event, enqueue, take_turn, send_succeeded, send_timed_out, step, run, turn_cases,
}
use hft_lead_lag.Execution.KillSwitch.{timed_out-IsTripped}

module _ (p : Platform) where
  -- The streak is the same, and the switch is not turned on.
  pub record IsCalm (w v : World p) : Type 0 where
    pub same_streak : v.consecutive_timeouts ≡ w.consecutive_timeouts
    pub not_tripped :
        w.health.runtime_execution_kill_switch_active ≡ false
        → v.health.runtime_execution_kill_switch_active ≡ false

  refl-IsCalm : (w : World p) → IsCalm w w
  refl-IsCalm w = record { same_streak = refl; not_tripped = λ h. h }

  keep_latest-IsCalm :
      (locked : Bool) (intent : OrderIntent p.float) (w : World p)
      → IsCalm w (keep_latest p locked intent w).1
  unfolding keep_latest
  keep_latest-IsCalm locked intent w = record {
    same_streak = ground arith;
    not_tripped = λ h. ground (arith, h);
  }

  answer-IsCalm :
      (locked : Bool) (intent : OrderIntent p.float) (o : TrySend) (w : World p)
      → IsCalm w (answer p locked intent o w).1
  unfolding answer
  answer-IsCalm locked intent sent w = refl-IsCalm w
  answer-IsCalm locked intent full w =
      let k = keep_latest-IsCalm locked intent (release p w) in
      record { same_streak = k.same_streak; not_tripped = λ h. k.not_tripped h }
  answer-IsCalm locked intent closed w = record { same_streak = refl; not_tripped = λ h. h }

  try_enqueue-IsCalm :
      (locked : Bool) (intent : OrderIntent p.float) (w : World p)
      → IsCalm w (try_enqueue p locked intent w).1
  unfolding try_enqueue offer
  try_enqueue-IsCalm locked intent w =
      let o = p.channel.try_send w.channel intent in
      let c = answer-IsCalm locked intent o.0 (record (reserve p w) { channel = o.1 }) in
      if_both (λ r. IsCalm w r.1) w.health.runtime_execution_kill_switch_active
        (false, drop_intent p w) (offer p locked intent w)
        (record { same_streak = refl; not_tripped = λ h. h })
        (record { same_streak = c.same_streak; not_tripped = λ h. c.not_tripped h })

  process_intent-IsCalm :
      (config : ExecutionConfig) (now later : ℤ) (intent : OrderIntent p.float) (w : World p)
      → IsCalm w (process_intent p config now later intent w)
  unfolding process_intent start_send maybe_recover_kill_switch recover
  process_intent-IsCalm config now later intent w = record {
    same_streak = ground arith;
    not_tripped = λ h. ground (arith, h);
  }

  turn-IsCalm :
      (config : ExecutionConfig) (locked : Bool) (next_key : Option String) (tick : Bool)
      (now later : ℤ) (w : World p)
      → IsCalm w (turn p config locked next_key tick now later w)
  unfolding flush_tick stop flush_execution_latency_metrics maybe_recover_kill_switch recover
  turn-IsCalm config locked next_key tick now later w =
      turn_cases p config (λ v. IsCalm w v) locked next_key tick now later w
        (λ intent overflow.
          let c =
            process_intent-IsCalm config now later intent
              (record w { overflow_latest_by_symbol = overflow }) in
          record { same_streak = c.same_streak; not_tripped = λ h. c.not_tripped h })
        (record { same_streak = ground arith; not_tripped = λ h. ground (arith, h) })
        (λ e. record { same_streak = refl; not_tripped = λ h. h })
        (λ m e f.
          let c =
            process_intent-IsCalm config now later m.0 (release p (record w { channel = m.1 })) in
          record { same_streak = c.same_streak; not_tripped = λ h. c.not_tripped h })

  abbrev pub timeouts : List (Event p) → ℕ
  timeouts [] = 0
  timeouts (enqueue locked intent ∷ es) = timeouts es
  timeouts (take_turn locked next_key tick now later ∷ es) = timeouts es
  timeouts (send_succeeded now ∷ es) = timeouts es
  timeouts (send_timed_out now ∷ es) = suc (timeouts es)

  step-IsCalm :
      (config : ExecutionConfig) (e : Event p) (es : List (Event p)) (w : World p)
      → w.health.runtime_execution_kill_switch_active ≡ false
      → w.consecutive_timeouts + timeouts (e ∷ es) < config.kill_switch_timeout_streak
      → ((step p config e w).health.runtime_execution_kill_switch_active ≡ false)
        × ((step p config e w).consecutive_timeouts + timeouts es
            < config.kill_switch_timeout_streak)
  unfolding step finish_sent finish_timeout
  step-IsCalm config (enqueue locked intent) es w h b =
      let c = try_enqueue-IsCalm locked intent w in (c.not_tripped h, omega (arith, c.same_streak))
  step-IsCalm config (take_turn locked next_key tick now later) es w h b =
      let c = turn-IsCalm config locked next_key tick now later w in
      let off = c.not_tripped h in (ground (arith, off), ground (arith, c.same_streak))
  step-IsCalm config (send_succeeded now) es w h b = (ground arith, ground arith)
  step-IsCalm config (send_timed_out now) es w h b = (ground arith, ground arith)

  -- While the kill switch is off, a run with fewer timeouts than the streak lacks to the threshold
  -- leaves it off.
  pub no_trip_below_threshold :
      (config : ExecutionConfig) (es : List (Event p)) (w : World p)
      → w.health.runtime_execution_kill_switch_active ≡ false
      → w.consecutive_timeouts + timeouts es < config.kill_switch_timeout_streak
      → (run p config es w).health.runtime_execution_kill_switch_active ≡ false
  unfolding run
  no_trip_below_threshold config [] w h b = h
  no_trip_below_threshold config (e ∷ es) w h b =
      let s = step-IsCalm config e es w h b in
      no_trip_below_threshold config es (step p config e w) s.0 s.1

  abbrev pub successes : List (Event p) → ℕ
  successes [] = 0
  successes (enqueue locked intent ∷ es) = successes es
  successes (take_turn locked next_key tick now later ∷ es) = successes es
  successes (send_succeeded now ∷ es) = suc (successes es)
  successes (send_timed_out now ∷ es) = successes es

  step_keeps_streak :
      (config : ExecutionConfig) (n : ℕ) (e : Event p) (es : List (Event p)) (w : World p)
      → successes (e ∷ es) ≡ 0
      → n ≤ u32_max
      → n ≤ w.consecutive_timeouts
      → (n ≤ (step p config e w).consecutive_timeouts) × (successes es ≡ 0)
  unfolding step finish_timeout
  step_keeps_streak config n (enqueue locked intent) es w s m h =
      let c = try_enqueue-IsCalm locked intent w in (omega (arith, c.same_streak), s)
  step_keeps_streak config n (take_turn locked next_key tick now later) es w s m h =
      let c = turn-IsCalm config locked next_key tick now later w in
      (ground (arith, c.same_streak), s)
  step_keeps_streak config n (send_succeeded now) es w s m h = absurd (omega arith)
  step_keeps_streak config n (send_timed_out now) es w s m h = (ground arith, s)

  run_keeps_streak :
      (config : ExecutionConfig) (n : ℕ) (es : List (Event p)) (w : World p)
      → successes es ≡ 0
      → n ≤ u32_max
      → n ≤ w.consecutive_timeouts
      → n ≤ (run p config es w).consecutive_timeouts
  unfolding run
  run_keeps_streak config n [] w s m h = h
  run_keeps_streak config n (e ∷ es) w s m h =
      let k = step_keeps_streak config n e es w s m h in
      run_keeps_streak config n es (step p config e w) k.1 m k.0

  -- Recovery does not reset the streak: once it has reached the threshold, the next timeout turns
  -- the kill switch on, whatever happens in between but a successful send.
  pub trips_again :
      (config : ExecutionConfig) (es : List (Event p)) (now : ℤ) (w : World p)
      → config.kill_switch_timeout_streak ≤ u32_max
      → config.kill_switch_timeout_streak ≤ w.consecutive_timeouts
      → successes es ≡ 0
      → is_some (run p config es w).sending ≡ true
      → (step p config (send_timed_out now) (run p config es w)
          ).health.runtime_execution_kill_switch_active
        ≡ true
  trips_again config es now w m h s busy =
      let kept = run_keeps_streak config config.kill_switch_timeout_streak es w s m h in
      (timed_out-IsTripped p config now (run p config es w) busy (ground arith)).active
