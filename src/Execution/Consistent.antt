-- ===== src/Execution/Consistent.antt =====
-- The kill switch of hft-lead-lag/src/event_loop_execution.rs beside its recovery time, the awaited
-- send and the worker.
use hft_lead_lag.Prelude.{
  ◌≡◌, Bool, true, false, ◌&&◌, not, String, List, [], ◌∷◌, Option, none, ℤ, arith, is_some,
  if_both,
}
use hft_lead_lag.Execution.Types.{
  Platform, ExecutionConfig, World, OrderIntent, TrySend, sent, full, closed,
}
use hft_lead_lag.Execution.Queue.{
  keep_latest, answer, offer, try_enqueue, release, reserve, drop_intent,
}
use hft_lead_lag.Execution.Worker.{
  recover, maybe_recover_kill_switch, start_send, process_intent, finish_sent, finish_timeout,
  flush_execution_latency_metrics, flush_tick, stop, turn,
}
use hft_lead_lag.Execution.Runs.{
  Event, enqueue, take_turn, send_succeeded, send_timed_out, step, run, turn_cases,
}

module _ (p : Platform) where
  -- The switch is on exactly while its recovery is scheduled, and a send is awaited only while it is
  -- off and the worker runs.
  pub record IsConsistent (w : World p) : Type 0 where
    pub scheduled :
        w.health.runtime_execution_kill_switch_active ≡ is_some w.kill_switch_recover_at_ns
    pub off_while_sending :
        (w.health.runtime_execution_kill_switch_active && is_some w.sending) ≡ false
    pub running_while_sending : (not w.running && is_some w.sending) ≡ false

  keep_latest-IsConsistent :
      (locked : Bool) (intent : OrderIntent p.float) (w : World p)
      → IsConsistent w
      → IsConsistent (keep_latest p locked intent w).1
  unfolding keep_latest
  keep_latest-IsConsistent locked intent w c = ground arith

  answer-IsConsistent :
      (locked : Bool) (intent : OrderIntent p.float) (o : TrySend) (w : World p)
      → IsConsistent w
      → IsConsistent (answer p locked intent o w).1
  unfolding answer
  answer-IsConsistent locked intent sent w c = c
  answer-IsConsistent locked intent full w c =
      keep_latest-IsConsistent locked intent (release p w) (ground (arith, c))
  answer-IsConsistent locked intent closed w c = ground arith

  try_enqueue-IsConsistent :
      (locked : Bool) (intent : OrderIntent p.float) (w : World p)
      → IsConsistent w
      → IsConsistent (try_enqueue p locked intent w).1
  unfolding try_enqueue offer
  try_enqueue-IsConsistent locked intent w c =
      let o = p.channel.try_send w.channel intent in
      if_both (λ r. IsConsistent r.1) w.health.runtime_execution_kill_switch_active
        (false, drop_intent p w) (offer p locked intent w) (ground arith)
        (answer-IsConsistent locked intent o.0 (record (reserve p w) { channel = o.1 })
          (ground arith))

  process_intent-IsConsistent :
      (config : ExecutionConfig) (now later : ℤ) (intent : OrderIntent p.float) (w : World p)
      → w.running ≡ true
      → IsConsistent w
      → IsConsistent (process_intent p config now later intent w)
  unfolding process_intent start_send maybe_recover_kill_switch recover
  process_intent-IsConsistent config now later intent w r c = ground arith

  turn-IsConsistent :
      (config : ExecutionConfig) (locked : Bool) (next_key : Option String) (tick : Bool)
      (now later : ℤ) (w : World p)
      → w.running ≡ true
      → w.sending ≡ none
      → IsConsistent w
      → IsConsistent (turn p config locked next_key tick now later w)
  unfolding flush_tick stop flush_execution_latency_metrics maybe_recover_kill_switch recover
  turn-IsConsistent config locked next_key tick now later w r i c =
      turn_cases p config (λ v. IsConsistent v) locked next_key tick now later w
        (λ intent overflow.
          process_intent-IsConsistent config now later intent
            (record w { overflow_latest_by_symbol = overflow }) r (ground arith))
        (ground arith) (λ f. ground arith)
        (λ m f e.
          process_intent-IsConsistent config now later m.0 (release p (record w { channel = m.1 }))
            r (ground arith))

  step-IsConsistent :
      (config : ExecutionConfig) (e : Event p) (w : World p)
      → IsConsistent w
      → IsConsistent (step p config e w)
  unfolding step finish_sent finish_timeout
  step-IsConsistent config (enqueue locked intent) w c = try_enqueue-IsConsistent locked intent w c
  step-IsConsistent config (take_turn locked next_key tick now later) w c =
      let t = turn-IsConsistent config locked next_key tick now later w in ground arith
  step-IsConsistent config (send_succeeded now) w c = ground arith
  step-IsConsistent config (send_timed_out now) w c = ground arith

  -- Any run keeps these: the kill switch is on exactly while its recovery is scheduled, and a send
  -- is awaited only while it is off and the worker runs.
  pub run-IsConsistent :
      (config : ExecutionConfig) (es : List (Event p)) (w : World p)
      → IsConsistent w
      → IsConsistent (run p config es w)
  unfolding run
  run-IsConsistent config [] w c = c
  run-IsConsistent config (e ∷ es) w c =
      run-IsConsistent config es (step p config e w) (step-IsConsistent config e w c)
