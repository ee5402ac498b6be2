-- ===== src/Execution/Depth.antt =====
-- The queue depth of hft-lead-lag/src/event_loop_execution.rs, which is counted beside the channel.
use hft_lead_lag.Prelude.{
  ℕ, ◌+◌, ◌≡◌, refl, sym, ap, ◌∙◌, Bool, false, String, List, [], ◌∷◌, Option, ℤ, arith, if_both,
}
use hft_lead_lag.Execution.Types.{
  Platform, ExecutionConfig, World, OrderIntent, IsBounded, TrySend, sent, full, closed,
}
use hft_lead_lag.Execution.Queue.{
  keep_latest, answer, offer, try_enqueue, release, reserve, drop_intent,
}
use hft_lead_lag.Execution.Worker.{
  recover, maybe_recover_kill_switch, start_send, process_intent, finish_sent, finish_timeout,
  flush_execution_latency_metrics, flush_tick, stop, turn,
}
use hft_lead_lag.Execution.Runs.{
  Event, enqueue, take_turn, send_succeeded, send_timed_out, step, run, turn_cases,
}

module _ (p : Platform) where
  -- The depth is the number of messages in the channel.
  pub record IsExact (w : World p) : Type 0 where
    pub exact : w.queue_depth ≡ p.channel.pending w.channel

  keep_latest-depth :
      (locked : Bool) (intent : OrderIntent p.float) (w : World p)
      → ((keep_latest p locked intent w).1.queue_depth ≡ w.queue_depth)
        × ((keep_latest p locked intent w).1.channel ≡ w.channel)
  unfolding keep_latest
  keep_latest-depth locked intent w = (ground arith, ground arith)

  offer-IsExact :
      (o : TrySend) (n : ℕ) (locked : Bool) (intent : OrderIntent p.float) (w : World p)
      → w.queue_depth ≡ n + 1
      → (o ≡ sent → p.channel.pending w.channel ≡ n + 1)
      → (o ≡ full → p.channel.pending w.channel ≡ n)
      → (o ≡ closed → p.channel.pending w.channel ≡ n)
      → IsExact (answer p locked intent o w).1
  unfolding answer
  offer-IsExact sent n locked intent w d s f c = record { exact = omega (arith, s refl) }
  offer-IsExact full n locked intent w d s f c =
      let k = keep_latest-depth locked intent (release p w) in
      record { exact = k.0 ∙ (omega (arith, f refl) ∙ ap p.channel.pending (sym k.1)) }
  offer-IsExact closed n locked intent w d s f c = record { exact = omega (arith, c refl) }

  try_enqueue-IsExact :
      (locked : Bool) (intent : OrderIntent p.float) (w : World p)
      → IsBounded p.channel
      → IsExact w
      → IsExact (try_enqueue p locked intent w).1
  unfolding try_enqueue offer
  try_enqueue-IsExact locked intent w b e =
      let o = p.channel.try_send w.channel intent in
      let n = p.channel.pending w.channel in
      let offered : World p = record (reserve p w) { channel = o.1 } in
      let reserved : offered.queue_depth ≡ n + 1 = omega (arith, e.exact, b.bounded w.channel) in
      if_both (λ r. IsExact r.1) w.health.runtime_execution_kill_switch_active
        (false, drop_intent p w) (offer p locked intent w) (record { exact = e.exact })
        (offer-IsExact o.0 n locked intent offered reserved (b.grows w.channel intent)
          (b.refuses_full w.channel intent) (b.refuses_closed w.channel intent))

  process_intent-IsExact :
      (config : ExecutionConfig) (now later : ℤ) (intent : OrderIntent p.float) (w : World p)
      → w.queue_depth ≡ p.channel.pending w.channel
      → IsExact (process_intent p config now later intent w)
  unfolding process_intent start_send maybe_recover_kill_switch recover
  process_intent-IsExact config now later intent w e = record { exact = ground arith }

  turn-IsExact :
      (config : ExecutionConfig) (locked : Bool) (next_key : Option String) (tick : Bool)
      (now later : ℤ) (w : World p)
      → IsBounded p.channel
      → IsExact w
      → IsExact (turn p config locked next_key tick now later w)
  unfolding flush_tick stop flush_execution_latency_metrics maybe_recover_kill_switch recover
  turn-IsExact config locked next_key tick now later w b e =
      turn_cases p config (λ v. IsExact v) locked next_key tick now later w
        (λ intent overflow.
          process_intent-IsExact config now later intent
            (record w { overflow_latest_by_symbol = overflow }) e.exact)
        (record { exact = ground arith }) (λ f. record { exact = e.exact })
        (λ m f r.
          process_intent-IsExact config now later m.0 (release p (record w { channel = m.1 }))
            (omega (arith, e.exact, b.shrinks w.channel m.1 m.0 r)))

  step-IsExact :
      (config : ExecutionConfig) (e : Event p) (w : World p)
      → IsBounded p.channel
      → IsExact w
      → IsExact (step p config e w)
  unfolding step finish_sent finish_timeout
  step-IsExact config (enqueue locked intent) w b e = try_enqueue-IsExact locked intent w b e
  step-IsExact config (take_turn locked next_key tick now later) w b e =
      let t = turn-IsExact config locked next_key tick now later w b e in ground arith
  step-IsExact config (send_succeeded now) w b e = record { exact = ground arith }
  step-IsExact config (send_timed_out now) w b e = record { exact = ground arith }

  -- On a channel that behaves as documented, any run keeps the counted queue depth equal to the
  -- number of intents in the channel.
  pub run-IsExact :
      (config : ExecutionConfig) (es : List (Event p)) (w : World p)
      → IsBounded p.channel
      → IsExact w
      → IsExact (run p config es w)
  unfolding run
  run-IsExact config [] w b e = e
  run-IsExact config (x ∷ es) w b e =
      run-IsExact config es (step p config x w) b (step-IsExact config x w b e)
