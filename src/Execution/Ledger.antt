-- ===== src/Execution/Ledger.antt =====
-- What becomes of each intent: it is sent, dropped, timed out or still waiting
-- (hft-lead-lag/src/event_loop_execution.rs).
use hft_lead_lag.Prelude.{
  ℕ, suc, ◌+◌, ◌%◌, ◌≡◌, refl, ◌∙◌, inl, inr, Bool, true, false, String, List, [], ◌∷◌, Option,
  none, some, ℤ, arith, if_both, string_key, length, Option-cases,
}
use hft_lead_lag.Prelude.Maps.{lookup, insert}
use hft_lead_lag.Execution.Types.{
  Platform, ExecutionConfig, World, OrderIntent, IsBounded, TrySend, sent, full, closed,
}
use hft_lead_lag.Execution.Queue.{
  remove, pop_overflow_intent, keep_latest, answer, try_enqueue, reserve, release, offer,
  drop_intent,
}
use hft_lead_lag.Execution.Worker.{
  recover, maybe_recover_kill_switch, start_send, process_intent, finish_sent, finish_timeout,
  flush_execution_latency_metrics, flush_tick, stop, receive, select, turn,
}
use hft_lead_lag.Execution.Runs.{
  Event, enqueue, take_turn, send_succeeded, send_timed_out, step, run,
}

-- One for an intent that is there.
abbrev pub one {ℓ} : {A : Type ℓ} → Option A → ℕ
one none = 0
one (some a) = 1

length-remove {ℓ} :
    {V : Type ℓ} (key : String) (m : List (String × V))
    → length (remove key m).1 + one (remove key m).0 ≡ length m
unfolding remove
length-remove key [] = refl
length-remove key ((k, v) ∷ m) = ground (arith, length-remove key m)

length-pop_overflow_intent {ℓ} :
    {V : Type ℓ} (locked : Bool) (next_key : Option String) (m : List (String × V))
    → length (pop_overflow_intent locked next_key m).1
        + one (pop_overflow_intent locked next_key m).0
      ≡ length m
unfolding pop_overflow_intent
length-pop_overflow_intent false next_key m = omega arith
length-pop_overflow_intent true none m = omega arith
length-pop_overflow_intent true (some key) m = length-remove key m

length-insert {ℓ} :
    {V : Type ℓ} (key : String) (v : V) (m : List (String × V))
    → length (insert key v m) + one (lookup key m) ≡ length m + 1
unfolding insert lookup
length-insert key v [] = refl
length-insert key v ((k, u) ∷ m) = ground (arith, length-insert key v m)

module _ (p : Platform) where
  -- The intents that were sent, dropped or timed out, and those that wait: in the channel, in the
  -- overflow map, and in the send that the worker awaits.
  unfoldable pub accounted : World p → ℕ
  accounted w =
      w.health.runtime_execution_sent_intents
      + w.health.runtime_execution_dropped_intents
      + w.health.runtime_execution_send_timeouts
      + p.channel.pending w.channel
      + length w.overflow_latest_by_symbol
      + one w.sending

  -- `n` more intents are accounted for, in 64-bit counters.
  abbrev pub Gains : ℕ → World p → World p → Type 0
  Gains n v w =
      accounted v % 18_446_744_073_709_551_616 ≡ (accounted w + n) % 18_446_744_073_709_551_616

  drop_intent-Gains : (w : World p) → Gains 1 (drop_intent p w) w
  unfolding accounted
  drop_intent-Gains w = omega arith

  -- How often a producer calls `try_enqueue`.
  abbrev pub enqueues : List (Event p) → ℕ
  enqueues [] = 0
  enqueues (enqueue locked intent ∷ es) = suc (enqueues es)
  enqueues (take_turn locked next_key tick now later ∷ es) = enqueues es
  enqueues (send_succeeded now ∷ es) = enqueues es
  enqueues (send_timed_out now ∷ es) = enqueues es

  enqueues_split :
      (e : Event p) (es : List (Event p)) → enqueues (e ∷ es) ≡ enqueues (e ∷ []) + enqueues es
  enqueues_split (enqueue locked intent) es = omega arith
  enqueues_split (take_turn locked next_key tick now later) es = omega arith
  enqueues_split (send_succeeded now) es = omega arith
  enqueues_split (send_timed_out now) es = omega arith

  keep_latest-Gains :
      (locked : Bool) (intent : OrderIntent p.float) (w : World p)
      → Gains 1 (keep_latest p locked intent w).1 w
  unfolding accounted keep_latest
  keep_latest-Gains false intent w = omega arith
  keep_latest-Gains true intent w =
      ground (arith, length-insert intent.signal.symbol intent w.overflow_latest_by_symbol)

  -- Only the channel's count differs: `n` messages before the call.
  answer-Gains :
      (n : ℕ) (locked : Bool) (intent : OrderIntent p.float) (o : TrySend) (w : World p)
      → (o ≡ sent → p.channel.pending w.channel ≡ n + 1)
      → (o ≡ full → p.channel.pending w.channel ≡ n)
      → (o ≡ closed → p.channel.pending w.channel ≡ n)
      → (accounted (answer p locked intent o w).1 + p.channel.pending w.channel)
          % 18_446_744_073_709_551_616
        ≡ (accounted w + n + 1) % 18_446_744_073_709_551_616
  unfolding accounted answer
  answer-Gains n locked intent sent w s f c = omega (arith, s refl)
  answer-Gains n locked intent full w s f c =
      omega (arith, f refl, keep_latest-Gains locked intent (release p w))
  answer-Gains n locked intent closed w s f c = omega (arith, c refl)

  accounted-offered :
      (c : p.channel.State) (w : World p)
      → accounted (record (reserve p w) { channel = c }) + p.channel.pending w.channel
        ≡ accounted w + p.channel.pending c
  unfolding accounted
  accounted-offered c w = omega arith

  offer-Gains :
      (locked : Bool) (intent : OrderIntent p.float) (w : World p)
      → IsBounded p.channel
      → Gains 1 (offer p locked intent w).1 w
  unfolding offer
  offer-Gains locked intent w b =
      let o = p.channel.try_send w.channel intent in
      let offered : World p = record (reserve p w) { channel = o.1 } in
      let gain =
        answer-Gains (p.channel.pending w.channel) locked intent o.0 offered
          (b.grows w.channel intent) (b.refuses_full w.channel intent)
          (b.refuses_closed w.channel intent) in
      omega (arith, gain, accounted-offered o.1 w)

  try_enqueue-Gains :
      (locked : Bool) (intent : OrderIntent p.float) (w : World p)
      → IsBounded p.channel
      → Gains 1 (try_enqueue p locked intent w).1 w
  unfolding try_enqueue
  try_enqueue-Gains locked intent w b =
      if_both (λ r. Gains 1 r.1 w) w.health.runtime_execution_kill_switch_active
        (false, drop_intent p w) (offer p locked intent w) (drop_intent-Gains w)
        (offer-Gains locked intent w b)

  recover-Gains : (now : ℤ) (at : Option ℤ) (w : World p) → Gains 0 (recover p now at w) w
  unfolding accounted recover
  recover-Gains now none w = omega arith
  recover-Gains now (some at) w = ground arith

  start_send-Gains :
      (config : ExecutionConfig) (now : ℤ) (intent : OrderIntent p.float) (w : World p)
      → w.sending ≡ none
      → Gains 1 (start_send p config now intent w) w
  unfolding accounted start_send
  start_send-Gains config now intent w idle = ground arith

  recover-sending :
      (now : ℤ) (at : Option ℤ) (w : World p) → (recover p now at w).sending ≡ w.sending
  unfolding recover
  recover-sending now none w = refl
  recover-sending now (some at) w = ground arith

  process_intent-Gains :
      (config : ExecutionConfig) (now later : ℤ) (intent : OrderIntent p.float) (w : World p)
      → w.sending ≡ none
      → Gains 1 (process_intent p config now later intent w) w
  unfolding process_intent maybe_recover_kill_switch
  process_intent-Gains config now later intent w idle =
      let ready = recover p now w.kill_switch_recover_at_ns w in
      let same = recover-sending now w.kill_switch_recover_at_ns w in
      omega (
        arith,
        start_send-Gains config later intent ready (same ∙ idle),
        recover-Gains now w.kill_switch_recover_at_ns w,
      )

  flush-Gains : (now : ℤ) (w : World p) → Gains 0 (flush_tick p now w) w
  unfolding flush_tick flush_execution_latency_metrics maybe_recover_kill_switch accounted
  flush-Gains now w =
      let at = w.kill_switch_recover_at_ns in
      omega (arith, recover-Gains now at (flush_execution_latency_metrics p w))

  receive-Gains :
      (config : ExecutionConfig) (now later : ℤ) (w : World p)
      → IsBounded p.channel
      → w.sending ≡ none
      → Gains 0 (receive p config now later w) w
  unfolding receive stop flush_execution_latency_metrics accounted
  receive-Gains config now later w b idle = elim (Option-cases (p.channel.recv w.channel)) [
    | inl e ↦ rw (receive, e) (omega arith)
    | inr (message, e) ↦
        let taken : World p = record w { channel = message.1 } in
        rw (receive, e)
          (omega (
            arith,
            process_intent-Gains config now later message.0 (release p taken) idle,
            b.shrinks w.channel message.1 message.0 e,
          ))
  ]

  select-Gains :
      (config : ExecutionConfig) (tick : Bool) (now later : ℤ) (w : World p)
      → IsBounded p.channel
      → w.sending ≡ none
      → Gains 0 (select p config tick now later w) w
  unfolding select
  select-Gains config true now later w b idle = flush-Gains now w
  select-Gains config false now later w b idle = receive-Gains config now later w b idle

  popped-Gains :
      (config : ExecutionConfig)
      (popped : Option (OrderIntent p.float) × List (String × OrderIntent p.float)) (tick : Bool)
      (now later : ℤ) (w : World p)
      → length popped.1 + one popped.0 ≡ length w.overflow_latest_by_symbol
      → IsBounded p.channel
      → w.sending ≡ none
      → Gains 0
          (elim popped.0 [
            | none ↦ select p config tick now later w
            | some intent ↦
                process_intent p config now later intent
                  (record w { overflow_latest_by_symbol = popped.1 })
          ])
          w
  unfolding accounted
  popped-Gains config (none, overflow) tick now later w h b idle =
      select-Gains config tick now later w b idle
  popped-Gains config (some intent, overflow) tick now later w h b idle =
      let left : World p = record w { overflow_latest_by_symbol = overflow } in
      omega (arith, process_intent-Gains config now later intent left idle)

  turn-Gains :
      (config : ExecutionConfig) (locked : Bool) (next_key : Option String) (tick : Bool)
      (now later : ℤ) (w : World p)
      → IsBounded p.channel
      → w.sending ≡ none
      → Gains 0 (turn p config locked next_key tick now later w) w
  unfolding turn
  turn-Gains config locked next_key tick now later w b idle =
      let popped = pop_overflow_intent locked next_key w.overflow_latest_by_symbol in
      let count = length-pop_overflow_intent locked next_key w.overflow_latest_by_symbol in
      popped-Gains config popped tick now later w count b idle

  step-Gains :
      (config : ExecutionConfig) (e : Event p) (w : World p)
      → IsBounded p.channel
      → Gains (enqueues (e ∷ [])) (step p config e w) w
  unfolding step finish_sent finish_timeout accounted
  step-Gains config (enqueue locked intent) w b = try_enqueue-Gains locked intent w b
  step-Gains config (take_turn locked next_key tick now later) w b =
      let gain = turn-Gains config locked next_key tick now later w b in ground (arith, gain)
  step-Gains config (send_succeeded now) w b = ground arith
  step-Gains config (send_timed_out now) w b = ground arith

  -- On a channel that behaves as documented, in any run of producers, worker and sends, the
  -- intents sent, dropped and timed out (64-bit counters) and those waiting in the channel, in the
  -- overflow map and in the awaited send grow together by one for each call of try_enqueue.
  pub ledger :
      (config : ExecutionConfig) (es : List (Event p)) (w : World p)
      → IsBounded p.channel
      → Gains (enqueues es) (run p config es w) w
  unfolding run
  ledger config [] w b = omega arith
  ledger config (e ∷ es) w b =
      let now = step-Gains config e w b in
      let later = ledger config es (step p config e w) b in
      omega (arith, now, later, enqueues_split e es)
