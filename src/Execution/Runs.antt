-- ===== src/Execution/Runs.antt =====
-- Runs of the execution runtime of hft-lead-lag/src/event_loop_execution.rs: what producers, the
-- worker and its sends do, in any order.
use hft_lead_lag.Prelude.{
  ◌≡◌, refl, inl, inr, Option-cases, Bool, true, false, not, ◌&&◌, String, List, [], ◌∷◌, Option,
  none, some, ℤ, is_some, if◌then◌else◌,
}
use hft_lead_lag.Execution.Types.{Platform, ExecutionConfig, World, OrderIntent}
use hft_lead_lag.Execution.Queue.{try_enqueue, release, pop_overflow_intent}
use hft_lead_lag.Execution.Worker.{
  finish_sent, finish_timeout, process_intent, flush_tick, stop, receive, select, turn,
}

-- A producer's call; a turn of the worker's loop up to its `await`; the two ends of a send.
pub data Event (p : Platform) : Type 0 where
  enqueue : Bool → OrderIntent p.float → Event p
  take_turn : Bool → Option String → Bool → ℤ → ℤ → Event p
  send_succeeded : ℤ → Event p
  send_timed_out : ℤ → Event p

module _ (p : Platform) (config : ExecutionConfig) where
  -- The worker takes a turn while it runs and awaits no send; a send ends only if there is one.
  unfoldable pub step : Event p → World p → World p
  step (enqueue locked intent) w = (try_enqueue p locked intent w).1
  step (take_turn locked next_key tick now later) w =
      if w.running && not (is_some w.sending)
      then turn p config locked next_key tick now later w
      else w
  step (send_succeeded now) w = elim w.sending [
    | none ↦ w
    | some intent ↦ finish_sent p now intent w
  ]
  step (send_timed_out now) w = elim w.sending [
    | none ↦ w
    | some intent ↦ finish_timeout p config now w
  ]

  unfoldable pub run : List (Event p) → World p → World p
  run [] w = w
  run (e ∷ es) w = run es (step e w)

  -- What a turn does is one of four things.
  receive_cases :
      (P : World p → Type 0) (now later : ℤ) (w : World p)
      → P (stop p w)
      → ((m : OrderIntent p.float × p.channel.State)
          → p.channel.recv w.channel ≡ some m
          → P (process_intent p config now later m.0 (release p (record w { channel = m.1 }))))
      → P (receive p config now later w)
  unfolding receive
  receive_cases P now later w s r = elim (Option-cases (p.channel.recv w.channel)) [
    | inl e ↦ rw (receive, e) s
    | inr (m, e) ↦ rw (receive, e) (r m e)
  ]

  popped_cases :
      (P : World p → Type 0)
      (popped : Option (OrderIntent p.float) × List (String × OrderIntent p.float)) (now later : ℤ)
      (w other : World p)
      → ((intent : OrderIntent p.float) (overflow : List (String × OrderIntent p.float))
          → P (
              process_intent p config now later intent
                (record w { overflow_latest_by_symbol = overflow })))
      → P other
      → P (elim popped.0 [
        | none ↦ other
        | some intent ↦
            process_intent p config now later intent
              (record w { overflow_latest_by_symbol = popped.1 })
      ])
  popped_cases P (none, overflow) now later w other i o = o
  popped_cases P (some intent, overflow) now later w other i o = i intent overflow

  pub turn_cases :
      (P : World p → Type 0) (locked : Bool) (next_key : Option String) (tick : Bool)
      (now later : ℤ) (w : World p)
      → ((intent : OrderIntent p.float) (overflow : List (String × OrderIntent p.float))
          → P (
              process_intent p config now later intent
                (record w { overflow_latest_by_symbol = overflow })))
      → P (flush_tick p now w)
      → (tick ≡ false → P (stop p w))
      → ((m : OrderIntent p.float × p.channel.State)
          → tick ≡ false
          → p.channel.recv w.channel ≡ some m
          → P (process_intent p config now later m.0 (release p (record w { channel = m.1 }))))
      → P (turn p config locked next_key tick now later w)
  unfolding turn select
  turn_cases P locked next_key true now later w i t s r =
      popped_cases P (pop_overflow_intent locked next_key w.overflow_latest_by_symbol) now later w
        (flush_tick p now w) i t
  turn_cases P locked next_key false now later w i t s r =
      popped_cases P (pop_overflow_intent locked next_key w.overflow_latest_by_symbol) now later w
        (receive p config now later w) i (receive_cases P now later w (s refl) (λ m e. r m refl e))
