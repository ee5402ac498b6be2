-- ===== src/Execution/Queue.antt =====
-- `ExecutionQueueTx::try_enqueue` and the map of the overflowing intents. A call of `try_enqueue` is
-- one step of the model.
use hft_lead_lag.Prelude.{
  ℕ, ◌+◌, ◌-◌, ◌%◌, Bool, true, false, String, List, [], ◌∷◌, Option, none, some, is_some,
  string_key, ◌==◌, if◌then◌else◌,
}
use hft_lead_lag.Prelude.Maps.{lookup, insert}
use hft_lead_lag.Execution.Types.{
  Platform, World, HealthState, OrderIntent, TrySend, sent, full, closed,
}

-- `fetch_add(1)` of an `AtomicU64`.
abbrev pub fetch_add : ℕ → ℕ
fetch_add n = (n + 1) % 18_446_744_073_709_551_616

-- The loop repeats a compare-and-exchange until it succeeds, and then has replaced `n`.
abbrev pub decrement_saturating : ℕ → ℕ
decrement_saturating n = n - 1

-- `HashMap::remove`
unfoldable pub remove {ℓ} : {V : Type ℓ} → String → List (String × V) → Option V × List (String × V)
remove wanted [] = (none, [])
remove wanted ((k, v) ∷ rest) =
    let (found, kept) = remove wanted rest in
    if k == wanted then (some v, rest) else (found, (k, v) ∷ kept)

-- `locked` tells that the lock is not poisoned, `next_key` is what `keys().next()` gives.
unfoldable pub pop_overflow_intent {ℓ} :
    {V : Type ℓ} → Bool → Option String → List (String × V) → Option V × List (String × V)
pop_overflow_intent false next_key overflow = (none, overflow)
pop_overflow_intent true none overflow = (none, overflow)
pop_overflow_intent true (some key) overflow = remove key overflow

module _ (p : Platform) where
  abbrev pub count_dropped : HealthState → HealthState
  count_dropped h = record h {
    runtime_execution_dropped_intents = fetch_add h.runtime_execution_dropped_intents;
  }

  abbrev pub drop_intent : World p → World p
  drop_intent w = record w { health = count_dropped w.health }

  abbrev pub store_depth : World p → World p
  store_depth w = record w {
    health = record w.health { runtime_execution_queue_depth = w.queue_depth };
  }

  abbrev pub reserve : World p → World p
  reserve w = store_depth (record w { queue_depth = fetch_add w.queue_depth })

  abbrev pub release : World p → World p
  release w = store_depth (record w { queue_depth = decrement_saturating w.queue_depth })

  -- The channel is full: the latest intent of each symbol is kept.
  unfoldable pub keep_latest : Bool → OrderIntent p.float → World p → Bool × World p
  keep_latest false intent w = (false, drop_intent w)
  keep_latest true intent w =
      let overflow = w.overflow_latest_by_symbol in
      let symbol = intent.signal.symbol in
      let kept : World p = record w { overflow_latest_by_symbol = insert symbol intent overflow } in
      (true, if is_some (lookup symbol overflow) then drop_intent kept else kept)

  unfoldable pub answer : Bool → OrderIntent p.float → TrySend → World p → Bool × World p
  answer locked intent sent w = (true, w)
  answer locked intent full w = keep_latest locked intent (release w)
  answer locked intent closed w = (false, drop_intent (release w))

  -- The switch is not active: depth is reserved before the intent is sent.
  unfoldable pub offer : Bool → OrderIntent p.float → World p → Bool × World p
  offer locked intent w =
      let outcome = p.channel.try_send w.channel intent in
      answer locked intent outcome.0 (record (reserve w) { channel = outcome.1 })

  unfoldable pub try_enqueue : Bool → OrderIntent p.float → World p → Bool × World p
  try_enqueue locked intent w =
      if w.health.runtime_execution_kill_switch_active
      then (false, drop_intent w)
      else offer locked intent w
