-- ===== src/Execution/Overflow.antt =====
-- Intents that a full channel refuses (hft-lead-lag/src/event_loop_execution.rs): the map keeps the
-- latest of each symbol.
use hft_lead_lag.Prelude.{
  ◌≡◌, refl, ◌∙◌, ap, Bool, true, false, String, List, [], ◌∷◌, Option, some, arith, if_cases,
  string_key, ◌==◌, if◌then◌else◌,
}
use hft_lead_lag.Prelude.Maps.{lookup, lookup-insert}
use hft_lead_lag.Execution.Types.{Platform, World, OrderIntent, TrySend, sent, full, closed}
use hft_lead_lag.Execution.Queue.{reserve, drop_intent, keep_latest, answer, offer, try_enqueue}

module _ (p : Platform) where
  -- Calls of try_enqueue in order, with a lock that is not poisoned.
  unfoldable pub enqueue_all : List (OrderIntent p.float) → World p → World p
  enqueue_all [] w = w
  enqueue_all (intent ∷ intents) w = enqueue_all intents (try_enqueue p true intent w).1

  -- The last intent for a symbol that the channel, offered the intents one after the other, refuses
  -- because it is full; or the one before.
  abbrev pub newer_refused :
      String
      → OrderIntent p.float
      → TrySend
      → Option (OrderIntent p.float)
      → Option (OrderIntent p.float)
  newer_refused s intent sent old = old
  newer_refused s intent closed old = old
  newer_refused s intent full old = if intent.signal.symbol == s then some intent else old

  unfoldable pub last_refused :
      String
      → List (OrderIntent p.float)
      → p.channel.State
      → Option (OrderIntent p.float)
      → Option (OrderIntent p.float)
  last_refused s [] c old = old
  last_refused s (intent ∷ intents) c old =
      last_refused s intents (p.channel.try_send c intent).1
        (newer_refused s intent (p.channel.try_send c intent).0 old)

  -- What one call leaves.
  record Offered (s : String) (intent : OrderIntent p.float) (w t : World p) : Type 0 where
    same_switch :
        t.health.runtime_execution_kill_switch_active
        ≡ w.health.runtime_execution_kill_switch_active
    offered : t.channel ≡ (p.channel.try_send w.channel intent).1
    refused :
        lookup s t.overflow_latest_by_symbol
        ≡ newer_refused s intent
            (p.channel.try_send w.channel intent).0
            (lookup s w.overflow_latest_by_symbol)

  answer-Offered :
      (s : String) (intent : OrderIntent p.float) (o : TrySend) (w : World p)
      → ((answer p true intent o w).1.health.runtime_execution_kill_switch_active
          ≡ w.health.runtime_execution_kill_switch_active)
        × ((answer p true intent o w).1.channel ≡ w.channel)
        × (lookup s (answer p true intent o w).1.overflow_latest_by_symbol
            ≡ newer_refused s intent o (lookup s w.overflow_latest_by_symbol))
  unfolding answer keep_latest
  answer-Offered s intent sent w = (refl, refl, refl)
  answer-Offered s intent closed w = (refl, refl, refl)
  answer-Offered s intent full w =
      let found = lookup-insert intent.signal.symbol s intent w.overflow_latest_by_symbol in
      (ground arith, ground arith, ground (arith, found))

  offer-Offered :
      (s : String) (intent : OrderIntent p.float) (w : World p)
      → Offered s intent w (offer p true intent w).1
  unfolding offer
  offer-Offered s intent w =
      let outcome = p.channel.try_send w.channel intent in
      let tried : World p = record (reserve p w) { channel = outcome.1 } in
      let (switch, channel, found) = answer-Offered s intent outcome.0 tried in
      record { same_switch = switch; offered = channel; refused = found }

  try_enqueue-Offered :
      (s : String) (intent : OrderIntent p.float) (w : World p)
      → w.health.runtime_execution_kill_switch_active ≡ false
      → Offered s intent w (try_enqueue p true intent w).1
  unfolding try_enqueue
  try_enqueue-Offered s intent w off =
      if_cases (λ (r : Bool × World p). Offered s intent w r.1)
        w.health.runtime_execution_kill_switch_active (false, drop_intent p w)
        (offer p true intent w) (λ on. absurd (ground (arith, on, off)))
        (λ e. offer-Offered s intent w)

  -- After any calls of try_enqueue one after the other, with the kill switch off and a lock that
  -- is not poisoned, the overflow map holds for each symbol the last of its intents that the
  -- channel refused because it was full, or what it held before if none was refused. This holds
  -- for any channel, and for intents that are accepted in between.
  pub enqueue_all_keeps_latest :
      (s : String) (intents : List (OrderIntent p.float)) (w : World p)
      → w.health.runtime_execution_kill_switch_active ≡ false
      → lookup s (enqueue_all intents w).overflow_latest_by_symbol
        ≡ last_refused s intents w.channel (lookup s w.overflow_latest_by_symbol)
  unfolding enqueue_all last_refused
  enqueue_all_keeps_latest s [] w off = refl
  enqueue_all_keeps_latest s (intent ∷ intents) w off =
      let t = (try_enqueue p true intent w).1 in
      let o = try_enqueue-Offered s intent w off in
      enqueue_all_keeps_latest s intents t (o.same_switch ∙ off)
      ∙ (ap (λ c. last_refused s intents c (lookup s t.overflow_latest_by_symbol)) o.offered
          ∙ ap (last_refused s intents (p.channel.try_send w.channel intent).1) o.refused)
