-- ===== src/Fleet/Run.antt =====
-- Runs of the fleet: hft-lead-lag/src/domain/screener/shadow_fleet.rs.
use hft_lead_lag.Prelude.{
  All-append, ℕ, suc, ◌+◌, ◌≤◌, ◌<◌, ◌≡◌, true, List, [], ◌∷◌, ◌++◌, some, ℤ, ◌-%◌, String, arith,
  length, ap, ◌∙◌, sym, subst, leb_ℤ, All, if◌then◌else◌, length-append,
}
use mathlib.Core.List.{append-nil, append_assoc}
use hft_lead_lag.Prelude.Float.{Float64}
use hft_lead_lag.Shadow.Tick.{TickInput}
use hft_lead_lag.Fleet.Traders.{
  FleetTrade, Slot, ShadowFleet, tick_slot, tick_slots, tick_all, drain_trades, wrapping_dec,
  first_tick,
}
use hft_lead_lag.Fleet.Ledger.{IsSlot, tick_slot-Hands, enabled}

module _ (fl : Float64) where
  -- The trades of all sessions, and the number of traders that are not pruned.
  unfoldable pub session_total : List (Slot fl) → ℕ
  session_total [] = 0
  session_total (s ∷ ss) = s.trader.session_trades + session_total ss

  unfoldable pub enabled_count : List (Slot fl) → ℕ
  enabled_count [] = 0
  enabled_count (s ∷ ss) = enabled fl s + enabled_count ss

  abbrev pub IsWithin : ℕ → Slot fl → Type 0
  IsWithin most s = IsSlot fl s × (s.trader.session_trades ≤ most)

  -- All slots are sound, have seen at most `bound` trades, and the active ones are counted.
  pub record IsFleet (bound : ℕ) (f : ShadowFleet fl) : Type 0 where
    pub slots_sound : All (IsWithin bound) f.slots
    pub active : f.active_count ≡ enabled_count f.slots
    pub in_range : f.active_count ≤ 18_446_744_073_709_551_615

  -- A sum over slots that are put together.
  session_total-append :
      (xs ys : List (Slot fl)) → session_total (xs ++ ys) ≡ session_total xs + session_total ys
  unfolding session_total
  session_total-append [] ys = omega arith
  session_total-append (x ∷ xs) ys = omega (arith, session_total-append xs ys)

  enabled_count-append :
      (xs ys : List (Slot fl)) → enabled_count (xs ++ ys) ≡ enabled_count xs + enabled_count ys
  unfolding enabled_count
  enabled_count-append [] ys = omega arith
  enabled_count-append (x ∷ xs) ys = omega (arith, enabled_count-append xs ys)

  -- From `before` to `after` trades in all sessions, as many trades of a time join the buffer.
  pub record Delivers (ts_ms : ℤ) (before : ℕ) (f g : ShadowFleet fl) (after : ℕ) : Type 0 where
    pub fresh : List (FleetTrade fl)
    pub appended : g.pending_trades ≡ f.pending_trades ++ fresh
    pub counted : length fresh + before ≡ after
    pub times : All (λ (t : FleetTrade fl). t.trade.ts_ms ≡ ts_ms) fresh

  compose-Delivers :
      (ts_ms : ℤ) (before middle after : ℕ) (f g : ShadowFleet fl) (pushed : List (FleetTrade fl))
      → All (λ (t : FleetTrade fl). t.trade.ts_ms ≡ ts_ms) pushed
      → length pushed + before ≡ middle
      → Delivers ts_ms middle (record f { pending_trades = f.pending_trades ++ pushed }) g after
      → Delivers ts_ms before f g after
  compose-Delivers ts_ms before middle after f g pushed times count d = record {
    fresh = pushed ++ d.fresh;
    appended = d.appended ∙ append_assoc f.pending_trades pushed d.fresh;
    counted = omega (arith, length-append pushed d.fresh, count, d.counted);
    times = All-append (λ (t : FleetTrade fl). t.trade.ts_ms ≡ ts_ms) pushed d.fresh times d.times;
  }

  module _ (symbol : String) (elapsed : ℤ) (i : TickInput fl) (bound : ℕ) where
    -- `f` holds the slots that have ticked, `ss` are those to come.
    tick_slots-IsFleet :
        (ss : List (Slot fl)) (f : ShadowFleet fl)
        → All (IsWithin bound) ss
        → All (IsWithin (bound + 1)) f.slots
        → f.active_count ≡ enabled_count f.slots + enabled_count ss
        → f.active_count ≤ 18_446_744_073_709_551_615
        → bound < 18_446_744_073_709_551_615
        → leb_ℤ (i.ts_ms -% i.window_ms) i.ts_ms ≡ true
        → IsFleet (bound + 1) (tick_slots fl symbol elapsed i ss f)
          × Delivers i.ts_ms
              (session_total f.slots + session_total ss)
              f
              (tick_slots fl symbol elapsed i ss f)
              (session_total (tick_slots fl symbol elapsed i ss f).slots)
    unfolding tick_slots session_total enabled_count
    tick_slots-IsFleet [] f todo done active range room keeps = (
      record { slots_sound = done; active = omega (arith, active); in_range = range },
      record {
        fresh = [];
        appended = sym (append-nil f.pending_trades);
        counted = omega arith;
        times = tt;
      },
    )
    tick_slots-IsFleet (s ∷ ss) f todo done active range room keeps =
        let r = tick_slot fl symbol elapsed i s in
        let h =
          tick_slot-Hands fl symbol elapsed i s todo.0.0 (omega (arith, todo.0.1, room)) keeps in
        let f' : ShadowFleet fl = record f {
          slots = f.slots ++ r.slot ∷ [];
          pending_trades = f.pending_trades ++ r.pushed;
          active_count = if r.pruned then wrapping_dec f.active_count else f.active_count;
        } in
        let total = session_total-append f.slots (r.slot ∷ []) in
        let rest =
          tick_slots-IsFleet ss f' todo.1
            (All-append (IsWithin (bound + 1)) f.slots (r.slot ∷ []) done
              ((h.sound, omega (arith, h.at_most_one, todo.0.1)), tt))
            (ground (arith, active, h.flags, range, enabled_count-append f.slots (r.slot ∷ [])))
            (ground (arith, active, h.flags, range)) room keeps in
        let d = rest.1 in
        (
          rest.0,
          compose-Delivers i.ts_ms (session_total f.slots + session_total (s ∷ ss))
              (session_total f'.slots + session_total ss)
              (session_total (tick_slots fl symbol elapsed i (s ∷ ss) f).slots) f
              (tick_slots fl symbol elapsed i (s ∷ ss) f) r.pushed h.times
              (omega (arith, total, h.delivered))
              (record {
                fresh = d.fresh;
                appended = d.appended;
                counted = d.counted;
                times = d.times;
              }),
        )

  -- One tick of the fleet.
  pub tick_all-IsFleet :
      (symbol : String) (i : TickInput fl) (bound : ℕ) (f : ShadowFleet fl)
      → IsFleet bound f
      → bound < 18_446_744_073_709_551_615
      → leb_ℤ (i.ts_ms -% i.window_ms) i.ts_ms ≡ true
      → IsFleet (bound + 1) (tick_all fl symbol i f)
        × Delivers i.ts_ms
            (session_total f.slots)
            f
            (tick_all fl symbol i f)
            (session_total (tick_all fl symbol i f).slots)
  unfolding tick_all session_total enabled_count
  tick_all-IsFleet symbol i bound f h room keeps =
      let first = first_tick fl f.first_tick_ms i.ts_ms in
      let empty : ShadowFleet fl = record f { slots = []; first_tick_ms = some first } in
      let (whole, d) =
        tick_slots-IsFleet symbol (i.ts_ms -% first) i bound f.slots empty h.slots_sound tt
          (omega (arith, h.active)) h.in_range room keeps in
      (
        whole,
        record {
          fresh = d.fresh;
          appended = d.appended;
          counted = omega (arith, d.counted);
          times = d.times;
        },
      )

  -- What a symbol does with its fleet.
  pub data FleetEvent : Type 0 where
    tick : TickInput fl → FleetEvent
    drain : FleetEvent

  -- The cutoff of a tick's trades is not after it.
  abbrev pub KeepsWindow : FleetEvent → Type 0
  KeepsWindow (tick i) = leb_ℤ (i.ts_ms -% i.window_ms) i.ts_ms ≡ true
  KeepsWindow drain = Unit

  abbrev pub ticks_in : List FleetEvent → ℕ
  ticks_in [] = 0
  ticks_in (tick i ∷ es) = suc (ticks_in es)
  ticks_in (drain ∷ es) = ticks_in es

  -- The trades that are drained, and the fleet that is left.
  unfoldable pub run_fleet :
      String → List FleetEvent → ShadowFleet fl → List (FleetTrade fl) × ShadowFleet fl
  run_fleet symbol [] f = ([], f)
  run_fleet symbol (tick i ∷ es) f = run_fleet symbol es (tick_all fl symbol i f)
  run_fleet symbol (drain ∷ es) f =
      let rest = run_fleet symbol es (drain_trades fl f).1 in
      ((drain_trades fl f).0 ++ rest.0, rest.1)

  -- In any run of ticks and drains of a sound fleet the trades drained and those still pending are
  -- together as many as were pending before and were closed since. The fleet stays sound: the
  -- books of every trader balance, all its trades are handed on, and the active count is the
  -- number of traders not pruned. The cutoff of each tick, its time less its window in wrapping
  -- 64-bit arithmetic, is not after it, and the 64-bit counters have room for the ticks.
  pub run_fleet-IsFleet :
      (symbol : String) (es : List FleetEvent) (bound : ℕ) (f : ShadowFleet fl)
      → IsFleet bound f
      → bound + ticks_in es ≤ 18_446_744_073_709_551_615
      → All KeepsWindow es
      → IsFleet (bound + ticks_in es) (run_fleet symbol es f).1
        × (length (run_fleet symbol es f).0
              + length (run_fleet symbol es f).1.pending_trades
              + session_total f.slots
            ≡ length f.pending_trades + session_total (run_fleet symbol es f).1.slots)
  unfolding run_fleet
  run_fleet-IsFleet symbol [] bound f h room keeps =
      (subst (λ n. IsFleet n f) (omega arith) h, omega arith)
  run_fleet-IsFleet symbol (tick i ∷ es) bound f h room keeps =
      let (whole, d) = tick_all-IsFleet symbol i bound f h (omega (arith, room)) keeps.0 in
      let next = tick_all fl symbol i f in
      let (left, sum) =
        run_fleet-IsFleet symbol es (bound + 1) next whole (omega (arith, room)) keeps.1 in
      (
        subst (λ n. IsFleet n (run_fleet symbol es next).1) (omega arith) left,
        omega (arith, sum, d.counted, ap length d.appended, length-append f.pending_trades d.fresh),
      )
  run_fleet-IsFleet symbol (drain ∷ es) bound f h room keeps =
      let drained = (drain_trades fl f).1 in
      let (left, sum) =
        run_fleet-IsFleet symbol es bound drained
          (record { slots_sound = h.slots_sound; active = h.active; in_range = h.in_range }) room
          keeps.1 in
      (left, omega (arith, sum, length-append f.pending_trades (run_fleet symbol es drained).0))
