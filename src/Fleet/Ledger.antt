-- ===== src/Fleet/Ledger.antt =====
-- The fleet hands on each closed trade once, and counts its active traders:
-- hft-lead-lag/src/domain/screener/shadow_fleet.rs.
use hft_lead_lag.Prelude.{
  ℕ, ◌+◌, ◌-◌, ◌≤◌, ◌<◌, ◌≡◌, refl, Bool, true, false, ◌&&◌, List, [], ◌∷◌, Option, ℤ, ◌-%◌, String,
  arith, length, drop, inl, inr, ap, ◌∙◌, sym, subst, leb_ℤ, if_both, if_cases, ltb, nat_beq, All,
  if◌then◌else◌,
}
use hft_lead_lag.Prelude.Float.{Float64}
use hft_lead_lag.Shadow.Types.{ClosedTrade, ShadowTrader}
use hft_lead_lag.Shadow.Tick.{TickInput, tick_with_context}
use hft_lead_lag.Shadow.Books.{IsBalanced, OneMore, tick-OneMore}
use hft_lead_lag.Fleet.Traders.{
  FleetTrade, Slot, Ticked, collect, tag, tick_slot, prune_inactive_ms,
}
use hft_lead_lag.Fleet.Drain.{Listed, tick-Listed, drop_to_last}

module _ (fl : Float64) where
  -- The trades of a slot are handed on, and its books balance.
  pub record IsSlot (s : Slot fl) : Type 0 where
    pub counted : s.last_session_trades ≡ s.trader.session_trades
    pub balanced : IsBalanced fl s.trader

  abbrev pub one_if : Bool → ℕ
  one_if true = 1
  one_if false = 0

  abbrev pub enabled : Slot fl → ℕ
  enabled s = if s.disabled then 0 else 1

  -- What a tick at a time does to a slot.
  pub record Hands (ts_ms : ℤ) (s : Slot fl) (r : Ticked fl) : Type 0 where
    pub sound : IsSlot r.slot
    pub delivered : length r.pushed + s.trader.session_trades ≡ r.slot.trader.session_trades
    pub at_most_one : r.slot.trader.session_trades ≤ s.trader.session_trades + 1
    pub times : All (λ (t : FleetTrade fl). t.trade.ts_ms ≡ ts_ms) r.pushed
    pub flags : enabled r.slot + one_if r.pruned ≡ enabled s

  tag_single :
      (ts_ms : ℤ) (id : ℕ) (symbol : String) (t : ClosedTrade fl) (ids : List (Option String))
      → t.ts_ms ≡ ts_ms
      → (length (tag fl id symbol (t ∷ []) ids) ≡ 1)
        × All (λ (u : FleetTrade fl). u.trade.ts_ms ≡ ts_ms) (tag fl id symbol (t ∷ []) ids)
  tag_single ts_ms id symbol t [] h = (refl, (h, tt))
  tag_single ts_ms id symbol t (i ∷ ids) h = (refl, (h, tt))

  tag-one :
      (ts_ms : ℤ) (id : ℕ) (symbol : String) (fresh : List (ClosedTrade fl)) (t : ClosedTrade fl)
      (ids : List (Option String))
      → fresh ≡ t ∷ []
      → t.ts_ms ≡ ts_ms
      → (length (tag fl id symbol fresh ids) ≡ 1)
        × All (λ (u : FleetTrade fl). u.trade.ts_ms ≡ ts_ms) (tag fl id symbol fresh ids)
  tag-one ts_ms id symbol fresh t ids e h =
      subst
        (λ ts.
          (length (tag fl id symbol ts ids) ≡ 1)
          × All (λ (u : FleetTrade fl). u.trade.ts_ms ≡ ts_ms) (tag fl id symbol ts ids))
        (sym e) (tag_single ts_ms id symbol t ids h)

  collect-Hands :
      (symbol : String) (elapsed : ℤ) (ts_ms : ℤ) (s : Slot fl) (t : ShadowTrader fl)
      → IsSlot s
      → s.disabled ≡ false
      → OneMore fl s.trader t
      → Listed fl ts_ms s.trader t
      → Hands ts_ms s (collect fl symbol elapsed (record s { trader = t }))
  unfolding collect
  collect-Hands symbol elapsed ts_ms s t ok on more listed =
      let n = t.session_trades - s.last_session_trades in
      let fresh = drop (length t.completed_trades - n) t.completed_trades in
      let ids = drop (length t.completed_trades - n) t.completed_trade_run_ids in
      if_cases (Hands ts_ms s) (ltb s.last_session_trades t.session_trades) _ _
        (λ grew. elim listed [
          | inl same ↦ absurd (ground (arith, grew, same, ok.counted))
          | inr (trade, newest, time) ↦
              let by_one : n ≡ 1 = ground (arith, grew, more.at_most_one, more.grows, ok.counted) in
              let one : fresh ≡ trade ∷ [] =
                ap (λ k. drop (length t.completed_trades - k) t.completed_trades) by_one
                ∙ drop_to_last t.completed_trades trade newest in
              let tagged = tag-one ts_ms s.config_id symbol fresh trade ids one time in
              record {
                sound = record { counted = refl; balanced = more.balanced };
                delivered =
                    ap (λ k. k + s.trader.session_trades) tagged.0
                    ∙ ground (arith, by_one, ok.counted);
                at_most_one = more.at_most_one;
                times = tagged.1;
                flags = ground (arith, on);
              }
        ])
        (λ still.
          let same : t.session_trades ≡ s.trader.session_trades =
            ground (arith, still, more.grows, ok.counted) in
          let kept : IsSlot (record s { trader = t }) = record {
            counted = ok.counted ∙ sym same;
            balanced = more.balanced;
          } in
          if_both (Hands ts_ms s) (nat_beq t.session_trades 0 && leb_ℤ prune_inactive_ms elapsed) _
            _
            (record {
              sound = record { counted = kept.counted; balanced = kept.balanced };
              delivered = omega (arith, same);
              at_most_one = more.at_most_one;
              times = tt;
              flags = ground (arith, on);
            })
            (record {
              sound = kept;
              delivered = omega (arith, same);
              at_most_one = more.at_most_one;
              times = tt;
              flags = ground (arith, on);
            }))

  pub tick_slot-Hands :
      (symbol : String) (elapsed : ℤ) (i : TickInput fl) (s : Slot fl)
      → IsSlot s
      → s.trader.session_trades < 18_446_744_073_709_551_615
      → leb_ℤ (i.ts_ms -% i.window_ms) i.ts_ms ≡ true
      → Hands i.ts_ms s (tick_slot fl symbol elapsed i s)
  unfolding tick_slot
  tick_slot-Hands symbol elapsed i s ok room keeps =
      if_cases (Hands i.ts_ms s) s.disabled _ _
        (λ off. record {
          sound = ok;
          delivered = omega arith;
          at_most_one = omega arith;
          times = tt;
          flags = omega arith;
        })
        (λ on.
          collect-Hands symbol elapsed i.ts_ms s (tick_with_context fl i s.trader) ok on
            (tick-OneMore fl i s.trader ok.balanced room) (tick-Listed fl i s.trader keeps))
