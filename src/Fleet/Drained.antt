-- ===== src/Fleet/Drained.antt =====
-- The order of drained trades: hft-lead-lag/src/domain/screener/drained_trades.rs.
use Prim.Native.Nat.{Ordering, compare}
use Prim.Native.String.{compare as compare_str}
use hft_lead_lag.Prelude.{
  ℕ, Bool, true, false, ◌&&◌, String, List, [], ◌∷◌, Option, none, some, ℤ, length, ltb, leb_ℤ,
  nat_beq, string_key, ◌==◌, if◌then◌else◌, sat_inc, u64_max,
}
use hft_lead_lag.Prelude.Float.{Float64}
use hft_lead_lag.Prelude.Ordering.{cmp_ℤ, lex}
use hft_lead_lag.Portfolio.Ranking.{sort_by}
use hft_lead_lag.Fleet.Traders.{FleetTrade}

pub record CandidateEvent (fl : Float64) : Type 0 where
  pub symbol : String
  pub event_ts_ms : ℤ
  pub pnl_pct : fl.F
  pub first_observed_ts_ms : ℤ

-- What an event has gathered: the sum of the gains, their number and the first entry.
pub record Gathered (fl : Float64) : Type 0 where
  pub symbol : String
  pub event_ts_ms : ℤ
  pub pnl_sum : fl.F
  pub count : ℕ
  pub first_observed_ts_ms : ℤ

abbrev same_time : ℤ → ℤ → Bool
same_time a b = leb_ℤ a b && leb_ℤ b a

module _ (fl : Float64) where
  abbrev pub trade_order : FleetTrade fl → FleetTrade fl → Ordering
  trade_order =
      lex (λ a b. compare_str a.symbol b.symbol)
        (lex (λ a b. cmp_ℤ a.trade.ts_ms b.trade.ts_ms)
          (lex (λ a b. cmp_ℤ a.trade.entry_ts_ms b.trade.entry_ts_ms)
            (λ a b. compare a.config_id b.config_id)))

  abbrev pub sort_drained_trades : List (FleetTrade fl) → List (FleetTrade fl)
  sort_drained_trades trades = sort_by trade_order trades

  -- Whether two trades have the same natural key.
  abbrev pub same_trade : FleetTrade fl → FleetTrade fl → Bool
  same_trade a b =
      nat_beq a.config_id b.config_id
      && (a.symbol == b.symbol)
      && same_time a.trade.entry_ts_ms b.trade.entry_ts_ms
      && same_time a.trade.ts_ms b.trade.ts_ms

  abbrev repeats : Option (FleetTrade fl) → FleetTrade fl → Bool
  repeats none ft = false
  repeats (some kept) ft = same_trade kept ft

  -- The trades whose key is not that of the last one kept.
  unfoldable pub dedupe_from : Option (FleetTrade fl) → List (FleetTrade fl) → List (FleetTrade fl)
  dedupe_from kept [] = []
  dedupe_from kept (ft ∷ rest) =
      let skipped = dedupe_from kept rest in
      let pushed = dedupe_from (some ft) rest in if repeats kept ft then skipped else ft ∷ pushed

  abbrev pub dedupe_drained_trades : List (FleetTrade fl) → List (FleetTrade fl)
  dedupe_drained_trades trades = if ltb (length trades) 2 then trades else dedupe_from none trades

  abbrev pub in_run : Option String → FleetTrade fl → Bool
  in_run none ft = true
  in_run (some active) ft = elim ft.run_id [ none ↦ false | some id ↦ id == active ]

  unfoldable pub filter_active_run_trades :
      Option String → List (FleetTrade fl) → List (FleetTrade fl)
  filter_active_run_trades active [] = []
  filter_active_run_trades active (ft ∷ rest) =
      let later = filter_active_run_trades active rest in
      if in_run active ft then ft ∷ later else later

  abbrev pub new_event : FleetTrade fl → Gathered fl
  new_event ft = record {
    symbol = ft.symbol;
    event_ts_ms = ft.trade.ts_ms;
    pnl_sum = fl.add (fl.ratio 0 1) ft.trade.pnl_pct;
    count = 1;
    first_observed_ts_ms = ft.trade.entry_ts_ms;
  }

  abbrev pub gather : FleetTrade fl → Gathered fl → Gathered fl
  gather ft g = record g {
    pnl_sum = fl.add g.pnl_sum ft.trade.pnl_pct;
    count = sat_inc u64_max g.count;
    first_observed_ts_ms =
        if leb_ℤ g.first_observed_ts_ms ft.trade.entry_ts_ms
        then g.first_observed_ts_ms
        else ft.trade.entry_ts_ms;
  }

  -- The entry of a `BTreeMap`, in the order of its keys.
  unfoldable pub observe_event : FleetTrade fl → List (Gathered fl) → List (Gathered fl)
  observe_event ft [] = new_event ft ∷ []
  observe_event ft (g ∷ gs) =
      let later = observe_event ft gs in
      let order =
        lex (λ (a b : String × ℤ). compare_str a.0 b.0) (λ (a b : String × ℤ). cmp_ℤ a.1 b.1)
          (ft.symbol, ft.trade.ts_ms) (g.symbol, g.event_ts_ms) in
      elim order [
        | Ordering.lt ↦ new_event ft ∷ g ∷ gs
        | Ordering.eq ↦ gather ft g ∷ gs
        | Ordering.gt ↦ g ∷ later
      ]

  abbrev pub observe_events : List (FleetTrade fl) → List (Gathered fl) → List (Gathered fl)
  observe_events [] gs = gs
  observe_events (ft ∷ rest) gs = observe_events rest (observe_event ft gs)

  abbrev pub finish_events : List (Gathered fl) → List (CandidateEvent fl)
  finish_events [] = []
  finish_events (g ∷ gs) =
      let rest = finish_events gs in
      let event : CandidateEvent fl = record {
        symbol = g.symbol;
        event_ts_ms = g.event_ts_ms;
        pnl_pct = fl.div g.pnl_sum (fl.of_nat g.count);
        first_observed_ts_ms = g.first_observed_ts_ms;
      } in
      if nat_beq g.count 0 then rest else event ∷ rest

  unfoldable pub collapse_candidate_events : List (FleetTrade fl) → List (CandidateEvent fl)
  collapse_candidate_events trades = finish_events (observe_events trades [])
