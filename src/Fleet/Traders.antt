-- ===== src/Fleet/Traders.antt =====
-- `ShadowFleet` of hft-lead-lag/src/domain/screener/shadow_fleet.rs. The source keeps the traders, their
-- policies, counters and flags in four vectors of one length; a slot here is an index of the four.
use hft_lead_lag.Prelude.{
  ℕ, ◌+◌, ◌-◌, ◌%◌, Bool, true, false, ◌&&◌, String, List, [], ◌∷◌, ◌++◌, Option, none, some, ℤ,
  pos, ◌-%◌, ltb, leb, leb_ℤ, nat_beq, length, drop, map, if◌then◌else◌,
}
use hft_lead_lag.Prelude.Float.{Float64, lt_f64}
use hft_lead_lag.Shadow.Config.{TraderConfig}
use hft_lead_lag.Shadow.Types.{ClosedTrade, ShadowTrader, new_trader}
use hft_lead_lag.Shadow.Tick.{TickInput, tick_with_context}
use hft_lead_lag.Fleet.Policy.{ConfigPolicyState, new_policy, observe_trade}

abbrev pub prune_min_trades : ℕ
prune_min_trades = 30

abbrev pub prune_inactive_ms : ℤ
prune_inactive_ms = pos 600_000

-- `-= 1` of a `usize`, without overflow checks.
abbrev pub wrapping_dec : ℕ → ℕ
wrapping_dec n = (n + 18_446_744_073_709_551_615) % 18_446_744_073_709_551_616

pub record FleetTrade (fl : Float64) : Type 0 where
  pub config_id : ℕ
  pub symbol : String
  pub run_id : Option String
  pub trade : ClosedTrade fl

pub record Slot (fl : Float64) : Type 0 where
  pub config_id : ℕ
  pub trader : ShadowTrader fl
  pub policy : ConfigPolicyState fl
  pub last_session_trades : ℕ
  pub disabled : Bool

pub record ShadowFleet (fl : Float64) : Type 0 where
  pub slots : List (Slot fl)
  pub pending_trades : List (FleetTrade fl)
  pub active_count : ℕ
  pub first_tick_ms : Option ℤ

module _ (fl : Float64) where
  abbrev pub prune_expectancy_threshold : fl.F
  prune_expectancy_threshold = fl.neg (fl.ratio 5 100)

  abbrev pub new_slot : (TraderConfig fl → ℕ) → TraderConfig fl → Slot fl
  new_slot config_id c = record {
    config_id = config_id c;
    trader = new_trader fl c;
    policy = new_policy fl;
    last_session_trades = 0;
    disabled = false;
  }

  -- `config_id` is `TraderConfig::config_id`, a hash.
  unfoldable pub new_fleet : (TraderConfig fl → ℕ) → List (TraderConfig fl) → ShadowFleet fl
  new_fleet config_id configs = record {
    slots = map (new_slot config_id) configs;
    pending_trades = [];
    active_count = length configs;
    first_tick_ms = none;
  }

  abbrev pub contains_any_config_ids : (ℕ → Bool) → List (Slot fl) → Bool
  contains_any_config_ids is_changed [] = false
  contains_any_config_ids is_changed (s ∷ ss) =
      if is_changed s.config_id then true else contains_any_config_ids is_changed ss

  -- Trades from the `start`-th on, each with its run id, if there is one at its place.
  abbrev pub tag : ℕ → String → List (ClosedTrade fl) → List (Option String) → List (FleetTrade fl)
  tag config_id symbol [] ids = []
  tag config_id symbol (t ∷ ts) [] =
      record { config_id = config_id; symbol = symbol; run_id = none; trade = t }
      ∷ tag config_id symbol ts []
  tag config_id symbol (t ∷ ts) (i ∷ ids) =
      record { config_id = config_id; symbol = symbol; run_id = i; trade = t }
      ∷ tag config_id symbol ts ids

  abbrev pub observe_all : List (ClosedTrade fl) → ConfigPolicyState fl → ConfigPolicyState fl
  observe_all [] p = p
  observe_all (t ∷ ts) p = observe_all ts (observe_trade fl t p)

  -- A slot after a tick, the trades that it hands on, and whether it is pruned by the tick.
  pub record Ticked : Type 0 where
    pub slot : Slot fl
    pub pushed : List (FleetTrade fl)
    pub pruned : Bool

  -- More than enough trades, and too little gained by each.
  abbrev pub has_bad_expectancy : ShadowTrader fl → Bool
  has_bad_expectancy trader =
      leb prune_min_trades trader.session_trades
      && lt_f64 fl (fl.div trader.session_total_pnl_pct (fl.of_nat trader.session_trades))
          prune_expectancy_threshold

  -- What the loop does after the trader of a slot has ticked.
  unfoldable pub collect : String → ℤ → Slot fl → Ticked
  collect symbol elapsed s =
      let session_n = s.trader.session_trades in
      let start = length s.trader.completed_trades - (session_n - s.last_session_trades) in
      let fresh = drop start s.trader.completed_trades in
      if ltb s.last_session_trades session_n
      then record {
        slot = record s {
          policy = observe_all fresh s.policy;
          last_session_trades = session_n;
          disabled = if has_bad_expectancy s.trader then true else s.disabled;
        };
        pushed = tag s.config_id symbol fresh (drop start s.trader.completed_trade_run_ids);
        pruned = has_bad_expectancy s.trader;
      }
      else if nat_beq session_n 0 && leb_ℤ prune_inactive_ms elapsed
      then record { slot = record s { disabled = true }; pushed = []; pruned = true }
      else record { slot = s; pushed = []; pruned = false }

  unfoldable pub tick_slot : String → ℤ → TickInput fl → Slot fl → Ticked
  tick_slot symbol elapsed i s =
      if s.disabled
      then record { slot = s; pushed = []; pruned = false }
      else collect symbol elapsed (record s { trader = tick_with_context fl i s.trader })

  -- The loop over the traders.
  unfoldable pub tick_slots :
      String → ℤ → TickInput fl → List (Slot fl) → ShadowFleet fl → ShadowFleet fl
  tick_slots symbol elapsed i [] f = f
  tick_slots symbol elapsed i (s ∷ ss) f =
      let r = tick_slot symbol elapsed i s in
      tick_slots symbol elapsed i ss (record f {
        slots = f.slots ++ r.slot ∷ [];
        pending_trades = f.pending_trades ++ r.pushed;
        active_count = if r.pruned then wrapping_dec f.active_count else f.active_count;
      })

  abbrev pub first_tick : Option ℤ → ℤ → ℤ
  first_tick none ts_ms = ts_ms
  first_tick (some first) ts_ms = first

  -- The loop puts the slots back one by one.
  unfoldable pub tick_all : String → TickInput fl → ShadowFleet fl → ShadowFleet fl
  tick_all symbol i f =
      let first = first_tick f.first_tick_ms i.ts_ms in
      tick_slots symbol (i.ts_ms -% first) i f.slots
        (record f { slots = []; first_tick_ms = some first })

  -- What is returned, and the fleet that is left.
  abbrev pub drain_trades : ShadowFleet fl → List (FleetTrade fl) × ShadowFleet fl
  drain_trades f = (f.pending_trades, record f { pending_trades = [] })
