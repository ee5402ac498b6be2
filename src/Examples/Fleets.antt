-- ===== src/Examples/Fleets.antt =====
-- A fleet of hft-lead-lag/src/domain/screener/shadow_fleet.rs with one trader that closes a trade.
use hft_lead_lag.Prelude.{
  ◌-%◌, wrap_i64, ◌≡◌, refl, ◌+◌, false, List, [], ◌∷◌, none, pos, arith, length, ◌+ℤ◌, ◌-ℤ◌,
}
use hft_lead_lag.Examples.Floats.{cents}
use hft_lead_lag.Examples.Traders.{leaver, tick_at}
use hft_lead_lag.Fleet.Policy.{new_policy}
use hft_lead_lag.Fleet.Traders.{ShadowFleet, Slot}
use hft_lead_lag.Fleet.Run.{
  IsFleet, FleetEvent, tick, drain, run_fleet, run_fleet-IsFleet, session_total, enabled_count,
}

abbrev one_slot : List (Slot cents)
one_slot =
    record {
      config_id = 7;
      trader = leaver;
      policy = new_policy cents;
      last_session_trades = 0;
      disabled = false;
    }
    ∷ []

abbrev pub fleet : ShadowFleet cents
fleet = record { slots = one_slot; pending_trades = []; active_count = 1; first_tick_ms = none }

abbrev events : List (FleetEvent cents)
events = tick (tick_at (pos 110_010)) ∷ drain ∷ tick (tick_at (pos 110_020)) ∷ []

run_fleet-IsFleet_example :
    IsFleet cents 2 (run_fleet cents "BTC" events fleet).1
    × (length (run_fleet cents "BTC" events fleet).0
          + length (run_fleet cents "BTC" events fleet).1.pending_trades
          + session_total cents one_slot
        ≡ 0 + session_total cents (run_fleet cents "BTC" events fleet).1.slots)
unfolding enabled_count ◌-ℤ◌ ◌+ℤ◌ ◌-%◌ wrap_i64
run_fleet-IsFleet_example =
    run_fleet-IsFleet cents "BTC" events 0 fleet
      (record {
        slots_sound = (
          (
            record {
              counted = refl;
              balanced = record { paired = refl; kept = omega arith; won = omega arith };
            },
            omega arith,
          ),
          tt,
        );
        active = refl;
        in_range = omega arith;
      })
      (omega arith) (refl, (tt, (refl, tt)))
