-- ===== src/Examples/Ids.antt =====
-- The symbol ids and clock offsets of the program on concrete inputs.
use hft_lead_lag.Prelude.{◌≡◌, List, [], ◌∷◌, pos, arith, String}
use hft_lead_lag.SymbolIds.{build_strategy_symbol_id_pairs}
use hft_lead_lag.SymbolIds.Numbering.{first_seen, ids_of, build_strategy_symbol_id_pairs_lem}
use hft_lead_lag.ClockOffset.{default_estimator, ExchangeClockOffsets, correct}
use hft_lead_lag.ClockOffset.Bounds.{IsValid, correct-IsValid}

abbrev symbols : List String
symbols = "BTCUSDT" ∷ "ETHUSDT" ∷ "BTCUSDT" ∷ "SOLUSDT" ∷ []

build_strategy_symbol_id_pairs_lem_example :
    build_strategy_symbol_id_pairs symbols ≡ ids_of [] 0 (first_seen [] symbols)
build_strategy_symbol_id_pairs_lem_example = build_strategy_symbol_id_pairs_lem symbols

abbrev offsets : ExchangeClockOffsets
offsets = record { binance = default_estimator; gate = default_estimator }

correct-IsValid_example :
    IsValid (correct offsets "gate" (pos 1_000) (pos 1_250)).1.binance
    × IsValid (correct offsets "gate" (pos 1_000) (pos 1_250)).1.gate
correct-IsValid_example =
    let v : IsValid default_estimator = record {
      window = omega arith;
      small_samples = tt;
      small_offset = omega arith;
      recomputed = omega arith;
    } in
    correct-IsValid offsets "gate" (pos 1_000) (pos 1_250) v v
