-- ===== src/SymbolIds.antt =====
-- The ids of the strategy's symbols: hft-lead-lag/src/domain/strategy_symbol_ids.rs. A `SymbolId` is a
-- `u16`; symbols are compared as the strings that their bytes are.
pub mod Numbering
use hft_lead_lag.Prelude.{
  ℕ, ◌+◌, String, List, [], ◌∷◌, ◌++◌, ◌⊎◌, inl, inr, is_some, ltb, string_key, sat_inc, u64_max,
  if◌then◌else◌,
}
use hft_lead_lag.Prelude.Maps.{lookup, insert}

abbrev pub max_strategy_symbols : ℕ
max_strategy_symbols = 65_536

pub record StrategySymbolIdCapacityError : Type 0 where
  pub unique_symbols : ℕ
  pub max_symbols : ℕ

abbrev pub Pairs : Type 0
Pairs = List (String × ℕ)

abbrev pub capacity_error : ℕ → StrategySymbolIdCapacityError
capacity_error next_symbol_id = record {
  unique_symbols = sat_inc u64_max next_symbol_id;
  max_symbols = max_strategy_symbols;
}

-- The loop, with its variables `pairs`, `seen` and `next_symbol_id`.
unfoldable pub collect_pairs :
    Pairs → Pairs → ℕ → List String → StrategySymbolIdCapacityError ⊎ Pairs
collect_pairs pairs seen next_symbol_id [] = inr pairs
collect_pairs pairs seen next_symbol_id (symbol ∷ symbols) =
    let skip = collect_pairs pairs seen next_symbol_id symbols in
    let push =
      collect_pairs (pairs ++ (symbol, next_symbol_id) ∷ []) (insert symbol next_symbol_id seen)
        (sat_inc u64_max next_symbol_id) symbols in
    if is_some (lookup symbol seen)
    then skip
    else if ltb next_symbol_id max_strategy_symbols
    then push
    else inl (capacity_error next_symbol_id)

unfoldable pub build_strategy_symbol_id_pairs : List String → StrategySymbolIdCapacityError ⊎ Pairs
build_strategy_symbol_id_pairs strategy_symbols = collect_pairs [] [] 0 strategy_symbols

-- The map of the pairs, inserted in order.
unfoldable pub insert_all : Pairs → Pairs → Pairs
insert_all m [] = m
insert_all m ((symbol, symbol_id) ∷ pairs) = insert_all (insert symbol symbol_id m) pairs

unfoldable pub build_strategy_symbol_id_map : List String → StrategySymbolIdCapacityError ⊎ Pairs
build_strategy_symbol_id_map strategy_symbols =
    elim (build_strategy_symbol_id_pairs strategy_symbols) [
      | inl e ↦ inl e
      | inr pairs ↦ inr (insert_all [] pairs)
    ]
