-- ===== src/Portfolio/Active.antt =====
-- The active symbols of the portfolios: `assign_active_symbols_no_overlap` of
-- hft-lead-lag/src/domain/screener/portfolio_runtime.rs. The `loop` takes fuel.
pub mod Totals
pub mod Invariant
pub mod Rounds
pub mod Result
use hft_lead_lag.Prelude.{
  ℕ, zero, suc, ◌+◌, ◌*◌, Bool, true, false, String, List, [], ◌∷◌, ◌++◌, Option, none, some, leb,
  string_key, length, if◌then◌else◌,
}
use hft_lead_lag.Prelude.Maps.{lookup, insert, contains}
use hft_lead_lag.Portfolio.Types.{max_active_symbols}
use hft_lead_lag.Portfolio.Shortlist.{Lists, no_lists, ◌>>=◌}

-- `shortlist.iter().find(|symbol| !used_symbols.contains(*symbol))`
unfoldable pub find_unused : List String → List String → Option String
find_unused used [] = none
find_unused used (s ∷ ss) = if contains s used then find_unused used ss else some s

pub record Assigning : Type 0 where
  pub used_symbols : List String
  pub active_by_id : Lists
  pub progressed : Bool

-- A symbol that is not yet used becomes active.
abbrev pub activate : Assigning → String → List String → String → Assigning
activate st id active_symbols symbol = record {
  used_symbols = symbol ∷ st.used_symbols;
  active_by_id = insert id (active_symbols ++ symbol ∷ []) st.active_by_id;
  progressed = true;
}

-- What the body of the `for` loop makes of one portfolio. `none` is the panic of `expect`.
unfoldable pub assign_one : Lists → String → Assigning → Option Assigning
assign_one shortlists id st = do
  active_symbols ← lookup id st.active_by_id
  some (
      if leb max_active_symbols (length active_symbols) then st else elim (lookup id shortlists) [
        | none ↦ st
        | some shortlist ↦ elim (find_unused st.used_symbols shortlist) [
          | none ↦ st
          | some symbol ↦ activate st id active_symbols symbol
        ]
      ])

unfoldable pub assign_round : Lists → List String → Assigning → Option Assigning
assign_round shortlists [] st = some st
assign_round shortlists (id ∷ ids) st = assign_one shortlists id st >>= assign_round shortlists ids

-- `loop`; the fuel is the number of rounds. `none` also stands for fuel that ran out.
unfoldable pub assign_rounds : ℕ → Lists → List String → Assigning → Option Assigning
assign_rounds zero shortlists ids st = none
assign_rounds (suc f) shortlists ids st = do
  st' ← assign_round shortlists ids (record st { progressed = false })
  let rest = assign_rounds f shortlists ids st'
  if st'.progressed then rest else some st'

unfoldable pub assign_active_symbols_no_overlap : ℕ → List String → Lists → Option Lists
assign_active_symbols_no_overlap fuel ids shortlists = do
  let start : Assigning = record {
    used_symbols = [];
    active_by_id = no_lists ids;
    progressed = false;
  }
  st ← assign_rounds fuel shortlists ids start
  some st.active_by_id
