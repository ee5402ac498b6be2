-- ===== src/Portfolio/Shortlist.antt =====
-- The shortlists of the portfolios: `build_shortlists_no_overlap` of
-- hft-lead-lag/src/domain/screener/portfolio_runtime.rs. `none` stands for a panic: a portfolio id
-- that the map lacks (`expect`), or an index past the end of the pool.
pub mod Counts
pub mod Deal
pub mod Rounds
pub mod Total
pub mod Overlap
use hft_lead_lag.Prelude.{
  ℕ, zero, suc, ◌+◌, Bool, true, false, String, List, [], ◌∷◌, ◌++◌, Option, none, some, leb,
  nat_beq, string_key, length, get_elem?, if◌then◌else◌, map,
}
use hft_lead_lag.Prelude.Maps.{lookup, insert}
use hft_lead_lag.Portfolio.Types.{shortlist_size}

infixl 5 ◌>>=◌
abbrev pub ◌>>=◌ {ℓ κ} : {A : Type ℓ} {B : Type κ} → Option A → (A → Option B) → Option B
none >>= f = none
some a >>= f = f a

abbrev pub Lists : Type 0
Lists = List (String × List String)

-- `.iter().map(|id| (id.clone(), Vec::new())).collect()`
unfoldable pub no_lists : List String → Lists
no_lists [] = []
no_lists (id ∷ ids) = insert id [] (no_lists ids)

-- The variables of the loops; `pool` is the symbol of each entry of `ranked_pool`.
pub record Dealing : Type 0 where
  pub shortlist_by_id : Lists
  pub cursor : ℕ
  pub progressed : Bool

-- The body for one portfolio that takes the next symbol.
abbrev pub deal_one : Dealing → String → List String → String → Dealing
deal_one st id shortlist symbol = record {
  shortlist_by_id = insert id (shortlist ++ symbol ∷ []) st.shortlist_by_id;
  cursor = st.cursor + 1;
  progressed = true;
}

-- `for portfolio_id in &self.portfolio_ids`, with its `continue` and its `break`.
unfoldable pub deal_round : List String → List String → Dealing → Option Dealing
deal_round pool [] st = some st
deal_round pool (id ∷ ids) st = do
  shortlist ← lookup id st.shortlist_by_id
  let skip = deal_round pool ids st
  let deal =
      get_elem? pool st.cursor >>= λ symbol. deal_round pool ids (deal_one st id shortlist symbol)
  if leb shortlist_size (length shortlist)
      then skip
      else if leb (length pool) st.cursor
      then some st
      else deal

-- `for _round in 0..n`, until a round deals nothing.
unfoldable pub deal_rounds : ℕ → List String → List String → Dealing → Option Dealing
deal_rounds zero pool ids st = some st
deal_rounds (suc n) pool ids st = do
  st' ← deal_round pool ids (record st { progressed = false })
  let rest = deal_rounds n pool ids st'
  if st'.progressed then rest else some st'

unfoldable pub build_shortlists_no_overlap : List String → List String → Option Lists
build_shortlists_no_overlap ids pool =
    let start : Dealing = record {
      shortlist_by_id = no_lists ids;
      cursor = 0;
      progressed = false;
    } in
    if nat_beq (length pool) 0
    then some (no_lists ids)
    else (deal_rounds shortlist_size pool ids start >>= λ st. some st.shortlist_by_id)
