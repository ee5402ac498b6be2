-- ===== src/Portfolio/Engine/Result.antt =====
-- What `assign_without_overlap` of hft-lead-lag/src/domain/screener/portfolio_runtime.rs gives each
-- portfolio.
use hft_lead_lag.Prelude.{
  ◌+◌, ◌*◌, ◌≤◌, ◌<◌, ◌≡◌, refl, sym, ◌∙◌, subst, inl, inr, Bool-cases, Bool, true, false, ◌||◌,
  ◌&&◌, String, List, [], ◌∷◌, some, ℤ, arith, length, string_key, ◌==◌,
}
use hft_lead_lag.Prelude.Float.{Float64}
use hft_lead_lag.Prelude.Maps.{lookup, lookup-insert, contains, occurrences, occurrences_of_absent}
use hft_lead_lag.Portfolio.Types.{SymbolStats, PortfolioState, Engine}
use hft_lead_lag.Portfolio.Guard.{can_reenter}
use hft_lead_lag.Portfolio.Ranking.{
  place_by, sort_by, filter, rank_tuple_cmp, rank_candidates, build_shortlist_pool,
}
use hft_lead_lag.Portfolio.Shortlist.{Lists}
use hft_lead_lag.Portfolio.Shortlist.Counts.{occurrences-le-total}
use hft_lead_lag.Portfolio.Shortlist.Rounds.{AreDistinct}
use hft_lead_lag.Portfolio.Shortlist.Overlap.{
  shortlists_of_best, capacity, occurrences_of_member, occurrences-take-le,
}
use hft_lead_lag.Portfolio.Active.Invariant.{or_empty}
use hft_lead_lag.Portfolio.Active.Result.{active_symbols-IsFilled}
use hft_lead_lag.Portfolio.Engine.{list_or_default, states_of, pool_symbols, assign_without_overlap}

module _ (fl : Float64) where
  -- A candidate with this symbol may be entered now.
  unfoldable pub may_enter : Engine → List (SymbolStats fl) → ℤ → String → Bool
  may_enter e [] now_ms a = false
  may_enter e (s ∷ ss) now_ms a =
      (s.symbol == a && can_reenter fl e s.symbol s now_ms) || may_enter e ss now_ms a

  may_enter-place_by :
      (e : Engine) (s : SymbolStats fl) (ss : List (SymbolStats fl)) (now_ms : ℤ) (a : String)
      → may_enter e (place_by (rank_tuple_cmp fl) s ss) now_ms a ≡ may_enter e (s ∷ ss) now_ms a
  unfolding may_enter place_by
  may_enter-place_by e s [] now_ms a = refl
  may_enter-place_by e s (r ∷ ss) now_ms a = ground (arith, may_enter-place_by e s ss now_ms a)

  may_enter-rank_candidates :
      (e : Engine) (ss : List (SymbolStats fl)) (now_ms : ℤ) (a : String)
      → may_enter e (sort_by (rank_tuple_cmp fl) ss) now_ms a ≡ may_enter e ss now_ms a
  unfolding may_enter sort_by
  may_enter-rank_candidates e [] now_ms a = refl
  may_enter-rank_candidates e (s ∷ ss) now_ms a = ground (
    arith,
    may_enter-place_by e s (sort_by (rank_tuple_cmp fl) ss) now_ms a,
    may_enter-rank_candidates e ss now_ms a,
  )

  may_enter-filter :
      (e : Engine) (ss : List (SymbolStats fl)) (now_ms : ℤ) (a : String)
      → contains a (pool_symbols (filter (λ s. can_reenter fl e s.symbol s now_ms) ss)) ≡ true
      → may_enter e ss now_ms a ≡ true
  unfolding may_enter filter contains pool_symbols
  may_enter-filter e [] now_ms a h = h
  may_enter-filter e (s ∷ ss) now_ms a h = ground (arith, may_enter-filter e ss now_ms a)

  lookup-states_of :
      (ids : List String) (shortlists active : Lists) (id : String) (l k : List String)
      → contains id ids ≡ true
      → lookup id shortlists ≡ some l
      → lookup id active ≡ some k
      → lookup id (states_of ids shortlists active)
        ≡ some (record { shortlist = l; active_symbols = k })
  unfolding contains lookup states_of
  lookup-states_of [] shortlists active id l k h f g = absurd (ground arith)
  lookup-states_of (j ∷ ids) shortlists active id l k h f g =
      let state : PortfolioState = record {
        shortlist = list_or_default (lookup j shortlists);
        active_symbols = list_or_default (lookup j active);
      } in
      let found = lookup-insert j id state (states_of ids shortlists active) in
      elim (Bool-cases (j == id)) [
        | inl e ↦
            let same : j ≡ id = (string_key.same_iff j id).0 e in
            let here : state ≡ record { shortlist = l; active_symbols = k } =
              ground (arith, same, f, g) in
            ground (arith, found, e, here)
        | inr e ↦
            let rest = lookup-states_of ids shortlists active id l k in
            ground (arith, found, e, rest)
      ]

  -- What a portfolio is given.
  pub record IsAssigned (e : Engine) (candidates : List (SymbolStats fl)) (now_ms : ℤ)
      (states : List (String × PortfolioState)) (id : String) : Type 0 where
    pub state : PortfolioState
    pub found : lookup id states ≡ some state
    pub at_most_five : length state.shortlist ≤ 5
    pub at_most_four : length state.active_symbols ≤ 4
    pub active_on_shortlist :
        (a : String) → contains a state.active_symbols ≡ true → contains a state.shortlist ≡ true
    pub may_be_entered :
        (a : String) → contains a state.shortlist ≡ true → may_enter e candidates now_ms a ≡ true

  member_of_occurrences :
      (a : String) (xs : List String) → 0 < occurrences a xs → contains a xs ≡ true
  member_of_occurrences a xs h = elim (Bool-cases (contains a xs)) [
    | inl e ↦ e
    | inr e ↦ absurd (omega (arith, occurrences_of_absent a xs e))
  ]

  pooled_may_enter :
      (e : Engine) (candidates : List (SymbolStats fl)) (now_ms : ℤ) (a : String)
      → contains a (pool_symbols (build_shortlist_pool fl e candidates now_ms)) ≡ true
      → may_enter e candidates now_ms a ≡ true
  unfolding build_shortlist_pool
  pooled_may_enter e candidates now_ms a h =
      sym (may_enter-rank_candidates e candidates now_ms a)
      ∙ may_enter-filter e (rank_candidates fl candidates) now_ms a h

  -- For an engine with distinct portfolio ids assign_without_overlap ends without a panic and
  -- gives each id a state: at most five shortlisted symbols, each of a candidate that may be
  -- entered now, and at most four active symbols, all from the shortlist.
  pub assign_without_overlap-IsAssigned :
      (e : Engine) (candidates : List (SymbolStats fl)) (now_ms : ℤ) (id : String)
      → AreDistinct e.portfolio_ids
      → contains id e.portfolio_ids ≡ true
      → (states : List (String × PortfolioState)) × (assign_without_overlap fl e candidates now_ms
          ≡ some states)
        × IsAssigned e candidates now_ms states id
  unfolding assign_without_overlap
  assign_without_overlap-IsAssigned e candidates now_ms id d h =
      let pool = build_shortlist_pool fl e candidates now_ms in
      let symbols = pool_symbols pool in
      let ids = e.portfolio_ids in
      let (shortlists, built, lists, totals) = shortlists_of_best ids symbols d in
      let (active, filled, each, once) =
        active_symbols-IsFilled (length ids * 4 + 1) ids shortlists (omega arith) in
      let (l, l_found, l_short) = lists id h in
      let f = each id h in
      (
        states_of ids shortlists active,
        rw (built, filled) refl,
        record {
          state = record { shortlist = l; active_symbols = f.active };
          found = lookup-states_of ids shortlists active id l f.active h l_found f.found;
          at_most_five = l_short;
          at_most_four = f.at_most_four;
          active_on_shortlist =
              λ a i. subst (λ o. contains a (or_empty o) ≡ true) l_found (f.listed a i);
          may_be_entered = λ a i. pooled_may_enter e candidates now_ms a (
              member_of_occurrences a symbols (
                omega (
                  arith,
                  occurrences_of_member a l i,
                  occurrences-le-total a id l shortlists l_found,
                  totals a,
                  occurrences-take-le a (capacity ids symbols) symbols,
                )));
        },
      )
