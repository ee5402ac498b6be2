-- ===== src/LeadLag/Threshold.antt =====
-- The least spread of a signal of hft-lead-lag/src/application/strategies/mod.rs.
use Prim.Native.Nat.{Ordering}
use hft_lead_lag.Prelude.{
  ℕ, ◌≡◌, sym, ap, ◌∙◌, subst, true, false, String, List, Option, none, some, ℤ, inr, arith,
  Option-cases, inl, ◌⊎◌, Bool-cases,
}
use hft_lead_lag.Prelude.Float.{Float64, IsPartialOrder, lt_f64, le_f64, ge_f64, gt_f64}
use hft_lead_lag.LeadLag.Types.{LeadLagSignal}
use hft_lead_lag.LeadLag.Strategy.{new_strategy, check_signal}
use hft_lead_lag.LeadLag.Latest.{BookUpdate, update_all}
use hft_lead_lag.LeadLag.Signal.{check_signal-Iff}
use hft_lead_lag.LeadLag.Runtime.{
  StrategyKind, LeadLagConfig, StrategySignal, LeadLagRuntimeStrategy, get_symbol,
  resolve_lead_lag_config, build_runtime_strategy, check_runtime, min_trigger_spread_bps,
  max_trigger_spread_bps, clamp_f64, lead_lag_classic, dislocation_reversion, new_runtime,
}
use hft_lead_lag.LeadLag.Feed.{feed, feed_inner, feed_symbols, resolved_symbols, check_runtime-some}

module _ (fl : Float64) (order : IsPartialOrder fl) where
  le_f64_cases :
      (a b : fl.F)
      → le_f64 fl a b ≡ true
      → (fl.partial_cmp a b ≡ some Ordering.lt) ⊎ (fl.partial_cmp a b ≡ some Ordering.eq)
  le_f64_cases a b h = ground arith

  lt_eq_trans :
      (a b c : fl.F)
      → fl.partial_cmp a b ≡ some Ordering.lt
      → fl.partial_cmp b c ≡ some Ordering.eq
      → fl.partial_cmp a c ≡ some Ordering.lt
  lt_eq_trans a b c h k =
      order.mirrors c a Ordering.gt
        (order.eq_left c b a (order.mirrors b c Ordering.eq k) ∙ order.mirrors a b Ordering.lt h)

  le_f64_trans : (a b c : fl.F) → le_f64 fl a b ≡ true → le_f64 fl b c ≡ true → le_f64 fl a c ≡ true
  le_f64_trans a b c h k = elim (le_f64_cases a b h) [
    | inr e ↦ ground (arith, order.eq_left a b c e, k)
    | inl l ↦ elim (le_f64_cases b c k) [
      | inl l' ↦ ground (arith, order.lt_trans a b c l l')
      | inr e ↦ ground (arith, lt_eq_trans a b c l e)
    ]
  ]

  -- `partial_cmp` fails on NaN, as Rust documents.
  module _ (nan_fails : (a b : fl.F) → fl.is_nan a ≡ true → fl.partial_cmp a b ≡ none) where
    compared : (a b : fl.F) → le_f64 fl a b ≡ true → fl.is_nan a ≡ false
    compared a b h = elim (Bool-cases (fl.is_nan a)) [
      | inl n ↦ absurd (ground (arith, nan_fails a b n, h))
      | inr n ↦ n
    ]

    not_below :
        (a b : fl.F)
        → fl.is_nan a ≡ false
        → fl.is_nan b ≡ false
        → lt_f64 fl a b ≡ false
        → le_f64 fl b a ≡ true
    not_below a b p q h = elim (Option-cases (fl.partial_cmp a b)) [
      | inl e ↦ absurd (ground (arith, order.fails a b e, p, q))
      | inr (o, e) ↦ ground (arith, order.mirrors a b o e, h, e)
    ]

    -- What is compared to be at least the clamped threshold is at least the lower limit.
    above_clamp :
        (low high x spread : fl.F)
        → le_f64 fl low high ≡ true
        → le_f64 fl (clamp_f64 fl low high x) spread ≡ true
        → le_f64 fl low spread ≡ true
    above_clamp low high x spread h k = elim (Bool-cases (lt_f64 fl x low)) [
      | inl small ↦ ground (arith, small, k)
      | inr p ↦ elim (Bool-cases (gt_f64 fl x high)) [
        | inl large ↦ le_f64_trans low high spread h (ground (arith, p, large, k))
        | inr q ↦
            let kept : le_f64 fl x spread ≡ true = ground (arith, p, q, k) in
            le_f64_trans low x spread
              (not_below x low (compared x spread kept) (compared low high h) p) kept
      ]
    ]

    -- The settings keep the threshold at 25 basis points or more, if `partial_cmp` orders the literals.
    module _ (below_default : le_f64 fl (fl.ratio 25 1) (fl.ratio 30 1) ≡ true)
        (below_max : le_f64 fl (fl.ratio 25 1) (fl.ratio 100 1) ≡ true) where
      resolved_above :
          (file : Option (LeadLagConfig fl)) (symbols : List String) (spread : fl.F)
          → le_f64 fl (resolve_lead_lag_config fl file symbols).min_entry_spread_bps spread ≡ true
          → le_f64 fl (min_trigger_spread_bps fl) spread ≡ true
      unfolding resolve_lead_lag_config
      resolved_above none symbols spread h =
          le_f64_trans (fl.ratio 25 1) (fl.ratio 30 1) spread below_default h
      resolved_above (some file) symbols spread h =
          above_clamp (min_trigger_spread_bps fl) (max_trigger_spread_bps fl)
            file.trigger_spread_bps spread below_max h

      signal_above :
          (file : Option (LeadLagConfig fl)) (symbols : List String) (us : List BookUpdate)
          (symbol : String) (now_ns : ℤ) (signal : LeadLagSignal fl)
          → check_signal fl
              (update_all fl us (new_strategy fl (resolve_lead_lag_config fl file symbols)))
              symbol
              now_ns
            ≡ some signal
          → (ge_f64 fl signal.spread_bps (min_trigger_spread_bps fl) ≡ true)
            × (signal.symbol ≡ symbol)
      signal_above file symbols us symbol now_ns signal h =
          let cfg = resolve_lead_lag_config fl file symbols in
          let (p, q, found, found', is_signal, tradable) =
            (check_signal-Iff fl cfg us symbol now_ns signal).0 h in
          (resolved_above file symbols signal.spread_bps tradable.wide, is_signal.same_symbol)

      -- Whatever the settings file says, also a threshold that is NaN or infinite, each signal of
      -- a strategy that was built, after any run of quotes, has a spread of at least 25 basis
      -- points and is for the symbol with the given id. partial_cmp is as documented, fails on
      -- NaN, and puts 25 below 30 and 100.
      pub runtime_signal_above :
          (context : LeadLagSignal fl → String) (kind : StrategyKind)
          (file : Option (LeadLagConfig fl)) (symbols : List String) (r : LeadLagRuntimeStrategy fl)
          (us : List BookUpdate) (symbol_id : ℕ) (now_ns : ℤ) (signal : StrategySignal fl)
          → build_runtime_strategy fl kind file symbols ≡ inr r
          → check_runtime fl context (feed fl us r) symbol_id now_ns ≡ some signal
          → (ge_f64 fl signal.spread_bps (min_trigger_spread_bps fl) ≡ true)
            × (get_symbol symbols symbol_id ≡ some signal.symbol)
      unfolding build_runtime_strategy check_runtime
      runtime_signal_above context dislocation_reversion file symbols r us symbol_id now_ns signal h
            k =
          absurd (ground (arith, h))
      runtime_signal_above context lead_lag_classic file symbols r us symbol_id now_ns signal h k =
          let cfg = resolve_lead_lag_config fl file symbols in
          let built : new_runtime fl cfg ≡ r =
            ap (λ x. elim x [ inl e ↦ new_runtime fl cfg | inr y ↦ y ]) h in
          let (symbol, found, at, checked, spread, name) =
            check_runtime-some fl context (feed fl us r) symbol_id now_ns signal k in
          let inner : (feed fl us r).inner ≡ update_all fl us (new_strategy fl cfg) =
            feed_inner fl us r ∙ ap (λ q. update_all fl us q.inner) (sym built) in
          let signals : check_signal fl (update_all fl us (new_strategy fl cfg)) symbol now_ns
              ≡ some found =
            subst (λ q. check_signal fl q symbol now_ns ≡ some found) inner checked in
          let same_name : symbol ≡ signal.symbol =
            sym (name ∙ (signal_above file symbols us symbol now_ns found signals).1) in
          let names : symbols ≡ (feed fl us r).symbols =
            sym (resolved_symbols fl file symbols)
            ∙ (ap (λ q. q.symbols) built ∙ sym (feed_symbols fl us r)) in
          (
            subst (λ x. le_f64 fl (fl.ratio 25 1) x ≡ true) (sym spread)
                (signal_above file symbols us symbol now_ns found signals).0,
            ap (λ names. get_symbol names symbol_id) names ∙ (at ∙ ap some same_name),
          )
