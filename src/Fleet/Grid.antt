-- ===== src/Fleet/Grid.antt =====
-- The grid of configurations of hft-lead-lag/src/domain/screener/shadow_fleet.rs.
use hft_lead_lag.Prelude.{ℕ, List, [], ◌∷◌, ◌++◌, ℤ, pos}
use hft_lead_lag.Prelude.Float.{Float64}
use hft_lead_lag.Shadow.Config.{TraderConfig, default_trader_config}

-- A `for` loop that pushes what its body pushes.
abbrev pub push_for {ℓ κ} : {A : Type ℓ} {B : Type κ} → List A → (A → List B) → List B
push_for [] body = []
push_for (x ∷ xs) body = body x ++ push_for xs body

module _ (fl : Float64) where
  abbrev tenths : ℕ → fl.F
  tenths n = fl.ratio n 10

  abbrev pub gap_thresholds : List fl.F
  gap_thresholds = fl.ratio 30 1 ∷ fl.ratio 50 1 ∷ fl.ratio 60 1 ∷ fl.ratio 80 1 ∷ []

  abbrev pub target_ratios : List fl.F
  target_ratios = tenths 3 ∷ tenths 5 ∷ tenths 7 ∷ []

  abbrev pub stop_losses : List fl.F
  stop_losses = fl.ratio 8 1 ∷ fl.ratio 15 1 ∷ fl.ratio 25 1 ∷ fl.ratio 40 1 ∷ []

  abbrev pub max_holds : List ℤ
  max_holds = pos 5_000 ∷ pos 10_000 ∷ pos 30_000 ∷ []

  abbrev pub max_spreads : List fl.F
  max_spreads = fl.ratio 3 1 ∷ fl.ratio 5 1 ∷ []

  abbrev pub trailing_takes : List fl.F
  trailing_takes = tenths 3 ∷ tenths 7 ∷ []

  abbrev pub baseline_windows : List ℤ
  baseline_windows = pos 10_000 ∷ pos 20_000 ∷ pos 30_000 ∷ pos 60_000 ∷ []

  unfoldable pub generate_grid : List (TraderConfig fl)
  generate_grid = push_for gap_thresholds (λ gap. push_for target_ratios (λ target.
      push_for stop_losses (λ stop. push_for max_holds (λ hold. push_for max_spreads (λ spread.
        push_for trailing_takes (λ trailing. push_for baseline_windows (λ bw.
          record (default_trader_config fl) {
            spike_threshold_bps = gap;
            target_ratio = target;
            stop_loss_bps = stop;
            max_hold_ms = hold;
            max_spread_bps = spread;
            trailing_decay_ratio = trailing;
            baseline_window_ms = bw;
          }
          ∷ [])))))))
