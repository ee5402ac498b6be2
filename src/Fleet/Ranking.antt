-- ===== src/Fleet/Ranking.antt =====
-- The policy views of a fleet: hft-lead-lag/src/domain/screener/shadow_fleet.rs. The clock is read once.
use Prim.Native.Nat.{Ordering}
use hft_lead_lag.Prelude.{ℕ, List, [], ◌∷◌, ℤ, take, if◌then◌else◌}
use hft_lead_lag.Prelude.Float.{Float64, cmp_or_equal}
use hft_lead_lag.Portfolio.Ranking.{sort_by}
use hft_lead_lag.Fleet.Policy.{PolicyConfigSnapshot, snapshot}
use hft_lead_lag.Fleet.Traders.{Slot}

module _ (fl : Float64) where
  abbrev pub policy_snapshots : ℤ → List (Slot fl) → List (PolicyConfigSnapshot fl)
  policy_snapshots now_ms [] = []
  policy_snapshots now_ms (s ∷ ss) =
      snapshot fl now_ms s.config_id s.policy ∷ policy_snapshots now_ms ss

  -- The snapshots of the traders that are not pruned and whose gate is enabled.
  unfoldable pub enabled_snapshots : ℤ → List (Slot fl) → List (PolicyConfigSnapshot fl)
  enabled_snapshots now_ms [] = []
  enabled_snapshots now_ms (s ∷ ss) =
      let rest = enabled_snapshots now_ms ss in
      let row = snapshot fl now_ms s.config_id s.policy in
      if s.disabled then rest else if row.gate_enabled then row ∷ rest else rest

  abbrev pub by_score_descending : PolicyConfigSnapshot fl → PolicyConfigSnapshot fl → Ordering
  by_score_descending a b = cmp_or_equal fl b.score a.score

  unfoldable pub top_policy_configs : ℤ → ℕ → List (Slot fl) → List (PolicyConfigSnapshot fl)
  top_policy_configs now_ms k slots =
      take k (sort_by by_score_descending (enabled_snapshots now_ms slots))
