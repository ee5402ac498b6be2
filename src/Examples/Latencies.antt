-- ===== src/Examples/Latencies.antt =====
-- Snapshots of concrete latency samples.
use hft_lead_lag.Prelude.{◌≡◌, refl, [], ◌∷◌}
use hft_lead_lag.Latency.{place, sort, snapshot_of, latency_snapshot_and_reset}
use hft_lead_lag.Latency.Sorted.{Describes, snapshot-Describes}

snapshot-Describes_example :
    Describes (7 ∷ 3 ∷ 9 ∷ []) (latency_snapshot_and_reset (7 ∷ 3 ∷ 9 ∷ []))
snapshot-Describes_example = snapshot-Describes 7 (3 ∷ 9 ∷ [])

median_of_three : (latency_snapshot_and_reset (7 ∷ 3 ∷ 9 ∷ [])).0.p50_us ≡ 7
unfolding latency_snapshot_and_reset snapshot_of sort place
median_of_three = refl
