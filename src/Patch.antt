-- ===== src/Patch.antt =====
-- Patches of the fleets: hft-lead-lag/src/domain/screener/fleet_patch.rs and fleet_reload.rs beside it.
pub mod Plan
pub mod Validate
pub mod Apply
pub mod Named
pub mod Mode
pub mod Outcome
pub mod Whole
