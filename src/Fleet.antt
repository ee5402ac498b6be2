-- ===== src/Fleet.antt =====
-- The fleet of paper traders of a symbol: hft-lead-lag/src/domain/screener/shadow_fleet.rs.
pub mod Policy
pub mod Grid
pub mod Traders
pub mod Drain
pub mod Ledger
pub mod Run
pub mod Ranking
pub mod Drained
