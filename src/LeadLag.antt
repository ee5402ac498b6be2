-- ===== src/LeadLag.antt =====
-- The lead-lag strategy: hft-lead-lag/src/application/services/lead_lag.rs, and its use by the signal
-- loop in hft-lead-lag/src/application/strategies/mod.rs.
pub mod Types
pub mod Offset
pub mod Strategy
pub mod Runtime
pub mod Latest
pub mod Clocks
pub mod Checks
pub mod Signal
pub mod Feed
pub mod Threshold
