-- ===== src/Portfolio.antt =====
-- The portfolio engine: hft-lead-lag/src/domain/screener/portfolio_runtime.rs. Its parts are one
-- module each: the stop-loss guards, the paper account, the ranking of candidates, the portfolio
-- ids, and the two assignments.
pub mod Types
pub mod Guard
pub mod Ranking
pub mod Shortlist
pub mod Active
pub mod Ids
pub mod Engine
pub mod Paper
