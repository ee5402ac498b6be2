-- ===== src/Shadow.antt =====
-- The paper trader of a symbol: hft-lead-lag/src/domain/screener/shadow_trader.rs and
-- trader_config.rs beside it.
pub mod Config
pub mod Types
pub mod Orders
pub mod Gap
pub mod Tick
pub mod Life
pub mod Books
pub mod Deadlines
pub mod Quiet
pub mod Views
pub mod Chart
pub mod Symbol
