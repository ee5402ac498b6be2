-- ===== src/Examples.antt =====
-- Runs of the modelled code on small inputs, and the theorems at inputs that meet their conditions.
pub mod Pending
pub mod Floats
pub mod Guards
pub mod Assignment
pub mod Latencies
pub mod Orders
pub mod Portfolios
pub mod Ids
pub mod Books
pub mod Traders
pub mod Times
pub mod Fleets
pub mod Signals
pub mod Patches
