-- ===== src/Tests.antt =====
-- The theorems at concrete inputs: one small company, with one station.
pub mod Data
pub mod Stock
pub mod Books
pub mod Sales
pub mod Purchases
pub mod Tasks
pub mod Exchanges
pub mod Gateway
