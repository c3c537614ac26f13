-- ===== src/Services.antt =====
-- The services: src/core/services, src/watchlist_pruner.rs.
pub mod Pipeline
pub mod Scanner
pub mod Pruner
pub mod Distributor
pub mod Broadcast
pub mod Workers
pub mod Dispatch
pub mod Watcher
pub mod Tasks
