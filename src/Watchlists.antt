-- ===== src/Watchlists.antt =====
-- The watchlists: src/watchlists.
pub mod Cache
pub mod Sled
pub mod Tracked
pub mod Aave
pub mod Morpho
