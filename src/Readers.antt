-- ===== src/Readers.antt =====
-- The protocol readers, which find positions to liquidate: src/adapters.
pub mod Outcome
pub mod Morpho
pub mod Aave
