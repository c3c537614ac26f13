-- ===== src/Math.antt =====
-- The arithmetic of both protocols: src/adapters/helpers.
pub mod Morpho
pub mod Aave
