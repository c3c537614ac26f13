-- ===== src/Swaps.antt =====
-- The exchanges, which quote a swap of the seized collateral: src/adapters.
pub mod Path
pub mod Bucket
pub mod Batch
pub mod Uniswap
pub mod Paraswap
