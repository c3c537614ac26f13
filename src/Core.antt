-- ===== src/Core.antt =====
-- The types that the services and adapters exchange: src/core/types.rs.
pub mod Identity
pub mod Types
pub mod Params
pub mod Health
pub mod Caches
