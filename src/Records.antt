-- ===== src/Records.antt =====
-- The history of liquidations and distributions in SQL: src/liq_data_extractor.rs, and the records of
-- src/common/mod.rs.
pub mod Tables
pub mod Extractor
pub mod Replay
pub mod Discovery
