-- ===== src/Simulation.antt =====
-- The simulation of a liquidation: src/simulation and src/adapters/revm_simulation_adapter.rs.
pub mod Environment
pub mod Warm
pub mod Engine
pub mod Sandbox
pub mod Snapshots
