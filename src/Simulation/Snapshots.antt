-- ===== src/Simulation/Snapshots.antt =====
-- src/adapters/revm_simulation_adapter.rs: the snapshots of blocks, their cache, and the
-- simulation of a job. The EVM, the node and the contract's encoding are parameters.
pub mod Called
pub mod Fresh
use liq_ranger.Base.{
  ℕ, ◌-◌, leb, ◌==◌, if◌then◌else◌, Option, none, some, List, [], ◌∷◌, Result, ok, err, unwrap_or,
}
use liq_ranger.Core.Types.{LiquidationJob, LiquidationParams, to_params}
use liq_ranger.Simulation.Warm.{
  Node, Contracts, Accounts, BlockSnapshot, Built, build_snapshot_internal,
}
use liq_ranger.Simulation.Engine.{
  Abi, Evm, EngineError, SimulationResult, SimulationTx, Reason, unknown_revert, simulate,
}
use liq_ranger.Watchlists.Cache.{lookup, insert}

pub data SimulationError : Type 0 where
  no_block no_snapshot self_collateral no_calldata execution_failed : SimulationError
  reverted : Reason → SimulationError

abbrev pub chain_id : ℕ
chain_id = 137

-- `snapshot_cache` and `code_cache`
pub record Caches : Type 0 where
  pub snapshots : List (ℕ × BlockSnapshot)
  pub codes : Accounts

module _ (node : Node) (contracts : Contracts) (abi : Abi) (evm : Evm) where
  open node use {get_block_number}
  open evm use {execute_flash_liquidation}

  abbrev pub Simulated : Type 0 → Type 0
  Simulated A = Result SimulationError A × Caches

  abbrev pub retain_from : ℕ → List (ℕ × BlockSnapshot) → List (ℕ × BlockSnapshot)
  retain_from least [] = []
  retain_from least ((block, s) ∷ cache) =
      if leb least block then (block, s) ∷ retain_from least cache else retain_from least cache

  abbrev pub resolved : ℕ → Option ℕ
  resolved block_number = if block_number == 0 then get_block_number else some block_number

  abbrev pub store : ℕ → List (ℕ × BlockSnapshot) → Built node contracts → Simulated (BlockSnapshot)
  store block cache (none, codes) = (err no_snapshot, record { snapshots = cache; codes = codes })
  store block cache (some s, codes) =
      (ok s, record { snapshots = insert block s (retain_from (block - 1) cache); codes = codes })

  abbrev pub use_cached :
      Option (BlockSnapshot)
      → ℕ
      → (debt_asset collateral_asset borrower : ℕ) → Caches
      → Simulated (BlockSnapshot)
  use_cached (some s) block debt collateral borrower c = (ok s, c)
  use_cached none block debt collateral borrower c =
      store block c.snapshots
        (build_snapshot_internal node contracts block debt collateral borrower c.codes)

  abbrev pub at_block :
      Option ℕ → (debt_asset collateral_asset borrower : ℕ) → Caches → Simulated (BlockSnapshot)
  at_block none debt collateral borrower c = (err no_block, c)
  at_block (some block) debt collateral borrower c =
      use_cached (lookup block c.snapshots) block debt collateral borrower c

  unfoldable pub build_snapshot :
      (block_number debt_asset collateral_asset borrower : ℕ) → Caches → Simulated (BlockSnapshot)
  unfolding build_snapshot_internal
  build_snapshot block_number debt collateral borrower c =
      at_block (resolved block_number) debt collateral borrower c

  -- The gas of a success.
  abbrev pub outcome : Result EngineError SimulationResult → Result SimulationError ℕ
  outcome (err e) = err execution_failed
  outcome (ok r) =
      if r.success then ok r.gas_used else err (reverted (unwrap_or r.revert_reason unknown_revert))

  -- The call of the keeper to the contract.
  abbrev pub sim_tx : List ℕ → SimulationTx
  sim_tx bytes = record {
    source = contracts.keeper;
    target = contracts.flash_liquidator;
    call_data = bytes;
    value = 0;
  }

  abbrev call : LiquidationJob → Option (List ℕ)
  call job = execute_flash_liquidation job.debt_to_cover (to_params job)

  run_call : Option (List ℕ) → BlockSnapshot → Result SimulationError ℕ
  unfolding simulate
  run_call none s = err no_calldata
  run_call (some bytes) s = outcome (simulate abi evm chain_id s (sim_tx bytes))

  simulate_on : LiquidationJob → Simulated (BlockSnapshot) → Simulated ℕ
  unfolding run_call
  simulate_on job (err e, cache) = (err e, cache)
  simulate_on job (ok s, cache) = (run_call (call job) s, cache)

  unfoldable pub simulate_liquidation : ℕ → LiquidationJob → Caches → Simulated ℕ
  unfolding build_snapshot simulate_on
  simulate_liquidation block_number job cache =
      if job.collateral_asset == job.debt_asset
      then (err self_collateral, cache)
      else simulate_on job
          (build_snapshot block_number job.debt_asset job.collateral_asset job.borrower cache)
