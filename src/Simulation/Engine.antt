-- ===== src/Simulation/Engine.antt =====
-- src/simulation/engine.rs: the run of a call on a snapshot, and the reason of a revert.
use liq_ranger.Base.{
  ℕ, Bool, true, false, if◌then◌else◌, Option, none, some, List, [], ◌∷◌, Result, ok, err, ◌>>=◌,
  or_fail,
}
use liq_ranger.Base.Word.{Checked}
use liq_ranger.Core.Identity.{Text, Address, text_eq}
use liq_ranger.Core.Types.{LiquidationParams}
use liq_ranger.Simulation.Environment.{BlockEnv, TxEnv, build_block_env, build_tx_env}
use liq_ranger.Simulation.Warm.{BlockSnapshot}

-- The errors of the contract that `error_registry` knows.
pub data KnownError : Type 0 where
  insufficient_collateral health_factor_not_below_threshold : KnownError
  insufficient_flash_loan_liquidity price_slippage_exceeded : KnownError

-- The texts that `decode_revert` and `simulate` format, by what they are made of.
pub data Reason : Type 0 where
  execution_reverted : (output : List ℕ) → Reason
  revert_message : Text → Reason
  panic_code : ℕ → Reason
  custom_error : KnownError → Reason
  unknown_error : (selector : List ℕ) → Reason
  halted : Text → Reason
  unknown_revert : Reason

-- `ethers::abi::decode` of one string, as the text that it prints, and of one number.
pub record Abi : Type 0 where
  pub decode_string : List ℕ → Option Text
  pub decode_uint : List ℕ → Option ℕ

abbrev pub error_selector : List ℕ
error_selector = 0x08 ∷ 0xc3 ∷ 0x79 ∷ 0xa0 ∷ []

abbrev pub panic_selector : List ℕ
panic_selector = 0x4e ∷ 0x48 ∷ 0x7b ∷ 0x71 ∷ []

unfoldable pub error_registry : List ℕ → Option KnownError
error_registry selector =
    if text_eq selector (0x1e ∷ 0x5d ∷ 0x4c ∷ 0x3f ∷ [])
    then some insufficient_collateral
    else if text_eq selector (0x81 ∷ 0x1d ∷ 0xcd ∷ 0x3e ∷ [])
    then some health_factor_not_below_threshold
    else if text_eq selector (0xed ∷ 0x3d ∷ 0x24 ∷ 0x98 ∷ [])
    then some insufficient_flash_loan_liquidity
    else if text_eq selector (0x0e ∷ 0x22 ∷ 0x1f ∷ 0xc1 ∷ [])
    then some price_slippage_exceeded
    else none

abbrev pub reason_or {ℓ} : {A : Type ℓ} → Option A → (A → Reason) → Reason → Reason
reason_or none reason otherwise = otherwise
reason_or (some a) reason otherwise = reason a

module _ (abi : Abi) where
  abbrev pub decode_selected : (selector data_after : List ℕ) → Reason
  decode_selected selector data_after =
      if text_eq selector error_selector
      then reason_or (abi.decode_string data_after) revert_message (unknown_error selector)
      else if text_eq selector panic_selector
      then reason_or (abi.decode_uint data_after) panic_code (unknown_error selector)
      else reason_or (error_registry selector) custom_error (unknown_error selector)

  unfoldable pub decode_revert : List ℕ → Reason
  unfolding error_registry
  decode_revert (a ∷ b ∷ c ∷ d ∷ data_after) = decode_selected (a ∷ b ∷ c ∷ d ∷ []) data_after
  decode_revert output = execution_reverted output

-- `ExecutionResult` of revm.
pub data Execution : Type 0 where
  success : (gas_used : ℕ) → Execution
  revert : (output : List ℕ) (gas_used : ℕ) → Execution
  halt : (reason : Text) (gas_used : ℕ) → Execution

pub record SimulationResult : Type 0 where
  pub success : Bool
  pub gas_used : ℕ
  pub revert_reason : Option Reason

pub record SimulationTx : Type 0 where
  pub source : Address
  pub target : Address
  pub call_data : List ℕ
  pub value : ℕ

-- The contract's encoding of a call, and `transact` of revm on the accounts of a snapshot, in the
-- environments of a block and of a call; none is an error.
pub record Evm : Type 0 where
  pub execute_flash_liquidation : ℕ → LiquidationParams → Option (List ℕ)
  pub transact : BlockSnapshot → BlockEnv → TxEnv → Option Execution

-- A panic ends the worker that runs the call.
pub data EngineError : Type 0 where
  worker_panicked execution_failed : EngineError

abbrev pub on_worker {ℓ} : {A : Type ℓ} → Checked A → Result EngineError A
on_worker (ok a) = ok a
on_worker (err e) = err worker_panicked

module _ (abi : Abi) where
  abbrev pub result_of : Execution → SimulationResult
  result_of (success gas) = record { success = true; gas_used = gas; revert_reason = none }
  result_of (revert output gas) = record {
    success = false;
    gas_used = gas;
    revert_reason = some (decode_revert abi output);
  }
  result_of (halt reason gas) = record {
    success = false;
    gas_used = gas;
    revert_reason = some (halted reason);
  }

  -- The environment of the call has no chain, so that it is not checked.
  unfoldable pub simulate :
      Evm → (chain_id : ℕ) → BlockSnapshot → SimulationTx → Result EngineError SimulationResult
  unfolding build_block_env build_tx_env decode_revert
  simulate evm chain_id s tx = do
    block_env ← on_worker (build_block_env s.block)
    tx_env ← on_worker (build_tx_env tx.source tx.target tx.call_data tx.value s.block chain_id)
    done ← or_fail (evm.transact s block_env (record tx_env { chain_id = none })) execution_failed
    ok (result_of done)
