-- ===== src/Services/Broadcast.antt =====
-- src/adapters/flash_liquidator_adapter.rs: the transaction that broadcasts a liquidation, and the wait
-- for its receipt.
pub mod Fees
use liq_ranger.Base.{
  ℕ, suc, zero, ◌*◌, Bool, true, false, Option, none, some, List, Result, ok, ◌>>=◌, map_err,
  or_fail,
}
use liq_ranger.Base.Word.{Panic, Checked, mul, add, div}
use liq_ranger.Core.Identity.{Address, Hash}
use liq_ranger.Core.Types.{LiquidationJob, LiquidationParams, to_params}

pub record Transaction : Type 0 where
  pub to : Address
  pub call_data : List ℕ
  pub gas : ℕ
  pub max_fee_per_gas : ℕ
  pub max_priority_fee_per_gas : ℕ

-- The contract's address and encoding, and the node; `none` is a failed call.
pub record Provider : Type 0 where
  pub address : Address
  pub execute_flash_liquidation : ℕ → LiquidationParams → Option (List ℕ)
  pub estimate_eip1559_fees : Option (ℕ × ℕ)
  pub send_transaction : Transaction → Option Hash

pub data BroadcastError : Type 0 where
  no_calldata not_sent : BroadcastError
  panicked : Panic → BroadcastError

abbrev pub Broadcast : Type 0 → Type 0
Broadcast A = Result BroadcastError A

abbrev pub or_default_fees : Option (ℕ × ℕ) → ℕ × ℕ
or_default_fees none = (200_000_000_000, 50_000_000_000)
or_default_fees (some fees) = fees

-- `amount * percent / 100`
abbrev pub percent : ℕ → ℕ → Checked ℕ
percent amount part = do scaled ← mul amount part; div scaled 100

module _ (provider : Provider) where
  open provider use {address, execute_flash_liquidation, estimate_eip1559_fees, send_transaction}

  unfoldable pub extract_calldata : ℕ → LiquidationParams → Broadcast (List ℕ)
  extract_calldata flash_amt params =
      or_fail (execute_flash_liquidation flash_amt params) no_calldata

  -- The maximal and the priority fee, from the node's estimates.
  unfoldable pub adjusted_fees : ℕ × ℕ → Checked (ℕ × ℕ)
  adjusted_fees (base_max_fee, base_priority_fee) = do
    priority_fee ← percent base_priority_fee 150
    raised ← percent base_max_fee 120
    max_fee ← add raised priority_fee
    ok (max_fee, priority_fee)

  unfoldable pub build_transaction : LiquidationJob → (gas_limit : ℕ) → Broadcast Transaction
  unfolding extract_calldata adjusted_fees
  build_transaction job gas_limit = do
    call_data ← extract_calldata job.debt_to_cover (to_params job)
    fees ← map_err panicked (adjusted_fees (or_default_fees estimate_eip1559_fees))
    gas ← map_err panicked (percent gas_limit 120)
    ok (record {
      to = address;
      call_data = call_data;
      gas = gas;
      max_fee_per_gas = fees.0;
      max_priority_fee_per_gas = fees.1;
    })

  -- The transaction that was sent, and its hash.
  unfoldable pub execute_liquidation :
      LiquidationJob → (gas_limit : ℕ) → Broadcast (Transaction × Hash)
  unfolding build_transaction
  execute_liquidation job gas_limit = do
    tx ← build_transaction job gas_limit
    tx_hash ← or_fail (send_transaction tx) not_sent
    ok (tx, tx_hash)

-- The answer to one request for the receipt: an error, nothing yet, or its status.
pub data Receipt : Type 0 where
  request_failed pending : Receipt
  mined : (status : Bool) → Receipt

pub data Verdict : Type 0 where
  confirmed reverted gave_up timed_out : Verdict

abbrev pub on_answer : Receipt → Verdict → Verdict
on_answer request_failed rest = gave_up
on_answer pending rest = rest
on_answer (mined true) rest = confirmed
on_answer (mined false) rest = reverted

-- One request a second, for a number of seconds; `answer n` is that of the n-th from the end.
unfoldable pub poll : (ticks : ℕ) → (ℕ → Receipt) → Verdict
poll zero answer = timed_out
poll (suc ticks) answer = on_answer (answer ticks) (poll ticks answer)

abbrev pub polling_seconds : ℕ
polling_seconds = 60
