-- ===== src/Simulation/Environment.antt =====
-- src/simulation/snapshot.rs: the environments of a block and of a call.
use liq_ranger.Base.{ℕ, Option, some, List, ok, ◌>>=◌, unwrap_or}
use liq_ranger.Base.Word.{Checked, add, as_u64}
use liq_ranger.Core.Identity.{Address}

-- What a header says; the fields that it may lack are options.
pub record Block : Type 0 where
  pub number : Option ℕ
  pub timestamp : ℕ
  pub author : Option Address
  pub gas_limit : ℕ
  pub base_fee_per_gas : Option ℕ
  pub mix_hash : Option ℕ

pub record BlockEnv : Type 0 where
  pub number : ℕ
  pub timestamp : ℕ
  pub coinbase : Address
  pub gas_limit : ℕ
  pub basefee : ℕ
  pub prevrandao : Option ℕ

pub record TxEnv : Type 0 where
  pub caller : Address
  pub transact_to : Address
  pub call_data : List ℕ
  pub value : ℕ
  pub gas_limit : ℕ
  pub gas_price : ℕ
  pub gas_priority_fee : Option ℕ
  pub chain_id : Option ℕ

unfoldable pub build_block_env : Block → Checked BlockEnv
build_block_env block = do
  timestamp ← as_u64 block.timestamp
  gas_limit ← as_u64 block.gas_limit
  ok (record {
    number = unwrap_or block.number 0;
    timestamp = timestamp;
    coinbase = unwrap_or block.author 0;
    gas_limit = gas_limit;
    basefee = unwrap_or block.base_fee_per_gas 0;
    prevrandao = some (unwrap_or block.mix_hash 0);
  })

abbrev pub default_base_fee : ℕ
default_base_fee = 30_000_000_000

abbrev pub priority_fee : ℕ
priority_fee = 1_500_000_000

unfoldable pub build_tx_env :
    (source target : Address) (call_data : List ℕ) (value : ℕ)
    → Block
    → (chain_id : ℕ) → Checked TxEnv
build_tx_env source target call_data value block chain_id = do
  max_fee_per_gas ← add (unwrap_or block.base_fee_per_gas default_base_fee) priority_fee
  gas_limit ← as_u64 block.gas_limit
  ok (record {
    caller = source;
    transact_to = target;
    call_data = call_data;
    value = value;
    gas_limit = gas_limit;
    gas_price = max_fee_per_gas;
    gas_priority_fee = some priority_fee;
    chain_id = some chain_id;
  })
