-- ===== src/Examples/Settlements.antt =====
-- A settlement, a broadcast, a simulation, and the saved block of a bootstrap.
use liq_ranger.Base.{
  ℕ, ◌+◌, ◌*◌, ◌^◌, ◌-◌, ◌≡◌, ◌≢◌, refl, true, if◌then◌else◌, ◌==◌, leb, Option, some, none, List,
  [], ◌∷◌, ok, Bool-cases, inl, inr, ==_iff, ap, ◌∙◌,
}
use liq_ranger.Core.Types.{LiquidationJob, LiquidationParams, morpho, to_params}
use liq_ranger.Services.Distributor.{Chain, Tokens, Progress, execute}
use liq_ranger.Services.Distributor.Transfers.{AllAllowed, execute-AllAllowed}
use liq_ranger.Services.Broadcast.{
  Transaction, Provider, Receipt, pending, mined, poll, polling_seconds, build_transaction,
  execute_liquidation, extract_calldata, adjusted_fees,
}
use liq_ranger.Services.Broadcast.Fees.{
  IsRaised, IsFirst, execute_liquidation-IsRaised, poll-IsFirst,
}
use liq_ranger.Simulation.Warm.{
  Node, Contracts, AccountInfo, BlockSnapshot, build_snapshot_internal,
}
use liq_ranger.Simulation.Warm.Stale.{build_snapshot_internal_stale}
use liq_ranger.Simulation.Snapshots.{Caches, Simulated, build_snapshot, simulate_liquidation}
use liq_ranger.Watchlists.Cache.{lookup}
use liq_ranger.Simulation.Snapshots.Fresh.{IsKept, IsFresh, simulate_liquidation-IsFresh, IsRun}
use liq_ranger.Examples.{short_hex}
use liq_ranger.Simulation.Environment.{Block, build_block_env, build_tx_env}
use liq_ranger.Simulation.Engine.{Abi, Evm, simulate, Execution}

-- Gas is low, and the contract has profits in WPOL and in USDC; each transfer goes through.
abbrev chain : Chain
chain = record {
  State = ℕ;
  get_balance = λ s. some (3 * 10 ^ 18);
  accumulated_profits = λ s asset. if leb asset 2 then some (200 * 10 ^ 18) else some 0;
  send = λ s t. (true, s + 1);
  token_symbol = λ s asset. some [];
  fetch_all = λ s. some (some (short_hex.show_address 9) ∷ none ∷ []);
}

abbrev tokens : Tokens
tokens = record { wpol = 1; usdc = 2; usdt = 3; breet = 7; aave_reserves = 2 ∷ 3 ∷ [] }

abbrev fresh : Progress chain
fresh = record { state = 0; sent = [] }

execute-AllAllowed_example : AllAllowed chain tokens (execute chain tokens short_hex fresh).1
execute-AllAllowed_example = execute-AllAllowed chain tokens short_hex fresh tt

abbrev pub job : LiquidationJob
job = record {
  borrower = 9;
  debt_asset = 1;
  collateral_asset = 2;
  debt_to_cover = 50;
  swap_target = 3;
  swap_proxy = 3;
  swap_data = [];
  repaid_shares = some 10;
  seized_assets = some 0;
  market_id = some 7;
  protocol = morpho;
  min_amt_out = 51;
  identity = [];
  seize_amount = 52;
}

abbrev pub encoded : ℕ → LiquidationParams → Option (List ℕ)
encoded amount params = some (amount ∷ params.morpho_market_id ∷ params.min_amt_out ∷ [])

-- The node has no estimate of the fees.
abbrev provider : Provider
provider = record {
  address = 8;
  execute_flash_liquidation = encoded;
  estimate_eip1559_fees = none;
  send_transaction = λ tx. some 99;
}

abbrev transaction : Transaction
transaction = record {
  to = 8;
  call_data = 50 ∷ 7 ∷ 51 ∷ [];
  gas = 120_000;
  max_fee_per_gas = 315_000_000_000;
  max_priority_fee_per_gas = 75_000_000_000;
}

sent_at : execute_liquidation provider job 100_000 ≡ ok (transaction, 99)
unfolding execute_liquidation build_transaction extract_calldata adjusted_fees to_params
sent_at = refl

execute_liquidation-IsRaised_example :
    IsRaised provider job 100_000 transaction × (provider.send_transaction transaction ≡ some 99)
execute_liquidation-IsRaised_example =
    execute_liquidation-IsRaised provider job 100_000 transaction 99 sent_at

-- The receipt comes with the third request.
abbrev third : ℕ → Receipt
third n = if n == 57 then mined true else pending

poll-IsFirst_example : IsFirst polling_seconds third (poll polling_seconds third)
poll-IsFirst_example = poll-IsFirst polling_seconds third

abbrev pub header : ℕ → Block
header n = record {
  number = some n;
  timestamp = 2 * n;
  author = none;
  gas_limit = 30_000_000;
  base_fee_per_gas = none;
  mix_hash = none;
}

-- The account of the address n has n coins at every block.
abbrev pub node : Node
node = record {
  get_block_number = some 40;
  get_block = λ block. some (header block);
  keeper_nonce = λ block. some 3;
  account = λ block a. some (record { balance = a; nonce = 0; code = [] });
  opens = λ block. true;
}

abbrev pub contracts : Contracts
contracts = record {
  keeper = 20;
  flash_liquidator = 21;
  aave_v3_pool = 22;
  uniswapv3_router_02 = 23;
  morpho_blue = 24;
}

abbrev evm : Evm
evm = record {
  execute_flash_liquidation = encoded;
  transact = λ s b t. some (Execution.success 21_000);
}

abbrev abi : Abi
abi = record { decode_string = λ bytes. none; decode_uint = λ bytes. none }

-- No snapshot so far, and one account.
abbrev cached : Caches
cached = record { snapshots = []; codes = (21, record { balance = 21; nonce = 0; code = [] }) ∷ [] }

same_coins :
    (a : ℕ) (info : AccountInfo)
    → a ≡ 21
    → some (record { balance = 21; nonce = 0; code = [] }) ≡ some info
    → node.account 0 a ≡ some info
same_coins a info q f = ap (λ x. some (record { balance = x; nonce = 0; code = [] })) q ∙ f

cached_coins :
    (a : ℕ) (info : AccountInfo) → lookup a cached.codes ≡ some info → node.account 0 a ≡ some info
cached_coins a info e = elim (Bool-cases (a == 21)) [
  | inl q ↦ same_coins a info ((==_iff a 21).0 q) (rw q at e)
  | inr q ↦ let f = rw q at e in absurd (cc)
]

cached-IsKept : IsKept node contracts abi evm cached
cached-IsKept = ((λ block s e. absurd (cc)), (λ a info e. (0, cached_coins a info e)))

abbrev simulated : Simulated node contracts abi evm ℕ
simulated = simulate_liquidation node contracts abi evm 0 job cached

simulate_liquidation-IsFresh_example :
    (job.collateral_asset ≢ job.debt_asset)
    × (((s : BlockSnapshot) × IsRun node contracts abi evm job s 21_000
          × IsFresh node contracts abi evm 0 s)
        × IsKept node contracts abi evm simulated.1)
unfolding simulate_liquidation build_snapshot build_snapshot_internal simulate build_block_env
    build_tx_env
simulate_liquidation-IsFresh_example =
    simulate_liquidation-IsFresh node contracts abi evm 0 job cached simulated.1 21_000
      cached-IsKept refl

-- The account of the borrower, 9, as it was when it had 7 coins.
abbrev old : AccountInfo
old = record { balance = 7; nonce = 0; code = [] }

abbrev coins : List ℕ → List (ℕ × AccountInfo)
coins [] = []
coins (a ∷ l) = (a, record { balance = a; nonce = 0; code = [] }) ∷ coins l

abbrev rebuilt : BlockSnapshot
rebuilt = record {
  block_number = 40;
  block = header 40;
  accounts =
      (20, record { balance = 2 ^ 256 - 1; nonce = 3; code = [] })
      ∷ (9, old)
      ∷ coins (21 ∷ 22 ∷ 23 ∷ 24 ∷ 1 ∷ 2 ∷ []);
}

build_snapshot_internal_stale_example : lookup 9 rebuilt.accounts ≡ some old
unfolding build_snapshot_internal
build_snapshot_internal_stale_example =
    build_snapshot_internal_stale 9 old ((9, old) ∷ []) refl node contracts 40 1 2 9 rebuilt
      (build_snapshot_internal node contracts 40 1 2 9 ((9, old) ∷ [])).1 refl refl
