-- ===== src/Simulation/Warm.antt =====
-- src/adapters/revm_simulation_adapter.rs: what a snapshot of a block is built from. The answers of the
-- node are parameters.
pub mod Answered
pub mod Stale
use liq_ranger.Base.{ℕ, ◌-◌, ◌^◌, ◌==◌, Bool, if◌then◌else◌, Option, none, some, List, [], ◌∷◌}
use liq_ranger.Core.Identity.{Address}
use liq_ranger.Simulation.Environment.{Block}
use liq_ranger.Watchlists.Cache.{lookup, insert}

-- `AccountInfo`, with the code in the place of its hash.
pub record AccountInfo : Type 0 where
  pub balance : ℕ
  pub nonce : ℕ
  pub code : List ℕ

-- The cache of accounts, which is `code_cache`, and the accounts of a `CacheDB`.
abbrev pub Accounts : Type 0
Accounts = List (Address × AccountInfo)

-- The answers for a block. `get_block` is the header and `keeper_nonce` the nonce of the keeper, or none
-- where a call fails or the time runs out; `account` is the three answers for an account, or none where
-- one of them fails; `opens` tells whether the database of the block is ready in time.
pub record Node : Type 0 where
  pub get_block_number : Option ℕ
  pub get_block : ℕ → Option Block
  pub keeper_nonce : ℕ → Option ℕ
  pub account : ℕ → Address → Option AccountInfo
  pub opens : ℕ → Bool

-- The addresses of src/constants.rs.
pub record Contracts : Type 0 where
  pub keeper : Address
  pub flash_liquidator : Address
  pub aave_v3_pool : Address
  pub uniswapv3_router_02 : Address
  pub morpho_blue : Address

abbrev pub warm_targets :
    Contracts → (debt_asset collateral_asset borrower : Address) → List Address
warm_targets c debt collateral borrower =
    c.flash_liquidator
    ∷ c.aave_v3_pool
    ∷ c.uniswapv3_router_02
    ∷ c.morpho_blue
    ∷ debt
    ∷ borrower
    ∷ (if collateral == debt then [] else collateral ∷ [])

abbrev pub with_known : Address → Option AccountInfo → Accounts → Accounts
with_known a none l = l
with_known a (some info) l = (a, info) ∷ l

-- The targets in the cache, and those that are not.
abbrev pub cached_accounts : Accounts → List Address → Accounts
cached_accounts codes [] = []
cached_accounts codes (a ∷ targets) = with_known a (lookup a codes) (cached_accounts codes targets)

abbrev pub unless_known : Address → Option AccountInfo → List Address → List Address
unless_known a none l = a ∷ l
unless_known a (some info) l = l

abbrev pub un_cached_targets : Accounts → List Address → List Address
un_cached_targets codes [] = []
un_cached_targets codes (a ∷ targets) =
    unless_known a (lookup a codes) (un_cached_targets codes targets)

abbrev pub insert_all : Accounts → Accounts → Accounts
insert_all [] m = m
insert_all ((a, info) ∷ l) m = insert_all l (insert a info m)

abbrev pub keeper_account : ℕ → AccountInfo
keeper_account nonce = record { balance = 2 ^ 256 - 1; nonce = nonce; code = [] }

pub record BlockSnapshot : Type 0 where
  pub block_number : ℕ
  pub block : Block
  pub accounts : Accounts

module _ (node : Node) (contracts : Contracts) where
  open node use {get_block, keeper_nonce, account, opens}

  -- What the node answers for the accounts; a failure leaves one out.
  abbrev pub fetched : ℕ → List Address → Accounts
  fetched block [] = []
  fetched block (a ∷ targets) = with_known a (account block a) (fetched block targets)

  abbrev pub Built : Type 0
  Built = Option (BlockSnapshot) × Accounts

  abbrev pub database : ℕ → Accounts → Accounts → Accounts
  database nonce cached new =
      insert_all new (insert_all cached ((contracts.keeper, keeper_account nonce) ∷ []))

  abbrev pub assemble : ℕ → Block → ℕ → Accounts → Accounts → Accounts → Built
  assemble block header nonce cached new codes = (
    (if opens block
        then some
            (record { block_number = block; block = header; accounts = database nonce cached new })
        else none),
    insert_all new codes,
  )

  abbrev pub warm : ℕ → Block → ℕ → List Address → Accounts → Built
  warm block header nonce targets codes =
      assemble block header nonce (cached_accounts codes targets)
        (fetched block (un_cached_targets codes targets)) codes

  abbrev pub with_header : Option Block → Option ℕ → ℕ → List Address → Accounts → Built
  with_header (some header) (some nonce) block targets codes = warm block header nonce targets codes
  with_header (some header) none block targets codes = (none, codes)
  with_header none _ block targets codes = (none, codes)

  -- A snapshot, or none where it fails or runs out of time, and the cache of accounts afterwards.
  unfoldable pub build_snapshot_internal :
      (block_number debt_asset collateral_asset borrower : ℕ) → Accounts → Built
  build_snapshot_internal block debt collateral borrower codes =
      with_header (get_block block) (keeper_nonce block) block
        (warm_targets contracts debt collateral borrower) codes
