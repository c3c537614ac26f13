-- ===== src/Core/Types.antt =====
-- src/core/types.rs: profiles, quotes, jobs and the parameters of the contract call.
use liq_ranger.Base.{ℕ, Option, none, some, List}
use liq_ranger.Core.Identity.{Text, Address, Hash}

pub data Protocol : Type 0 where
  morpho aave : Protocol

pub record BorrowerProfile : Type 0 where
  pub address : Address
  pub repaid_shares : Option ℕ
  pub seized_assets : Option ℕ
  pub market_id : Option Hash
  pub debt_asset : Address
  pub debt_to_cover : ℕ
  pub collateral_asset : Address
  pub seize_amount : ℕ
  pub src_decimals : ℕ
  pub dest_decimals : ℕ
  pub protocol : Protocol
  pub identity : Text

pub record MarketQuote : Type 0 where
  pub swap_target : Address
  pub token_transfer_proxy : Address
  pub swap_data : List ℕ
  pub min_amt_out : ℕ

pub record LiquidationJob : Type 0 where
  pub borrower : Address
  pub debt_asset : Address
  pub collateral_asset : Address
  pub debt_to_cover : ℕ
  pub swap_target : Address
  pub swap_proxy : Address
  pub swap_data : List ℕ
  pub repaid_shares : Option ℕ
  pub seized_assets : Option ℕ
  pub market_id : Option Hash
  pub protocol : Protocol
  pub min_amt_out : ℕ
  pub identity : Text
  pub seize_amount : ℕ

-- The argument of the contract's executeFlashLiquidation.
pub record LiquidationParams : Type 0 where
  pub mode : ℕ
  pub borrower : Address
  pub aave_debt_asset : Address
  pub aave_collateral : Address
  pub aave_debt_to_cover : ℕ
  pub morpho_market_id : Hash
  pub morpho_repaid_shares : ℕ
  pub morpho_seized_assets : ℕ
  pub compound_collateral : Address
  pub compound_debt_asset : Address
  pub compound_debt_to_cover : ℕ
  pub compound_min_collateral : ℕ
  pub swap_target : Address
  pub swap_allowance_target : Address
  pub swap_data : List ℕ
  pub flash_asset : Address
  pub min_amt_out : ℕ

abbrev pub or_zero : Option ℕ → ℕ
or_zero none = 0
or_zero (some n) = n

unfoldable pub params_for : Protocol → LiquidationJob → LiquidationParams
params_for aave value = record {
  mode = 0;
  borrower = value.borrower;
  aave_debt_asset = value.debt_asset;
  aave_collateral = value.collateral_asset;
  aave_debt_to_cover = value.debt_to_cover;
  morpho_market_id = or_zero value.market_id;
  morpho_repaid_shares = or_zero value.repaid_shares;
  morpho_seized_assets = or_zero value.seized_assets;
  compound_collateral = 0;
  compound_debt_asset = 0;
  compound_debt_to_cover = 0;
  compound_min_collateral = 0;
  swap_target = value.swap_target;
  swap_allowance_target = value.swap_proxy;
  swap_data = value.swap_data;
  flash_asset = value.debt_asset;
  min_amt_out = value.min_amt_out;
}
params_for morpho value = record {
  mode = 1;
  borrower = value.borrower;
  aave_debt_asset = 0;
  aave_collateral = 0;
  aave_debt_to_cover = 0;
  morpho_market_id = or_zero value.market_id;
  morpho_repaid_shares = or_zero value.repaid_shares;
  morpho_seized_assets = or_zero value.seized_assets;
  compound_collateral = 0;
  compound_debt_asset = 0;
  compound_debt_to_cover = 0;
  compound_min_collateral = 0;
  swap_target = value.swap_target;
  swap_allowance_target = value.swap_proxy;
  swap_data = value.swap_data;
  flash_asset = value.debt_asset;
  min_amt_out = value.min_amt_out;
}

-- `LiquidationParams::from`
unfoldable pub to_params : LiquidationJob → LiquidationParams
unfolding params_for
to_params value = params_for value.protocol value

pub record Market : Type 0 where
  pub total_borrow_assets : ℕ
  pub total_borrow_shares : ℕ

pub record Position : Type 0 where
  pub borrow_shares : ℕ
  pub collateral : ℕ

-- How a Morpho position is liquidated: by repaying shares, or by seizing what is left.
pub data LiquidationMode : Type 0 where
  repay_shares : (repaid_shares expected_seized_assets : ℕ) → LiquidationMode
  seize_collateral : (seized_assets : ℕ) → LiquidationMode
