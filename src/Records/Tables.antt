-- ===== src/Records/Tables.antt =====
-- src/common/mod.rs: the records, and the statements that save them. A table is the list of its rows,
-- the newest first; src/db makes the hash of the transaction unique in each.
pub mod Keyed
use liq_ranger.Base.{ℕ, Bool, true, false, ◌||◌, if◌then◌else◌, List, [], ◌∷◌}
use liq_ranger.Core.Identity.{Text, Address, text_eq}

-- An i64 is the number that its 64 bits make; F64 is the floating point number.
pub record LiquidationRecord (F64 : Type 0) : Type 0 where
  pub timestamp : ℕ
  pub block_number : ℕ
  pub protocol : Text
  pub borrower : Address
  pub collateral_asset : Address
  pub profit_asset : Address
  pub profit_amount : F64
  pub profit_symbol : Text
  pub collateral_symbol : Text
  pub tx_hash : Text

-- A row of the table `liquidations`.
pub record LiquidationRow (F64 : Type 0) : Type 0 where
  pub tx_hash : Text
  pub protocol : Text
  pub borrower : Text
  pub profit_asset : Text
  pub profit_symbol : Text
  pub collateral_asset : Text
  pub collateral_symbol : Text
  pub profit_amount : F64
  pub block_number : ℕ
  pub timestamp : ℕ

pub record DistributionRecord (F64 : Type 0) : Type 0 where
  pub tx_hash : Text
  pub asset : Text
  pub asset_symbol : Text
  pub amount : F64
  pub owner_share : F64
  pub breet_share : F64
  pub timestamp : ℕ

module _ {Row : Type 0} (key : Row → Text) where
  abbrev pub is_saved : List Row → Text → Bool
  is_saved [] t = false
  is_saved (r ∷ rows) t = text_eq (key r) t || is_saved rows t

  -- `INSERT OR IGNORE`
  abbrev pub insert_or_ignore : List Row → Row → List Row
  insert_or_ignore rows r = if is_saved rows (key r) then rows else r ∷ rows

pub record Database (F64 : Type 0) : Type 0 where
  pub liquidations : List (LiquidationRow F64)
  pub distributions : List (DistributionRecord F64)

module _ {F64 : Type 0} where
  -- `LiquidationRecord::save` binds the texts of the addresses.
  unfoldable pub save_liquidation :
      (Address → Text) → Database F64 → LiquidationRecord F64 → Database F64
  save_liquidation to_string db r = record db {
    liquidations =
        insert_or_ignore (λ x. x.tx_hash) db.liquidations
          (record {
            tx_hash = r.tx_hash;
            protocol = r.protocol;
            borrower = to_string r.borrower;
            profit_asset = to_string r.profit_asset;
            profit_symbol = r.profit_symbol;
            collateral_asset = to_string r.collateral_asset;
            collateral_symbol = r.collateral_symbol;
            profit_amount = r.profit_amount;
            block_number = r.block_number;
            timestamp = r.timestamp;
          });
  }

  -- `DistributionRecord::save`
  unfoldable pub save_distribution : Database F64 → DistributionRecord F64 → Database F64
  save_distribution db r = record db {
    distributions = insert_or_ignore (λ x. x.tx_hash) db.distributions r;
  }
