-- ===== src/Records/Extractor.antt =====
-- src/liq_data_extractor.rs: the events of the contract, and the records that they leave.
use liq_ranger.Base.{
  ℕ, ◌==◌, Bool, true, false, if◌then◌else◌, Option, none, some, List, [], ◌∷◌, Result, ok, err,
  ◌>>=◌, map_err, unwrap_or,
}
use liq_ranger.Base.Word.{Panic, as_u64}
use liq_ranger.Core.Identity.{HexCodec, Text, Address, Hash}
use liq_ranger.Records.Tables.{
  LiquidationRecord, DistributionRecord, Database, save_liquidation, save_distribution,
}

pub data ContractEvent : Type 0 where
  position_liquidated :
      (mode : ℕ) (borrower collateral_asset profit_asset : Address) (profit timestamp : ℕ)
      → ContractEvent
  profit_distributed : (asset : Address) (owner_share breet_share timestamp : ℕ) → ContractEvent
  other_event : ContractEvent

-- The answers while an event is handled: the calls of the tokens, and whether the statement runs.
pub record Answers : Type 0 where
  pub token_symbol : Address → Option Text
  pub token_decimals : Address → Option ℕ
  pub executes : Bool

-- Floating point numbers, `format_units` of the crate ethers and `f64::from_str`.
pub record Units : Type 1 where
  pub F64 : Type 0
  pub zero : F64
  pub plus : F64 → F64 → F64
  pub format_units : (raw_amount decimals : ℕ) → Option Text
  pub parse : Text → Option F64

-- How the handling of an event ends without a record: a panic, or an error, which is logged.
pub data Trouble : Type 0 where
  panicked : Panic → Trouble
  failed : Trouble

abbrev pub unknown : Text
unknown = b'U' ∷ b'N' ∷ b'K' ∷ b'N' ∷ b'O' ∷ b'W' ∷ b'N' ∷ []

unfoldable pub protocol_name : ℕ → Text
protocol_name mode =
    if mode == 0
    then b'A' ∷ b'a' ∷ b'v' ∷ b'e' ∷ []
    else if mode == 1
    then b'M' ∷ b'o' ∷ b'r' ∷ b'p' ∷ b'h' ∷ b'o' ∷ []
    else if mode == 2
    then b'C' ∷ b'o' ∷ b'm' ∷ b'p' ∷ b'o' ∷ b'u' ∷ b'n' ∷ b'd' ∷ []
    else b'U' ∷ b'n' ∷ b'k' ∷ b'n' ∷ b'o' ∷ b'w' ∷ b'n' ∷ []

-- One turn of `select!`.
pub data StreamEvent : Type 0 where
  shutdown stream_closed stream_error : StreamEvent
  indexed : ContractEvent → (transaction_hash : Hash) (block_number : ℕ) → Answers → StreamEvent

module _ (hex : HexCodec) (units : Units) where
  open units use {F64, zero, plus, format_units, parse}

  abbrev pub parsed_amount : Option Text → Result Trouble F64
  parsed_amount none = err failed
  parsed_amount (some text) = ok (unwrap_or (parse text) zero)

  unfoldable pub compute_amount : Answers → ℕ → Address → Result Trouble F64
  compute_amount answers raw_amount asset =
      parsed_amount (format_units raw_amount (unwrap_or (answers.token_decimals asset) 18))

  abbrev pub symbol_of : Answers → Address → Text
  symbol_of answers asset = unwrap_or (answers.token_symbol asset) unknown

  -- The record of an event; `saved` tells whether the statement runs.
  unfoldable pub liquidation_record :
      Answers
      → (mode : ℕ) (borrower collateral_asset profit_asset : Address) (profit timestamp : ℕ)
      → (tx_hash : Text) (block_number : ℕ) → Result Trouble (LiquidationRecord F64)
  unfolding compute_amount protocol_name
  liquidation_record answers mode borrower collateral profit_asset profit timestamp tx_hash block =
      do
        seconds ← map_err panicked (as_u64 timestamp)
        amount ← compute_amount answers profit profit_asset
        ok (record {
          timestamp = seconds;
          block_number = block;
          protocol = protocol_name mode;
          borrower = borrower;
          collateral_asset = collateral;
          profit_asset = profit_asset;
          profit_amount = amount;
          profit_symbol = symbol_of answers profit_asset;
          collateral_symbol = symbol_of answers collateral;
          tx_hash = tx_hash;
        })

  unfoldable pub distribution_record :
      Answers
      → (asset : Address) (owner_share breet_share timestamp : ℕ) → (tx_hash : Text)
      → Result Trouble (DistributionRecord F64)
  unfolding compute_amount
  distribution_record answers asset owner_share breet_share timestamp tx_hash = do
    seconds ← map_err panicked (as_u64 timestamp)
    owner ← compute_amount answers owner_share asset
    breet ← compute_amount answers breet_share asset
    ok (record {
      tx_hash = tx_hash;
      asset = hex.show_address asset;
      asset_symbol = symbol_of answers asset;
      amount = plus owner breet;
      owner_share = owner;
      breet_share = breet;
      timestamp = seconds;
    })

  abbrev pub if_executes : Answers → Database F64 → Result Trouble (Database F64)
  if_executes answers db = if answers.executes then ok db else err failed

  module _ (to_string : Address → Text) where
    abbrev pub handle_liquidation_event :
        Database F64
        → Answers
        → Result Trouble (LiquidationRecord F64)
        → Result Trouble (Database F64)
    handle_liquidation_event db answers (err e) = err e
    handle_liquidation_event db answers (ok r) =
        if_executes answers (save_liquidation to_string db r)

    abbrev pub handle_distribution_event :
        Database F64
        → Answers
        → Result Trouble (DistributionRecord F64)
        → Result Trouble (Database F64)
    handle_distribution_event db answers (err e) = err e
    handle_distribution_event db answers (ok r) = if_executes answers (save_distribution db r)

    unfoldable pub handle_event :
        Database F64
        → ContractEvent
        → (tx_hash : Text) (block_number : ℕ) → Answers
        → Result Trouble (Database F64)
    unfolding liquidation_record distribution_record save_liquidation save_distribution
    handle_event db (position_liquidated mode b c p profit time) tx_hash block answers =
        handle_liquidation_event db answers
          (liquidation_record answers mode b c p profit time tx_hash block)
    handle_event db (profit_distributed asset owner breet time) tx_hash block answers =
        handle_distribution_event db answers
          (distribution_record answers asset owner breet time tx_hash)
    handle_event db other_event tx_hash block answers = ok db

    -- The tables, and whether the loop goes on.
    abbrev pub Turn : Type 0
    Turn = Database F64 × Bool

    -- An error leaves the tables as they are and is logged; a panic ends the task.
    abbrev pub settle : Database F64 → Result Trouble (Database F64) → Turn
    settle db (ok next) = (next, true)
    settle db (err failed) = (db, true)
    settle db (err (panicked e)) = (db, false)

    unfoldable pub step : Database F64 → StreamEvent → Turn
    unfolding handle_event
    step db shutdown = (db, false)
    step db stream_closed = (db, false)
    step db stream_error = (db, true)
    step db (indexed evt hash block answers) =
        settle db (handle_event db evt (hex.show_hash hash) block answers)

    abbrev pub then_go : (Database F64 → Database F64) → Turn → Database F64
    then_go rest (db, false) = db
    then_go rest (db, true) = rest db

    -- The tables after the events that the loop of `start` serves once its subscription is up. If that
    -- fails, `start` returns the error before the loop, with the tables as they are.
    unfoldable pub start : Database F64 → List StreamEvent → Database F64
    unfolding step
    start db [] = db
    start db (e ∷ es) = then_go (λ d. start d es) (step db e)
