-- ===== src/Readers/Morpho.antt =====
-- src/adapters/morpho_protocol_adapter.rs: a Morpho position becomes a profile, or is skipped.
pub mod Sound
pub mod Scan
pub mod Agreement
pub mod Tracked
pub mod Panics
use liq_ranger.Base.{
  ℕ, leb, ◌==◌, if◌then◌else◌, Option, none, some, List, [], ◌∷◌, ok, err, ◌>>=◌, ◌>>◌, guard,
  to_option, not,
}
pub use liq_ranger.Readers.Outcome.{Stop, skipped, panicked, Eval, ask, run, contains, unique}
use liq_ranger.Base.Word.{Checked}
use liq_ranger.Math.Morpho.{
  to_assets_down, incentive_factor, wmul_down, mul_div_down, seized_assets_from_repaid_shares,
}
use liq_ranger.Core.Identity.{HexCodec, Text, Address, Hash, TrackerIdentity, morpho_blue, from_str}
use liq_ranger.Core.Types.{
  BorrowerProfile, LiquidationMode, repay_shares, seize_collateral, Market, Position, morpho,
}
use liq_ranger.Core.Health.{is_healthy}

pub record MarketState : Type 0 where
  pub total_borrow_assets : ℕ
  pub total_borrow_shares : ℕ

pub record MarketParams : Type 0 where
  pub loan_token : Address
  pub collateral_token : Address
  pub oracle : Address
  pub lltv : ℕ

-- The answers of the Morpho contract, the oracles and the tokens during one evaluation; `none` is a
-- failed call. `decimals` is `get_token_decimals`.
pub record Chain : Type 0 where
  pub position : Hash → Address → Option Position
  pub market : Hash → Option MarketState
  pub id_to_market_params : Hash → Option MarketParams
  pub price : Address → Option ℕ
  pub decimals : Address → Option ℕ

-- The three numbers that the choice of the mode reads, and the lltv.
pub record Sizing : Type 0 where
  pub borrow_shares : ℕ
  pub collateral : ℕ
  pub total_assets : ℕ
  pub total_shares : ℕ
  pub lltv : ℕ
  pub scale : ℕ
  pub price : ℕ

-- `debt_assets`, positive.
unfoldable pub debt_of : Sizing → Eval ℕ
debt_of z = do
  debt_assets ← run (to_assets_down z.borrow_shares z.total_assets z.total_shares)
  guard (not (debt_assets == 0)) skipped
  ok debt_assets

unfoldable pub required_collateral : Sizing → ℕ → Checked ℕ
required_collateral z debt_assets = do
  lif ← incentive_factor z.lltv
  bonus ← wmul_down debt_assets lif
  mul_div_down bonus z.scale z.price

unfoldable pub repay_mode : Sizing → Eval LiquidationMode
repay_mode z = do
  seized_for_swap ← run (
      seized_assets_from_repaid_shares z.borrow_shares z.total_assets z.total_shares z.lltv z.scale
        z.price)
  guard (not (seized_for_swap == 0)) skipped
  ok (repay_shares z.borrow_shares seized_for_swap)

-- Full repayment if the collateral covers it, and otherwise all of the collateral.
unfoldable pub choose_mode : Sizing → ℕ → Eval LiquidationMode
choose_mode z debt_assets = do
  required ← run (required_collateral z debt_assets)
  if leb required z.collateral then repay_mode z else ok (seize_collateral z.collateral)

abbrev pub collateral_for_swap : LiquidationMode → ℕ
collateral_for_swap (repay_shares repaid expected) = expected
collateral_for_swap (seize_collateral seized) = seized

abbrev pub repaid_of : LiquidationMode → ℕ
repaid_of (repay_shares repaid expected) = repaid
repaid_of (seize_collateral seized) = 0

abbrev pub seized_of : LiquidationMode → ℕ
seized_of (repay_shares repaid expected) = 0
seized_of (seize_collateral seized) = seized

pub record Plan : Type 0 where
  pub debt_assets : ℕ
  pub mode : LiquidationMode

abbrev pub sizing : Position → MarketState → ℕ → ℕ → ℕ → Sizing
sizing position state lltv scale price = record {
  borrow_shares = position.borrow_shares;
  collateral = position.collateral;
  total_assets = state.total_borrow_assets;
  total_shares = state.total_borrow_shares;
  lltv = lltv;
  scale = scale;
  price = price;
}

abbrev pub market_of : MarketState → Market
market_of state = record {
  total_borrow_assets = state.total_borrow_assets;
  total_borrow_shares = state.total_borrow_shares;
}

-- From the health check to the mode.
unfoldable pub plan : Position → MarketState → ℕ → ℕ → ℕ → Eval Plan
plan position state lltv scale price = do
  healthy ← run (is_healthy position (market_of state) lltv price)
  guard (not healthy) skipped
  debt_assets ← debt_of (sizing position state lltv scale price)
  mode ← choose_mode (sizing position state lltv scale price) debt_assets
  guard (not (collateral_for_swap mode == 0)) skipped
  ok (record { debt_assets = debt_assets; mode = mode })

module _ (hex : HexCodec) (chain : Chain) (scale : ℕ) where
  open chain use {position, market, id_to_market_params, price, decimals}

  -- What the reader does with a parsed identity.
  unfoldable pub evaluate : Text → Hash → Address → Eval BorrowerProfile
  evaluate identity market_id borrower = do
    pos ← ask (position market_id borrower)
    state ← ask (market market_id)
    params ← ask (id_to_market_params market_id)
    guard (not (pos.borrow_shares == 0)) skipped
    quoted ← ask (price params.oracle)
    p ← plan pos state params.lltv scale quoted
    src_decimals ← ask (decimals params.collateral_token)
    dest_decimals ← ask (decimals params.loan_token)
    ok (record {
      address = borrower;
      repaid_shares = some (repaid_of p.mode);
      seized_assets = some (seized_of p.mode);
      market_id = some market_id;
      debt_asset = params.loan_token;
      debt_to_cover = p.debt_assets;
      collateral_asset = params.collateral_token;
      seize_amount = collateral_for_swap p.mode;
      src_decimals = src_decimals;
      dest_decimals = dest_decimals;
      protocol = morpho;
      identity = identity;
    })

  evaluate_parsed : Text → Option TrackerIdentity → Eval BorrowerProfile
  unfolding evaluate
  evaluate_parsed identity (some (morpho_blue market_id borrower)) =
      evaluate identity market_id borrower
  evaluate_parsed identity _ = err skipped

  unfoldable pub evaluate_target : Text → Eval BorrowerProfile
  unfolding evaluate_parsed
  evaluate_target identity = evaluate_parsed identity (to_option (from_str hex identity))

  -- Skipped positions leave no profile, and a panic ends the scan.
  collect : Eval BorrowerProfile → Checked (List BorrowerProfile) → Checked (List BorrowerProfile)
  collect (ok profile) rest = do ok (profile ∷ (← rest))
  collect (err skipped) rest = rest
  collect (err (panicked e)) rest = err e

  unfoldable pub evaluate_all : List Text → Checked (List BorrowerProfile)
  unfolding collect
  evaluate_all [] = ok []
  evaluate_all (identity ∷ rest) = collect (evaluate_target identity) (evaluate_all rest)

  -- The profiles of one scan. The source leaves their order open: it is the one of completion.
  unfoldable pub fetch_liquidation_candidates : List Text → Checked (List BorrowerProfile)
  unfolding evaluate_all
  fetch_liquidation_candidates tracked = evaluate_all (unique tracked)

  -- The error branches of a refresh.
  refresh_parsed : Text → Option TrackerIdentity → Eval BorrowerProfile
  refresh_parsed identity (some (morpho_blue market_id borrower)) = do
    pos ← ask (position market_id borrower)
    guard (not (pos.borrow_shares == 0)) skipped
    evaluate_target identity
  refresh_parsed identity _ = evaluate_target identity

  unfoldable pub refresh_borrower : Text → Eval BorrowerProfile
  unfolding refresh_parsed
  refresh_borrower identity = refresh_parsed identity (to_option (from_str hex identity))
