-- ===== src/Core/Params.antt =====
-- src/core/types.rs: what the argument of the contract's call says of a job.
use liq_ranger.Base.{ℕ, ◌≡◌, ◌⊎◌, inl, inr, refl, Option, none, some}
use liq_ranger.Core.Types.{
  LiquidationJob, LiquidationParams, Protocol, aave, morpho, or_zero, params_for, to_params,
}

-- The value, or zero where there is none.
abbrev pub IsOrZero : Option ℕ → ℕ → Type 0
IsOrZero o n = (o ≡ some n) ⊎ ((o ≡ none) × (n ≡ 0))

or_zero-IsOrZero : (o : Option ℕ) → IsOrZero o (or_zero o)
or_zero-IsOrZero none = inr (refl, refl)
or_zero-IsOrZero (some n) = inl refl

-- An Aave job names its pair of assets and its debt, a Morpho job leaves them out; the swap, the asset of
-- the flash loan, the borrower and the Morpho position are those of the job.
pub record IsParams (job : LiquidationJob) (params : LiquidationParams) : Type 0 where
  pub position :
      ((job.protocol ≡ aave)
        × (params.mode ≡ 0)
        × (params.aave_debt_asset ≡ job.debt_asset)
        × (params.aave_collateral ≡ job.collateral_asset)
        × (params.aave_debt_to_cover ≡ job.debt_to_cover))
      ⊎ ((job.protocol ≡ morpho)
          × (params.mode ≡ 1)
          × (params.aave_debt_asset ≡ 0)
          × (params.aave_collateral ≡ 0)
          × (params.aave_debt_to_cover ≡ 0))
  pub borrower : params.borrower ≡ job.borrower
  pub market : IsOrZero job.market_id params.morpho_market_id
  pub repaid : IsOrZero job.repaid_shares params.morpho_repaid_shares
  pub seized : IsOrZero job.seized_assets params.morpho_seized_assets
  pub no_compound :
      (params.compound_collateral ≡ 0)
      × (params.compound_debt_asset ≡ 0)
      × (params.compound_debt_to_cover ≡ 0)
      × (params.compound_min_collateral ≡ 0)
  pub target : params.swap_target ≡ job.swap_target
  pub allowance : params.swap_allowance_target ≡ job.swap_proxy
  pub route : params.swap_data ≡ job.swap_data
  pub loan : params.flash_asset ≡ job.debt_asset
  pub least : params.min_amt_out ≡ job.min_amt_out

params_for-IsParams :
    (job : LiquidationJob) (p : Protocol) → job.protocol ≡ p → IsParams job (params_for p job)
unfolding params_for
params_for-IsParams job aave e = record {
  position = inl (e, refl, refl, refl, refl);
  borrower = refl;
  market = or_zero-IsOrZero job.market_id;
  repaid = or_zero-IsOrZero job.repaid_shares;
  seized = or_zero-IsOrZero job.seized_assets;
  no_compound = (refl, refl, refl, refl);
  target = refl;
  allowance = refl;
  route = refl;
  loan = refl;
  least = refl;
}
params_for-IsParams job morpho e = record {
  position = inr (e, refl, refl, refl, refl);
  borrower = refl;
  market = or_zero-IsOrZero job.market_id;
  repaid = or_zero-IsOrZero job.repaid_shares;
  seized = or_zero-IsOrZero job.seized_assets;
  no_compound = (refl, refl, refl, refl);
  target = refl;
  allowance = refl;
  route = refl;
  loan = refl;
  least = refl;
}

pub to_params-IsParams : (job : LiquidationJob) → IsParams job (to_params job)
unfolding to_params
to_params-IsParams job = params_for-IsParams job job.protocol refl
