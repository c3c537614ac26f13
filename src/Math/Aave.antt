-- ===== src/Math/Aave.antt =====
-- src/adapters/helpers/aave_math_helpers.rs: how much of a debt is repaid, what it seizes, and which
-- collateral is taken.
pub mod CloseFactor
pub mod Choice
use liq_ranger.Base.{
  ℕ, ◌*◌, ◌/◌, ◌%◌, ◌^◌, ◌≤◌, ◌≡◌, ltb, leb, ◌==◌, ◌&&◌, if◌then◌else◌, Option, none, some, List,
  [], ◌∷◌, Result, ok, err, ◌>>=◌, ◌>>◌, guard, or_fail, map_err, ◌<◌,
}
use liq_ranger.Base.Word.{Panic, Checked, checked_mul, mul, div, overflow}
use liq_ranger.Math.Morpho.{wad}
use liq_ranger.Core.Identity.{Address}

abbrev pub bps : ℕ
bps = 10_000

abbrev pub hf_liquidation_threshold_bps : ℕ
hf_liquidation_threshold_bps = 9_500

-- An error that the function returns, or a panic.
pub data Failure : Type 0 where
  overflow_debt_price overflow_decimals overflow_bonus overflow_price_bps : Failure
  overflow_debt_decimals denominator_zero invalid_bonus call_failed overflow_value : Failure
  no_candidate : Failure
  panicked : Panic → Failure

abbrev pub Fallible : Type 0 → Type 0
Fallible A = Result Failure A

abbrev lift : {A : Type 0} → Checked A → Fallible A
lift c = map_err panicked c

-- `U256::exp10` of the crate: the power, where it fits, and otherwise a panic.
pub record Power : Type 0 where
  pub exp10 : ℕ → Checked ℕ
  pub exp10-eq : (n : ℕ) → n ≤ 77 → exp10 n ≡ ok (10 ^ n)
  pub exp10-panics : (n : ℕ) → 77 < n → exp10 n ≡ err overflow

unfoldable pub close_factor_bps : ℕ → ℕ
close_factor_bps health_factor =
    if ltb health_factor (hf_liquidation_threshold_bps * wad / bps) then bps else bps / 2

unfoldable pub apply_close_factor : ℕ → ℕ → Checked ℕ
unfolding close_factor_bps
apply_close_factor debt health_factor = do
  scaled ← mul debt (close_factor_bps health_factor)
  div scaled bps

-- `compute_debt_to_cover`, of the balance that the token reports
unfoldable pub compute_debt_to_cover : Option ℕ → ℕ → Fallible ℕ
unfolding apply_close_factor
compute_debt_to_cover balance health_factor = do
  debt ← or_fail balance call_failed
  if debt == 0 then ok 0 else lift (apply_close_factor debt health_factor)

-- `liquidation_bonus_bps`: bits 32 to 47 of the reserve's configuration.
unfoldable pub liquidation_bonus_bps : Option ℕ → Fallible ℕ
liquidation_bonus_bps config = do
  data_word ← or_fail config call_failed
  let raw_bonus = data_word / 2 ^ 32 % 2 ^ 16
  guard (leb 10_000 raw_bonus && leb raw_bonus 20_000) invalid_bonus
  ok raw_bonus

pub record CollateralCandidate : Type 0 where
  pub asset : Address
  pub liquidation_bonus_bps : ℕ
  pub seize_amount : ℕ
  pub usd_value : ℕ

-- The answers about one reserve: its configuration, the borrower's balance of its token, its price
-- and its decimals, and the price and the decimals of the debt.
pub record Reserve : Type 0 where
  pub asset : Address
  pub config : Option ℕ
  pub balance : Option ℕ
  pub price : Option ℕ
  pub decimals : Option ℕ

pub record Debt : Type 0 where
  pub debt_to_cover : ℕ
  pub price : Option ℕ
  pub decimals : Option ℕ

module _ (power : Power) where
  open power use {exp10}

  unfoldable pub estimate_seizable_collateral_amount : ℕ → ℕ → ℕ → ℕ → ℕ → ℕ → Fallible ℕ
  estimate_seizable_collateral_amount debt_to_cover collateral_price debt_price coll_decimals
        debt_decimals liquidation_bonus_bps =
      do
        value ← or_fail (checked_mul debt_to_cover debt_price) overflow_debt_price
        coll_scale ← lift (exp10 coll_decimals)
        scaled ← or_fail (checked_mul value coll_scale) overflow_decimals
        numerator ← or_fail (checked_mul scaled liquidation_bonus_bps) overflow_bonus
        unit ← or_fail (checked_mul collateral_price bps) overflow_price_bps
        debt_scale ← lift (exp10 debt_decimals)
        denominator ← or_fail (checked_mul unit debt_scale) overflow_debt_decimals
        if denominator == 0 then err denominator_zero else ok (numerator / denominator)

  unfoldable pub estimate_seizable_collateral : Debt → Reserve → ℕ → Fallible ℕ
  unfolding estimate_seizable_collateral_amount
  estimate_seizable_collateral debt reserve bonus = if debt.debt_to_cover == 0 then ok 0 else do
    collateral_price ← or_fail reserve.price call_failed
    debt_price ← or_fail debt.price call_failed
    coll_decimals ← or_fail reserve.decimals call_failed
    debt_decimals ← or_fail debt.decimals call_failed
    estimate_seizable_collateral_amount debt.debt_to_cover collateral_price debt_price coll_decimals
        debt_decimals bonus

  abbrev pub smaller : ℕ → ℕ → ℕ
  smaller a b = if ltb b a then b else a

  value_candidate : Reserve → ℕ → ℕ → Fallible CollateralCandidate
  value_candidate reserve bonus seize = do
    price ← or_fail reserve.price call_failed
    decimals ← or_fail reserve.decimals call_failed
    worth ← or_fail (checked_mul seize price) overflow_value
    scale ← lift (exp10 decimals)
    usd_value ← lift (div worth scale)
    ok (record {
      asset = reserve.asset;
      liquidation_bonus_bps = bonus;
      seize_amount = seize;
      usd_value = usd_value;
    })

  -- What one reserve offers; `none` if it seizes nothing.
  unfoldable pub candidate : Debt → Reserve → Fallible (Option CollateralCandidate)
  unfolding value_candidate
  candidate debt reserve = do
    bonus ← liquidation_bonus_bps reserve.config
    balance ← or_fail reserve.balance call_failed
    estimate ← estimate_seizable_collateral debt reserve bonus
    let seize = smaller estimate balance
    if seize == 0 then ok none else do c ← value_candidate reserve bonus seize; ok (some c)

  -- `sort_by` on falling value: stable.
  abbrev pub put : CollateralCandidate → List CollateralCandidate → List CollateralCandidate
  put c [] = c ∷ []
  put c (d ∷ ds) = if ltb c.usd_value d.usd_value then d ∷ put c ds else c ∷ d ∷ ds

  keep :
      Fallible (Option CollateralCandidate)
      → Checked (List CollateralCandidate)
      → Checked (List CollateralCandidate)
  keep (ok (some c)) rest = do ok (put c (← rest))
  keep (ok none) rest = rest
  keep (err (panicked e)) rest = err e
  keep (err _) rest = rest

  -- The candidates in the order of their value; a reserve that fails is left out.
  unfoldable pub sorted_candidates : Debt → List Reserve → Checked (List CollateralCandidate)
  unfolding keep
  sorted_candidates debt [] = ok []
  sorted_candidates debt (reserve ∷ rest) =
      keep (candidate debt reserve) (sorted_candidates debt rest)

  first_of : List CollateralCandidate → Fallible CollateralCandidate
  first_of [] = err no_candidate
  first_of (c ∷ cs) = ok c

  unfoldable pub select_collateral_candidate : Debt → List Reserve → Fallible CollateralCandidate
  unfolding first_of sorted_candidates
  select_collateral_candidate debt reserves = lift (sorted_candidates debt reserves) >>= first_of
