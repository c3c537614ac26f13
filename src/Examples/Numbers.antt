-- ===== src/Examples/Numbers.antt =====
-- The arithmetic of src/adapters/helpers at concrete amounts.
use liq_ranger.Base.{
  ℕ, ◌*◌, ◌≤◌, ◌≡◌, refl, ok, some, ◌/◌, ◌^◌, [], ◌∷◌, leb, err, if◌then◌else◌, arith,
}
use liq_ranger.Math.Morpho.{
  mul_div_down, mul_div_up, to_assets_down, to_assets_up, to_shares_down, to_shares_up,
}
use liq_ranger.Math.Morpho.Shares.{to_shares_up-to_assets_up}
use liq_ranger.Math.Aave.{
  liquidation_bonus_bps, estimate_seizable_collateral, Power, estimate_seizable_collateral_amount,
  Reserve, Debt, CollateralCandidate, candidate, select_collateral_candidate,
}
use liq_ranger.Base.Word.{overflow}

-- 5 million shares of a pool with 99 assets and 10 million shares.
down_at_pool : to_assets_down 5_000_000 99 10_000_000 ≡ ok 45
unfolding to_assets_down mul_div_down
down_at_pool = refl

up_at_pool : to_assets_up 5_000_000 99 10_000_000 ≡ ok 46
unfolding to_assets_up mul_div_up
up_at_pool = refl

back_down_at_pool : to_shares_down 45 99 10_000_000 ≡ ok 4_950_000
unfolding to_shares_down mul_div_down
back_down_at_pool = refl

back_up_at_pool : to_shares_up 46 99 10_000_000 ≡ ok 5_060_000
unfolding to_shares_up mul_div_up
back_up_at_pool = refl

to_shares_up-to_assets_up_example : 5_000_000 ≤ 5_060_000
to_shares_up-to_assets_up_example =
    to_shares_up-to_assets_up 5_000_000 99 10_000_000 46 5_060_000 up_at_pool back_up_at_pool

abbrev pub powers : Power
powers = record {
  exp10 = λ n. if leb n 77 then ok (10 ^ n) else err overflow;
  exp10-eq = λ n h. ground arith;
  exp10-panics = λ n h. ground arith;
}

estimate_at_prices :
    estimate_seizable_collateral_amount powers 100_000_000 200_000_000_000 100_000_000 18 6 10_500
    ≡ ok 52_500_000_000_000_000
unfolding estimate_seizable_collateral_amount
estimate_at_prices = refl

abbrev debt : Debt
debt = record { debt_to_cover = 1000; price = some 10; decimals = some 2 }

-- A bonus of 105%.
abbrev reserve : ℕ → ℕ → Reserve
reserve asset balance = record {
  asset = asset;
  config = some (10_500 * 2 ^ 32);
  balance = some balance;
  price = some 20;
  decimals = some 2;
}

abbrev offer : ℕ → ℕ → CollateralCandidate
offer asset seize = record {
  asset = asset;
  liquidation_bonus_bps = 10_500;
  seize_amount = seize;
  usd_value = seize * 20 / 100;
}

select_at :
    select_collateral_candidate powers debt (reserve 1 200 ∷ reserve 2 900 ∷ []) ≡ ok (offer 2 525)
unfolding select_collateral_candidate candidate liquidation_bonus_bps estimate_seizable_collateral
    estimate_seizable_collateral_amount
select_at = refl
