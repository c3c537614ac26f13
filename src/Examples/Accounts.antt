-- ===== src/Examples/Accounts.antt =====
-- The Aave reader on a chain with one account, and refreshes of what the readers report.
use liq_ranger.Base.{
  ◌*◌, ◌^◌, ◌≡◌, refl, if◌then◌else◌, ◌==◌, true, false, some, none, List, [], ◌∷◌, All, map, ok,
}
use liq_ranger.Math.Aave.{
  compute_debt_to_cover, apply_close_factor, close_factor_bps, select_collateral_candidate,
  sorted_candidates, candidate, liquidation_bonus_bps, estimate_seizable_collateral,
  estimate_seizable_collateral_amount,
}
use liq_ranger.Core.Identity.{Text, morpho_blue, aave_v3, to_string_id, from_str, split}
use liq_ranger.Core.Types.{BorrowerProfile, aave}
use liq_ranger.Readers.Aave.{
  UserReserve, Account, Tokens, has_outstanding_debt, found_debt, debt_reserve, build_profile,
  evaluate_borrower, evaluate_borrowers, fetch_liquidation_candidates, refresh_borrower,
}
use liq_ranger.Readers.Aave.Sound.{IsSeizable, evaluate_borrower-IsSeizable}
use liq_ranger.Readers.Aave.Scan.{IsReported, AllDifferent, fetch-IsReported}
use liq_ranger.Readers.Aave.Agreement.{refresh_borrower-scanned}
use liq_ranger.Examples.{short_hex}
use liq_ranger.Examples.Numbers.{powers}

abbrev collateral_row : UserReserve
collateral_row = record {
  underlying_asset = 2;
  scaled_a_token_balance = 90;
  usage_as_collateral_enabled_on_user = true;
  scaled_variable_debt = 0;
}

abbrev debt_row : UserReserve
debt_row = record {
  underlying_asset = 1;
  scaled_a_token_balance = 0;
  usage_as_collateral_enabled_on_user = false;
  scaled_variable_debt = 5;
}

-- Borrower 9 owes 50 of reserve 1 and holds 100 of reserve 2.
abbrev pub account : Account
account = record {
  health_factor = λ b. if b == 9 then some (9 * 10 ^ 17) else none;
  user_reserves = λ b. some (collateral_row ∷ debt_row ∷ []);
  balance_of = λ token owner. if token == 11 then some 50 else some 100;
  configuration = λ asset. some (10_500 * 2 ^ 32);
  a_token = λ asset. some 12;
  price = λ asset. some (10 ^ 8);
  decimals = λ asset. some 6;
}

abbrev pub vdebt_tokens : Tokens
vdebt_tokens = (1, 11) ∷ []

abbrev profile : BorrowerProfile
profile = record {
  address = 9;
  repaid_shares = none;
  seized_assets = none;
  market_id = none;
  debt_asset = 1;
  debt_to_cover = 50;
  collateral_asset = 2;
  seize_amount = 52;
  src_decimals = 6;
  dest_decimals = 6;
  protocol = aave;
  identity = to_string_id short_hex (aave_v3 9 1);
}

evaluate_at : evaluate_borrower short_hex powers account vdebt_tokens 9 none ≡ ok profile
unfolding evaluate_borrower build_profile debt_reserve found_debt has_outstanding_debt
    compute_debt_to_cover apply_close_factor close_factor_bps select_collateral_candidate
    sorted_candidates candidate liquidation_bonus_bps estimate_seizable_collateral
    estimate_seizable_collateral_amount
evaluate_at = refl

evaluate_borrower-IsSeizable_example : IsSeizable short_hex account vdebt_tokens profile
evaluate_borrower-IsSeizable_example =
    evaluate_borrower-IsSeizable short_hex powers account vdebt_tokens 9 none profile evaluate_at

refresh_borrower-scanned_example :
    refresh_borrower short_hex powers account vdebt_tokens (to_string_id short_hex (aave_v3 9 1))
    ≡ ok profile
refresh_borrower-scanned_example =
    refresh_borrower-scanned short_hex powers account vdebt_tokens 9 profile evaluate_at

-- Two entries of borrower 9, one of a borrower whose calls fail, and one of Morpho.
abbrev tracked : List Text
tracked =
    to_string_id short_hex (aave_v3 9 1)
    ∷ to_string_id short_hex (aave_v3 9 2)
    ∷ to_string_id short_hex (aave_v3 4 1)
    ∷ to_string_id short_hex (morpho_blue 7 9)
    ∷ []

scan_at :
    fetch_liquidation_candidates short_hex powers account vdebt_tokens tracked ≡ ok (profile ∷ [])
unfolding fetch_liquidation_candidates evaluate_borrowers evaluate_borrower build_profile
    debt_reserve found_debt has_outstanding_debt compute_debt_to_cover apply_close_factor
    close_factor_bps select_collateral_candidate sorted_candidates candidate liquidation_bonus_bps
    estimate_seizable_collateral estimate_seizable_collateral_amount to_string_id from_str split
scan_at = refl

fetch-IsReported_example :
    All (IsReported short_hex powers account vdebt_tokens tracked) (profile ∷ [])
    × AllDifferent (map (λ p. p.address) (profile ∷ []))
fetch-IsReported_example =
    fetch-IsReported short_hex powers account vdebt_tokens tracked (profile ∷ []) scan_at
