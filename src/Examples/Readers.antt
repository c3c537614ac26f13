-- ===== src/Examples/Readers.antt =====
-- The Morpho reader on a chain with one position.
use liq_ranger.Base.{
  ℕ, ◌*◌, ◌^◌, ◌≡◌, refl, if◌then◌else◌, ◌==◌, some, none, [], ◌∷◌, All, map, ok, err,
}
use liq_ranger.Base.Word.{Panic}
use liq_ranger.Core.Identity.{Text, morpho_blue, to_string_id, from_str, split}
use liq_ranger.Core.Types.{BorrowerProfile, Position, morpho}
use liq_ranger.Core.Health.{is_healthy}
use liq_ranger.Math.Morpho.{
  to_assets_down, to_assets_up, mul_div_down, mul_div_up, incentive_factor, wmul_down, wdiv_down,
  min, seized_assets_from_repaid_shares,
}
use liq_ranger.Readers.Morpho.{
  Chain, MarketState, MarketParams, evaluate, evaluate_target, fetch_liquidation_candidates,
  evaluate_all, plan, debt_of, required_collateral, repay_mode, choose_mode, panicked,
}
use liq_ranger.Readers.Morpho.Sound.{IsLiquidatable, evaluate_target-IsLiquidatable}
use liq_ranger.Readers.Morpho.Scan.{fetch-Reported, Reported, Distinct}
use liq_ranger.Readers.Morpho.Tracked.{IsTracked, fetch-snapshot-IsTracked}
use liq_ranger.Watchlists.Tracked.{WatchList}
use liq_ranger.Watchlists.Morpho.{snapshot}
use liq_ranger.Readers.Morpho.Panics.{fetch_panics}
use liq_ranger.Examples.{short_hex, memory}

abbrev state : MarketState
state = record { total_borrow_assets = 99; total_borrow_shares = 99_000_000 }

abbrev position : Position
position = record { borrow_shares = 50_000_000; collateral = 57 }

abbrev terms : MarketParams
terms = record { loan_token = 1; collateral_token = 2; oracle = 3; lltv = 86 * 10 ^ 16 }

-- One borrower, 9, in one market, 7, at the given price.
abbrev pub chain : ℕ → Chain
chain quoted = record {
  position = λ m b. if b == 9 then some position else none;
  market = λ m. some state;
  id_to_market_params = λ m. some terms;
  price = λ o. some quoted;
  decimals = λ t. some 18;
}

abbrev pub text : Text
text = to_string_id short_hex (morpho_blue 7 9)

abbrev pub other : Text
other = to_string_id short_hex (morpho_blue 7 4)

-- The collateral covers the debt of 50 with its bonus.
abbrev pub profile : BorrowerProfile
profile = record {
  address = 9;
  repaid_shares = some 50_000_000;
  seized_assets = some 0;
  market_id = some 7;
  debt_asset = 1;
  debt_to_cover = 50;
  collateral_asset = 2;
  seize_amount = 52;
  src_decimals = 18;
  dest_decimals = 18;
  protocol = morpho;
  identity = text;
}

pub evaluate_at : evaluate_target short_hex (chain (10 ^ 36)) (10 ^ 36) text ≡ ok profile
unfolding evaluate_target evaluate to_string_id from_str split plan debt_of choose_mode
    required_collateral repay_mode is_healthy to_assets_down to_assets_up mul_div_down mul_div_up
    incentive_factor wmul_down wdiv_down min seized_assets_from_repaid_shares
evaluate_at = refl

evaluate_target-IsLiquidatable_example :
    IsLiquidatable short_hex (chain (10 ^ 36)) (10 ^ 36) text profile
evaluate_target-IsLiquidatable_example =
    evaluate_target-IsLiquidatable short_hex (chain (10 ^ 36)) (10 ^ 36) text profile evaluate_at

pub scan_at :
    fetch_liquidation_candidates short_hex (chain (10 ^ 36)) (10 ^ 36) (text ∷ other ∷ text ∷ [])
    ≡ ok (profile ∷ [])
unfolding fetch_liquidation_candidates evaluate_all evaluate_target evaluate to_string_id from_str
    split plan debt_of choose_mode required_collateral repay_mode is_healthy to_assets_down
    to_assets_up mul_div_down mul_div_up incentive_factor wmul_down wdiv_down min
    seized_assets_from_repaid_shares
scan_at = refl

fetch-Reported_example :
    All (Reported short_hex (chain (10 ^ 36)) (10 ^ 36) (text ∷ other ∷ text ∷ [])) (profile ∷ [])
    × Distinct (map (λ p. p.identity) (profile ∷ []))
fetch-Reported_example =
    fetch-Reported short_hex (chain (10 ^ 36)) (10 ^ 36) (text ∷ other ∷ text ∷ []) (profile ∷ [])
      scan_at

-- The oracle reports zero.
down_at : to_assets_down 50_000_000 99 99_000_000 ≡ ok 50
unfolding to_assets_down mul_div_down
down_at = refl

up_at : to_assets_up 50_000_000 99 99_000_000 ≡ ok 50
unfolding to_assets_up mul_div_up
up_at = refl

panic_at : evaluate_target short_hex (chain 0) (10 ^ 36) text ≡ err (panicked Panic.div_by_zero)
unfolding evaluate_target evaluate to_string_id from_str split plan debt_of choose_mode
    required_collateral repay_mode is_healthy to_assets_down to_assets_up mul_div_down mul_div_up
    incentive_factor wmul_down wdiv_down min seized_assets_from_repaid_shares
panic_at = refl

fetch_panics_example :
    (f : Panic) × (fetch_liquidation_candidates short_hex (chain 0) (10 ^ 36) (other ∷ text ∷ [])
      ≡ err f)
unfolding to_string_id
fetch_panics_example =
    fetch_panics short_hex (chain 0) (10 ^ 36) (other ∷ text ∷ []) text Panic.div_by_zero refl
      panic_at

-- The list that the reader scans: positions (7, 9) and (7, 4).
abbrev watched : WatchList memory
watched = record {
  db = ((9, 7 ∷ []) ∷ (4, 7 ∷ []) ∷ [], (refl, (refl, tt)));
  cache = (9, 7 ∷ []) ∷ (4, 7 ∷ []) ∷ [];
}

snapshot_at :
    fetch_liquidation_candidates short_hex
      (chain (10 ^ 36))
      (10 ^ 36)
      (snapshot short_hex memory watched)
    ≡ ok (profile ∷ [])
unfolding fetch_liquidation_candidates evaluate_all evaluate_target evaluate to_string_id from_str
    split plan debt_of choose_mode required_collateral repay_mode is_healthy to_assets_down
    to_assets_up mul_div_down mul_div_up incentive_factor wmul_down wdiv_down min
    seized_assets_from_repaid_shares snapshot
snapshot_at = refl

fetch-snapshot-IsTracked_example :
    All (IsTracked short_hex memory (chain (10 ^ 36)) (10 ^ 36) watched) (profile ∷ [])
fetch-snapshot-IsTracked_example =
    fetch-snapshot-IsTracked short_hex memory (chain (10 ^ 36)) (10 ^ 36) watched (profile ∷ [])
      (refl, (refl, tt)) snapshot_at
