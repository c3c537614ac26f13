-- ===== src/Readers/Aave.antt =====
-- src/adapters/aave_protocol_adapter.rs: an Aave account becomes a profile, or is skipped. The two
-- helpers about debts are those of src/common/mod.rs and src/config.rs.
pub mod Built
pub mod Sound
pub mod Scan
pub mod Agreement
use liq_ranger.Base.{
  ℕ, ◌^◌, Bool, true, false, ltb, ◌==◌, ◌&&◌, if◌then◌else◌, not, Option, none, some, List, [], ◌∷◌,
  map, ok, err, ◌>>=◌, ◌>>◌, guard, to_option,
}
use liq_ranger.Base.Word.{Checked}
use liq_ranger.Math.Aave.{Reserve, Debt, Power, compute_debt_to_cover, select_collateral_candidate}
use liq_ranger.Core.Identity.{
  HexCodec, Text, Address, TrackerIdentity, aave_v3, from_str, to_string_id,
}
use liq_ranger.Core.Types.{BorrowerProfile, aave}
use liq_ranger.Readers.Outcome.{Eval, ask, to_eval, skipped, panicked}
use liq_ranger.Watchlists.Cache.{lookup, insert, has}

-- One row of the answer of `get_user_reserves_data`.
pub record UserReserve : Type 0 where
  pub underlying_asset : Address
  pub scaled_a_token_balance : ℕ
  pub usage_as_collateral_enabled_on_user : Bool
  pub scaled_variable_debt : ℕ

-- The answers of the pool, the oracle, the data provider and the tokens during one evaluation; `none`
-- is a failed call. `a_token` is `resolve_atoken`, and `decimals` is `get_token_decimals`.
pub record Account : Type 0 where
  pub health_factor : Address → Option ℕ
  pub user_reserves : Address → Option (List UserReserve)
  pub balance_of : (token owner : Address) → Option ℕ
  pub configuration : Address → Option ℕ
  pub a_token : Address → Option Address
  pub price : Address → Option ℕ
  pub decimals : Address → Option ℕ

-- `vdebt_tokens` of the configuration.
abbrev pub Tokens : Type 0
Tokens = List (ℕ × Address)

abbrev pub then_ask : {A B : Type 0} → Option A → (A → Option B) → Option B
then_ask none rest = none
then_ask (some a) rest = rest a

-- `populate_vdebt_tokens`, with the answers of `get_reserve_data`.
abbrev pub vdebt_mapping : (Address → Option Address) → List Address → Tokens → Option Tokens
vdebt_mapping variable_debt_token [] mapping = some mapping
vdebt_mapping variable_debt_token (reserve ∷ rest) mapping =
    then_ask (variable_debt_token reserve)
      λ t. vdebt_mapping variable_debt_token rest (insert reserve t mapping)

abbrev pub populate_vdebt_tokens : (Address → Option Address) → List Address → Option Tokens
populate_vdebt_tokens variable_debt_token reserves = vdebt_mapping variable_debt_token reserves []

abbrev pub is_collateral : UserReserve → Bool
is_collateral r = r.usage_as_collateral_enabled_on_user && not (r.scaled_a_token_balance == 0)

abbrev pub collateral_positions : List UserReserve → List UserReserve
collateral_positions [] = []
collateral_positions (r ∷ rs) =
    if is_collateral r then r ∷ collateral_positions rs else collateral_positions rs

abbrev pub none_left : List UserReserve → Bool
none_left [] = true
none_left (r ∷ rs) = false

-- `HashSet::from_iter`: each borrower once.
abbrev pub unique_addresses : List Address → List Address
unique_addresses [] = []
unique_addresses (b ∷ bs) = if has bs b then unique_addresses bs else b ∷ unique_addresses bs

abbrev pub add_borrower : Option TrackerIdentity → List Address → List Address
add_borrower (some (aave_v3 borrower reserve)) bs = borrower ∷ bs
add_borrower _ bs = bs

module _ (account : Account) (vdebt_tokens : Tokens) where
  open account use {user_reserves, balance_of}

  -- `has_outstanding_debt`; `none` is an error.
  unfoldable pub has_outstanding_debt : (borrower reserve : Address) → Option Bool
  has_outstanding_debt borrower reserve =
      then_ask (lookup reserve vdebt_tokens)
        λ vdebt. then_ask (balance_of vdebt borrower) λ debt. some (not (debt == 0))

  -- A reserve whose check fails, or says no, is passed over.
  abbrev take_if : Option Bool → Address → Option Address → Option Address
  take_if (some true) reserve rest = some reserve
  take_if (some false) reserve rest = rest
  take_if none reserve rest = rest

  unfoldable pub found_debt : Address → List UserReserve → Option Address
  unfolding has_outstanding_debt
  found_debt borrower [] = none
  found_debt borrower (r ∷ rs) =
      let rest = found_debt borrower rs in
      if r.scaled_variable_debt == 0
      then rest
      else take_if (has_outstanding_debt borrower r.underlying_asset) r.underlying_asset rest

  unfoldable pub debt_reserve : Address → Option Address → List UserReserve → Option Address
  unfolding found_debt
  debt_reserve borrower (some target) reserves = some target
  debt_reserve borrower none reserves = found_debt borrower reserves

module _ (account : Account) (borrower : Address) where
  open account use {configuration, balance_of, a_token, price, decimals}

  -- What the choice of the collateral asks about a reserve, and about the debt.
  abbrev pub reserve_of : UserReserve → Reserve
  reserve_of r = record {
    asset = r.underlying_asset;
    config = configuration r.underlying_asset;
    balance = then_ask (a_token r.underlying_asset) λ token. balance_of token borrower;
    price = price r.underlying_asset;
    decimals = decimals r.underlying_asset;
  }

  abbrev pub debt_of : Address → ℕ → Debt
  debt_of reserve debt_to_cover = record {
    debt_to_cover = debt_to_cover;
    price = price reserve;
    decimals = decimals reserve;
  }

module _ (hex : HexCodec) (power : Power) (account : Account) (vdebt_tokens : Tokens) where
  open account use {health_factor, user_reserves, balance_of, decimals}

  -- From the debt token to the profile.
  unfoldable pub build_profile : Address → ℕ → List UserReserve → Address → Eval BorrowerProfile
  build_profile borrower hf collaterals reserve = do
    v_debt ← ask (lookup reserve vdebt_tokens)
    debt_to_cover ← to_eval (compute_debt_to_cover (balance_of v_debt borrower) hf)
    guard (not (debt_to_cover == 0)) skipped
    chosen ← to_eval (
        select_collateral_candidate power (debt_of account borrower reserve debt_to_cover)
          (map (reserve_of account borrower) collaterals))
    src_decimals ← ask (decimals chosen.asset)
    dest_decimals ← ask (decimals reserve)
    ok (record {
      address = borrower;
      repaid_shares = none;
      seized_assets = none;
      market_id = none;
      debt_asset = reserve;
      debt_to_cover = debt_to_cover;
      collateral_asset = chosen.asset;
      seize_amount = chosen.seize_amount;
      src_decimals = src_decimals;
      dest_decimals = dest_decimals;
      protocol = aave;
      identity = to_string_id hex (aave_v3 borrower reserve);
    })

  unfoldable pub evaluate_borrower : Address → Option Address → Eval BorrowerProfile
  unfolding build_profile debt_reserve
  evaluate_borrower borrower target = do
    hf ← ask (health_factor borrower)
    guard (ltb hf (10 ^ 18)) skipped
    reserves ← ask (user_reserves borrower)
    guard (not (none_left (collateral_positions reserves))) skipped
    reserve ← ask (debt_reserve account vdebt_tokens borrower target reserves)
    build_profile borrower hf (collateral_positions reserves) reserve

  -- The borrowers of the identities that are Aave's.
  abbrev pub borrowers_of : List Text → List Address
  borrowers_of [] = []
  borrowers_of (t ∷ ts) = add_borrower (to_option (from_str hex t)) (borrowers_of ts)

  -- A borrower that is skipped leaves no profile, and a panic ends the scan.
  collect : Eval BorrowerProfile → Checked (List BorrowerProfile) → Checked (List BorrowerProfile)
  collect (ok profile) rest = do ok (profile ∷ (← rest))
  collect (err skipped) rest = rest
  collect (err (panicked e)) rest = err e

  unfoldable pub evaluate_borrowers : List Address → Checked (List BorrowerProfile)
  unfolding collect evaluate_borrower
  evaluate_borrowers [] = ok []
  evaluate_borrowers (b ∷ bs) = collect (evaluate_borrower b none) (evaluate_borrowers bs)

  -- The profiles of one scan. The source leaves their order open: it is the one of completion.
  unfoldable pub fetch_liquidation_candidates : List Text → Checked (List BorrowerProfile)
  unfolding evaluate_borrowers
  fetch_liquidation_candidates tracked =
      evaluate_borrowers (unique_addresses (borrowers_of tracked))

  -- The error branches of a refresh.
  refresh_parsed : Option TrackerIdentity → Eval BorrowerProfile
  unfolding evaluate_borrower
  refresh_parsed (some (aave_v3 borrower reserve)) = evaluate_borrower borrower (some reserve)
  refresh_parsed _ = err skipped

  unfoldable pub refresh_borrower : Text → Eval BorrowerProfile
  unfolding refresh_parsed
  refresh_borrower identity = refresh_parsed (to_option (from_str hex identity))
