-- ===== src/Readers/Aave/Sound.antt =====
-- src/adapters/aave_protocol_adapter.rs: a profile, and the account that it stands for.
use liq_ranger.Base.{
  ℕ, ◌^◌, ◌≤◌, ◌<◌, ◌≡◌, inl, inr, true, false, Option, some, List, ok, arith, Option-cases, ltb,
  ◌∙◌,
}
use liq_ranger.Math.Aave.{Power, compute_debt_to_cover}
use liq_ranger.Math.Aave.Choice.{Among, candidate-eq-ok, candidate-asset}
use liq_ranger.Core.Identity.{HexCodec, Address, aave_v3, to_string_id}
use liq_ranger.Core.Types.{BorrowerProfile}
use liq_ranger.Readers.Aave.{
  UserReserve, Account, Tokens, is_collateral, collateral_positions, none_left, debt_reserve,
  reserve_of, debt_of, build_profile, evaluate_borrower,
}
use liq_ranger.Watchlists.Cache.{lookup}
use liq_ranger.Readers.Aave.Built.{Among-collateral, chosen_from, IsBuilt, build_profile-IsBuilt}

-- The answers on which the profile rests.
pub record IsSeizable (hex : HexCodec) (account : Account) (vdebt_tokens : Tokens)
    (profile : BorrowerProfile) : Type 0 where
  pub hf : ℕ
  pub health : account.health_factor profile.address ≡ some hf
  pub unhealthy : hf < 10 ^ 18
  pub reserves : List UserReserve
  pub listed : account.user_reserves profile.address ≡ some reserves
  pub v_debt : Address
  pub mapped : lookup profile.debt_asset vdebt_tokens ≡ some v_debt
  pub debt :
      compute_debt_to_cover (account.balance_of v_debt profile.address) hf
      ≡ ok profile.debt_to_cover
  pub debt_positive : 0 < profile.debt_to_cover
  pub held : UserReserve
  pub held_listed : Among held reserves
  pub enabled : held.usage_as_collateral_enabled_on_user ≡ true
  pub asset : profile.collateral_asset ≡ held.underlying_asset
  pub balance : ℕ
  pub owned : (reserve_of account profile.address held).balance ≡ some balance
  pub seize_positive : 0 < profile.seize_amount
  pub seize_covered : profile.seize_amount ≤ balance
  pub identity_built :
      profile.identity ≡ to_string_id hex (aave_v3 profile.address profile.debt_asset)

collateral-enabled :
    (r : UserReserve) → is_collateral r ≡ true → r.usage_as_collateral_enabled_on_user ≡ true
collateral-enabled r e = ground arith

module _ (hex : HexCodec) (power : Power) (account : Account) (vdebt_tokens : Tokens) where
  open account use {health_factor, user_reserves, balance_of, decimals}

  built-IsSeizable :
      (borrower : Address) (hf : ℕ) (reserves : List UserReserve) (reserve : Address)
      (profile : BorrowerProfile)
      → health_factor borrower ≡ some hf
      → hf < 10 ^ 18
      → user_reserves borrower ≡ some reserves
      → IsBuilt hex power account vdebt_tokens borrower hf
          (collateral_positions reserves)
          reserve
          profile
      → IsSeizable hex account vdebt_tokens profile
  built-IsSeizable borrower hf reserves reserve profile h u l b =
      let (r, m, q) =
        chosen_from power account borrower (debt_of account borrower reserve profile.debt_to_cover)
          (collateral_positions reserves) b.chosen b.is_chosen in
      let (listed, enabled) = Among-collateral reserves r m in
      let (n, owned, positive, covered, above, below) = candidate-eq-ok power _ _ b.chosen q in
      record {
        hf = hf;
        health = rw b.address h;
        unhealthy = u;
        reserves = reserves;
        listed = rw b.address l;
        v_debt = b.v_debt;
        mapped = rw b.debt_asset b.mapped;
        debt = rw b.address b.debt;
        debt_positive = b.debt_positive;
        held = r;
        held_listed = listed;
        enabled = collateral-enabled r enabled;
        asset = b.asset ∙ candidate-asset power _ _ b.chosen q;
        balance = n;
        owned = rw b.address owned;
        seize_positive = rw b.seize positive;
        seize_covered = rw b.seize covered;
        identity_built = rw (b.address, b.debt_asset) b.identity;
      }

  -- The steps of an evaluation that returns a profile.
  pub record IsEvaluated (borrower : Address) (target : Option Address) (profile : BorrowerProfile)
      : Type 0 where
    pub hf : ℕ
    pub health : health_factor borrower ≡ some hf
    pub unhealthy : ltb hf (10 ^ 18) ≡ true
    pub reserves : List UserReserve
    pub listed : user_reserves borrower ≡ some reserves
    pub some_left : none_left (collateral_positions reserves) ≡ false
    pub reserve : Address
    pub taken : debt_reserve account vdebt_tokens borrower target reserves ≡ some reserve
    pub built :
        build_profile hex power account vdebt_tokens borrower hf
          (collateral_positions reserves)
          reserve
        ≡ ok profile

  pub evaluate_borrower-IsEvaluated :
      (borrower : Address) (target : Option Address) (profile : BorrowerProfile)
      → evaluate_borrower hex power account vdebt_tokens borrower target ≡ ok profile
      → IsEvaluated borrower target profile
  unfolding evaluate_borrower
  evaluate_borrower-IsEvaluated borrower target profile e =
      elim (Option-cases (health_factor borrower)) [
        | inl n ↦ absurd (ground arith)
        | inr (hf, h) ↦ elim (Option-cases (user_reserves borrower)) [
          | inl n ↦ absurd (ground arith)
          | inr (rs, l) ↦
              elim (Option-cases (debt_reserve account vdebt_tokens borrower target rs)) [
                | inl n ↦ absurd (ground arith)
                | inr (r, t) ↦ record {
                  hf = hf;
                  health = h;
                  unhealthy = ground arith;
                  reserves = rs;
                  listed = l;
                  some_left = ground arith;
                  reserve = r;
                  taken = t;
                  built = ground arith;
                }
              ]
        ]
      ]

  -- A profile stands for an account whose health factor is below one: its debt to cover is what the
  -- close factor makes of the balance of the debt token and is positive, and its collateral is that of
  -- an enabled position of the account, of which it seizes something and no more than the balance.
  pub evaluate_borrower-IsSeizable :
      (borrower : Address) (target : Option Address) (profile : BorrowerProfile)
      → evaluate_borrower hex power account vdebt_tokens borrower target ≡ ok profile
      → IsSeizable hex account vdebt_tokens profile
  evaluate_borrower-IsSeizable borrower target profile e =
      let s = evaluate_borrower-IsEvaluated borrower target profile e in
      built-IsSeizable borrower s.hf s.reserves s.reserve profile s.health
        (let u = s.unhealthy in ground arith) s.listed
        (build_profile-IsBuilt hex power account vdebt_tokens borrower s.hf
          (collateral_positions s.reserves) s.reserve profile s.built)
