-- ===== src/Readers/Aave/Agreement.antt =====
-- src/adapters/aave_protocol_adapter.rs: a scan, and a refresh of what it reported.
use liq_ranger.Base.{◌≡◌, none, some, ok, ap, refl, ◌∙◌}
use liq_ranger.Math.Aave.{Power}
use liq_ranger.Core.Identity.{HexCodec, Address, aave_v3, to_string_id}
use liq_ranger.Core.Identity.RoundTrip.{from_str-to_string_id}
use liq_ranger.Core.Types.{BorrowerProfile}
use liq_ranger.Readers.Aave.{
  Account, Tokens, evaluate_borrower, refresh_borrower, refresh_parsed, debt_reserve,
}
use liq_ranger.Readers.Aave.Built.{build_profile-IsBuilt}
use liq_ranger.Readers.Aave.Sound.{IsEvaluated, evaluate_borrower-IsEvaluated}

module _ (hex : HexCodec) (power : Power) (account : Account) (vdebt_tokens : Tokens) where
  -- On the same answers, an evaluation with the reserve of the debt that was found is the same.
  with_target :
      (borrower : Address) (profile : BorrowerProfile)
      → (s : IsEvaluated hex power account vdebt_tokens borrower none profile)
      → evaluate_borrower hex power account vdebt_tokens borrower (some s.reserve) ≡ ok profile
  unfolding evaluate_borrower debt_reserve
  with_target borrower profile s = rw (s.health, s.listed, s.unhealthy, s.some_left) (s.built)

  refresh_printed :
      (borrower reserve : Address)
      → refresh_borrower hex power account vdebt_tokens
          (to_string_id hex (aave_v3 borrower reserve))
        ≡ evaluate_borrower hex power account vdebt_tokens borrower (some reserve)
  unfolding refresh_borrower refresh_parsed
  refresh_printed borrower reserve = rw (from_str-to_string_id hex (aave_v3 borrower reserve)) refl

  -- The identity of a profile that a scan reports refreshes, on the same answers, to that profile.
  pub refresh_borrower-scanned :
      (borrower : Address) (profile : BorrowerProfile)
      → evaluate_borrower hex power account vdebt_tokens borrower none ≡ ok profile
      → refresh_borrower hex power account vdebt_tokens profile.identity ≡ ok profile
  refresh_borrower-scanned borrower profile e =
      let s =
        evaluate_borrower-IsEvaluated hex power account vdebt_tokens borrower none profile e in
      let b =
        build_profile-IsBuilt hex power account vdebt_tokens borrower s.hf _ s.reserve profile
          s.built in
      ap (refresh_borrower hex power account vdebt_tokens) b.identity
      ∙ refresh_printed borrower s.reserve
      ∙ with_target borrower profile s
