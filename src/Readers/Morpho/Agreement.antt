-- ===== src/Readers/Morpho/Agreement.antt =====
-- src/adapters/morpho_protocol_adapter.rs: a scan, and a refresh of what it reported.
use liq_ranger.Base.{ℕ, some, ◌≡◌, ok, ap, ◌∙◌, arith, ◌==◌, Option-cases, inl, inr, false}
use liq_ranger.Core.Identity.{HexCodec, Text, Address, Hash, morpho_blue, from_str}
use liq_ranger.Core.Types.{BorrowerProfile, Position}
use liq_ranger.Readers.Morpho.{
  Chain, evaluate, evaluate_parsed, evaluate_target, refresh_parsed, refresh_borrower,
}
use liq_ranger.Readers.Morpho.Sound.{evaluate_target-IsLiquidatable}

module _ (hex : HexCodec) (chain : Chain) (scale : ℕ) where
  open chain use {position, market, id_to_market_params}

  -- A profile needs shares of debt.
  has_shares :
      (identity : Text) (market_id : Hash) (borrower : Address) (pos : Position)
      (profile : BorrowerProfile)
      → position market_id borrower ≡ some pos
      → evaluate hex chain scale identity market_id borrower ≡ ok profile
      → (pos.borrow_shares == 0) ≡ false
  unfolding evaluate
  has_shares identity market_id borrower pos profile q e = elim (Option-cases (market market_id)) [
    | inl n ↦ absurd (ground arith)
    | inr (st, a) ↦ elim (Option-cases (id_to_market_params market_id)) [
      | inl n ↦ absurd (ground arith)
      | inr (ps, b) ↦ ground arith
    ]
  ]

  evaluated :
      (identity : Text) (market_id : Hash) (borrower : Address) (profile : BorrowerProfile)
      → from_str hex identity ≡ ok (morpho_blue market_id borrower)
      → evaluate_target hex chain scale identity ≡ ok profile
      → evaluate hex chain scale identity market_id borrower ≡ ok profile
  unfolding evaluate_target evaluate_parsed
  evaluated identity market_id borrower profile q e = rw q at e

  refreshed :
      (identity : Text) (market_id : Hash) (borrower : Address) (pos : Position)
      (profile : BorrowerProfile)
      → from_str hex identity ≡ ok (morpho_blue market_id borrower)
      → position market_id borrower ≡ some pos
      → evaluate_target hex chain scale identity ≡ ok profile
      → refresh_borrower hex chain scale identity ≡ ok profile
  unfolding refresh_borrower refresh_parsed
  refreshed identity market_id borrower pos profile q h e =
      rw
        (
          q,
          h,
          has_shares identity market_id borrower pos profile h
              (evaluated identity market_id borrower profile q e),
        )
        e

  -- The identity of a profile that a scan reports refreshes, on the same answers, to that profile.
  pub refresh_borrower-evaluated :
      (identity : Text) (profile : BorrowerProfile)
      → evaluate_target hex chain scale identity ≡ ok profile
      → refresh_borrower hex chain scale profile.identity ≡ ok profile
  refresh_borrower-evaluated identity profile e =
      let l = evaluate_target-IsLiquidatable hex chain scale identity profile e in
      ap (refresh_borrower hex chain scale) l.identity_kept
      ∙ refreshed identity l.market_id profile.address l.pos profile l.parsed l.held e
