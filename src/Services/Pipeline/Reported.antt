-- ===== src/Services/Pipeline/Reported.antt =====
-- src/core/services/liquidation_engine.rs with the reader of
-- src/adapters/morpho_protocol_adapter.rs: what becomes of a position that a scan found.
use liq_ranger.Base.{ℕ, ◌≤◌, ◌≡◌, some, [], ◌∷◌, ok, ap, ◌∙◌, to_option, refl}
use liq_ranger.Core.Identity.{HexCodec, Text}
use liq_ranger.Core.Types.{BorrowerProfile, MarketQuote}
use liq_ranger.Readers.Morpho.{Chain, evaluate_target, refresh_borrower}
use liq_ranger.Readers.Morpho.Sound.{evaluate_target-IsLiquidatable}
use liq_ranger.Readers.Morpho.Agreement.{refresh_borrower-evaluated}
use liq_ranger.Services.Pipeline.{
  Ports, quoted, simulated, refreshed, broadcast, process_payload, build_liquidation_job,
}
use liq_ranger.Services.Pipeline.Progress.{process_payload_broadcasts}

module _ {W : Type 0} (hex : HexCodec) (scale : ℕ) (view : W → Chain) where
  -- The ports of a payload whose reader is that of Morpho, which asks the chain as the world shows it.
  abbrev pub with_reader : Ports W → Ports W
  with_reader ports = record ports {
    refresh_borrower = λ w t. (to_option (refresh_borrower hex (view w) scale t), w);
  }

  refreshes :
      (ports : Ports W) (w w₂ : W) (identity : Text) (profile : BorrowerProfile)
      → evaluate_target hex (view w) scale identity ≡ ok profile
      → view w₂ ≡ view w
      → (with_reader ports).refresh_borrower w₂ profile.identity ≡ (some profile, w₂)
  refreshes ports w w₂ identity profile e same =
      ap (λ c. (to_option (refresh_borrower hex c scale profile.identity), w₂)) same
      ∙ ap (λ r. (to_option r, w₂))
          (refresh_borrower-evaluated hex (view w) scale identity profile e)

  -- A profile that the reader of Morpho has found is broadcast, with the job built from it and the
  -- simulated gas, if the quote covers its debt, the simulation passes, and the chain answers afterwards
  -- as it did when the profile was found.
  pub process_payload-found :
      (ports : Ports W) (identity : Text) (profile : BorrowerProfile) (block_number : ℕ)
      (w w₁ w₂ : W) (q : MarketQuote) (gas : ℕ)
      → evaluate_target hex (view w) scale identity ≡ ok profile
      → ports.get_swap_quote w profile.collateral_asset profile.debt_asset profile.src_decimals
          profile.dest_decimals profile.seize_amount
        ≡ (some q, w₁)
      → profile.debt_to_cover ≤ q.min_amt_out
      → let job = build_liquidation_job profile q in
        ports.simulate_liquidation w₁ block_number job ≡ (some gas, w₂)
        → view w₂ ≡ view w
        → (process_payload
            (with_reader ports)
            (record { profile = profile; block_number = block_number })
            (record { world = w; trace = [] })).1.trace
          ≡ broadcast job gas (ports.execute_liquidation w₂ job gas).0
            ∷ refreshed profile.identity (some profile)
            ∷ simulated block_number job (some gas)
            ∷ quoted profile.collateral_asset profile.debt_asset profile.seize_amount (some q)
            ∷ []
  process_payload-found ports identity profile block_number w w₁ w₂ q gas e quote covers passes
        same =
      let found = evaluate_target-IsLiquidatable hex (view w) scale identity profile e in
      process_payload_broadcasts (with_reader ports)
        (record { profile = profile; block_number = block_number }) w w₁ w₂ w₂ q gas profile
        found.seize_positive found.debt_positive quote covers passes
        (refreshes ports w w₂ identity profile e same) refl refl
