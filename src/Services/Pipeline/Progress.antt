-- ===== src/Services/Pipeline/Progress.antt =====
-- src/core/services/liquidation_engine.rs: when a payload is broadcast.
use liq_ranger.Base.{ℕ, ◌≤◌, ◌<◌, ◌≡◌, Option, some, [], ◌∷◌, arith}
use liq_ranger.Core.Types.{BorrowerProfile, MarketQuote}
use liq_ranger.Services.Pipeline.{
  Ports, quoted, simulated, refreshed, broadcast, State, LiqPayload, process_payload,
  validate_profile, fetch_and_validate_quote, build_liquidation_job, simulate_job,
  jit_refresh_guard, execute_liquidation,
}

module _ {W : Type 0} (ports : Ports W) (payload : LiqPayload) where
  open payload use {profile, block_number}

  abbrev quote_at : W → Option MarketQuote × W
  quote_at w =
      ports.get_swap_quote w profile.collateral_asset profile.debt_asset profile.src_decimals
        profile.dest_decimals profile.seize_amount

  abbrev start : W → State W
  start w = record { world = w; trace = [] }

  -- If the profile's amounts are positive, the quote covers the debt, the simulation passes and the refreshed amounts are the same, the
  -- job built from the profile and the quote is broadcast with the simulated gas.
  pub process_payload_broadcasts :
      (w w₁ w₂ w₃ : W) (q : MarketQuote) (gas : ℕ) (again : BorrowerProfile)
      → 0 < profile.seize_amount
      → 0 < profile.debt_to_cover
      → quote_at w ≡ (some q, w₁)
      → profile.debt_to_cover ≤ q.min_amt_out
      → let job = build_liquidation_job profile q in
        ports.simulate_liquidation w₁ block_number job ≡ (some gas, w₂)
        → ports.refresh_borrower w₂ profile.identity ≡ (some again, w₃)
        → again.debt_to_cover ≡ profile.debt_to_cover
        → again.seize_amount ≡ profile.seize_amount
        → (process_payload ports payload (start w)).1.trace
          ≡ broadcast job gas (ports.execute_liquidation w₃ job gas).0
            ∷ refreshed profile.identity (some again)
            ∷ simulated block_number job (some gas)
            ∷ quoted profile.collateral_asset profile.debt_asset profile.seize_amount (some q)
            ∷ []
  unfolding process_payload validate_profile fetch_and_validate_quote simulate_job jit_refresh_guard
      execute_liquidation build_liquidation_job
  process_payload_broadcasts w w₁ w₂ w₃ q gas again s d eq c es er ed ez = ground arith
