-- ===== src/Services/Pipeline/Revalidation.antt =====
-- src/core/services/liquidation_engine.rs: which fields a re-validation replaces.
use liq_ranger.Base.{Option-cases, inl, inr, ◌≡◌, some, ◌∷◌, arith}
use liq_ranger.Core.Types.{LiquidationJob, BorrowerProfile, MarketQuote}
use liq_ranger.Services.Pipeline.{
  Ports, quoted, simulated, State, TxPayload, try_revalidate_and_simulate, update_job,
}

module _ {W : Type 0} (ports : Ports W) where
  -- A re-validated job has the refreshed amount to seize and the route quoted for the refreshed pair
  -- of assets, and was simulated just so, while its own pair of assets is that of the old job.
  pub try_revalidate_and_simulate_lem :
      (refreshed : BorrowerProfile) (job : LiquidationJob) (s t : State W) (tx : TxPayload)
      → try_revalidate_and_simulate ports refreshed job s ≡ (some tx, t)
      → (q : MarketQuote) × (t.trace
          ≡ simulated 0 tx.job (some tx.gas_used)
            ∷ quoted refreshed.collateral_asset refreshed.debt_asset refreshed.seize_amount (some q)
            ∷ s.trace)
        × (tx.job.swap_data ≡ q.swap_data)
        × (tx.job.seize_amount ≡ refreshed.seize_amount)
        × (tx.job.collateral_asset ≡ job.collateral_asset)
        × (tx.job.debt_asset ≡ job.debt_asset)
  unfolding try_revalidate_and_simulate update_job
  try_revalidate_and_simulate_lem p job s t tx e =
      elim (Option-cases
        (ports.get_swap_quote s.world p.collateral_asset p.debt_asset p.src_decimals p.dest_decimals
          p.seize_amount).0) [
            | inl n ↦ absurd (ground arith)
            | inr (q, a) ↦ (q, ground arith, ground arith, ground arith, ground arith, ground arith)
          ]
