-- ===== src/Services/Pipeline.antt =====
-- src/core/services/liquidation_engine.rs: what becomes of one payload. The ports (the exchange,
-- the simulator, the protocol reader and the contract) are parameters with a state of their own;
-- each call of one is recorded, newest first. Log output is left out.
pub mod Safety
pub mod Progress
pub mod Revalidation
pub mod Reported
use liq_ranger.Base.{
  ℕ, Bool, true, false, ◌||◌, not, ltb, ◌==◌, if◌then◌else◌, Option, none, some, List, ◌∷◌,
}
use liq_ranger.Core.Identity.{Text, Address, Hash}
use liq_ranger.Core.Types.{BorrowerProfile, MarketQuote, LiquidationJob}

-- The traits of src/core/ports.rs; `none` is an error.
pub record Ports (W : Type 0) : Type 0 where
  pub get_swap_quote : W → Address → Address → ℕ → ℕ → ℕ → Option MarketQuote × W
  pub simulate_liquidation : W → ℕ → LiquidationJob → Option ℕ × W
  pub refresh_borrower : W → Text → Option BorrowerProfile × W
  pub execute_liquidation : W → LiquidationJob → ℕ → Option Hash × W

pub data Event : Type 0 where
  quoted : (src_token dest_token : Address) (amount : ℕ) → Option MarketQuote → Event
  simulated : (block_number : ℕ) → LiquidationJob → Option ℕ → Event
  refreshed : Text → Option BorrowerProfile → Event
  broadcast : LiquidationJob → (gas : ℕ) → Option Hash → Event

pub record State (W : Type 0) : Type 0 where
  pub world : W
  pub trace : List Event

-- `none` is an early return.
abbrev pub Action : Type 0 → Type 0 → Type 0
Action W A = State W → Option A × State W

infixl 5 ◌>>=◌ ◌>>◌
abbrev pub ◌>>=◌ : {W A B : Type 0} → Action W A → (A → Action W B) → Action W B
◌>>=◌ m f s = let (r, t) = m s in elim r [ none ↦ (none, t) | some a ↦ f a t ]

abbrev pub ◌>>◌ : {W A B : Type 0} → Action W A → Action W B → Action W B
m >> k = m >>= λ _. k

abbrev pub pure : {W A : Type 0} → A → Action W A
pure a s = (some a, s)

abbrev pub continue_if : {W : Type 0} → Bool → Action W (Unit {0})
continue_if true s = (some tt, s)
continue_if false s = (none, s)

pub record TxPayload : Type 0 where
  pub job : LiquidationJob
  pub gas_used : ℕ

-- The reader of a payload is part of the ports.
pub record LiqPayload : Type 0 where
  pub profile : BorrowerProfile
  pub block_number : ℕ

unfoldable pub validate_profile : BorrowerProfile → Bool
validate_profile profile = not (profile.seize_amount == 0 || profile.debt_to_cover == 0)

unfoldable pub build_liquidation_job : BorrowerProfile → MarketQuote → LiquidationJob
build_liquidation_job profile quote = record {
  borrower = profile.address;
  debt_asset = profile.debt_asset;
  collateral_asset = profile.collateral_asset;
  debt_to_cover = profile.debt_to_cover;
  swap_target = quote.swap_target;
  swap_proxy = quote.token_transfer_proxy;
  swap_data = quote.swap_data;
  repaid_shares = profile.repaid_shares;
  seized_assets = profile.seized_assets;
  market_id = profile.market_id;
  protocol = profile.protocol;
  min_amt_out = quote.min_amt_out;
  identity = profile.identity;
  seize_amount = profile.seize_amount;
}

-- The job with the amounts of the refreshed profile and the route of its quote.
unfoldable pub update_job : LiquidationJob → BorrowerProfile → MarketQuote → LiquidationJob
update_job job profile quote = record job {
  debt_to_cover = profile.debt_to_cover;
  seize_amount = profile.seize_amount;
  repaid_shares = profile.repaid_shares;
  seized_assets = profile.seized_assets;
  min_amt_out = quote.min_amt_out;
  swap_target = quote.swap_target;
  swap_proxy = quote.token_transfer_proxy;
  swap_data = quote.swap_data;
}

module _ {W : Type 0} (ports : Ports W) where
  abbrev ask_quote : BorrowerProfile → Action W MarketQuote
  ask_quote p s =
      let (r, w) =
        ports.get_swap_quote s.world p.collateral_asset p.debt_asset p.src_decimals p.dest_decimals
          p.seize_amount in
      (
        r,
        record {
          world = w;
          trace = quoted p.collateral_asset p.debt_asset p.seize_amount r ∷ s.trace;
        },
      )

  abbrev ask_simulation : ℕ → LiquidationJob → Action W ℕ
  ask_simulation block job s =
      let (r, w) = ports.simulate_liquidation s.world block job in
      (r, record { world = w; trace = simulated block job r ∷ s.trace })

  abbrev ask_refresh : Text → Action W BorrowerProfile
  ask_refresh identity s =
      let (r, w) = ports.refresh_borrower s.world identity in
      (r, record { world = w; trace = refreshed identity r ∷ s.trace })

  unfoldable pub fetch_and_validate_quote : BorrowerProfile → Action W MarketQuote
  fetch_and_validate_quote profile = do
    quote ← ask_quote profile
    continue_if (not (ltb quote.min_amt_out profile.debt_to_cover))
    pure quote

  unfoldable pub simulate_job : ℕ → LiquidationJob → Action W ℕ
  simulate_job block_number job = ask_simulation block_number job

  unfoldable pub try_revalidate_and_simulate : BorrowerProfile → LiquidationJob → Action W TxPayload
  try_revalidate_and_simulate profile job = do
    new_quote ← ask_quote profile
    continue_if (not (ltb new_quote.min_amt_out profile.debt_to_cover))
    gas_used ← ask_simulation 0 (update_job job profile new_quote)
    pure (record { job = update_job job profile new_quote; gas_used = gas_used })

  abbrev pub state_changed : BorrowerProfile → LiquidationJob → Bool
  state_changed profile job =
      not (profile.debt_to_cover == job.debt_to_cover)
      || not (profile.seize_amount == job.seize_amount)

  -- The job and gas to broadcast, or an early return.
  unfoldable pub jit_refresh_guard : LiquidationJob → ℕ → Action W TxPayload
  jit_refresh_guard job gas_used = do
    profile ← ask_refresh job.identity
    if state_changed profile job
        then try_revalidate_and_simulate profile job
        else pure (record { job = job; gas_used = gas_used })

  -- A failed broadcast is only logged.
  unfoldable pub execute_liquidation : LiquidationJob → ℕ → Action W (Unit {0})
  execute_liquidation job gas_used s =
      let (r, w) = ports.execute_liquidation s.world job gas_used in
      (some tt, record { world = w; trace = broadcast job gas_used r ∷ s.trace })

  unfoldable pub process_payload : LiqPayload → Action W (Unit {0})
  process_payload payload = do
    continue_if (validate_profile payload.profile)
    quote ← fetch_and_validate_quote payload.profile
    let job = build_liquidation_job payload.profile quote
    gas_used ← simulate_job payload.block_number job
    tx ← jit_refresh_guard job gas_used
    execute_liquidation tx.job tx.gas_used
