-- ===== src/Examples/Services.antt =====
-- The engine, the scanner and the pruner on concrete events.
use liq_ranger.Base.{false, ℕ, ◌+◌, ◌≡◌, refl, some, none, [], ◌∷◌}
use liq_ranger.Core.Types.{BorrowerProfile, MarketQuote, LiquidationJob, aave}
use liq_ranger.Services.Pipeline.{
  Ports, State, TxPayload, LiqPayload, quoted, simulated, process_payload,
  try_revalidate_and_simulate, update_job,
}
use liq_ranger.Services.Pipeline.Safety.{IsSafe, process_payload-IsSafe}
use liq_ranger.Services.Pipeline.Revalidation.{try_revalidate_and_simulate_lem}
use liq_ranger.Services.Scanner.{block, task_done, shutdown, lagged, Scanner, new, run}
use liq_ranger.Services.Scanner.Cadence.{Inv, run-new-Inv}

abbrev profile : BorrowerProfile
profile = record {
  address = 9;
  repaid_shares = none;
  seized_assets = none;
  market_id = none;
  debt_asset = 1;
  debt_to_cover = 50;
  collateral_asset = 2;
  seize_amount = 52;
  src_decimals = 18;
  dest_decimals = 6;
  protocol = aave;
  identity = [];
}

abbrev pub quote : ℕ → MarketQuote
quote out = record {
  swap_target = 3;
  token_transfer_proxy = 4;
  swap_data = 5 ∷ [];
  min_amt_out = out;
}

-- The world counts the calls; the quote is the given one, and the rest succeeds.
abbrev pub ports : ℕ → BorrowerProfile → Ports ℕ
ports out again = record {
  get_swap_quote = λ w s d sd dd n. (some (quote out), w + 1);
  simulate_liquidation = λ w b j. (some 21_000, w + 1);
  refresh_borrower = λ w t. (some again, w + 1);
  execute_liquidation = λ w j g. (some 77, w + 1);
}

abbrev payload : LiqPayload
payload = record { profile = profile; block_number = 12 }

process_payload-IsSafe_example :
    IsSafe (process_payload (ports 51 profile) payload (record { world = 0; trace = [] })).1.trace
process_payload-IsSafe_example = process_payload-IsSafe (ports 51 profile) payload 0

-- The refreshed profile seizes another asset, 8.
abbrev moved : BorrowerProfile
moved = record profile { collateral_asset = 8; seize_amount = 40 }

abbrev job : LiquidationJob
job = record {
  borrower = 9;
  debt_asset = 1;
  collateral_asset = 2;
  debt_to_cover = 50;
  swap_target = 3;
  swap_proxy = 4;
  swap_data = [];
  repaid_shares = none;
  seized_assets = none;
  market_id = none;
  protocol = aave;
  min_amt_out = 51;
  identity = [];
  seize_amount = 52;
}

abbrev renewed : TxPayload
renewed = record { job = record job { seize_amount = 40; swap_data = 5 ∷ [] }; gas_used = 21_000 }

abbrev after : State ℕ
after = record {
  world = 2;
  trace = simulated 0 renewed.job (some 21_000) ∷ quoted 8 1 40 (some (quote 51)) ∷ [];
}

revalidated :
    try_revalidate_and_simulate (ports 51 moved) moved job (record { world = 0; trace = [] })
    ≡ (some renewed, after)
unfolding try_revalidate_and_simulate update_job
revalidated = refl

try_revalidate_and_simulate_lem_example :
    (q : MarketQuote) × (after.trace
      ≡ simulated 0 renewed.job (some 21_000) ∷ quoted 8 1 40 (some q) ∷ [])
    × (renewed.job.swap_data ≡ q.swap_data)
    × (renewed.job.seize_amount ≡ 40)
    × (renewed.job.collateral_asset ≡ 2)
    × (renewed.job.debt_asset ≡ 1)
try_revalidate_and_simulate_lem_example =
    try_revalidate_and_simulate_lem (ports 51 moved) moved job (record { world = 0; trace = [] })
      after renewed revalidated

run-new-Inv_example :
    Inv (run new (block 10 ∷ block 13 ∷ task_done ∷ lagged (some 20) ∷ shutdown ∷ []))
run-new-Inv_example =
    run-new-Inv (block 10 ∷ block 13 ∷ task_done ∷ lagged (some 20) ∷ shutdown ∷ [])

abbrev idle : Scanner
idle = record { last_processed_block = 10; in_flight = 0; started = 10 ∷ []; stopped = false }
