-- ===== src/Examples/Updates.antt =====
-- The updaters on a list with two entries of one borrower.
use liq_ranger.Base.{◌≡◌, refl, not, ◌&&◌, if◌then◌else◌, ◌==◌, some, List, [], ◌∷◌, arith, ◌||◌}
use liq_ranger.Watchlists.Tracked.{WatchList, contains, track}
use liq_ranger.Watchlists.Tracked.Keyed.{IsTidy}
use liq_ranger.Watchlists.Cache.{lookup}
use liq_ranger.Watchlists.Aave.Listing.{stands_for}
use liq_ranger.Updaters.Outcome.{prune, Turn, list_of}
use liq_ranger.Updaters.Morpho.{Positions, Event, command, borrow, repay, shutdown, silent, start}
use liq_ranger.Updaters.Morpho.Runs.{IsServed, start-IsServed}
use liq_ranger.Updaters.Aave.{prune_watchlist, handle_event, liquidation_call}
use liq_ranger.Updaters.Aave
use liq_ranger.Updaters.Aave.Runs.{any_borrow, contains-start}
use liq_ranger.Updaters.Aave.Effect.{is_free, contains-prune_watchlist_entry}
use liq_ranger.Examples.{short_hex, memory}
use liq_ranger.Examples.Accounts.{account, vdebt_tokens}
use liq_ranger.Readers.Aave.{has_outstanding_debt}
use liq_ranger.Watchlists.Aave.{add}
use liq_ranger.Core.Identity.{from_str, to_string_id}

abbrev list : WatchList memory
list = record { db = ((9, 1 ∷ 2 ∷ []) ∷ [], (refl, tt)); cache = (9, 1 ∷ 2 ∷ []) ∷ [] }

list-IsTidy : IsTidy memory list
list-IsTidy = ((refl, tt), (λ k. ground arith))

-- Only the position of borrower 9 in market 1 has a debt.
abbrev positions : Positions
positions m b = some (record { borrow_shares = if m == 1 then 10 else 0; collateral = 5 })

abbrev events : List Event
events = borrow 4 1 ∷ repay 9 1 positions ∷ command prune positions ∷ shutdown ∷ silent ∷ []

start-IsServed_example :
    IsServed short_hex memory
      (1 ∷ 2 ∷ [])
      events
      (contains memory list)
      (start short_hex memory (1 ∷ 2 ∷ []) list events)
start-IsServed_example = start-IsServed short_hex memory (1 ∷ 2 ∷ []) events list list-IsTidy

contains-prune_watchlist_entry_example :
    contains memory (prune_watchlist short_hex memory vdebt_tokens account list) 9 2 ≡ (
      not (stands_for (lookup 9 list.cache) 2 && is_free vdebt_tokens account 9 2)
      && contains memory list 9 2)
contains-prune_watchlist_entry_example =
    contains-prune_watchlist_entry short_hex memory vdebt_tokens account list 9 2 list-IsTidy

-- A borrow, a repayment that leaves a debt, and a failure of the stream.
abbrev pool_events : List Aave.Event
pool_events =
    Aave.pool_event (Aave.borrow 4 1) account
    ∷ Aave.pool_event (Aave.repay 9 1) account
    ∷ Aave.stream_failed
    ∷ []

abbrev served : Turn memory
served = Aave.start short_hex memory vdebt_tokens (1 ∷ []) list pool_events

contains-start_example :
    contains memory (list_of memory served) 9 1
    ≡ (any_borrow vdebt_tokens (1 ∷ []) 9 1 pool_events || contains memory list 9 1)
unfolding Aave.start has_outstanding_debt add from_str to_string_id track
contains-start_example =
    contains-start vdebt_tokens (1 ∷ []) 9 1 short_hex memory pool_events list
      (list_of memory served) list-IsTidy (refl, (refl, (tt, tt))) refl
