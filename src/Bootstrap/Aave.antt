-- ===== src/Bootstrap/Aave.antt =====
-- src/adapters/aave_bootstrap_adapter.rs: what the bootstrap of Aave does with its logs.
pub mod Tracks
pub mod Complete
pub mod Tidy
use liq_ranger.Base.{Bool, if◌then◌else◌, List, [], ◌∷◌, ◌++◌}
use liq_ranger.Core.Identity.{HexCodec, Text, Address, aave_tag, colon}
use liq_ranger.Watchlists.Sled.{Sled}
use liq_ranger.Watchlists.Tracked.{WatchList}
use liq_ranger.Watchlists.Aave.{contains_identity, add}
use liq_ranger.Bootstrap.{Adapter, Node, Progress, Outcome, run}

-- A borrow, repay or liquidate event: its reserve (the debt asset of a liquidation) and its borrower.
pub record Event : Type 0 where
  pub reserve : Address
  pub borrower : Address

pub record Logs : Type 0 where
  pub borrows : List Event
  pub repays : List Event
  pub liqs : List Event

module _ (hex : HexCodec) (whitelisted : Address → Bool) where
  abbrev pub entry : Event → Text
  entry ev =
      aave_tag ++ (colon ∷ (hex.show_address ev.borrower ++ (colon ∷ hex.show_address ev.reserve)))

  abbrev pub entries_from : List Event → List Text
  entries_from [] = []
  entries_from (ev ∷ evs) =
      if whitelisted ev.reserve then entry ev ∷ entries_from evs else entries_from evs

  abbrev pub entries_of : Logs → List Text
  entries_of logs =
      entries_from logs.borrows ++ (entries_from logs.repays ++ entries_from logs.liqs)

  module _ (sled : Sled) where
    unfoldable pub aave_adapter : Adapter Logs (WatchList sled)
    aave_adapter = record {
      batch_size = 1_000;
      deploy_block = 75_000_000;
      entries_of = entries_of;
      contains_identity = contains_identity hex sled;
      add = add hex sled;
    }

    unfoldable pub run_aave : Node Logs → Progress (WatchList sled) → Outcome (WatchList sled)
    unfolding aave_adapter
    run_aave node p = run aave_adapter node p
