-- ===== src/Bootstrap/Morpho.antt =====
-- src/adapters/morpho_bootstrap_adapter.rs: what the bootstrap of Morpho does with its logs.
pub mod Dropped
use liq_ranger.Base.{Bool, if◌then◌else◌, List, [], ◌∷◌, ◌++◌}
use liq_ranger.Core.Identity.{HexCodec, Text, Address, Hash, morpho_tag, colon}
use liq_ranger.Watchlists.Sled.{Sled}
use liq_ranger.Watchlists.Tracked.{WatchList}
use liq_ranger.Watchlists.Morpho.{contains_identity, add}
use liq_ranger.Bootstrap.{Adapter, Node, Progress, Outcome, run}

-- A borrow, repay or liquidate event: its market and its borrower.
pub record Event : Type 0 where
  pub id : Hash
  pub borrower : Address

pub record Logs : Type 0 where
  pub borrows : List Event
  pub repays : List Event
  pub liqs : List Event

module _ (hex : HexCodec) (whitelisted : Hash → Bool) where
  abbrev pub entry : Event → Text
  entry ev = morpho_tag ++ (colon ∷ (hex.show_address ev.borrower ++ (colon ∷ hex.show_hash ev.id)))

  abbrev pub entries_from : List Event → List Text
  entries_from [] = []
  entries_from (ev ∷ evs) =
      if whitelisted ev.id then entry ev ∷ entries_from evs else entries_from evs

  abbrev pub entries_of : Logs → List Text
  entries_of logs =
      entries_from logs.borrows ++ (entries_from logs.repays ++ entries_from logs.liqs)

  module _ (sled : Sled) where
    unfoldable pub morpho_adapter : Adapter Logs (WatchList sled)
    morpho_adapter = record {
      batch_size = 2_000;
      deploy_block = 68_000_000;
      entries_of = entries_of;
      contains_identity = contains_identity hex sled;
      add = add hex sled;
    }

    unfoldable pub run_morpho : Node Logs → Progress (WatchList sled) → Outcome (WatchList sled)
    unfolding morpho_adapter
    run_morpho node p = run morpho_adapter node p
