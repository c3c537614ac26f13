-- ===== src/Startup.antt =====
-- src/lib.rs: start_liquidation_engine, with fetch_watchlists of src/common/mod.rs. Each step of the
-- start that may fail comes before the first task.
pub mod Ready
pub mod Ended
pub mod Lifetime
use liq_ranger.Base.{
  ℕ, Bool, true, false, Option, none, some, List, [], ◌∷◌, Result, ok, err, ◌>>=◌, ◌>>◌, or_fail,
  map_err, guard,
}
use liq_ranger.Services.Tasks.{
  Service, Handles, End, Shutdown, start_pipeline_engine, start_protocol_scanner,
  start_aave_watchlist_updater, start_morpho_watchlist_updater, start_watchlist_pruner,
  start_profit_distributor, start_liq_data_extractor, start_block_watcher, shutdown_all_tasks,
}
use liq_ranger.Core.Identity.{HexCodec, Address, Hash}
use liq_ranger.Bootstrap.{Node, Progress, Outcome}
use liq_ranger.Bootstrap.Aave
use liq_ranger.Bootstrap.Aave.{run_aave}
use liq_ranger.Bootstrap.Morpho
use liq_ranger.Bootstrap.Morpho.{run_morpho}
use liq_ranger.Watchlists.Cache.{has}
use liq_ranger.Bootstrap.Executor.{Joined, finished, ExecutorError, run_all}
use liq_ranger.Readers.Aave.{Tokens, populate_vdebt_tokens}
use liq_ranger.Watchlists.Sled.{Sled}
use liq_ranger.Watchlists.Tracked.{WatchList, DbError, load}

pub data StartError : Type 0 where
  no_connection bad_url no_directory no_sled no_sqlite no_tree : StartError
  not_loaded : DbError → StartError
  not_bootstrapped : ExecutorError → StartError
  no_vdebt_tokens no_signal : StartError

-- What the environment answers: whether the connections, the directory and the databases are there, the
-- trees of the watchlists and of the bootstrap state, the node and the saved block of each bootstrap, and
-- the debt tokens of the reserves.
pub record Setup (sled : Sled) : Type 0 where
  pub ws_connects : Bool
  pub url_parses : Bool
  pub directory_is_there : Bool
  pub sled_opens : Bool
  pub sqlite_connects : Bool
  pub aave_tree : Option sled.Tree
  pub morpho_tree : Option sled.Tree
  pub state_tree : Bool
  pub aave_node : Node Aave.Logs
  pub morpho_node : Node Morpho.Logs
  pub aave_last_block : Option ℕ
  pub morpho_last_block : Option ℕ
  pub markets : List Hash
  pub variable_debt_token : Address → Option Address
  pub reserves : List Address

-- The handles of the tasks in the order in which they were spawned, and what the tasks share.
pub record Running (sled : Sled) : Type 0 where
  pub handles : Handles
  pub aave_watchlist : WatchList sled
  pub morpho_watchlist : WatchList sled
  pub vdebt_tokens : Tokens

-- The tasks are spawned in this order.
abbrev pub start_services : Handles
start_services = start_block_watcher (
    start_liq_data_extractor (
      start_profit_distributor (
        start_watchlist_pruner (
          start_morpho_watchlist_updater
            (start_aave_watchlist_updater (start_protocol_scanner (start_pipeline_engine [])))))))

module _ (sled : Sled) where
  -- `fetch_watchlists`: `new` opens the tree of a list and loads it.
  abbrev pub open_list : Option sled.Tree → Result StartError (WatchList sled)
  open_list tree = do t ← or_fail tree no_tree; map_err not_loaded (load sled t)

  unfoldable pub fetch_watchlists : Setup sled → Result StartError (WatchList sled × WatchList sled)
  fetch_watchlists setup = do
    aave ← open_list setup.aave_tree
    morpho ← open_list setup.morpho_tree
    guard setup.state_tree no_tree
    ok (aave, morpho)

  abbrev pub begin : WatchList sled → Option ℕ → Progress (WatchList sled)
  begin list last_block = record { watch_list = list; last_block = last_block; scanned = [] }

  module _ (hex : HexCodec) where
    -- The two bootstraps, on the lists that the tasks share. They run as tasks of their own, on a list
    -- each.
    abbrev pub bootstrap_aave : Setup sled → WatchList sled → Outcome (WatchList sled)
    bootstrap_aave setup list =
        run_aave hex (has setup.reserves) sled setup.aave_node (begin list setup.aave_last_block)

    abbrev pub bootstrap_morpho : Setup sled → WatchList sled → Outcome (WatchList sled)
    bootstrap_morpho setup list =
        run_morpho hex (has setup.markets) sled setup.morpho_node
          (begin list setup.morpho_last_block)

    abbrev pub bootstraps :
        Setup sled → (aave_watchlist morpho_watchlist : WatchList sled) → List Joined
    bootstraps setup aave morpho =
        finished (bootstrap_aave setup aave).0 ∷ finished (bootstrap_morpho setup morpho).0 ∷ []

    -- `start_liquidation_engine` until the tasks are spawned.
    unfoldable pub launch : Setup sled → Result StartError (Running sled)
    unfolding fetch_watchlists
    launch setup = do
      guard setup.ws_connects no_connection
      guard setup.url_parses bad_url
      guard setup.directory_is_there no_directory
      guard setup.sled_opens no_sled
      guard setup.sqlite_connects no_sqlite
      (aave, morpho) ← fetch_watchlists setup
      map_err not_bootstrapped (run_all (bootstraps setup aave morpho))
      tokens ←
          or_fail (populate_vdebt_tokens setup.variable_debt_token setup.reserves) no_vdebt_tokens
      ok (record {
        handles = start_services;
        aave_watchlist = (bootstrap_aave setup aave).1.watch_list;
        morpho_watchlist = (bootstrap_morpho setup morpho).1.watch_list;
        vdebt_tokens = tokens;
      })

    -- The whole, where the environment says whether the signal for the end can be awaited, and how the
    -- loops end after it.
    unfoldable pub start_liquidation_engine :
        Setup sled → (ctrl_c : Bool) → (Service → End) → Result StartError Shutdown
    unfolding launch
    start_liquidation_engine setup ctrl_c ends = do
      running ← launch setup
      guard ctrl_c no_signal
      ok (shutdown_all_tasks ends running.handles)
