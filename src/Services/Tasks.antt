-- ===== src/Services/Tasks.antt =====
-- src/common/task_manager.rs, and the functions of src/common/mod.rs that spawn the services.
pub mod Awaited
use liq_ranger.Base.{List, [], ◌∷◌, ◌++◌}

-- The services, by the names under which they are registered.
pub data Service : Type 0 where
  pipeline_engine protocol_scanner aave_watchlist_updater morpho_watchlist_updater : Service
  watchlist_pruner profit_distributor liq_data_extractor block_watcher : Service

-- What a spawned task does: it runs the loop of a service to its end, or it spawns that loop as a task of
-- its own and ends.
pub data Future : Type 0 where
  awaits spawns : Service → Future

-- A handle of GLOBAL_TASK_HANDLES; the name is for the log.
pub record Handle : Type 0 where
  pub name : Service
  pub task : Future

abbrev pub Handles : Type 0
Handles = List Handle

abbrev pub register_task_named : Service → Future → Handles → Handles
register_task_named name task handles = handles ++ record { name = name; task = task } ∷ []

abbrev pub spawn_named_and_register : Service → Future → Handles → Handles
spawn_named_and_register name future handles = register_task_named name future handles

-- `start_pipeline` returns when it has spawned its loop.
abbrev pub start_pipeline_engine : Handles → Handles
start_pipeline_engine = spawn_named_and_register pipeline_engine (spawns pipeline_engine)

abbrev pub start_protocol_scanner : Handles → Handles
start_protocol_scanner = spawn_named_and_register protocol_scanner (awaits protocol_scanner)

abbrev pub start_aave_watchlist_updater : Handles → Handles
start_aave_watchlist_updater =
    spawn_named_and_register aave_watchlist_updater (awaits aave_watchlist_updater)

abbrev pub start_morpho_watchlist_updater : Handles → Handles
start_morpho_watchlist_updater =
    spawn_named_and_register morpho_watchlist_updater (awaits morpho_watchlist_updater)

abbrev pub start_watchlist_pruner : Handles → Handles
start_watchlist_pruner = spawn_named_and_register watchlist_pruner (awaits watchlist_pruner)

abbrev pub start_profit_distributor : Handles → Handles
start_profit_distributor = spawn_named_and_register profit_distributor (awaits profit_distributor)

abbrev pub start_liq_data_extractor : Handles → Handles
start_liq_data_extractor = spawn_named_and_register liq_data_extractor (awaits liq_data_extractor)

abbrev pub start_block_watcher : Handles → Handles
start_block_watcher = spawn_named_and_register block_watcher (awaits block_watcher)

-- What becomes of a loop once the flag of the shutdown is set.
pub data End : Type 0 where
  finished panicked runs_on : End

pub data Shutdown : Type 0 where
  complete : Shutdown
  waits_for : Service → Shutdown

abbrev pub end_of : (Service → End) → Future → End
end_of ends (awaits service) = ends service
end_of ends (spawns service) = finished

-- A panic of a task is only logged.
abbrev pub await_handle : Handle → End → Shutdown → Shutdown
await_handle handle runs_on rest = waits_for handle.name
await_handle handle finished rest = rest
await_handle handle panicked rest = rest

-- The handles are taken from the list and awaited one after another.
unfoldable pub shutdown_all_tasks : (Service → End) → Handles → Shutdown
shutdown_all_tasks ends [] = complete
shutdown_all_tasks ends (handle ∷ handles) =
    await_handle handle (end_of ends handle.task) (shutdown_all_tasks ends handles)
