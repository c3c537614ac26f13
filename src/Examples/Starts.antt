-- ===== src/Examples/Starts.antt =====
-- A start on two lists in memory.
use liq_ranger.Base.{
  ◌+◌, ◌≡◌, refl, true, some, [], ◌∷◌, ok, All, ◌↔◌, ◌≢◌, none, List, arith, subst,
}
use liq_ranger.Bootstrap.Executor.{finished, run_all}
use liq_ranger.Watchlists.Tracked.{contains as tracks, load, track, persist, WatchList}
use liq_ranger.Startup.{
  Setup, Running, start_services, fetch_watchlists, launch, start_liquidation_engine,
  bootstrap_aave,
}
use liq_ranger.Startup.Ready.{IsReady, launch-IsReady}
use liq_ranger.Examples.{memory, short_hex}
use liq_ranger.Services.Tasks.{
  Service, pipeline_engine, profit_distributor, End, finished, panicked, runs_on, complete,
}
use liq_ranger.Startup.Ended.{awaited, start_liquidation_engine-complete}
use liq_ranger.Bootstrap.{run, scan, scan_batch, fetch_batch, add_entries}
use liq_ranger.Bootstrap.Aave.{run_aave, aave_adapter, Logs}
use liq_ranger.Bootstrap.Morpho.{run_morpho, morpho_adapter}
use liq_ranger.Watchlists.Aave.{contains_identity, add}
use liq_ranger.Core.Identity.{from_str, split, to_string_id, aave_v3}
use liq_ranger.Bootstrap.Aave.Complete.{AnswersAll, lists}
use liq_ranger.Startup.Lifetime.{start_tracks}
use liq_ranger.Updaters.Outcome.{prune, Turn, list_of}
use liq_ranger.Updaters.Aave.{Event, pool_event, repay, command, stream_failed, start}
use liq_ranger.Watchlists.Tracked.Content.{NoEmpty}
use liq_ranger.Readers.Aave.{Account, has_outstanding_debt}
use liq_ranger.Examples.Accounts.{account}

abbrev logs : Logs
logs = record { borrows = record { reserve = 5; borrower = 7 } ∷ []; repays = []; liqs = [] }

abbrev setup : Setup memory
setup = record {
  ws_connects = true;
  url_parses = true;
  directory_is_there = true;
  sled_opens = true;
  sqlite_connects = true;
  aave_tree = some ((4, 6 ∷ []) ∷ [], (refl, tt));
  morpho_tree = some ([], tt);
  state_tree = true;
  aave_node = record {
    state_reads = true;
    get_block_number = some 10;
    query = λ attempt first last. some logs;
    state_takes = λ b. true;
  };
  morpho_node = record {
    state_reads = true;
    get_block_number = some 10;
    query = λ attempt first last. some (record { borrows = []; repays = []; liqs = [] });
    state_takes = λ b. true;
  };
  aave_last_block = some 8;
  morpho_last_block = none;
  markets = [];
  variable_debt_token = λ reserve. some (reserve + 10);
  reserves = 4 ∷ 5 ∷ 4 ∷ [];
}

abbrev loaded : WatchList memory
loaded = record { db = ((4, 6 ∷ []) ∷ [], (refl, tt)); cache = (4, 6 ∷ []) ∷ [] }

abbrev running : Running memory
running = record {
  handles = start_services;
  aave_watchlist = (bootstrap_aave memory short_hex setup loaded).1.watch_list;
  morpho_watchlist = record { db = ([], tt); cache = [] };
  vdebt_tokens = (4, 14) ∷ (5, 15) ∷ [];
}

started : launch memory short_hex setup ≡ ok running
unfolding launch fetch_watchlists run_all load run_aave run_morpho run scan scan_batch fetch_batch
    add_entries aave_adapter morpho_adapter contains_identity add track persist from_str split
    tracks
started = refl

launch-IsReady_example : IsReady short_hex memory setup running
launch-IsReady_example = launch-IsReady short_hex memory setup running started

-- The distributor panics, and the loop of the pipeline runs on.
abbrev ends : Service → End
ends pipeline_engine = runs_on
ends profit_distributor = panicked
ends _ = finished

start_liquidation_engine-complete_example :
    (start_liquidation_engine memory short_hex setup true ends ≡ ok complete)
    ↔ All (λ service. ends service ≢ runs_on) awaited
start_liquidation_engine-complete_example =
    start_liquidation_engine-complete short_hex memory setup running ends started

abbrev owing : Account
owing = record account { balance_of = λ token borrower. some 3 }

-- The borrower 7 repays a part in reserve 5, and a round of pruning follows.
abbrev events : List Event
events = pool_event (repay 7 5) owing ∷ command prune owing ∷ stream_failed ∷ []

abbrev after : Turn memory
after = start short_hex memory running.vdebt_tokens setup.reserves running.aave_watchlist events

loaded-NoEmpty : NoEmpty memory loaded
loaded-NoEmpty k = ground arith

answers_all : AnswersAll setup.aave_node (λ block. logs)
answers_all attempt first last block found e l m b r h =
    let same : logs ≡ found = cc in subst (λ x. lists x b r ≡ true) same h

start_tracks_example :
    contains_identity short_hex memory (list_of memory after) (to_string_id short_hex (aave_v3 7 5))
    ≡ true
unfolding start run_aave run scan scan_batch fetch_batch add_entries aave_adapter contains_identity
    add track persist from_str split tracks to_string_id has_outstanding_debt load
start_tracks_example =
    start_tracks short_hex memory setup running loaded (list_of memory after) (λ block. logs) 10 3 7
      5 events started refl loaded-NoEmpty answers_all refl (omega arith) (omega arith) refl refl
      (refl, (refl, (tt, tt))) refl
