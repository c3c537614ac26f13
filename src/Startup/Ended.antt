-- ===== src/Startup/Ended.antt =====
-- src/lib.rs: how the program ends.
use liq_ranger.Base.{◌≡◌, ◌↔◌, ◌≢◌, true, List, [], ◌∷◌, ok, All, ok-eq-ok, ap}
use liq_ranger.Services.Tasks.{
  Service, protocol_scanner, aave_watchlist_updater, morpho_watchlist_updater, watchlist_pruner,
  profit_distributor, liq_data_extractor, block_watcher, End, runs_on, complete, shutdown_all_tasks,
}
use liq_ranger.Services.Tasks.Awaited.{shutdown_all_tasks-eq-complete}
use liq_ranger.Core.Identity.{HexCodec}
use liq_ranger.Watchlists.Sled.{Sled}
use liq_ranger.Startup.{Setup, Running, start_services, launch, start_liquidation_engine}
use liq_ranger.Startup.Ready.{launch-IsReady}

-- All services but the pipeline.
abbrev pub awaited : List Service
awaited =
    protocol_scanner ∷ aave_watchlist_updater ∷ morpho_watchlist_updater ∷ watchlist_pruner
    ∷ profit_distributor ∷ liq_data_extractor ∷ block_watcher ∷ []

shutdown_of_services :
    (ends : Service → End)
    → (shutdown_all_tasks ends start_services ≡ complete)
      ↔ All (λ service. ends service ≢ runs_on) awaited
shutdown_of_services ends =
    let (to, from) = shutdown_all_tasks-eq-complete ends start_services in
    ((λ e. (to e).1), λ h. from ((λ e. cc), h))

-- After a launch and the signal for its end the program completes its shutdown exactly when the loops
-- of the seven services other than the pipeline end, by a return or a panic: the loop of the
-- pipeline, with the payloads that it works on, is not waited for.
pub start_liquidation_engine-complete :
    (hex : HexCodec) (sled : Sled) (setup : Setup sled) (running : Running sled)
    (ends : Service → End)
    → launch sled hex setup ≡ ok running
    → (start_liquidation_engine sled hex setup true ends ≡ ok complete)
      ↔ All (λ service. ends service ≢ runs_on) awaited
unfolding start_liquidation_engine
start_liquidation_engine-complete hex sled setup running ends e =
    let same = (launch-IsReady hex sled setup running e).spawned in
    let (to, from) = shutdown_of_services ends in
    rw (e, same) ((λ k. to (ok-eq-ok _ complete k)), λ h. ap ok (from h))
