-- ===== src/Lib.antt =====
-- Liq-Ranger watches borrowers of Morpho Blue and Aave V3 and liquidates the positions that have
-- become unhealthy. A bootstrap and the updaters keep, for each protocol, a watchlist of borrowers
-- with their markets or reserves, in memory and in an embedded database. Every few blocks a scanner
-- asks the protocol readers for unhealthy positions; the engine takes each of them through a quote, a
-- simulation, a second look at the position and the broadcast of one contract call.
--
-- The modules, and the files of the repository that they are about:
--
--   Base          Boolean tests, lists, results, and U256 with the panics of its operators.
--   Math.Morpho   src/adapters/helpers/morpho_math_helpers.rs and the constants of src/constants.rs:
--                 each function under its name, over numbers below 2 ^ 256. Children: Rounding,
--                 Shares, Incentive.
--   Math.Aave     src/adapters/helpers/aave_math_helpers.rs: close factor, seizable collateral, the
--                 choice of a collateral. Children: CloseFactor, Choice.
--   Core          src/core/types.rs: Identity (TrackerIdentity, to_string_id, from_str), Types (the
--                 structs and LiquidationParams::from), Params (the parameters of a job, stated apart),
--                 Health (Position::is_healthy), Caches
--                 (get_token_decimals and get_token_symbol of src/common/mod.rs, and
--                 resolve_atoken).
--   Readers       Morpho: src/adapters/morpho_protocol_adapter.rs (evaluate_target, cut at its
--                 comments into plan, debt_of and choose_mode); Aave:
--                 src/adapters/aave_protocol_adapter.rs (evaluate_borrower, cut into debt_reserve
--                 and build_profile, with has_outstanding_debt of src/common/mod.rs and
--                 populate_vdebt_tokens of src/config.rs). Both have
--                 fetch_liquidation_candidates and refresh_borrower.
--   Swaps         src/adapters/uniswap_v3_adapter.rs: Path (encode_v3_path), Bucket (CacheKey::new),
--                 Batch (the routes and find_best_route_multicall; its children Candidates, Answers, Best
--                 and Routes say which routes are tried, what is asked and answered, and which is
--                 found), Uniswap (evaluate_route with its cache, get_swap_quote); Paraswap:
--                 src/adapters/paraswap_adapter.rs, the two requests and the quote.
--   Simulation    src/simulation: Environment (build_block_env, build_tx_env), Engine (simulate,
--                 decode_revert); src/adapters/revm_simulation_adapter.rs: Warm
--                 (build_snapshot_internal with the cache of accounts), Snapshots (build_snapshot with
--                 its cache, and simulate_liquidation; its child Called says in which environments a
--                 call runs); Sandbox:
--                 src/adapters/anvil_simulation_sandbox.rs.
--   Services      Pipeline: src/core/services/liquidation_engine.rs, one function per method, over
--                 the ports of src/core/ports.rs; Scanner: src/core/services/protocol_scanner.rs;
--                 Pruner: src/watchlist_pruner.rs; Distributor: src/profit_distributor.rs, with the
--                 transfers that it submits kept in a list; Broadcast:
--                 src/adapters/flash_liquidator_adapter.rs; Dispatch: the task of a scan, which sends
--                 payloads; Workers: start_pipeline, as a step relation, since its tasks run at the same
--                 time and may panic; its channel is bounded, and what it holds is lost when the
--                 loop ends; Watcher: src/block_watcher.rs; Tasks: src/common/task_manager.rs and
--                 what src/common/mod.rs registers with it. The other loops over select! are
--                 functions of the list of events that they serve.
--   Records       src/liq_data_extractor.rs and the records of src/common/mod.rs: Tables (the
--                 statements), Extractor (the loop and the events), Replay, Discovery (what
--                 src/profit_distributor.rs reads back).
--   Watchlists    src/watchlists: Cache (the map from borrowers to sets), Sled (the database),
--                 Tracked (the state and its changes, which both files write out alike), and Aave and
--                 Morpho (the operations on identity texts). The children Refines state the set of
--                 entries that a sequence of calls stands for.
--   Updaters      src/watchlists/watchlist_updaters: Outcome, Morpho and Aave (the loops, the events
--                 and the rounds of pruning), Sweep (a round as a list of removals). The
--                 children Runs follow the list over a whole run of a loop.
--   Bootstrap     src/adapters/aave_bootstrap_adapter.rs and morpho_bootstrap_adapter.rs: the loop
--                 over batches, shared, with what differs as a record; Batch, Coverage, Watched and
--                 Complete carry what a batch does to a whole bootstrap; Executor:
--                 src/core/services/bootstrap_executor.rs; State:
--                 src/watchlists/bootstrap_state.rs.
--   Startup       src/lib.rs: start_liquidation_engine, with fetch_watchlists of
--                 src/common/mod.rs. Children: Ready, Ended, Lifetime.
--   Examples      concrete parameters, and runs of the operations on concrete input.
--
-- Parameters. The text forms of addresses and hashes (HexCodec), sled and bincode (Sled, ByteTree,
-- Bincode), U256::exp10 and U256::bits (Power, Bits), the cache of moka (RouteCache), the answers of the
-- chain and of contracts (Chain, Account, Reserve, Debt, Node, Quoter, Router, Provider, Evm, Fork,
-- Answers), decoding and formatting (Abi, Hex, Units, ShortForm), the channel of tokio (Channel), the
-- service of Paraswap and the crate backoff (Service, Backoff), the environment at the start (Setup) and
-- the ports of the engine (Ports, with a state of their own) are arguments. A failed call is none. Those that
-- stand for crates have laws, which state what the crates document, and Examples has an instance of each.
--
-- Numbers. Amounts are natural numbers; an operator of U256 fails with a panic where its result is not
-- below 2 ^ 256, and checked_mul yields none there. Addresses and hashes are numbers.
--
-- Loops and fuel. The loop of a bootstrap runs on fuel, one unit for each block from the start block to
-- the latest, which is enough since each batch covers at least one block. The retries of a batch count
-- down from five, and the wait for a receipt counts down from sixty. The other loops are over lists.
--
-- Order. A set is a list without repetition and a map a list of its rows: where the source leaves the
-- order of a set, a map or concurrent tasks open, the model has one of the orders. The tasks of the
-- pipeline take their steps in any order, and the ports answer each of them from a state of its own. The
-- scans of several readers, concurrent changes of one watchlist and concurrent requests to the caches of
-- tokens are modelled one at a time.
--
-- Not modelled: log output and delays; the subscriptions that the updaters and the extractor make
-- before their loops, whose failure ends start before its first event; the EVM itself; the reading of
-- the environment; and src/core/watchlist_updater.rs, which no module declares. The caches of token
-- decimals, symbols and aTokens are a module of their own: the readers and the services are given the
-- answers. The two bootstraps run one after the other, each on its list.
pub mod Base
pub mod Math
pub mod Core
pub mod Readers
pub mod Services
pub mod Watchlists
pub mod Bootstrap
pub mod Swaps
pub mod Updaters
pub mod Simulation
pub mod Records
pub mod Startup
mod Examples
