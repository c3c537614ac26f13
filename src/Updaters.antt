-- ===== src/Updaters.antt =====
-- src/watchlists/watchlist_updaters: the loops that keep the watchlists up to date with the chain.
pub mod Outcome
pub mod Sweep
pub mod Morpho
pub mod Aave
