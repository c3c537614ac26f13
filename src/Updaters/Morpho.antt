-- ===== src/Updaters/Morpho.antt =====
-- src/watchlists/watchlist_updaters/morpho_watchlist_updater.rs, and the check of a debt of
-- src/common/mod.rs.
pub mod Effect
pub mod Runs
use liq_ranger.Base.{
  Bool, true, false, not, ◌==◌, if◌then◌else◌, Option, none, some, List, [], ◌∷◌, Result, ok, err,
}
use liq_ranger.Core.Identity.{
  HexCodec, Text, Address, Hash, TrackerIdentity, IdentityError, morpho_blue, to_string_id,
  from_str,
}
use liq_ranger.Core.Types.{Position}
use liq_ranger.Watchlists.Cache.{Items, has}
use liq_ranger.Watchlists.Sled.{Sled}
use liq_ranger.Watchlists.Tracked.{WatchList}
use liq_ranger.Watchlists.Morpho.{add, remove, snapshot}
use liq_ranger.Updaters.Outcome.{
  AdminCmd, prune, status_check, bad_identity, Updated, written, Turn, goes_on, stops, fails, turn,
}

-- The answers of the contract while an event is handled; `none` is a failed call.
abbrev pub Positions : Type 0
Positions = Hash → Address → Option Position

-- `has_outstanding_debt_morpho`
unfoldable pub has_outstanding_debt_morpho : Positions → Address → Hash → Option Bool
has_outstanding_debt_morpho position borrower market = elim (position market borrower) [
  | none ↦ none
  | some p ↦ some (not (p.borrow_shares == 0))
]

-- One turn of `select!`. A stream that ends or fails is silent.
pub data Event : Type 0 where
  shutdown channel_closed silent : Event
  command : AdminCmd → Positions → Event
  borrow : (on_behalf : Address) (market_id : Hash) → Event
  repay liquidate : (borrower : Address) (market_id : Hash) → Positions → Event

module _ (hex : HexCodec) (sled : Sled) where
  abbrev remove_if : Option Bool → WatchList sled → Text → Updated sled
  remove_if (some false) w identity = written sled (remove hex sled w identity)
  remove_if (some true) w identity = (ok tt, w)
  remove_if none w identity = (ok tt, w)

  abbrev check_parsed :
      Positions → WatchList sled → Text → Result IdentityError TrackerIdentity → Updated sled
  check_parsed position w identity (err e) = (err (bad_identity e), w)
  check_parsed position w identity (ok (morpho_blue market_id borrower)) =
      remove_if (has_outstanding_debt_morpho position borrower market_id) w identity
  check_parsed position w identity (ok _) = (ok tt, w)

  unfoldable pub check_and_remove_by_identity : Positions → WatchList sled → Text → Updated sled
  check_and_remove_by_identity position w identity =
      check_parsed position w identity (from_str hex identity)

  -- The checks of one round; an error of one is logged. The source has four of them at a time.
  unfoldable pub check_each : Positions → WatchList sled → List Text → WatchList sled
  unfolding check_and_remove_by_identity
  check_each position w [] = w
  check_each position w (t ∷ ts) =
      check_each position (check_and_remove_by_identity position w t).1 ts

  unfoldable pub prune_watchlist : Positions → WatchList sled → WatchList sled
  unfolding check_each
  prune_watchlist position w = check_each position w (snapshot hex sled w)

  unfoldable pub add_borrow : WatchList sled → Address → Hash → Updated sled
  add_borrow w borrower market =
      written sled (add hex sled w (to_string_id hex (morpho_blue market borrower)))

  unfoldable pub remove_if_cleared : Positions → WatchList sled → Address → Hash → Updated sled
  unfolding check_and_remove_by_identity
  remove_if_cleared position w borrower market =
      check_and_remove_by_identity position w (to_string_id hex (morpho_blue market borrower))

  module _ (morpho_markets : Items) where
    unfoldable pub step : WatchList sled → Event → Turn sled
    unfolding prune_watchlist add_borrow remove_if_cleared
    step w shutdown = stops w
    step w channel_closed = stops w
    step w silent = goes_on w
    step w (command prune position) = goes_on (prune_watchlist position w)
    step w (command status_check position) = goes_on w
    step w (borrow on_behalf market_id) =
        if has morpho_markets market_id
        then turn sled (add_borrow w on_behalf market_id)
        else goes_on w
    step w (repay borrower market_id position) =
        if has morpho_markets market_id
        then turn sled (remove_if_cleared position w borrower market_id)
        else goes_on w
    step w (liquidate borrower market_id position) =
        if has morpho_markets market_id
        then turn sled (remove_if_cleared position w borrower market_id)
        else goes_on w

    abbrev after : (WatchList sled → Turn sled) → Turn sled → Turn sled
    after rest (goes_on w) = rest w
    after rest (stops w) = stops w
    after rest (fails e w) = fails e w

    -- The loop of `start`, over the events that it serves once its three subscriptions are up. If one fails, `start`
    -- returns the error before the loop, with the list as it is.
    unfoldable pub start : WatchList sled → List Event → Turn sled
    unfolding step
    start w [] = goes_on w
    start w (e ∷ es) = after (λ v. start v es) (step w e)
