-- ===== src/Updaters/Aave.antt =====
-- src/watchlists/watchlist_updaters/aave_watchlist_updater.rs.
pub mod Effect
pub mod Runs
use liq_ranger.Base.{
  Bool, true, false, if◌then◌else◌, Option, none, some, List, [], ◌∷◌, Result, ok, err,
}
use liq_ranger.Core.Identity.{
  HexCodec, Text, Address, TrackerIdentity, IdentityError, aave_v3, to_string_id, from_str,
}
use liq_ranger.Readers.Aave.{Account, Tokens, has_outstanding_debt}
use liq_ranger.Watchlists.Cache.{Items, has}
use liq_ranger.Watchlists.Sled.{Sled}
use liq_ranger.Watchlists.Tracked.{WatchList}
use liq_ranger.Watchlists.Aave.{add, remove, snapshot}
use liq_ranger.Updaters.Outcome.{
  AdminCmd, prune, status_check, bad_identity, debt_unknown, Updated, written, Turn, goes_on, stops,
  fails, turn,
}

-- The events of the pool; the updater looks at three of them.
pub data PoolEvent : Type 0 where
  borrow : (on_behalf_of reserve : Address) → PoolEvent
  repay : (user reserve : Address) → PoolEvent
  liquidation_call : (user debt_asset : Address) → PoolEvent
  other_event : PoolEvent

-- One turn of `select!`, with the answers of the chain while it is served.
pub data Event : Type 0 where
  shutdown channel_closed stream_failed stream_ended : Event
  pool_event : PoolEvent → Account → Event
  command : AdminCmd → Account → Event

module _ (hex : HexCodec) (sled : Sled) (vdebt_tokens : Tokens) where
  -- A failed check is an error.
  abbrev remove_if : Option Bool → WatchList sled → Text → Updated sled
  remove_if (some false) w identity = written sled (remove hex sled w identity)
  remove_if (some true) w identity = (ok tt, w)
  remove_if none w identity = (err debt_unknown, w)

  abbrev check_parsed :
      Account → WatchList sled → Text → Result IdentityError TrackerIdentity → Updated sled
  check_parsed account w identity (err e) = (err (bad_identity e), w)
  check_parsed account w identity (ok (aave_v3 borrower reserve)) =
      remove_if (has_outstanding_debt account vdebt_tokens borrower reserve) w identity
  check_parsed account w identity (ok _) = (ok tt, w)

  unfoldable pub check_and_remove_by_identity : Account → WatchList sled → Text → Updated sled
  check_and_remove_by_identity account w identity =
      check_parsed account w identity (from_str hex identity)

  -- The checks of one round; an error of one is logged. The source has four of them at a time.
  unfoldable pub check_each : Account → WatchList sled → List Text → WatchList sled
  unfolding check_and_remove_by_identity
  check_each account w [] = w
  check_each account w (t ∷ ts) = check_each account (check_and_remove_by_identity account w t).1 ts

  unfoldable pub prune_watchlist : Account → WatchList sled → WatchList sled
  unfolding check_each
  prune_watchlist account w = check_each account w (snapshot hex sled w)

  unfoldable pub remove_if_no_debt :
      Account → WatchList sled → (borrower reserve : Address) → Updated sled
  unfolding check_and_remove_by_identity
  remove_if_no_debt account w borrower reserve =
      check_and_remove_by_identity account w (to_string_id hex (aave_v3 borrower reserve))

  module _ (reserves : Items) where
    unfoldable pub handle_event : Account → WatchList sled → PoolEvent → Updated sled
    unfolding remove_if_no_debt
    handle_event account w (borrow on_behalf_of reserve) =
        if has reserves reserve
        then written sled (add hex sled w (to_string_id hex (aave_v3 on_behalf_of reserve)))
        else (ok tt, w)
    handle_event account w (repay user reserve) =
        if has reserves reserve then remove_if_no_debt account w user reserve else (ok tt, w)
    handle_event account w (liquidation_call user debt_asset) =
        if has reserves debt_asset then remove_if_no_debt account w user debt_asset else (ok tt, w)
    handle_event account w other_event = (ok tt, w)

    unfoldable pub step : WatchList sled → Event → Turn sled
    unfolding prune_watchlist handle_event
    step w shutdown = stops w
    step w channel_closed = stops w
    step w stream_ended = stops w
    step w stream_failed = goes_on w
    step w (pool_event e account) = turn sled (handle_event account w e)
    step w (command prune account) = goes_on (prune_watchlist account w)
    step w (command status_check account) = goes_on w

    abbrev pub after : (WatchList sled → Turn sled) → Turn sled → Turn sled
    after rest (goes_on w) = rest w
    after rest (stops w) = stops w
    after rest (fails e w) = fails e w

    -- The loop of `start`, over the events that it serves once its subscription is up. If that fails,
    -- `start` returns the error before the loop, with the list as it is.
    unfoldable pub start : WatchList sled → List Event → Turn sled
    unfolding step
    start w [] = goes_on w
    start w (e ∷ es) = after (λ v. start v es) (step w e)
