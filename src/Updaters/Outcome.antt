-- ===== src/Updaters/Outcome.antt =====
-- src/watchlists/watchlist_updaters: how an update ends, and the commands that reach an updater.
use liq_ranger.Base.{◌≡◌, refl, Result, ok, err, map_err}
use liq_ranger.Core.Identity.{IdentityError}
use liq_ranger.Watchlists.Sled.{Sled}
use liq_ranger.Watchlists.Tracked.{WatchList, DbError, Outcome}

-- `AdminCmd` of src/common/mod.rs
pub data AdminCmd : Type 0 where
  prune status_check : AdminCmd

pub data UpdateError : Type 0 where
  bad_identity : IdentityError → UpdateError
  not_written : DbError → UpdateError
  debt_unknown : UpdateError

module _ (sled : Sled) where
  abbrev pub Updated : Type 0
  Updated = Result UpdateError (Unit {0}) × WatchList sled

  abbrev pub written : Outcome sled → Updated
  written (r, w) = (map_err not_written r, w)

  -- One turn of the loop: it goes on, leaves the loop, or returns an error.
  pub data Turn : Type 0 where
    goes_on stops : WatchList sled → Turn
    fails : UpdateError → WatchList sled → Turn

  -- The `?` operator in the loop.
  abbrev pub turn : Updated → Turn
  turn (ok done, w) = goes_on w
  turn (err e, w) = fails e w

  abbrev pub list_of : Turn → WatchList sled
  list_of (goes_on w) = w
  list_of (stops w) = w
  list_of (fails e w) = w

  pub list_of-turn : (u : Updated) → list_of (turn u) ≡ u.1
  list_of-turn (ok done, w) = refl
  list_of-turn (err e, w) = refl
