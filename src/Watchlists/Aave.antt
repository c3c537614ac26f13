-- ===== src/Watchlists/Aave.antt =====
-- src/watchlists/aave_watchlist.rs: borrowers and the reserves they are tracked for.
pub mod Entries
pub mod Listing
pub mod Refines
use liq_ranger.Base.{ℕ, Bool, false, Option, none, some, List, [], ◌∷◌, ◌++◌, map, ok, to_option}
use liq_ranger.Core.Identity.{
  HexCodec, Text, Address, TrackerIdentity, aave_v3, to_string_id, from_str,
}
use liq_ranger.Watchlists.Cache.{Items}
use liq_ranger.Watchlists.Sled.{Sled}
use liq_ranger.Watchlists.Tracked.{WatchList, Outcome, track, untrack, contains}

-- A borrower and a reserve, of a parsed identity.
abbrev pub entry_of : Option TrackerIdentity → Option (Address × Address)
entry_of (some (aave_v3 borrower reserve)) = some (borrower, reserve)
entry_of _ = none

module _ (hex : HexCodec) where
  -- The one entry that stands for a borrower: the first of the set, whose order the source leaves
  -- open.
  abbrev pub listed : Address → Items → List Text
  listed borrower [] = []
  listed borrower (reserve ∷ set) = to_string_id hex (aave_v3 borrower reserve) ∷ []

  abbrev pub listing : List (ℕ × Items) → List Text
  listing [] = []
  listing ((borrower, set) ∷ cache) = listed borrower set ++ listing cache

module _ (hex : HexCodec) (sled : Sled) where
  unfoldable pub contains_identity : WatchList sled → Text → Bool
  contains_identity w identity = elim (entry_of (to_option (from_str hex identity))) [
    | none ↦ false
    | some (borrower, reserve) ↦ contains sled w borrower reserve
  ]

  unfoldable pub add : WatchList sled → Text → Outcome sled
  add w identity = elim (entry_of (to_option (from_str hex identity))) [
    | none ↦ (ok tt, w)
    | some (borrower, reserve) ↦ track sled w borrower reserve
  ]

  unfoldable pub remove : WatchList sled → Text → Outcome sled
  remove w identity = elim (entry_of (to_option (from_str hex identity))) [
    | none ↦ (ok tt, w)
    | some (borrower, reserve) ↦ untrack sled w borrower reserve
  ]

  unfoldable pub snapshot : WatchList sled → List Text
  snapshot w = listing hex w.cache

  unfoldable pub unique_borrowers : WatchList sled → List Address
  unique_borrowers w = map (λ e. e.0) w.cache
