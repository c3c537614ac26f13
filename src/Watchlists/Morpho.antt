-- ===== src/Watchlists/Morpho.antt =====
-- src/watchlists/morpho_watchlist.rs: borrowers and the markets they are tracked in.
pub mod Entries
pub mod Listing
pub mod Refines
use liq_ranger.Base.{ℕ, Bool, false, Option, none, some, List, [], ◌∷◌, ◌++◌, map, ok, to_option}
use liq_ranger.Core.Identity.{
  HexCodec, Text, Address, Hash, TrackerIdentity, morpho_blue, to_string_id, from_str,
}
use liq_ranger.Watchlists.Cache.{Items}
use liq_ranger.Watchlists.Sled.{Sled}
use liq_ranger.Watchlists.Tracked.{WatchList, Outcome, track, untrack, contains}

-- A Morpho position, of a parsed identity.
abbrev pub position_of : Option TrackerIdentity → Option (Address × Hash)
position_of (some (morpho_blue market_id borrower)) = some (borrower, market_id)
position_of _ = none

module _ (hex : HexCodec) where
  abbrev pub listed : Address → Items → List Text
  listed borrower set = map (λ market_id. to_string_id hex (morpho_blue market_id borrower)) set

  abbrev pub listing : List (ℕ × Items) → List Text
  listing [] = []
  listing ((borrower, set) ∷ cache) = listed borrower set ++ listing cache

module _ (hex : HexCodec) (sled : Sled) where
  unfoldable pub contains_identity : WatchList sled → Text → Bool
  contains_identity w identity = elim (position_of (to_option (from_str hex identity))) [
    | none ↦ false
    | some (borrower, market_id) ↦ contains sled w borrower market_id
  ]

  unfoldable pub add : WatchList sled → Text → Outcome sled
  add w identity = elim (position_of (to_option (from_str hex identity))) [
    | none ↦ (ok tt, w)
    | some (borrower, market_id) ↦ track sled w borrower market_id
  ]

  unfoldable pub remove : WatchList sled → Text → Outcome sled
  remove w identity = elim (position_of (to_option (from_str hex identity))) [
    | none ↦ (ok tt, w)
    | some (borrower, market_id) ↦ untrack sled w borrower market_id
  ]

  -- Each tracked position; the source leaves the order open.
  unfoldable pub snapshot : WatchList sled → List Text
  snapshot w = listing hex w.cache
