-- ===== src/Watchlists/Aave/Entries.antt =====
-- src/watchlists/aave_watchlist.rs: the watchlist by printed identities.
use liq_ranger.Base.{◌≡◌, not, ◌&&◌, ◌||◌, ◌==◌, arith}
use liq_ranger.Core.Identity.{HexCodec, Address, aave_v3, to_string_id}
use liq_ranger.Core.Identity.RoundTrip.{from_str-to_string_id}
use liq_ranger.Watchlists.Sled.{Sled}
use liq_ranger.Watchlists.Tracked.{WatchList, track, untrack, contains}
use liq_ranger.Watchlists.Tracked.Content.{contains-track, contains-untrack}
use liq_ranger.Watchlists.Aave.{contains_identity, add, remove}

module _ (hex : HexCodec) (sled : Sled) (w : WatchList sled) where
  pub contains_printed_entry :
      (b r : Address)
      → contains_identity hex sled w (to_string_id hex (aave_v3 b r)) ≡ contains sled w b r
  unfolding contains_identity
  contains_printed_entry b r = ground (arith, from_str-to_string_id hex (aave_v3 b r))

  pub add_printed :
      (b r : Address) → add hex sled w (to_string_id hex (aave_v3 b r)) ≡ track sled w b r
  unfolding add
  add_printed b r = ground (arith, from_str-to_string_id hex (aave_v3 b r))

  pub remove_printed :
      (b r : Address) → remove hex sled w (to_string_id hex (aave_v3 b r)) ≡ untrack sled w b r
  unfolding remove
  remove_printed b r = ground (arith, from_str-to_string_id hex (aave_v3 b r))

module _ (hex : HexCodec) (sled : Sled) where
  -- After the printed identity of an entry is added, just that entry is tracked besides those
  -- before.
  pub contains-add_entry :
      (w : WatchList sled) (b c r q : Address)
      → contains_identity hex sled
          (add hex sled w (to_string_id hex (aave_v3 b r))).1
          (to_string_id hex (aave_v3 c q))
        ≡ ((c == b && q == r) || contains_identity hex sled w (to_string_id hex (aave_v3 c q)))
  contains-add_entry w b c r q =
      rw
        (
          add_printed hex sled w b r,
          contains_printed_entry hex sled (track sled w b r).1 c q,
          contains_printed_entry hex sled w c q,
        )
        (contains-track sled w b r c q)

  -- After the printed identity of an entry is removed, just that entry is no longer tracked.
  pub contains-remove_entry :
      (w : WatchList sled) (b c r q : Address)
      → contains_identity hex sled
          (remove hex sled w (to_string_id hex (aave_v3 b r))).1
          (to_string_id hex (aave_v3 c q))
        ≡ (not (c == b && q == r) && contains_identity hex sled w (to_string_id hex (aave_v3 c q)))
  contains-remove_entry w b c r q =
      rw
        (
          remove_printed hex sled w b r,
          contains_printed_entry hex sled (untrack sled w b r).1 c q,
          contains_printed_entry hex sled w c q,
        )
        (contains-untrack sled w b r c q)
