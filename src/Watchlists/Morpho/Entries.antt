-- ===== src/Watchlists/Morpho/Entries.antt =====
-- src/watchlists/morpho_watchlist.rs: the watchlist by printed identities.
use liq_ranger.Base.{◌≡◌, not, ◌&&◌, ◌||◌, ◌==◌, ok, ◌∷◌, ◌++◌, arith}
use liq_ranger.Core.Identity.{HexCodec, Address, Hash, morpho_blue, to_string_id, morpho_tag, colon}
use liq_ranger.Core.Identity.RoundTrip.{from_str-to_string_id, from_str_swapped}
use liq_ranger.Watchlists.Sled.{Sled}
use liq_ranger.Watchlists.Tracked.{WatchList, track, untrack, contains}
use liq_ranger.Watchlists.Tracked.Content.{contains-track, contains-untrack}
use liq_ranger.Watchlists.Morpho.{contains_identity, add, remove}

module _ (hex : HexCodec) (sled : Sled) (w : WatchList sled) where
  pub contains_printed :
      (m : Hash) (b : Address)
      → contains_identity hex sled w (to_string_id hex (morpho_blue m b)) ≡ contains sled w b m
  unfolding contains_identity
  contains_printed m b = ground (arith, from_str-to_string_id hex (morpho_blue m b))

  pub add_printed :
      (m : Hash) (b : Address)
      → add hex sled w (to_string_id hex (morpho_blue m b)) ≡ track sled w b m
  unfolding add
  add_printed m b = ground (arith, from_str-to_string_id hex (morpho_blue m b))

  pub remove_printed :
      (m : Hash) (b : Address)
      → remove hex sled w (to_string_id hex (morpho_blue m b)) ≡ untrack sled w b m
  unfolding remove
  remove_printed m b = ground (arith, from_str-to_string_id hex (morpho_blue m b))

  -- A text of the form `morpho:<borrower>:<market>` is accepted, and changes nothing.
  pub add_swapped :
      (b : Address) (m : Hash)
      → add hex sled w (morpho_tag ++ (colon ∷ (hex.show_address b ++ (colon ∷ hex.show_hash m))))
        ≡ (ok tt, w)
  unfolding add
  add_swapped b m = ground (arith, from_str_swapped hex b m)

module _ (hex : HexCodec) (sled : Sled) where
  -- After the printed identity of a position is added, just that position is tracked besides those
  -- before.
  pub contains-add :
      (w : WatchList sled) (m n : Hash) (b c : Address)
      → contains_identity hex sled
          (add hex sled w (to_string_id hex (morpho_blue m b))).1
          (to_string_id hex (morpho_blue n c))
        ≡ ((c == b && n == m) || contains_identity hex sled w (to_string_id hex (morpho_blue n c)))
  contains-add w m n b c =
      rw
        (
          add_printed hex sled w m b,
          contains_printed hex sled (track sled w b m).1 n c,
          contains_printed hex sled w n c,
        )
        (contains-track sled w b m c n)

  -- After the printed identity of a position is removed, just that position is no longer tracked.
  pub contains-remove :
      (w : WatchList sled) (m n : Hash) (b c : Address)
      → contains_identity hex sled
          (remove hex sled w (to_string_id hex (morpho_blue m b))).1
          (to_string_id hex (morpho_blue n c))
        ≡ (not (c == b && n == m)
            && contains_identity hex sled w (to_string_id hex (morpho_blue n c)))
  contains-remove w m n b c =
      rw
        (
          remove_printed hex sled w m b,
          contains_printed hex sled (untrack sled w b m).1 n c,
          contains_printed hex sled w n c,
        )
        (contains-untrack sled w b m c n)
