-- ===== src/Watchlists/Morpho/Refines.antt =====
-- src/watchlists/morpho_watchlist.rs: a sequence of calls, against a set of positions.
use liq_ranger.Base.{
  ◌≡◌, refl, ap, ◌∙◌, List, [], ◌∷◌, map, ok, Option, none, some, to_option, arith, Option-cases,
  inl, inr,
}
use liq_ranger.Core.Identity.{HexCodec, Address, Hash, morpho_blue, to_string_id, from_str}
use liq_ranger.Watchlists.Sled.{Sled}
use liq_ranger.Watchlists.Tracked.{WatchList, Outcome, contains, load}
use liq_ranger.Watchlists.Tracked.Synced.{Synced}
use liq_ranger.Watchlists.Tracked.Keyed.{IsTidy}
use liq_ranger.Watchlists.Tracked.Refines.{
  Call, call_add, call_remove, Change, added, removed, unread, replay, apply, run, AllWritten,
  contains-run, contains-load-run, run-IsTidy,
}
use liq_ranger.Watchlists.Morpho.{position_of, contains_identity, add, remove}
use liq_ranger.Watchlists.Morpho.Entries.{contains_printed}

abbrev to_added : Option (Address × Hash) → Change
to_added none = unread
to_added (some (b, m)) = added b m

abbrev to_removed : Option (Address × Hash) → Change
to_removed none = unread
to_removed (some (b, m)) = removed b m

module _ (hex : HexCodec) where
  -- What a call means for the set of tracked positions.
  abbrev pub meaning : Call → Change
  meaning (call_add t) = to_added (position_of (to_option (from_str hex t)))
  meaning (call_remove t) = to_removed (position_of (to_option (from_str hex t)))

module _ (hex : HexCodec) (sled : Sled) where
  abbrev pub call : Call → WatchList sled → Outcome sled
  call (call_add t) w = add hex sled w t
  call (call_remove t) w = remove hex sled w t

  abbrev pub calls : List Call → WatchList sled → WatchList sled
  calls [] w = w
  calls (x ∷ xs) w = calls xs (call x w).1

  abbrev pub AllOk : List Call → WatchList sled → Type 0
  AllOk [] w = Unit
  AllOk (x ∷ xs) w = ((call x w).0 ≡ ok tt) × AllOk xs (call x w).1

  call-apply : (x : Call) (w : WatchList sled) → call x w ≡ apply sled (meaning hex x) w
  unfolding add remove apply
  call-apply (call_add t) w = elim (Option-cases (position_of (to_option (from_str hex t)))) [
    | inl q ↦ ground (arith, q)
    | inr ((b, m), q) ↦ ground (arith, q)
  ]
  call-apply (call_remove t) w = elim (Option-cases (position_of (to_option (from_str hex t)))) [
    | inl q ↦ ground (arith, q)
    | inr ((b, m), q) ↦ ground (arith, q)
  ]

  calls-run : (xs : List Call) (w : WatchList sled) → calls xs w ≡ run sled (map (meaning hex) xs) w
  unfolding run
  calls-run [] w = refl
  calls-run (x ∷ xs) w =
      calls-run xs (call x w).1 ∙ ap (λ o. run sled (map (meaning hex) xs) o.1) (call-apply x w)

  all_written :
      (xs : List Call) (w : WatchList sled) → AllOk xs w → AllWritten sled (map (meaning hex) xs) w
  all_written [] w h = tt
  all_written (x ∷ xs) w h = rw⁻¹ (call-apply x w) ((h.0, all_written xs (call x w).1 h.1))

  -- After any sequence of calls, whether or not their writes succeed, the list tracks what the calls
  -- make of the set of positions tracked at first.
  pub contains-calls :
      (xs : List Call) (w : WatchList sled) (n : Hash) (c : Address)
      → contains_identity hex sled (calls xs w) (to_string_id hex (morpho_blue n c))
        ≡ replay (map (meaning hex) xs) (contains sled w) c n
  contains-calls xs w n c =
      rw (contains_printed hex sled (calls xs w) n c, calls-run xs w)
        (contains-run sled (map (meaning hex) xs) w c n)

  -- From a list in step with its tree, after a sequence of calls that all succeed, a list loaded from
  -- the tree tracks what the calls make of the set of positions tracked at first.
  pub contains-load-calls :
      (xs : List Call) (w v : WatchList sled) (n : Hash) (c : Address)
      → Synced sled w
      → AllOk xs w
      → load sled (calls xs w).db ≡ ok v
      → contains_identity hex sled v (to_string_id hex (morpho_blue n c))
        ≡ replay (map (meaning hex) xs) (contains sled w) c n
  contains-load-calls xs w v n c h e l = rw (contains_printed hex sled v n c) (
      contains-load-run sled (map (meaning hex) xs) w v c n h (all_written xs w e)
        (rw (calls-run xs w) at l))

  -- A cache that lists each borrower once, and none with an empty set, is such a cache after any
  -- sequence of calls.
  pub calls-IsTidy :
      (xs : List Call) (w : WatchList sled) → IsTidy sled w → IsTidy sled (calls xs w)
  calls-IsTidy xs w h = rw (calls-run xs w) (run-IsTidy sled (map (meaning hex) xs) w h)
