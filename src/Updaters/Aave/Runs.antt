-- ===== src/Updaters/Aave/Runs.antt =====
-- src/watchlists/watchlist_updaters/aave_watchlist_updater.rs: the loop over its events.
use liq_ranger.Base.{
  ℕ, ◌≡◌, refl, ap, sym, ◌∙◌, Bool, false, ◌&&◌, ◌||◌, ◌==◌, List, [], ◌∷◌, arith, All, Bool-cases,
  inl, inr,
}
use liq_ranger.Core.Identity.{HexCodec}
use liq_ranger.Readers.Aave.{Account, Tokens}
use liq_ranger.Watchlists.Cache.{Items, has}
use liq_ranger.Watchlists.Sled.{Sled}
use liq_ranger.Watchlists.Tracked.{WatchList, contains}
use liq_ranger.Watchlists.Tracked.Keyed.{IsTidy, track-IsTidy}
use liq_ranger.Watchlists.Aave.Entries.{add_printed}
use liq_ranger.Updaters.Outcome.{
  prune, status_check, Turn, goes_on, stops, fails, list_of, list_of-turn,
}
use liq_ranger.Updaters.Sweep.{drop_cleared-IsTidy, sweep-IsTidy}
use liq_ranger.Updaters.Aave.{
  PoolEvent, borrow, repay, liquidation_call, other_event, Event, shutdown, channel_closed,
  stream_failed, stream_ended, pool_event, command, handle_event, step, after, start,
}
use liq_ranger.Updaters.Aave.Effect.{
  firsts, is_free, contains-prune_watchlist_entry, contains-handle_event, prune-sweep, removed,
}

module _ (vdebt_tokens : Tokens) (reserves : Items) (c q : ℕ) where
  -- While the event is served, the chain does not answer that the borrower `c` has no debt in `q`.
  abbrev pub IsOwing : Event → Type 0
  IsOwing (pool_event e account) = is_free vdebt_tokens account c q ≡ false
  IsOwing (command cmd account) = is_free vdebt_tokens account c q ≡ false
  IsOwing shutdown = Unit
  IsOwing channel_closed = Unit
  IsOwing stream_failed = Unit
  IsOwing stream_ended = Unit

  -- The event is a borrow of `c` in `q`, which is listed.
  abbrev pub is_borrow : Event → Bool
  is_borrow (pool_event (borrow b r) account) = has reserves r && (c == b && q == r)
  is_borrow _ = false

  abbrev pub any_borrow : List Event → Bool
  any_borrow [] = false
  any_borrow (e ∷ es) = is_borrow e || any_borrow es

  module _ (hex : HexCodec) (sled : Sled) where
    abbrev taken : WatchList sled → Event → Turn sled
    taken w e = step hex sled vdebt_tokens reserves w e

    contains-taken :
        (w : WatchList sled) (e : Event)
        → IsTidy sled w
        → IsOwing e
        → contains sled (list_of sled (taken w e)) c q ≡ (is_borrow e || contains sled w c q)
    unfolding step
    contains-taken w shutdown h o = refl
    contains-taken w channel_closed h o = refl
    contains-taken w stream_failed h o = refl
    contains-taken w stream_ended h o = refl
    contains-taken w (command prune account) h o =
        contains-prune_watchlist_entry hex sled vdebt_tokens account w c q h ∙ rw o (ground arith)
    contains-taken w (command status_check account) h o = refl
    contains-taken w (pool_event (borrow b r) account) h o =
        rw (list_of-turn sled (handle_event hex sled vdebt_tokens reserves account w (borrow b r)))
          (contains-handle_event hex sled vdebt_tokens reserves account w (borrow b r) c q)
    contains-taken w (pool_event (repay b r) account) h o =
        rw (list_of-turn sled (handle_event hex sled vdebt_tokens reserves account w (repay b r))) (
          contains-handle_event hex sled vdebt_tokens reserves account w (repay b r) c q
          ∙ rw o (ground arith))
    contains-taken w (pool_event (liquidation_call b r) account) h o =
        rw
          (list_of-turn sled
            (handle_event hex sled vdebt_tokens reserves account w (liquidation_call b r)))
          (contains-handle_event hex sled vdebt_tokens reserves account w (liquidation_call b r) c q
            ∙ rw o (ground arith))
    contains-taken w (pool_event other_event account) h o =
        rw (list_of-turn sled (handle_event hex sled vdebt_tokens reserves account w other_event))
          (contains-handle_event hex sled vdebt_tokens reserves account w other_event c q)

    handle_event-IsTidy :
        (account : Account) (w : WatchList sled) (e : PoolEvent)
        → IsTidy sled w
        → IsTidy sled (handle_event hex sled vdebt_tokens reserves account w e).1
    unfolding handle_event
    handle_event-IsTidy account w (borrow b r) h = elim (Bool-cases (has reserves r)) [
      | inr n ↦ rw n h
      | inl y ↦ rw (y, add_printed hex sled w b r) (track-IsTidy sled w b r h)
    ]
    handle_event-IsTidy account w (repay b r) h = elim (Bool-cases (has reserves r)) [
      | inr n ↦ rw n h
      | inl y ↦
          rw (y, removed hex sled vdebt_tokens account w b r)
            (drop_cleared-IsTidy sled (is_free vdebt_tokens account) w b r h)
    ]
    handle_event-IsTidy account w (liquidation_call b r) h = elim (Bool-cases (has reserves r)) [
      | inr n ↦ rw n h
      | inl y ↦
          rw (y, removed hex sled vdebt_tokens account w b r)
            (drop_cleared-IsTidy sled (is_free vdebt_tokens account) w b r h)
    ]
    handle_event-IsTidy account w other_event h = h

    taken-IsTidy :
        (w : WatchList sled) (e : Event) → IsTidy sled w → IsTidy sled (list_of sled (taken w e))
    unfolding step
    taken-IsTidy w shutdown h = h
    taken-IsTidy w channel_closed h = h
    taken-IsTidy w stream_failed h = h
    taken-IsTidy w stream_ended h = h
    taken-IsTidy w (command prune account) h =
        rw (prune-sweep hex sled vdebt_tokens account w)
          (sweep-IsTidy sled (is_free vdebt_tokens account) (firsts w.cache) w h)
    taken-IsTidy w (command status_check account) h = h
    taken-IsTidy w (pool_event e account) h =
        rw (list_of-turn sled (handle_event hex sled vdebt_tokens reserves account w e))
          (handle_event-IsTidy account w e h)

    abbrev rest : List Event → WatchList sled → Turn sled
    rest es w = start hex sled vdebt_tokens reserves w es

    after-any_borrow :
        (e : Event) (es : List Event) (before : Bool) (t : Turn sled) (v : WatchList sled)
        → IsTidy sled (list_of sled t)
        → contains sled (list_of sled t) c q ≡ (is_borrow e || before)
        → ((u : WatchList sled)
            → IsTidy sled u
            → rest es u ≡ goes_on v
            → contains sled v c q ≡ (any_borrow es || contains sled u c q))
        → after hex sled vdebt_tokens reserves (rest es) t ≡ goes_on v
        → contains sled v c q ≡ ((is_borrow e || any_borrow es) || before)
    after-any_borrow e es before (goes_on u) v h k ih r =
        ih u h r ∙ ap (λ b. any_borrow es || b) k ∙ ground arith
    after-any_borrow e es before (stops u) v h k ih r = absurd (cc)
    after-any_borrow e es before (fails x u) v h k ih r = absurd (cc)

    -- While the loop goes on, and the chain does not answer in between that an account has no debt in
    -- a reserve, just then is this entry tracked if it was at first or if a borrow has come in the
    -- listed reserve: no round of pruning, repayment or liquidation drops it.
    pub contains-start :
        (es : List Event) (w v : WatchList sled)
        → IsTidy sled w
        → All IsOwing es
        → start hex sled vdebt_tokens reserves w es ≡ goes_on v
        → contains sled v c q ≡ (any_borrow es || contains sled w c q)
    unfolding start
    contains-start [] w v h o r = let same : w ≡ v = cc in ap (λ x. contains sled x c q) (sym same)
    contains-start (e ∷ es) w v h (o, os) r =
        after-any_borrow e es (contains sled w c q) (taken w e) v (taken-IsTidy w e h)
          (contains-taken w e h o) (λ u k s. contains-start es u v k os s) r
