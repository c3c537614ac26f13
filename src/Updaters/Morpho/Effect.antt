-- ===== src/Updaters/Morpho/Effect.antt =====
-- src/watchlists/watchlist_updaters/morpho_watchlist_updater.rs: the events, against the set of tracked
-- positions.
use liq_ranger.Base.{
  ℕ, ◌≡◌, refl, ap, sym, ◌∙◌, Bool, true, false, not, ◌&&◌, ◌||◌, ◌==◌, Option, none, some, List,
  [], ◌∷◌, ◌++◌, map, arith, Bool-cases, Option-cases, inl, inr,
}
use liq_ranger.Core.Identity.{HexCodec, Text, Address, morpho_blue}
use liq_ranger.Core.Types.{Position}
use liq_ranger.Core.Identity.RoundTrip.{from_str-to_string_id}
use liq_ranger.Readers.Morpho.{contains as is_listed}
use liq_ranger.Watchlists.Cache.{Items, has}
use liq_ranger.Watchlists.Sled.{Sled}
use liq_ranger.Watchlists.Tracked.{WatchList, contains, track}
use liq_ranger.Watchlists.Tracked.Content.{contains-track}
use liq_ranger.Watchlists.Tracked.Keyed.{IsTidy, track-IsTidy}
use liq_ranger.Watchlists.Tracked.Refines.{Entries}
use liq_ranger.Watchlists.Morpho.{listed, listing, snapshot}
use liq_ranger.Watchlists.Morpho.Entries.{add_printed, remove_printed, contains_printed}
use liq_ranger.Watchlists.Morpho.Listing.{text, text_eq-text, snapshot-contains}
use liq_ranger.Updaters.Outcome.{prune, status_check, turn, list_of, list_of-turn}
use liq_ranger.Updaters.Sweep.{
  Pairs, has_pair, is_cleared, drop_cleared, sweep, contains-drop_cleared, contains-sweep,
  drop_cleared-IsTidy, sweep-IsTidy,
}
use liq_ranger.Updaters.Morpho.{
  Positions, has_outstanding_debt_morpho, Event, shutdown, channel_closed, silent, command, borrow,
  repay, liquidate, check_and_remove_by_identity, check_each, prune_watchlist, add_borrow,
  remove_if_cleared, step,
}

-- The contract has answered with a position that owes no shares.
abbrev pub owes_nothing : Option Position → Bool
owes_nothing none = false
owes_nothing (some p) = p.borrow_shares == 0

abbrev pub is_free : Positions → ℕ → ℕ → Bool
is_free position borrower market = owes_nothing (position market borrower)

is_cleared-is_free :
    (position : Positions) (borrower market : ℕ)
    → is_cleared (has_outstanding_debt_morpho position borrower market)
      ≡ is_free position borrower market
unfolding has_outstanding_debt_morpho
is_cleared-is_free position borrower market = elim (Option-cases (position market borrower)) [
  | inl q ↦ rw (q, has_outstanding_debt_morpho) refl
  | inr (p, q) ↦ elim (Bool-cases (p.borrow_shares == 0)) [
    | inl z ↦ rw (q, has_outstanding_debt_morpho, z) refl
    | inr z ↦ rw (q, has_outstanding_debt_morpho, z) refl
  ]
]

-- What an event means for the set of tracked positions.
abbrev pub effect : Items → Event → Entries → Entries
effect markets (borrow b m) s c n = (has markets m && (c == b && n == m)) || s c n
effect markets (repay b m position) s c n =
    not (has markets m && (b == c && m == n) && is_free position c n) && s c n
effect markets (liquidate b m position) s c n =
    not (has markets m && (b == c && m == n) && is_free position c n) && s c n
effect markets (command prune position) s c n = not (is_free position c n) && s c n
effect markets (command status_check position) s c n = s c n
effect markets shutdown s c n = s c n
effect markets channel_closed s c n = s c n
effect markets silent s c n = s c n

abbrev pairs_of : ℕ → Items → Pairs
pairs_of b set = map (λ m. (b, m)) set

abbrev pairs : List (ℕ × Items) → Pairs
pairs [] = []
pairs ((b, set) ∷ cache) = pairs_of b set ++ pairs cache

module _ (hex : HexCodec) where
  abbrev print : ℕ × ℕ → Text
  print p = text hex p.1 p.0

  print-append : (ps qs : Pairs) → map print (ps ++ qs) ≡ map print ps ++ map print qs
  print-append [] qs = refl
  print-append (p ∷ ps) qs = ap (λ l. print p ∷ l) (print-append ps qs)

  listed-pairs : (b : Address) (set : Items) → listed hex b set ≡ map print (pairs_of b set)
  listed-pairs b [] = refl
  listed-pairs b (m ∷ set) = ap (λ l. print (b, m) ∷ l) (listed-pairs b set)

  listing-pairs : (cache : List (ℕ × Items)) → listing hex cache ≡ map print (pairs cache)
  listing-pairs [] = refl
  listing-pairs ((b, set) ∷ cache) =
      rw (listed-pairs b set, listing-pairs cache, print-append (pairs_of b set) (pairs cache)) refl

  is_listed-print :
      (ps : Pairs) (c n : ℕ) → is_listed (map print ps) (text hex n c) ≡ has_pair ps c n
  is_listed-print [] c n = refl
  is_listed-print ((b, m) ∷ ps) c n = rw (text_eq-text hex m n b c, is_listed-print ps c n) refl

module _ (hex : HexCodec) (sled : Sled) where
  check_printed :
      (position : Positions) (w : WatchList sled) (b m : ℕ)
      → (check_and_remove_by_identity hex sled position w (text hex m b)).1
        ≡ drop_cleared sled (is_free position) w b m
  unfolding check_and_remove_by_identity
  check_printed position w b m =
      rw (from_str-to_string_id hex (morpho_blue m b), sym (is_cleared-is_free position b m))
        (elim (Option-cases (has_outstanding_debt_morpho position b m)) [
          | inl q ↦ rw q refl
          | inr (true, q) ↦ rw q refl
          | inr (false, q) ↦ rw (q, remove_printed hex sled w m b) refl
        ])

  check_each-sweep :
      (position : Positions) (ps : Pairs) (w : WatchList sled)
      → check_each hex sled position w (map (print hex) ps) ≡ sweep sled (is_free position) ps w
  unfolding check_each
  check_each-sweep position [] w = refl
  check_each-sweep position ((b, m) ∷ ps) w =
      ap (λ v. check_each hex sled position v (map (print hex) ps)) (check_printed position w b m)
      ∙ check_each-sweep position ps (drop_cleared sled (is_free position) w b m)

  prune-sweep :
      (position : Positions) (w : WatchList sled)
      → prune_watchlist hex sled position w ≡ sweep sled (is_free position) (pairs w.cache) w
  unfolding prune_watchlist snapshot
  prune-sweep position w =
      rw (listing-pairs hex w.cache) (check_each-sweep position (pairs w.cache) w)

  has_pair-pairs :
      (w : WatchList sled) (c n : ℕ)
      → IsTidy sled w
      → has_pair (pairs w.cache) c n ≡ contains sled w c n
  unfolding snapshot
  has_pair-pairs w c n h =
      sym (is_listed-print hex (pairs w.cache) c n)
      ∙ ap (λ l. is_listed l (text hex n c)) (sym (listing-pairs hex w.cache))
      ∙ snapshot-contains hex sled w n c h.0
      ∙ contains_printed hex sled w n c

  -- After a round of pruning just those positions are tracked that were before, and that the
  -- contract has not reported as free of debt: each tracked position is asked about, and no other.
  pub contains-prune_watchlist :
      (position : Positions) (w : WatchList sled) (c n : ℕ)
      → IsTidy sled w
      → contains sled (prune_watchlist hex sled position w) c n
        ≡ (not (is_free position c n) && contains sled w c n)
  contains-prune_watchlist position w c n h =
      rw
        (
          prune-sweep position w,
          contains-sweep sled (is_free position) (pairs w.cache) w c n,
          has_pair-pairs w c n h,
        )
        (ground arith)

  added :
      (w : WatchList sled) (b m : ℕ)
      → list_of sled (turn sled (add_borrow hex sled w b m)) ≡ (track sled w b m).1
  unfolding add_borrow
  added w b m =
      list_of-turn sled (add_borrow hex sled w b m) ∙ ap (λ o. o.1) (add_printed hex sled w m b)

  removed :
      (position : Positions) (w : WatchList sled) (b m : ℕ)
      → list_of sled (turn sled (remove_if_cleared hex sled position w b m))
        ≡ drop_cleared sled (is_free position) w b m
  unfolding remove_if_cleared
  removed position w b m =
      list_of-turn sled (remove_if_cleared hex sled position w b m) ∙ check_printed position w b m

  module _ (markets : Items) where
    -- The list after one event.
    pub contains-step :
        (w : WatchList sled) (e : Event) (c n : ℕ)
        → IsTidy sled w
        → contains sled (list_of sled (step hex sled markets w e)) c n
          ≡ effect markets e (contains sled w) c n
    unfolding step
    contains-step w shutdown c n h = refl
    contains-step w channel_closed c n h = refl
    contains-step w silent c n h = refl
    contains-step w (command prune position) c n h = contains-prune_watchlist position w c n h
    contains-step w (command status_check position) c n h = refl
    contains-step w (borrow b m) c n h = elim (Bool-cases (has markets m)) [
      | inr q ↦ rw q refl
      | inl q ↦ rw (q, added w b m, contains-track sled w b m c n) refl
    ]
    contains-step w (repay b m position) c n h = elim (Bool-cases (has markets m)) [
      | inr q ↦ rw q refl
      | inl q ↦
          rw (q, removed position w b m, contains-drop_cleared sled (is_free position) w b m c n)
            refl
    ]
    contains-step w (liquidate b m position) c n h = elim (Bool-cases (has markets m)) [
      | inr q ↦ rw q refl
      | inl q ↦
          rw (q, removed position w b m, contains-drop_cleared sled (is_free position) w b m c n)
            refl
    ]

    pub step-IsTidy :
        (w : WatchList sled) (e : Event)
        → IsTidy sled w
        → IsTidy sled (list_of sled (step hex sled markets w e))
    unfolding step
    step-IsTidy w shutdown h = h
    step-IsTidy w channel_closed h = h
    step-IsTidy w silent h = h
    step-IsTidy w (command prune position) h =
        rw (prune-sweep position w) (sweep-IsTidy sled (is_free position) (pairs w.cache) w h)
    step-IsTidy w (command status_check position) h = h
    step-IsTidy w (borrow b m) h = elim (Bool-cases (has markets m)) [
      | inr q ↦ rw q h
      | inl q ↦ rw (q, added w b m) (track-IsTidy sled w b m h)
    ]
    step-IsTidy w (repay b m position) h = elim (Bool-cases (has markets m)) [
      | inr q ↦ rw q h
      | inl q ↦ rw (q, removed position w b m) (drop_cleared-IsTidy sled (is_free position) w b m h)
    ]
    step-IsTidy w (liquidate b m position) h = elim (Bool-cases (has markets m)) [
      | inr q ↦ rw q h
      | inl q ↦ rw (q, removed position w b m) (drop_cleared-IsTidy sled (is_free position) w b m h)
    ]
