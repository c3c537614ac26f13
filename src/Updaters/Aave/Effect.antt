-- ===== src/Updaters/Aave/Effect.antt =====
-- src/watchlists/watchlist_updaters/aave_watchlist_updater.rs: the events, against the set of tracked
-- entries.
use liq_ranger.Base.{
  ℕ, ◌≡◌, refl, ap, sym, ◌∙◌, Bool, true, false, not, ◌&&◌, ◌||◌, ◌==◌, none, List, [], ◌∷◌, ◌++◌,
  map, Bool-cases, Option-cases, inl, inr,
}
use liq_ranger.Core.Identity.{HexCodec, Text, Address, aave_v3}
use liq_ranger.Core.Identity.RoundTrip.{from_str-to_string_id}
use liq_ranger.Readers.Aave.{Account, Tokens, has_outstanding_debt}
use liq_ranger.Readers.Morpho.{contains as is_listed}
use liq_ranger.Watchlists.Cache.{Items, has, lookup}
use liq_ranger.Watchlists.Sled.{Sled}
use liq_ranger.Watchlists.Tracked.{WatchList, contains}
use liq_ranger.Watchlists.Tracked.Content.{contains-track}
use liq_ranger.Watchlists.Tracked.Keyed.{IsTidy}
use liq_ranger.Watchlists.Tracked.Refines.{Entries}
use liq_ranger.Watchlists.Aave.{listing, snapshot}
use liq_ranger.Watchlists.Aave.Entries.{add_printed, remove_printed}
use liq_ranger.Watchlists.Aave.Listing.{text, text_eq-text, stands_for, snapshot-stands_for}
use liq_ranger.Updaters.Outcome.{debt_unknown, fails}
use liq_ranger.Updaters.Sweep.{
  Pairs, has_pair, is_cleared, drop_cleared, sweep, contains-drop_cleared, contains-sweep,
}
use liq_ranger.Updaters.Aave.{
  PoolEvent, borrow, repay, liquidation_call, other_event, pool_event, check_and_remove_by_identity,
  check_each, prune_watchlist, remove_if_no_debt, handle_event, step,
}

abbrev first_of : ℕ → Items → Pairs
first_of b [] = []
first_of b (r ∷ set) = (b, r) ∷ []

abbrev pub firsts : List (ℕ × Items) → Pairs
firsts [] = []
firsts ((b, set) ∷ cache) = first_of b set ++ firsts cache

module _ (hex : HexCodec) where
  abbrev print : ℕ × ℕ → Text
  print p = text hex p.0 p.1

  listing-firsts : (cache : List (ℕ × Items)) → listing hex cache ≡ map print (firsts cache)
  listing-firsts [] = refl
  listing-firsts ((b, []) ∷ cache) = listing-firsts cache
  listing-firsts ((b, r ∷ set) ∷ cache) = ap (λ l. print (b, r) ∷ l) (listing-firsts cache)

  is_listed-print :
      (ps : Pairs) (c q : ℕ) → is_listed (map print ps) (text hex c q) ≡ has_pair ps c q
  is_listed-print [] c q = refl
  is_listed-print ((b, r) ∷ ps) c q = rw (text_eq-text hex b c r q, is_listed-print ps c q) refl

module _ (vdebt_tokens : Tokens) where
  -- The chain has answered that the borrower has no debt in the reserve.
  abbrev pub is_free : Account → ℕ → ℕ → Bool
  is_free account borrower reserve =
      is_cleared (has_outstanding_debt account vdebt_tokens borrower reserve)

  -- What an event of the pool means for the set of tracked entries.
  abbrev pub effect : Items → Account → PoolEvent → Entries → Entries
  effect reserves account (borrow b r) s c q = (has reserves r && (c == b && q == r)) || s c q
  effect reserves account (repay b r) s c q =
      not (has reserves r && (b == c && r == q) && is_free account c q) && s c q
  effect reserves account (liquidation_call b r) s c q =
      not (has reserves r && (b == c && r == q) && is_free account c q) && s c q
  effect reserves account other_event s c q = s c q

module _ (hex : HexCodec) (sled : Sled) (vdebt_tokens : Tokens) where
  check_printed :
      (account : Account) (w : WatchList sled) (b r : ℕ)
      → (check_and_remove_by_identity hex sled vdebt_tokens account w (text hex b r)).1
        ≡ drop_cleared sled (is_free vdebt_tokens account) w b r
  unfolding check_and_remove_by_identity
  check_printed account w b r =
      rw (from_str-to_string_id hex (aave_v3 b r))
        (elim (Option-cases (has_outstanding_debt account vdebt_tokens b r)) [
          | inl q ↦ rw q refl
          | inr (true, q) ↦ rw q refl
          | inr (false, q) ↦ rw (q, remove_printed hex sled w b r) refl
        ])

  check_each-sweep :
      (account : Account) (ps : Pairs) (w : WatchList sled)
      → check_each hex sled vdebt_tokens account w (map (print hex) ps)
        ≡ sweep sled (is_free vdebt_tokens account) ps w
  unfolding check_each
  check_each-sweep account [] w = refl
  check_each-sweep account ((b, r) ∷ ps) w =
      ap (λ v. check_each hex sled vdebt_tokens account v (map (print hex) ps))
        (check_printed account w b r)
      ∙ check_each-sweep account ps (drop_cleared sled (is_free vdebt_tokens account) w b r)

  pub prune-sweep :
      (account : Account) (w : WatchList sled)
      → prune_watchlist hex sled vdebt_tokens account w
        ≡ sweep sled (is_free vdebt_tokens account) (firsts w.cache) w
  unfolding prune_watchlist snapshot
  prune-sweep account w =
      rw (listing-firsts hex w.cache) (check_each-sweep account (firsts w.cache) w)

  has_pair-firsts :
      (w : WatchList sled) (c q : ℕ)
      → IsTidy sled w
      → has_pair (firsts w.cache) c q ≡ stands_for (lookup c w.cache) q
  unfolding snapshot
  has_pair-firsts w c q h =
      sym (is_listed-print hex (firsts w.cache) c q)
      ∙ ap (λ l. is_listed l (text hex c q)) (sym (listing-firsts hex w.cache))
      ∙ snapshot-stands_for hex sled w c q h.0

  -- A round of pruning asks about one entry of each borrower, the one that stands for the borrower
  -- in the snapshot: afterwards just those entries are tracked that were before, and that do not
  -- stand for their borrower or that the chain has not reported as free of debt.
  pub contains-prune_watchlist_entry :
      (account : Account) (w : WatchList sled) (c q : ℕ)
      → IsTidy sled w
      → contains sled (prune_watchlist hex sled vdebt_tokens account w) c q ≡ (
          not (stands_for (lookup c w.cache) q && is_free vdebt_tokens account c q)
          && contains sled w c q)
  contains-prune_watchlist_entry account w c q h =
      rw
        (
          prune-sweep account w,
          contains-sweep sled (is_free vdebt_tokens account) (firsts w.cache) w c q,
          has_pair-firsts w c q h,
        )
        refl

  pub removed :
      (account : Account) (w : WatchList sled) (b r : ℕ)
      → (remove_if_no_debt hex sled vdebt_tokens account w b r).1
        ≡ drop_cleared sled (is_free vdebt_tokens account) w b r
  unfolding remove_if_no_debt
  removed account w b r = check_printed account w b r

  module _ (reserves : Items) (account : Account) (w : WatchList sled) where
    abbrev handled : PoolEvent → WatchList sled
    handled e = (handle_event hex sled vdebt_tokens reserves account w e).1

    -- After an event of the pool, also where it is an error, just those entries are tracked that the
    -- event makes of those before: a borrow of a listed reserve adds its entry, and a repayment or a
    -- liquidation in one removes its entry if the chain has answered that no debt is left.
    pub contains-handle_event :
        (e : PoolEvent) (c q : ℕ)
        → contains sled (handle_event hex sled vdebt_tokens reserves account w e).1 c q
          ≡ effect vdebt_tokens reserves account e (contains sled w) c q
    unfolding handle_event
    contains-handle_event (borrow b r) c q = elim (Bool-cases (has reserves r)) [
      | inr n ↦ rw n refl
      | inl y ↦ rw (y, add_printed hex sled w b r, contains-track sled w b r c q) refl
    ]
    contains-handle_event (repay b r) c q = elim (Bool-cases (has reserves r)) [
      | inr n ↦ rw n refl
      | inl y ↦
          rw
            (
              y,
              removed account w b r,
              contains-drop_cleared sled (is_free vdebt_tokens account) w b r c q,
            )
            refl
    ]
    contains-handle_event (liquidation_call b r) c q = elim (Bool-cases (has reserves r)) [
      | inr n ↦ rw n refl
      | inl y ↦
          rw
            (
              y,
              removed account w b r,
              contains-drop_cleared sled (is_free vdebt_tokens account) w b r c q,
            )
            refl
    ]
    contains-handle_event other_event c q = refl

    -- A repayment in a listed reserve, whose debt the chain does not tell, ends the updater with an
    -- error and leaves the list as it was.
    pub step_debt_unknown :
        (b r : Address)
        → has reserves r ≡ true
        → has_outstanding_debt account vdebt_tokens b r ≡ none
        → step hex sled vdebt_tokens reserves w (pool_event (repay b r) account)
          ≡ fails debt_unknown w
    unfolding step handle_event remove_if_no_debt check_and_remove_by_identity
    step_debt_unknown b r h n = rw (h, from_str-to_string_id hex (aave_v3 b r), n) refl
