-- ===== src/Bootstrap/Morpho/Dropped.antt =====
-- src/adapters/morpho_bootstrap_adapter.rs: what a bootstrap of Morpho adds to the watchlist.
use liq_ranger.Base.{◌≡◌, refl, Bool, List, [], ◌∷◌, ◌++◌, All, ok, arith, inl, inr, Bool-cases}
use liq_ranger.Core.Identity.{HexCodec, Text, Hash}
use liq_ranger.Readers.Morpho.{unique, contains}
use liq_ranger.Watchlists.Sled.{Sled}
use liq_ranger.Watchlists.Tracked.{WatchList}
use liq_ranger.Watchlists.Morpho.Entries.{add_swapped}
use liq_ranger.Bootstrap.{Node, Progress, add_entries}
use liq_ranger.Bootstrap.Watched.{run_preserves}
use liq_ranger.Bootstrap.Morpho.{
  Event, Logs, entry, entries_from, entries_of, morpho_adapter, run_morpho,
}

module _ (P : Text → Type 0) where
  append-All : (ss ts : List Text) → All P ss → All P ts → All P (ss ++ ts)
  append-All [] ts a b = b
  append-All (s ∷ ss) ts a b = (a.0, append-All ss ts a.1 b)

  unique-All : (ts : List Text) → All P ts → All P (unique ts)
  unique-All [] a = tt
  unique-All (t ∷ ts) a = elim (Bool-cases (contains ts t)) [
    | inl h ↦ rw h (unique-All ts a.1)
    | inr h ↦ rw h ((a.0, unique-All ts a.1))
  ]

module _ (hex : HexCodec) (whitelisted : Hash → Bool) where
  IsEntry : Text → Type 0
  IsEntry t = (ev : Event) × (t ≡ entry hex whitelisted ev)

  entries_from-IsEntry : (evs : List Event) → All IsEntry (entries_from hex whitelisted evs)
  unfolding IsEntry
  entries_from-IsEntry [] = tt
  entries_from-IsEntry (ev ∷ evs) = elim (Bool-cases (whitelisted ev.id)) [
    | inl h ↦ simp h (((ev, refl), entries_from-IsEntry evs))
    | inr h ↦ simp h (entries_from-IsEntry evs)
  ]

  entries_of-IsEntry : (logs : Logs) → All IsEntry (entries_of hex whitelisted logs)
  entries_of-IsEntry logs =
      append-All IsEntry _ _ (entries_from-IsEntry logs.borrows)
        (append-All IsEntry _ _ (entries_from-IsEntry logs.repays) (entries_from-IsEntry logs.liqs))

  module _ (sled : Sled) where
    add_entry :
        (list : WatchList sled) (t : Text)
        → IsEntry t
        → (morpho_adapter hex whitelisted sled).add list t ≡ (ok tt, list)
    unfolding morpho_adapter IsEntry
    add_entry list t (ev, e) = rw e (add_swapped hex sled list ev.borrower ev.id)

    add_entries_same :
        (list : WatchList sled) (ts : List Text)
        → All IsEntry ts
        → add_entries (morpho_adapter hex whitelisted sled) ts list ≡ (ok tt, list)
    unfolding add_entries
    add_entries_same list [] a = refl
    add_entries_same list (t ∷ ts) a =
        let ih = add_entries_same list ts a.1 in
        let here = add_entry list t a.0 in
        elim (Bool-cases ((morpho_adapter hex whitelisted sled).contains_identity list t)) [
          | inl b ↦ rw b ih
          | inr b ↦ ground (arith, ih, here)
        ]

    batch_same :
        (kept : WatchList sled) (logs : Logs) (list : WatchList sled)
        → list ≡ kept
        → (add_entries
            (morpho_adapter hex whitelisted sled)
            (unique ((morpho_adapter hex whitelisted sled).entries_of logs))
            list).1
          ≡ kept
    unfolding morpho_adapter
    batch_same kept logs list e =
        let h = unique-All IsEntry (entries_of hex whitelisted logs) (entries_of-IsEntry logs) in
        rw (add_entries_same list (unique (entries_of hex whitelisted logs)) h) e

    -- Whatever logs the node has, a bootstrap of Morpho leaves the watchlist as it was: it prints
    -- each entry with the borrower before the market, and such a text is no identity.
    pub run_morpho_same :
        (node : Node Logs) (p : Progress (WatchList sled))
        → (run_morpho hex whitelisted sled node p).1.watch_list ≡ p.watch_list
    unfolding run_morpho
    run_morpho_same node p =
        run_preserves (morpho_adapter hex whitelisted sled) node (λ list. list ≡ p.watch_list)
          (batch_same p.watch_list) p refl
