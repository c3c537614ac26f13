-- ===== src/Bootstrap/Aave/Tidy.antt =====
-- src/adapters/aave_bootstrap_adapter.rs: the shape of the list after a bootstrap.
use liq_ranger.Base.{
  Bool, List, [], ◌∷◌, Bool-cases, Option-cases, Result-cases, inl, inr, to_option,
}
use liq_ranger.Core.Identity.{HexCodec, Text, Address, from_str}
use liq_ranger.Watchlists.Sled.{Sled}
use liq_ranger.Watchlists.Tracked.{WatchList}
use liq_ranger.Watchlists.Tracked.Keyed.{IsTidy, track-IsTidy}
use liq_ranger.Watchlists.Aave.{contains_identity, add, entry_of}
use liq_ranger.Bootstrap.{Node, Progress, add_entries}
use liq_ranger.Bootstrap.Watched.{run_preserves}
use liq_ranger.Bootstrap.Aave.{Logs, aave_adapter, run_aave}

module _ (hex : HexCodec) (whitelisted : Address → Bool) (sled : Sled) where
  add-IsTidy :
      (list : WatchList sled) (t : Text) → IsTidy sled list → IsTidy sled (add hex sled list t).1
  unfolding add
  add-IsTidy list t h = elim (Option-cases (entry_of (to_option (from_str hex t)))) [
    | inl q ↦ rw (q, add) h
    | inr ((c, s), q) ↦ rw (q, add) (track-IsTidy sled list c s h)
  ]

  add_entries-IsTidy :
      (ts : List Text) (list : WatchList sled)
      → IsTidy sled list
      → IsTidy sled (add_entries (aave_adapter hex whitelisted sled) ts list).1
  unfolding add_entries aave_adapter
  add_entries-IsTidy [] list h = h
  add_entries-IsTidy (t ∷ ts) list h = elim (Bool-cases (contains_identity hex sled list t)) [
    | inl k ↦ rw k (add_entries-IsTidy ts list h)
    | inr k ↦ elim (Result-cases (add hex sled list t).0) [
      | inl (u, q) ↦ rw (k, q) (add_entries-IsTidy ts _ (add-IsTidy list t h))
      | inr (x, q) ↦ rw (k, q) (add-IsTidy list t h)
    ]
  ]

  pub run_aave-IsTidy :
      (node : Node Logs) (p : Progress (WatchList sled))
      → IsTidy sled p.watch_list
      → IsTidy sled (run_aave hex whitelisted sled node p).1.watch_list
  unfolding run_aave
  run_aave-IsTidy node p h =
      run_preserves (aave_adapter hex whitelisted sled) node (IsTidy sled)
        (λ logs list k. add_entries-IsTidy _ list k) p h
