-- ===== src/Startup/Lifetime.antt =====
-- src/lib.rs: how long a borrower of Aave is tracked, from the first scan to the loop of the updater.
use liq_ranger.Base.{
  ℕ, ◌≤◌, ◌≡◌, ◌∙◌, ap, sym, subst, true, some, List, [], ◌∷◌, ok, All, ok-eq-ok, and_then-eq-ok,
  arith, Option-cases, or_fail, map_err, inl, inr, map_err-eq-ok,
}
use liq_ranger.Core.Identity.{HexCodec, Address, aave_v3, to_string_id}
use liq_ranger.Bootstrap.{start_block}
use liq_ranger.Bootstrap.Aave.{Logs, aave_adapter}
use liq_ranger.Bootstrap.Aave.Complete.{AnswersAll, lists, run_aave_tracks}
use liq_ranger.Bootstrap.Aave.Tidy.{run_aave-IsTidy}
use liq_ranger.Watchlists.Cache.{Items, IsKeyed, has}
use liq_ranger.Watchlists.Sled.{Sled}
use liq_ranger.Watchlists.Tracked.{WatchList, load, loaded, contains}
use liq_ranger.Watchlists.Tracked.Content.{NoEmpty}
use liq_ranger.Watchlists.Tracked.Keyed.{IsTidy, insert-IsKeyed}
use liq_ranger.Watchlists.Aave.{contains_identity}
use liq_ranger.Watchlists.Aave.Entries.{contains_printed_entry}
use liq_ranger.Updaters.Outcome.{goes_on}
use liq_ranger.Updaters.Aave.{Event, start}
use liq_ranger.Updaters.Aave.Runs.{IsOwing, contains-start}
use liq_ranger.Startup.{
  Setup, Running, not_loaded, no_tree, open_list, launch, begin, bootstrap_aave,
}
use liq_ranger.Startup.Ready.{launch-IsReady}

loaded-IsKeyed : (rows cache : List (ℕ × Items)) → IsKeyed cache → IsKeyed (loaded rows cache)
loaded-IsKeyed [] cache h = h
loaded-IsKeyed ((k, v) ∷ rows) cache h = loaded-IsKeyed rows _ (insert-IsKeyed k v cache h)

load-IsKeyed :
    (sled : Sled) (t : sled.Tree) (w : WatchList sled) → load sled t ≡ ok w → IsKeyed w.cache
unfolding load
load-IsKeyed sled t w e = elim (Option-cases (sled.rows t)) [
  | inl q ↦ absurd (ground arith)
  | inr (rows, q) ↦
      subst (λ x. IsKeyed x.cache) (ok-eq-ok _ w (rw (q, load) at e)) (loaded-IsKeyed rows [] tt)
]

module _ (hex : HexCodec) (sled : Sled) (setup : Setup sled) where
  open_list-IsKeyed : (w : WatchList sled) → open_list sled setup.aave_tree ≡ ok w → IsKeyed w.cache
  open_list-IsKeyed w e =
      let (t, there, read) =
        and_then-eq-ok (λ t. map_err not_loaded (load sled t)) (or_fail setup.aave_tree no_tree) w
          e in
      load-IsKeyed sled t w (map_err-eq-ok not_loaded (load sled t) w read)

  -- The blocks that the bootstrap of Aave scans from a list.
  abbrev pub from_block : WatchList sled → ℕ
  from_block w =
      start_block (aave_adapter hex (has setup.reserves) sled) (begin sled w setup.aave_last_block)

  -- After a launch, and while the loop of the Aave updater goes on, each borrower that borrowed, repaid or
  -- was liquidated in a listed reserve in a block that the bootstrap scans is tracked with this
  -- reserve, whatever events and prune rounds come, provided that the node leaves nothing out of its
  -- logs, that the chain never answers that this debt is zero, and that the tree
  -- holds no empty set at the start.
  pub start_tracks :
      (running : Running sled) (w v : WatchList sled) (emitted : ℕ → Logs) (latest block : ℕ)
      (b r : Address) (es : List Event)
      → launch sled hex setup ≡ ok running
      → open_list sled setup.aave_tree ≡ ok w
      → NoEmpty sled w
      → AnswersAll setup.aave_node emitted
      → setup.aave_node.get_block_number ≡ some latest
      → from_block w ≤ block
      → block ≤ latest
      → has setup.reserves r ≡ true
      → lists (emitted block) b r ≡ true
      → All (IsOwing running.vdebt_tokens setup.reserves b r) es
      → start hex sled running.vdebt_tokens setup.reserves running.aave_watchlist es ≡ goes_on v
      → contains_identity hex sled v (to_string_id hex (aave_v3 b r)) ≡ true
  start_tracks running w v emitted latest block b r es e opened full all q l m listed log owing
        served =
      let ready = launch-IsReady hex sled setup running e in
      let same : w ≡ ready.aave_loaded = ok-eq-ok w _ (sym opened ∙ ready.aave_opened) in
      let list : running.aave_watchlist ≡ (bootstrap_aave sled hex setup w).1.watch_list =
        ready.aave_list ∙ ap (λ x. (bootstrap_aave sled hex setup x).1.watch_list) (sym same) in
      let ended : (bootstrap_aave sled hex setup w).0 ≡ ok tt =
        ap (λ x. (bootstrap_aave sled hex setup x).0) same ∙ ready.aave_bootstrapped in
      let p = begin sled w setup.aave_last_block in
      let tracked =
        run_aave_tracks hex (has setup.reserves) sled setup.aave_node emitted p latest block b r all
          q ended l m listed log in
      let tidy =
        run_aave-IsTidy hex (has setup.reserves) sled setup.aave_node p
          (open_list-IsKeyed w opened, full) in
      let at_start : contains sled running.aave_watchlist b r ≡ true =
        sym (contains_printed_entry hex sled running.aave_watchlist b r)
        ∙ ap (λ x. contains_identity hex sled x (to_string_id hex (aave_v3 b r))) list
        ∙ tracked in
      let kept =
        contains-start running.vdebt_tokens setup.reserves b r hex sled es running.aave_watchlist v
          (subst (IsTidy sled) (sym list) tidy) owing served in
      contains_printed_entry hex sled v b r ∙ kept ∙ rw at_start (ground arith)
