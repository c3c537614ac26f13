-- ===== src/Bootstrap/Aave/Complete.antt =====
-- src/adapters/aave_bootstrap_adapter.rs: no event of a scanned block is missed.
use liq_ranger.Base.{
  ℕ, ◌≤◌, ◌≡◌, refl, subst, Bool, true, false, ◌&&◌, ◌||◌, ◌==◌, some, List, [], ◌∷◌, ◌++◌, ok,
  arith, Bool-cases, inl, inr,
}
use liq_ranger.Core.Identity.{HexCodec, Text, Address, aave_v3, to_string_id}
use liq_ranger.Core.Identity.Layout.{text_eq_refl}
use liq_ranger.Readers.Morpho.{contains}
use liq_ranger.Watchlists.Sled.{Sled}
use liq_ranger.Watchlists.Tracked.{WatchList}
use liq_ranger.Watchlists.Aave.{contains_identity}
use liq_ranger.Bootstrap.{Node, Progress, start_block}
use liq_ranger.Bootstrap.Complete.{run_brings}
use liq_ranger.Bootstrap.Aave.{Event, Logs, entry, entries_from, entries_of, aave_adapter, run_aave}
use liq_ranger.Bootstrap.Aave.Tracks.{IsTracked, add_entries_keeps, batch_tracks}

-- An event of the borrower in the reserve.
abbrev pub names : List Event → (borrower reserve : Address) → Bool
names [] b r = false
names (ev ∷ evs) b r = (b == ev.borrower && r == ev.reserve) || names evs b r

abbrev pub lists : Logs → (borrower reserve : Address) → Bool
lists logs b r = names logs.borrows b r || (names logs.repays b r || names logs.liqs b r)

-- The answers of the node to a query hold the logs of each block of its range.
abbrev pub AnswersAll : Node Logs → (emitted : ℕ → Logs) → Type 0
AnswersAll node emitted =
    (attempt first last block : ℕ) (logs : Logs)
    → node.query attempt first last ≡ some logs
    → first ≤ block
    → block ≤ last
    → (b r : Address) → lists (emitted block) b r ≡ true
    → lists logs b r ≡ true

contains-++ :
    (ss ts : List Text) (t : Text) → contains (ss ++ ts) t ≡ (contains ss t || contains ts t)
contains-++ [] ts t = refl
contains-++ (s ∷ ss) ts t = rw (contains-++ ss ts t) (ground arith)

module _ (hex : HexCodec) (whitelisted : Address → Bool) (b r : Address)
    (w : whitelisted r ≡ true) where
  contains_first :
      (ev : Event) (evs : List Event)
      → whitelisted ev.reserve ≡ true
      → contains
          (entries_from hex whitelisted (ev ∷ evs))
          (to_string_id hex (aave_v3 ev.borrower ev.reserve))
        ≡ true
  unfolding to_string_id
  contains_first ev evs y = rw (y, text_eq_refl (entry hex whitelisted ev)) refl

  contains-entries_from :
      (evs : List Event)
      → names evs b r ≡ true
      → contains (entries_from hex whitelisted evs) (to_string_id hex (aave_v3 b r)) ≡ true
  unfolding to_string_id
  contains-entries_from [] h = absurd (cc)
  contains-entries_from (ev ∷ evs) h = elim (Bool-cases (b == ev.borrower && r == ev.reserve)) [
    | inl k ↦
        let eb : b ≡ ev.borrower = ground arith in
        let er : r ≡ ev.reserve = ground arith in
        rw (eb, er) (contains_first ev evs (subst (λ x. whitelisted x ≡ true) er w))
    | inr k ↦ elim (Bool-cases (whitelisted ev.reserve)) [
      | inl y ↦ rw y (ground (arith, contains-entries_from evs (ground arith)))
      | inr n ↦ rw n (contains-entries_from evs (ground arith))
    ]
  ]

  contains-entries_of :
      (logs : Logs)
      → lists logs b r ≡ true
      → contains (entries_of hex whitelisted logs) (to_string_id hex (aave_v3 b r)) ≡ true
  contains-entries_of logs h =
      let id = to_string_id hex (aave_v3 b r) in
      rw
        (
          contains-++ (entries_from hex whitelisted logs.borrows)
              (entries_from hex whitelisted logs.repays ++ entries_from hex whitelisted logs.liqs)
              id,
          contains-++ (entries_from hex whitelisted logs.repays)
              (entries_from hex whitelisted logs.liqs) id,
        )
        (elim (Bool-cases (names logs.borrows b r)) [
          | inl k ↦ rw (contains-entries_from logs.borrows k) refl
          | inr k ↦ elim (Bool-cases (names logs.repays b r)) [
            | inl m ↦ ground (arith, contains-entries_from logs.repays m)
            | inr m ↦ ground (arith, contains-entries_from logs.liqs (ground arith))
          ]
        ])

module _ (hex : HexCodec) (whitelisted : Address → Bool) (sled : Sled) where
  -- When a bootstrap of Aave succeeds, each borrower that borrowed, repaid or was liquidated in a
  -- listed reserve, in any block from its start block to the latest one, is tracked with this
  -- reserve, provided that the node leaves nothing out of the logs of a range.
  pub run_aave_tracks :
      (node : Node Logs) (emitted : ℕ → Logs) (p : Progress (WatchList sled)) (latest block : ℕ)
      (b r : Address)
      → AnswersAll node emitted
      → node.get_block_number ≡ some latest
      → (run_aave hex whitelisted sled node p).0 ≡ ok tt
      → start_block (aave_adapter hex whitelisted sled) p ≤ block
      → block ≤ latest
      → whitelisted r ≡ true
      → lists (emitted block) b r ≡ true
      → contains_identity hex sled
          (run_aave hex whitelisted sled node p).1.watch_list
          (to_string_id hex (aave_v3 b r))
        ≡ true
  unfolding run_aave
  run_aave_tracks node emitted p latest block b r all q e l m w h =
      run_brings (aave_adapter hex whitelisted sled) node (IsTracked hex whitelisted sled b r)
        (λ logs list k. add_entries_keeps hex whitelisted sled _ list b r k) block latest
        (λ attempt first last logs list a f g k.
          batch_tracks hex whitelisted sled logs list b r
            (contains-entries_of hex whitelisted b r w logs
              (all attempt first last block logs a f g b r h))
            k)
        p q e l m
