-- ===== src/Bootstrap/Complete.antt =====
-- The bootstrap adapters of src/adapters: what the logs of one block lead to, a whole bootstrap does.
use liq_ranger.Base.{ℕ, ◌+◌, ◌-◌, ◌≤◌, ◌≡◌, leb, some, arith, inl, inr, ok, Bool-cases, subst, ap}
use liq_ranger.Readers.Morpho.{unique}
use liq_ranger.Bootstrap.{Node, Progress, Adapter, add_entries, run, start_block, scan_from_latest}
use liq_ranger.Bootstrap.Batch.{After}
use liq_ranger.Bootstrap.Coverage.{scan_rule}

module _ {Logs L : Type 0} (adapter : Adapter Logs L) (node : Node Logs) (I : L → Type 0)
    (batch : (logs : Logs) (list : L)
      → I list
      → I (add_entries adapter (unique (adapter.entries_of logs)) list).1)
    (block latest : ℕ)
    (brings : (attempt first last : ℕ) (logs : Logs) (list : L)
      → node.query attempt first last ≡ some logs
      → first ≤ block
      → block ≤ last
      → (add_entries adapter (unique (adapter.entries_of logs)) list).0 ≡ ok tt
      → I (add_entries adapter (unique (adapter.entries_of logs)) list).1) where
  -- What held stays, and it holds once the block is scanned.
  abbrev Holds : ℕ → Progress L → Progress L → Type 0
  Holds first p r =
      (I p.watch_list → I r.watch_list) × (first ≤ block → block ≤ latest → I r.watch_list)

  go-Holds :
      (first next : ℕ) (p q r : Progress L)
      → After adapter node first latest p q next
      → Holds next q r
      → Holds first p r
  go-Holds first next p q r a (keep, reach) =
      let b = a.brought in
      let same = ap (λ x. x.1) b.added in
      (
        (λ h. keep (subst I same (batch b.logs p.watch_list h))),
        (λ l m. elim (Bool-cases (leb next block)) [
          | inl t ↦ reach (ground arith) m
          | inr t ↦ keep (
              subst I same (
                brings b.attempt first (next - 1) b.logs p.watch_list b.answered l
                  (ground (arith, a.above)) (ap (λ x. x.0) b.added)))
        ]),
      )

  latest-Holds :
      (p : Progress L)
      → (scan_from_latest adapter node (some latest) p).0 ≡ ok tt
      → Holds (start_block adapter p) p (scan_from_latest adapter node (some latest) p).1
  unfolding scan_from_latest
  latest-Holds p e =
      scan_rule adapter node latest Holds
        (λ first q h. ((λ i. i), λ l m. absurd (omega (arith, h, l, m)))) go-Holds
        (latest + 1 - start_block adapter p) (start_block adapter p) p e

  pub run_brings :
      (p : Progress L)
      → node.get_block_number ≡ some latest
      → (run adapter node p).0 ≡ ok tt
      → start_block adapter p ≤ block
      → block ≤ latest
      → I (run adapter node p).1.watch_list
  unfolding run
  run_brings p q e l m = elim (Bool-cases node.state_reads) [
    | inr b ↦ absurd (ground arith)
    | inl b ↦ simp (b, q) ((latest-Holds p (simp (b, q) at e)).1 l m)
  ]
