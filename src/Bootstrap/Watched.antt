-- ===== src/Bootstrap/Watched.antt =====
-- The bootstrap adapters of src/adapters: from one batch to a whole bootstrap.
use liq_ranger.Base.{
  ℕ, ◌+◌, ◌-◌, zero, suc, leb, Option, none, some, inl, inr, Bool-cases, Result-cases, Option-cases,
}
use liq_ranger.Readers.Morpho.{unique}
use liq_ranger.Bootstrap.{
  Node, Progress, Adapter, add_entries, fetch_batch, scan_batch, scan, run, record_logs, save,
  scan_from_latest, start_block, smaller,
}

module _ {Logs L : Type 0} (adapter : Adapter Logs L) (node : Node Logs) (I : L → Type 0)
    (batch : (logs : Logs) (list : L)
      → I list
      → I (add_entries adapter (unique (adapter.entries_of logs)) list).1) where
  save_preserves :
      (first last : ℕ) (list : L) (p : Progress L)
      → I list
      → I (save adapter node first last list p).1.watch_list
  unfolding save
  save_preserves first last list p h = elim (Bool-cases (node.state_takes last)) [
    | inl b ↦ simp b h
    | inr b ↦ simp b h
  ]

  record_preserves :
      (first last : ℕ) (logs : Logs) (p : Progress L)
      → I p.watch_list
      → I (record_logs adapter node first last logs p).1.watch_list
  unfolding record_logs
  record_preserves first last logs p h =
      let k = batch logs p.watch_list h in
      elim (Result-cases (add_entries adapter (unique (adapter.entries_of logs)) p.watch_list).0) [
        | inl (u, q) ↦ rw (q, record_logs) (save_preserves first last _ p k)
        | inr (x, q) ↦ rw (q, record_logs) k
      ]

  batch_preserves :
      (first latest : ℕ) (p : Progress L)
      → I p.watch_list
      → I (scan_batch adapter node first latest p).1.watch_list
  unfolding scan_batch
  batch_preserves first latest p h =
      let last = smaller (first + adapter.batch_size) latest in
      elim (Option-cases (fetch_batch adapter node first last)) [
        | inl q ↦ rw (q, scan_batch) h
        | inr (logs, q) ↦ rw (q, scan_batch) (record_preserves first last logs p h)
      ]

  scan_preserves :
      (fuel first latest : ℕ) (p : Progress L)
      → I p.watch_list
      → I (scan adapter node fuel first latest p).1.watch_list
  unfolding scan
  scan_preserves zero first latest p h = elim (Bool-cases (leb first latest)) [
    | inl b ↦ rw b h
    | inr b ↦ rw b h
  ]
  scan_preserves (suc fuel) first latest p h = elim (Bool-cases (leb first latest)) [
    | inr b ↦ rw b h
    | inl b ↦
        let k = batch_preserves first latest p h in
        elim (Result-cases (scan_batch adapter node first latest p).0) [
          | inr (x, q) ↦ rw (b, q) k
          | inl (next, q) ↦ rw (b, q) (scan_preserves fuel next latest _ k)
        ]
  ]

  latest_preserves :
      (o : Option ℕ) (p : Progress L)
      → I p.watch_list
      → I (scan_from_latest adapter node o p).1.watch_list
  unfolding scan_from_latest
  latest_preserves none p h = h
  latest_preserves (some latest) p h =
      scan_preserves (latest + 1 - start_block adapter p) (start_block adapter p) latest p h

  -- What every batch keeps of the watchlist, a bootstrap keeps, whether or not it succeeds.
  pub run_preserves : (p : Progress L) → I p.watch_list → I (run adapter node p).1.watch_list
  unfolding run
  run_preserves p h = elim (Bool-cases node.state_reads) [
    | inl b ↦ simp b (latest_preserves node.get_block_number p h)
    | inr b ↦ simp b h
  ]
