-- ===== src/Bootstrap/Batch.antt =====
-- The bootstrap adapters of src/adapters: what a batch that succeeds leaves behind.
use liq_ranger.Base.{
  ℕ, zero, suc, ◌+◌, ◌-◌, ◌≤◌, ◌<◌, ◌≡◌, some, ◌∷◌, ok, arith, inl, inr, ◌∙◌, sym, ap, Option-cases,
  Result-cases,
}
use liq_ranger.Bootstrap.{
  Node, Progress, Adapter, scan_batch, record_logs, save, add_entries, retry, fetch_batch, smaller,
}
use liq_ranger.Readers.Morpho.{unique}

module _ {Logs L : Type 0} (adapter : Adapter Logs L) (node : Node Logs) where
  -- The logs of the batch, as some attempt has brought them, and the entries that they add.
  pub record Brought (first : ℕ) (p q : Progress L) (next : ℕ) : Type 0 where
    pub logs : Logs
    pub attempt : ℕ
    pub answered : node.query attempt first (next - 1) ≡ some logs
    pub added :
        add_entries adapter (unique (adapter.entries_of logs)) p.watch_list ≡ (ok tt, q.watch_list)

  retry-eq-some :
      (left attempt first last : ℕ) (logs : Logs)
      → retry adapter node left attempt first last ≡ some logs
      → (n : ℕ) × (node.query n first last ≡ some logs)
  retry-eq-some zero attempt first last logs e = absurd (cc)
  retry-eq-some (suc left) attempt first last logs e =
      elim (Option-cases (node.query attempt first last)) [
        | inl q ↦ retry-eq-some left (suc attempt) first last logs (rw (q, retry) at e)
        | inr (found, q) ↦ (attempt, q ∙ (rw (q, retry) at e))
      ]

  save-Brought :
      (first last : ℕ) (list : L) (p : Progress L) (next : ℕ)
      → (save adapter node first last list p).0 ≡ ok next
      → (next ≡ last + 1) × ((save adapter node first last list p).1.watch_list ≡ list)
  unfolding save
  save-Brought first last list p next e = ground arith

  record_logs-Brought :
      (first last : ℕ) (logs : Logs) (p : Progress L) (next : ℕ)
      → (record_logs adapter node first last logs p).0 ≡ ok next
      → (next ≡ last + 1)
        × (add_entries adapter (unique (adapter.entries_of logs)) p.watch_list
            ≡ (ok tt, (record_logs adapter node first last logs p).1.watch_list))
  unfolding record_logs
  record_logs-Brought first last logs p next e =
      elim (Result-cases (add_entries adapter (unique (adapter.entries_of logs)) p.watch_list).0) [
        | inr (x, q) ↦ absurd (let f = rw (q, record_logs) at e in cc)
        | inl (u, q) ↦
            let (n, w) = save-Brought first last _ p next (rw (q, record_logs) at e) in
            rw (q, record_logs) ((n, λ i. (q i, sym w i)))
      ]

  scan_batch-Brought :
      (first latest : ℕ) (p : Progress L) (next : ℕ)
      → (scan_batch adapter node first latest p).0 ≡ ok next
      → Brought first p (scan_batch adapter node first latest p).1 next
  unfolding scan_batch fetch_batch
  scan_batch-Brought first latest p next e =
      let last = smaller (first + adapter.batch_size) latest in
      elim (Option-cases (fetch_batch adapter node first last)) [
        | inl q ↦ absurd (let f = rw (q, scan_batch) at e in cc)
        | inr (logs, q) ↦
            let (n, added) = record_logs-Brought first last logs p next (rw (q, scan_batch) at e) in
            let (attempt, answer) = retry-eq-some 5 0 first last logs q in
            rw (q, scan_batch)
              record {
                logs = logs;
                attempt = attempt;
                answered =
                    ap (λ l. node.query attempt first l)
                      (let h : next - 1 ≡ last = omega (arith, n) in h)
                    ∙ answer;
                added = added;
              }
      ]

  -- What a batch that succeeds leaves behind.
  pub record After (first latest : ℕ) (p q : Progress L) (next : ℕ) : Type 0 where
    pub above : first < next
    pub within : next ≤ latest + 1
    pub saved : q.last_block ≡ some (next - 1)
    pub ranges : q.scanned ≡ (first, next - 1) ∷ p.scanned
    pub brought : Brought first p q next

  pub scan_batch-After :
      (first latest : ℕ) (p : Progress L) (next : ℕ)
      → first ≤ latest
      → (scan_batch adapter node first latest p).0 ≡ ok next
      → After first latest p (scan_batch adapter node first latest p).1 next
  unfolding scan_batch record_logs save
  scan_batch-After first latest p next h e = record {
    above = ground arith;
    within = ground arith;
    saved = ground arith;
    ranges = ground arith;
    brought = scan_batch-Brought first latest p next e;
  }
