-- ===== src/Bootstrap/Coverage.antt =====
-- The bootstrap adapters of src/adapters: how the loop ends, and which blocks it has scanned then.
use liq_ranger.Base.{
  ℕ, zero, suc, ◌+◌, ◌-◌, ◌≤◌, ◌<◌, ◌≡◌, ◌≢◌, Bool, true, false, ◌||◌, ◌&&◌, leb, if◌then◌else◌,
  Option, none, some, List, [], ◌∷◌, ok, err, arith, inl, inr, Result-cases, Bool-cases,
}
use liq_ranger.Bootstrap.{
  out_of_fuel, Node, Progress, Adapter, scan_batch, scan, run, start_block, record_logs, save,
  scan_from_latest,
}
use liq_ranger.Bootstrap.Batch.{After, scan_batch-After}

-- The block is in one of the ranges.
abbrev pub is_scanned : List (ℕ × ℕ) → ℕ → Bool
is_scanned [] k = false
is_scanned ((first, last) ∷ ranges) k = (leb first k && leb k last) || is_scanned ranges k

module _ {Logs L : Type 0} (adapter : Adapter Logs L) (node : Node Logs) where
  scan_batch_fuel :
      (first latest : ℕ) (p : Progress L)
      → (scan_batch adapter node first latest p).0 ≢ err out_of_fuel
  unfolding scan_batch record_logs save
  scan_batch_fuel first latest p = ground arith

  -- Enough fuel: one unit for each block that is left.
  scan_fuel :
      (fuel first latest : ℕ) (p : Progress L)
      → latest + 1 ≤ fuel + first
      → (scan adapter node fuel first latest p).0 ≢ err out_of_fuel
  unfolding scan
  scan_fuel zero first latest p h = ground arith
  scan_fuel (suc fuel) first latest p h = elim (Bool-cases (leb first latest)) [
    | inr b ↦ rw b (λ e. cc)
    | inl b ↦ elim (Result-cases (scan_batch adapter node first latest p).0) [
      | inr (x, q) ↦ rw (b, q) (ground (arith, scan_batch_fuel first latest p))
      | inl (next, q) ↦
          let a = scan_batch-After adapter node first latest p next (ground arith) q in
          rw (b, q)
            (scan_fuel fuel next latest (scan_batch adapter node first latest p).1
              (omega (arith, a.above)))
    ]
  ]

  from_latest_fuel :
      (o : Option ℕ) (p : Progress L) → (scan_from_latest adapter node o p).0 ≢ err out_of_fuel
  unfolding scan_from_latest
  from_latest_fuel none p = λ e. cc
  from_latest_fuel (some latest) p =
      scan_fuel (latest + 1 - start_block adapter p) (start_block adapter p) latest p (omega arith)

  -- The loop of a bootstrap ends: no run stops for want of fuel.
  pub run_fuel : (p : Progress L) → (run adapter node p).0 ≢ err out_of_fuel
  unfolding run
  run_fuel p = elim (Bool-cases node.state_reads) [
    | inr b ↦ simp b (λ e. cc)
    | inl b ↦ simp b (from_latest_fuel node.get_block_number p)
  ]

  -- To prove a relation between the ends of a run that succeeds, prove it where no block is left,
  -- and carry it back over one batch.
  pub scan_rule :
      (latest : ℕ) (Q : ℕ → Progress L → Progress L → Type 0)
      → ((first : ℕ) (p : Progress L) → latest < first → Q first p p)
      → ((first next : ℕ) (p q r : Progress L)
          → After adapter node first latest p q next
          → Q next q r
          → Q first p r)
      → (fuel first : ℕ) (p : Progress L) → (scan adapter node fuel first latest p).0 ≡ ok tt
      → Q first p (scan adapter node fuel first latest p).1
  unfolding scan
  scan_rule latest Q stop go zero first p e = elim (Bool-cases (leb first latest)) [
    | inr b ↦ rw b (stop first p (ground arith))
    | inl b ↦ absurd (ground arith)
  ]
  scan_rule latest Q stop go (suc fuel) first p e = elim (Bool-cases (leb first latest)) [
    | inr b ↦ rw b (stop first p (ground arith))
    | inl b ↦ elim (Result-cases (scan_batch adapter node first latest p).0) [
      | inr (x, q) ↦ absurd (ground arith)
      | inl (next, q) ↦
          rw (b, q)
            (go first next p (scan_batch adapter node first latest p).1 _
              (scan_batch-After adapter node first latest p next (ground arith) q)
              (scan_rule latest Q stop go fuel next (scan_batch adapter node first latest p).1
                (rw (b, q) at e)))
    ]
  ]

  -- From `first` to `latest` all blocks are scanned, and the last one is saved.
  abbrev Covered : ℕ → ℕ → Progress L → Progress L → Type 0
  Covered latest first p r =
      ((k : ℕ) → is_scanned p.scanned k ≡ true → is_scanned r.scanned k ≡ true)
      × ((k : ℕ) → first ≤ k → k ≤ latest → is_scanned r.scanned k ≡ true)
      × (r.last_block ≡ (if leb first latest then some latest else p.last_block))

  stop-Covered : (latest first : ℕ) (p : Progress L) → latest < first → Covered latest first p p
  stop-Covered latest first p h = ((λ k e. e), (λ k l m. absurd (omega arith)), ground arith)

  go-Covered :
      (latest first next : ℕ) (p q r : Progress L)
      → After adapter node first latest p q next
      → Covered latest next q r
      → Covered latest first p r
  go-Covered latest first next p q r a (keep, cover, save) = (
    (λ k e. keep k (rw a.ranges (ground (arith, e)))),
    (λ k l m. elim (Bool-cases (leb next k)) [
      | inl t ↦ cover k (ground arith) m
      | inr t ↦ keep k (rw a.ranges (ground (arith, a.above)))
    ]),
    ground (arith, a.above, a.within, a.saved, save),
  )

  from_latest_covers :
      (latest : ℕ) (p : Progress L)
      → (scan_from_latest adapter node (some latest) p).0 ≡ ok tt
      → Covered latest (start_block adapter p) p (scan_from_latest adapter node (some latest) p).1
  unfolding scan_from_latest
  from_latest_covers latest p e =
      scan_rule latest (Covered latest) (stop-Covered latest)
        (λ first next p q r. go-Covered latest first next p q r)
        (latest + 1 - start_block adapter p) (start_block adapter p) p e

  -- A bootstrap that succeeds has scanned every block from its start block, twenty before the one
  -- saved or else that of the deployment, to the latest, and has saved the latest if it is not below
  -- the start.
  pub run_covers :
      (p : Progress L) (latest : ℕ)
      → node.get_block_number ≡ some latest
      → (run adapter node p).0 ≡ ok tt
      → ((k : ℕ)
          → start_block adapter p ≤ k
          → k ≤ latest
          → is_scanned (run adapter node p).1.scanned k ≡ true)
        × (start_block adapter p ≤ latest → (run adapter node p).1.last_block ≡ some latest)
  unfolding run
  run_covers p latest q e = elim (Bool-cases node.state_reads) [
    | inr b ↦ absurd (ground arith)
    | inl b ↦
        let c = from_latest_covers latest p (simp (b, q) at e) in
        simp (b, q) ((c.1, λ h. ground (arith, c.2)))
  ]
