-- ===== src/Simulation/Snapshots/Fresh.antt =====
-- src/adapters/revm_simulation_adapter.rs: on which block a job is simulated.
use liq_ranger.Base.{
  ℕ, ◌-◌, ◌≡◌, ◌≢◌, ◌⊎◌, inl, inr, refl, ap, ◌∙◌, sym, subst, true, false, leb, ◌==◌, ==_iff,
  if◌then◌else◌, Option, none, some, List, [], ◌∷◌, Result, ok, err, arith, Bool-cases,
  Option-cases, Result-cases,
}
use liq_ranger.Core.Types.{LiquidationJob, LiquidationParams, to_params}
use liq_ranger.Core.Params.{IsParams, to_params-IsParams}
use liq_ranger.Watchlists.Cache.{lookup, insert, lookup-insert}
use liq_ranger.Simulation.Environment.{BlockEnv, TxEnv, build_block_env, build_tx_env}
use liq_ranger.Simulation.Engine.{Abi, Evm, success, revert, halt, simulate}
use liq_ranger.Simulation.Warm.{Node, Contracts, BlockSnapshot, Built, build_snapshot_internal}
use liq_ranger.Simulation.Warm.Answered.{
  Holds, IsAnswered, IsOf, IsSound, build_snapshot_internal-IsSound,
}
use liq_ranger.Simulation.Snapshots.{
  Caches, Simulated, SimulationError, chain_id, retain_from, resolved, store, use_cached, at_block,
  build_snapshot, simulate_liquidation, simulate_on, run_call, call,
}
use liq_ranger.Simulation.Snapshots.Called.{
  IsBlockEnv, IsTxEnv, build_block_env-IsBlockEnv, build_tx_env-IsTxEnv,
}

module _ (node : Node) (contracts : Contracts) (abi : Abi) (evm : Evm) where
  open evm use {execute_flash_liquidation}

  abbrev Snapshots : Type 0
  Snapshots = List (ℕ × BlockSnapshot)

  -- What the cache holds for a block was built for that block.
  abbrev pub IsBuilt : Snapshots → Type 0
  IsBuilt cache =
      (block : ℕ) (s : BlockSnapshot) → lookup block cache ≡ some s → IsOf node contracts block s

  -- So it is, and the cache of accounts has answers of the node only.
  abbrev pub IsKept : Caches → Type 0
  IsKept c = IsBuilt c.snapshots × Holds (IsAnswered node contracts) c.codes

  kept_same :
      (least b c : ℕ) (cache : Snapshots)
      → (b == c) ≡ true
      → (if leb least b then lookup b cache else none)
        ≡ (if leb least c then lookup b cache else none)
  kept_same least b c cache e =
      ap (λ x. if leb least x then lookup b cache else none) ((==_iff b c).0 e)

  lookup-retain_from :
      (least block : ℕ) (cache : Snapshots)
      → lookup block (retain_from node contracts abi evm least cache)
        ≡ (if leb least block then lookup block cache else none)
  lookup-retain_from least block [] = ground arith
  lookup-retain_from least block ((c, s) ∷ cache) = elim (Bool-cases (leb least c)) [
    | inl k ↦ elim (Bool-cases (block == c)) [
      | inl e ↦ rw (k, e, (==_iff block c).0 e, k) refl
      | inr e ↦ rw (k, e) (lookup-retain_from least block cache)
    ]
    | inr k ↦ elim (Bool-cases (block == c)) [
      | inl e ↦
          let p = subst (λ x. leb least x ≡ false) (sym ((==_iff block c).0 e)) k in
          rw (k, p) (lookup-retain_from least block cache ∙ rw p refl)
      | inr e ↦ rw (k, e) (lookup-retain_from least block cache)
    ]
  ]

  retain_from-IsBuilt :
      (least : ℕ) (cache : Snapshots)
      → IsBuilt cache
      → IsBuilt (retain_from node contracts abi evm least cache)
  retain_from-IsBuilt least cache h block s e = elim (Bool-cases (leb least block)) [
    | inl k ↦ let f = rw (lookup-retain_from least block cache, k) at e in h block s f
    | inr k ↦ let f = rw (lookup-retain_from least block cache, k) at e in absurd (cc)
  ]

  insert-IsBuilt :
      (block : ℕ) (s : BlockSnapshot) (cache : Snapshots)
      → IsBuilt cache
      → IsOf node contracts block s
      → IsBuilt (insert block s cache)
  insert-IsBuilt block s cache h q b t e = elim (Bool-cases (b == block)) [
    | inr k ↦ h b t (rw (lookup-insert block b s cache, k) at e)
    | inl k ↦
        let f = rw (lookup-insert block b s cache, k) at e in
        let same : s ≡ t = cc in
        subst (λ x. IsOf node contracts x t) (sym ((==_iff b block).0 k))
          (subst (IsOf node contracts block) same q)
  ]

  -- The block that is asked for, or, with zero, the one that the node names as its latest.
  abbrev pub IsAskedFor : (block_number block : ℕ) → Type 0
  IsAskedFor block_number block =
      ((block_number ≢ 0) × (block ≡ block_number))
      ⊎ ((block_number ≡ 0) × (node.get_block_number ≡ some block))

  resolved-IsAskedFor :
      (n block : ℕ) → resolved node contracts abi evm n ≡ some block → IsAskedFor n block
  resolved-IsAskedFor n block e = elim (Bool-cases (n == 0)) [
    | inl z ↦ inr ((==_iff n 0).0 z, rw z at e)
    | inr z ↦ let f = rw z at e in inl ((λ k. ground (arith, z, k)), cc)
  ]

  -- The snapshot that is used, and the caches afterwards.
  abbrev pub IsFresh : ℕ → BlockSnapshot → Type 0
  IsFresh block_number s = (block : ℕ) × IsAskedFor block_number block × IsOf node contracts block s

  abbrev IsRight : ℕ → Simulated node contracts abi evm (BlockSnapshot) → Type 0
  IsRight n (err x, c) = IsKept c
  IsRight n (ok s, c) = IsFresh n s × IsKept c

  store-IsRight :
      (n block : ℕ) (cache : Snapshots) (b : Built node contracts)
      → resolved node contracts abi evm n ≡ some block
      → IsBuilt cache
      → IsSound node contracts block b
      → IsRight n (store node contracts abi evm block cache b)
  store-IsRight n block cache (none, codes) q h i = (h, i)
  store-IsRight n block cache (some s, codes) q h (i, k) = (
    (block, resolved-IsAskedFor n block q, i),
    (
      insert-IsBuilt block s (retain_from node contracts abi evm (block - 1) cache)
          (retain_from-IsBuilt (block - 1) cache h) i,
      k,
    ),
  )

  use_cached-IsRight :
      (n block debt collateral borrower : ℕ) (o : Option (BlockSnapshot)) (c : Caches)
      → resolved node contracts abi evm n ≡ some block
      → lookup block c.snapshots ≡ o
      → IsKept c
      → IsRight n (use_cached node contracts abi evm o block debt collateral borrower c)
  use_cached-IsRight n block debt collateral borrower (some s) c q l h =
      ((block, resolved-IsAskedFor n block q, h.0 block s l), h)
  use_cached-IsRight n block debt collateral borrower none c q l h =
      store-IsRight n block c.snapshots
        (build_snapshot_internal node contracts block debt collateral borrower c.codes) q h.0
        (build_snapshot_internal-IsSound node contracts block debt collateral borrower c.codes h.1)

  at_block-IsRight :
      (n debt collateral borrower : ℕ) (o : Option ℕ) (c : Caches)
      → resolved node contracts abi evm n ≡ o
      → IsKept c
      → IsRight n (at_block node contracts abi evm o debt collateral borrower c)
  at_block-IsRight n debt collateral borrower none c q h = h
  at_block-IsRight n debt collateral borrower (some block) c q h =
      use_cached-IsRight n block debt collateral borrower (lookup block c.snapshots) c q refl h

  build_snapshot-IsRight :
      (n debt collateral borrower : ℕ) (c : Caches)
      → IsKept c
      → IsRight n (build_snapshot node contracts abi evm n debt collateral borrower c)
  unfolding build_snapshot
  build_snapshot-IsRight n debt collateral borrower c h =
      at_block-IsRight n debt collateral borrower (resolved node contracts abi evm n) c refl h

  abbrev gave : Result SimulationError ℕ → Caches → Simulated node contracts abi evm ℕ
  gave r cache = (r, cache)

  no_gas : (x : SimulationError) (g : ℕ) (c a : Caches) → gave (err x) c ≢ gave (ok g) a
  no_gas x g c a e = cc

  same_gas :
      (r q : Result SimulationError ℕ) (c a : Caches) → gave r c ≡ gave q a → (r ≡ q) × (c ≡ a)
  same_gas r q c a e = (cc, cc)

  -- The keeper's call of the contract has run with success, in the environments of the snapshot's block,
  -- with that gas.
  abbrev pub Succeeds : BlockSnapshot → List ℕ → ℕ → Type 0
  Succeeds s bytes gas =
      (b : BlockEnv) × (t : TxEnv) × IsBlockEnv s.block b
      × IsTxEnv contracts.keeper contracts.flash_liquidator bytes s.block t
      × (evm.transact s b t ≡ some (success gas))

  -- The call that has run is the contract's for the debt of the job and for what the job says.
  abbrev pub IsRun : LiquidationJob → BlockSnapshot → ℕ → Type 0
  IsRun job s gas =
      (params : LiquidationParams) × (bytes : List ℕ) × IsParams job params
      × (execute_flash_liquidation job.debt_to_cover params ≡ some bytes)
      × Succeeds s bytes gas

  run_call-eq-ok :
      (o : Option (List ℕ)) (s : BlockSnapshot) (gas : ℕ)
      → run_call node contracts abi evm o s ≡ ok gas
      → (bytes : List ℕ) × (o ≡ some bytes) × Succeeds s bytes gas
  unfolding run_call simulate
  run_call-eq-ok none s gas e = absurd (cc)
  run_call-eq-ok (some bytes) s gas e = elim (Result-cases (build_block_env s.block)) [
    | inr (x, q) ↦ absurd (ground arith)
    | inl (b, q) ↦
        elim (Result-cases
          (build_tx_env contracts.keeper contracts.flash_liquidator bytes 0 s.block chain_id)) [
            | inr (x, r) ↦ absurd (ground arith)
            | inl (t, r) ↦ elim (Option-cases (evm.transact s b (record t { chain_id = none }))) [
              | inl n ↦ absurd (ground arith)
              | inr (success g, n) ↦ (
                bytes,
                refl,
                (
                  b,
                  record t { chain_id = none },
                  build_block_env-IsBlockEnv s.block b q,
                  build_tx_env-IsTxEnv contracts.keeper contracts.flash_liquidator bytes s.block
                      chain_id t r,
                  ground arith,
                ),
              )
              | inr (revert o g, n) ↦ absurd (ground arith)
              | inr (halt w g, n) ↦ absurd (ground arith)
            ]
          ]
  ]

  simulate_on-IsRun :
      (n : ℕ) (job : LiquidationJob) (after : Caches) (gas : ℕ)
      (b : Simulated node contracts abi evm (BlockSnapshot))
      → IsRight n b
      → simulate_on node contracts abi evm job b ≡ (ok gas, after)
      → ((s : BlockSnapshot) × IsRun job s gas × IsFresh n s) × IsKept after
  unfolding simulate_on
  simulate_on-IsRun n job after gas (err x, c) h e = absurd (no_gas x gas c after e)
  simulate_on-IsRun n job after gas (ok s, c) (h, k) e =
      let (r, same) = same_gas _ (ok gas) c after e in
      let (bytes, encoded, passed) = run_call-eq-ok (call node contracts abi evm job) s gas r in
      ((s, (to_params job, bytes, to_params-IsParams job, encoded, passed), h), subst IsKept same k)

  -- From caches of which each snapshot is of its block and each account is an answer of the node for
  -- some block, a job that passes is not one of a single asset, and the keeper's call of the
  -- contract for its debt, its assets and its swap has run with success, with that gas, in the
  -- environments of the header, on a snapshot of the block asked for, or of the latest one that the
  -- node names if that is zero; and the caches afterwards are such caches.
  pub simulate_liquidation-IsFresh :
      (block_number : ℕ) (job : LiquidationJob) (before after : Caches) (gas : ℕ)
      → IsKept before
      → simulate_liquidation node contracts abi evm block_number job before ≡ (ok gas, after)
      → (job.collateral_asset ≢ job.debt_asset)
        × (((s : BlockSnapshot) × IsRun job s gas × IsFresh block_number s) × IsKept after)
  unfolding simulate_liquidation
  simulate_liquidation-IsFresh n job before after gas h e =
      elim (Bool-cases (job.collateral_asset == job.debt_asset)) [
        | inl q ↦ absurd (no_gas SimulationError.self_collateral gas before after (rw q at e))
        | inr q ↦ (
          (λ p. let r = p in ground arith),
          simulate_on-IsRun n job after gas
              (build_snapshot node contracts abi evm n job.debt_asset job.collateral_asset
                job.borrower before)
              (build_snapshot-IsRight n job.debt_asset job.collateral_asset job.borrower before h)
              (rw q at e),
        )
      ]
