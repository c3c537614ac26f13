-- ===== src/Simulation/Warm/Stale.antt =====
-- src/adapters/revm_simulation_adapter.rs: the accounts that a snapshot takes from the cache.
use liq_ranger.Base.{
  ℕ, ◌≡◌, ◌≢◌, inl, inr, refl, true, ◌==◌, ==_iff, Option, none, some, List, [], ◌∷◌, All,
  Bool-cases, Option-cases, subst, sym, ap,
}
use liq_ranger.Core.Identity.{Address}
use liq_ranger.Simulation.Environment.{Block}
use liq_ranger.Watchlists.Cache.{has, lookup, insert, lookup-insert}
use liq_ranger.Simulation.Warm.{
  Node, Contracts, Accounts, AccountInfo, BlockSnapshot, Built, cached_accounts, un_cached_targets,
  insert_all, keeper_account, fetched, warm, with_header, build_snapshot_internal, warm_targets,
}
use liq_ranger.Simulation.Warm.Answered.{with_known-All, cached_accounts-All}

module _ (a : Address) (info : AccountInfo) where
  -- What a list says of the account is `info`.
  abbrev Agrees : Address → AccountInfo → Type 0
  Agrees b other = b ≡ a → other ≡ info

  lookup-insert_agreed :
      (b : Address) (other : AccountInfo) (m : Accounts)
      → Agrees b other
      → lookup a m ≡ some info
      → lookup a (insert b other m) ≡ some info
  lookup-insert_agreed b other m k e = elim (Bool-cases (a == b)) [
    | inl q ↦ rw (lookup-insert b a other m, q) (ap some (k (sym ((==_iff a b).0 q))))
    | inr q ↦ rw (lookup-insert b a other m, q) e
  ]

  lookup-insert_all_agreed :
      (l m : Accounts)
      → All (λ p. Agrees p.0 p.1) l
      → lookup a m ≡ some info
      → lookup a (insert_all l m) ≡ some info
  lookup-insert_all_agreed [] m k e = e
  lookup-insert_all_agreed ((b, other) ∷ l) m (k, ks) e =
      lookup-insert_all_agreed l (insert b other m) ks (lookup-insert_agreed b other m k e)

  module _ (codes : Accounts) (known : lookup a codes ≡ some info) where
    codes-Agrees :
        (b : Address) (other : AccountInfo) → lookup b codes ≡ some other → Agrees b other
    codes-Agrees b other e q = let f = subst (λ x. lookup x codes ≡ some other) q e in cc

    lookup-cached_accounts :
        (targets : List Address) (m : Accounts)
        → has targets a ≡ true
        → lookup a (insert_all (cached_accounts codes targets) m) ≡ some info
    lookup-cached_accounts [] m h = absurd (cc)
    lookup-cached_accounts (t ∷ targets) m h = elim (Bool-cases (a == t)) [
      | inl q ↦
          let e = (==_iff a t).0 q in
          let f = subst (λ x. lookup x codes ≡ some info) e known in
          rw f (
            lookup-insert_all_agreed (cached_accounts codes targets) (insert t info m)
              (cached_accounts-All Agrees codes targets codes-Agrees)
              (rw (lookup-insert t a info m, q) refl))
      | inr q ↦ elim (Option-cases (lookup t codes)) [
        | inl n ↦ rw n (lookup-cached_accounts targets m (rw q at h))
        | inr (other, n) ↦ rw n (lookup-cached_accounts targets (insert t other m) (rw q at h))
      ]
    ]

    fetched-Agrees :
        (node : Node) (contracts : Contracts) (block : ℕ) (targets : List Address)
        → All (λ p. Agrees p.0 p.1) (fetched node contracts block (un_cached_targets codes targets))
    fetched-Agrees node contracts block [] = tt
    fetched-Agrees node contracts block (t ∷ targets) = elim (Option-cases (lookup t codes)) [
      | inl n ↦ rw n (
          with_known-All Agrees t (node.account block t)
            (fetched node contracts block (un_cached_targets codes targets))
            (λ other e q. absurd (missing t n q)) (fetched-Agrees node contracts block targets))
      | inr (other, n) ↦ rw n (fetched-Agrees node contracts block targets)
    ]
      where
        missing : (t : Address) → lookup t codes ≡ none → t ≢ a
        missing t n q = let f = subst (λ x. lookup x codes ≡ none) q n in cc

    module _ (node : Node) (contracts : Contracts) where
      open node use {get_block, keeper_nonce, opens}

      abbrev Stays : Built node contracts → Type 0
      Stays (none, codes) = Unit {0}
      Stays (some s, codes) = lookup a s.accounts ≡ some info

      warm-Stays :
          (block : ℕ) (header : Block) (nonce : ℕ) (targets : List Address)
          → has targets a ≡ true
          → Stays (warm node contracts block header nonce targets codes)
      warm-Stays block header nonce targets h = elim (Bool-cases (opens block)) [
        | inl o ↦ rw o (
            lookup-insert_all_agreed
              (fetched node contracts block (un_cached_targets codes targets))
              (insert_all (cached_accounts codes targets)
                ((contracts.keeper, keeper_account nonce) ∷ []))
              (fetched-Agrees node contracts block targets)
              (lookup-cached_accounts targets ((contracts.keeper, keeper_account nonce) ∷ []) h))
        | inr o ↦ rw o tt
      ]

      with_header-Stays :
          (o : Option Block) (n : Option ℕ) (block : ℕ) (targets : List Address)
          → has targets a ≡ true
          → Stays (with_header node contracts o n block targets codes)
      with_header-Stays none n block targets h = tt
      with_header-Stays (some header) none block targets h = tt
      with_header-Stays (some header) (some nonce) block targets h =
          warm-Stays block header nonce targets h

      -- An account of a target that the cache has goes into a snapshot of any block as it is in the
      -- cache, with its balance and its nonce, whatever the node answers for that block.
      pub build_snapshot_internal_stale :
          (block debt collateral borrower : ℕ) (s : BlockSnapshot) (after : Accounts)
          → has (warm_targets contracts debt collateral borrower) a ≡ true
          → build_snapshot_internal node contracts block debt collateral borrower codes
            ≡ (some s, after)
          → lookup a s.accounts ≡ some info
      unfolding build_snapshot_internal
      build_snapshot_internal_stale block debt collateral borrower s after h e = subst Stays e (
          with_header-Stays (get_block block) (keeper_nonce block) block
            (warm_targets contracts debt collateral borrower) h)
