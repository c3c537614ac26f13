-- ===== src/Simulation/Warm/Answered.antt =====
-- src/adapters/revm_simulation_adapter.rs: where the accounts of a snapshot come from.
use liq_ranger.Base.{
  ℕ, ◌≡◌, ◌⊎◌, inl, inr, refl, ◌==◌, ==_iff, Option, none, some, List, [], ◌∷◌, All, Bool-cases,
  subst, sym,
}
use liq_ranger.Core.Identity.{Address}
use liq_ranger.Simulation.Environment.{Block}
use liq_ranger.Watchlists.Cache.{lookup, insert, lookup-insert}
use liq_ranger.Simulation.Warm.{
  Node, Contracts, Accounts, AccountInfo, BlockSnapshot, Built, with_known, cached_accounts,
  un_cached_targets, insert_all, keeper_account, fetched, database, assemble, warm, with_header,
  build_snapshot_internal, warm_targets,
}

-- Every account found in a map is as `K` says.
abbrev pub Holds : (Address → AccountInfo → Type 0) → Accounts → Type 0
Holds K m = (a : Address) (info : AccountInfo) → lookup a m ≡ some info → K a info

module _ (K : Address → AccountInfo → Type 0) where
  insert-Holds :
      (a : Address) (info : AccountInfo) (m : Accounts)
      → K a info
      → Holds K m
      → Holds K (insert a info m)
  insert-Holds a info m k h b found e = elim (Bool-cases (b == a)) [
    | inl q ↦
        let f = rw (lookup-insert a b info m, q) at e in
        let same : info ≡ found = cc in
        subst (λ x. K x found) (sym ((==_iff b a).0 q)) (subst (K a) same k)
    | inr q ↦ h b found (rw (lookup-insert a b info m, q) at e)
  ]

  insert_all-Holds :
      (l m : Accounts) → All (λ p. K p.0 p.1) l → Holds K m → Holds K (insert_all l m)
  insert_all-Holds [] m k h = h
  insert_all-Holds ((a, info) ∷ l) m (k, ks) h =
      insert_all-Holds l (insert a info m) ks (insert-Holds a info m k h)

  pub with_known-All :
      (a : Address) (o : Option AccountInfo) (l : Accounts)
      → ((info : AccountInfo) → o ≡ some info → K a info)
      → All (λ p. K p.0 p.1) l
      → All (λ p. K p.0 p.1) (with_known a o l)
  with_known-All a none l k ks = ks
  with_known-All a (some info) l k ks = (k info refl, ks)

  pub cached_accounts-All :
      (codes : Accounts) (targets : List Address)
      → Holds K codes
      → All (λ p. K p.0 p.1) (cached_accounts codes targets)
  cached_accounts-All codes [] h = tt
  cached_accounts-All codes (a ∷ targets) h =
      with_known-All a (lookup a codes) (cached_accounts codes targets) (h a)
        (cached_accounts-All codes targets h)

  fetched-All :
      (node : Node) (contracts : Contracts) (block : ℕ) (targets : List Address)
      → ((a : Address) (info : AccountInfo) → node.account block a ≡ some info → K a info)
      → All (λ p. K p.0 p.1) (fetched node contracts block targets)
  fetched-All node contracts block [] h = tt
  fetched-All node contracts block (a ∷ targets) h =
      with_known-All a (node.account block a) (fetched node contracts block targets) (h a)
        (fetched-All node contracts block targets h)

  single-Holds : (a : Address) (info : AccountInfo) → K a info → Holds K ((a, info) ∷ [])
  single-Holds a info k = insert-Holds a info [] k (λ b x e. absurd (cc))

module _ (node : Node) (contracts : Contracts) where
  open node use {get_block, keeper_nonce, account, opens}

  -- The node has answered so for some block.
  abbrev pub IsAnswered : Address → AccountInfo → Type 0
  IsAnswered a info = (block : ℕ) × (account block a ≡ some info)

  -- The account is an answer of the node, or the keeper with all the money there can be.
  abbrev pub IsGiven : Address → AccountInfo → Type 0
  IsGiven a info =
      ((a ≡ contracts.keeper) × ((nonce : ℕ) × (info ≡ keeper_account nonce))) ⊎ IsAnswered a info

  -- A snapshot has the number and the header of its block, and accounts that the node has answered.
  pub record IsOf (block : ℕ) (s : BlockSnapshot) : Type 0 where
    pub number : s.block_number ≡ block
    pub header : get_block block ≡ some s.block
    pub given : Holds IsGiven s.accounts

  database-Holds :
      (nonce : ℕ) (cached new : Accounts)
      → All (λ p. IsAnswered p.0 p.1) cached
      → All (λ p. IsAnswered p.0 p.1) new
      → Holds IsGiven (database node contracts nonce cached new)
  database-Holds nonce cached new c n =
      insert_all-Holds IsGiven new (insert_all cached base) (weaken new n) (
        insert_all-Holds IsGiven cached base (weaken cached c) (
          single-Holds IsGiven contracts.keeper (keeper_account nonce) (inl (refl, (nonce, refl)))))
    where
      base : Accounts
      base = (contracts.keeper, keeper_account nonce) ∷ []

      weaken : (l : Accounts) → All (λ p. IsAnswered p.0 p.1) l → All (λ p. IsGiven p.0 p.1) l
      weaken [] a = tt
      weaken (p ∷ l) (a, rest) = (inr a, weaken l rest)

  -- The snapshot, if there is one, is of the block, and the cache of accounts has answers only.
  abbrev pub IsSound : ℕ → Built node contracts → Type 0
  IsSound block (none, codes) = Holds IsAnswered codes
  IsSound block (some s, codes) = IsOf block s × Holds IsAnswered codes

  assemble-IsSound :
      (block : ℕ) (header : Block) (nonce : ℕ) (cached new codes : Accounts)
      → get_block block ≡ some header
      → All (λ p. IsAnswered p.0 p.1) cached
      → All (λ p. IsAnswered p.0 p.1) new
      → Holds IsAnswered codes
      → IsSound block (assemble node contracts block header nonce cached new codes)
  assemble-IsSound block header nonce cached new codes q c n h = elim (Bool-cases (opens block)) [
    | inl o ↦ rw o (
      (record { number = refl; header = q; given = database-Holds nonce cached new c n }),
      insert_all-Holds IsAnswered new codes n h,
    )
    | inr o ↦ rw o (insert_all-Holds IsAnswered new codes n h)
  ]

  warm-IsSound :
      (block : ℕ) (header : Block) (nonce : ℕ) (targets : List Address) (codes : Accounts)
      → get_block block ≡ some header
      → Holds IsAnswered codes
      → IsSound block (warm node contracts block header nonce targets codes)
  warm-IsSound block header nonce targets codes q h =
      assemble-IsSound block header nonce (cached_accounts codes targets)
        (fetched node contracts block (un_cached_targets codes targets)) codes q
        (cached_accounts-All IsAnswered codes targets h)
        (fetched-All IsAnswered node contracts block (un_cached_targets codes targets)
          (λ a info e. (block, e)))
        h

  with_header-IsSound :
      (o : Option Block) (n : Option ℕ) (block : ℕ) (targets : List Address) (codes : Accounts)
      → get_block block ≡ o
      → Holds IsAnswered codes
      → IsSound block (with_header node contracts o n block targets codes)
  with_header-IsSound none n block targets codes q h = h
  with_header-IsSound (some header) none block targets codes q h = h
  with_header-IsSound (some header) (some nonce) block targets codes q h =
      warm-IsSound block header nonce targets codes q h

  pub build_snapshot_internal-IsSound :
      (block debt collateral borrower : ℕ) (codes : Accounts)
      → Holds IsAnswered codes
      → IsSound block (build_snapshot_internal node contracts block debt collateral borrower codes)
  unfolding build_snapshot_internal
  build_snapshot_internal-IsSound block debt collateral borrower codes h =
      with_header-IsSound (get_block block) (keeper_nonce block) block
        (warm_targets contracts debt collateral borrower) codes refl h
