-- ===== src/Bootstrap/State/RoundTrip.antt =====
-- src/watchlists/bootstrap_state.rs: what is loaded after a save.
use liq_ranger.Base.{ℕ, ◌^◌, ◌<◌, ◌≡◌, ◌≢◌, inl, inr, Option, some, ok, arith, Option-cases}
use liq_ranger.Core.Types.{Protocol}
use liq_ranger.Bootstrap.State.{Bincode, ByteTree, load_last_block, save_last_block}

module _ (bincode : Bincode) (tree : ByteTree) where
  open tree use {Tree, get, insert}

  saved :
      (db after : Tree) (p : Protocol) (block : ℕ)
      → save_last_block bincode tree db p block ≡ ok after
      → insert db (bincode.key p) (bincode.serialize block) ≡ some after
  unfolding save_last_block
  saved db after p block e =
      elim (Option-cases (insert db (bincode.key p) (bincode.serialize block))) [
        | inl q ↦ absurd (ground arith)
        | inr (t, q) ↦ ground arith
      ]

  -- After a block below 2 ^ 64 is saved without an error, a load of the same protocol that returns
  -- gives this block.
  pub load-save_last_block :
      (db after : Tree) (p : Protocol) (block : ℕ) (found : Option ℕ)
      → block < 2 ^ 64
      → save_last_block bincode tree db p block ≡ ok after
      → load_last_block bincode tree after p ≡ ok found
      → found ≡ some block
  unfolding load_last_block
  load-save_last_block db after p block found h s e =
      elim (Option-cases (get after (bincode.key p))) [
        | inl q ↦ absurd (ground arith)
        | inr (r, q) ↦
            let w = tree.get-insert_same db after _ _ r (saved db after p block s) q in
            let d = bincode.deserialize-serialize block h in let f = rw (q, w, d) at e in cc
      ]

  -- A save of one protocol leaves what is loaded for another as it was, where both loads return.
  pub load-save_last_block_other :
      (db after : Tree) (p q : Protocol) (block : ℕ) (found before : Option ℕ)
      → q ≢ p
      → save_last_block bincode tree db p block ≡ ok after
      → load_last_block bincode tree after q ≡ ok found
      → load_last_block bincode tree db q ≡ ok before
      → found ≡ before
  unfolding load_last_block
  load-save_last_block_other db after p q block found before n s e f =
      elim (Option-cases (get after (bincode.key q))) [
        | inl x ↦ absurd (ground arith)
        | inr (r, x) ↦ elim (Option-cases (get db (bincode.key q))) [
          | inl y ↦ absurd (ground arith)
          | inr (t, y) ↦
              let w =
                tree.get-insert_other db after (bincode.key p) (bincode.key q) _ r t
                  (saved db after p block s) (λ k. n (bincode.key_injective q p k)) x y in
              let a = rw (x, w) at e in let b = rw y at f in cc
        ]
      ]
