-- ===== src/Bootstrap/State.antt =====
-- src/watchlists/bootstrap_state.rs: the last block that the bootstrap of each protocol has reached.
pub mod RoundTrip
use liq_ranger.Base.{ℕ, ◌^◌, ◌<◌, ◌≡◌, ◌≢◌, Option, none, some, List, Result, ok, err}
use liq_ranger.Core.Types.{Protocol}

-- bincode: a key for each protocol, and the bytes of a block number.
pub record Bincode : Type 0 where
  pub key : Protocol → List ℕ
  pub serialize : ℕ → List ℕ
  pub deserialize : List ℕ → Option ℕ
  pub key_injective : (p q : Protocol) → key p ≡ key q → p ≡ q
  pub deserialize-serialize : (n : ℕ) → n < 2 ^ 64 → deserialize (serialize n) ≡ some n

-- A tree of sled; a read or a write may fail.
pub record ByteTree : Type 1 where
  pub Tree : Type 0
  pub get : Tree → List ℕ → Option (Option (List ℕ))
  pub insert : Tree → (key value : List ℕ) → Option Tree
  pub get-insert_same :
      (t u : Tree) (k v : List ℕ) (r : Option (List ℕ))
      → insert t k v ≡ some u
      → get u k ≡ some r
      → r ≡ some v
  pub get-insert_other :
      (t u : Tree) (k j v : List ℕ) (r s : Option (List ℕ))
      → insert t k v ≡ some u
      → j ≢ k
      → get u j ≡ some r
      → get t j ≡ some s
      → r ≡ s

pub data StateError : Type 0 where
  not_read not_written not_deserialized : StateError

module _ (bincode : Bincode) (tree : ByteTree) where
  open bincode use {key, serialize, deserialize}
  open tree use {Tree, get, insert}

  abbrev decoded : Option ℕ → Result StateError (Option ℕ)
  decoded none = err not_deserialized
  decoded (some n) = ok (some n)

  abbrev read_value : Option (Option (List ℕ)) → Result StateError (Option ℕ)
  read_value none = err not_read
  read_value (some none) = ok none
  read_value (some (some bytes)) = decoded (deserialize bytes)

  unfoldable pub load_last_block : Tree → Protocol → Result StateError (Option ℕ)
  load_last_block db protocol = read_value (get db (key protocol))

  abbrev inserted : Option Tree → Result StateError Tree
  inserted none = err not_written
  inserted (some t) = ok t

  unfoldable pub save_last_block : Tree → Protocol → ℕ → Result StateError Tree
  save_last_block db protocol block = inserted (insert db (key protocol) (serialize block))
