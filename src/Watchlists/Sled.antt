-- ===== src/Watchlists/Sled.antt =====
-- The embedded database `sled`, as one tree of sets with `bincode` around it: what is inserted is
-- read back until it is replaced or removed. Any call may fail.
use liq_ranger.Base.{ℕ, ◌≡◌, Option, none, some, List, ◌==◌, if◌then◌else◌}
use liq_ranger.Watchlists.Cache.{Items, lookup, IsKeyed}

pub record Sled : Type 1 where
  pub Tree : Type 0
  pub get : Tree → ℕ → Option Items
  pub insert : Tree → ℕ → Items → Option Tree
  pub remove : Tree → ℕ → Option Tree
  pub rows : Tree → Option (List (ℕ × Items))
  pub get-insert :
      (t u : Tree) (k j : ℕ) (v : Items)
      → insert t k v ≡ some u
      → get u j ≡ (if j == k then some v else get t j)
  pub get-remove :
      (t u : Tree) (k j : ℕ) → remove t k ≡ some u → get u j ≡ (if j == k then none else get t j)
  pub rows_listed :
      (t : Tree) (l : List (ℕ × Items)) (j : ℕ) → rows t ≡ some l → lookup j l ≡ get t j
  pub rows_distinct : (t : Tree) (l : List (ℕ × Items)) → rows t ≡ some l → IsKeyed l
