-- ===== src/Watchlists/Tracked.antt =====
-- src/watchlists: the state that both lists keep, and its changes by one entry.
pub mod Synced
pub mod Content
pub mod Reload
pub mod Keyed
pub mod Refines
use liq_ranger.Base.{
  ℕ, Bool, false, Option, none, some, List, [], ◌∷◌, if◌then◌else◌, Result, ok, err,
}
use liq_ranger.Watchlists.Cache.{Items, has, put_item, drop_item, is_empty, lookup, insert, erase}
use liq_ranger.Watchlists.Sled.{Sled}

pub data DbError : Type 0 where
  db_failed : DbError

-- `entry(borrower).or_default()`
abbrev pub or_default : Option Items → Items
or_default none = []
or_default (some set) = set

-- The cache after an item has left a borrower's set.
abbrev pub without : List (ℕ × Items) → ℕ → Items → List (ℕ × Items)
without cache borrower set =
    if is_empty set then erase borrower (insert borrower set cache) else insert borrower set cache

abbrev pub loaded : List (ℕ × Items) → List (ℕ × Items) → List (ℕ × Items)
loaded [] cache = cache
loaded ((k, v) ∷ rows) cache = loaded rows (insert k v cache)

module _ (sled : Sled) where
  pub record WatchList : Type 0 where
    pub db : sled.Tree
    pub cache : List (ℕ × Items)

  abbrev pub Outcome : Type 0
  Outcome = Result DbError (Unit {0}) × WatchList

  abbrev saved : WatchList → Option sled.Tree → Outcome
  saved w none = (err db_failed, w)
  saved w (some t) = (ok tt, record w { db = t })

  -- Writes a borrower's set through, or removes the row if there is none.
  unfoldable pub persist : WatchList → ℕ → Outcome
  persist w borrower = elim (lookup borrower w.cache) [
    | some set ↦ saved w (sled.insert w.db borrower set)
    | none ↦ saved w (sled.remove w.db borrower)
  ]

  unfoldable pub track : WatchList → ℕ → ℕ → Outcome
  unfolding persist
  track w borrower item =
      let set = or_default (lookup borrower w.cache) in
      let cache = insert borrower (put_item set item) w.cache in
      if has set item
      then (ok tt, record w { cache = cache })
      else persist (record w { cache = cache }) borrower

  unfoldable pub untrack : WatchList → ℕ → ℕ → Outcome
  unfolding persist
  untrack w borrower item = elim (lookup borrower w.cache) [
    | none ↦ (ok tt, w)
    | some set ↦
        if has set item
        then persist (record w { cache = without w.cache borrower (drop_item set item) }) borrower
        else (ok tt, w)
  ]

  -- `contains`
  unfoldable pub contains : WatchList → ℕ → ℕ → Bool
  contains w borrower item = elim (lookup borrower w.cache) [
    | none ↦ false
    | some set ↦ has set item
  ]

  -- `new`: the cache from the rows of the tree.
  unfoldable pub load : sled.Tree → Result DbError WatchList
  load t = elim (sled.rows t) [
    | none ↦ err db_failed
    | some rows ↦ ok (record { db = t; cache = loaded rows [] })
  ]
