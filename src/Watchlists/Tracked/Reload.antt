-- ===== src/Watchlists/Tracked/Reload.antt =====
-- A list that is loaded again from its tree: the `new` of both lists in src/watchlists.
use liq_ranger.Base.{
  ℕ, ◌≡◌, refl, Option, none, some, List, [], ◌∷◌, ok, arith, inl, inr, Option-cases, ap, sym,
  subst, ◌∙◌,
}
use liq_ranger.Watchlists.Cache.{Items, lookup, insert, lookup-insert, IsKeyed}
use liq_ranger.Watchlists.Sled.{Sled}
use liq_ranger.Watchlists.Tracked.{WatchList, contains, load, loaded}
use liq_ranger.Watchlists.Tracked.Synced.{Synced, lookup_same}
use liq_ranger.Watchlists.Tracked.Content.{contains-member, member}

abbrev or_else : Option Items → Option Items → Option Items
or_else none d = d
or_else (some v) d = some v

-- A row that is loaded stays, since no later row has its key.
lookup-loaded :
    (rows cache : List (ℕ × Items)) (j : ℕ)
    → IsKeyed rows
    → lookup j (loaded rows cache) ≡ or_else (lookup j rows) (lookup j cache)
lookup-loaded [] cache j h = refl
lookup-loaded ((k, v) ∷ rows) cache j h = ground (
  arith,
  lookup-loaded rows (insert k v cache) j h.1,
  lookup-insert k j v cache,
  h.0,
  lookup_same j k rows,
)

or_else-none : (o : Option Items) → or_else o none ≡ o
or_else-none none = refl
or_else-none (some v) = refl

module _ (sled : Sled) where
  Fresh : sled.Tree → WatchList sled → Type 0
  Fresh t w = (w.db ≡ t) × Synced sled w

  loaded-Synced :
      (t : sled.Tree) (rows : List (ℕ × Items))
      → sled.rows t ≡ some rows
      → Synced sled (record { db = t; cache = loaded rows [] })
  loaded-Synced t rows q k =
      lookup-loaded rows [] k (sled.rows_distinct t rows q)
      ∙ or_else-none (lookup k rows)
      ∙ sled.rows_listed t rows k q

  -- A list just loaded agrees with its tree.
  pub load-Synced :
      (t : sled.Tree) (w : WatchList sled) → load sled t ≡ ok w → (w.db ≡ t) × Synced sled w
  unfolding load Fresh
  load-Synced t w e = elim (Option-cases (sled.rows t)) [
    | inl q ↦ absurd (ground arith)
    | inr (l, q) ↦
        subst (Fresh t) {x = record { db = t; cache = loaded l [] }} (ground arith)
          (refl, loaded-Synced t l q)
  ]

  -- Where a list is in step with its tree, a list loaded from that tree tracks the same entries.
  pub contains-load :
      (w v : WatchList sled) (b i : ℕ)
      → Synced sled w
      → load sled w.db ≡ ok v
      → contains sled v b i ≡ contains sled w b i
  contains-load w v b i h e =
      let (q, s) = load-Synced w.db v e in
      rw (contains-member sled v b i, contains-member sled w b i)
        (ap (λ o. member o i) (s b ∙ ap (λ t. sled.get t b) q ∙ sym (h b)))
