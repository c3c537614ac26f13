-- ===== src/Watchlists/Tracked/Synced.antt =====
-- src/watchlists: the cache against the tree.
use liq_ranger.Base.{
  ℕ, ◌≡◌, refl, ap, ◌∙◌, true, false, none, some, List, ◌∷◌, ◌==◌, if◌then◌else◌, ok, arith, inl,
  inr, Option-cases, Bool-cases, ==_iff,
}
use liq_ranger.Watchlists.Cache.{
  Items, has, drop_item, is_empty, lookup, insert, lookup-insert, lookup-erase,
}
use liq_ranger.Watchlists.Sled.{Sled}
use liq_ranger.Watchlists.Tracked.{WatchList, persist, track, untrack, or_default, without}

pub lookup-without :
    (cache : List (ℕ × Items)) (b k : ℕ) (s : Items)
    → lookup k (without cache b s)
      ≡ (if k == b then (if is_empty s then none else some s) else lookup k cache)
lookup-without cache b k s = elim (Bool-cases (is_empty s)) [
  | inl e ↦ rw (e, lookup-erase b k (insert b s cache), lookup-insert b k s cache) (ground arith)
  | inr e ↦ rw (e, lookup-insert b k s cache) (ground arith)
]

pub lookup_same : (k b : ℕ) (m : List (ℕ × Items)) → (k == b) ≡ true → lookup k m ≡ lookup b m
lookup_same k b m e = ap (λ x. lookup x m) ((==_iff k b).0 e)

module _ (sled : Sled) where
  -- The tree holds the row of every borrower of the cache, and no other row.
  abbrev pub Synced : WatchList sled → Type 0
  Synced w = (k : ℕ) → lookup k w.cache ≡ sled.get w.db k

  pub cache-persist : (w : WatchList sled) (b : ℕ) → (persist sled w b).1.cache ≡ w.cache
  unfolding persist
  cache-persist w b = ground arith

  -- Where only the row of `b` may be stale, a successful write of that row brings the two together.
  persist-Synced :
      (w : WatchList sled) (b : ℕ)
      → ((k : ℕ) → (k == b) ≡ false → lookup k w.cache ≡ sled.get w.db k)
      → (persist sled w b).0 ≡ ok tt
      → Synced (persist sled w b).1
  unfolding persist
  persist-Synced w b h e k = elim (Option-cases (lookup b w.cache)) [
    | inr (set, q) ↦ elim (Option-cases (sled.insert w.db b set)) [
      | inl f ↦ absurd (ground arith)
      | inr (t, f) ↦ ground (arith, sled.get-insert w.db t b k set f, h k, lookup_same k b w.cache)
    ]
    | inl q ↦ elim (Option-cases (sled.remove w.db b)) [
      | inl f ↦ absurd (ground arith)
      | inr (t, f) ↦ ground (arith, sled.get-remove w.db t b k f, h k, lookup_same k b w.cache)
    ]
  ]

  -- The outcome of a change of `b`'s set, written through.
  change-Synced :
      (w : WatchList sled) (b : ℕ) (cache : List (ℕ × Items))
      → Synced w
      → ((k : ℕ) → (k == b) ≡ false → lookup k cache ≡ lookup k w.cache)
      → (persist sled (record w { cache = cache }) b).0 ≡ ok tt
      → Synced (persist sled (record w { cache = cache }) b).1
  change-Synced w b cache h same e =
      persist-Synced (record w { cache = cache }) b (λ k n. same k n ∙ h k) e

  -- From a list in step with its tree, adding an entry without an error leads to one.
  pub track-Synced :
      (w : WatchList sled) (b i : ℕ)
      → Synced w
      → (track sled w b i).0 ≡ ok tt
      → Synced (track sled w b i).1
  unfolding track
  track-Synced w b i h e = elim (Bool-cases (has (or_default (lookup b w.cache)) i)) [
    | inl t ↦ rw t (λ k. ground (
      arith,
      lookup-insert b k (or_default (lookup b w.cache)) w.cache,
      h k,
      lookup_same k b w.cache,
    ))
    | inr t ↦ rw t (
        change-Synced w b _ h
          (λ k n. ground (arith, lookup-insert b k (i ∷ or_default (lookup b w.cache)) w.cache))
          (rw t at e))
  ]

  -- From a list in step with its tree, removing an entry without an error leads to one.
  pub untrack-Synced :
      (w : WatchList sled) (b i : ℕ)
      → Synced w
      → (untrack sled w b i).0 ≡ ok tt
      → Synced (untrack sled w b i).1
  unfolding untrack
  untrack-Synced w b i h e = elim (Option-cases (lookup b w.cache)) [
    | inl q ↦ rw (q, untrack) h
    | inr (set, q) ↦ elim (Bool-cases (has set i)) [
      | inl t ↦
          rw (q, untrack, t)
            (change-Synced w b (without w.cache b (drop_item set i)) h
              (λ k n. rw (lookup-without w.cache b k (drop_item set i)) (rw n refl))
              (rw (q, untrack, t) at e))
      | inr t ↦ rw (q, untrack, t) h
    ]
  ]
