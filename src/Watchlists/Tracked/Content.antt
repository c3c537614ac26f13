-- ===== src/Watchlists/Tracked/Content.antt =====
-- The entries tracked after each operation: src/watchlists.
use liq_ranger.Base.{
  ℕ, ◌≡◌, ◌≢◌, refl, Bool, true, false, not, ◌&&◌, ◌||◌, Option, none, some, [], ◌∷◌, ◌==◌,
  if◌then◌else◌, ok, arith, inl, inr, Option-cases, Bool-cases, ==_iff,
}
use liq_ranger.Watchlists.Cache.{
  Items, has, put_item, drop_item, is_empty, lookup, insert, lookup-insert, has-put_item,
  has-drop_item,
}
use liq_ranger.Watchlists.Sled.{Sled}
use liq_ranger.Watchlists.Tracked.{WatchList, track, untrack, contains, or_default, without}
use liq_ranger.Watchlists.Tracked.Synced.{lookup-without, lookup_same, cache-persist}

-- A put leaves a set that is not empty.
put_item-ne-nil : (s : Items) (x : ℕ) → put_item s x ≢ []
put_item-ne-nil [] x = λ e. cc
put_item-ne-nil (y ∷ s) x = ground arith

has_empty : (s : Items) (j : ℕ) → is_empty s ≡ true → has s j ≡ false
has_empty [] j e = refl
has_empty (y ∷ s) j e = cc

ne-nil : (s : Items) → is_empty s ≡ false → s ≢ []
ne-nil [] e = cc
ne-nil (y ∷ s) e = λ f. cc

abbrev pub member : Option Items → ℕ → Bool
member none j = false
member (some set) j = has set j

module _ (sled : Sled) where
  -- No borrower is kept with an empty set.
  abbrev pub NoEmpty : WatchList sled → Type 0
  NoEmpty w = (k : ℕ) → lookup k w.cache ≢ some []

  pub contains-member :
      (w : WatchList sled) (c j : ℕ) → contains sled w c j ≡ member (lookup c w.cache) j
  unfolding contains
  contains-member w c j = ground arith

  pub cache-track :
      (w : WatchList sled) (b i : ℕ)
      → (track sled w b i).1.cache ≡ insert b (put_item (or_default (lookup b w.cache)) i) w.cache
  unfolding track
  cache-track w b i = ground (
    arith,
    cache-persist sled
        (record w { cache = insert b (put_item (or_default (lookup b w.cache)) i) w.cache }) b,
  )

  -- After an addition just that entry is tracked besides those before, whether or not the write
  -- succeeded.
  pub contains-track :
      (w : WatchList sled) (b i c j : ℕ)
      → contains sled (track sled w b i).1 c j ≡ ((c == b && j == i) || contains sled w c j)
  contains-track w b i c j =
      rw
        (
          contains-member (track sled w b i).1 c j,
          cache-track w b i,
          lookup-insert b c (put_item (or_default (lookup b w.cache)) i) w.cache,
          contains-member w c j,
        )
        (ground (arith, has-put_item (or_default (lookup b w.cache)) i j, lookup_same c b w.cache))

  pub cache-untrack :
      (w : WatchList sled) (b i : ℕ) (set : Items)
      → lookup b w.cache ≡ some set
      → has set i ≡ true
      → (untrack sled w b i).1.cache ≡ without w.cache b (drop_item set i)
  unfolding untrack
  cache-untrack w b i set q t =
      rw (q, untrack, t)
        (cache-persist sled (record w { cache = without w.cache b (drop_item set i) }) b)

  contains_same :
      (w : WatchList sled) (c b j i : ℕ) → c ≡ b → j ≡ i → contains sled w c j ≡ contains sled w b i
  contains_same w c b j i e f = rw (e, f) refl

  absent_same :
      (w : WatchList sled) (b i c j : ℕ)
      → contains sled w b i ≡ false
      → contains sled w c j ≡ (not (c == b && j == i) && contains sled w c j)
  absent_same w b i c j n = elim (Bool-cases (c == b && j == i)) [
    | inr f ↦ rw f refl
    | inl f ↦ ground (
      arith,
      contains_same w c b j i ((==_iff c b).0 (ground arith)) ((==_iff j i).0 (ground arith)),
    )
  ]

  pub untrack_absent :
      (w : WatchList sled) (b i : ℕ) → contains sled w b i ≡ false → untrack sled w b i ≡ (ok tt, w)
  unfolding untrack contains
  untrack_absent w b i t = ground arith

  -- The cache after a removal that takes effect.
  lookup-untrack :
      (w : WatchList sled) (b i c : ℕ) (set : Items)
      → lookup b w.cache ≡ some set
      → has set i ≡ true
      → lookup c (untrack sled w b i).1.cache ≡ (
          if c == b
          then (if is_empty (drop_item set i) then none else some (drop_item set i))
          else lookup c w.cache)
  lookup-untrack w b i c set q t =
      rw (cache-untrack w b i set q t) (lookup-without w.cache b c (drop_item set i))

  untracked :
      (w : WatchList sled) (b i c j : ℕ) (set : Items)
      → lookup b w.cache ≡ some set
      → has set i ≡ true
      → contains sled (untrack sled w b i).1 c j ≡ (not (c == b && j == i) && contains sled w c j)
  untracked w b i c j set q t =
      rw
        (
          contains-member (untrack sled w b i).1 c j,
          lookup-untrack w b i c set q t,
          contains-member w c j,
        )
        (ground
          (arith, has-drop_item set i j, has_empty (drop_item set i) j, lookup_same c b w.cache))

  -- After a removal just that entry is no longer tracked, whether or not the write succeeded.
  pub contains-untrack :
      (w : WatchList sled) (b i c j : ℕ)
      → contains sled (untrack sled w b i).1 c j ≡ (not (c == b && j == i) && contains sled w c j)
  contains-untrack w b i c j = elim (Bool-cases (contains sled w b i)) [
    | inr n ↦ rw (untrack_absent w b i n) (absent_same w b i c j n)
    | inl t ↦ elim (Option-cases (lookup b w.cache)) [
      | inl q ↦ absurd (ground (arith, contains-member w b i))
      | inr (set, q) ↦ untracked w b i c j set q (ground (arith, contains-member w b i))
    ]
  ]

  pub track-NoEmpty : (w : WatchList sled) (b i : ℕ) → NoEmpty w → NoEmpty (track sled w b i).1
  track-NoEmpty w b i h k =
      let set = or_default (lookup b w.cache) in
      rw (cache-track w b i, lookup-insert b k (put_item set i) w.cache)
        (ground (arith, h k, put_item-ne-nil set i))

  pub untrack-NoEmpty : (w : WatchList sled) (b i : ℕ) → NoEmpty w → NoEmpty (untrack sled w b i).1
  untrack-NoEmpty w b i h k = elim (Bool-cases (contains sled w b i)) [
    | inr n ↦ rw (untrack_absent w b i n) (h k)
    | inl t ↦ elim (Option-cases (lookup b w.cache)) [
      | inl q ↦ absurd (ground (arith, contains-member w b i))
      | inr (set, q) ↦
          rw (lookup-untrack w b i k set q (ground (arith, contains-member w b i)))
            (ground (arith, h k, ne-nil (drop_item set i)))
    ]
  ]
