-- ===== src/Watchlists/Tracked/Keyed.antt =====
-- src/watchlists: the shape of the cache.
use liq_ranger.Base.{
  ℕ, refl, List, [], ◌∷◌, ◌∙◌, arith, inl, inr, Option-cases, Bool-cases, ◌==◌, ap, ==_iff,
}
use liq_ranger.Watchlists.Cache.{
  Items, lookup, insert, erase, IsKeyed, lookup-insert, lookup-erase, is_empty, drop_item,
}
use liq_ranger.Watchlists.Sled.{Sled}
use liq_ranger.Watchlists.Tracked.{WatchList, track, untrack, contains, without}
use liq_ranger.Watchlists.Tracked.Content.{
  NoEmpty, cache-track, cache-untrack, untrack_absent, track-NoEmpty, untrack-NoEmpty,
  contains-member,
}

pub insert-IsKeyed : (k : ℕ) (v : Items) (m : List (ℕ × Items)) → IsKeyed m → IsKeyed (insert k v m)
insert-IsKeyed k v [] h = (refl, tt)
insert-IsKeyed k v ((j, u) ∷ m) h = elim (Bool-cases (k == j)) [
  | inl e ↦ rw e ((ap (λ x. lookup x m) ((==_iff k j).0 e) ∙ h.0, h.1))
  | inr e ↦ rw e ((ground (arith, lookup-insert k j v m, h.0), insert-IsKeyed k v m h.1))
]

pub erase-IsKeyed : (k : ℕ) (m : List (ℕ × Items)) → IsKeyed m → IsKeyed (erase k m)
erase-IsKeyed k [] h = tt
erase-IsKeyed k ((j, u) ∷ m) h = elim (Bool-cases (k == j)) [
  | inl e ↦ rw e (erase-IsKeyed k m h.1)
  | inr e ↦ rw e ((ground (arith, lookup-erase k j m, h.0), erase-IsKeyed k m h.1))
]

without-IsKeyed : (m : List (ℕ × Items)) (b : ℕ) (s : Items) → IsKeyed m → IsKeyed (without m b s)
without-IsKeyed m b s h = elim (Bool-cases (is_empty s)) [
  | inl e ↦ rw e (erase-IsKeyed b (insert b s m) (insert-IsKeyed b s m h))
  | inr e ↦ rw e (insert-IsKeyed b s m h)
]

module _ (sled : Sled) where
  -- Each borrower is listed once, and with an entry.
  abbrev pub IsTidy : WatchList sled → Type 0
  IsTidy w = IsKeyed w.cache × NoEmpty sled w

  -- From a cache that lists each borrower once, and none with an empty set, adding an entry leads to
  -- such a cache.
  pub track-IsTidy : (w : WatchList sled) (b i : ℕ) → IsTidy w → IsTidy (track sled w b i).1
  track-IsTidy w b i (h, n) =
      (rw (cache-track sled w b i) (insert-IsKeyed b _ w.cache h), track-NoEmpty sled w b i n)

  -- From a cache that lists each borrower once, and none with an empty set, removing an entry leads
  -- to such a cache, also where it is the last one of its borrower.
  pub untrack-IsTidy : (w : WatchList sled) (b i : ℕ) → IsTidy w → IsTidy (untrack sled w b i).1
  untrack-IsTidy w b i (h, n) = (keyed, untrack-NoEmpty sled w b i n)
    where
      keyed : IsKeyed (untrack sled w b i).1.cache
      keyed = elim (Bool-cases (contains sled w b i)) [
        | inr t ↦ rw (untrack_absent sled w b i t) h
        | inl t ↦ elim (Option-cases (lookup b w.cache)) [
          | inl q ↦ absurd (ground (arith, contains-member sled w b i))
          | inr (set, q) ↦
              rw (cache-untrack sled w b i set q (ground (arith, contains-member sled w b i)))
                (without-IsKeyed w.cache b (drop_item set i) h)
        ]
      ]
