-- ===== src/Watchlists/Tracked/Refines.antt =====
-- src/watchlists: a list of changes, against a set of entries that forgets the cache and the tree.
use liq_ranger.Base.{ℕ, ◌≡◌, refl, ap, ◌∙◌, Bool, not, ◌&&◌, ◌||◌, List, [], ◌∷◌, ◌==◌, ok}
use liq_ranger.Core.Identity.{Text}
use liq_ranger.Watchlists.Sled.{Sled}
use liq_ranger.Watchlists.Tracked.{WatchList, Outcome, track, untrack, contains, load}
use liq_ranger.Watchlists.Tracked.Synced.{Synced, track-Synced, untrack-Synced}
use liq_ranger.Watchlists.Tracked.Content.{contains-track, contains-untrack}
use liq_ranger.Watchlists.Tracked.Reload.{contains-load}
use liq_ranger.Watchlists.Tracked.Keyed.{IsTidy, track-IsTidy, untrack-IsTidy}

-- A call of one of the two operations, with its text.
pub data Call : Type 0 where
  call_add call_remove : Text → Call

-- An addition or a removal; `unread` is one of a text that is no identity of the list.
pub data Change : Type 0 where
  added removed : (borrower item : ℕ) → Change
  unread : Change

-- The entries, as a set of pairs.
abbrev pub Entries : Type 0
Entries = ℕ → ℕ → Bool

abbrev pub change : Change → Entries → Entries
change (added b i) s c j = (c == b && j == i) || s c j
change (removed b i) s c j = not (c == b && j == i) && s c j
change unread s c j = s c j

abbrev pub replay : List Change → Entries → Entries
replay [] s = s
replay (x ∷ xs) s = replay xs (change x s)

replay_same :
    (xs : List Change) (s t : Entries) (c j : ℕ)
    → ((c j : ℕ) → s c j ≡ t c j)
    → replay xs s c j ≡ replay xs t c j
replay_same [] s t c j h = h c j
replay_same (x ∷ xs) s t c j h = replay_same xs (change x s) (change x t) c j (same x)
  where
    same : (x : Change) → (c j : ℕ) → change x s c j ≡ change x t c j
    same (added b i) c j = ap (λ z. (c == b && j == i) || z) (h c j)
    same (removed b i) c j = ap (λ z. not (c == b && j == i) && z) (h c j)
    same unread c j = h c j

module _ (sled : Sled) where
  unfoldable pub apply : Change → WatchList sled → Outcome sled
  apply (added b i) w = track sled w b i
  apply (removed b i) w = untrack sled w b i
  apply unread w = (ok tt, w)

  contains-apply :
      (x : Change) (w : WatchList sled) (c j : ℕ)
      → contains sled (apply x w).1 c j ≡ change x (contains sled w) c j
  unfolding apply
  contains-apply (added b i) w c j = contains-track sled w b i c j
  contains-apply (removed b i) w c j = contains-untrack sled w b i c j
  contains-apply unread w c j = refl

  apply-Synced :
      (x : Change) (w : WatchList sled)
      → Synced sled w
      → (apply x w).0 ≡ ok tt
      → Synced sled (apply x w).1
  unfolding apply
  apply-Synced (added b i) w h e = track-Synced sled w b i h e
  apply-Synced (removed b i) w h e = untrack-Synced sled w b i h e
  apply-Synced unread w h e = h

  apply-IsTidy : (x : Change) (w : WatchList sled) → IsTidy sled w → IsTidy sled (apply x w).1
  unfolding apply
  apply-IsTidy (added b i) w h = track-IsTidy sled w b i h
  apply-IsTidy (removed b i) w h = untrack-IsTidy sled w b i h
  apply-IsTidy unread w h = h

  -- A sequence of calls whose callers go on after a failed write.
  unfoldable pub run : List Change → WatchList sled → WatchList sled
  run [] w = w
  run (x ∷ xs) w = run xs (apply x w).1

  -- No write of the sequence fails.
  abbrev pub AllWritten : List Change → WatchList sled → Type 0
  AllWritten [] w = Unit
  AllWritten (x ∷ xs) w = ((apply x w).0 ≡ ok tt) × AllWritten xs (apply x w).1

  pub contains-run :
      (xs : List Change) (w : WatchList sled) (c j : ℕ)
      → contains sled (run xs w) c j ≡ replay xs (contains sled w) c j
  unfolding run
  contains-run [] w c j = refl
  contains-run (x ∷ xs) w c j =
      contains-run xs (apply x w).1 c j
      ∙ replay_same xs (contains sled (apply x w).1) (change x (contains sled w)) c j
          (contains-apply x w)

  pub run-IsTidy : (xs : List Change) (w : WatchList sled) → IsTidy sled w → IsTidy sled (run xs w)
  unfolding run
  run-IsTidy [] w h = h
  run-IsTidy (x ∷ xs) w h = run-IsTidy xs (apply x w).1 (apply-IsTidy x w h)

  pub run-Synced :
      (xs : List Change) (w : WatchList sled)
      → Synced sled w
      → AllWritten xs w
      → Synced sled (run xs w)
  unfolding run
  run-Synced [] w h e = h
  run-Synced (x ∷ xs) w h e = run-Synced xs (apply x w).1 (apply-Synced x w h e.0) e.1

  -- Where a list in step with its tree takes any sequence of changes and each write succeeds, a list
  -- loaded afterwards from the tree tracks what the changes make of the set tracked at first.
  pub contains-load-run :
      (xs : List Change) (w v : WatchList sled) (c j : ℕ)
      → Synced sled w
      → AllWritten xs w
      → load sled (run xs w).db ≡ ok v
      → contains sled v c j ≡ replay xs (contains sled w) c j
  contains-load-run xs w v c j h e l =
      contains-load sled (run xs w) v c j (run-Synced xs w h e) l ∙ contains-run xs w c j
