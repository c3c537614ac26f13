-- ===== src/Updaters/Sweep.antt =====
-- src/watchlists/watchlist_updaters: a round of checks, as the removals of the cleared entries.
use liq_ranger.Base.{
  ℕ, ◌≡◌, refl, Bool, true, false, not, ◌&&◌, ◌||◌, ◌==◌, if◌then◌else◌, Option, none, some, List,
  [], ◌∷◌, arith, Bool-cases, inl, inr, ==_iff,
}
use liq_ranger.Watchlists.Sled.{Sled}
use liq_ranger.Watchlists.Tracked.{WatchList, contains, untrack}
use liq_ranger.Watchlists.Tracked.Content.{contains-untrack}
use liq_ranger.Watchlists.Tracked.Keyed.{IsTidy, untrack-IsTidy}

-- The check has said that there is no debt.
abbrev pub is_cleared : Option Bool → Bool
is_cleared (some false) = true
is_cleared (some true) = false
is_cleared none = false

abbrev pub Pairs : Type 0
Pairs = List (ℕ × ℕ)

abbrev pub has_pair : Pairs → ℕ → ℕ → Bool
has_pair [] c j = false
has_pair ((b, i) ∷ ps) c j = (b == c && i == j) || has_pair ps c j

cleared_same :
    (cleared : ℕ → ℕ → Bool) (b c i j : ℕ)
    → (b == c) ≡ true
    → (i == j) ≡ true
    → cleared c j ≡ cleared b i
cleared_same cleared b c i j e f = rw ((==_iff b c).0 e, (==_iff i j).0 f) refl

module _ (sled : Sled) (cleared : ℕ → ℕ → Bool) where
  abbrev pub drop_cleared : WatchList sled → ℕ → ℕ → WatchList sled
  drop_cleared w b i = if cleared b i then (untrack sled w b i).1 else w

  abbrev pub sweep : Pairs → WatchList sled → WatchList sled
  sweep [] w = w
  sweep ((b, i) ∷ ps) w = sweep ps (drop_cleared w b i)

  pub contains-drop_cleared :
      (w : WatchList sled) (b i c j : ℕ)
      → contains sled (drop_cleared w b i) c j
        ≡ (not ((b == c && i == j) && cleared c j) && contains sled w c j)
  contains-drop_cleared w b i c j = elim (Bool-cases (cleared b i)) [
    | inl e ↦
        rw (e, contains-untrack sled w b i c j) (ground (arith, e, cleared_same cleared b c i j))
    | inr e ↦ rw e (ground (arith, e, cleared_same cleared b c i j))
  ]

  pub contains-sweep :
      (ps : Pairs) (w : WatchList sled) (c j : ℕ)
      → contains sled (sweep ps w) c j
        ≡ (not (has_pair ps c j && cleared c j) && contains sled w c j)
  contains-sweep [] w c j = ground arith
  contains-sweep ((b, i) ∷ ps) w c j =
      rw (contains-sweep ps (drop_cleared w b i) c j, contains-drop_cleared w b i c j)
        (ground arith)

  pub drop_cleared-IsTidy :
      (w : WatchList sled) (b i : ℕ) → IsTidy sled w → IsTidy sled (drop_cleared w b i)
  drop_cleared-IsTidy w b i h = elim (Bool-cases (cleared b i)) [
    | inl e ↦ rw e (untrack-IsTidy sled w b i h)
    | inr e ↦ rw e h
  ]

  pub sweep-IsTidy : (ps : Pairs) (w : WatchList sled) → IsTidy sled w → IsTidy sled (sweep ps w)
  sweep-IsTidy [] w h = h
  sweep-IsTidy ((b, i) ∷ ps) w h =
      sweep-IsTidy ps (drop_cleared w b i) (drop_cleared-IsTidy w b i h)
