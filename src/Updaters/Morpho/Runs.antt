-- ===== src/Updaters/Morpho/Runs.antt =====
-- src/watchlists/watchlist_updaters/morpho_watchlist_updater.rs: the loop over its events.
use liq_ranger.Base.{ℕ, ◌≡◌, refl, ap, ◌∙◌, List, [], ◌∷◌, ◌++◌}
use liq_ranger.Core.Identity.{HexCodec}
use liq_ranger.Watchlists.Cache.{Items}
use liq_ranger.Watchlists.Sled.{Sled}
use liq_ranger.Watchlists.Tracked.{WatchList, contains}
use liq_ranger.Watchlists.Tracked.Keyed.{IsTidy}
use liq_ranger.Watchlists.Tracked.Refines.{Entries}
use liq_ranger.Updaters.Outcome.{Turn, goes_on, stops, fails, list_of}
use liq_ranger.Updaters.Morpho.{Event, step, start, after}
use liq_ranger.Updaters.Morpho.Effect.{effect, contains-step, step-IsTidy}

abbrev pub effects : Items → List Event → Entries → Entries
effects markets [] s = s
effects markets (e ∷ es) s = effects markets es (effect markets e s)

module _ (hex : HexCodec) (sled : Sled) (markets : Items) where
  -- The list holds what some first events make of the entries, all of them if the loop goes on.
  abbrev pub IsServed : List Event → Entries → Turn sled → Type 0
  IsServed es s t =
      (front back : List Event) × (es ≡ front ++ back)
      × IsTidy sled (list_of sled t)
      × ((c n : ℕ) → contains sled (list_of sled t) c n ≡ effects markets front s c n)
      × ((v : WatchList sled) → t ≡ goes_on v → back ≡ [])

  step_entries :
      (w : WatchList sled) (e : Event)
      → IsTidy sled w
      → contains sled (list_of sled (step hex sled markets w e))
        ≡ effect markets e (contains sled w)
  step_entries w e h i c n = contains-step hex sled markets w e c n h i

  after-IsServed :
      (e : Event) (es : List Event) (s : Entries) (t : Turn sled)
      → IsTidy sled (list_of sled t)
      → contains sled (list_of sled t) ≡ effect markets e s
      → ((w : WatchList sled)
          → IsTidy sled w
          → IsServed es (contains sled w) (start hex sled markets w es))
      → IsServed (e ∷ es) s (after hex sled markets (λ v. start hex sled markets v es) t)
  after-IsServed e es s (goes_on w) h q ih =
      let (front, back, split, tidy, same, ended) = ih w h in
      (
        e ∷ front,
        back,
        ap (λ l. e ∷ l) split,
        tidy,
        (λ c n. same c n ∙ ap (λ x. effects markets front x c n) q),
        ended,
      )
  after-IsServed e es s (stops w) h q ih =
      (e ∷ [], es, refl, h, (λ c n. ap (λ x. x c n) q), (λ v p. absurd (cc)))
  after-IsServed e es s (fails x w) h q ih =
      (e ∷ [], es, refl, h, (λ c n. ap (λ x. x c n) q), (λ v p. absurd (cc)))

  -- From a tidy list, the loop leads to a tidy list, which tracks what some first events make of the
  -- positions tracked before: all events, if the loop has not ended.
  pub start-IsServed :
      (es : List Event) (w : WatchList sled)
      → IsTidy sled w
      → IsServed es (contains sled w) (start hex sled markets w es)
  unfolding start
  start-IsServed [] w h = ([], [], refl, h, (λ c n. refl), (λ v p. refl))
  start-IsServed (e ∷ es) w h =
      after-IsServed e es (contains sled w) (step hex sled markets w e)
        (step-IsTidy hex sled markets w e h) (step_entries w e h) (λ v k. start-IsServed es v k)
