-- ===== src/Examples/Lists.antt =====
-- The watchlists on a tree in memory: sequences of calls, and a load.
use liq_ranger.Base.{◌≡◌, refl, [], ◌∷◌, List, ok, map, ℕ}
use liq_ranger.Core.Identity.{Text, morpho_blue, aave_v3, to_string_id, from_str, split}
use liq_ranger.Watchlists.Tracked.{WatchList, track, untrack, persist, contains, load}
use liq_ranger.Watchlists.Tracked.Synced.{Synced}
use liq_ranger.Watchlists.Tracked.Refines.{Call, call_add, call_remove, replay}
use liq_ranger.Watchlists.Morpho.{contains_identity as morpho_has, add, remove}
use liq_ranger.Watchlists.Morpho.Refines.{meaning, AllOk, calls, contains-load-calls}
use liq_ranger.Watchlists.Aave.{
  contains_identity as aave_has, add as aave_add, remove as aave_remove,
}
use liq_ranger.Watchlists.Aave.Refines.{
  meaning as aave_meaning, AllOk as AaveAllOk, calls as aave_calls, contains-load-calls_entry,
}
use liq_ranger.Examples.{short_hex, memory, put}

-- Borrower 9 with two entries.
abbrev list : WatchList memory
list = record { db = ((9, 7 ∷ 8 ∷ []) ∷ [], (refl, tt)); cache = (9, 7 ∷ 8 ∷ []) ∷ [] }

list-Synced : Synced memory list
list-Synced k = refl

abbrev morpho_text : ℕ → ℕ → Text
morpho_text m b = to_string_id short_hex (morpho_blue m b)

abbrev aave_text : ℕ → ℕ → Text
aave_text b r = to_string_id short_hex (aave_v3 b r)

-- An entry is removed, a new one is added, and a text of the other list is ignored.
abbrev morpho_calls : List Call
morpho_calls =
    call_remove (morpho_text 7 9) ∷ call_add (morpho_text 3 5) ∷ call_add (aave_text 1 2) ∷ []

abbrev reserve_calls : List Call
reserve_calls =
    call_remove (aave_text 9 7) ∷ call_add (aave_text 5 3) ∷ call_add (morpho_text 1 2) ∷ []

morpho_written : AllOk short_hex memory morpho_calls list
unfolding add remove track untrack persist to_string_id from_str split
morpho_written = (refl, (refl, (refl, tt)))

reserves_written : AaveAllOk short_hex memory reserve_calls list
unfolding aave_add aave_remove track untrack persist to_string_id from_str split
reserves_written = (refl, (refl, (refl, tt)))

abbrev changed : WatchList memory
changed = record {
  db = put (put list.db 9 (8 ∷ [])) 5 (3 ∷ []);
  cache = (9, 8 ∷ []) ∷ (5, 3 ∷ []) ∷ [];
}

loaded_at : load memory (calls short_hex memory morpho_calls list).db ≡ ok changed
unfolding load add remove track untrack persist to_string_id from_str split
loaded_at = refl

contains-load-calls_example :
    morpho_has short_hex memory changed (morpho_text 3 5)
    ≡ replay (map (meaning short_hex) morpho_calls) (contains memory list) 5 3
contains-load-calls_example =
    contains-load-calls short_hex memory morpho_calls list changed 3 5 list-Synced morpho_written
      loaded_at

entries_loaded_at : load memory (aave_calls short_hex memory reserve_calls list).db ≡ ok changed
unfolding load aave_add aave_remove track untrack persist to_string_id from_str split
entries_loaded_at = refl

contains-load-calls_entry_example :
    aave_has short_hex memory changed (aave_text 5 3)
    ≡ replay (map (aave_meaning short_hex) reserve_calls) (contains memory list) 5 3
contains-load-calls_entry_example =
    contains-load-calls_entry short_hex memory reserve_calls list changed 3 5 list-Synced
      reserves_written entries_loaded_at
