-- ===== src/Examples/Boots.antt =====
-- Bootstraps against a node with a few blocks.
use liq_ranger.Base.{
  if◌then◌else◌, ◌==◌, ℕ, ◌≤◌, ◌≡◌, ◌≢◌, refl, true, some, none, [], ◌∷◌, ok, err, arith,
  Bool-cases, inl, inr, subst,
}
use liq_ranger.Core.Identity.{aave_v3, to_string_id, from_str, split}
use liq_ranger.Readers.Morpho.{contains, unique}
use liq_ranger.Watchlists.Tracked.{WatchList, track, persist, contains as tracks}
use liq_ranger.Watchlists.Aave.{contains_identity, add}
use liq_ranger.Bootstrap.{
  Node, Progress, add_entries, run, out_of_fuel, scan, scan_batch, fetch_batch, start_block,
}
use liq_ranger.Bootstrap.Coverage.{is_scanned, run_fuel, run_covers}
use liq_ranger.Bootstrap.Aave.{Logs, entries_of, aave_adapter, run_aave}
use liq_ranger.Bootstrap.Morpho
use liq_ranger.Bootstrap.Morpho.{run_morpho}
use liq_ranger.Bootstrap.Morpho.Dropped.{run_morpho_same}
use liq_ranger.Examples.{short_hex, memory}
use liq_ranger.Bootstrap.Aave.Complete.{AnswersAll, lists, run_aave_tracks}

abbrev empty : WatchList memory
empty = record { db = ([], tt); cache = [] }

abbrev logs : Logs
logs = record {
  borrows = record { reserve = 3; borrower = 5 } ∷ [];
  repays = [];
  liqs = record { reserve = 4; borrower = 6 } ∷ [];
}

-- Each range answers at the second attempt.
abbrev node : Node Logs
node = record {
  state_reads = true;
  get_block_number = some 2_500;
  query = λ attempt first last. if attempt == 0 then none else some logs;
  state_takes = λ b. true;
}

abbrev begin : Progress (WatchList memory)
begin = record { watch_list = empty; last_block = some 120; scanned = [] }

run_fuel_example : (run (aave_adapter short_hex (λ r. true) memory) node begin).0 ≢ err out_of_fuel
run_fuel_example = run_fuel (aave_adapter short_hex (λ r. true) memory) node begin

aave_ok : (run (aave_adapter short_hex (λ r. true) memory) node begin).0 ≡ ok tt
unfolding run scan scan_batch fetch_batch add_entries aave_adapter contains_identity add track
    persist from_str split tracks
aave_ok = refl

run_covers_example :
    ((k : ℕ)
      → 100 ≤ k
      → k ≤ 2_500
      → is_scanned (run (aave_adapter short_hex (λ r. true) memory) node begin).1.scanned k ≡ true)
    × (100 ≤ 2_500
        → (run (aave_adapter short_hex (λ r. true) memory) node begin).1.last_block ≡ some 2_500)
run_covers_example =
    run_covers (aave_adapter short_hex (λ r. true) memory) node begin 2_500 refl aave_ok

listed_at :
    contains (entries_of short_hex (λ r. true) logs) (to_string_id short_hex (aave_v3 6 4)) ≡ true
unfolding to_string_id
listed_at = refl

added_at :
    (add_entries
      (aave_adapter short_hex (λ r. true) memory)
      (unique (entries_of short_hex (λ r. true) logs))
      empty).0
    ≡ ok tt
unfolding add_entries aave_adapter contains_identity add track persist from_str split tracks
added_at = refl

abbrev morpho_logs : Morpho.Logs
morpho_logs = record { borrows = record { id = 7; borrower = 9 } ∷ []; repays = []; liqs = [] }

abbrev morpho_node : Node Morpho.Logs
morpho_node = record {
  state_reads = true;
  get_block_number = some 3_000;
  query = λ attempt first last. some morpho_logs;
  state_takes = λ b. true;
}

-- A whitelisted market.
run_morpho_same_example :
    (run_morpho short_hex (λ m. true) memory morpho_node begin).1.watch_list ≡ empty
run_morpho_same_example = run_morpho_same short_hex (λ m. true) memory morpho_node begin

answers_all : AnswersAll node (λ block. logs)
answers_all attempt first last block found e l m b r h = elim (Bool-cases (attempt == 0)) [
  | inl k ↦ absurd (ground arith)
  | inr k ↦ let same : logs ≡ found = ground arith in subst (λ x. lists x b r ≡ true) same h
]

run_ok : (run_aave short_hex (λ r. true) memory node begin).0 ≡ ok tt
unfolding run_aave
run_ok = aave_ok

start_at : start_block (aave_adapter short_hex (λ r. true) memory) begin ≤ 700
unfolding aave_adapter
start_at = omega arith

-- The borrow of 5 in reserve 3, from block 700.
run_aave_tracks_example :
    contains_identity short_hex memory
      (run_aave short_hex (λ r. true) memory node begin).1.watch_list
      (to_string_id short_hex (aave_v3 5 3))
    ≡ true
run_aave_tracks_example =
    run_aave_tracks short_hex (λ r. true) memory node (λ block. logs) begin 2_500 700 5 3
      answers_all refl run_ok start_at (omega arith) refl refl
