-- ===== src/Services/Pruner/Rounds.antt =====
-- src/watchlist_pruner.rs: how many prune commands a run sends.
use liq_ranger.Base.{
  ◌-◌, ℕ, zero, suc, ◌+◌, ◌*◌, ◌/◌, ◌≡◌, List, [], ◌∷◌, arith, length, length-append,
}
use liq_ranger.Services.Pruner.{Event, block, start, on_block, prune_interval}

-- `n` blocks in a row, from `first` on.
abbrev pub blocks_from : ℕ → ℕ → List Event
blocks_from first zero = []
blocks_from first (suc n) = block first ∷ blocks_from (first + 1) n

length-on_block :
    (n : ℕ) → length (on_block (n + 1)) ≡ 2 * ((n + 1) / prune_interval - n / prune_interval)
length-on_block n = ground arith

-- n consecutive blocks from any block on cause one round, of a command to each list, for each multiple of
-- the interval among them.
pub start-blocks_from :
    (first n : ℕ)
    → length (start (blocks_from (first + 1) n)).0
      ≡ 2 * ((first + n) / prune_interval - first / prune_interval)
unfolding start
start-blocks_from first zero = omega arith
start-blocks_from first (suc n) =
    rw (length-append (on_block (first + 1)) (start (blocks_from (first + 1 + 1) n)).0)
      (omega (arith, length-on_block first, start-blocks_from (first + 1) n))
