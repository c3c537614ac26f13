-- ===== src/Services/Pruner.antt =====
-- src/watchlist_pruner.rs: on every block whose number is a multiple of the interval, one prune
-- command to each watchlist.
pub mod Rounds
use liq_ranger.Base.{ℕ, ◌%◌, ◌==◌, if◌then◌else◌, List, [], ◌∷◌, ◌++◌}

abbrev pub prune_interval : ℕ
prune_interval = 50

-- A turn of `select!`: a shutdown, or a receipt from the block channel.
pub data Event : Type 0 where
  shutdown : Event
  block : (number : ℕ) → Event
  lagged : (dropped : ℕ) → Event
  closed : Event

pub data Target : Type 0 where
  aave morpho : Target

pub data Error : Type 0 where
  block_stream_closed : Error

-- The prune commands that a block leads to. A task of their own sends them; a failed send is only
-- logged.
abbrev pub on_block : ℕ → List Target
on_block number = if number % prune_interval == 0 then aave ∷ morpho ∷ [] else []

-- The commands sent, and how the loop ended; a list that ends first leaves the loop waiting.
pub data Ending : Type 0 where
  waiting stopped : Ending
  failed : Error → Ending

abbrev emit : List Target → List Target × Ending → List Target × Ending
emit cmds (rest, ending) = (cmds ++ rest, ending)

unfoldable pub start : List Event → List Target × Ending
start [] = ([], waiting)
start (shutdown ∷ es) = ([], stopped)
start (block number ∷ es) = emit (on_block number) (start es)
start (lagged dropped ∷ es) = start es
start (closed ∷ es) = ([], failed block_stream_closed)
