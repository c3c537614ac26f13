-- ===== src/Services/Scanner.antt =====
-- src/core/services/protocol_scanner.rs: the loop that starts a scan every few blocks. Which event
-- the loop serves next is open; what a scan finds is in `Readers`.
pub mod Cadence
use liq_ranger.Base.{
  ℕ, suc, ◌-◌, Bool, true, false, ◌||◌, leb, ltb, if◌then◌else◌, Option, none, some, List, [], ◌∷◌,
}

abbrev pub block_interval : ℕ
block_interval = 3

-- One turn of `select!`: a shutdown, a scan task that ended, or a receipt from the block channel.
-- A lagging receiver asks the client for the tip, which may fail.
pub data Event : Type 0 where
  shutdown : Event
  task_done : Event
  block : (number : ℕ) → Event
  lagged : (tip : Option ℕ) → Event
  closed : Event

-- The loop's variables: the number of running scan tasks stands for the join set, and the blocks at
-- which scans were started are kept, newest first.
pub record Scanner : Type 0 where
  pub last_processed_block : ℕ
  pub in_flight : ℕ
  pub started : List ℕ
  pub stopped : Bool

unfoldable pub new : Scanner
new = record { last_processed_block = 0; in_flight = 0; started = []; stopped = false }

-- `tracker.shutdown()` aborts the tasks.
abbrev pub stop : Scanner → Scanner
stop s = record s { in_flight = 0; stopped = true }

unfoldable pub on_block : Scanner → ℕ → Scanner
on_block s block_number =
    if leb block_number s.last_processed_block
      || ltb (block_number - s.last_processed_block) block_interval
    then s
    else if ltb 0 s.in_flight
    then s
    else record s {
      last_processed_block = block_number;
      in_flight = suc s.in_flight;
      started = block_number ∷ s.started;
    }

unfoldable pub step : Scanner → Event → Scanner
unfolding on_block
step s shutdown = stop s
step s task_done = record s { in_flight = s.in_flight - 1 }
step s (block number) = on_block s number
step s (lagged none) = s
step s (lagged (some tip)) = on_block s tip
step s closed = stop s

-- The loop ends at a break.
unfoldable pub run : Scanner → List Event → Scanner
run s [] = s
run s (e ∷ es) = if s.stopped then s else run (step s e) es
