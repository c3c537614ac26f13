-- ===== src/Services/Watcher.antt =====
-- src/block_watcher.rs: the loop over subscriptions, and in it the loop over the blocks of one. The
-- numbers are those that it sends to the block channel, oldest first.
pub mod Relay
use liq_ranger.Base.{ℕ, Bool, true, false, if◌then◌else◌, Option, none, some, List, [], ◌∷◌, ◌++◌}

-- A turn of `select!`: the flag of the shutdown changes, or the stream yields a block, which may have no
-- number, or its end.
pub data Turn : Type 0 where
  shutdown : Turn
  block : (number : Option ℕ) → Turn
  ended : Turn

-- A round of the outer loop: the flag as the round begins, and what the subscription brings, or none
-- where it fails.
pub record Round : Type 0 where
  pub flag : Bool
  pub stream : Option (List Turn)

pub data Ending : Type 0 where
  waits reconnects stopped : Ending

abbrev pub send : Option ℕ → List ℕ × Ending → List ℕ × Ending
send none after = after
send (some number) (numbers, ending) = (number ∷ numbers, ending)

-- The loop over the blocks of one subscription; it waits at the end of the list.
unfoldable pub relay : List Turn → List ℕ × Ending
relay [] = ([], waits)
relay (shutdown ∷ turns) = ([], stopped)
relay (block number ∷ turns) = send number (relay turns)
relay (ended ∷ turns) = ([], reconnects)

-- Only a stream that has ended leads to another round.
abbrev pub resume : List ℕ × Ending → List ℕ × Ending → List ℕ × Ending
resume (numbers, reconnects) (later, ending) = (numbers ++ later, ending)
resume (numbers, waits) after = (numbers, waits)
resume (numbers, stopped) after = (numbers, stopped)

abbrev pub served : Option (List Turn) → List ℕ × Ending → List ℕ × Ending
served none after = after
served (some turns) after = resume (relay turns) after

unfoldable pub start : List Round → List ℕ × Ending
start [] = ([], waits)
start (round ∷ rounds) = if round.flag then ([], stopped) else served round.stream (start rounds)
