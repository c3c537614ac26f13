-- ===== src/Services/Watcher/Relay.antt =====
-- src/block_watcher.rs: which numbers are sent, over all subscriptions.
use liq_ranger.Base.{
  ℕ, ◌≡◌, refl, ap, ◌∙◌, if◌then◌else◌, Option, none, some, List, [], ◌∷◌, Bool-cases, inl, inr,
}
use liq_ranger.Services.Watcher.{
  Turn, shutdown, block, ended, Round, Ending, waits, reconnects, stopped, send, relay, resume,
  served, start,
}

-- The turns of a stream up to its end, and then `rest`.
abbrev pub go_on : List Turn → List Turn → List Turn
go_on [] rest = []
go_on (ended ∷ turns) rest = rest
go_on (shutdown ∷ turns) rest = shutdown ∷ go_on turns rest
go_on (block number ∷ turns) rest = block number ∷ go_on turns rest

abbrev pub from_stream : Option (List Turn) → List Turn → List Turn
from_stream none rest = rest
from_stream (some turns) rest = go_on turns rest

-- What all rounds bring, as one list.
abbrev pub joined : List Round → List Turn
joined [] = []
joined (round ∷ rounds) =
    if round.flag then shutdown ∷ [] else from_stream round.stream (joined rounds)

-- The numbers of the blocks before the shutdown, each once and in order.
abbrev pub numbers : List Turn → List ℕ
numbers [] = []
numbers (shutdown ∷ turns) = []
numbers (ended ∷ turns) = numbers turns
numbers (block none ∷ turns) = numbers turns
numbers (block (some n) ∷ turns) = n ∷ numbers turns

-- Whether there is a shutdown.
abbrev pub end_of : List Turn → Ending
end_of [] = waits
end_of (shutdown ∷ turns) = stopped
end_of (ended ∷ turns) = end_of turns
end_of (block number ∷ turns) = end_of turns

abbrev expected : List Turn → List ℕ × Ending
expected turns = (numbers turns, end_of turns)

resume-send :
    (number : Option ℕ) (r after : List ℕ × Ending)
    → resume (send number r) after ≡ send number (resume r after)
resume-send none r after = refl
resume-send (some n) (sent, waits) after = refl
resume-send (some n) (sent, reconnects) after = refl
resume-send (some n) (sent, stopped) after = refl

send-expected :
    (number : Option ℕ) (turns : List Turn)
    → send number (expected turns) ≡ expected (block number ∷ turns)
send-expected none turns = refl
send-expected (some n) turns = refl

relay-go_on :
    (turns rest : List Turn) → resume (relay turns) (expected rest) ≡ expected (go_on turns rest)
unfolding relay
relay-go_on [] rest = refl
relay-go_on (ended ∷ turns) rest = refl
relay-go_on (shutdown ∷ turns) rest = refl
relay-go_on (block number ∷ turns) rest =
    resume-send number (relay turns) (expected rest)
    ∙ ap (send number) (relay-go_on turns rest)
    ∙ send-expected number (go_on turns rest)

served-joined :
    (stream : Option (List Turn)) (rounds : List Round)
    → start rounds ≡ expected (joined rounds)
    → served stream (start rounds) ≡ expected (from_stream stream (joined rounds))
served-joined none rounds e = e
served-joined (some turns) rounds e =
    ap (resume (relay turns)) e ∙ relay-go_on turns (joined rounds)

-- The watcher sends the number of each block that the subscriptions bring before the shutdown, once
-- and in order, across the ends of streams and failed subscriptions, and nothing else; and it stops
-- just if there is a shutdown.
pub start-joined :
    (rounds : List Round) → start rounds ≡ (numbers (joined rounds), end_of (joined rounds))
unfolding start
start-joined [] = refl
start-joined (round ∷ rounds) = elim (Bool-cases round.flag) [
  | inl h ↦ rw h refl
  | inr h ↦ rw h (served-joined round.stream rounds (start-joined rounds))
]
