-- ===== src/Services/Dispatch.antt =====
-- src/core/services/protocol_scanner.rs: the task of a scan, which sends what the readers find to the
-- pipeline. The readers run at the same time; here they come one after another.
pub mod Found
use liq_ranger.Base.{ℕ, Bool, true, false, Option, none, some, List, [], ◌∷◌, ◌++◌, Result, ok, err}
use liq_ranger.Base.Word.{Panic, Checked}
use liq_ranger.Core.Types.{BorrowerProfile}
use liq_ranger.Services.Pipeline.{LiqPayload}

-- The channel of the crate tokio: `send` waits for room, and fails once the receiver is gone.
pub record Channel : Type 1 where
  pub State : Type 0
  pub send : State → LiqPayload → Bool × State

abbrev pub to_payload : ℕ → BorrowerProfile → LiqPayload
to_payload block profile = record { profile = profile; block_number = block }

-- How `fetch_liquidation_candidates` of a reader ends: with profiles, with an error, or with a panic.
abbrev pub Fetched : Type 0
Fetched = Checked (Option (List BorrowerProfile))

module _ (channel : Channel) where
  open channel use {State, send}

  -- The channel, and the payloads that it has taken, in order.
  pub record Sender : Type 0 where
    pub state : State
    pub sent : List LiqPayload

  abbrev pub after_send : (Sender → Sender) → Sender → LiqPayload → Bool × State → Sender
  after_send rest s payload (true, state) =
      rest (record { state = state; sent = s.sent ++ payload ∷ [] })
  after_send rest s payload (false, state) = record s { state = state }

  -- The loop over the profiles of one reader; it returns once the channel is closed.
  unfoldable pub send_each : ℕ → List BorrowerProfile → Sender → Sender
  send_each block [] s = s
  send_each block (profile ∷ profiles) s =
      after_send (λ t. send_each block profiles t) s (to_payload block profile)
        (send s.state (to_payload block profile))

  -- The readers of one scan; a panic of one ends the task.
  unfoldable pub scan_readers : ℕ → List Fetched → Sender → Sender
  unfolding send_each
  scan_readers block [] s = s
  scan_readers block (ok (some profiles) ∷ readers) s =
      scan_readers block readers (send_each block profiles s)
  scan_readers block (ok none ∷ readers) s = scan_readers block readers s
  scan_readers block (err panic ∷ readers) s = s
