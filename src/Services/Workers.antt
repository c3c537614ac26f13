-- ===== src/Services/Workers.antt =====
-- src/core/services/liquidation_engine.rs: start_pipeline, whose tasks run at the same time. The loop, the
-- senders and the tasks take their steps in any order.
pub mod Served
use liq_ranger.Base.{
  ℕ, suc, ◌≡◌, Bool, true, false, Option, none, some, List, [], ◌∷◌, ◌++◌, ◌<◌, length,
}
use liq_ranger.Services.Pipeline.{Ports, Event, LiqPayload, process_payload}

-- A payload with the calls of the ports that its task made, newest first, and whether the task ended
-- with a panic.
pub record Finished : Type 0 where
  pub payload : LiqPayload
  pub trace : List Event
  pub has_panicked : Bool

-- The channel, the oldest payload first; the payload that the loop has received and for which it waits
-- for a permit; the free permits of the semaphore; the payloads of the tasks that run; those of the tasks
-- that have ended; those that were in the channel when the loop ended; and whether it has ended.
pub record Workers : Type 0 where
  pub channel : List LiqPayload
  pub held : Option LiqPayload
  pub permits : ℕ
  pub running : List LiqPayload
  pub finished : List Finished
  pub dropped : List LiqPayload
  pub stopped : Bool

unfoldable pub initial : (concurrency_limit : ℕ) → Workers
initial limit = record {
  channel = [];
  held = none;
  permits = limit;
  running = [];
  finished = [];
  dropped = [];
  stopped = false;
}

-- `capacity` is that of the channel, 200 at the start of the program.
module _ {W : Type 0} (ports : Ports W) (capacity : ℕ) where
  -- A trace of `process_payload`. The answers to a task come from a state of its own: they stand for
  -- whatever the ports answer while other tasks run.
  abbrev pub IsTraceOf : LiqPayload → List Event → Type 0
  IsTraceOf payload trace =
      (world : W) × (trace
        ≡ (process_payload ports payload (record { world = world; trace = [] })).1.trace)

  pub data Step : Workers → Workers → Type 0 where
    -- A sender puts a payload into the channel, if it has room. It is open while the loop runs.
    sent :
        (w : Workers) (payload : LiqPayload)
        → w.stopped ≡ false
        → length w.channel < capacity
        → Step w (record w { channel = w.channel ++ payload ∷ [] })
    -- The loop receives the next payload, unless it waits for a permit.
    received :
        (w : Workers) (payload : LiqPayload) (channel : List LiqPayload)
        → w.stopped ≡ false
        → w.held ≡ none
        → w.channel ≡ payload ∷ channel
        → Step w (record w { channel = channel; held = some payload })
    -- The loop gets a permit and spawns the task.
    spawned :
        (w : Workers) (payload : LiqPayload) (permits : ℕ)
        → w.stopped ≡ false
        → w.held ≡ some payload
        → w.permits ≡ suc permits
        → Step w (record w { held = none; permits = permits; running = payload ∷ w.running })
    -- A task ends and gives its permit back.
    ended :
        (w : Workers) (before : List LiqPayload) (payload : LiqPayload) (after : List LiqPayload)
        (trace : List Event)
        → w.running ≡ before ++ payload ∷ after
        → IsTraceOf payload trace
        → Step w (record w {
          permits = suc w.permits;
          running = before ++ after;
          finished = record { payload = payload; trace = trace; has_panicked = false } ∷ w.finished;
        })
    -- A task panics after some of its calls; its permit is dropped with it, and so given back.
    panicked :
        (w : Workers) (before : List LiqPayload) (payload : LiqPayload) (after : List LiqPayload)
        (left trace : List Event)
        → w.running ≡ before ++ payload ∷ after
        → IsTraceOf payload (left ++ trace)
        → Step w (record w {
          permits = suc w.permits;
          running = before ++ after;
          finished = record { payload = payload; trace = trace; has_panicked = true } ∷ w.finished;
        })
    -- The loop sees the shutdown and ends, and its receiver is dropped with what the channel holds; a
    -- task that runs goes on.
    shut :
        (w : Workers)
        → w.stopped ≡ false
        → w.held ≡ none
        → Step w (record w { channel = []; dropped = w.channel; stopped = true })

  pub data Reach (w : Workers) : Workers → Type 0 where
    here : Reach w w
    next : {u v : Workers} → Reach w u → Step u v → Reach w v
