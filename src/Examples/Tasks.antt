-- ===== src/Examples/Tasks.antt =====
-- The tasks of the pipeline, a scan that sends to them, and the sandbox.
use liq_ranger.Base.{
  ℕ, ◌+◌, ◌^◌, ◌≡◌, refl, false, true, some, none, List, [], ◌∷◌, All, map, err, if◌then◌else◌,
  Option, arith,
}
use mathlib.Core.List.{Perm, append-nil}
use liq_ranger.Services.Pipeline.{LiqPayload, Event, process_payload}
use liq_ranger.Services.Workers.{
  Workers, initial, sent, received, spawned, ended, Reach, here, next, panicked, shut,
}
use liq_ranger.Services.Workers.Served.{payloads, sent_by, Reach-IsServed, IsGood}
use liq_ranger.Services.Dispatch.{Channel, scan_readers, send_each}
use liq_ranger.Services.Dispatch.Found.{IsOfScan, scan_readers-IsOfScan}
use liq_ranger.Readers.Morpho.Scan.{Distinct}
use liq_ranger.Simulation.Engine.{Abi}
use liq_ranger.Simulation.Sandbox.{Hex, Fork, aborted, simulate_liquidation, is_odd}
use liq_ranger.Simulation.Sandbox.Unparsed.{simulate_liquidation-aborted}
use liq_ranger.Examples.{short_hex}
use liq_ranger.Examples.Readers.{chain, text, other, scan_at, profile}
use liq_ranger.Examples.Services.{ports}
use liq_ranger.Examples.Settlements.{job, encoded}
use liq_ranger.Core.Identity.{Text}
use liq_ranger.Core.Types.{to_params}
use liq_ranger.Services.Watcher.{
  ended as stream_ended, start as watch, Round, block, shutdown, Ending,
}
use liq_ranger.Services.Watcher.Relay.{start-joined}

abbrev payload : ℕ → LiqPayload
payload number = record { profile = profile; block_number = number }

abbrev trace_of : ℕ → List Event
trace_of number =
    (process_payload (ports 51 profile) (payload number) (record { world = 0; trace = [] })).1.trace

-- One permit: the second payload waits until the task of the first has ended, and its own task panics at
-- once; the third is in the channel when the loop ends.
abbrev worked : Workers
worked = record {
  channel = [];
  held = none;
  permits = 1;
  running = [];
  finished =
      record { payload = payload 13; trace = []; has_panicked = true }
      ∷ record { payload = payload 12; trace = trace_of 12; has_panicked = false }
      ∷ [];
  dropped = payload 14 ∷ [];
  stopped = true;
}

filled : Reach (ports 51 profile) 2 (initial 1) (record {
  channel = payload 13 ∷ payload 14 ∷ [];
  held = none;
  permits = 0;
  running = payload 12 ∷ [];
  finished = [];
  dropped = [];
  stopped = false;
})
unfolding initial
filled =
    next
      (next
        (next
          (next (next here (sent _ (payload 12) refl (omega arith)))
            (sent _ (payload 13) refl (omega arith)))
          (received _ (payload 12) (payload 13 ∷ []) refl refl refl))
        (spawned _ (payload 12) 0 refl refl refl))
      (sent _ (payload 14) refl (omega arith))

steps : Reach (ports 51 profile) 2 (initial 1) worked
steps =
    next
      (next
        (next
          (next (next filled (received _ (payload 13) (payload 14 ∷ []) refl refl refl))
            (ended _ [] (payload 12) [] (trace_of 12) refl (0, refl)))
          (spawned _ (payload 13) 0 refl refl refl))
        (panicked _ [] (payload 13) [] (trace_of 13) [] refl (0, append-nil (trace_of 13))))
      (shut _ refl refl)

Reach-IsServed_example :
    Perm (payloads worked) (sent_by (ports 51 profile) 2 steps)
    × IsGood (ports 51 profile) 2 1 worked
Reach-IsServed_example = Reach-IsServed (ports 51 profile) 2 1 worked steps

-- Every payload is taken.
abbrev channel : Channel
channel = record { State = ℕ; send = λ n p. (true, n + 1) }

scan_readers-IsOfScan_example :
    All
      (IsOfScan channel short_hex (chain (10 ^ 36)) (10 ^ 36) (text ∷ other ∷ text ∷ []) 12)
      (payload 12 ∷ [])
    × Distinct (map (λ p. p.profile.identity) (payload 12 ∷ []))
unfolding scan_readers send_each
scan_readers-IsOfScan_example =
    scan_readers-IsOfScan channel short_hex (chain (10 ^ 36)) (10 ^ 36) (text ∷ other ∷ text ∷ [])
      12 (profile ∷ []) 0 scan_at

pub decoded_odd :
    (t : Text)
    → is_odd t ≡ true
    → ◌≡◌ {A = Option (List ℕ)} (if is_odd t then none else some []) none
decoded_odd t h = rw h refl

-- What is decoded is left open, so that each even number of digits gives no bytes.
abbrev pub hex : Hex
hex = record { decode = λ t. if is_odd t then none else some []; decode-odd = decoded_odd }

abbrev abi : Abi
abi = record { decode_string = λ bytes. some []; decode_uint = λ bytes. none }

abbrev fork : Fork
fork = record {
  calldata = encoded;
  call = λ bytes block. err (b'0' ∷ b'x' ∷ b'0' ∷ b'8' ∷ []);
  estimate_gas = λ bytes block. none;
}

simulate_liquidation-aborted_example :
    simulate_liquidation hex abi fork 12 job ≡ err (aborted (b'0' ∷ b'x' ∷ b'0' ∷ b'8' ∷ []))
unfolding to_params
simulate_liquidation-aborted_example =
    simulate_liquidation-aborted hex abi fork 12 job (50 ∷ 7 ∷ 51 ∷ [])
      (b'0' ∷ b'x' ∷ b'0' ∷ b'8' ∷ []) refl refl

-- Two subscriptions, a failed one between them, and the end of the program.
abbrev rounds : List Round
rounds =
    record {
      flag = false;
      stream = some (block (some 7) ∷ block none ∷ block (some 8) ∷ stream_ended ∷ []);
    }
    ∷ record { flag = false; stream = none }
    ∷ record { flag = false; stream = some (block (some 8) ∷ shutdown ∷ block (some 9) ∷ []) }
    ∷ []

start-joined_example : watch rounds ≡ (7 ∷ 8 ∷ 8 ∷ [], Ending.stopped)
start-joined_example = start-joined rounds
