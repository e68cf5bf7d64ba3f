-- ===== src/CmdQueue/Tests.antt =====
-- The theorems on the command queue at inputs.
use fpgaml.Common.{ℕ, ◌<◌, ◌≡◌, false, [], ◌∷◌, ok, some, none, Option, Outcome, arith}
use fpgaml.CircArray.{CircArray, create}
use fpgaml.CircArray.Inv.{Holds, create-Holds}
use fpgaml.Objects.{Objects, Command, empty_command, new_event, feed}
use fpgaml.CmdQueue.{CommandQueue, submit_cmd}
use fpgaml.CmdQueue.Order.{submit_cmd_lem}
use fpgaml.CmdQueue.Fifo.{submits, Reach, here, next, IsFifo, Reach-IsFifo}
use fpgaml.Samples.{ring, ring-Holds_two}

-- The empty command with the event `e`.
abbrev cmd_of : ℕ → Command
cmd_of e = record { command_id = e; event = e; body = empty_command }

abbrev queue_of : ℕ → Option ℕ → CommandQueue
queue_of n last = record {
  number = 7;
  ring_buffer = ring (cmd_of 0) (cmd_of 1) (cmd_of 2) (cmd_of 3) n;
  ref_counter = 1;
  last_event = last;
}

two-Holds : Holds (ring (cmd_of 0) (cmd_of 1) (cmd_of 2) (cmd_of 3) 2) (cmd_of 0 ∷ cmd_of 1 ∷ [])
two-Holds = ring-Holds_two (cmd_of 0) (cmd_of 1) (cmd_of 2) (cmd_of 3)

abbrev four_events : Objects
four_events = record {
  events = some new_event ∷ some new_event ∷ some new_event ∷ some new_event ∷ [];
  mems = [];
  kernels = [];
  pending = [];
}

-- A dispatcher that does nothing, as for an empty command.
abbrev idle : Command → Objects → Outcome Objects
idle cmd o = ok o

-- A queue as it is created.
abbrev new : CommandQueue
new = record { number = 7; ring_buffer = create (cmd_of 0) 100; ref_counter = 1; last_event = none }

new-Holds : Holds new.ring_buffer []
new-Holds = create-Holds (cmd_of 0) 100 (omega arith) (omega arith)

new_room : (0 < new.ring_buffer.capacity) × (new.ring_buffer.size < new.ring_buffer.capacity)
unfolding create
new_room = (omega arith, omega arith)

first :
    (c : CircArray Command) × (submit_cmd false 4 new (cmd_of 2) four_events
      ≡ ok (5, false, record new { ring_buffer = c }, feed 7 four_events))
    × Holds c (record (cmd_of 2) { command_id = 5 } ∷ [])
first = submit_cmd_lem false 4 new (cmd_of 2) four_events new-Holds (omega arith) new_room.0

one_submitted :
    Reach
      (λ o. o)
      (λ s o. o)
      idle
      ((new, ([], four_events), 4), [])
      (
        (record new { ring_buffer = first.0 }, ([], feed 7 four_events), 5),
        record (cmd_of 2) { command_id = 5 } ∷ [],
      )
one_submitted = next here (
    submits new (record new { ring_buffer = first.0 }) [] four_events (feed 7 four_events) 4 5
      (cmd_of 2) [] false false (omega arith) new_room.1 first.1)

Reach-IsFifo_example :
    IsFifo
      (λ o. o)
      (λ s o. o)
      idle
      (
        (record new { ring_buffer = first.0 }, ([], feed 7 four_events), 5),
        record (cmd_of 2) { command_id = 5 } ∷ [],
      )
Reach-IsFifo_example =
    Reach-IsFifo (λ o. o) (λ s o. o) idle new four_events 4 new-Holds one_submitted
