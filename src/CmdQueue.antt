-- ===== src/CmdQueue.antt =====
-- _cl_command_queue of cpp/cmd_q.h and cpp/cmd_q.cc, and ml_submit_cmd of cpp/fpgaml.cc. The methods
-- hold the queue's lock throughout, so that each is one step. The queue's watcher is the queue's
-- number in the list `pending` of the event loop.
pub mod Order
pub mod Callback
pub mod Fifo
mod Tests
use fpgaml.Common.{
  ℕ, ◌+◌, ◌-◌, ◌%◌, Bool, true, false, not, ◌&&◌, if◌then◌else◌, ltb, ◌==◌, Option, none, some,
  List, set, Outcome, ok, fault, ◌>>=◌, add_u32, assert, ◌>>◌,
}
use fpgaml.CircArray.{CircArray, create, get, pop_front, push_back, is_full, empty, occupancy}
use fpgaml.Objects.{
  Objects, Event, EventState, queued, running, complete, Command, Body, empty_command, load, feed,
  event_up, event_down, register_on_complete_cb_func, delete_command,
}
use fpgaml.Bitstreams.{Rc, ml_error_cmdq_released}

pub record CommandQueue : Type 0 where
  pub number : ℕ
  pub ring_buffer : CircArray Command
  pub ref_counter : ℕ
  pub last_event : Option ℕ

abbrev pub no_command : Command
no_command = record { command_id = 0; event = 0; body = empty_command }

-- _cl_command_queue (), with the number that its watcher goes by
unfoldable pub new_queue : ℕ → CommandQueue
new_queue number = record {
  number = number;
  ring_buffer = create no_command 100;
  ref_counter = 1;
  last_event = none;
}

-- push_back. The code is `none` where the function ends without returning one; the ring buffer's own
-- is dropped.
unfoldable pub queue_push_back :
    CommandQueue → Command → Objects → Outcome (Option Rc × CommandQueue × Objects)
queue_push_back q cmd o =
    if ltb q.ref_counter 1
    then ok (some ml_error_cmdq_released, q, o)
    else (push_back q.ring_buffer cmd false >>= λ r.
        ok (none, record q { ring_buffer = r.1 }, feed q.number o))

unfoldable pub queue_pop_front : CommandQueue → Outcome (Option Command × CommandQueue)
unfolding occupancy
queue_pop_front q =
    if not (occupancy q.ring_buffer == 0)
    then (pop_front q.ring_buffer >>= λ r. ok (some r.0, record q { ring_buffer = r.1 }))
    else ok (none, q)

unfoldable pub queue_peek_front : CommandQueue → Outcome (Option Command)
unfolding occupancy
queue_peek_front q =
    if not (occupancy q.ring_buffer == 0)
    then (get q.ring_buffer 0 >>= λ x. ok (some x))
    else ok none

unfoldable pub queue_is_full : CommandQueue → Bool
unfolding is_full
queue_is_full q = is_full q.ring_buffer

unfoldable pub queue_is_empty : CommandQueue → Bool
unfolding empty
queue_is_empty q = empty q.ring_buffer

unfoldable pub queue_ref_cnt_down : CommandQueue → CommandQueue
queue_ref_cnt_down q =
    if ltb 0 q.ref_counter then record q { ref_counter = q.ref_counter - 1 } else q

-- check_self_destroy: the queue, or `none` where it has deleted itself.
unfoldable pub check_self_destroy : CommandQueue → Option CommandQueue
check_self_destroy q = if ltb q.ref_counter 1 then none else some q

-- set_last_event: the reference of the event before is given up, and the new one's callback is to
-- feed this queue's watcher.
unfoldable pub set_last_event : CommandQueue → ℕ → Objects → Outcome (CommandQueue × Objects)
unfolding event_up event_down register_on_complete_cb_func
set_last_event q event o = (elim q.last_event [ none ↦ ok o | some e ↦ event_down e o ]) >>= λ o1.
    event_up event o1 >>= λ o2. load o2.events event >>= λ e. ok (
      record q { last_event = some event },
      record o2 { events = set o2.events event (some (register_on_complete_cb_func e q.number)) },
    )

abbrev pub is_complete : EventState → Bool
is_complete complete = true
is_complete _ = false

-- Whether the last event is set and not complete.
unfoldable pub is_waiting : CommandQueue → Objects → Outcome Bool
is_waiting q o = elim q.last_event [
  | none ↦ ok false
  | some e ↦ load o.events e >>= λ ev. ok (not (is_complete ev.event_state))
]

-- ml_submit_cmd for a queue and a command, with s_unique_command_id; whether it takes the queue for a
-- released one. Where push_back ends without a return statement, which is undefined, its value is
-- whatever the caller reads, and whether that is the code of a released queue is `unreturned`.
unfoldable pub submit_cmd :
    Bool → ℕ → CommandQueue → Command → Objects → Outcome (ℕ × Bool × CommandQueue × Objects)
unfolding queue_push_back
submit_cmd unreturned unique_command_id q cmd o =
    let id = add_u32 unique_command_id 1 in
    queue_push_back q (record cmd { command_id = id }) o >>= λ r. ok (
      id,
      elim r.0 [ none ↦ unreturned | some ml_error_cmdq_released ↦ true | some _ ↦ false ],
      r.1,
      r.2,
    )

-- The end of on_new_cmd_cb, after the command has been handled.
unfoldable pub after_command : CommandQueue → Objects → Outcome (Option CommandQueue × Objects)
unfolding queue_is_empty check_self_destroy is_waiting
after_command q o =
    if queue_is_empty q
    then ok (check_self_destroy q, o)
    else (is_waiting q o >>= λ waiting.
        if waiting then ok (check_self_destroy q, o) else ok (some q, feed q.number o))

module _ {S : Type 0} (objects : S → Objects) (with_objects : S → Objects → S) where
  -- on_new_cmd_cb, the watcher's callback, where `handle` is the dispatcher's handle_a_cmd and `S`
  -- is the state that it works on, with the objects in it.
  unfoldable pub on_new_cmd_cb :
      (Command → S → Outcome S) → CommandQueue → S → Outcome (Option CommandQueue × S)
  unfolding queue_is_empty check_self_destroy queue_pop_front set_last_event after_command
  on_new_cmd_cb handle q s =
      if queue_is_empty q
      then ok (check_self_destroy q, s)
      else (is_waiting q (objects s) >>= λ waiting.
          if waiting
          then ok (some q, s)
          else (queue_pop_front q >>= λ popped. elim popped.0 [
            | none ↦ fault
            | some cmd ↦ set_last_event popped.1 cmd.event (objects s) >>= λ r.
                handle cmd (with_objects s r.1) >>= λ s2. after_command r.0 (objects s2) >>= λ t.
                delete_command cmd t.1 >>= λ o3. ok (t.0, with_objects s2 o3)
          ]))
