-- ===== src/CmdQueue/Order.antt =====
-- Commands are handled one at a time, in the order in which they were submitted.
use fpgaml.Common.{
  Bool, ℕ, ◌+◌, ◌-◌, ◌%◌, ◌<◌, ◌≡◌, true, false, some, List, [], ◌∷◌, ◌++◌, length, Outcome, ok,
  ◌>>=◌, arith, add_u32,
}
use fpgaml.CircArray.{CircArray, empty}
use fpgaml.CircArray.Inv.{Holds}
use fpgaml.CircArray.Pop.{pop_front_step}
use fpgaml.CircArray.Push.{push_back_appends, push_back_refused}
use fpgaml.Objects.{Objects, Event, Command, load, feed, delete_command}
use fpgaml.CmdQueue.{
  CommandQueue, submit_cmd, queue_push_back, on_new_cmd_cb, is_waiting, is_complete, set_last_event,
  after_command, queue_is_empty, queue_pop_front,
}

-- A command that is submitted to a queue which is not released and has room goes to its end, under
-- the next number, and the queue's watcher is pending.
pub submit_cmd_lem :
    (u : Bool) (id : ℕ) (q : CommandQueue) (cmd : Command) (o : Objects) {cmds : List Command}
    → Holds q.ring_buffer cmds
    → 0 < q.ref_counter
    → length cmds < q.ring_buffer.capacity
    → (c : CircArray Command) × (submit_cmd u id q cmd o
        ≡ ok (add_u32 id 1, u, record q { ring_buffer = c }, feed q.number o))
      × Holds c (cmds ++ (record cmd { command_id = add_u32 id 1 } ∷ []))
unfolding submit_cmd queue_push_back
submit_cmd_lem u id q cmd o h alive room =
    let cmd' = record cmd { command_id = add_u32 id 1 } in
    let (c, e, h', _) = push_back_appends cmd' false h room in (c, ground (arith, e, alive), h')

-- A released queue refuses the command.
pub submit_cmd_released :
    (u : Bool) (id : ℕ) (q : CommandQueue) (cmd : Command) (o : Objects)
    → q.ref_counter ≡ 0
    → submit_cmd u id q cmd o ≡ ok (add_u32 id 1, true, q, o)
unfolding submit_cmd queue_push_back
submit_cmd_released u id q cmd o z = ground (arith, z)

-- A command that is submitted to a full queue is lost, and the caller is told what it would be told of one with
-- room.
pub submit_cmd_full :
    (u : Bool) (id : ℕ) (q : CommandQueue) (cmd : Command) (o : Objects) {cmds : List Command}
    → Holds q.ring_buffer cmds
    → 0 < q.ref_counter
    → length cmds ≡ q.ring_buffer.capacity
    → submit_cmd u id q cmd o ≡ ok (add_u32 id 1, u, q, feed q.number o)
unfolding submit_cmd queue_push_back
submit_cmd_full u id q cmd o h alive full =
    let e = push_back_refused (record cmd { command_id = add_u32 id 1 }) h full in
    ground (arith, e, alive)

module _ {S : Type 0} (objects : S → Objects) (with_objects : S → Objects → S) where
  -- While the last command's event is not complete, the callback leaves everything as it is.
  pub on_new_cmd_cb_waits :
      (handle : Command → S → Outcome S) (q : CommandQueue) (s : S) (e : ℕ) (ev : Event)
      {cmd : Command} {cmds : List Command}
      → Holds q.ring_buffer (cmd ∷ cmds)
      → q.last_event ≡ some e
      → load (objects s).events e ≡ ok ev
      → is_complete ev.event_state ≡ false
      → on_new_cmd_cb objects with_objects handle q s ≡ ok (some q, s)
  unfolding on_new_cmd_cb is_waiting queue_is_empty empty
  on_new_cmd_cb_waits handle q s e ev h l at c = ground (arith, h.len, l, at, c)

  -- Otherwise it takes the first command off, makes its event the last one, and hands it over. With
  -- the handler's result `s2`, what is returned is what after_command says of the shorter queue, and
  -- the command is deleted.
  pub on_new_cmd_cb_takes :
      (handle : Command → S → Outcome S) (q : CommandQueue) (s s2 : S) (o1 : Objects)
      {cmd : Command} {cmds : List Command}
      → Holds q.ring_buffer (cmd ∷ cmds)
      → is_waiting q (objects s) ≡ ok false
      → ((c : CircArray Command)
          → set_last_event (record q { ring_buffer = c }) cmd.event (objects s)
            ≡ ok (record q { ring_buffer = c; last_event = some cmd.event }, o1))
      → handle cmd (with_objects s o1) ≡ ok s2
      → (c : CircArray Command) × Holds c cmds
        × (on_new_cmd_cb objects with_objects handle q s ≡ (
            after_command (record q { ring_buffer = c; last_event = some cmd.event }) (objects s2)
            >>= λ t. delete_command cmd t.1 >>= λ o3. ok (t.0, with_objects s2 o3)))
  unfolding on_new_cmd_cb queue_pop_front queue_is_empty empty
  on_new_cmd_cb_takes handle q s s2 o1 {cmd} {cmds} h w last k =
      let (e, h') = pop_front_step h in
      let c = record q.ring_buffer {
        size = q.ring_buffer.size - 1;
        start = (q.ring_buffer.start + 1) % q.ring_buffer.capacity;
      } in
      let l = last c in (c, h', ground (arith, e, h.len, w, l, k))
