-- ===== src/OclApi/Watcher.antt =====
-- The event loop at a queue's watcher, while a call waits for an event.
use fpgaml.Common.{
  ℕ, zero, suc, ◌<◌, ◌≡◌, ◌∙◌, sym, ap, true, false, Option, none, some, List, [], ◌∷◌, get_elem?,
  set, replicate, Outcome, ok, ◌>>=◌, arith,
}
use fpgaml.CircArray.{CircArray, empty}
use fpgaml.CircArray.Inv.{Holds}
use fpgaml.Objects.{
  Objects, Event, Command, empty_command, load, event_up, event_down, ref_cnt_up, ref_cnt_down,
  register_on_complete_cb_func, delete_command,
}
use fpgaml.Objects.Counting.{get_set}
use fpgaml.CmdQueue.{
  CommandQueue, is_complete, is_waiting, set_last_event, after_command, on_new_cmd_cb,
  queue_is_empty, check_self_destroy,
}
use fpgaml.CmdQueue.Order.{on_new_cmd_cb_takes}
use fpgaml.OclApi.{Api}
use fpgaml.OclApi.Buffers.{Steps, wait_until_complete, run_watcher}

pub load-get :
    {A : Type 0} (xs : List (Option A)) (i : ℕ) (x : A)
    → get_elem? xs i ≡ some (some x)
    → load xs i ≡ ok x
load-get xs i x e = ground (arith, e)

-- A queue that is idle with an event that is not complete: the queue is alive and has no command.
abbrev pub Stuck : ℕ → ℕ → Api → Type 0
Stuck queue event a =
    (q : CommandQueue) × (e : Event) × (get_elem? a.queues queue ≡ some (some q))
    × (q.ring_buffer.size ≡ 0)
    × (0 < q.ref_counter)
    × (get_elem? a.objects.events event ≡ some (some e))
    × (is_complete e.event_state ≡ false)

-- The objects after `event` has become the first last event of the queue `number`.
abbrev pub marked : ℕ → ℕ → Event → Objects → Objects
marked event number e o = record o {
  events =
      set (set o.events event (some (record e { counter = ref_cnt_up e.counter }))) event
        (some (record e { counter = ref_cnt_up e.counter; on_complete = some number }));
}

first_event :
    (q : CommandQueue) (event : ℕ) (o : Objects) (e : Event)
    → q.last_event ≡ none
    → get_elem? o.events event ≡ some (some e)
    → set_last_event q event o
      ≡ ok (record q { last_event = some event }, marked event q.number e o)
unfolding set_last_event event_up register_on_complete_cb_func
first_event q event o e fresh at =
    let up =
      get_set o.events event (some e) (some (record e { counter = ref_cnt_up e.counter })) at in
    ground (arith, fresh, at, up)

pub marked-get :
    (event number : ℕ) (e : Event) (o : Objects)
    → get_elem? o.events event ≡ some (some e)
    → get_elem? (marked event number e o).events event
      ≡ some (some (record e { counter = ref_cnt_up e.counter; on_complete = some number }))
marked-get event number e o at =
    let v = some (record e { counter = ref_cnt_up e.counter }) in
    get_set (set o.events event v) event v
      (some (record e { counter = ref_cnt_up e.counter; on_complete = some number }))
      (get_set o.events event (some e) v at)

pub delete_empty :
    (cmd : Command) (o : Objects) (e : Event)
    → cmd.body ≡ empty_command
    → get_elem? o.events cmd.event ≡ some (some e)
    → e.counter ≡ 3
    → delete_command cmd o
      ≡ ok (record o { events = set o.events cmd.event (some (record e { counter = 2 })) })
unfolding delete_command event_down ref_cnt_down
delete_empty cmd o e b at three = ground (arith, b, at, three)

not_waiting : (q : CommandQueue) (o : Objects) → q.last_event ≡ none → is_waiting q o ≡ ok false
unfolding is_waiting
not_waiting q o fresh = ground (arith, fresh)

after_last :
    (q : CommandQueue) (o : Objects)
    → q.ring_buffer.size ≡ 0
    → 0 < q.ref_counter
    → after_command q o ≡ ok (some q, o)
unfolding after_command queue_is_empty empty check_self_destroy
after_last q o z alive = ground (arith, z, alive)

pub wait_ends :
    (event : ℕ) (a : Api) (e : Event)
    → get_elem? a.objects.events event ≡ some (some e)
    → wait_until_complete event [] a ≡ ok (is_complete e.event_state, a)
unfolding wait_until_complete
wait_ends event a e at = ground (arith, at)

pub wait_goes_on :
    (event : ℕ) (a a' : Api) (e : Event) (step : Api → Outcome Api) (others : Steps)
    → get_elem? a.objects.events event ≡ some (some e)
    → is_complete e.event_state ≡ false
    → step a ≡ ok a'
    → wait_until_complete event (step ∷ others) a ≡ wait_until_complete event others a'
unfolding wait_until_complete
wait_goes_on event a a' e step others at inc s = ground (arith, at, inc, s)

pub wait_returns :
    (event : ℕ) (a : Api) (e : Event) (others : Steps)
    → get_elem? a.objects.events event ≡ some (some e)
    → is_complete e.event_state ≡ true
    → wait_until_complete event others a ≡ ok (true, a)
unfolding wait_until_complete
wait_returns event a e [] at c = ground (arith, at, c)
wait_returns event a e (step ∷ others) at c = ground (arith, at, c)

module _ (handle : Command → Api → Outcome Api) where
  idle_callback :
      (q : CommandQueue) (a : Api)
      → q.ring_buffer.size ≡ 0
      → 0 < q.ref_counter
      → on_new_cmd_cb (λ b. b.objects) (λ b o. record b { objects = o }) handle q a ≡ ok (some q, a)
  unfolding on_new_cmd_cb queue_is_empty empty check_self_destroy
  idle_callback q a z alive = ground (arith, z, alive)

  Stuck-run_watcher :
      (queue event : ℕ) (a : Api)
      → Stuck queue event a
      → (a' : Api) × (run_watcher handle queue a ≡ ok a') × Stuck queue event a'
  unfolding run_watcher
  Stuck-run_watcher queue event a (q, e, at, z, alive, at', inc) =
      let cb = idle_callback q a z alive in
      (
        record a { queues = set a.queues queue (some q) },
        ground (arith, at, cb),
        (q, e, get_set a.queues queue (some q) (some q) at, z, alive, at', inc),
      )

  -- However often the watcher runs, the wait goes on.
  pub wait-Stuck :
      (n queue event : ℕ) (a : Api)
      → Stuck queue event a
      → (a' : Api) × (wait_until_complete event (replicate n (run_watcher handle queue)) a
          ≡ ok (false, a'))
  wait-Stuck zero queue event a (q, e, at, z, alive, at', inc) =
      (a, wait_ends event a e at' ∙ ap (λ b. ok (b, a)) inc)
  wait-Stuck (suc n) queue event a (q, e, at, z, alive, at', inc) =
      let (a1, r, s) = Stuck-run_watcher queue event a (q, e, at, z, alive, at', inc) in
      let (a2, w) = wait-Stuck n queue event a1 s in
      (
        a2,
        wait_goes_on event a a1 e (run_watcher handle queue)
              (replicate n (run_watcher handle queue)) at' inc r
            ∙ w,
      )

  run_steps :
      (queue : ℕ) (a s2 : Api) (q q' : CommandQueue) (cmd : Command) (o3 : Objects)
      → get_elem? a.queues queue ≡ some (some q)
      → on_new_cmd_cb (λ b. b.objects) (λ b o. record b { objects = o }) handle q a ≡ (
          after_command q' s2.objects >>= λ t.
          delete_command cmd t.1 >>= λ o. ok (t.0, record s2 { objects = o }))
      → after_command q' s2.objects ≡ ok (some q', s2.objects)
      → delete_command cmd s2.objects ≡ ok o3
      → run_watcher handle queue a
        ≡ ok (record s2 { objects = o3; queues = set s2.queues queue (some q') })
  unfolding run_watcher
  run_steps queue a s2 q q' cmd o3 at cb after d = ground (arith, at, cb, after, d)

  -- What the watcher does with the only command of a queue, which is alive and has had no command
  -- before: the handler works on objects in which the event is the queue's last one, and then the
  -- command is deleted.
  pub run_watcher_only :
      (queue : ℕ) (a s2 : Api) (q : CommandQueue) (cmd : Command) (e : Event) (o3 : Objects)
      → get_elem? a.queues queue ≡ some (some q)
      → Holds q.ring_buffer (cmd ∷ [])
      → 0 < q.ref_counter
      → q.last_event ≡ none
      → get_elem? a.objects.events cmd.event ≡ some (some e)
      → handle cmd (record a { objects = marked cmd.event q.number e a.objects }) ≡ ok s2
      → delete_command cmd s2.objects ≡ ok o3
      → (c : CircArray Command) × Holds c []
        × (run_watcher handle queue a
            ≡ ok (record s2 {
              objects = o3;
              queues =
                  set s2.queues queue
                    (some (record q { ring_buffer = c; last_event = some cmd.event }));
            }))
  run_watcher_only queue a s2 q cmd e o3 at h alive fresh at' k d =
      let (c, h', cb) =
        on_new_cmd_cb_takes (λ b. b.objects) (λ b o. record b { objects = o }) handle q a s2
          (marked cmd.event q.number e a.objects) h (not_waiting q a.objects fresh)
          (λ c. first_event (record q { ring_buffer = c }) cmd.event a.objects e fresh at') k in
      let q' : CommandQueue = record q { ring_buffer = c; last_event = some cmd.event } in
      let after = after_last q' s2.objects (sym h'.len) alive in
      (c, h', run_steps queue a s2 q q' cmd o3 at cb after d)
