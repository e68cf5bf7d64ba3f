-- ===== src/OclApi/Buffers.antt =====
-- The functions on memory objects, which may wait for their command, and clFinish. While a call
-- waits, the other thread goes on: the list `others` is what it does, step by step, from the
-- submission on. A call that still waits after these steps has the code `none`.
use fpgaml.Common.{
  ℕ, Bool, true, false, ◌&&◌, if◌then◌else◌, Option, none, some, List, [], ◌∷◌, ◌++◌, length, set,
  Outcome, ok, fault, ◌>>=◌,
}
use fpgaml.Objects.{
  ClCode, cl_success, cl_invalid_value, cl_invalid_mem_object, cl_invalid_command_queue, load,
  Command, Body, write_buffer, read_buffer, empty_command, new_command, event_up, event_down,
  mem_down, new_mem,
}
use fpgaml.CmdQueue.{is_complete, on_new_cmd_cb}
use fpgaml.OclApi.{Api, add_mem_obj}
use fpgaml.OclApi.Enqueue.{create_command_queue, release_command_queue, submit}

-- What a call that may wait gives: the code, the event that is stored for the user, and the state.
abbrev pub Waited : Type 0
Waited = Option ClCode × Option ℕ × Api

abbrev pub Steps : Type 0
Steps = List (Api → Outcome Api)

-- _cl_event::wait_until_complete: whether it returns within the steps, with the state then.
unfoldable pub wait_until_complete : ℕ → Steps → Api → Outcome (Bool × Api)
wait_until_complete event [] a =
    load a.objects.events event >>= λ e. ok (is_complete e.event_state, a)
wait_until_complete event (step ∷ others) a = load a.objects.events event >>= λ e.
    elim (is_complete e.event_state) [
      | true ↦ ok (true, a)
      | false ↦ step a >>= λ a'. wait_until_complete event others a'
    ]

abbrev drop_event : ℕ → Api → Outcome Api
drop_event event a = event_down event a.objects >>= λ o. ok (record a { objects = o })

-- handle_blocking_non_blocking, for an event that is there; `user_event` is whether the user wants it.
unfoldable pub handle_blocking_non_blocking : Bool → ℕ → Bool → Steps → Api → Outcome Waited
unfolding wait_until_complete
handle_blocking_non_blocking blocking_cmd cmd_event user_event others a = elim blocking_cmd [
  | true ↦ wait_until_complete cmd_event others a >>= λ (returned, a'). elim returned [
    | false ↦ ok (none, none, a')
    | true ↦ load a'.objects.events cmd_event >>= λ e. elim user_event [
      | true ↦ ok (some e.error_code, some cmd_event, a')
      | false ↦ drop_event cmd_event a' >>= λ a2. ok (some e.error_code, none, a2)
    ]
  ]
  | false ↦ elim user_event [
    | true ↦ ok (some cl_success, some cmd_event, a)
    | false ↦ drop_event cmd_event a >>= λ a'. ok (some cl_success, none, a')
  ]
]

-- What clEnqueueWriteBuffer, clEnqueueReadBuffer and clFinish share: a command is made and
-- submitted, with a reference to its event.
unfoldable pub enqueue : ℕ → Body → Bool → Bool → Steps → Api → Outcome Waited
unfolding handle_blocking_non_blocking submit
enqueue queue b blocking event others a = new_command b a.objects >>= λ (cmd, o).
    event_up cmd.event o >>= λ o'. submit queue cmd (record a { objects = o' }) >>= λ (refused, a1).
    elim refused [
      | true ↦ drop_event cmd.event a1 >>= λ a2. ok (some cl_invalid_command_queue, none, a2)
      | false ↦ handle_blocking_non_blocking blocking cmd.event event others a1
    ]

-- clEnqueueWriteBuffer
unfoldable pub enqueue_write_buffer :
    Option ℕ → Option ℕ → Bool → ℕ → ℕ → Option ℕ → Bool → Steps → Api → Outcome Waited
unfolding enqueue
enqueue_write_buffer none buffer blocking_write offset size ptr event others a =
    ok (some cl_invalid_command_queue, none, a)
enqueue_write_buffer (some queue) none blocking_write offset size ptr event others a =
    ok (some cl_invalid_mem_object, none, a)
enqueue_write_buffer (some queue) (some mem) blocking_write offset size ptr event others a =
    enqueue queue (write_buffer mem offset size ptr) blocking_write event others a

-- clEnqueueReadBuffer
unfoldable pub enqueue_read_buffer :
    Option ℕ → Option ℕ → Bool → ℕ → ℕ → Option ℕ → Bool → Steps → Api → Outcome Waited
unfolding enqueue
enqueue_read_buffer none buffer blocking_read offset size ptr event others a =
    ok (some cl_invalid_command_queue, none, a)
enqueue_read_buffer (some queue) none blocking_read offset size ptr event others a =
    ok (some cl_invalid_mem_object, none, a)
enqueue_read_buffer (some queue) (some mem) blocking_read offset size ptr event others a =
    enqueue queue (read_buffer mem offset size ptr) blocking_read event others a

-- clFinish
unfoldable pub finish : Option ℕ → Steps → Api → Outcome (Option ClCode × Api)
unfolding enqueue
finish none others a = ok (some cl_invalid_command_queue, a)
finish (some queue) others a =
    enqueue queue empty_command true false others a >>= λ (code, _, a'). ok (code, a')

-- The write of clCreateBuffer through a queue of its own, which is then released. With `errcode_ret`
-- the code is stored. A call that still waits has no memory object yet.
unfoldable pub write_through :
    ℕ → ℕ → Option ℕ → Bool → Steps → Api → Outcome (Option ℕ × Option ClCode × Api)
unfolding create_command_queue enqueue_write_buffer release_command_queue
write_through mem size ptr errcode_ret others a =
    let (cmdq, a1) = create_command_queue a in
    enqueue_write_buffer (some cmdq) (some mem) true 0 size ptr false others a1 >>= λ (code, _, a2).
    elim code [
      | none ↦ ok (none, none, a2)
      | some rc ↦ release_command_queue (some cmdq) a2 >>= λ (_, a3).
          ok (some mem, if errcode_ret then some rc else none, a3)
    ]

-- clCreateBuffer, with the flags CL_MEM_USE_HOST_PTR and CL_MEM_ALLOC_HOST_PTR: the memory object,
-- what is stored in `*errcode_ret`, and the state.
unfoldable pub create_buffer :
    Option ℕ
    → Bool
    → Bool
    → ℕ
    → Option ℕ
    → Bool
    → Steps
    → Api
    → Outcome (Option ℕ × Option ClCode × Api)
unfolding write_through add_mem_obj
create_buffer none use_host_ptr alloc_host_ptr size host_ptr errcode_ret others a = fault
create_buffer (some ctx) use_host_ptr alloc_host_ptr size host_ptr errcode_ret others a =
    load a.contexts ctx >>= λ c.
    let mem = length a.objects.mems in
    let a1 : Api = record a {
      objects = record a.objects { mems = a.objects.mems ++ (some new_mem ∷ []) };
      contexts = set a.contexts ctx (some (add_mem_obj c mem).1);
    } in
    if use_host_ptr && alloc_host_ptr
    then ok (none, if errcode_ret then some cl_invalid_value else none, a1)
    else if use_host_ptr
    then (elim host_ptr [
      | none ↦ ok (some mem, none, a1)
      | some host ↦ write_through mem size (some host) errcode_ret others a1
    ])
    else if alloc_host_ptr
    then write_through mem size none errcode_ret others a1
    else ok (some mem, none, a1)

-- clReleaseMemObject, which returns a code only where there is no object
unfoldable pub release_mem_object : Option ℕ → Api → Outcome (Option ClCode × Api)
unfolding mem_down
release_mem_object none a = ok (some cl_invalid_mem_object, a)
release_mem_object (some i) a = mem_down i a.objects >>= λ o. ok (none, record a { objects = o })

-- The event loop's thread at the watcher of a queue, with `handle` for the dispatcher's handler.
unfoldable pub run_watcher : (Command → Api → Outcome Api) → ℕ → Api → Outcome Api
unfolding on_new_cmd_cb
run_watcher handle queue a = load a.queues queue >>= λ q.
    on_new_cmd_cb (λ b. b.objects) (λ b o. record b { objects = o }) handle q a >>= λ (q', a').
    ok (record a' { queues = set a'.queues queue q' })
