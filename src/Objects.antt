-- ===== src/Objects.antt =====
-- The OpenCL objects of il/ocl_ds.h, which count their references and delete themselves. A pointer
-- is the object's number in the list of its kind, where `none` stands for a deleted object: an
-- access to it is undefined behaviour, `fault`.
pub mod Counting
mod Tests
use fpgaml.Common.{
  ℕ, zero, suc, ◌+◌, ◌-◌, ◌*◌, Bool, true, false, not, ◌||◌, if◌then◌else◌, ltb, leb, ◌==◌, Option,
  none, some, List, [], ◌∷◌, ◌++◌, length, take, set, get_elem?, replicate, Outcome, ok, throw,
  fault, Exception, ◌>>=◌, add_u32, ◌%◌, u32_max,
}
use fpgaml.Common.Int.{ℤ, to_int}
use fpgaml.Common.Names.{Name}
use fpgaml.Unimem.{UnimemPtr, empty_ptr}

-- The codes of OpenCL that are used. `cl_one` is the number 1, which is none of them.
pub data ClCode : Type 0 where
  cl_success cl_invalid_value cl_invalid_mem_object cl_mem_object_allocation_failure : ClCode
  cl_one cl_invalid_context cl_invalid_program cl_build_program_failure cl_invalid_kernel : ClCode
  cl_invalid_command_queue cl_invalid_work_dimension cl_invalid_work_group_size : ClCode
  cl_invalid_global_work_size : ClCode

-- CL_QUEUED, CL_RUNNING and CL_COMPLETE
pub data EventState : Type 0 where
  queued running complete : EventState

-- ref_counter: a new object has one reference.
abbrev pub new_counter : ℕ
new_counter = 1

-- ref_cnt_down: the counter after it, or `none` where the object has deleted itself.
unfoldable pub ref_cnt_down : ℕ → Option ℕ
ref_cnt_down counter =
    let left = if ltb 0 counter then counter - 1 else counter in
    if left == 0 then none else some left

unfoldable pub ref_cnt_up : ℕ → ℕ
ref_cnt_up counter = add_u32 counter 1

-- _cl_event. `on_complete` is the command queue whose watcher the callback feeds, `none` before a
-- callback is registered.
pub record Event : Type 0 where
  pub counter : ℕ
  pub event_state : EventState
  pub error_code : ClCode
  pub on_complete : Option ℕ

abbrev pub new_event : Event
new_event = record {
  counter = new_counter;
  event_state = queued;
  error_code = cl_success;
  on_complete = none;
}

-- set_as_complete: the event, and the queue that its callback feeds. Without a callback the call is
-- through an unset pointer.
unfoldable pub set_as_complete : Event → Outcome (Event × ℕ)
set_as_complete e = elim e.on_complete [
  | none ↦ fault
  | some queue ↦ ok (record e { event_state = complete }, queue)
]

unfoldable pub set_error : Event → ClCode → Event
set_error e err_code = record e { error_code = err_code }

unfoldable pub register_on_complete_cb_func : Event → ℕ → Event
register_on_complete_cb_func e queue = record e { on_complete = some queue }

-- _cl_mem
pub record Mem : Type 0 where
  pub counter : ℕ
  pub unimem_ptr : UnimemPtr
  pub size : ℕ

abbrev pub new_mem : Mem
new_mem = record { counter = new_counter; unimem_ptr = empty_ptr; size = 0 }

unfoldable pub set_unimem_ptr : Mem → UnimemPtr → ℕ → Mem
set_unimem_ptr m u_ptr size = record m { unimem_ptr = u_ptr; size = size }

-- KernelArg (arg_size, arg_value): `value` is the copy of the bytes, if one is made.
pub record KernelArg : Type 0 where
  pub value : Option (List ℕ)
  pub value_size : ℤ

-- KernelArg (arg_size, arg_value): the size, a `size_t`, is kept as an `int`. Copying more bytes than
-- there are at the address is undefined.
unfoldable pub new_kernel_arg : ℕ → Option (List ℕ) → Outcome KernelArg
new_kernel_arg arg_size none =
    ok (record { value = none; value_size = to_int (arg_size % u32_max) })
new_kernel_arg arg_size (some bytes) =
    if ltb arg_size 1
    then ok (record { value = none; value_size = to_int (arg_size % u32_max) })
    else if ltb (length bytes) arg_size
    then fault
    else ok
        (record { value = some (take arg_size bytes); value_size = to_int (arg_size % u32_max) })

-- _cl_kernel; `program` is the name of its program's XML file, if it has a program.
pub record Kernel : Type 0 where
  pub counter : ℕ
  pub program : Option Name
  pub args : List (Option KernelArg)

-- `resize`, which fills with NULL
abbrev pub resize : ℕ → List (Option KernelArg) → List (Option KernelArg)
resize n args = args ++ replicate (n - length args) none

-- set_args: the vector grows where it is too short. The index is a `cl_uint`, whose successor
-- wraps; a write past the end is undefined.
unfoldable pub set_args : Kernel → ℕ → ℕ → Option (List ℕ) → Outcome Kernel
unfolding new_kernel_arg
set_args k arg_index arg_size arg_value =
    let needed = add_u32 arg_index 1 in
    let args = if ltb (length k.args) needed then resize needed k.args else k.args in
    new_kernel_arg arg_size arg_value >>= λ arg.
    if ltb arg_index (length args)
    then ok (record k { args = set args arg_index (some arg) })
    else fault

-- What a command carries: MLCLCommandWB, MLCLCommandRB, MLCLCommandNDR, or nothing more. `ptr` is
-- `none` for NULL; of the sizes the first dimension is kept, the others being 0 or 1.
pub data Body : Type 0 where
  write_buffer read_buffer : (mem offset size : ℕ) (ptr : Option ℕ) → Body
  ndrange : (kernel work_dim global_work_offset global_work_size local_work_size : ℕ) → Body
  empty_command : Body

pub record Command : Type 0 where
  pub command_id : ℕ
  pub event : ℕ
  pub body : Body

-- The objects, and the queues whose watchers are pending in the event loop.
pub record Objects : Type 0 where
  pub events : List (Option Event)
  pub mems : List (Option Mem)
  pub kernels : List (Option Kernel)
  pub pending : List ℕ

-- ev_feed_event and ev_async_send: a watcher that is pending stays so, once.
abbrev pub has : ℕ → List ℕ → Bool
has q [] = false
has q (p ∷ ps) = q == p || has q ps

abbrev pub feed : ℕ → Objects → Objects
feed q o = record o { pending = if has q o.pending then o.pending else o.pending ++ (q ∷ []) }

module _ {A : Type 0} where
  abbrev pub load : List (Option A) → ℕ → Outcome A
  load xs i = elim (get_elem? xs i) [ none ↦ fault | some none ↦ fault | some (some a) ↦ ok a ]

-- The reference counters of the objects, by their numbers.
unfoldable pub event_up : ℕ → Objects → Outcome Objects
unfolding ref_cnt_up
event_up i o = load o.events i >>= λ e.
    ok (record o { events = set o.events i (some (record e { counter = ref_cnt_up e.counter })) })

unfoldable pub event_down : ℕ → Objects → Outcome Objects
unfolding ref_cnt_down
event_down i o = load o.events i >>= λ e. ok (record o {
  events =
      set o.events i
        (elim (ref_cnt_down e.counter) [ none ↦ none | some c ↦ some (record e { counter = c }) ]);
})

unfoldable pub mem_up : ℕ → Objects → Outcome Objects
unfolding ref_cnt_up
mem_up i o = load o.mems i >>= λ m.
    ok (record o { mems = set o.mems i (some (record m { counter = ref_cnt_up m.counter })) })

unfoldable pub mem_down : ℕ → Objects → Outcome Objects
unfolding ref_cnt_down
mem_down i o = load o.mems i >>= λ m. ok (record o {
  mems =
      set o.mems i
        (elim (ref_cnt_down m.counter) [ none ↦ none | some c ↦ some (record m { counter = c }) ]);
})

unfoldable pub kernel_up : ℕ → Objects → Outcome Objects
unfolding ref_cnt_up
kernel_up i o = load o.kernels i >>= λ k.
    ok (record o { kernels = set o.kernels i (some (record k { counter = ref_cnt_up k.counter })) })

unfoldable pub kernel_down : ℕ → Objects → Outcome Objects
unfolding ref_cnt_down
kernel_down i o = load o.kernels i >>= λ k. ok (record o {
  kernels =
      set o.kernels i
        (elim (ref_cnt_down k.counter) [ none ↦ none | some c ↦ some (record k { counter = c }) ]);
})

-- An event's completion, by its number: its error code and state are set, and its callback runs.
unfoldable pub complete_event : ℕ → Objects → Outcome Objects
unfolding set_as_complete
complete_event i o = load o.events i >>= λ e.
    set_as_complete e >>= λ r. ok (feed r.1 (record o { events = set o.events i (some r.0) }))

unfoldable pub set_event_error : ℕ → ClCode → Objects → Outcome Objects
unfolding set_error
set_event_error i err_code o =
    load o.events i >>= λ e. ok (record o { events = set o.events i (some (set_error e err_code)) })

-- MLCLCommand (type) and its subclasses: a new event, and a reference to the object that the
-- command is about. A work dimension above 1 throws, after the kernel's counter has gone up.
unfoldable pub new_command : Body → Objects → Outcome (Command × Objects)
unfolding mem_up kernel_up
new_command b o =
    let i = length o.events in
    let o' = record o { events = o.events ++ (some new_event ∷ []) } in
    let cmd : Command = record { command_id = 0; event = i; body = b } in
    elim b [
      | write_buffer mem _ _ _ ↦ mem_up mem o' >>= λ p. ok (cmd, p)
      | read_buffer mem _ _ _ ↦ mem_up mem o' >>= λ p. ok (cmd, p)
      | ndrange kernel work_dim _ _ _ ↦ kernel_up kernel o' >>= λ p.
          if ltb 1 work_dim then throw Exception.runtime_error else ok (cmd, p)
      | empty_command ↦ ok (cmd, o')
    ]

-- ~MLCLCommand and its subclasses' destructors, which run first.
unfoldable pub delete_command : Command → Objects → Outcome Objects
unfolding mem_down kernel_down event_down
delete_command cmd o =
    (elim cmd.body [
      | write_buffer mem _ _ _ ↦ mem_down mem o
      | read_buffer mem _ _ _ ↦ mem_down mem o
      | ndrange kernel _ _ _ _ ↦ kernel_down kernel o
      | empty_command ↦ ok o
    ])
    >>= λ p. event_down cmd.event p
