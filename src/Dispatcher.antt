-- ===== src/Dispatcher.antt =====
-- Dispatcher of cpp/dispatcher.h and cpp/dispatcher.cc: what a command of a queue does.
pub mod Handling
pub mod Reading
mod Tests
use fpgaml.Common.{
  ℕ, ◌+◌, ◌/◌, ◌%◌, Bool, true, false, not, if◌then◌else◌, ltb, ◌==◌, Option, none, some, List, [],
  ◌∷◌, ◌++◌, length, set, Outcome, ok, fault, ◌>>=◌, u32_max, get_elem?,
}
use fpgaml.Common.Int.{ℤ}
use fpgaml.Common.Names.{Name}
use fpgaml.NdRange.{NdRange, new_ndrange}
use fpgaml.AlgoSimple.{AlgoSimple}
use fpgaml.EvTimer.{LibEv}
use fpgaml.World.{World}
use fpgaml.Route.{route_ndrange}
use fpgaml.Unimem.{
  System, UnimemPtr, allocate_unimem, copy_to_unimem, copy_from_unimem, release_unimem,
}
use fpgaml.Bitstreams.{Documents, BitstreamManager, get_resource_string}
use fpgaml.Objects.{
  Objects, Mem, Event, Kernel, Command, Body, write_buffer, read_buffer, ndrange, empty_command,
  ClCode, cl_success, cl_one, cl_invalid_value, cl_invalid_mem_object,
  cl_mem_object_allocation_failure, load, set_unimem_ptr, set_event_error, complete_event, event_up,
  kernel_up,
}

-- check_read_write_params, for a buffer that is there or not
unfoldable pub check_read_write_params : Bool → ℕ → ClCode
check_read_write_params has_mem size =
    if not has_mem
    then cl_invalid_mem_object
    else if ltb size 1
    then cl_invalid_value
    else cl_success

-- `cl_int rc = check_read_write_params (...) != CL_SUCCESS`: the comparison's value is what `rc`
-- holds, and `none` is 0.
unfoldable pub params_error : Bool → ℕ → Option ClCode
unfolding check_read_write_params
params_error has_mem size = elim (check_read_write_params has_mem size) [
  | cl_success ↦ none
  | _ ↦ some cl_one
]

module _ (ev : LibEv) (sys : System) (docs : Documents) where
  -- What the dispatcher works on: the objects, the driver with the manager's file, the bitstreams,
  -- the algorithm, and what it schedules.
  pub record Engine : Type 0 where
    pub objects : Objects
    pub unimem : sys.State
    pub fd : ℤ
    pub bits : BitstreamManager docs
    pub algo_simple : AlgoSimple
    pub world : World ev

  -- handle_read_command: the error code.
  unfoldable pub handle_read_command : ℕ → ℕ → Option ℕ → Engine → Outcome (ClCode × Engine)
  unfolding params_error
  handle_read_command mem size ptr s = elim (params_error true size) [
    | some code ↦ ok (code, s)
    | none ↦ load s.objects.mems mem >>= λ m. elim m.unimem_ptr.ptr [
      | none ↦ ok (cl_invalid_mem_object, s)
      | some addr ↦ elim ptr [
        | none ↦ ok (cl_invalid_value, s)
        | some host ↦
            if not (size == m.size)
            then ok (cl_invalid_value, s)
            else (copy_from_unimem sys s.unimem host m.unimem_ptr m.size >>= λ r. ok (
              if r.0 then cl_success else cl_mem_object_allocation_failure,
              record s { unimem = r.1 },
            ))
      ]
    ]
  ]

  -- mem->set_unimem_ptr (u_ptr, size), and success
  unfoldable pub attach : ℕ → UnimemPtr → ℕ → Engine → Outcome (ClCode × Engine)
  unfolding set_unimem_ptr
  attach mem u_ptr size s = load s.objects.mems mem >>= λ m.
      let mems' = set s.objects.mems mem (some (set_unimem_ptr m u_ptr size)) in
      ok (cl_success, record s { objects = record s.objects { mems = mems' } })

  -- handle_write_command: the error code.
  unfoldable pub handle_write_command : ℕ → ℕ → Option ℕ → Engine → Outcome (ClCode × Engine)
  unfolding params_error attach
  handle_write_command mem size ptr s = elim (params_error true size) [
    | some code ↦ ok (code, s)
    | none ↦
        let (u_ptr, d) = allocate_unimem sys s.fd s.unimem size in
        elim u_ptr.ptr [
          | none ↦ ok (cl_mem_object_allocation_failure, record s { unimem = d })
          | some addr ↦ elim ptr [
            | none ↦ attach mem u_ptr size (record s { unimem = d })
            | some host ↦ copy_to_unimem sys d u_ptr host size >>= λ r.
                if not r.0
                then (release_unimem sys r.1 u_ptr >>= λ d'.
                    ok (cl_mem_object_allocation_failure, record s { unimem = d' }))
                else attach mem u_ptr size (record s { unimem = r.1 })
          ]
        ]
  ]

  -- The strings of an ndrange's kernel and resource, which `get_kernel_name` and
  -- `get_resource_string` return.
  unfoldable pub names_of : Objects → NdRange → Name × Name
  names_of o r = (
    elim (load o.kernels r.kernel) [
      | ok k ↦ elim k.program [ none ↦ [] | some name ↦ name ]
      | _ ↦ []
    ],
    r.resource_string,
  )

  -- handle_ndrange_command at the time `now`. What route_ndrange returns is dropped.
  unfoldable pub handle_ndrange_command : ℕ → ℕ → ℕ → ℕ → ℕ → Engine → Outcome Engine
  unfolding names_of
  handle_ndrange_command now kernel event global_work_size local_work_size s =
      load s.objects.kernels kernel >>= λ k. elim k.program [
        | none ↦ ok s
        | some xml_name ↦
            let (_, resource_string) = get_resource_string docs s.bits xml_name [] in
            if local_work_size == 0
            then fault
            else (kernel_up kernel s.objects >>= λ o1. event_up event o1 >>= λ o2.
                new_ndrange kernel event resource_string
                  (global_work_size / local_work_size % u32_max) 1 1
                >>= λ r.
                    route_ndrange ev (names_of o2) now (some (length s.world.store)) s.algo_simple
                      (record s.world { store = s.world.store ++ (r ∷ []) })
                    >>= λ (_, algo, w).
                        ok (record s { objects = o2; algo_simple = algo; world = w }))
      ]

  -- handle_a_cmd
  unfoldable pub handle_a_cmd : ℕ → Command → Engine → Outcome Engine
  unfolding set_event_error complete_event
  handle_a_cmd now cmd s = elim cmd.body [
    | write_buffer mem offset size ptr ↦ handle_write_command mem size ptr s >>= λ r.
        set_event_error cmd.event r.0 r.1.objects >>= λ o.
        complete_event cmd.event o >>= λ o'. ok (record r.1 { objects = o' })
    | read_buffer mem offset size ptr ↦ handle_read_command mem size ptr s >>= λ r.
        set_event_error cmd.event r.0 r.1.objects >>= λ o.
        complete_event cmd.event o >>= λ o'. ok (record r.1 { objects = o' })
    | ndrange kernel work_dim offset global_work_size local_work_size ↦
        handle_ndrange_command now kernel cmd.event global_work_size local_work_size s
    | empty_command ↦ ok s
  ]
