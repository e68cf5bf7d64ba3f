-- ===== src/OclApi/Tests.antt =====
-- The theorems on the OpenCL functions at inputs.
use fpgaml.Common.{
  false, ℕ, ◌*◌, ◌/◌, ◌<◌, ◌≡◌, refl, true, List, [], ◌∷◌, ◌++◌, length, replicate, All, ok, fault,
  some, none, arith,
}
use fpgaml.Common.Names.{Name}
use fpgaml.CircArray.{CircArray, create}
use fpgaml.CircArray.Inv.{Holds, create-Holds}
use fpgaml.Objects.{Kernel, Command, ndrange, new_counter, cl_success, load}
use fpgaml.Bitstreams.{check_wg_size}
use fpgaml.CmdQueue.{CommandQueue, no_command}
use fpgaml.OclApi.{Api}
use fpgaml.OclApi.Programs.{create_program_with_source, get_program_build_info, program_build_log}
use fpgaml.OclApi.Enqueue.{enqueue_ndrange_kernel}
use fpgaml.OclApi.Buffers.{finish, run_watcher}
use fpgaml.OclApi.Names.{
  IsPlain, program_of, create_program_with_source_lem, create_program_with_source_overruns,
}
use fpgaml.OclApi.BuildLog.{get_program_build_info_truncates}
use fpgaml.OclApi.Checked.{enqueue_ndrange_kernel_accepts, enqueue_ndrange_kernel_sound}
use fpgaml.OclApi.Waiting.{finish_blocks}
use fpgaml.Dispatcher.{Engine}
use fpgaml.Samples.{willing, two_files, no_bitstreams, flags}
use fpgaml.Route.Samples.{two_islands, two_busy}
use mathlib.Core.Path.{subst}
use fpgaml.Common.{some-injective, ◌≤◌}
use fpgaml.Unimem.{allocate_unimem, write_alloc_request, read_alloc_response, check_response}
use fpgaml.Common.Int.{pos}
use fpgaml.OclApi.Dispatching.{dispatch, HasShortAddress}
use fpgaml.OclApi.Serving.{Returned}
use fpgaml.OclApi.Returning.{enqueue_write_buffer_returns}
use fpgaml.Objects.{write_buffer, new_mem}
use fpgaml.OclApi.Buffers.{enqueue_write_buffer}

abbrev idle_queue : CommandQueue
idle_queue = record {
  number = 0;
  ring_buffer = create no_command 100;
  ref_counter = 1;
  last_event = none;
}

-- "a.xml"
abbrev xml : Name
xml = b'a' ∷ b'.' ∷ b'x' ∷ b'm' ∷ b'l' ∷ []

abbrev a_kernel : Kernel
a_kernel = record { counter = new_counter; program = some xml; args = [] }

-- One context, one program with the log "ok", one kernel and one queue.
abbrev api : Api
api = record {
  objects = record { events = []; mems = []; kernels = some a_kernel ∷ []; pending = [] };
  contexts = some (record { counter = 1; allocated_mems = [] }) ∷ [];
  programs = some (record (program_of xml 0) { build_log = b'o' ∷ b'k' ∷ [] }) ∷ [];
  queues = some idle_queue ∷ [];
  unique_command_id = 13;
  bits_check = xml ∷ [];
  wg_size_check = (xml, 4) ∷ [];
  unreturned = false;
}

-- "//a.xml" and the start of the next line
abbrev source : List ℕ
source = b'/' ∷ b'/' ∷ b'a' ∷ b'.' ∷ b'x' ∷ b'm' ∷ b'l' ∷ b'\n' ∷ b'k' ∷ []

create_program_with_source_lem_example :
    (create_program_with_source (some 0) 1 (some (some (source ++ (0 ∷ [])))) none true api
      ≡ ok (some 1, none, record api { programs = api.programs ++ (some (program_of xml 0) ∷ []) }))
    × All IsPlain xml
    × (length xml < 64)
create_program_with_source_lem_example =
    create_program_with_source_lem 0 1 source [] true api (omega arith) (
      omega arith,
      (
        omega arith,
        (
          omega arith,
          (
            omega arith,
            (omega arith, (omega arith, (omega arith, (omega arith, (omega arith, tt))))),
          ),
        ),
      ),
    )

create_program_with_source_overruns_example :
    create_program_with_source (some 0) 1 (some (some xml)) (some 5) true api ≡ fault
create_program_with_source_overruns_example =
    create_program_with_source_overruns 0 1 xml true api (omega arith)
      (
        λ e. omega arith,
        (λ e. omega arith, (λ e. omega arith, (λ e. omega arith, (λ e. omega arith, tt)))),
      )
      (omega arith) (omega arith)

get_program_build_info_truncates_example :
    (get_program_build_info (some 0) program_build_log 0 none true api
      ≡ ok (some cl_success, none, some 2))
    × (get_program_build_info (some 0) program_build_log 2 (some (1 ∷ 1 ∷ [])) true api
        ≡ ok (none, some (b'o' ∷ 0 ∷ []), none))
get_program_build_info_truncates_example =
    get_program_build_info_truncates 0 b'k' (b'o' ∷ []) (1 ∷ 1 ∷ []) api
      (record (program_of xml 0) { build_log = b'o' ∷ b'k' ∷ [] }) refl refl (omega arith) refl

abbrev the_command : Command
the_command = record { command_id = 14; event = 0; body = ndrange 0 1 0 8 4 }

known_size : check_wg_size api.wg_size_check xml 4 ≡ true
unfolding check_wg_size
known_size = refl

idle-Holds : Holds idle_queue.ring_buffer []
idle-Holds = create-Holds no_command 100 (omega arith) (omega arith)

has_room : 0 < idle_queue.ring_buffer.capacity
unfolding create
has_room = omega arith

accepted :
    (a' : Api) × (c : CircArray Command) × (enqueue_ndrange_kernel
        (some 0)
        (some 0)
        1
        (some 0)
        (some 8)
        (some 4)
        api
      ≡ ok (cl_success, a'))
    × (a'.queues ≡ some (record idle_queue { ring_buffer = c }) ∷ [])
    × Holds c (the_command ∷ [])
accepted =
    enqueue_ndrange_kernel_accepts 0 0 1 0 8 4 xml a_kernel idle_queue api refl idle-Holds
      (omega arith) has_room refl refl refl known_size (omega arith) refl (omega arith)

enqueue_ndrange_kernel_accepts_example :
    (a' : Api) × (c : CircArray Command) × (enqueue_ndrange_kernel
        (some 0)
        (some 0)
        1
        (some 0)
        (some 8)
        (some 4)
        api
      ≡ ok (cl_success, a'))
    × (a'.queues ≡ some (record idle_queue { ring_buffer = c }) ∷ [])
    × Holds c (the_command ∷ [])
enqueue_ndrange_kernel_accepts_example =
    enqueue_ndrange_kernel_accepts 0 0 1 0 8 4 xml a_kernel idle_queue api refl idle-Holds
      (omega arith) has_room refl refl refl known_size (omega arith) refl (omega arith)

enqueue_ndrange_kernel_sound_example :
    (g : ℕ) × (l : ℕ) × (k : Kernel) × (name : Name) × (some 8 ≡ some g)
    × (some 4 ≡ some l)
    × (load api.objects.kernels 0 ≡ ok k)
    × (k.program ≡ some name)
    × (check_wg_size api.wg_size_check name l ≡ true)
    × (0 < l)
    × (l * (g / l) ≡ g)
    × (1 < 2)
enqueue_ndrange_kernel_sound_example =
    enqueue_ndrange_kernel_sound 0 0 1 (some 0) (some 8) (some 4) api accepted.0 accepted.2

-- The dispatcher, over a driver that answers with the address 1, 2, 3.
abbrev engine : Engine flags willing two_files
engine = record {
  objects = api.objects;
  unimem = tt;
  fd = pos 3;
  bits = no_bitstreams;
  algo_simple = two_islands;
  world = two_busy;
}

finish_blocks_example :
    (a' : Api) × (finish
        (some 0)
        (replicate 3 (run_watcher (dispatch flags willing two_files 0 engine) 0))
        api
      ≡ ok (none, a'))
finish_blocks_example =
    finish_blocks flags willing two_files 3 0 0 engine api idle_queue refl idle-Holds (omega arith)
      has_room refl refl

-- With a memory object.
abbrev api_mem : Api
api_mem = record api { objects = record api.objects { mems = some new_mem ∷ [] } }

short_address : HasShortAddress flags willing two_files engine 16
unfolding allocate_unimem write_alloc_request read_alloc_response check_response
short_address addr e =
    let three : 1 ∷ 2 ∷ 3 ∷ [] ≡ addr = some-injective e in
    subst (λ l. length l ≤ 83) three (omega arith)

enqueue_write_buffer_returns_example :
    Returned (dispatch flags willing two_files 0 engine) (write_buffer 0 0 16 (some 4096)) 0 (
      enqueue_write_buffer
        (some 0)
        (some 0)
        true
        0
        16
        (some 4096)
        false
        (run_watcher (dispatch flags willing two_files 0 engine) 0 ∷ [])
        api_mem)
enqueue_write_buffer_returns_example =
    enqueue_write_buffer_returns flags willing two_files 0 0 0 0 16 (some 4096) engine [] api_mem
      idle_queue new_mem short_address refl idle-Holds (omega arith) has_room refl refl refl
