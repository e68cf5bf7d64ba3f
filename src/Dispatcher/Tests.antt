-- ===== src/Dispatcher/Tests.antt =====
-- The theorems on the dispatcher at inputs.
use fpgaml.Common.{ℕ, ◌≡◌, refl, true, false, [], ◌∷◌, ok, some, arith}
use fpgaml.Common.Int.{pos}
use fpgaml.AlgoSimple.{create}
use fpgaml.Unimem.{System, allocate_unimem, copy_to_unimem, copy_from_unimem, UnimemPtr}
use fpgaml.Objects.{
  Objects, Event, Command, write_buffer, new_event, new_mem, complete, cl_success, load, has,
}
use fpgaml.Dispatcher.{Engine, handle_a_cmd, handle_write_command, handle_read_command}
use fpgaml.Dispatcher.Handling.{handle_a_cmd_write, handle_read_command-handle_write_command}
use fpgaml.CircArray.{CircArray}
use fpgaml.CircArray.Inv.{Holds}
use fpgaml.World.{World}
use fpgaml.Bitstreams.{ml_success}
use fpgaml.Slicing.{new_slicing}
use fpgaml.Route
use fpgaml.Route.Whole.{route_ndrange_lem}
use fpgaml.Route.Samples.{two_islands, fresh, busy-HasRoom, two_busy, unnamed, default_costs}
use fpgaml.Dispatcher.Reading.{
  Dispatcher, algo_simple, read_from_the_buffer, read_from_the_buffer_lem,
}
use fpgaml.AlgoSimple.{AlgoSimple}
use fpgaml.Samples.{
  flags, willing, two_files, no_bitstreams, free_two, ring, ring-Holds_one, ring-Holds_two,
}

-- An event whose callback feeds the queue 7.
abbrev fed_event : Event
fed_event = record new_event { on_complete = some 7 }

abbrev one_buffer : Objects
one_buffer = record {
  events = some fed_event ∷ [];
  mems = some new_mem ∷ [];
  kernels = [];
  pending = [];
}

abbrev idle : (sys : System) → sys.State → Engine flags sys two_files
idle sys d = record {
  objects = one_buffer;
  unimem = d;
  fd = pos 3;
  bits = no_bitstreams;
  algo_simple = create 0;
  world = record {
    store = [];
    schedulers = [];
    free = free_two;
    tracker = record { wg_cost_mapping = []; reconf_cost_mapping = [] };
  };
}

abbrev address : UnimemPtr
address = record { ptr = some (1 ∷ 2 ∷ 3 ∷ []); ptr_size = 3 }

abbrev written : Engine flags willing two_files
written = record (idle willing tt) {
  objects = record one_buffer {
    mems = some (record new_mem { unimem_ptr = address; size = 16 }) ∷ [];
  };
}

allocates : allocate_unimem willing (pos 3) tt 16 ≡ (address, tt)
unfolding allocate_unimem
allocates = refl

copies_to : copy_to_unimem willing tt address 4096 16 ≡ ok (true, tt)
unfolding copy_to_unimem
copies_to = refl

copies_from : copy_from_unimem willing tt 8192 address 16 ≡ ok (true, tt)
unfolding copy_from_unimem
copies_from = refl

writes :
    handle_write_command flags willing two_files 0 16 (some 4096) (idle willing tt)
    ≡ ok (cl_success, written)
unfolding handle_write_command allocate_unimem copy_to_unimem
writes = refl

abbrev write_cmd : Command
write_cmd = record { command_id = 1; event = 0; body = write_buffer 0 0 16 (some 4096) }

handle_a_cmd_write_example :
    (s'' : Engine flags willing two_files) × (handle_a_cmd flags willing two_files 0 write_cmd
        (idle willing tt)
      ≡ ok s'')
    × (load s''.objects.events 0
        ≡ ok (record fed_event { error_code = cl_success; event_state = complete }))
    × (has 7 s''.objects.pending ≡ true)
    × (s''.objects.mems ≡ written.objects.mems)
handle_a_cmd_write_example =
    handle_a_cmd_write flags willing two_files 0 write_cmd 0 0 16 (some 4096) (idle willing tt)
      written cl_success fed_event 7 refl writes refl refl

handle_read_command-handle_write_command_example :
    (s1 : Engine flags willing two_files) × (handle_write_command flags willing two_files 0 16
        (some 4096)
        (idle willing tt)
      ≡ ok (cl_success, s1))
    × (handle_read_command flags willing two_files 0 16 (some 8192) s1
        ≡ ok (cl_success, record s1 { unimem = tt }))
handle_read_command-handle_write_command_example =
    handle_read_command-handle_write_command flags willing two_files 0 16 4096 8192
      (idle willing tt) new_mem (1 ∷ 2 ∷ 3 ∷ []) address tt tt tt true (omega arith) refl allocates
      refl copies_to copies_from

-- A dispatcher for two islands.
abbrev two_island_dispatcher : Dispatcher flags
two_island_dispatcher = record {
  read_timer = false;
  algo_type = algo_simple;
  slicing = new_slicing 30 2;
  simple = two_islands;
}

routed :
    (a : AlgoSimple) × (w' : World flags) × (Route.route_ndrange flags unnamed 0
        (some 0)
        two_islands
        two_busy
      ≡ ok (ml_success, a, w'))
routed =
    let r =
      route_ndrange_lem flags unnamed 0 0 two_islands two_busy fresh refl refl (omega arith)
        default_costs (busy-HasRoom, (busy-HasRoom, tt)) (ring-Holds_two 5 6 0 0) refl (omega arith)
        (record { bounded = omega arith; fits = omega arith }) (omega arith) (omega arith) refl
        (omega arith) in
    (r.0, r.1, r.2)

read_from_the_buffer_lem_example :
    (b' : CircArray ℕ) × (d' : Dispatcher flags) × (read_from_the_buffer flags unnamed 0
        (ring 0 0 0 0 1)
        two_island_dispatcher
        two_busy
      ≡ ok (b', d', routed.1))
    × Holds b' []
    × (d'.simple ≡ routed.0)
    × (d'.read_timer ≡ true)
read_from_the_buffer_lem_example =
    read_from_the_buffer_lem flags unnamed 0 (ring 0 0 0 0 1) two_island_dispatcher two_busy
      routed.1 routed.0 (ring-Holds_one 0 0 0 0) refl routed.2
