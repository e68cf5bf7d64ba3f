-- ===== src/Driver/Tests.antt =====
-- The theorems on the driver at inputs.
use fpgaml.Common.{ℕ, ◌+◌, ◌<◌, ◌≤◌, ◌≡◌, ◌⊎◌, refl, Bool, true, [], ◌∷◌, ok, some, arith}
use fpgaml.Common.Int.{pos}
use fpgaml.Objects.{cl_success, new_mem}
use fpgaml.AlgoSimple
use fpgaml.FreeSchedulers.{new_manager}
use fpgaml.Tracker.{new_tracker}
use fpgaml.Dispatcher.{Engine, handle_write_command, handle_read_command}
use fpgaml.Driver.{Kernel, Device, device_system}
use fpgaml.Driver.EndToEnd.{write_then_read}
use fpgaml.Samples.{flags, two_files, no_bitstreams}

-- A kernel that has memory at 4096 only, and a process all of whose memory can be accessed.
abbrev one_page : Kernel
one_page = record {
  Heap = Unit;
  vmalloc = λ h n. (4096, h);
  vfree = λ h a. h;
  accessible = λ a n. n;
}

abbrev always : ℕ → Bool
always n = true

abbrev idle_device : Device one_page
idle_device = record {
  dev_opened = 1;
  return_type = 0;
  return_addr = record { kernel_virt_addr = 0; bus_addr = 0; size = 0 };
  heap = tt;
  kernel_memory = λ a. 0;
  user_memory = λ a. a;
}

abbrev engine : Engine flags (device_system one_page always) two_files
engine = record {
  objects = record { events = []; mems = some new_mem ∷ []; kernels = []; pending = [] };
  unimem = idle_device;
  fd = pos 3;
  bits = no_bitstreams;
  algo_simple = AlgoSimple.create 1;
  world = record {
    store = [];
    schedulers = [];
    free = new_manager flags 1;
    tracker = new_tracker flags [] [];
  };
}

write_then_read_example :
    (s1 : Engine flags (device_system one_page always) two_files) × (s2 : Engine flags
      (device_system one_page always)
      two_files)
    × (handle_write_command flags (device_system one_page always) two_files 0 8 (some 100) engine
        ≡ ok (cl_success, s1))
    × (handle_read_command flags (device_system one_page always) two_files 0 8 (some 200) s1
        ≡ ok (cl_success, s2))
    × ((i : ℕ) → i < 8 → s2.unimem.user_memory (200 + i) ≡ 100 + i)
    × ((a : ℕ) → (a < 200) ⊎ (200 + 8 ≤ a) → s2.unimem.user_memory a ≡ a)
write_then_read_example =
    write_then_read one_page always flags two_files 0 8 100 200 4096 engine new_mem tt (omega arith)
      refl (omega arith) (omega arith) (omega arith) (omega arith) refl (omega arith) (omega arith)
      refl refl refl
