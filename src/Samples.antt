-- ===== src/Samples.antt =====
-- Concrete values that the tests of several modules share.
use fpgaml.Common.{
  ℕ, zero, suc, ◌%◌, ◌+◌, ◌<◌, ◌≡◌, refl, Bool, true, false, [], ◌∷◌, get_elem?, arith, none, some,
  length, if◌then◌else◌, ◌==◌,
}
use fpgaml.Common.Int.{pos}
use fpgaml.Unimem.{System}
use fpgaml.Bitstreams.{Documents, BitstreamManager}
use fpgaml.CircArray.{CircArray}
use fpgaml.CircArray.Inv.{Holds}
use fpgaml.EvTimer.{LibEv}
use fpgaml.NdRange.{WorkGroupRange, NdRange}
use fpgaml.NdRange.Carve.{IsValid}
use fpgaml.FreeSchedulers.{FreeSchedulers}
use fpgaml.Scheduler.{Scheduler}

-- Timers that know only whether they are active.
abbrev pub flags : LibEv
flags = record {
  Timer = Bool;
  init = false;
  is_active = λ t. t;
  start = λ t at repeat. true;
  stop = λ t. false;
  expire = λ t. false;
  is_active-init = refl;
  is_active-start = λ t at repeat. refl;
  is_active-stop = λ t. refl;
  is_active-expire = λ t. refl;
}

-- Ring buffers of capacity 4 with one, two or four elements, from the first cell on.
abbrev pub ring : {A : Type 0} → A → A → A → A → ℕ → CircArray A
ring a b c d n = record { array = a ∷ b ∷ c ∷ d ∷ []; start = 0; size = n; capacity = 4 }

module _ {A : Type 0} (a b c d : A) where
  pub ring-Holds_one : Holds (ring a b c d 1) (a ∷ [])
  ring-Holds_one = record {
    storage = refl;
    small = omega arith;
    start_in = omega arith;
    fits = omega arith;
    len = refl;
    cells = cells;
  }
    where
      cells : (i : ℕ) → i < 1 → get_elem? (a ∷ b ∷ c ∷ d ∷ []) ((0 + i) % 4) ≡ get_elem? (a ∷ []) i
      cells zero h = refl
      cells (suc i) h = absurd (omega arith)

  pub ring-Holds_two : Holds (ring a b c d 2) (a ∷ b ∷ [])
  ring-Holds_two = record {
    storage = refl;
    small = omega arith;
    start_in = omega arith;
    fits = omega arith;
    len = refl;
    cells = cells;
  }
    where
      cells :
          (i : ℕ) → i < 2 → get_elem? (a ∷ b ∷ c ∷ d ∷ []) ((0 + i) % 4) ≡ get_elem? (a ∷ b ∷ []) i
      cells zero h = refl
      cells (suc zero) h = refl
      cells (suc (suc i)) h = absurd (omega arith)

  pub ring-Holds_four : Holds (ring a b c d 4) (a ∷ b ∷ c ∷ d ∷ [])
  ring-Holds_four = record {
    storage = refl;
    small = omega arith;
    start_in = omega arith;
    fits = omega arith;
    len = refl;
    cells = cells;
  }
    where
      cells :
          (i : ℕ)
          → i < 4
          → get_elem? (a ∷ b ∷ c ∷ d ∷ []) ((0 + i) % 4) ≡ get_elem? (a ∷ b ∷ c ∷ d ∷ []) i
      cells zero h = refl
      cells (suc zero) h = refl
      cells (suc (suc zero)) h = refl
      cells (suc (suc (suc zero))) h = refl
      cells (suc (suc (suc (suc i)))) h = absurd (omega arith)

-- The ndrange of ten workgroups, of which four have been handed out in one range.
abbrev pub ten_wgs : NdRange
ten_wgs = record {
  kernel = 0;
  event = 0;
  resource_string = [];
  size_x = 10;
  size_y = 1;
  size_z = 1;
  next_wgr = 4;
  total_size = 10;
  wgrs_in_the_wild = 1;
  dimensions = 1;
}

pub ten_wgs-IsValid : IsValid ten_wgs
ten_wgs-IsValid = record { bounded = omega arith; fits = omega arith }

-- A range of the ndrange with the number 0, of the cost `cost`.
abbrev pub range_of_cost : ℕ → WorkGroupRange
range_of_cost cost = record {
  parent = some 0;
  start_x = 0;
  size_x = 4;
  start_y = 0;
  size_y = 1;
  start_z = 0;
  size_z = 1;
  execution_cost = cost;
  execution_start_time = 0;
  total_size = 4;
}

abbrev pub free_two : FreeSchedulers flags
free_two = record { free_schedulers = ring 5 6 0 0 2; free_sched_timer = false }

abbrev pub scheduler_with : CircArray WorkGroupRange → Bool → Scheduler flags
scheduler_with queue active = record {
  in_queue = queue;
  id = 5;
  timer = active;
  mock_would_need_reconf = false;
  end_time = 0;
  mem_base = 0;
  is_local = true;
}

-- A driver that takes every message and answers each read with the address 1, 2, 3.
abbrev pub willing : System
willing = record {
  State = Unit;
  write = λ d message. (some (length message), d);
  read = λ d n. (some (122 ∷ 1 ∷ 2 ∷ 3 ∷ []), d);
  malloc_succeeds = λ d n. true;
}

-- A driver that refuses the messages `W` to copy to a buffer.
abbrev pub refusing : System
refusing = record {
  State = Unit;
  write = λ d message. (elim message [ [] ↦ none | c ∷ cs ↦ if c == 87 then none else some 9 ], d);
  read = λ d n. (some (122 ∷ 1 ∷ 2 ∷ 3 ∷ []), d);
  malloc_succeeds = λ d n. true;
}

-- One directory with the files "..", "a.xml" and "b.txt"; every document is empty.
abbrev pub two_files : Documents
two_files = record {
  Node = Unit;
  Mapping = Unit;
  child = λ n t. n;
  child_value = λ n. [];
  load_file = λ f. some tt;
  load_string = λ m. some tt;
  atoi = λ s. pos 0;
  strtoul_hex = λ s. 0;
  read_dir = λ d.
      some
        ((46 ∷ 46 ∷ []) ∷ (97 ∷ 46 ∷ 120 ∷ 109 ∷ 108 ∷ []) ∷ (98 ∷ 46 ∷ 116 ∷ 120 ∷ 116 ∷ []) ∷ []);
  map_file = λ f. none;
}

abbrev pub no_bitstreams : BitstreamManager two_files
no_bitstreams = record {
  kernel_bitstream_struct_map = [];
  kernel_mmap_ptr_map = [];
  working_dir_path = [];
  enabled_mmap = false;
  xml_files_list = [];
}
