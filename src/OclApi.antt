-- ===== src/OclApi.antt =====
-- The OpenCL functions of il/ocl_api.cc: the state that they share, and those on platforms, devices
-- and contexts. A pointer that may be NULL is an option. A function that ends without returning a
-- code has the code `none`. The logs are left out.
pub mod Programs
pub mod Devices
pub mod BuildLog
pub mod Enqueue
pub mod Buffers
pub mod Names
pub mod Checked
pub mod Watcher
pub mod Waiting
pub mod Serving
pub mod Dispatching
pub mod Returning
mod Tests
use fpgaml.Common.{
  ℕ, ◌+◌, Bool, true, false, not, ◌&&◌, ◌||◌, if◌then◌else◌, ltb, ◌==◌, Option, none, some, List,
  [], ◌∷◌, ◌++◌, length, set, Outcome, ok, fault, ◌>>=◌,
}
use fpgaml.Common.Names.{Name}
use fpgaml.Objects.{
  Objects, ClCode, cl_success, cl_invalid_value, cl_invalid_context, load, ref_cnt_down,
  new_counter, has,
}
use fpgaml.CmdQueue.{CommandQueue}

-- _cl_context, whose set of memory objects is the list of their numbers, each once
pub record Context : Type 0 where
  pub counter : ℕ
  pub allocated_mems : List ℕ

unfoldable pub is_mem_obj : Context → ℕ → Bool
is_mem_obj c mem = has mem c.allocated_mems

unfoldable pub add_mem_obj : Context → ℕ → Bool × Context
unfolding is_mem_obj
add_mem_obj c mem =
    if is_mem_obj c mem
    then (false, c)
    else (true, record c { allocated_mems = c.allocated_mems ++ (mem ∷ []) })

abbrev without : ℕ → List ℕ → List ℕ
without mem [] = []
without mem (m ∷ ms) = let rest = without mem ms in if mem == m then rest else m ∷ rest

unfoldable pub remove_mem_obj : Context → ℕ → Context
remove_mem_obj c mem = record c { allocated_mems = without mem c.allocated_mems }

-- _cl_program
pub record Program : Type 0 where
  pub counter : ℕ
  pub xml_name : Name
  pub build_log : Name
  pub context : ℕ

-- The objects, those that only the API has, the queues, and the two checks of the program's Global.
pub record Api : Type 0 where
  pub objects : Objects
  pub contexts : List (Option Context)
  pub programs : List (Option Program)
  pub queues : List (Option CommandQueue)
  pub unique_command_id : ℕ
  pub bits_check : List Name
  pub wg_size_check : List (Name × ℕ)
  -- What a caller of the queue's push_back reads, which has no return statement there: whether it is
  -- the code of a released queue.
  pub unreturned : Bool

-- clGetPlatformIDs and clGetDeviceIDs: the code, whether the first element of the array is set, and
-- the number that is stored. The array and the number are there or not.
unfoldable pub get_platform_ids : ℕ → Bool → Bool → Outcome (ClCode × Bool × Option ℕ)
get_platform_ids num_entries platforms num_platforms =
    if (num_entries == 0) && (not platforms && num_platforms)
    then ok (cl_success, false, some 1)
    else if ltb num_entries 1 && not platforms
    then ok (cl_invalid_value, false, none)
    else if not platforms
    then fault
    else ok (cl_success, true, if num_platforms then some 1 else none)

unfoldable pub get_device_ids : ℕ → Bool → Bool → Outcome (ClCode × Bool × Option ℕ)
get_device_ids num_entries devices num_devices =
    if (num_entries == 0) && (not devices && num_devices)
    then ok (cl_success, false, some 1)
    else if ltb num_entries 1 && not devices
    then ok (cl_invalid_value, false, none)
    else if not devices
    then fault
    else ok (cl_success, true, if num_devices then some 1 else none)

-- clCreateContext: the context, and the code that is stored where there is a place for it.
unfoldable pub create_context : Bool → Api → ℕ × Option ClCode × Api
create_context errcode_ret a = (
  length a.contexts,
  if errcode_ret then some cl_success else none,
  record a {
    contexts = a.contexts ++ (some (record { counter = new_counter; allocated_mems = [] }) ∷ []);
  },
)

-- clReleaseContext and clReleaseProgram, which return a code only where there is no object
unfoldable pub release_context : Option ℕ → Api → Outcome (Option ClCode × Api)
unfolding ref_cnt_down
release_context none a = ok (some cl_invalid_context, a)
release_context (some i) a = load a.contexts i >>= λ c. ok (
  none,
  record a {
    contexts =
        set a.contexts i (elim (ref_cnt_down c.counter) [
          | none ↦ none
          | some n ↦ some (record c { counter = n })
        ]);
  },
)
