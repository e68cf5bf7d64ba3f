-- ===== src/Objects/Tests.antt =====
-- The theorems on the objects at inputs.
use fpgaml.Common.{ℕ, ◌≡◌, ◌≢◌, ◌<◌, refl, [], ◌∷◌, get_elem?, ok, some, none, arith, ◌>>=◌}
use fpgaml.Objects.{
  Objects, Kernel, new_mem, new_event, set_args, write_buffer, new_command, delete_command,
}
use fpgaml.Common.Int.{pos}
use fpgaml.Objects.Counting.{Refers, set_args_lem, delete_command-new_command}

abbrev fresh_kernel : Kernel
fresh_kernel = record { counter = 1; program = none; args = none ∷ [] }

-- Three of the four bytes.
set_args_lem_example :
    (k' : Kernel) × (set_args fresh_kernel 2 3 (some (1 ∷ 2 ∷ 3 ∷ 4 ∷ [])) ≡ ok k')
    × (get_elem? k'.args 2
        ≡ some (some (record { value = some (1 ∷ 2 ∷ 3 ∷ []); value_size = pos 3 })))
    × ((j : ℕ) → j ≢ 2 → j < 1 → get_elem? k'.args j ≡ get_elem? (none ∷ []) j)
set_args_lem_example =
    set_args_lem fresh_kernel 2 3 (1 ∷ 2 ∷ 3 ∷ 4 ∷ []) (omega arith) (omega arith) (omega arith)
      (omega arith)

abbrev one_mem : Objects
one_mem = record {
  events = some new_event ∷ [];
  mems = some new_mem ∷ [];
  kernels = [];
  pending = [];
}

one_mem-Refers : Refers (write_buffer 0 0 16 none) one_mem
one_mem-Refers = (new_mem, refl, omega arith, omega arith)

delete_command-new_command_example :
    (new_command (write_buffer 0 0 16 none) one_mem >>= λ r. delete_command r.0 r.1)
    ≡ ok (record one_mem { events = some new_event ∷ none ∷ [] })
delete_command-new_command_example =
    delete_command-new_command (write_buffer 0 0 16 none) one_mem one_mem-Refers
