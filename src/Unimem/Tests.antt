-- ===== src/Unimem/Tests.antt =====
-- The theorems on the driver's client at inputs.
use fpgaml.Common.{ℕ, ◌≡◌, ◌<◌, refl, List, [], ◌∷◌, ok, some, arith}
use fpgaml.Common.Int.{pos}
use fpgaml.Unimem.{copy_message, allocate_unimem, letter_write}
use fpgaml.Unimem.Messages.{read_copy_message, copy_message-read_copy_message}
use fpgaml.Unimem.Allocation.{allocate_unimem_sound}
use fpgaml.Samples.{willing}

copy_message-read_copy_message_example :
    (message : List ℕ) × (copy_message letter_write (1 ∷ 2 ∷ 3 ∷ []) 4096 300 ≡ ok message)
    × (read_copy_message 3 message ≡ some (letter_write, 1 ∷ 2 ∷ 3 ∷ [], 4096, 300))
copy_message-read_copy_message_example =
    copy_message-read_copy_message letter_write (1 ∷ 2 ∷ 3 ∷ []) 4096 300 (omega arith)
      (omega arith) (omega arith)

allocated : (allocate_unimem willing (pos 3) tt 300).0.ptr ≡ some (1 ∷ 2 ∷ 3 ∷ [])
unfolding allocate_unimem
allocated = refl

allocate_unimem_sound_example :
    ((allocate_unimem willing (pos 3) tt 300).0.ptr_size ≡ 3)
    × (3 < 100)
    × ((willing.read tt 100).0 ≡ some (122 ∷ 1 ∷ 2 ∷ 3 ∷ []))
allocate_unimem_sound_example =
    allocate_unimem_sound willing (pos 3) tt 300 (1 ∷ 2 ∷ 3 ∷ []) allocated
