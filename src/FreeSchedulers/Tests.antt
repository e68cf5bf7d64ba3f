-- ===== src/FreeSchedulers/Tests.antt =====
-- The theorems on the list of free schedulers at inputs.
use fpgaml.Common.{◌≡◌, true, false, [], ◌∷◌, length, ok}
use fpgaml.CircArray.Inv.{Holds}
use fpgaml.FreeSchedulers.{FreeSchedulers, remove_free_scheduler}
use fpgaml.FreeSchedulers.Laws.{erase, remove_free_scheduler_lem}
use fpgaml.Samples.{flags, ring, ring-Holds_two, free_two}

remove_free_scheduler_lem_example :
    (m' : FreeSchedulers flags) × (remove_free_scheduler flags 6 free_two ≡ ok m')
    × Holds m'.free_schedulers (erase 6 (5 ∷ 6 ∷ []))
    × (m'.free_schedulers.capacity ≡ 4)
    × (length (erase 6 (5 ∷ 6 ∷ [])) ≡ 0 → m'.free_sched_timer ≡ false)
remove_free_scheduler_lem_example =
    remove_free_scheduler_lem flags 6 free_two (ring-Holds_two 5 6 0 0)

abbrev free_four : FreeSchedulers flags
free_four = record { free_schedulers = ring 5 6 7 8 4; free_sched_timer = true }
