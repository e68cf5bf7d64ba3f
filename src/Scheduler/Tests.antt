-- ===== src/Scheduler/Tests.antt =====
-- The theorems on the scheduler at inputs.
use fpgaml.Common.{◌≡◌, refl, true, false, [], ◌∷◌, arith, ok, some, none}
use fpgaml.CircArray.Inv.{Holds}
use fpgaml.FreeSchedulers.{FreeSchedulers}
use fpgaml.FreeSchedulers.Laws.{erase}
use fpgaml.Scheduler.{Scheduler, submit_wgr}
use fpgaml.Scheduler.Laws.{Runs, submit_wgr_lem}
use fpgaml.Scheduler.Drain.{fire_all, fire_all_lem, mark_all, mark_as_finished, Ndranges}
use fpgaml.NdRange.Completion.{end_range}
use fpgaml.Objects.{new_event, complete, complete_event, kernel_down, event_down}
use fpgaml.NdRange.{WorkGroupRange, decrement_wgrs_counter}
use fpgaml.Samples.{
  flags, ring, ring-Holds_two, ring-Holds_four, ten_wgs, free_two, range_of_cost, scheduler_with,
}

abbrev w : WorkGroupRange
w = range_of_cost 30

abbrev v : WorkGroupRange
v = range_of_cost 20

abbrev busy : Scheduler flags
busy = scheduler_with (ring w v w w 2) true

abbrev busy_last : Scheduler flags
busy_last = scheduler_with (ring w w w w 1) true

abbrev busy_full : Scheduler flags
busy_full = scheduler_with (ring w v w v 4) true

busy-Runs : Runs flags busy (w ∷ v ∷ [])
busy-Runs = record { queue = ring-Holds_two w v w w; busy = λ ne. refl }

busy_full-Runs : Runs flags busy_full (w ∷ v ∷ w ∷ v ∷ [])
busy_full-Runs = record { queue = ring-Holds_four w v w v; busy = λ ne. refl }

submit_wgr_lem_example :
    (s' : Scheduler flags) × (f' : FreeSchedulers flags) × (submit_wgr flags 0 v busy free_two
      ≡ ok (s', f'))
    × Runs flags s' (w ∷ v ∷ v ∷ [])
    × (s'.id ≡ 5)
    × (s'.in_queue.capacity ≡ 4)
    × Holds f'.free_schedulers (erase 5 (5 ∷ 6 ∷ []))
submit_wgr_lem_example =
    submit_wgr_lem flags 0 v busy free_two busy-Runs (omega arith) (ring-Holds_two 5 6 0 0)

-- Other schedulers are free.
abbrev others_free : FreeSchedulers flags
others_free = record { free_schedulers = ring 6 7 0 0 2; free_sched_timer = false }

-- The ndrange of the two ranges, and its event with a callback for the queue 4.
abbrev before : Ndranges
before = (
  some (record ten_wgs { wgrs_in_the_wild = 2 }) ∷ [],
  record {
    events = some (record new_event { counter = 2; on_complete = some 4 }) ∷ [];
    mems = [];
    kernels = some (record { counter = 2; program = none; args = [] }) ∷ [];
    pending = [];
  },
)

abbrev after : Ndranges
after = (
  none ∷ [],
  record {
    events = some (record new_event { event_state = complete; on_complete = some 4 }) ∷ [];
    mems = [];
    kernels = some (record { counter = 1; program = none; args = [] }) ∷ [];
    pending = 4 ∷ [];
  },
)

both_told : mark_all (w ∷ v ∷ []) before ≡ ok after
unfolding mark_all mark_as_finished end_range decrement_wgrs_counter complete_event kernel_down
    event_down
both_told = refl

fire_all_lem_example :
    (s' : Scheduler flags) × (f' : FreeSchedulers flags) × (fire_all flags
        (100 ∷ 200 ∷ [])
        busy
        others_free
        before
      ≡ ok (w ∷ v ∷ [], s', f', after))
    × Runs flags s' []
    × Holds f'.free_schedulers (6 ∷ 7 ∷ 5 ∷ [])
    × (f'.free_sched_timer ≡ true)
fire_all_lem_example =
    fire_all_lem flags (100 ∷ 200 ∷ []) busy others_free w (v ∷ []) before after refl busy-Runs
      ((0, refl), ((0, refl), tt)) both_told (ring-Holds_two 6 7 0 0) (omega arith)
