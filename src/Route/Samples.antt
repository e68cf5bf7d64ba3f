-- ===== src/Route/Samples.antt =====
-- A world with two busy schedulers and one ndrange, for tests.
use fpgaml.Common.{refl, true, [], ◌∷◌, arith}
use fpgaml.Common.Int.{pos, negsuc}
use fpgaml.Common.Names.{Name}
use fpgaml.NdRange.{NdRange}
use fpgaml.AlgoSimple.{AlgoSimple}
use fpgaml.Scheduler.{Scheduler}
use fpgaml.Tracker.{get_wg_cost_on_island, get_reconf_cost_on_island}
use fpgaml.World.{World}
use fpgaml.Route.Fill.{HasCosts}
use fpgaml.Route.Submit.{HasRoom}
use fpgaml.Samples.{flags, ring, ring-Holds_one, ten_wgs, range_of_cost, scheduler_with, free_two}

abbrev pub two_islands : AlgoSimple
two_islands = record {
  num_islands = 2;
  wgs_per_islands = pos 0 ∷ pos 0 ∷ [];
  work_in_progress_cost = pos 0 ∷ pos 0 ∷ [];
  current_work_potential_cost = pos 0 ∷ pos 0 ∷ [];
  current_work_reconf_cost = pos 0 ∷ pos 0 ∷ [];
  result = pos 0 ∷ pos 0 ∷ [];
  current_min = negsuc 0;
}

abbrev pub fresh : NdRange
fresh = record ten_wgs { next_wgr = 0; wgrs_in_the_wild = 0 }

-- A scheduler that is running one range.
abbrev pub busy : Scheduler flags
busy =
    scheduler_with (ring (range_of_cost 1) (range_of_cost 1) (range_of_cost 1) (range_of_cost 1) 1)
      true

pub busy-HasRoom : HasRoom flags busy
busy-HasRoom = (
  range_of_cost 1 ∷ [],
  record {
    queue = ring-Holds_one (range_of_cost 1) (range_of_cost 1) (range_of_cost 1) (range_of_cost 1);
    busy = λ ne. refl;
  },
  omega arith,
)

abbrev pub two_busy : World flags
two_busy = record {
  store = fresh ∷ [];
  schedulers = busy ∷ busy ∷ [];
  free = free_two;
  tracker = record { wg_cost_mapping = []; reconf_cost_mapping = [] };
}

abbrev pub unnamed : NdRange → Name × Name
unnamed r = ([], [])

pub default_costs : HasCosts two_busy.tracker [] 2
unfolding get_wg_cost_on_island get_reconf_cost_on_island
default_costs i lt = ((pos 1000, refl), (pos 1000, refl))
