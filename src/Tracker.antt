-- ===== src/Tracker.antt =====
-- Tracker of cpp/tracker.h and cpp/tracker.cc, the costs of a kernel's workgroups on each island,
-- and ReconfController of cpp/reconf_controller.cc.
pub mod Costs
use fpgaml.Common.{
  ℕ, Bool, true, if◌then◌else◌, none, some, List, [], ◌∷◌, get_elem?, Outcome, ok, throw, Exception,
}
use fpgaml.Common.Int.{ℤ, pos, to_int}
use fpgaml.Common.Names.{Name, find, insert_new}
use fpgaml.Bitstreams.{Bitstream}
use fpgaml.EvTimer.{LibEv}
use fpgaml.Scheduler.{Scheduler}

pub record Tracker : Type 0 where
  pub wg_cost_mapping : List (Name × List ℕ)
  pub reconf_cost_mapping : List (Name × List ℕ)

module _ (ev : LibEv) where
  -- The costs of one bitstream, for each scheduler.
  unfoldable pub costs_of : Bitstream → List (Scheduler ev) → List ℕ
  costs_of b [] = []
  costs_of b (sc ∷ schedulers) =
      (if sc.is_local then b.local_cost else b.remote_cost) ∷ costs_of b schedulers

  -- The loop over the bitstreams' map.
  unfoldable pub insert_costs :
      List (Name × Bitstream) → List (Scheduler ev) → List (Name × List ℕ) → List (Name × List ℕ)
  unfolding costs_of
  insert_costs [] schedulers mapping = mapping
  insert_costs ((name, b) ∷ rest) schedulers mapping =
      insert_costs rest schedulers (insert_new name (costs_of b schedulers) mapping)

  -- Tracker (bits_manager, schedulers), on the bitstreams' map
  unfoldable pub new_tracker : List (Name × Bitstream) → List (Scheduler ev) → Tracker
  unfolding insert_costs
  new_tracker bitstreams schedulers = record {
    wg_cost_mapping = insert_costs bitstreams schedulers [];
    reconf_cost_mapping = [];
  }

-- `costs.at (island_num)`, as an `int`, where the kernel is known; 1000 where it is not.
unfoldable pub cost_on_island : List (Name × List ℕ) → ℕ → Name → Outcome ℤ
cost_on_island mapping island_num kernel_name = elim (find kernel_name mapping) [
  | none ↦ ok (pos 1000)
  | some costs ↦ elim (get_elem? costs island_num) [
    | none ↦ throw Exception.out_of_range
    | some cost ↦ ok (to_int cost)
  ]
]

unfoldable pub get_wg_cost_on_island : Tracker → ℕ → Name → Outcome ℤ
unfolding cost_on_island
get_wg_cost_on_island t island_num kernel_name =
    cost_on_island t.wg_cost_mapping island_num kernel_name

unfoldable pub get_reconf_cost_on_island : Tracker → ℕ → Name → Outcome ℤ
unfolding cost_on_island
get_reconf_cost_on_island t island_num kernel_name =
    cost_on_island t.reconf_cost_mapping island_num kernel_name

-- ReconfController::check_resource_string: every kernel fits on every island.
unfoldable pub check_resource_string : ℕ → Name → Name → Bool
check_resource_string island_num resource_string kernel_name = true
