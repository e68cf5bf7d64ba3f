-- ===== src/Route.antt =====
-- route_ndrange of cpp/algo_simple.cc: the vectors of the search are filled from the schedulers and
-- the tracker, the search is run, and each island is given its share of the workgroups.
pub mod Shares
pub mod Submit
pub mod Fill
pub mod Whole
pub mod Samples
mod Tests
use fpgaml.Common.{
  ℕ, zero, suc, ◌+◌, ◌-◌, ◌%◌, Bool, true, false, not, ◌||◌, if◌then◌else◌, Option, none, some,
  List, set, Outcome, ok, ◌>>=◌, ◌>>◌, assert, read_cell, write_cell, size_max,
}
use fpgaml.Common.Int.{ℤ, pos, negsuc, ◌+ℤ◌, ◌*ℤ◌, eqb_ℤ, to_int, wrap_int}
use fpgaml.Common.Names.{Name}
use fpgaml.NdRange.{NdRange, carve_wgs, set_execution_cost, has_more_wgs}
use fpgaml.AlgoSimple.{AlgoSimple, unsuitable_island, search, at}
use fpgaml.EvTimer.{LibEv}
use fpgaml.Scheduler.{Scheduler, get_remaining_time, would_need_reconf, submit_wgr}
use fpgaml.Tracker.{
  Tracker, get_wg_cost_on_island, get_reconf_cost_on_island, check_resource_string,
}
use fpgaml.World.{World}
use fpgaml.Bitstreams.{Rc, ml_success, ml_wrong_param}

-- An `int` passed as a `size_t`.
abbrev pub to_size : ℤ → ℕ
to_size (pos n) = n
to_size (negsuc n) = size_max - 1 - n % size_max

module _ (ev : LibEv) where
  -- The body of the loop that fills the vectors, for the island `i`.
  unfoldable pub fill_island : Name → Name → ℕ → World ev → ℕ → AlgoSimple → Outcome AlgoSimple
  unfolding check_resource_string would_need_reconf get_remaining_time
  fill_island kernel_name resource_string now w i s = read_cell w.schedulers i >>= λ scheduler.
      if not (check_resource_string scheduler.id resource_string kernel_name)
      then ok (record s {
        wgs_per_islands = set s.wgs_per_islands i unsuitable_island;
        work_in_progress_cost = set s.work_in_progress_cost i unsuitable_island;
        current_work_potential_cost = set s.current_work_potential_cost i unsuitable_island;
        current_work_reconf_cost = set s.current_work_reconf_cost i unsuitable_island;
        result = set s.result i unsuitable_island;
      })
      else ((if would_need_reconf ev scheduler
            then get_reconf_cost_on_island w.tracker i kernel_name
            else ok (pos 0))
          >>= λ reconf. get_wg_cost_on_island w.tracker i kernel_name >>= λ wg. ok (record s {
            wgs_per_islands = set s.wgs_per_islands i (pos 0);
            work_in_progress_cost =
                set s.work_in_progress_cost i (to_int (get_remaining_time ev now scheduler));
            current_work_potential_cost = set s.current_work_potential_cost i wg;
            current_work_reconf_cost = set s.current_work_reconf_cost i reconf;
            result = set s.result i (pos 0);
          }))

  -- The loop: `rounds` islands, from `i` on.
  unfoldable pub fill_vectors : Name → Name → ℕ → World ev → ℕ → ℕ → AlgoSimple → Outcome AlgoSimple
  unfolding fill_island
  fill_vectors kernel_name resource_string now w zero i s = ok s
  fill_vectors kernel_name resource_string now w (suc rounds) i s =
      fill_island kernel_name resource_string now w i s >>= λ s'.
      fill_vectors kernel_name resource_string now w rounds (i + 1) s'

  -- A range of `wgs` workgroups of the ndrange is carved and submitted to the island `i`, with its
  -- cost.
  unfoldable pub submit_island : ℕ → ℕ → ℕ → ℤ → ℤ → World ev → Outcome (World ev)
  submit_island now ndrange i wgs cost w = read_cell w.store ndrange >>= λ r.
      read_cell w.schedulers i >>= λ scheduler.
      let (wgr, r') = carve_wgs ndrange r (to_size wgs) in
      submit_wgr ev now (set_execution_cost wgr (to_size cost)) scheduler w.free >>= λ p.
      write_cell w.store ndrange r' >>= λ store'. write_cell w.schedulers i p.0 >>= λ schedulers'.
      ok (record w { store = store'; schedulers = schedulers'; free = p.1 })

  -- The loop that submits: islands that cannot run the kernel or have no workgroups are skipped.
  unfoldable pub submit_all : ℕ → ℕ → AlgoSimple → ℕ → ℕ → World ev → Outcome (World ev)
  unfolding submit_island
  submit_all now ndrange s zero i w = ok w
  submit_all now ndrange s (suc rounds) i w =
      elim (eqb_ℤ (at s.result i) unsuitable_island || eqb_ℤ (at s.result i) (pos 0)) [
        | true ↦ submit_all now ndrange s rounds (i + 1) w
        | false ↦
            submit_island now ndrange i (at s.result i)
              (wrap_int (
                at s.result i *ℤ at s.current_work_potential_cost i
                +ℤ at s.current_work_reconf_cost i))
              w
            >>= λ w'. submit_all now ndrange s rounds (i + 1) w'
      ]

  -- route_ndrange, whose number of workgroups becomes an `int` for the search. The log line of the
  -- distribution, which overruns its 1,024 characters with some 200 islands, is left out.
  -- The kernel's and the resource's strings of an ndrange are given by `names`.
  unfoldable pub route_ndrange :
      (NdRange → Name × Name)
      → ℕ
      → Option ℕ
      → AlgoSimple
      → World ev
      → Outcome (Rc × AlgoSimple × World ev)
  unfolding fill_vectors submit_all search
  route_ndrange names now none s w = ok (ml_wrong_param, s, w)
  route_ndrange names now (some ndrange) s w = read_cell w.store ndrange >>= λ r.
      fill_vectors (names r).0 (names r).1 now w s.num_islands 0
        (record s { current_min = negsuc 0 })
      >>= λ filled.
          let s' = search (to_int r.total_size) filled in
          submit_all now ndrange s' s'.num_islands 0 w >>= λ w'.
          read_cell w'.store ndrange >>= λ r'.
          assert (not (has_more_wgs r')) >> ok (ml_success, s', w')
