-- ===== src/Slicing.antt =====
-- AlgoSlicing of cpp/algo_slicing.h and cpp/algo_slicing.cc, and FreeSchedulersEvTimer::on_timer of
-- cpp/ev_timer.cc: ndranges wait in a ring buffer, and each time schedulers are free the one at the
-- front is given to the scheduler that fits most workgroups into a quantum of time.
pub mod Select
pub mod Retry
pub mod Rounds
pub mod Give
mod Tests
use fpgaml.Common.{
  ℕ, zero, suc, ◌+◌, ◌*◌, ◌/◌, ◌%◌, ◌^◌, Bool, true, false, not, ◌||◌, ◌&&◌, if◌then◌else◌, ltb,
  ◌==◌, Option, none, some, List, [], ◌∷◌, Outcome, ok, throw, fault, ◌>>=◌, read_cell, write_cell,
  add_u32, sub_u32, mul_u32,
}
use fpgaml.Common.Int.{ℤ, pos, negsuc, ltb_ℤ, to_int, to_unsigned}
use fpgaml.Common.Names.{Name}
use fpgaml.CircArray.{
  create, CircArray, get, pop_front, push_back, push_front, is_full, empty, occupancy,
}
use fpgaml.NdRange.{NdRange, WorkGroupRange, carve_wgs, set_execution_cost, has_more_wgs}
use fpgaml.EvTimer.{LibEv, start_timer}
use fpgaml.FreeSchedulers.{FreeSchedulers}
use fpgaml.Scheduler.{Scheduler, would_need_reconf, submit_wgr}
use fpgaml.World.{World}
use fpgaml.Tracker.{
  Tracker, get_wg_cost_on_island, get_reconf_cost_on_island, check_resource_string,
}
use fpgaml.Bitstreams.{Rc, ml_success, ml_error_too_many_ndr}

pub record AlgoSlicing : Type 0 where
  pub ndranges : CircArray ℕ
  pub min_quant : ℕ
  pub max_idle_threshold : ℕ

-- AlgoSlicing (min_quant, max_idle_threshold), with CircArray () for its ndranges
unfoldable pub new_slicing : ℕ → ℕ → AlgoSlicing
new_slicing min_quant max_idle_threshold = record {
  ndranges = create 0 10;
  min_quant = min_quant;
  max_idle_threshold = max_idle_threshold;
}

-- route_ndrange: a new ndrange goes to the front. What push_front returns is dropped.
unfoldable pub route_ndrange : AlgoSlicing → ℕ → Outcome (Rc × AlgoSlicing)
unfolding is_full
route_ndrange a ndrange =
    if is_full a.ndranges
    then ok (ml_error_too_many_ndr, a)
    else (push_front a.ndranges ndrange false >>= λ r. ok (ml_success, record a { ndranges = r.1 }))

-- What one free scheduler could do within the quantum.
pub record Offer : Type 0 where
  pub num_wgs : ℕ
  pub wg_cost : ℕ
  pub reconf_cost : ℕ
  pub total_cost : ℕ

-- The variables of select_best_scheduler's loop.
pub record Choice : Type 0 where
  pub scheduler_idx : ℕ
  pub max_wgs : ℤ
  pub reconf_cost : ℕ
  pub wg_cost : ℕ
  pub total_cost : ℕ

abbrev pub no_choice : Choice
no_choice = record {
  scheduler_idx = 0;
  max_wgs = negsuc 0;
  reconf_cost = 0;
  wg_cost = 0;
  total_cost = 0;
}

-- The computation of an offer from the costs; `none` is `continue`. The division is of `unsigned`
-- numbers, and undefined by 0.
unfoldable pub offer_for_costs : ℕ → ℤ → ℕ → Outcome (Option Offer)
offer_for_costs quant wg_exec_cost reconf_cost =
    let wg = to_unsigned wg_exec_cost in
    let after_reconf_cost = sub_u32 quant reconf_cost in
    if wg == 0
    then fault
    else if after_reconf_cost / wg == 0
    then ok none
    else ok (
        some (record {
          num_wgs = after_reconf_cost / wg;
          wg_cost = wg;
          reconf_cost = reconf_cost;
          total_cost = add_u32 reconf_cost (mul_u32 (after_reconf_cost / wg) wg);
        }))

-- The end of the loop's body: is the offer better than the choice so far?
unfoldable pub consider : ℕ → Option Offer → Choice → Choice
consider idx none c = c
consider idx (some o) c =
    if (ltb_ℤ c.max_wgs (pos 0) || ltb (to_unsigned c.max_wgs) o.num_wgs)
      || ((o.num_wgs == to_unsigned c.max_wgs) && ltb o.total_cost c.total_cost)
    then record {
      scheduler_idx = idx;
      max_wgs = to_int o.num_wgs;
      reconf_cost = o.reconf_cost;
      wg_cost = o.wg_cost;
      total_cost = o.total_cost;
    }
    else c

-- The loop of select_best_scheduler: `rounds` positions of the free schedulers, from `i` on, with
-- `offer` for its body.
unfoldable pub select_loop :
    (ℕ → Outcome (Option Offer)) → CircArray ℕ → ℕ → ℕ → Choice → Outcome Choice
unfolding consider
select_loop offer free_schedulers zero i c = ok c
select_loop offer free_schedulers (suc rounds) i c = get free_schedulers i >>= λ idx.
    offer idx >>= λ o. select_loop offer free_schedulers rounds (i + 1) (consider idx o c)

-- select_best_scheduler, whose index, a `size_t`, is returned as an `int`; it is one of the list of
-- free schedulers, whose length is an `int`: the chosen number with the number of workgroups and the costs; `none` is
-- -1.
unfoldable pub select_best_scheduler :
    (ℕ → Outcome (Option Offer)) → CircArray ℕ → Outcome (Option (ℕ × ℕ × ℕ × ℕ))
unfolding select_loop occupancy
select_best_scheduler offer free_schedulers =
    select_loop offer free_schedulers (occupancy free_schedulers) 0 no_choice >>= λ c.
    if ltb_ℤ c.max_wgs (pos 0)
    then ok none
    else ok (some (c.scheduler_idx, to_unsigned c.max_wgs, c.wg_cost, c.reconf_cost))

-- The second try, with the larger quantum, after a first one that chose none.
unfoldable pub select_with_retry :
    (ℕ → ℕ → Outcome (Option Offer)) → AlgoSlicing → CircArray ℕ → Outcome (Option (ℕ × ℕ × ℕ × ℕ))
select_with_retry offer a free_schedulers =
    select_best_scheduler (offer a.min_quant) free_schedulers >>= λ r. elim r [
      | some choice ↦ ok (some choice)
      | none ↦
          if not (a.max_idle_threshold == 0)
          then select_best_scheduler (offer (mul_u32 a.min_quant a.max_idle_threshold))
              free_schedulers
          else ok none
    ]

module _ (ev : LibEv) where
  -- The start of the loop's body, for the scheduler with the number `idx`.
  unfoldable pub offer_of :
      Tracker → List (Scheduler ev) → Name → Name → ℕ → ℕ → Outcome (Option Offer)
  unfolding offer_for_costs would_need_reconf check_resource_string
  offer_of tracker schedulers kernel_name resource_string quant idx =
      read_cell schedulers idx >>= λ scheduler.
      if not (check_resource_string scheduler.id resource_string kernel_name)
      then ok none
      else (get_wg_cost_on_island tracker idx kernel_name >>= λ wg_exec_cost.
          if would_need_reconf ev scheduler
          then (get_reconf_cost_on_island tracker idx kernel_name >>= λ c.
              offer_for_costs quant wg_exec_cost (to_unsigned c))
          else offer_for_costs quant wg_exec_cost 0)

  -- The end of on_free_schedulers: a range for the chosen scheduler is carved and submitted, and an
  -- ndrange that has more goes to the back.
  unfoldable pub give_wgs :
      ℕ → ℕ → ℕ × ℕ × ℕ × ℕ → AlgoSlicing → World ev → Outcome (AlgoSlicing × World ev)
  give_wgs now ndrange (idx, wgs, wg_cost, reconf_cost) a w = read_cell w.store ndrange >>= λ r.
      read_cell w.schedulers idx >>= λ scheduler.
      let (wgr, r') = carve_wgs ndrange r wgs in
      let cost = add_u32 (mul_u32 wgr.total_size wg_cost) reconf_cost in
      submit_wgr ev now (set_execution_cost wgr cost) scheduler w.free >>= λ s.
      write_cell w.schedulers idx s.0 >>= λ schedulers'. write_cell w.store ndrange r' >>= λ store'.
      let w' = record w { store = store'; schedulers = schedulers'; free = s.1 } in
      if has_more_wgs r'
      then (push_back a.ndranges ndrange false >>= λ q. ok (record a { ndranges = q.1 }, w'))
      else ok (a, w')

  -- on_free_schedulers, with the kernel's and the resource's strings of an ndrange given by
  -- `names`.
  unfoldable pub on_free_schedulers :
      (NdRange → Name × Name) → ℕ → AlgoSlicing → World ev → Outcome (AlgoSlicing × World ev)
  unfolding empty
  on_free_schedulers names now a w =
      if empty a.ndranges || empty w.free.free_schedulers
      then ok (a, w)
      else (pop_front a.ndranges >>= λ p. read_cell w.store p.0 >>= λ r.
          select_with_retry (offer_of w.tracker w.schedulers (names r).0 (names r).1)
            (record a { ndranges = p.1 }) w.free.free_schedulers
          >>= λ chosen. elim chosen [
            | none ↦ push_back p.1 p.0 false >>= λ q. ok (record a { ndranges = q.1 }, w)
            | some choice ↦ give_wgs now p.0 choice (record a { ndranges = p.1 }) w
          ])

  -- FreeSchedulersEvTimer::on_timer with the slicing algorithm as its callback, if it is set. The
  -- timer is started again as long as there are free schedulers.
  unfoldable pub on_timer :
      (NdRange → Name × Name)
      → ℕ
      → Option AlgoSlicing
      → World ev
      → Outcome (Option AlgoSlicing × World ev)
  unfolding start_timer occupancy
  on_timer names now none w = ok (none, w)
  on_timer names now (some a) w = on_free_schedulers names now a w >>= λ r.
      let f = r.1.free in
      ok (
        some r.0,
        if not (occupancy f.free_schedulers == 0)
            then record r.1 {
              free = record f { free_sched_timer = start_timer ev f.free_sched_timer 0 0 };
            }
            else r.1,
      )
