-- ===== src/AlgoSimple.antt =====
-- The search of cpp/algo_simple.h and cpp/algo_simple.cc. The class's vectors of `int` are lists of
-- integers, one for each island; an island that cannot run the kernel holds -13 in each of them.
-- The overflow of a cost, which is undefined, wraps here; the theorems on costs exclude it.
pub mod Visit
pub mod Search
pub mod Distributions
pub mod Makespan
pub mod Optimal
pub mod Least
mod Tests
use fpgaml.Common.{
  ℕ, zero, suc, ◌+◌, ◌-◌, Bool, true, false, ◌||◌, if◌then◌else◌, List, [], ◌∷◌, ◌==◌, get_or, set,
  replicate,
}
use fpgaml.Common.Int.{ℤ, pos, negsuc, ◌+ℤ◌, ◌*ℤ◌, ltb_ℤ, eqb_ℤ, wrap_int}

-- UNSUITABLE_ISLAND
abbrev pub unsuitable_island : ℤ
unsuitable_island = negsuc 12

pub record AlgoSimple : Type 0 where
  pub num_islands : ℕ
  pub wgs_per_islands : List ℤ
  pub work_in_progress_cost : List ℤ
  pub current_work_potential_cost : List ℤ
  pub current_work_reconf_cost : List ℤ
  pub result : List ℤ
  pub current_min : ℤ

-- AlgoSimple (num_sched)
unfoldable pub create : ℕ → AlgoSimple
create num_sched = record {
  num_islands = num_sched;
  wgs_per_islands = replicate num_sched (pos 0);
  work_in_progress_cost = replicate num_sched (pos 0);
  current_work_potential_cost = replicate num_sched (pos 0);
  current_work_reconf_cost = replicate num_sched (pos 0);
  result = replicate num_sched (pos 0);
  current_min = negsuc 0;
}

-- A read of a vector is in range for the lists of `num_islands` elements that `create` gives and
-- the assignments keep; the default is not read.
abbrev pub at : List ℤ → ℕ → ℤ
at xs i = get_or xs i (pos 0)

-- The time after which island `i` has done its part of the work.
unfoldable pub island_cost : AlgoSimple → ℕ → ℤ
island_cost s i = wrap_int (
    at s.wgs_per_islands i *ℤ at s.current_work_potential_cost i
    +ℤ at s.work_in_progress_cost i
    +ℤ at s.current_work_reconf_cost i)

-- The body of the loop of calculate_total: the cost of an island with workgroups, if it is larger.
unfoldable pub raise_max : Bool → ℤ → ℤ → ℤ
raise_max has_wgs wgs_cost max =
    if has_wgs then if ltb_ℤ max wgs_cost then wgs_cost else max else max

-- The loop of calculate_total: `rounds` islands, from `i` on.
unfoldable pub max_cost : ℕ → ℕ → AlgoSimple → ℤ → ℤ
max_cost zero i s max = max
max_cost (suc rounds) i s max =
    max_cost rounds (i + 1) s
      (raise_max (ltb_ℤ (pos 0) (at s.wgs_per_islands i)) (island_cost s i) max)

unfoldable pub calculate_total : AlgoSimple → AlgoSimple
unfolding max_cost raise_max
calculate_total s =
    let max = max_cost s.num_islands 0 s (pos 0) in
    if ltb_ℤ max s.current_min || ltb_ℤ s.current_min (pos 0)
    then record s { current_min = max; result = s.wgs_per_islands }
    else s

-- The do-while loop of recursive_function: `rounds` rounds from `counter` on. `deeper` is the
-- recursive call for the next island.
unfoldable pub place_items : (ℕ → AlgoSimple → AlgoSimple) → ℕ → ℕ → ℕ → ℕ → AlgoSimple → AlgoSimple
place_items deeper zero counter num_items start_index s = s
place_items deeper (suc rounds) counter num_items start_index s =
    place_items deeper rounds (counter + 1) num_items start_index (
      deeper counter (record s {
        wgs_per_islands = set s.wgs_per_islands start_index (pos (num_items - counter));
      }))

-- recursive_function (num_items, start_index), for items that are not negative and have a successor
-- that is an `int`; the first argument is m_num_islands - start_index,
-- so that `start_index == m_num_islands` is its being 0.
unfoldable pub recursive_function : ℕ → ℕ → ℕ → AlgoSimple → AlgoSimple
unfolding calculate_total place_items
recursive_function zero num_items start_index s = if num_items == 0 then calculate_total s else s
recursive_function (suc left) num_items start_index s =
    elim (eqb_ℤ (at s.wgs_per_islands start_index) unsuitable_island) [
      | true ↦ recursive_function left num_items (start_index + 1) s
      | false ↦
          place_items (λ counter. recursive_function left counter (start_index + 1)) (num_items + 1)
            0 num_items start_index s
    ]

-- recursive_function where `num_items`, the `int` `items`, is negative: its loop has one round.
unfoldable pub recursive_negative : ℕ → ℤ → ℕ → AlgoSimple → AlgoSimple
unfolding recursive_function
recursive_negative zero items start_index s = s
recursive_negative (suc left) items start_index s =
    elim (eqb_ℤ (at s.wgs_per_islands start_index) unsuitable_island) [
      | true ↦ recursive_negative left items (start_index + 1) s
      | false ↦
          recursive_function left 0 (start_index + 1)
            (record s { wgs_per_islands = set s.wgs_per_islands start_index items })
    ]

-- recursive_function (num_items, 0), for any `int`
unfoldable pub search : ℤ → AlgoSimple → AlgoSimple
unfolding recursive_function recursive_negative
search (pos n) s = recursive_function s.num_islands n 0 s
search (negsuc n) s = recursive_negative s.num_islands (negsuc n) 0 s
