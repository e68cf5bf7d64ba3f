-- ===== src/FreeSchedulers.antt =====
-- FreeSchedulersManager of cpp/free_sched_mgr.h and cpp/free_sched_mgr.cc: the numbers of the
-- schedulers that have nothing to do, and the timer that offers them to the slicing algorithm.
pub mod Laws
mod Tests
use fpgaml.Common.{
  ℕ, zero, suc, ◌+◌, Bool, true, false, not, if◌then◌else◌, ltb, ◌==◌, Outcome, ok, fault, ◌>>=◌,
  ◌>>◌, assert,
}
use fpgaml.CircArray.{CircArray, create, get, pop_at, push_back, is_full, empty, occupancy}
use fpgaml.EvTimer.{LibEv, start_timer, stop_timer, is_active}

-- The first position from `i` on that holds `id`, with fuel for the rounds; `fault` without fuel.
-- The result is where to remove, or the occupancy.
unfoldable pub find_scheduler : ℕ → ℕ → ℕ → CircArray ℕ → Outcome ℕ
find_scheduler zero i id c = fault
find_scheduler (suc fuel) i id c = elim (ltb i (occupancy c)) [
  | false ↦ ok (occupancy c)
  | true ↦
      get c i >>= λ x. elim (x == id) [ true ↦ ok i | false ↦ find_scheduler fuel (i + 1) id c ]
]

-- The loop of remove_free_scheduler, which ends at the first hit.
unfoldable pub remove_first : ℕ → CircArray ℕ → Outcome (CircArray ℕ)
unfolding find_scheduler occupancy
remove_first id c = find_scheduler (suc (occupancy c)) 0 id c >>= λ i.
    if ltb i (occupancy c) then (pop_at c i >>= λ r. ok r.1) else ok c

module _ (ev : LibEv) where
  pub record FreeSchedulers : Type 0 where
    pub free_schedulers : CircArray ℕ
    pub free_sched_timer : ev.Timer

  -- FreeSchedulersManager (free_sc_size)
  unfoldable pub new_manager : ℕ → FreeSchedulers
  new_manager free_sc_size = record {
    free_schedulers = create 0 free_sc_size;
    free_sched_timer = ev.init;
  }

  unfoldable pub add_free_scheduler : ℕ → FreeSchedulers → Outcome FreeSchedulers
  unfolding start_timer is_active is_full
  add_free_scheduler id m =
      assert (not (is_full m.free_schedulers)) >> push_back m.free_schedulers id false >>= λ r.
      ok (record {
        free_schedulers = r.1;
        free_sched_timer =
            if not (is_active ev m.free_sched_timer)
            then start_timer ev m.free_sched_timer 0 1
            else m.free_sched_timer;
      })

  unfoldable pub remove_free_scheduler : ℕ → FreeSchedulers → Outcome FreeSchedulers
  unfolding stop_timer remove_first empty
  remove_free_scheduler id m = remove_first id m.free_schedulers >>= λ c. ok (record {
    free_schedulers = c;
    free_sched_timer = if empty c then stop_timer ev m.free_sched_timer else m.free_sched_timer;
  })
