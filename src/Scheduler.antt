-- ===== src/Scheduler.antt =====
-- The simulated Scheduler of cpp/scheduler.h, cpp/scheduler_common.cc and cpp/scheduler_emu.cc: a
-- queue of workgroup ranges for one island, and the timer that stands for their execution. Times are
-- in microseconds, so that a cost in milliseconds is multiplied by 1000 where the source divides it
-- to get seconds. The clock, `ev_now`, is the argument `now`.
pub mod Laws
pub mod Drain
mod Tests
use fpgaml.Common.{
  ℕ, ◌+◌, ◌-◌, ◌*◌, ◌/◌, ◌%◌, Bool, true, false, not, ◌&&◌, if◌then◌else◌, ltb, ◌==◌, Outcome, ok,
  throw, Exception, fault, assert_failed, ◌>>=◌, ◌>>◌, assert, size_max, u32_max, sub_u32, mul_u32,
  Option, none, some,
}
use fpgaml.CircArray.{CircArray, create, get, pop_front, push_back, empty, occupancy}
use fpgaml.NdRange.{WorkGroupRange, no_range}
use fpgaml.EvTimer.{LibEv, start_timer, is_active}
use fpgaml.FreeSchedulers.{FreeSchedulers, add_free_scheduler, remove_free_scheduler}

-- m_id: Board_ID is an `unsigned long long`, the others are `unsigned`.
unfoldable pub scheduler_id : ℕ → ℕ → ℕ → ℕ
scheduler_id board_id fpga_id pr_id =
    (board_id * 16 + mul_u32 (sub_u32 fpga_id 1) 4 + pr_id) % size_max % u32_max

module _ (ev : LibEv) where
  pub record Scheduler : Type 0 where
    pub in_queue : CircArray WorkGroupRange
    pub id : ℕ
    pub timer : ev.Timer
    pub mock_would_need_reconf : Bool
    pub end_time : ℕ
    pub mem_base : ℕ
    pub is_local : Bool

  -- Scheduler (Board_ID, FPGA_ID, PR_ID, polling_interval). The addresses that PR_Slot sets to 0 are
  -- left out. m_mock_would_need_reconf and m_end_time are not set by the constructor: they hold
  -- false, which Global sets at once, and 0.
  unfoldable pub new_scheduler : ℕ → ℕ → ℕ → Outcome Scheduler
  unfolding scheduler_id
  new_scheduler board_id fpga_id pr_id =
      if ltb 3 board_id
      then throw Exception.runtime_error
      else ok (record {
        in_queue = create no_range 100;
        id = scheduler_id board_id fpga_id pr_id;
        timer = ev.init;
        mock_would_need_reconf = false;
        end_time = 0;
        mem_base = board_id * 32;
        is_local = (board_id == 0) && (fpga_id == 1);
      })

  -- In whole seconds: the difference is converted to an `unsigned`.
  unfoldable pub get_remaining_time : ℕ → Scheduler → ℕ
  get_remaining_time now s =
      if ltb s.end_time now then 0 else (s.end_time - now) / 1_000_000 % u32_max

  unfoldable pub would_need_reconf : Scheduler → Bool
  would_need_reconf s = s.mock_would_need_reconf

  -- submit_wgr up to the call of the free schedulers' manager. What push_back returns is dropped.
  unfoldable pub enqueue_wgr : ℕ → WorkGroupRange → Scheduler → Outcome Scheduler
  unfolding is_active start_timer occupancy
  enqueue_wgr now wgr s = push_back s.in_queue wgr false >>= λ r. ok (
      if not (is_active ev s.timer) && ltb (occupancy r.1) 2
      then record s {
        in_queue = r.1;
        end_time = now + wgr.execution_cost * 1000;
        timer = start_timer ev s.timer (wgr.execution_cost * 1000) 0;
      }
      else record s { in_queue = r.1 })

  -- submit_wgr. It is declared to return a code, has no return statement, which is undefined, and its
  -- callers use no code: it is taken to return to them.
  unfoldable pub submit_wgr :
      ℕ → WorkGroupRange → Scheduler → FreeSchedulers ev → Outcome (Scheduler × FreeSchedulers ev)
  unfolding enqueue_wgr
  submit_wgr now wgr s free = do
    s' ← enqueue_wgr now wgr s
    free' ← remove_free_scheduler ev s.id free
    ok (s', free')

  -- on_timer: the range that has finished, whose parent is told, and what follows. The assertion is
  -- mark_as_finished's, whose effect on the parent is in Scheduler/Drain, after this call: the two
  -- share nothing.
  unfoldable pub on_timer :
      ℕ → Scheduler → FreeSchedulers ev → Outcome (WorkGroupRange × Scheduler × FreeSchedulers ev)
  unfolding start_timer empty
  on_timer now s free = pop_front s.in_queue >>= λ r.
      assert (elim r.0.parent [ none ↦ false | some p ↦ true ])
      >> (if empty r.1
          then (add_free_scheduler ev s.id free >>= λ free'.
              ok (r.0, record s { in_queue = r.1; end_time = 0 }, free'))
          else (get r.1 0 >>= λ wgr_new. ok (
            r.0,
            record s {
              in_queue = r.1;
              end_time = now + wgr_new.execution_cost * 1000;
              timer = start_timer ev s.timer (wgr_new.execution_cost * 1000) 0;
            },
            free,
          )))
