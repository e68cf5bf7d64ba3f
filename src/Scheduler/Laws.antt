-- ===== src/Scheduler/Laws.antt =====
-- The scheduler as a state machine: idle with an empty queue, or running the timer for the range at
-- the head of its queue.
use fpgaml.Common.{
  ℕ, ◌+◌, ◌-◌, ◌*◌, ◌%◌, ◌<◌, ◌≡◌, ◌∙◌, sym, ap, refl, true, false, List, [], ◌∷◌, ◌++◌, length,
  arith, if◌then◌else◌, not, ◌&&◌, ltb, ok, some, ◌>>=◌, ◌≢◌,
}
use mathlib.Core.Path.{subst}
use fpgaml.CircArray.{CircArray, success, push_back}
use fpgaml.CircArray.Inv.{Holds}
use fpgaml.CircArray.Pop.{pop_front_step}
use fpgaml.CircArray.Push.{push_back_appends, push_back_refused}
use fpgaml.CircArray.Index.{get_refines}
use fpgaml.NdRange.{WorkGroupRange}
use fpgaml.EvTimer.{LibEv}
use fpgaml.FreeSchedulers.{FreeSchedulers}
use fpgaml.FreeSchedulers.Laws.{erase, remove_free_scheduler_lem, add_free_scheduler_lem}
use fpgaml.Scheduler.{Scheduler, enqueue_wgr, submit_wgr, on_timer}

module _ (ev : LibEv) where
  -- `ws` are the ranges in the queue, the running one first; the timer runs if there are any.
  pub record Runs (s : Scheduler ev) (ws : List WorkGroupRange) : Type 0 where
    pub queue : Holds s.in_queue ws
    pub busy : ws ≢ [] → ev.is_active s.timer ≡ true

  enqueue_start :
      (now : ℕ) (w : WorkGroupRange) (s : Scheduler ev) (c : CircArray WorkGroupRange)
      → push_back s.in_queue w false ≡ ok (success, c)
      → (s' : Scheduler ev) × (enqueue_wgr ev now w s ≡ ok s')
        × (s'.in_queue ≡ c)
        × (s'.id ≡ s.id)
        × (ev.is_active s.timer ≡ true → ev.is_active s'.timer ≡ true)
        × (c.size < 2 → ev.is_active s'.timer ≡ true)
        × (c.size ≡ 1 → ev.is_active s.timer ≡ false → s'.end_time ≡ now + w.execution_cost * 1000)
  unfolding enqueue_wgr
  enqueue_start now w s c e = (
    if not (ev.is_active s.timer) && ltb c.size 2
        then record s {
          in_queue = c;
          end_time = now + w.execution_cost * 1000;
          timer = ev.start s.timer (w.execution_cost * 1000) 0;
        }
        else record s { in_queue = c },
    rw (e, ◌>>=◌),
    ground arith,
    ground arith,
    λ h. ground arith,
    λ h. ground (arith, h, ev.is_active-start s.timer (w.execution_cost * 1000) 0),
    λ h k. ground (arith, h, k),
  )

  -- submit_wgr on a queue with room, which lacks its return statement and is taken to return, appends
  -- the range, has the timer run, and takes the first entry of the scheduler's number off the list of
  -- free ones.
  pub submit_wgr_lem :
      (now : ℕ) (w : WorkGroupRange) (s : Scheduler ev) (f : FreeSchedulers ev)
      {ws : List WorkGroupRange} {ids : List ℕ}
      → Runs s ws
      → length ws < s.in_queue.capacity
      → Holds f.free_schedulers ids
      → (s' : Scheduler ev) × (f' : FreeSchedulers ev) × (submit_wgr ev now w s f ≡ ok (s', f'))
        × Runs s' (ws ++ (w ∷ []))
        × (s'.id ≡ s.id)
        × (s'.in_queue.capacity ≡ s.in_queue.capacity)
        × Holds f'.free_schedulers (erase s.id ids)
  unfolding submit_wgr
  submit_wgr_lem now w s f {ws} {ids} r room h =
      let (c, e, h', n) = push_back_appends w false r.queue room in
      let (s', q, qc, qi, keep, started, _) = enqueue_start now w s c e in
      let (f', g, h'', _, _) = remove_free_scheduler_lem ev s.id f h in
      (
        s',
        f',
        ground (arith, q, g),
        record {
          queue = subst (λ k. Holds k (ws ++ (w ∷ []))) (sym qc) h';
          busy = λ _. running s' ws r.busy h' keep started;
        },
        qi,
        ap (λ k. k.capacity) qc ∙ n,
        h'',
      )
    where
      running :
          (s' : Scheduler ev) {c : CircArray WorkGroupRange} (vs : List WorkGroupRange)
          → (vs ≢ [] → ev.is_active s.timer ≡ true)
          → Holds c (vs ++ (w ∷ []))
          → (ev.is_active s.timer ≡ true → ev.is_active s'.timer ≡ true)
          → (c.size < 2 → ev.is_active s'.timer ≡ true)
          → ev.is_active s'.timer ≡ true
      running s' [] b h' keep started = started (omega (arith, h'.len))
      running s' (v ∷ vs) b h' keep started = keep (b (λ e. cc))

  -- A range that is submitted to a full queue is lost: the call returns, the queue is as before.
  pub submit_wgr_full :
      (now : ℕ) (w : WorkGroupRange) (s : Scheduler ev) (f : FreeSchedulers ev)
      {ws : List WorkGroupRange} {ids : List ℕ}
      → Runs s ws
      → length ws ≡ s.in_queue.capacity
      → 1 < length ws
      → Holds f.free_schedulers ids
      → (f' : FreeSchedulers ev) × (submit_wgr ev now w s f ≡ ok (s, f'))
  unfolding submit_wgr enqueue_wgr
  submit_wgr_full now w s f r full big h =
      let (f', g, _, _, _) = remove_free_scheduler_lem ev s.id f h in
      let e = push_back_refused w r.queue full in (f', ground (arith, e, g, big, r.queue.len))

  -- on_timer takes the range that has finished off the queue; with another one behind it, the timer
  -- is started for that one's cost, and the scheduler keeps its number.
  pub on_timer_next :
      (now p : ℕ) (s : Scheduler ev) (f : FreeSchedulers ev) {w v : WorkGroupRange}
      {ws : List WorkGroupRange}
      → Holds s.in_queue (w ∷ v ∷ ws)
      → w.parent ≡ some p
      → (s' : Scheduler ev) × (on_timer ev now s f ≡ ok (w, s', f))
        × Runs s' (v ∷ ws)
        × (s'.end_time ≡ now + v.execution_cost * 1000)
        × (s'.id ≡ s.id)
  unfolding on_timer
  on_timer_next now p s f {w} {v} {ws} h par =
      let (e, h') = pop_front_step h in
      let g = get_refines 0 h' refl (omega arith) in
      (
        record s {
          in_queue = record s.in_queue {
            size = s.in_queue.size - 1;
            start = (s.in_queue.start + 1) % s.in_queue.capacity;
          };
          end_time = now + v.execution_cost * 1000;
          timer = ev.start s.timer (v.execution_cost * 1000) 0;
        },
        ground (arith, e, g, par, h.len),
        record { queue = h'; busy = λ _. ev.is_active-start s.timer (v.execution_cost * 1000) 0 },
        refl,
        refl,
      )

  -- With no range behind it and room in the list of free schedulers, on_timer empties the queue and
  -- lists the scheduler as free, whose timer then runs.
  pub on_timer_last :
      (now p : ℕ) (s : Scheduler ev) (f : FreeSchedulers ev) {w : WorkGroupRange} {ids : List ℕ}
      → Holds s.in_queue (w ∷ [])
      → w.parent ≡ some p
      → Holds f.free_schedulers ids
      → length ids < f.free_schedulers.capacity
      → (s' : Scheduler ev) × (f' : FreeSchedulers ev) × (on_timer ev now s f ≡ ok (w, s', f'))
        × Runs s' []
        × Holds f'.free_schedulers (ids ++ (s.id ∷ []))
        × (ev.is_active f'.free_sched_timer ≡ true)
  unfolding on_timer
  on_timer_last now p s f {w} {ids} h par hf room =
      let (e, h') = pop_front_step h in
      let (f', g, hf', act, _) = add_free_scheduler_lem ev s.id f hf room in
      (
        record s {
          in_queue = record s.in_queue {
            size = s.in_queue.size - 1;
            start = (s.in_queue.start + 1) % s.in_queue.capacity;
          };
          end_time = 0;
        },
        f',
        ground (arith, e, g, par, h.len),
        record { queue = h'; busy = λ ne. absurd (ne refl) },
        hf',
        act,
      )
