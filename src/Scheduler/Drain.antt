-- ===== src/Scheduler/Drain.antt =====
-- A scheduler works off its queue: after one timer event for each range it is free again. An event
-- comes only from a timer that is active, which is not active any more then, unless it is started
-- again.
use fpgaml.Common.{
  ℕ, suc, ◌<◌, ◌≡◌, ◌∙◌, refl, ap, true, some, List, [], ◌∷◌, ◌++◌, length, All, Outcome, ok, ◌>>=◌,
  sym, none, Option, set, throw, assert_failed, fault, if◌then◌else◌, arith,
}
use mathlib.Core.Path.{subst}
use fpgaml.CircArray.Inv.{Holds}
use fpgaml.NdRange.{WorkGroupRange, NdRange}
use fpgaml.NdRange.Completion.{end_range}
use fpgaml.Objects.{Objects, load}
use fpgaml.EvTimer.{LibEv}
use fpgaml.FreeSchedulers.{FreeSchedulers}
use fpgaml.Scheduler.{Scheduler, on_timer}
use fpgaml.Scheduler.Laws.{Runs, on_timer_next, on_timer_last}

-- A range of an ndrange.
abbrev pub HasParent : WorkGroupRange → Type 0
HasParent w = (p : ℕ) × (w.parent ≡ some p)

-- The ndranges by their numbers, `none` for one that is deleted, and the objects.
abbrev pub Ndranges : Type 0
Ndranges = List (Option NdRange) × Objects

-- mark_as_finished: the parent of the range is told.
unfoldable pub mark_as_finished : WorkGroupRange → Ndranges → Outcome Ndranges
unfolding end_range
mark_as_finished w (store, o) = elim w.parent [
  | none ↦ assert_failed
  | some p ↦ load store p >>= λ r. end_range r o >>= λ (left, o'). ok (set store p left, o')
]

-- The parents of several ranges are told, one after the other.
unfoldable pub mark_all : List WorkGroupRange → Ndranges → Outcome Ndranges
mark_all [] nds = ok nds
mark_all (w ∷ ws) nds = mark_as_finished w nds >>= λ nds'. mark_all ws nds'

mark_none : (nds nds' : Ndranges) → mark_all [] nds ≡ ok nds' → nds ≡ nds'
unfolding mark_all
mark_none nds nds' e = cc

mark_all_inv :
    (w : WorkGroupRange) (ws : List WorkGroupRange) (nds nds' : Ndranges)
    → mark_all (w ∷ ws) nds ≡ ok nds'
    → (nds1 : Ndranges) × (mark_as_finished w nds ≡ ok nds1) × (mark_all ws nds1 ≡ ok nds')
unfolding mark_all
mark_all_inv w ws nds nds' e = by_result (mark_as_finished w nds) refl
  where
    by_result :
        (r : Outcome Ndranges)
        → mark_as_finished w nds ≡ r
        → (nds1 : Ndranges) × (mark_as_finished w nds ≡ ok nds1) × (mark_all ws nds1 ≡ ok nds')
    by_result (ok nds1) q = (nds1, q, ap (λ k. k >>= mark_all ws) (sym q) ∙ e)
    by_result (throw x) q = let z = ap (λ k. k >>= mark_all ws) q in cc
    by_result assert_failed q = let z = ap (λ k. k >>= mark_all ws) q in cc
    by_result fault q = let z = ap (λ k. k >>= mark_all ws) q in cc

module _ (ev : LibEv) where
  -- An event of the scheduler's timer, with what it does to the ndranges and the objects.
  unfoldable pub fire :
      ℕ
      → Scheduler ev
      → FreeSchedulers ev
      → Ndranges
      → Outcome (WorkGroupRange × Scheduler ev × FreeSchedulers ev × Ndranges)
  fire now s free nds =
      if ev.is_active s.timer
      then (on_timer ev now (record s { timer = ev.expire s.timer }) free >>= λ (w, s', free').
          mark_as_finished w nds >>= λ nds'. ok (w, s', free', nds'))
      else fault

  -- The timer fires at each of the times: the ranges that end, in order.
  unfoldable pub fire_all :
      List ℕ
      → Scheduler ev
      → FreeSchedulers ev
      → Ndranges
      → Outcome (List WorkGroupRange × Scheduler ev × FreeSchedulers ev × Ndranges)
  fire_all [] s free nds = ok ([], s, free, nds)
  fire_all (now ∷ times) s free nds = fire now s free nds >>= λ (w, s', free', nds').
      fire_all times s' free' nds' >>= λ (ws, s2, free2, nds2). ok (w ∷ ws, s2, free2, nds2)

  fire_all_end :
      (s : Scheduler ev) (free : FreeSchedulers ev) (nds : Ndranges)
      → fire_all [] s free nds ≡ ok ([], s, free, nds)
  unfolding fire_all
  fire_all_end s free nds = refl

  fire_step :
      (now : ℕ) (s s' : Scheduler ev) (f f' : FreeSchedulers ev) (w : WorkGroupRange)
      (nds nds' : Ndranges)
      → ev.is_active s.timer ≡ true
      → on_timer ev now (record s { timer = ev.expire s.timer }) f ≡ ok (w, s', f')
      → mark_as_finished w nds ≡ ok nds'
      → fire now s f nds ≡ ok (w, s', f', nds')
  unfolding fire
  fire_step now s s' f f' w nds nds' act e m = ground (arith, act, e, m)

  fire_all_step :
      (now : ℕ) (times : List ℕ) (s s' s2 : Scheduler ev) (f f' f2 : FreeSchedulers ev)
      (w : WorkGroupRange) (ws : List WorkGroupRange) (nds nds' nds2 : Ndranges)
      → fire now s f nds ≡ ok (w, s', f', nds')
      → fire_all times s' f' nds' ≡ ok (ws, s2, f2, nds2)
      → fire_all (now ∷ times) s f nds ≡ ok (w ∷ ws, s2, f2, nds2)
  unfolding fire_all
  fire_all_step now times s s' s2 f f' f2 w ws nds nds' nds2 e r = ground (arith, e, r)

  -- With as many events of its timer as it has ranges in its queue, at whatever times, a scheduler
  -- that runs ends all of them, in the order of their submission, and tells their ndranges, which can
  -- be told; the timer is active for each of the events. Then its queue is empty, it stands at the
  -- end of the list of free schedulers, which has room, and that list's timer runs.
  pub fire_all_lem :
      (times : List ℕ) (s : Scheduler ev) (f : FreeSchedulers ev) (w : WorkGroupRange)
      (ws : List WorkGroupRange) (nds nds' : Ndranges) {ids : List ℕ}
      → length times ≡ suc (length ws)
      → Runs ev s (w ∷ ws)
      → All HasParent (w ∷ ws)
      → mark_all (w ∷ ws) nds ≡ ok nds'
      → Holds f.free_schedulers ids
      → length ids < f.free_schedulers.capacity
      → (s' : Scheduler ev) × (f' : FreeSchedulers ev) × (fire_all times s f nds
          ≡ ok (w ∷ ws, s', f', nds'))
        × Runs ev s' []
        × Holds f'.free_schedulers (ids ++ (s.id ∷ []))
        × (ev.is_active f'.free_sched_timer ≡ true)
  fire_all_lem [] s f w ws nds nds' n r par tells hf room = absurd (omega arith)
  fire_all_lem (now ∷ times) s f w [] nds nds' {ids} n r ((p, e), par) tells hf room =
      let (nds1, m, m') = mark_all_inv w [] nds nds' tells in
      let (s', f', fired, runs, listed, active) =
        on_timer_last ev now p (record s { timer = ev.expire s.timer }) f r.queue e hf room in
      let none_left : times ≡ [] = empty_of times (omega (arith, n)) in
      (
        s',
        f',
        ap (λ ts. fire_all (now ∷ ts) s f nds) none_left
            ∙ fire_all_step now [] s s' s' f f' f' w [] nds nds1 nds'
                (fire_step now s s' f f' w nds nds1 (r.busy (λ q. cc)) fired m)
                (fire_all_end s' f' nds1 ∙ ap (λ k. ok ([], s', f', k)) (mark_none nds1 nds' m')),
        runs,
        listed,
        active,
      )
    where
      empty_of : (ts : List ℕ) → length ts ≡ 0 → ts ≡ []
      empty_of [] z = refl
      empty_of (t ∷ ts) z = absurd (omega arith)
  fire_all_lem (now ∷ times) s f w (v ∷ ws) nds nds' {ids} n r ((p, e), par) tells hf room =
      let (nds1, m, m') = mark_all_inv w (v ∷ ws) nds nds' tells in
      let (s1, fired, runs, _, same_id) =
        on_timer_next ev now p (record s { timer = ev.expire s.timer }) f r.queue e in
      let (s', f', rest, done, listed, active) =
        fire_all_lem times s1 f v ws nds1 nds' {ids = ids} (omega (arith, n)) runs par m' hf room in
      (
        s',
        f',
        fire_all_step now times s s1 s' f f f' w (v ∷ ws) nds nds1 nds'
            (fire_step now s s1 f f w nds nds1 (r.busy (λ q. cc)) fired m) rest,
        done,
        subst (λ k. Holds f'.free_schedulers (ids ++ (k ∷ []))) same_id listed,
        active,
      )
