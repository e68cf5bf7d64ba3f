-- ===== src/Slicing/Give.antt =====
-- A round of the slicing algorithm that finds a scheduler gives it workgroups.
use Prim.Native.Nat.{min}
use fpgaml.Common.{
  ℕ, ◌+◌, ◌-◌, ◌%◌, ◌<◌, ◌^◌, ◌≡◌, ◌∙◌, sym, refl, inl, inr, false, if◌then◌else◌, some, List, [],
  ◌∷◌, ◌++◌, length, set, get_elem?, get_elem?-set_self, ok, ◌>>=◌, arith, Bool-cases, add_u32,
  mul_u32,
}
use mathlib.Core.Path.{subst}
use fpgaml.Common.Names.{Name}
use fpgaml.CircArray.{CircArray, push_back}
use fpgaml.CircArray.Inv.{Holds}
use fpgaml.CircArray.Pop.{pop_front_step}
use fpgaml.CircArray.Push.{push_back_appends}
use fpgaml.EvTimer.{LibEv}
use fpgaml.NdRange.{WorkGroupRange, NdRange, carve_wgs, has_more_wgs, set_execution_cost}
use fpgaml.NdRange.Carve.{IsValid, carve_wgs_lem}
use fpgaml.FreeSchedulers.{FreeSchedulers}
use fpgaml.FreeSchedulers.Laws.{erase}
use fpgaml.Scheduler.{Scheduler, submit_wgr}
use fpgaml.Scheduler.Laws.{Runs, submit_wgr_lem}
use fpgaml.World.{World}
use fpgaml.Slicing.{AlgoSlicing, on_free_schedulers, give_wgs, select_with_retry, offer_of}

-- The queue of ndranges after a round: one that has more workgroups goes to the back.
abbrev pub queue_after : NdRange → ℕ → List ℕ → List ℕ
queue_after r n ns = if has_more_wgs r then ns ++ (n ∷ []) else ns

module _ (ev : LibEv) where
  -- What a round has done to the world `w`, in which the ndrange `n` was `r` and the scheduler `idx`
  -- was `sc`, which ran `ws`: the ndrange has handed out the workgroups, the scheduler has one more
  -- range to run, whose end stands in `size_x`, and the first entry of its number is off the list.
  pub record HasGiven (n idx wgs wg_cost reconf_cost : ℕ) (r : NdRange) (sc : Scheduler ev)
      (ws : List WorkGroupRange) (ids ns : List ℕ) (a' : AlgoSlicing) (w' : World ev) : Type 0 where
    pub ndrange : NdRange
    pub scheduler : Scheduler ev
    pub range : WorkGroupRange
    pub stored : get_elem? w'.store n ≡ some ndrange
    pub handed_out : ndrange.next_wgr ≡ r.next_wgr + min wgs (r.total_size - r.next_wgr)
    pub in_the_wild : ndrange.wgrs_in_the_wild ≡ r.wgrs_in_the_wild + 1
    pub range_start : range.start_x ≡ r.next_wgr
    pub range_end : range.size_x ≡ ndrange.next_wgr
    pub range_cost : range.execution_cost ≡ add_u32 (mul_u32 range.total_size wg_cost) reconf_cost
    pub range_parent : range.parent ≡ some n
    pub scheduled : get_elem? w'.schedulers idx ≡ some scheduler
    pub runs : Runs ev scheduler (ws ++ (range ∷ []))
    pub free : Holds w'.free.free_schedulers (erase sc.id ids)
    pub queue : Holds a'.ndranges (queue_after ndrange n ns)

  give_steps :
      (now n idx wgs wg_cost reconf_cost : ℕ) (a : AlgoSlicing) (w : World ev) (r : NdRange)
      (sc sc' : Scheduler ev) (f' : FreeSchedulers ev)
      → get_elem? w.store n ≡ some r
      → n < length w.store
      → get_elem? w.schedulers idx ≡ some sc
      → idx < length w.schedulers
      → submit_wgr ev now
          (set_execution_cost
            (carve_wgs n r wgs).0
            (add_u32 (mul_u32 (carve_wgs n r wgs).0.total_size wg_cost) reconf_cost))
          sc
          w.free
        ≡ ok (sc', f')
      → let w' : World ev = record w {
        store = set w.store n (carve_wgs n r wgs).1;
        schedulers = set w.schedulers idx sc';
        free = f';
      } in
        give_wgs ev now n (idx, wgs, wg_cost, reconf_cost) a w ≡ (
          if has_more_wgs (carve_wgs n r wgs).1
          then (push_back a.ndranges n false >>= λ q. ok (record a { ndranges = q.1 }, w'))
          else ok (a, w'))
  unfolding give_wgs
  give_steps now n idx wgs wg_cost reconf_cost a w r sc sc' f' er lr es ls e =
      ground (arith, er, lr, es, ls, e)

  -- give_wgs on an ndrange that is valid and not empty, and a scheduler with room in its queue.
  give_wgs_lem :
      (now n idx wgs wg_cost reconf_cost : ℕ) (a : AlgoSlicing) (w : World ev) (r : NdRange)
      (sc : Scheduler ev) (ws : List WorkGroupRange) {ns ids : List ℕ}
      → Holds a.ndranges ns
      → length ns < a.ndranges.capacity
      → Holds w.free.free_schedulers ids
      → get_elem? w.store n ≡ some r
      → n < length w.store
      → get_elem? w.schedulers idx ≡ some sc
      → idx < length w.schedulers
      → Runs ev sc ws
      → length ws < sc.in_queue.capacity
      → IsValid r
      → 0 < r.total_size
      → wgs < 2 ^ 32
      → r.wgrs_in_the_wild + 1 < 2 ^ 32
      → (a' : AlgoSlicing) × (w' : World ev) × (give_wgs ev now n
            (idx, wgs, wg_cost, reconf_cost)
            a
            w
          ≡ ok (a', w'))
        × HasGiven n idx wgs wg_cost reconf_cost r sc ws ids ns a' w'
  unfolding set_execution_cost
  give_wgs_lem now n idx wgs wg_cost reconf_cost a w r sc ws {ns} {ids} ha spare hf er lr es ls runs
        room v pos_ small wild =
      let carved = carve_wgs_lem n r wgs v pos_ small wild in
      let r' = (carve_wgs n r wgs).1 in
      let cost = add_u32 (mul_u32 (carve_wgs n r wgs).0.total_size wg_cost) reconf_cost in
      let wgr = set_execution_cost (carve_wgs n r wgs).0 cost in
      let (sc', f', e, runs', _, _, hf') = submit_wgr_lem ev now wgr sc w.free runs room hf in
      let w' : World ev = record w {
        store = set w.store n r';
        schedulers = set w.schedulers idx sc';
        free = f';
      } in
      let steps = give_steps now n idx wgs wg_cost reconf_cost a w r sc sc' f' er lr es ls e in
      let (c, pushed, hc, _) = push_back_appends n false ha spare in
      let given : (a' : AlgoSlicing)
          → Holds a'.ndranges (queue_after r' n ns)
          → HasGiven n idx wgs wg_cost reconf_cost r sc ws ids ns a' w' =
        λ a' q. record {
          ndrange = r';
          scheduler = sc';
          range = wgr;
          stored = get_elem?-set_self w.store n r' lr;
          handed_out = carved.2;
          in_the_wild = carved.3;
          range_start = carved.0;
          range_end = carved.1;
          range_cost = refl;
          range_parent = carved.5;
          scheduled = get_elem?-set_self w.schedulers idx sc' ls;
          runs = runs';
          free = hf';
          queue = q;
        } in
      elim (Bool-cases (has_more_wgs r')) [
        | inl more ↦ (
          record a { ndranges = c },
          w',
          steps ∙ ground (arith, more, pushed),
          given (record a { ndranges = c })
              (subst (λ b. Holds c (if b then ns ++ (n ∷ []) else ns)) (sym more) hc),
        )
        | inr none_left ↦ (
          a,
          w',
          steps ∙ ground (arith, none_left),
          given a
              (subst (λ b. Holds a.ndranges (if b then ns ++ (n ∷ []) else ns)) (sym none_left) ha),
        )
      ]

  -- Where the selection chooses a free scheduler with room in its queue for the ndrange at the front,
  -- which is valid and not empty, and the call of submit_wgr, which lacks its return statement,
  -- returns, the round succeeds: the ndrange hands out the workgroups that were chosen, or what is
  -- left, in a range from the first of them to the end of the last, of the cost of its total size and
  -- a reconfiguration, which the scheduler gets to run; the first entry of the scheduler's number is
  -- off the list of free ones, and the ndrange goes to the back of the queue if it has more
  -- workgroups, and is off it if not.
  pub on_free_schedulers-give_wgs :
      (names : NdRange → Name × Name) (now n idx wgs wg_cost reconf_cost : ℕ) (a : AlgoSlicing)
      (w : World ev) (r : NdRange) (sc : Scheduler ev) (ws : List WorkGroupRange) {ns ids : List ℕ}
      → Holds a.ndranges (n ∷ ns)
      → Holds w.free.free_schedulers ids
      → 0 < length ids
      → get_elem? w.store n ≡ some r
      → n < length w.store
      → get_elem? w.schedulers idx ≡ some sc
      → idx < length w.schedulers
      → Runs ev sc ws
      → length ws < sc.in_queue.capacity
      → IsValid r
      → 0 < r.total_size
      → wgs < 2 ^ 32
      → r.wgrs_in_the_wild + 1 < 2 ^ 32
      → ((c : CircArray ℕ)
          → select_with_retry
              (offer_of ev w.tracker w.schedulers (names r).0 (names r).1)
              (record a { ndranges = c })
              w.free.free_schedulers
            ≡ ok (some (idx, wgs, wg_cost, reconf_cost)))
      → (a' : AlgoSlicing) × (w' : World ev) × (on_free_schedulers ev names now a w ≡ ok (a', w'))
        × HasGiven n idx wgs wg_cost reconf_cost r sc ws ids ns a' w'
  unfolding on_free_schedulers
  on_free_schedulers-give_wgs names now n idx wgs wg_cost reconf_cost a w r sc ws {ns} {ids} h hf
        some_free er lr es ls runs room v pos_ small wild chosen =
      let (e, h') = pop_front_step h in
      let c1 = record a.ndranges {
        size = a.ndranges.size - 1;
        start = (a.ndranges.start + 1) % a.ndranges.capacity;
      } in
      let spare : length ns < c1.capacity = omega (arith, h.len, h.fits) in
      let (a', w', gives, given) =
        give_wgs_lem now n idx wgs wg_cost reconf_cost (record a { ndranges = c1 }) w r sc ws
          {ns = ns} {ids = ids} h' spare hf er lr es ls runs room v pos_ small wild in
      let ch = chosen c1 in (a', w', ground (arith, e, er, ch, gives, h.len, hf.len), given)
