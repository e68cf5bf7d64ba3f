-- ===== src/Route/Submit.antt =====
-- The loop of route_ndrange that submits gives out the whole ndrange.
use mathlib.Core.Path.{subst, subst₂}
use fpgaml.Common.{
  ℕ, zero, suc, ◌+◌, ◌-◌, ◌<◌, ◌≤◌, ◌≡◌, ◌∙◌, ◌^◌, refl, sym, ap, Bool, true, false, ◌||◌, some,
  List, [], ◌∷◌, ◌++◌, length, set, get_elem?, All, inl, inr, ok, arith, get_elem?-set_self,
  length-set,
}
use fpgaml.Common.Int.{ℤ, pos, eqb_ℤ}
use fpgaml.CircArray.Inv.{Holds}
use fpgaml.NdRange.{NdRange, carve_wgs, set_execution_cost, WorkGroupRange}
use fpgaml.NdRange.Carve.{IsValid, carve_wgs_lem}
use fpgaml.AlgoSimple.{AlgoSimple, unsuitable_island, at}
use fpgaml.AlgoSimple.Distributions.{IsDistribution}
use fpgaml.EvTimer.{LibEv}
use fpgaml.FreeSchedulers.Laws.{erase}
use fpgaml.Scheduler.{Scheduler}
use fpgaml.Scheduler.Laws.{Runs, submit_wgr_lem}
use fpgaml.World.{World}
use fpgaml.Common.Middle.{
  get_middle, or_middle, set_middle, length-middle, append_shift, length-snoc,
}
use fpgaml.Route.Shares.{Gets, Shares, all_served, passed, served, share_cost}
use fpgaml.Route.{submit_island, submit_all, to_size}

module _ (ev : LibEv) where
  -- A scheduler that takes ranges, with room for one more.
  abbrev pub HasRoom : Scheduler ev → Type 0
  HasRoom s = (ws : List WorkGroupRange) × Runs ev s ws × (length ws < s.in_queue.capacity)

  -- One submission: the ndrange has handed out the workgroups, the scheduler is replaced.
  submit_island_lem :
      (now nd k : ℕ) (cost : ℤ) (w : World ev) (r : NdRange) (sc : Scheduler ev)
      (pre scs : List (Scheduler ev)) {ids : List ℕ}
      → w.schedulers ≡ pre ++ (sc ∷ scs)
      → get_elem? w.store nd ≡ some r
      → nd < length w.store
      → HasRoom sc
      → Holds w.free.free_schedulers ids
      → IsValid r
      → 0 < r.total_size
      → k ≤ r.total_size - r.next_wgr
      → r.wgrs_in_the_wild + 1 < 2 ^ 32
      → (w' : World ev) × (sc' : Scheduler ev) × (r' : NdRange) × (ids' : List ℕ) × (submit_island
            ev now nd
            (length pre)
            (pos k)
            cost
            w
          ≡ ok w')
        × (w'.schedulers ≡ (pre ++ (sc' ∷ [])) ++ scs)
        × (get_elem? w'.store nd ≡ some r')
        × (length w'.store ≡ length w.store)
        × Holds w'.free.free_schedulers ids'
        × IsValid r'
        × (r'.total_size ≡ r.total_size)
        × (r'.next_wgr ≡ r.next_wgr + k)
        × (r'.wgrs_in_the_wild ≡ r.wgrs_in_the_wild + 1)
        × Gets ev nd r.next_wgr k cost sc sc'
  unfolding submit_island set_execution_cost
  submit_island_lem now nd k cost w r sc pre scs {ids} es er lt (ws, run, room) hf v pos_ le wild =
      let c = carve_wgs_lem nd r k v pos_ (omega (arith, v.fits)) wild in
      let wgr = set_execution_cost (carve_wgs nd r k).0 (to_size cost) in
      let (sc', f', e, runs', id', _, hf') = submit_wgr_lem ev now wgr sc w.free run room hf in
      let r' = (carve_wgs nd r k).1 in
      let at_sc : get_elem? w.schedulers (length pre) ≡ some sc =
        ap (λ l. get_elem? l (length pre)) es ∙ get_middle pre scs sc in
      let in_range : length pre < length w.schedulers =
        subst (λ l. length pre < length l) (sym es) (length-middle pre scs sc) in
      (
        record w {
          store = set w.store nd r';
          schedulers = set w.schedulers (length pre) sc';
          free = f';
        },
        sc',
        r',
        erase sc.id ids,
        ground (arith, er, at_sc, in_range, lt, e),
        ap (λ l. set l (length pre) sc') es ∙ set_middle pre scs sc sc',
        get_elem?-set_self w.store nd r' lt,
        length-set w.store nd r',
        hf',
        c.6,
        c.4,
        omega (arith, c),
        c.3,
        record {
          range = wgr;
          ranges = ws;
          before = run;
          after = runs';
          same_id = id';
          parent = c.5;
          starts = c.0;
          ends = omega (arith, c);
          costs = refl;
        },
      )

  submit_all_skip :
      (now nd rounds i : ℕ) (s : AlgoSimple) (w : World ev)
      → (eqb_ℤ (at s.result i) unsuitable_island || eqb_ℤ (at s.result i) (pos 0)) ≡ true
      → submit_all ev now nd s (suc rounds) i w ≡ submit_all ev now nd s rounds (i + 1) w
  unfolding submit_all
  submit_all_skip now nd rounds i s w h = ground (arith, h)

  submit_all_give :
      (now nd rounds i : ℕ) (s : AlgoSimple) (w w' : World ev)
      → (eqb_ℤ (at s.result i) unsuitable_island || eqb_ℤ (at s.result i) (pos 0)) ≡ false
      → submit_island ev now nd i (at s.result i) (share_cost s (at s.result i) i) w ≡ ok w'
      → submit_all ev now nd s (suc rounds) i w ≡ submit_all ev now nd s rounds (i + 1) w'
  unfolding submit_all
  submit_all_give now nd rounds i s w w' h e = ground (arith, h, e)

  submit_all_end :
      (now nd i : ℕ) (s : AlgoSimple) (w : World ev) → submit_all ev now nd s 0 i w ≡ ok w
  unfolding submit_all
  submit_all_end now nd i s w = refl

  abbrev skips : ℤ → Bool
  skips x = eqb_ℤ x unsuitable_island || eqb_ℤ x (pos 0)

  gives : (k : ℕ) → skips (pos (suc k)) ≡ false
  gives k = ground arith

  here_is :
      (s : AlgoSimple) (before vs : List ℤ) (pre : List (Scheduler ev)) (x : ℤ)
      → s.result ≡ before ++ (x ∷ vs)
      → length before ≡ length pre
      → at s.result (length pre) ≡ x
  here_is s before vs pre x sr lb =
      ap (λ l. at l (length pre)) sr
      ∙ ap (at (before ++ (x ∷ vs))) (sym lb)
      ∙ or_middle before vs x (pos 0)

  snocs :
      (before : List ℤ) (pre : List (Scheduler ev)) (x : ℤ) (sc : Scheduler ev)
      → length before ≡ length pre
      → length (before ++ (x ∷ [])) ≡ length (pre ++ (sc ∷ []))
  snocs before pre x sc e = omega (arith, length-snoc before x, length-snoc pre sc)

  snoc_next :
      (pre : List (Scheduler ev)) (sc : Scheduler ev) → length (pre ++ (sc ∷ [])) ≡ length pre + 1
  snoc_next pre sc = omega (arith, length-snoc pre sc)

  -- The loop returns, and hands out `n` workgroups more, where the result from the position on is a
  -- distribution of `n` workgroups and each scheduler from there on has room;
  -- each of them has its share.
  pub submit_all_lem :
      (now nd n : ℕ) (s : AlgoSimple) (m : List Bool) (w : World ev) (r : NdRange)
      (before vs : List ℤ) (pre scs : List (Scheduler ev)) {ids : List ℕ}
      → s.result ≡ before ++ vs
      → IsDistribution m n vs
      → length before ≡ length pre
      → length vs ≡ length scs
      → w.schedulers ≡ pre ++ scs
      → All HasRoom scs
      → get_elem? w.store nd ≡ some r
      → nd < length w.store
      → Holds w.free.free_schedulers ids
      → IsValid r
      → 0 < r.total_size
      → r.next_wgr + n ≡ r.total_size
      → r.wgrs_in_the_wild + length vs < 2 ^ 32
      → (w' : World ev) × (r' : NdRange) × (submit_all ev now nd s (length vs) (length pre) w
          ≡ ok w')
        × (get_elem? w'.store nd ≡ some r')
        × (r'.next_wgr ≡ r'.total_size)
        × (r'.total_size ≡ r.total_size)
        × ((ts : List (Scheduler ev)) × (w'.schedulers ≡ pre ++ ts)
            × Shares ev nd s (length pre) r.next_wgr vs scs ts)
  submit_all_lem now nd n s [] w r before [] pre [] sr d lb lv es rooms er lt hf v pos_ sum wild = (
    w,
    r,
    submit_all_end now nd (length pre) s w,
    er,
    omega (arith, d),
    refl,
    ([], es, all_served),
  )
  submit_all_lem now nd n s [] w r before [] pre (sc ∷ scs) sr d lb lv es rooms er lt hf v pos_ sum
        wild =
      absurd (omega arith)
  submit_all_lem now nd n s [] w r before (x ∷ vs) pre scs sr d lb lv es rooms er lt hf v pos_ sum
        wild =
      elim d [ ]
  submit_all_lem now nd n s (b ∷ m) w r before [] pre scs sr d lb lv es rooms er lt hf v pos_ sum
        wild =
      elim d [ ]
  submit_all_lem now nd n s (b ∷ m) w r before (x ∷ vs) pre [] sr d lb lv es rooms er lt hf v pos_
        sum wild =
      absurd (omega arith)
  submit_all_lem now nd n s (true ∷ m) w r before (x ∷ vs) pre (sc ∷ scs) {ids} sr (ex, d) lb lv es
        (room, rooms) er lt hf v pos_ sum wild =
      let here = here_is s before vs pre x sr lb in
      let (w', r', e, at', full, same, (ts, ets, shares)) =
        submit_all_lem now nd n s m w r (before ++ (x ∷ [])) vs (pre ++ (sc ∷ [])) scs {ids = ids}
          (sr ∙ append_shift before vs x) d (snocs before pre x sc lb) (omega arith)
          (es ∙ append_shift pre scs sc) rooms er lt hf v pos_ sum (omega arith) in
      (
        w',
        r',
        submit_all_skip now nd (length vs) (length pre) s w (ap skips (here ∙ ex))
            ∙ ap (λ i. submit_all ev now nd s (length vs) i w) (sym (length-snoc pre sc))
            ∙ e,
        at',
        full,
        same,
        (
          sc ∷ ts,
          ets ∙ sym (append_shift pre ts sc),
          passed (inl ex)
              (subst (λ i. Shares ev nd s i r.next_wgr vs scs ts) (snoc_next pre sc) shares),
        ),
      )
  submit_all_lem now nd n s (false ∷ m) w r before (x ∷ vs) pre (sc ∷ scs) {ids} sr
        (zero, le, ex, d) lb lv es (room, rooms) er lt hf v pos_ sum wild =
      let here = here_is s before vs pre x sr lb in
      let (w', r', e, at', full, same, (ts, ets, shares)) =
        submit_all_lem now nd (n - 0) s m w r (before ++ (x ∷ [])) vs (pre ++ (sc ∷ [])) scs
          {ids = ids} (sr ∙ append_shift before vs x) d (snocs before pre x sc lb) (omega arith)
          (es ∙ append_shift pre scs sc) rooms er lt hf v pos_ (omega arith) (omega arith) in
      (
        w',
        r',
        submit_all_skip now nd (length vs) (length pre) s w (ap skips (here ∙ ex))
            ∙ ap (λ i. submit_all ev now nd s (length vs) i w) (sym (length-snoc pre sc))
            ∙ e,
        at',
        full,
        same,
        (
          sc ∷ ts,
          ets ∙ sym (append_shift pre ts sc),
          passed (inr ex)
              (subst (λ i. Shares ev nd s i r.next_wgr vs scs ts) (snoc_next pre sc) shares),
        ),
      )
  submit_all_lem now nd n s (false ∷ m) w r before (x ∷ vs) pre (sc ∷ scs) {ids} sr
        (suc k, le, ex, d) lb lv es (room, rooms) er lt hf v pos_ sum wild =
      let here = here_is s before vs pre x sr lb in
      let cost = share_cost s (at s.result (length pre)) (length pre) in
      let (w1, sc', r1, ids1, e1, es1, er1, len1, hf1, v1, t1, n1, wild1, gets) =
        submit_island_lem now nd (suc k) cost w r sc pre scs {ids = ids} es er lt room hf v pos_
          (omega arith) (omega arith) in
      let (w', r', e, at', full, same, (ts, ets, shares)) =
        submit_all_lem now nd (n - suc k) s m w1 r1 (before ++ (x ∷ [])) vs (pre ++ (sc' ∷ [])) scs
          {ids = ids1} (sr ∙ append_shift before vs x) d (snocs before pre x sc' lb) (omega arith)
          es1 rooms er1 (omega arith) hf1 v1 (omega arith) (omega arith) (omega arith) in
      (
        w',
        r',
        submit_all_give now nd (length vs) (length pre) s w w1 (ap skips (here ∙ ex) ∙ gives k)
              (ap (λ y. submit_island ev now nd (length pre) y cost w) (here ∙ ex) ∙ e1)
            ∙ ap (λ i. submit_all ev now nd s (length vs) i w1) (sym (length-snoc pre sc'))
            ∙ e,
        at',
        full,
        same ∙ t1,
        (
          sc' ∷ ts,
          ets ∙ sym (append_shift pre ts sc'),
          served ex
              (subst (λ y. Gets ev nd r.next_wgr (suc k) (share_cost s y (length pre)) sc sc') here
                gets)
              (subst₂ (λ i from. Shares ev nd s i from vs scs ts) (snoc_next pre sc') n1 shares),
        ),
      )
