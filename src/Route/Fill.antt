-- ===== src/Route/Fill.antt =====
-- The loop of route_ndrange that fills the vectors.
use fpgaml.Common.{
  ℕ, zero, suc, ◌+◌, ◌-◌, ◌<◌, ◌≡◌, ◌∙◌, refl, sym, ap, length, set, get_elem?, some, ok, arith,
  get_elem?-set_self, get_elem?-set_ne, length-set, get_elem?-lt, Bool-cases, inl, inr,
}
use fpgaml.Common.Int.{ℤ, pos, to_int}
use fpgaml.Common.Names.{Name}
use fpgaml.AlgoSimple.{AlgoSimple}
use fpgaml.EvTimer.{LibEv}
use fpgaml.Scheduler.{would_need_reconf, get_remaining_time}
use fpgaml.Tracker.{
  Tracker, get_wg_cost_on_island, get_reconf_cost_on_island, check_resource_string,
}
use fpgaml.World.{World}
use fpgaml.Route.{fill_island, fill_vectors}

-- The tracker knows the costs of the kernel on the first `n` islands, or takes its default.
abbrev pub HasCosts : Tracker → Name → ℕ → Type 0
HasCosts t kernel n =
    (i : ℕ)
    → i < n
    → ((c : ℤ) × (get_wg_cost_on_island t i kernel ≡ ok c))
      × ((c : ℤ) × (get_reconf_cost_on_island t i kernel ≡ ok c))

module _ (ev : LibEv) where
  -- What the filling keeps of the object.
  abbrev pub Keeps : AlgoSimple → AlgoSimple → Type 0
  Keeps s s' =
      (s'.num_islands ≡ s.num_islands)
      × (s'.current_min ≡ s.current_min)
      × (length s'.wgs_per_islands ≡ length s.wgs_per_islands)

  fill_island_lem :
      (kernel resource : Name) (now : ℕ) (w : World ev) (i : ℕ) (s : AlgoSimple)
      → i < length w.schedulers
      → HasCosts w.tracker kernel (length w.schedulers)
      → (s' : AlgoSimple) × (fill_island ev kernel resource now w i s ≡ ok s')
        × Keeps s s'
        × (s'.wgs_per_islands ≡ set s.wgs_per_islands i (pos 0))
  unfolding fill_island check_resource_string would_need_reconf
  fill_island_lem kernel resource now w i s lt costs =
      let (sc, at) = get_elem?-lt w.schedulers i lt in
      let ((c, e), (d, f)) = costs i lt in
      elim (Bool-cases sc.mock_would_need_reconf) [
        | inl b ↦ (
          record s {
            wgs_per_islands = set s.wgs_per_islands i (pos 0);
            work_in_progress_cost =
                set s.work_in_progress_cost i (to_int (get_remaining_time ev now sc));
            current_work_potential_cost = set s.current_work_potential_cost i c;
            current_work_reconf_cost = set s.current_work_reconf_cost i d;
            result = set s.result i (pos 0);
          },
          ground (arith, at, e, f, b),
          (refl, refl, length-set s.wgs_per_islands i (pos 0)),
          refl,
        )
        | inr b ↦ (
          record s {
            wgs_per_islands = set s.wgs_per_islands i (pos 0);
            work_in_progress_cost =
                set s.work_in_progress_cost i (to_int (get_remaining_time ev now sc));
            current_work_potential_cost = set s.current_work_potential_cost i c;
            current_work_reconf_cost = set s.current_work_reconf_cost i (pos 0);
            result = set s.result i (pos 0);
          },
          ground (arith, at, e, f, b),
          (refl, refl, length-set s.wgs_per_islands i (pos 0)),
          refl,
        )
      ]

  fill_vectors_step :
      (kernel resource : Name) (now : ℕ) (w : World ev) (rounds i : ℕ) (s s' : AlgoSimple)
      → fill_island ev kernel resource now w i s ≡ ok s'
      → fill_vectors ev kernel resource now w (suc rounds) i s
        ≡ fill_vectors ev kernel resource now w rounds (i + 1) s'
  unfolding fill_vectors
  fill_vectors_step kernel resource now w rounds i s s' e = ground (arith, e)

  fill_vectors_end :
      (kernel resource : Name) (now : ℕ) (w : World ev) (i : ℕ) (s : AlgoSimple)
      → fill_vectors ev kernel resource now w 0 i s ≡ ok s
  unfolding fill_vectors
  fill_vectors_end kernel resource now w i s = refl

  -- The loop returns, and leaves the first island suitable, with no workgroups, if it was so.
  fill_vectors_later :
      (kernel resource : Name) (now : ℕ) (w : World ev) (rounds i : ℕ) (s : AlgoSimple)
      → i + rounds ≡ length w.schedulers
      → HasCosts w.tracker kernel (length w.schedulers)
      → 0 < i
      → get_elem? s.wgs_per_islands 0 ≡ some (pos 0)
      → (s' : AlgoSimple) × (fill_vectors ev kernel resource now w rounds i s ≡ ok s')
        × Keeps s s'
        × (get_elem? s'.wgs_per_islands 0 ≡ some (pos 0))
  fill_vectors_later kernel resource now w zero i s len costs later first =
      (s, fill_vectors_end kernel resource now w i s, (refl, refl, refl), first)
  fill_vectors_later kernel resource now w (suc rounds) i s len costs later first =
      let (s1, e1, (k1, k2, k3), q) =
        fill_island_lem kernel resource now w i s (omega arith) costs in
      let first1 : get_elem? s1.wgs_per_islands 0 ≡ some (pos 0) =
        ap (λ l. get_elem? l 0) q
        ∙ get_elem?-set_ne s.wgs_per_islands i 0 (pos 0) (λ z. omega (arith, z))
        ∙ first in
      let (s', e, (l1, l2, l3), at) =
        fill_vectors_later kernel resource now w rounds (i + 1) s1 (omega arith) costs (omega arith)
          first1 in
      (
        s',
        fill_vectors_step kernel resource now w rounds i s s1 e1 ∙ e,
        (l1 ∙ k1, l2 ∙ k2, l3 ∙ k3),
        at,
      )

  -- From the first island on, with one at least, the loop returns and leaves the first suitable.
  pub fill_vectors_lem :
      (kernel resource : Name) (now : ℕ) (w : World ev) (s : AlgoSimple)
      → 0 < length w.schedulers
      → length s.wgs_per_islands ≡ length w.schedulers
      → HasCosts w.tracker kernel (length w.schedulers)
      → (s' : AlgoSimple) × (fill_vectors ev kernel resource now w (length w.schedulers) 0 s
          ≡ ok s')
        × Keeps s s'
        × (get_elem? s'.wgs_per_islands 0 ≡ some (pos 0))
  fill_vectors_lem kernel resource now w s some_island len costs =
      let (s1, e1, (k1, k2, k3), q) = fill_island_lem kernel resource now w 0 s some_island costs in
      let first1 : get_elem? s1.wgs_per_islands 0 ≡ some (pos 0) =
        ap (λ l. get_elem? l 0) q ∙ get_elem?-set_self s.wgs_per_islands 0 (pos 0) (omega arith) in
      let rounds = length w.schedulers - 1 in
      let (s', e, (l1, l2, l3), at) =
        fill_vectors_later kernel resource now w rounds 1 s1 (omega arith) costs (omega arith)
          first1 in
      let count : suc rounds ≡ length w.schedulers = omega arith in
      (
        s',
        ap (λ n. fill_vectors ev kernel resource now w n 0 s) (sym count)
            ∙ fill_vectors_step kernel resource now w rounds 0 s s1 e1
            ∙ e,
        (l1 ∙ k1, l2 ∙ k2, l3 ∙ k3),
        at,
      )
