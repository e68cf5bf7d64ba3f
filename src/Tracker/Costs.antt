-- ===== src/Tracker/Costs.antt =====
-- The tracker has a cost for every kernel on every island.
use fpgaml.Common.{
  ℕ, suc, ◌<◌, ◌≡◌, ◌∙◌, refl, sym, ap, inl, inr, some, List, [], ◌∷◌, length, get_elem?-lt, ok,
  arith, Bool-cases, Option-cases,
}
use fpgaml.Common.Int.{ℤ, pos, to_int}
use fpgaml.Common.Names.{Name, same, find, put, insert_new, same→≡, find-put_self, find-put_ne}
use fpgaml.Bitstreams.{Bitstream}
use fpgaml.EvTimer.{LibEv}
use fpgaml.Scheduler.{Scheduler}
use fpgaml.Tracker.{
  costs_of, insert_costs, new_tracker, cost_on_island, get_wg_cost_on_island,
  get_reconf_cost_on_island,
}

-- Every list of costs has `n` elements.
abbrev HasLengths : ℕ → List (Name × List ℕ) → Type 0
HasLengths n mapping = (k : Name) (costs : List ℕ) → find k mapping ≡ some costs → length costs ≡ n

insert_new-HasLengths :
    (n : ℕ) (name : Name) (costs : List ℕ) (mapping : List (Name × List ℕ))
    → length costs ≡ n
    → HasLengths n mapping
    → HasLengths n (insert_new name costs mapping)
insert_new-HasLengths n name costs mapping l h k found e = elim (Option-cases (find name mapping)) [
  | inr (old, q) ↦ h k found (ground (arith, e, q))
  | inl q ↦
      let placed : find k (put name costs mapping) ≡ some found = ground (arith, e, q) in
      elim (Bool-cases (same k name)) [
        | inr ne ↦ h k found (sym (find-put_ne k name costs mapping ne) ∙ placed)
        | inl eq ↦
            let self =
              ap (λ j. find j (put name costs mapping)) (same→≡ k name eq)
              ∙ find-put_self name costs mapping in
            let same_costs : costs ≡ found = cc in sym (ap length same_costs) ∙ l
      ]
]

cost_on_island-HasLengths :
    (n i : ℕ) (mapping : List (Name × List ℕ)) (k : Name)
    → HasLengths n mapping
    → i < n
    → (c : ℤ) × (cost_on_island mapping i k ≡ ok c)
unfolding cost_on_island
cost_on_island-HasLengths n i mapping k h lt = elim (Option-cases (find k mapping)) [
  | inl e ↦ (pos 1000, ground (arith, e))
  | inr (costs, e) ↦
      let l = h k costs e in
      let (c, at) = get_elem?-lt costs i (omega (arith, l)) in (to_int c, ground (arith, e, at))
]

module _ (ev : LibEv) where
  length-costs_of :
      (b : Bitstream) (schedulers : List (Scheduler ev))
      → length (costs_of ev b schedulers) ≡ length schedulers
  unfolding costs_of
  length-costs_of b [] = refl
  length-costs_of b (s ∷ schedulers) = ap suc (length-costs_of b schedulers)

  insert_costs-HasLengths :
      (bitstreams : List (Name × Bitstream)) (schedulers : List (Scheduler ev))
      (mapping : List (Name × List ℕ))
      → HasLengths (length schedulers) mapping
      → HasLengths (length schedulers) (insert_costs ev bitstreams schedulers mapping)
  unfolding insert_costs
  insert_costs-HasLengths [] schedulers mapping h = h
  insert_costs-HasLengths ((name, b) ∷ rest) schedulers mapping h =
      insert_costs-HasLengths rest schedulers (insert_new name (costs_of ev b schedulers) mapping) (
        insert_new-HasLengths (length schedulers) name (costs_of ev b schedulers) mapping
          (length-costs_of b schedulers) h)

  -- On every island of its schedulers, a new tracker has both costs of every kernel, known or not.
  pub new_tracker_lem :
      (bitstreams : List (Name × Bitstream)) (schedulers : List (Scheduler ev)) (kernel : Name)
      (i : ℕ)
      → i < length schedulers
      → ((c : ℤ) × (get_wg_cost_on_island (new_tracker ev bitstreams schedulers) i kernel ≡ ok c))
        × ((c : ℤ) × (get_reconf_cost_on_island (new_tracker ev bitstreams schedulers) i kernel
              ≡ ok c))
  unfolding get_wg_cost_on_island get_reconf_cost_on_island new_tracker
  new_tracker_lem bitstreams schedulers kernel i lt = (
    cost_on_island-HasLengths (length schedulers) i (insert_costs ev bitstreams schedulers [])
        kernel
        (insert_costs-HasLengths bitstreams schedulers [] (λ k costs e. absurd (ground (arith, e))))
        lt,
    cost_on_island-HasLengths (length schedulers) i [] kernel
        (λ k costs e. absurd (ground (arith, e))) lt,
  )
