-- ===== src/AlgoSimple/Makespan.antt =====
-- The cost that calculate_total gives a distribution is its makespan: the largest cost of an island
-- that has workgroups, or 0 where none has.
use mathlib.Core.Path.{subst}
use fpgaml.Common.{
  ◌==◌, sym, ℕ, zero, suc, ◌+◌, ◌≤◌, ◌<◌, ◌≡◌, ◌⊎◌, inl, inr, ◌∙◌, refl, Bool, true, Bool-cases,
  List, arith, ap,
}
use fpgaml.Common.Int.{ℤ, pos, ltb_ℤ, ◌≤ℤ◌}
use fpgaml.AlgoSimple.{AlgoSimple, max_cost, raise_max, island_cost, at}
use fpgaml.AlgoSimple.Visit.{total}

raise_max-ge : (b : Bool) (c m : ℤ) → m ≤ℤ raise_max b c m
unfolding raise_max
raise_max-ge b c m = ground arith

raise_max-ge_cost : (c m : ℤ) → c ≤ℤ raise_max true c m
unfolding raise_max
raise_max-ge_cost c m = ground arith

raise_max_cases :
    (b : Bool) (c m : ℤ) → (raise_max b c m ≡ m) ⊎ ((b ≡ true) × (raise_max b c m ≡ c))
unfolding raise_max
raise_max_cases b c m = ground arith

abbrev round : AlgoSimple → ℕ → ℤ → ℤ
round s i m = raise_max (ltb_ℤ (pos 0) (at s.wgs_per_islands i)) (island_cost s i) m

pub max_cost-ge_start : (rounds i : ℕ) (s : AlgoSimple) (m : ℤ) → m ≤ℤ max_cost rounds i s m
unfolding max_cost
max_cost-ge_start zero i s m = omega arith
max_cost-ge_start (suc rounds) i s m = omega (
  arith,
  max_cost-ge_start rounds (i + 1) s (round s i m),
  raise_max-ge (ltb_ℤ (pos 0) (at s.wgs_per_islands i)) (island_cost s i) m,
)

pub total_nonneg : (s : AlgoSimple) (v : List ℤ) → pos 0 ≤ℤ total s v
unfolding total
total_nonneg s v = max_cost-ge_start s.num_islands 0 (record s { wgs_per_islands = v }) (pos 0)

-- Island `i` has workgroups.
abbrev pub IsBusy : AlgoSimple → ℕ → Type 0
IsBusy s i = ltb_ℤ (pos 0) (at s.wgs_per_islands i) ≡ true

max_cost-ge_island :
    (rounds i j : ℕ) (s : AlgoSimple) (m : ℤ)
    → i ≤ j
    → j < i + rounds
    → IsBusy s j
    → island_cost s j ≤ℤ max_cost rounds i s m
unfolding max_cost
max_cost-ge_island zero i j s m lo hi b = absurd (omega arith)
max_cost-ge_island (suc rounds) i j s m lo hi b = elim (Bool-cases (i == j)) [
  | inl e ↦
      let e' : j ≡ i = ground (arith, e) in
      rw e' (
        omega (
          arith,
          max_cost-ge_start rounds (i + 1) s (round s i m),
          raised (ap (λ k. ltb_ℤ (pos 0) (at s.wgs_per_islands k)) (sym e') ∙ b),
        ))
  | inr ne ↦
      max_cost-ge_island rounds (i + 1) j s (round s i m) (ground (arith, ne)) (omega arith) b
]
  where
    raised : IsBusy s i → island_cost s i ≤ℤ round s i m
    raised busy =
        subst (λ t. island_cost s i ≤ℤ raise_max t (island_cost s i) m) (sym busy)
          (raise_max-ge_cost (island_cost s i) m)

max_cost-attained :
    (rounds i : ℕ) (s : AlgoSimple) (m : ℤ)
    → (max_cost rounds i s m ≡ m)
      ⊎ ((j : ℕ) × (j < i + rounds) × IsBusy s j × (max_cost rounds i s m ≡ island_cost s j))
unfolding max_cost
max_cost-attained zero i s m = inl refl
max_cost-attained (suc rounds) i s m = elim (max_cost-attained rounds (i + 1) s (round s i m)) [
  | inr (j, lt, b, e) ↦ inr (j, omega arith, b, e)
  | inl e ↦ elim (raise_max_cases (ltb_ℤ (pos 0) (at s.wgs_per_islands i)) (island_cost s i) m) [
    | inl same ↦ inl (e ∙ same)
    | inr (b, new) ↦ inr (i, omega arith, b, e ∙ new)
  ]
]

-- The cost of a distribution bounds the cost of every island that it gives workgroups, and is the
-- cost of one of them, unless it is 0.
pub total-makespan :
    (s : AlgoSimple) (v : List ℤ)
    → let placed = record s { wgs_per_islands = v } in
      ((j : ℕ) → j < s.num_islands → IsBusy placed j → island_cost placed j ≤ℤ total s v)
      × ((total s v ≡ pos 0)
          ⊎ ((j : ℕ) × (j < s.num_islands) × IsBusy placed j × (total s v ≡ island_cost placed j)))
unfolding total
total-makespan s v =
    let placed = record s { wgs_per_islands = v } in
    (
      λ j lt b. max_cost-ge_island s.num_islands 0 j placed (pos 0) (omega arith) (omega arith) b,
      elim (max_cost-attained s.num_islands 0 placed (pos 0)) [
        | inl e ↦ inl e
        | inr (j, lt, b, e) ↦ inr (j, omega arith, b, e)
      ],
    )
