-- ===== src/AlgoSimple/Optimal.antt =====
-- The search finds a distribution of least cost, among all that there are.
use mathlib.Core.Path.{subst}
use fpgaml.Common.{
  ℕ, ◌-◌, ◌≡◌, ◌∙◌, ◌⊎◌, sym, ap, refl, inl, inr, Bool, true, false, ◌||◌, not, List, [], ◌∷◌,
  length, arith,
}
use fpgaml.Common.Int.{ℤ, pos, negsuc, ◌≤ℤ◌}
use fpgaml.AlgoSimple.{AlgoSimple, unsuitable_island, recursive_function}
use fpgaml.AlgoSimple.Visit.{shape, Best, best, total, visit, visit_all, leaves}
use fpgaml.AlgoSimple.Search.{recursive_function-Walks}
use fpgaml.AlgoSimple.Makespan.{total_nonneg}
use fpgaml.AlgoSimple.Distributions.{IsDistribution, In, leaves_complete, leaves_sound}

abbrev scored : AlgoSimple → List ℤ → Best
scored s v = record { cost = total s v; wgs = v }

visit-le_new : (s : AlgoSimple) (b : Best) (v : List ℤ) → (visit s b v).cost ≤ℤ total s v
unfolding visit
visit-le_new s b v = ground arith

visit-le_old :
    (s : AlgoSimple) (b : Best) (v : List ℤ) → pos 0 ≤ℤ b.cost → (visit s b v).cost ≤ℤ b.cost
unfolding visit
visit-le_old s b v h = ground arith

visit-nonneg : (s : AlgoSimple) (b : Best) (v : List ℤ) → pos 0 ≤ℤ (visit s b v).cost
unfolding visit
visit-nonneg s b v = ground (arith, total_nonneg s v)

visit_cases :
    (s : AlgoSimple) (b : Best) (v : List ℤ) → (visit s b v ≡ b) ⊎ (visit s b v ≡ scored s v)
unfolding visit
visit_cases s b v = ground arith

visit_first :
    (s : AlgoSimple) (b : Best) (v : List ℤ) → b.cost ≡ negsuc 0 → visit s b v ≡ scored s v
unfolding visit
visit_first s b v e = ground arith

visit_all-le_old :
    (s : AlgoSimple) (b : Best) (vs : List (List ℤ))
    → pos 0 ≤ℤ b.cost
    → (visit_all s [] b vs).cost ≤ℤ b.cost
unfolding visit_all
visit_all-le_old s b [] h = omega arith
visit_all-le_old s b (v ∷ vs) h =
    omega (arith, visit_all-le_old s (visit s b v) vs (visit-nonneg s b v), visit-le_old s b v h)

visit_all-le :
    (s : AlgoSimple) (b : Best) (vs : List (List ℤ)) (v : List ℤ)
    → In v vs
    → (visit_all s [] b vs).cost ≤ℤ total s v
unfolding visit_all
visit_all-le s b [] v h = elim h [ ]
visit_all-le s b (w ∷ vs) v (inl e) =
    let t : total s v ≡ total s w = ap (total s) e in
    rw t
      (omega (arith, visit_all-le_old s (visit s b w) vs (visit-nonneg s b w), visit-le_new s b w))
visit_all-le s b (w ∷ vs) v (inr h) = visit_all-le s (visit s b w) vs v h

visit_all_cases :
    (s : AlgoSimple) (b : Best) (vs : List (List ℤ))
    → (visit_all s [] b vs ≡ b) ⊎ ((v : List ℤ) × In v vs × (visit_all s [] b vs ≡ scored s v))
unfolding visit_all
visit_all_cases s b [] = inl refl
visit_all_cases s b (w ∷ vs) = elim (visit_all_cases s (visit s b w) vs) [
  | inr (v, i, e) ↦ inr (v, inr i, e)
  | inl e ↦ elim (visit_cases s b w) [
    | inl old ↦ inl (e ∙ old)
    | inr new ↦ inr (w, inl refl, e ∙ new)
  ]
]

-- With nothing found before, the walk over a list that is not empty ends with an element of it.
visit_all_found :
    (s : AlgoSimple) (b : Best) (w : List ℤ) (vs : List (List ℤ))
    → b.cost ≡ negsuc 0
    → In w vs
    → (v : List ℤ) × In v vs × (visit_all s [] b vs ≡ scored s v)
unfolding visit_all
visit_all_found s b w [] e h = elim h [ ]
visit_all_found s b w (v ∷ vs) e h = elim (visit_all_cases s (visit s b v) vs) [
  | inr (u, i, q) ↦ (u, inr i, q)
  | inl q ↦ (v, inl refl, q ∙ visit_first s b v e)
]

abbrev pub any_suitable : List Bool → Bool
any_suitable [] = false
any_suitable (b ∷ m) = not b || any_suitable m

-- Some distribution exists where an island is suitable: all workgroups on the first one.
exists_IsDistribution :
    (m : List Bool) (n : ℕ) → any_suitable m ≡ true → (v : List ℤ) × IsDistribution m n v
exists_IsDistribution [] n h = cc
exists_IsDistribution (true ∷ m) n h =
    let (v, d) = exists_IsDistribution m n h in (unsuitable_island ∷ v, (refl, d))
exists_IsDistribution (false ∷ m) n h =
    let (v, d) = idle m in
    (pos n ∷ v, (n, omega arith, refl, subst (λ k. IsDistribution m k v) (zero_left n) d))
  where
    zero_left : (k : ℕ) → 0 ≡ k - k
    zero_left k = omega arith

    idle : (m' : List Bool) → (v : List ℤ) × IsDistribution m' 0 v
    idle [] = ([], refl)
    idle (true ∷ m') = let (v, d) = idle m' in (unsuitable_island ∷ v, (refl, d))
    idle (false ∷ m') =
        let (v, d) = idle m' in
        (pos 0 ∷ v, (0, omega arith, refl, subst (λ k. IsDistribution m' k v) (zero_left 0) d))

-- Started on vectors of the right length with nothing found, and with a suitable island, the search
-- records a distribution of exactly `n` workgroups over the suitable islands, and its cost, and no
-- distribution costs less.
pub recursive_function-optimal :
    (s : AlgoSimple) (n : ℕ)
    → length s.wgs_per_islands ≡ s.num_islands
    → s.current_min ≡ negsuc 0
    → any_suitable (shape s.wgs_per_islands) ≡ true
    → let s' = recursive_function s.num_islands n 0 s in
      IsDistribution (shape s.wgs_per_islands) n s'.result
      × (s'.current_min ≡ total s s'.result)
      × ((v : List ℤ)
          → IsDistribution (shape s.wgs_per_islands) n v
          → total s s'.result ≤ℤ total s v)
recursive_function-optimal s n l e suitable =
    let m = shape s.wgs_per_islands in
    let (_, _, walk) =
      recursive_function-Walks s s.num_islands n [] s.wgs_per_islands (best s) (sym l) in
    let (u, d) = exists_IsDistribution m n suitable in
    let (v, i, found) = visit_all_found s (best s) u (leaves n m) e (leaves_complete m n u d) in
    let result : (recursive_function s.num_islands n 0 s).result ≡ v =
      ap (λ t. t.result) walk ∙ ap (λ b. b.wgs) found in
    let cost : (recursive_function s.num_islands n 0 s).current_min ≡ total s v =
      ap (λ t. t.current_min) walk ∙ ap (λ b. b.cost) found in
    (
      subst (IsDistribution m n) (sym result) (leaves_sound m n v i),
      cost ∙ ap (total s) (sym result),
      λ w dw.
          subst (λ t. t ≤ℤ total s w) (ap (λ b. b.cost) found ∙ ap (total s) (sym result))
            (visit_all-le s (best s) (leaves n m) w (leaves_complete m n w dw)),
    )
