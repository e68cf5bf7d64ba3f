-- ===== src/AlgoSimple/Visit.antt =====
-- What the search of recursive_function is compared with: the list of the distributions in the
-- order in which they are tried, and a walk over such a list that keeps the best.
use mathlib.Core.List.{append_assoc}
use fpgaml.Common.{
  ℕ, zero, suc, ◌+◌, ◌-◌, ◌≡◌, ◌∙◌, sym, ap, refl, Bool, true, false, ◌||◌, List, [], ◌∷◌, ◌++◌,
  map, arith, if◌then◌else◌, ◌==◌,
}
use fpgaml.Common.Int.{ℤ, pos, ltb_ℤ, eqb_ℤ}
use fpgaml.AlgoSimple.{AlgoSimple, unsuitable_island, max_cost, calculate_total, island_cost}

-- Which islands cannot run the kernel.
abbrev pub shape : List ℤ → List Bool
shape [] = []
shape (x ∷ xs) = eqb_ℤ x unsuitable_island ∷ shape xs

-- The best so far: its cost (-1 before there is one) and its distribution.
pub record Best : Type 0 where
  pub cost : ℤ
  pub wgs : List ℤ

abbrev pub best : AlgoSimple → Best
best s = record { cost = s.current_min; wgs = s.result }

-- The object with other workgroups in place and another best.
abbrev pub with_best : AlgoSimple → List ℤ → Best → AlgoSimple
with_best s v b = record s { wgs_per_islands = v; current_min = b.cost; result = b.wgs }

-- The cost of a distribution, as calculate_total computes it.
unfoldable pub total : AlgoSimple → List ℤ → ℤ
total s v = max_cost s.num_islands 0 (record s { wgs_per_islands = v }) (pos 0)

unfoldable pub visit : AlgoSimple → Best → List ℤ → Best
visit s b v =
    if ltb_ℤ (total s v) b.cost || ltb_ℤ b.cost (pos 0)
    then record { cost = total s v; wgs = v }
    else b

unfoldable pub visit_all : AlgoSimple → List ℤ → Best → List (List ℤ) → Best
visit_all s pre b [] = b
visit_all s pre b (v ∷ vs) = visit_all s pre (visit s b (pre ++ v)) vs

-- One round for each number of workgroups that is left to the later islands.
unfoldable pub branches : (ℕ → List (List ℤ)) → ℕ → ℕ → ℕ → List (List ℤ)
branches later zero counter n = []
branches later (suc rounds) counter n =
    map (◌∷◌ (pos (n - counter))) (later counter) ++ branches later rounds (counter + 1) n

-- The distributions of `n` workgroups, in the order in which they are tried.
unfoldable pub leaves : ℕ → List Bool → List (List ℤ)
unfolding branches
leaves n [] = if n == 0 then [] ∷ [] else []
leaves n (true ∷ m) = map (◌∷◌ unsuitable_island) (leaves n m)
leaves n (false ∷ m) = branches (λ c. leaves c m) (suc n) 0 n

pub eqb_ℤ→≡ : (a b : ℤ) → eqb_ℤ a b ≡ true → a ≡ b
eqb_ℤ→≡ a b h = ground arith

max_cost-with_best :
    (rounds i : ℕ) (s : AlgoSimple) (v : List ℤ) (b : Best) (m : ℤ)
    → max_cost rounds i (with_best s v b) m ≡ max_cost rounds i (record s { wgs_per_islands = v }) m
unfolding max_cost island_cost
max_cost-with_best zero i s v b m = refl
max_cost-with_best (suc rounds) i s v b m = max_cost-with_best rounds (i + 1) s v b _

pub calculate_total-visit :
    (s : AlgoSimple) (v : List ℤ) (b : Best)
    → calculate_total (with_best s v b) ≡ with_best s v (visit s b v)
unfolding calculate_total visit total
calculate_total-visit s v b =
    let e = max_cost-with_best s.num_islands 0 s v b (pos 0) in ground (arith, e)

pub visit_all-map :
    (s : AlgoSimple) (pre : List ℤ) (x : ℤ) (b : Best) (vs : List (List ℤ))
    → visit_all s pre b (map (◌∷◌ x) vs) ≡ visit_all s (pre ++ (x ∷ [])) b vs
unfolding visit_all
visit_all-map s pre x b [] = refl
visit_all-map s pre x b (v ∷ vs) =
    let e : pre ++ (x ∷ v) ≡ (pre ++ (x ∷ [])) ++ v = sym (append_assoc pre (x ∷ []) v) in
    ap (λ w. visit_all s pre (visit s b w) (map (◌∷◌ x) vs)) e
    ∙ visit_all-map s pre x (visit s b ((pre ++ (x ∷ [])) ++ v)) vs

pub visit_all-append :
    (s : AlgoSimple) (pre : List ℤ) (b : Best) (vs ws : List (List ℤ))
    → visit_all s pre b (vs ++ ws) ≡ visit_all s pre (visit_all s pre b vs) ws
unfolding visit_all
visit_all-append s pre b [] ws = refl
visit_all-append s pre b (v ∷ vs) ws = visit_all-append s pre (visit s b (pre ++ v)) vs ws
