-- ===== src/AlgoSimple/Least.antt =====
-- The search against the makespan of a distribution, in exact integers: with costs that no
-- distribution can make overflow.
use mathlib.Core.Path.{subst}
use native.Mathlib.Nat.{mul-le-mul_right}
use fpgaml.Common.{
  ℕ, zero, suc, ◌+◌, ◌*◌, ◌^◌, ◌-◌, ◌≤◌, ◌<◌, ◌≡◌, ◌∙◌, ◌⊎◌, inl, inr, sym, ap, refl, Bool, true,
  false, List, [], ◌∷◌, length, arith,
}
use fpgaml.Common.Int.{ℤ, pos, negsuc, ◌+ℤ◌, ◌*ℤ◌, ◌≤ℤ◌, ltb_ℤ, eqb_ℤ, wrap_int}
use fpgaml.AlgoSimple.{AlgoSimple, unsuitable_island, recursive_function, island_cost, at}
use fpgaml.AlgoSimple.Visit.{shape, total}
use fpgaml.AlgoSimple.Makespan.{total-makespan}
use fpgaml.AlgoSimple.Distributions.{IsDistribution}
use fpgaml.AlgoSimple.Optimal.{any_suitable, recursive_function-optimal}

-- The time after which island `j` has done its part of the distribution `v`: the work in progress,
-- a reconfiguration, and its workgroups.
abbrev pub exact_cost : AlgoSimple → List ℤ → ℕ → ℤ
exact_cost s v j =
    at v j *ℤ at s.current_work_potential_cost j
    +ℤ at s.work_in_progress_cost j
    +ℤ at s.current_work_reconf_cost j

-- Island `j` has workgroups.
abbrev pub HasWgs : List ℤ → ℕ → Type 0
HasWgs v j = ltb_ℤ (pos 0) (at v j) ≡ true

-- `t` is the largest of these times over the islands that have workgroups, or 0.
pub record IsMakespan (s : AlgoSimple) (v : List ℤ) (t : ℤ) : Type 0 where
  pub bounds : (j : ℕ) → j < s.num_islands → HasWgs v j → exact_cost s v j ≤ℤ t
  pub attained : (t ≡ pos 0) ⊎ ((j : ℕ) × (j < s.num_islands) × HasWgs v j × (t ≡ exact_cost s v j))

-- The costs of the suitable islands are not negative, and do not overflow an `int` even for an
-- island that has all `n` workgroups.
abbrev pub IsBounded : AlgoSimple → ℕ → Type 0
IsBounded s n =
    (j : ℕ)
    → j < s.num_islands
    → eqb_ℤ (at s.wgs_per_islands j) unsuitable_island ≡ false
    → (a : ℕ) × (b : ℕ) × (c : ℕ) × (at s.current_work_potential_cost j ≡ pos a)
      × (at s.work_in_progress_cost j ≡ pos b)
      × (at s.current_work_reconf_cost j ≡ pos c)
      × (n * a + b + c < 2 ^ 31)

-- An island that has workgroups in a distribution is suitable, and has `n` at most.
given_to :
    (ws v : List ℤ) (n j : ℕ)
    → IsDistribution (shape ws) n v
    → HasWgs v j
    → (k : ℕ) × (at v j ≡ pos k) × (k ≤ n) × (eqb_ℤ (at ws j) unsuitable_island ≡ false)
given_to [] [] n j d h = cc
given_to [] (x ∷ v) n j d h = elim d [ ]
given_to (w ∷ ws) [] n j d h = by_shape (eqb_ℤ w unsuitable_island) d
  where
    by_shape :
        (b : Bool)
        → IsDistribution (b ∷ shape ws) n []
        → (k : ℕ) × (at [] j ≡ pos k) × (k ≤ n) × (eqb_ℤ (at (w ∷ ws) j) unsuitable_island ≡ false)
    by_shape true d' = elim d' [ ]
    by_shape false d' = elim d' [ ]
given_to (w ∷ ws) (x ∷ v) n zero d h = by_shape (eqb_ℤ w unsuitable_island) refl d
  where
    by_shape :
        (b : Bool)
        → eqb_ℤ w unsuitable_island ≡ b
        → IsDistribution (b ∷ shape ws) n (x ∷ v)
        → (k : ℕ) × (x ≡ pos k) × (k ≤ n) × (eqb_ℤ w unsuitable_island ≡ false)
    by_shape true u (e, d') = let z = ap (ltb_ℤ (pos 0)) e in cc
    by_shape false u (k, le, e, d') = (k, e, le, u)
given_to (w ∷ ws) (x ∷ v) n (suc j) d h =
    by_shape (eqb_ℤ w unsuitable_island) (λ m d'. given_to ws v m j d' h) d
  where
    by_shape :
        (b : Bool)
        → ((m : ℕ)
            → IsDistribution (shape ws) m v
            → (k : ℕ) × (at v j ≡ pos k) × (k ≤ m) × (eqb_ℤ (at ws j) unsuitable_island ≡ false))
        → IsDistribution (b ∷ shape ws) n (x ∷ v)
        → (k : ℕ) × (at v j ≡ pos k) × (k ≤ n) × (eqb_ℤ (at ws j) unsuitable_island ≡ false)
    by_shape true below (e, d') = below n d'
    by_shape false below (k, le, e, d') =
        let (k', e', le', u) = below (n - k) d' in (k', e', omega arith, u)

exact_mul : (k a : ℕ) → pos k *ℤ pos a ≡ pos (k * a)
unfolding ◌*ℤ◌
exact_mul k a = ground arith

exact_add : (a b : ℕ) → pos a +ℤ pos b ≡ pos (a + b)
unfolding ◌+ℤ◌
exact_add a b = ground arith

exact_nat : (k a b c : ℕ) → pos k *ℤ pos a +ℤ pos b +ℤ pos c ≡ pos (k * a + b + c)
exact_nat k a b c =
    ap (λ x. x +ℤ pos b +ℤ pos c) (exact_mul k a)
    ∙ ap (λ x. x +ℤ pos c) (exact_add (k * a) b)
    ∙ exact_add (k * a + b) c

wrap_small : (n : ℕ) → n < 2 ^ 31 → wrap_int (pos n) ≡ pos n
unfolding wrap_int
wrap_small n h = ground (arith, h)

-- The cost of an island that has workgroups in a distribution is a natural number in an `int`.
exact_cost-pos :
    (s : AlgoSimple) (n : ℕ) (v : List ℤ) (j : ℕ)
    → IsBounded s n
    → IsDistribution (shape s.wgs_per_islands) n v
    → j < s.num_islands
    → HasWgs v j
    → (c : ℕ) × (exact_cost s v j ≡ pos c) × (c < 2 ^ 31)
exact_cost-pos s n v j bounded d lt h =
    let (k, given, le, suitable) = given_to s.wgs_per_islands v n j d h in
    let (a, b, c, ea, eb, ec, small) = bounded j lt suitable in
    let fit = mul-le-mul_right a le in
    (k * a + b + c, rw (given, ea, eb, ec) (exact_nat k a b c), omega arith)

island_cost-exact :
    (s : AlgoSimple) (n : ℕ) (v : List ℤ) (j : ℕ)
    → IsBounded s n
    → IsDistribution (shape s.wgs_per_islands) n v
    → j < s.num_islands
    → HasWgs v j
    → island_cost (record s { wgs_per_islands = v }) j ≡ exact_cost s v j
unfolding island_cost
island_cost-exact s n v j bounded d lt h =
    let (c, e, small) = exact_cost-pos s n v j bounded d lt h in
    ap wrap_int e ∙ wrap_small c small ∙ sym e

total-IsMakespan :
    (s : AlgoSimple) (n : ℕ) (v : List ℤ)
    → IsBounded s n
    → IsDistribution (shape s.wgs_per_islands) n v
    → IsMakespan s v (total s v)
total-IsMakespan s n v bounded d =
    let (bounds, attained) = total-makespan s v in
    record {
      bounds = λ j lt h.
          subst (λ c. c ≤ℤ total s v) (island_cost-exact s n v j bounded d lt h) (bounds j lt h);
      attained = elim attained [
        | inl e ↦ inl e
        | inr (j, lt, h, e) ↦ inr (j, lt, h, e ∙ island_cost-exact s n v j bounded d lt h)
      ];
    }

IsMakespan-nonneg :
    (s : AlgoSimple) (n : ℕ) (v : List ℤ) (t : ℤ)
    → IsBounded s n
    → IsDistribution (shape s.wgs_per_islands) n v
    → IsMakespan s v t
    → pos 0 ≤ℤ t
IsMakespan-nonneg s n v t bounded d is = elim is.attained [
  | inl e ↦ subst (λ c. pos 0 ≤ℤ c) (sym e) (omega arith)
  | inr (j, lt, h, e) ↦
      let (c, q, _) = exact_cost-pos s n v j bounded d lt h in
      subst (λ c. pos 0 ≤ℤ c) (sym (e ∙ q)) (omega arith)
]

total-le_makespan :
    (s : AlgoSimple) (n : ℕ) (v : List ℤ) (t : ℤ)
    → IsBounded s n
    → IsDistribution (shape s.wgs_per_islands) n v
    → IsMakespan s v t
    → total s v ≤ℤ t
total-le_makespan s n v t bounded d is = elim (total-IsMakespan s n v bounded d).attained [
  | inl e ↦ subst (λ c. c ≤ℤ t) (sym e) (IsMakespan-nonneg s n v t bounded d is)
  | inr (j, lt, h, e) ↦ subst (λ c. c ≤ℤ t) (sym e) (is.bounds j lt h)
]

-- `v` gives out `n` workgroups over the suitable islands with the makespan `t`, and there is no way
-- to do so with a smaller one.
pub record IsLeast (s : AlgoSimple) (n : ℕ) (v : List ℤ) (t : ℤ) : Type 0 where
  pub distribution : IsDistribution (shape s.wgs_per_islands) n v
  pub makespan : IsMakespan s v t
  pub least :
      (u : List ℤ) (t' : ℤ)
      → IsDistribution (shape s.wgs_per_islands) n u
      → IsMakespan s u t'
      → t ≤ℤ t'

-- Started on vectors of the right length with nothing found, with a suitable island, and with
-- a number of workgroups and costs that do not overflow, the search records a distribution of exactly `n` workgroups over the suitable
-- islands and its makespan, in exact integers, and no distribution has a smaller makespan.
pub recursive_function-IsLeast :
    (s : AlgoSimple) (n : ℕ)
    → length s.wgs_per_islands ≡ s.num_islands
    → s.current_min ≡ negsuc 0
    → any_suitable (shape s.wgs_per_islands) ≡ true
    → n + 1 < 2 ^ 31
    → IsBounded s n
    → let s' = recursive_function s.num_islands n 0 s in IsLeast s n s'.result s'.current_min
recursive_function-IsLeast s n l e suitable fits bounded =
    let (d, cost, least) = recursive_function-optimal s n l e suitable in
    let s' = recursive_function s.num_islands n 0 s in
    record {
      distribution = d;
      makespan =
          subst (IsMakespan s s'.result) (sym cost) (total-IsMakespan s n s'.result bounded d);
      least = λ u t' du mu.
          let le = least u du in
          let le' = total-le_makespan s n u t' bounded du mu in
          subst (λ c. c ≤ℤ t') (sym cost) (omega (arith, le, le'));
    }
