-- ===== src/AlgoSimple/Distributions.antt =====
-- The list of distributions that the search walks over holds each of them, and nothing else.
use mathlib.Core.Path.{subst}
use fpgaml.Common.{
  ℕ, zero, suc, ◌+◌, ◌-◌, ◌≤◌, ◌<◌, ◌≡◌, ◌∙◌, ◌⊎◌, sym, ap, refl, inl, inr, Bool, true, false, List,
  [], ◌∷◌, ◌++◌, map, arith, if◌then◌else◌, ◌==◌, Bool-cases,
}
use fpgaml.Common.Int.{ℤ, pos}
use fpgaml.AlgoSimple.{unsuitable_island}
use fpgaml.AlgoSimple.Visit.{branches, leaves}

-- `v` gives out exactly `n` workgroups, none of them to an unsuitable island, which keeps its mark.
abbrev pub IsDistribution : List Bool → ℕ → List ℤ → Type 0
IsDistribution [] n [] = n ≡ 0
IsDistribution [] n (x ∷ v) = ⊥
IsDistribution (b ∷ m) n [] = ⊥
IsDistribution (true ∷ m) n (x ∷ v) = (x ≡ unsuitable_island) × IsDistribution m n v
IsDistribution (false ∷ m) n (x ∷ v) = (k : ℕ) × (k ≤ n) × (x ≡ pos k) × IsDistribution m (n - k) v

abbrev pub In : List ℤ → List (List ℤ) → Type 0
In v [] = ⊥
In v (w ∷ ws) = (v ≡ w) ⊎ In v ws

In-append_left : (v : List ℤ) (xs ys : List (List ℤ)) → In v xs → In v (xs ++ ys)
In-append_left v (x ∷ xs) ys (inl e) = inl e
In-append_left v (x ∷ xs) ys (inr h) = inr (In-append_left v xs ys h)
In-append_left v [] ys h = elim h [ ]

In-append_right : (v : List ℤ) (xs ys : List (List ℤ)) → In v ys → In v (xs ++ ys)
In-append_right v [] ys h = h
In-append_right v (x ∷ xs) ys h = inr (In-append_right v xs ys h)

In-append_cases : (v : List ℤ) (xs ys : List (List ℤ)) → In v (xs ++ ys) → In v xs ⊎ In v ys
In-append_cases v [] ys h = inr h
In-append_cases v (x ∷ xs) ys (inl e) = inl (inl e)
In-append_cases v (x ∷ xs) ys (inr h) = elim (In-append_cases v xs ys h) [
  | inl a ↦ inl (inr a)
  | inr b ↦ inr b
]

In-map : (x : ℤ) (v : List ℤ) (ws : List (List ℤ)) → In v ws → In (x ∷ v) (map (◌∷◌ x) ws)
In-map x v (w ∷ ws) (inl e) = inl (ap (◌∷◌ x) e)
In-map x v (w ∷ ws) (inr h) = inr (In-map x v ws h)
In-map x v [] h = elim h [ ]

In-map_inv :
    (x : ℤ) (v : List ℤ) (ws : List (List ℤ))
    → In v (map (◌∷◌ x) ws)
    → (w : List ℤ) × (v ≡ x ∷ w) × In w ws
In-map_inv x v [] h = elim h [ ]
In-map_inv x v (w ∷ ws) (inl e) = (w, e, inl refl)
In-map_inv x v (w ∷ ws) (inr h) = let (w', e, i) = In-map_inv x v ws h in (w', e, inr i)

branches-In :
    (later : ℕ → List (List ℤ)) (rounds counter n c : ℕ) (v : List ℤ)
    → counter ≤ c
    → c < counter + rounds
    → In v (later c)
    → In (pos (n - c) ∷ v) (branches later rounds counter n)
unfolding branches
branches-In later zero counter n c v lo hi h = absurd (omega arith)
branches-In later (suc rounds) counter n c v lo hi h = elim (Bool-cases (counter == c)) [
  | inl e ↦
      let e' : counter ≡ c = ground (arith, e) in
      In-append_left _ (map (◌∷◌ (pos (n - counter))) (later counter)) _ (
        subst (λ k. In (pos (n - c) ∷ v) (map (◌∷◌ (pos (n - k))) (later k))) (sym e')
          (In-map (pos (n - c)) v (later c) h))
  | inr ne ↦
      In-append_right _ (map (◌∷◌ (pos (n - counter))) (later counter)) _
        (branches-In later rounds (counter + 1) n c v (ground (arith, ne)) (omega arith) h)
]

branches-In_inv :
    (later : ℕ → List (List ℤ)) (rounds counter n : ℕ) (v : List ℤ)
    → In v (branches later rounds counter n)
    → (c : ℕ) × (w : List ℤ) × (c < counter + rounds) × (v ≡ pos (n - c) ∷ w) × In w (later c)
unfolding branches
branches-In_inv later zero counter n v h = elim h [ ]
branches-In_inv later (suc rounds) counter n v h =
    elim (In-append_cases v (map (◌∷◌ (pos (n - counter))) (later counter)) _ h) [
      | inl a ↦
          let (w, e, i) = In-map_inv (pos (n - counter)) v (later counter) a in
          (counter, w, omega arith, e, i)
      | inr b ↦
          let (c, w, lt, e, i) = branches-In_inv later rounds (counter + 1) n v b in
          (c, w, omega arith, e, i)
    ]

-- Every distribution is tried.
pub leaves_complete :
    (m : List Bool) (n : ℕ) (v : List ℤ) → IsDistribution m n v → In v (leaves n m)
unfolding leaves
leaves_complete [] n [] h = rw h (inl refl)
leaves_complete [] n (x ∷ v) h = elim h [ ]
leaves_complete (true ∷ m) n [] h = elim h [ ]
leaves_complete (false ∷ m) n [] h = elim h [ ]
leaves_complete (true ∷ m) n (x ∷ v) h =
    rw (h.0) (In-map unsuitable_island v (leaves n m) (leaves_complete m n v h.1))
leaves_complete (false ∷ m) n (x ∷ v) (k, le, e, h) =
    let back : n - (n - k) ≡ k = omega arith in
    subst (λ y. In (y ∷ v) (leaves n (false ∷ m))) (ap pos back ∙ sym e)
      (branches-In (λ c. leaves c m) (suc n) 0 n (n - k) v (omega arith) (omega arith)
        (leaves_complete m (n - k) v h))

-- Only distributions are tried.
pub leaves_sound : (m : List Bool) (n : ℕ) (v : List ℤ) → In v (leaves n m) → IsDistribution m n v
unfolding leaves
leaves_sound [] n v h = elim (Bool-cases (n == 0)) [
  | inl e ↦
      let h' : In v ([] ∷ []) = subst (λ b. In v (if b then [] ∷ [] else [])) e h in
      elim h' [
        | inl q ↦ subst (IsDistribution [] n) (sym q) (ground (arith, e))
        | inr no_more ↦ absurd no_more
      ]
  | inr e ↦ let h' : In v [] = subst (λ b. In v (if b then [] ∷ [] else [])) e h in absurd h'
]
leaves_sound (true ∷ m) n v h =
    let (w, e, i) = In-map_inv unsuitable_island v (leaves n m) h in
    subst (IsDistribution (true ∷ m) n) (sym e) (refl, leaves_sound m n w i)
leaves_sound (false ∷ m) n v h =
    let (c, w, lt, e, i) = branches-In_inv (λ c. leaves c m) (suc n) 0 n v h in
    let back : c ≡ n - (n - c) = omega arith in
    subst (IsDistribution (false ∷ m) n) (sym e)
      (n - c, omega arith, refl, subst (λ k. IsDistribution m k w) back (leaves_sound m c w i))
