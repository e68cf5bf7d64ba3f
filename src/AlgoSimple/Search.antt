-- ===== src/AlgoSimple/Search.antt =====
-- recursive_function visits every way of handing out the workgroups, in the order of its loops, and
-- keeps the best: what it does to the object is a walk over a list of distributions.
use mathlib.Core.List.{append_assoc}
use mathlib.Core.Path.{subst₂, ap₂}
use fpgaml.Common.{
  ℕ, zero, suc, ◌+◌, ◌-◌, ◌≡◌, ◌∙◌, sym, ap, refl, inl, inr, Bool, true, false, List, [], ◌∷◌, ◌++◌,
  map, length, get_or, set, arith, ◌==◌, Bool-cases, length-append,
}
use fpgaml.Common.Int.{ℤ, pos, eqb_ℤ}
use fpgaml.AlgoSimple.{AlgoSimple, unsuitable_island, place_items, recursive_function}
use fpgaml.AlgoSimple.Visit.{
  shape, Best, with_best, visit_all, branches, leaves, eqb_ℤ→≡, calculate_total-visit,
  visit_all-map, visit_all-append,
}

set_here :
    (pre : List ℤ) (x v : ℤ) (rest : List ℤ)
    → set (pre ++ (x ∷ rest)) (length pre) v ≡ pre ++ (v ∷ rest)
set_here [] x v rest = refl
set_here (y ∷ pre) x v rest = ap (◌∷◌ y) (set_here pre x v rest)

get_here : (pre : List ℤ) (x d : ℤ) (rest : List ℤ) → get_or (pre ++ (x ∷ rest)) (length pre) d ≡ x
get_here [] x d rest = refl
get_here (y ∷ pre) x d rest = get_here pre x d rest

-- `f` walks over `vs`, puts `pre` in front of each, and leaves the suitable islands as they were.
abbrev Walks :
    (AlgoSimple → AlgoSimple) → AlgoSimple → List ℤ → List ℤ → Best → List (List ℤ) → Type 0
Walks f s pre rest b vs =
    (rest' : List ℤ) × (shape rest' ≡ shape rest)
    × (f (with_best s (pre ++ rest) b) ≡ with_best s (pre ++ rest') (visit_all s pre b vs))

shape-length : (xs ys : List ℤ) → shape xs ≡ shape ys → length xs ≡ length ys
shape-length [] [] e = refl
shape-length [] (y ∷ ys) e = cc
shape-length (x ∷ xs) [] e = cc
shape-length (x ∷ xs) (y ∷ ys) e = ap suc (shape-length xs ys (ground arith))

pos_suitable : (n : ℕ) → eqb_ℤ (pos n) unsuitable_island ≡ false
pos_suitable n = ground arith

module _ (s : AlgoSimple) (deeper : ℕ → AlgoSimple → AlgoSimple) (pre : List ℤ) (m : List Bool)
    (below : (c : ℕ) (x : ℤ) (rest : List ℤ) (b : Best)
      → shape rest ≡ m
      → Walks (deeper c) s (pre ++ (x ∷ [])) rest b (leaves c m)) where
  place_items-Walks :
      (rounds counter n : ℕ) (x : ℤ) (rest : List ℤ) (b : Best)
      → shape rest ≡ m
      → eqb_ℤ x unsuitable_island ≡ false
      → Walks
          (place_items deeper rounds counter n (length pre))
          s
          pre
          (x ∷ rest)
          b
          (branches (λ c. leaves c m) rounds counter n)
  unfolding place_items branches visit_all
  place_items-Walks zero counter n x rest b e u = (x ∷ rest, refl, refl)
  place_items-Walks (suc rounds) counter n x rest b e u =
      let y = pos (n - counter) in
      let now = visit_all s (pre ++ (y ∷ [])) b (leaves counter m) in
      let (rest', e', w) = below counter y rest b e in
      let (rest'', e'', w') =
        place_items-Walks rounds (counter + 1) n y rest' now (e' ∙ e)
          (pos_suitable (n - counter)) in
      (
        rest'',
        e'' ∙ ap₂ ◌∷◌ (pos_suitable (n - counter) ∙ sym u) e',
        ap (λ v. next (deeper counter (with_best s v b)))
              (set_here pre x y rest ∙ sym (append_assoc pre (y ∷ []) rest))
            ∙ ap next w
            ∙ ap (λ v. next (with_best s v now)) (append_assoc pre (y ∷ []) rest')
            ∙ w'
            ∙ ap (with_best s (pre ++ rest'')) (
                ap (λ b'. visit_all s pre b' others)
                  (sym (visit_all-map s pre y b (leaves counter m)))
                ∙ sym (visit_all-append s pre b (map (◌∷◌ y) (leaves counter m)) others)),
      )
    where
      next : AlgoSimple → AlgoSimple
      next = place_items deeper rounds (counter + 1) n (length pre)

      others : List (List ℤ)
      others = branches (λ c. leaves c m) rounds (counter + 1) n

skip_island :
    (left n i : ℕ) (s : AlgoSimple)
    → eqb_ℤ (get_or s.wgs_per_islands i (pos 0)) unsuitable_island ≡ true
    → recursive_function (suc left) n i s ≡ recursive_function left n (suc i) s
unfolding recursive_function
skip_island left n i s h =
    let e : i + 1 ≡ suc i = omega arith in
    rw (h, recursive_function) (ap (λ k. recursive_function left n k s) e)

use_island :
    (left n i : ℕ) (s : AlgoSimple)
    → eqb_ℤ (get_or s.wgs_per_islands i (pos 0)) unsuitable_island ≡ false
    → recursive_function (suc left) n i s
      ≡ place_items (λ c. recursive_function left c (suc i)) (suc n) 0 n i s
unfolding recursive_function
use_island left n i s h =
    let e : i + 1 ≡ suc i = omega arith in
    let e' : n + 1 ≡ suc n = omega arith in
    rw (h, recursive_function)
      (ap₂ (λ k r. place_items (λ c. recursive_function left c k) r 0 n i s) e e')

search_done :
    (s : AlgoSimple) (n i : ℕ) (pre : List ℤ) (b : Best)
    → recursive_function 0 n i (with_best s (pre ++ []) b)
      ≡ with_best s (pre ++ []) (visit_all s pre b (leaves n []))
unfolding recursive_function leaves visit_all
search_done s n i pre b = elim (Bool-cases (n == 0)) [
  | inl e ↦ rw e (calculate_total-visit s (pre ++ []) b)
  | inr e ↦ rw e
]

leaves-skip :
    (n : ℕ) (m : List Bool) → leaves n (true ∷ m) ≡ map (◌∷◌ unsuitable_island) (leaves n m)
unfolding leaves
leaves-skip n m = refl

leaves-use : (n : ℕ) (m : List Bool) → leaves n (false ∷ m) ≡ branches (λ c. leaves c m) (suc n) 0 n
unfolding leaves
leaves-use n m = refl

next_island :
    (s : AlgoSimple) (left n : ℕ) (pre : List ℤ) (x : ℤ) (rest : List ℤ) (b : Best) (m : List Bool)
    → shape rest ≡ m
    → Walks
        (recursive_function left n (length (pre ++ (x ∷ []))))
        s
        (pre ++ (x ∷ []))
        rest
        b
        (leaves n (shape rest))
    → Walks (recursive_function left n (suc (length pre))) s (pre ++ (x ∷ [])) rest b (leaves n m)
next_island s left n pre x rest b m e w =
    let l : length (pre ++ (x ∷ [])) ≡ suc (length pre) =
      omega (arith, length-append pre (x ∷ [])) in
    subst₂ (λ k m'. Walks (recursive_function left n k) s (pre ++ (x ∷ [])) rest b (leaves n m')) l
      e w

visit_all-skip :
    (s : AlgoSimple) (n : ℕ) (pre : List ℤ) (x : ℤ) (m : List Bool) (b : Best)
    → eqb_ℤ x unsuitable_island ≡ true
    → visit_all s pre b (leaves n (eqb_ℤ x unsuitable_island ∷ m))
      ≡ visit_all s (pre ++ (x ∷ [])) b (leaves n m)
visit_all-skip s n pre x m b u =
    ap (λ t. visit_all s pre b (leaves n (t ∷ m))) u
    ∙ ap (visit_all s pre b) (leaves-skip n m)
    ∙ visit_all-map s pre unsuitable_island b (leaves n m)
    ∙ ap (λ y. visit_all s (pre ++ (y ∷ [])) b (leaves n m)) (sym (eqb_ℤ→≡ x unsuitable_island u))

-- Started at island `length pre` with `left` islands to go, the function walks over the
-- distributions of `n` workgroups on those islands.
pub recursive_function-Walks :
    (s : AlgoSimple) (left n : ℕ) (pre rest : List ℤ) (b : Best)
    → left ≡ length rest
    → Walks (recursive_function left n (length pre)) s pre rest b (leaves n (shape rest))
recursive_function-Walks s zero n pre [] b e = ([], refl, search_done s n (length pre) pre b)
recursive_function-Walks s zero n pre (x ∷ rest) b e = absurd (omega arith)
recursive_function-Walks s (suc left) n pre [] b e = absurd (omega arith)
recursive_function-Walks s (suc left) n pre (x ∷ rest) b e =
    elim (Bool-cases (eqb_ℤ x unsuitable_island)) [
      | inl u ↦
          let (rest', e', w) =
            next_island s left n pre x rest b (shape rest) refl
              (recursive_function-Walks s left n (pre ++ (x ∷ [])) rest b (omega arith)) in
          (
            x ∷ rest',
            ap (◌∷◌ (eqb_ℤ x unsuitable_island)) e',
            skip_island left n (length pre) _ (ap (λ y. eqb_ℤ y unsuitable_island) here ∙ u)
                ∙ ap (λ v. recursive_function left n (suc (length pre)) (with_best s v b))
                    (split rest)
                ∙ w
                ∙ ap₂ (with_best s) (sym (split rest'))
                    (sym (visit_all-skip s n pre x (shape rest) b u)),
          )
      | inr u ↦
          let (rest', e', w) =
            place_items-Walks s (λ c. recursive_function left c (suc (length pre))) pre (shape rest)
              (λ c y rest' b' e'. next_island s left c pre y rest' b' (shape rest) e' (
                recursive_function-Walks s left c (pre ++ (y ∷ [])) rest' b'
                  (omega (arith, shape-length rest' rest e'))))
              (suc n) 0 n x rest b refl u in
          (
            rest',
            e',
            use_island left n (length pre) _ (ap (λ y. eqb_ℤ y unsuitable_island) here ∙ u)
                ∙ w
                ∙ ap (λ vs. with_best s (pre ++ rest') (visit_all s pre b vs))
                    (sym (ap (λ t. leaves n (t ∷ shape rest)) u ∙ leaves-use n (shape rest))),
          )
    ]
  where
    here : get_or (pre ++ (x ∷ rest)) (length pre) (pos 0) ≡ x
    here = get_here pre x (pos 0) rest

    split : (r : List ℤ) → pre ++ (x ∷ r) ≡ (pre ++ (x ∷ [])) ++ r
    split r = sym (append_assoc pre (x ∷ []) r)
