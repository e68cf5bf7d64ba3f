-- ===== src/Slicing/Select.antt =====
-- select_best_scheduler finds the best offer among the free schedulers.
use mathlib.Core.Path.{subst}
use fpgaml.Common.{
  ℕ, suc, ◌+◌, ◌<◌, ◌≤◌, ◌≡◌, ◌∙◌, ◌⊎◌, ◌^◌, refl, sym, ap, inl, inr, Option, none, some, List, [],
  ◌∷◌, length, get_elem?, Outcome, ok, arith, Option-cases,
}
use fpgaml.Common.Int.{pos, negsuc}
use fpgaml.CircArray.{CircArray, get}
use fpgaml.CircArray.Inv.{Holds}
use fpgaml.CircArray.Index.{get_refines}
use fpgaml.Slicing.{Offer, Choice, no_choice, consider, select_loop, select_best_scheduler}

-- `g` is no better than `f`: it has fewer workgroups, or as many at a cost that is not lower.
abbrev pub NoBetter : Offer → Offer → Type 0
NoBetter f g = (g.num_wgs < f.num_wgs) ⊎ ((g.num_wgs ≡ f.num_wgs) × (f.total_cost ≤ g.total_cost))

abbrev pub In : ℕ → List ℕ → Type 0
In x [] = ⊥
In x (y ∷ ys) = (x ≡ y) ⊎ In x ys

-- The choice records an offer.
abbrev pub Records : Choice → Offer → Type 0
Records c f =
    (c.max_wgs ≡ pos f.num_wgs)
    × (c.wg_cost ≡ f.wg_cost)
    × (c.reconf_cost ≡ f.reconf_cost)
    × (c.total_cost ≡ f.total_cost)

-- Offers of a number of workgroups that an `int` can hold.
abbrev pub Fits : (ℕ → Option Offer) → Type 0
Fits o = (x : ℕ) (f : Offer) → o x ≡ some f → f.num_wgs < 2 ^ 31

module _ (o : ℕ → Option Offer) where
  abbrev Nothing : (ℕ → Type 0) → Choice → Type 0
  Nothing S c = (c.max_wgs ≡ negsuc 0) × ((x : ℕ) → S x → o x ≡ none)

  abbrev Something : (ℕ → Type 0) → Choice → Type 0
  Something S c =
      (f : Offer) × S c.scheduler_idx
      × (o c.scheduler_idx ≡ some f)
      × Records c f
      × ((x : ℕ) (g : Offer) → S x → o x ≡ some g → NoBetter f g)

  -- The choice is the best of the numbers in `S`.
  abbrev Picked : (ℕ → Type 0) → Choice → Type 0
  Picked S c = Nothing S c ⊎ Something S c

  Picked-same :
      (S T : ℕ → Type 0) (c : Choice)
      → ((x : ℕ) → S x → T x)
      → ((x : ℕ) → T x → S x)
      → Picked S c
      → Picked T c
  Picked-same S T c to from (inl (e, h)) = inl (e, λ x t. h x (from x t))
  Picked-same S T c to from (inr (f, i, e, r, h)) = inr (f, to _ i, e, r, λ x g t. h x g (from x t))

  consider_first :
      (x : ℕ) (f : Offer) (c : Choice)
      → c.max_wgs ≡ negsuc 0
      → f.num_wgs < 2 ^ 31
      → ((consider x (some f) c).scheduler_idx ≡ x) × Records (consider x (some f) c) f
  unfolding consider
  consider_first x f c e fit = ground (arith, e, fit)

  consider_next :
      (x : ℕ) (f g : Offer) (c : Choice)
      → Records c f
      → f.num_wgs < 2 ^ 31
      → g.num_wgs < 2 ^ 31
      → (NoBetter f g × (consider x (some g) c ≡ c))
        ⊎ (NoBetter g f
            × ((consider x (some g) c).scheduler_idx ≡ x)
            × Records (consider x (some g) c) g)
  unfolding consider
  consider_next x f g c (em, ew, er, et) ff fg = ground (arith, em, ew, er, et, ff, fg)

  abbrev WithOne : ℕ → (ℕ → Type 0) → ℕ → Type 0
  WithOne x S y = (y ≡ x) ⊎ S y

  consider-none : (x : ℕ) (c : Choice) → consider x none c ≡ c
  unfolding consider
  consider-none x c = refl

  NoBetter-trans : (f g h : Offer) → NoBetter f g → NoBetter g h → NoBetter f h
  NoBetter-trans f g h p q = ground (arith, p, q)

  NoBetter-refl : (f : Offer) → NoBetter f f
  NoBetter-refl f = inr (refl, omega arith)

  Picked-none :
      (S : ℕ → Type 0) (x : ℕ) (c : Choice) → o x ≡ none → Picked S c → Picked (WithOne x S) c
  Picked-none S x c e (inl (m, h)) = inl (m, λ y t. elim t [ inl q ↦ ap o q ∙ e | inr s ↦ h y s ])
  Picked-none S x c e (inr (f, i, k, r, h)) =
      inr (
        f,
        inr i,
        k,
        r,
        λ y g t u. elim t [ inl q ↦ absurd (none_some y g q u) | inr s ↦ h y g s u ],
      )
    where
      none_some : (y : ℕ) (g : Offer) → y ≡ x → o y ≡ some g → ⊥
      none_some y g q u = let z = ap o q in cc

  -- A choice that records the offer `g` of `x`, no worse than those of `S`, is the best with `x`.
  Picked-new :
      (S : ℕ → Type 0) (x : ℕ) (g : Offer) (c : Choice)
      → o x ≡ some g
      → c.scheduler_idx ≡ x
      → Records c g
      → ((y : ℕ) (k : Offer) → S y → o y ≡ some k → NoBetter g k)
      → Picked (WithOne x S) c
  Picked-new S x g c e i r h =
      inr
        (g, inl i, ap o i ∙ e, r, λ y k t u. elim t [ inl q ↦ itself y k q u | inr s ↦ h y k s u ])
    where
      itself : (y : ℕ) (k : Offer) → y ≡ x → o y ≡ some k → NoBetter g k
      itself y k q u =
          let z = ap o q in let e' : k ≡ g = cc in subst (NoBetter g) (sym e') (NoBetter-refl g)

  consider-Picked :
      (S : ℕ → Type 0) (x : ℕ) (c : Choice)
      → Fits o
      → Picked S c
      → Picked (WithOne x S) (consider x (o x) c)
  consider-Picked S x c fits p = elim (Option-cases (o x)) [
    | inl e ↦
        subst (Picked (WithOne x S)) (sym (ap (λ k. consider x k c) e ∙ consider-none x c))
          (Picked-none S x c e p)
    | inr (g, e) ↦ subst (λ k. Picked (WithOne x S) (consider x k c)) (sym e) (offered g e p)
  ]
    where
      offered :
          (g : Offer) → o x ≡ some g → Picked S c → Picked (WithOne x S) (consider x (some g) c)
      offered g e (inl (m, h)) =
          let (i, r) = consider_first x g c m (fits x g e) in
          Picked-new S x g (consider x (some g) c) e i r (λ y k s u. absurd (unseen y k s u))
        where
          unseen : (y : ℕ) (k : Offer) → S y → o y ≡ some k → ⊥
          unseen y k s u = let z = h y s in cc
      offered g e (inr (f, i, ef, r, h)) =
          elim (consider_next x f g c r (fits c.scheduler_idx f ef) (fits x g e)) [
            | inr (better, i', r') ↦
                Picked-new S x g (consider x (some g) c) e i' r'
                  (λ y k s u. NoBetter-trans g f k better (h y k s u))
            | inl (worse, same) ↦ subst (Picked (WithOne x S)) (sym same) (
                inr (
                  f,
                  inr i,
                  ef,
                  r,
                  λ y k t u. elim t [ inl q ↦ newcomer y k q u worse | inr s ↦ h y k s u ],
                ))
          ]
        where
          newcomer : (y : ℕ) (k : Offer) → y ≡ x → o y ≡ some k → NoBetter f g → NoBetter f k
          newcomer y k q u worse =
              let z = ap o q in let e' : k ≡ g = cc in subst (NoBetter f) (sym e') worse

  abbrev consider_all : List ℕ → Choice → Choice
  consider_all [] c = c
  consider_all (x ∷ xs) c = consider_all xs (consider x (o x) c)

  consider_all-Picked :
      (S : ℕ → Type 0) (xs : List ℕ) (c : Choice)
      → Fits o
      → Picked S c
      → Picked (λ y. In y xs ⊎ S y) (consider_all xs c)
  consider_all-Picked S [] c fits p =
      Picked-same S (λ y. In y [] ⊎ S y) c (λ x s. inr s)
        (λ x t. elim t [ inl b ↦ absurd b | inr s ↦ s ]) p
  consider_all-Picked S (x ∷ xs) c fits p =
      Picked-same (λ y. In y xs ⊎ WithOne x S y) (λ y. In y (x ∷ xs) ⊎ S y)
        (consider_all xs (consider x (o x) c))
        (λ y t. elim t [ inl i ↦ inl (inr i) | inr (inl q) ↦ inl (inl q) | inr (inr s) ↦ inr s ])
        (λ y t. elim t [ inl (inl q) ↦ inr (inl q) | inl (inr i) ↦ inl i | inr s ↦ inr (inr s) ])
        (consider_all-Picked (WithOne x S) xs (consider x (o x) c) fits
          (consider-Picked S x c fits p))

  select_loop_step :
      (offer : ℕ → Outcome (Option Offer)) (c : CircArray ℕ) (rounds i x : ℕ) (ch : Choice)
      → get c i ≡ ok x
      → offer x ≡ ok (o x)
      → select_loop offer c (suc rounds) i ch
        ≡ select_loop offer c rounds (i + 1) (consider x (o x) ch)
  unfolding select_loop
  select_loop_step offer c rounds i x ch e f = ground (arith, e, f)

  select_loop_end :
      (offer : ℕ → Outcome (Option Offer)) (c : CircArray ℕ) (i : ℕ) (ch : Choice)
      → select_loop offer c 0 i ch ≡ ok ch
  unfolding select_loop
  select_loop_end offer c i ch = refl

  -- The loop goes over the numbers in the ring buffer, from the position `i` on.
  select_loop-consider_all :
      (offer : ℕ → Outcome (Option Offer)) (c : CircArray ℕ) (ids xs : List ℕ) (i : ℕ) (ch : Choice)
      → Holds c ids
      → ((x : ℕ) → In x xs → offer x ≡ ok (o x))
      → ((j : ℕ) → get_elem? xs j ≡ get_elem? ids (i + j))
      → i + length xs ≡ length ids
      → select_loop offer c (length xs) i ch ≡ ok (consider_all xs ch)
  select_loop-consider_all offer c ids [] i ch h off at n = select_loop_end offer c i ch
  select_loop-consider_all offer c ids (x ∷ xs) i ch h off at n =
      let here : get_elem? ids i ≡ some x =
        subst (λ k. get_elem? ids k ≡ some x) (add_zero i) (sym (at 0)) in
      let g = get_refines i h here (omega arith) in
      select_loop_step offer c (length xs) i x ch g (off x (inl refl))
      ∙ select_loop-consider_all offer c ids xs (i + 1) (consider x (o x) ch) h
          (λ y t. off y (inr t)) (λ j. at (suc j) ∙ ap (get_elem? ids) (add_suc i j)) (omega arith)
    where
      add_zero : (k : ℕ) → k + 0 ≡ k
      add_zero k = omega arith

      add_suc : (k j : ℕ) → k + suc j ≡ k + 1 + j
      add_suc k j = omega arith

  -- Where the body of the loop computes the offers `o` for the free schedulers, either none of them
  -- has an offer and none is chosen, or one of them is chosen, with the workgroups and costs of its
  -- offer, and no other has a better one.
  pub select_best_scheduler-best :
      (offer : ℕ → Outcome (Option Offer)) (c : CircArray ℕ) (ids : List ℕ)
      → Fits o
      → Holds c ids
      → ((x : ℕ) → In x ids → offer x ≡ ok (o x))
      → ((select_best_scheduler offer c ≡ ok none) × ((x : ℕ) → In x ids → o x ≡ none))
        ⊎ ((idx : ℕ) × (f : Offer) × (select_best_scheduler offer c
              ≡ ok (some (idx, f.num_wgs, f.wg_cost, f.reconf_cost)))
            × In idx ids
            × (o idx ≡ some f)
            × ((x : ℕ) (g : Offer) → In x ids → o x ≡ some g → NoBetter f g))
  unfolding select_best_scheduler
  select_best_scheduler-best offer c ids fits h off =
      let run =
        select_loop-consider_all offer c ids ids 0 no_choice h off
          (λ j. ap (get_elem? ids) (zero_add j)) (omega arith) in
      let run' : select_loop offer c c.size 0 no_choice ≡ ok (consider_all ids no_choice) =
        ap (λ k. select_loop offer c k 0 no_choice) (sym h.len) ∙ run in
      elim (consider_all-Picked (λ x. ⊥) ids no_choice fits (inl (refl, λ x b. absurd b))) [
        | inl (m, nothing) ↦ inl (ground (arith, run', m), λ x i. nothing x (inl i))
        | inr (f, i, e, (rm, rw_, rr, rt), best) ↦
            let k = fits _ f e in
            inr (
              (consider_all ids no_choice).scheduler_idx,
              f,
              ground (arith, run', rm, rw_, rr, k),
              elim i [ inl t ↦ t | inr b ↦ absurd b ],
              e,
              λ x g t u. best x g (inl t) u,
            )
      ]
    where
      zero_add : (k : ℕ) → k ≡ 0 + k
      zero_add k = omega arith
