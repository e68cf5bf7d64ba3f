-- ===== src/CircArray/PopAt.antt =====
-- pop_at: the elements behind the removed one move up by one position.
use fpgaml.Common.{
  ℕ, zero, suc, ◌+◌, ◌<◌, ◌≤◌, ◌≡◌, ◌∙◌, ap, refl, List, [], ◌∷◌, length, get_elem?, set, some,
  Outcome, ok, arith, drop_last, length-set, remove_at, get_elem?-lt, ◌^◌,
}
use mathlib.Core.Path.{subst}
use native.Mathlib.Decide.{dec_lt}
use fpgaml.CircArray.{CircArray, get, put, shift_left, pop_at, pop_back}
use fpgaml.CircArray.Inv.{Holds}
use fpgaml.CircArray.Pop.{pop_back_step}
use fpgaml.CircArray.Index.{get_refines, put_refines}

module _ {A : Type 0} where
  remove_at-set :
      (i : ℕ) (xs : List A) (y : A)
      → get_elem? xs (suc i) ≡ some y
      → remove_at (suc i) (set xs i y) ≡ remove_at i xs
  remove_at-set i [] y e = refl
  remove_at-set zero (x ∷ []) y e = cc
  remove_at-set zero (x ∷ z ∷ xs) y e = ground arith
  remove_at-set (suc i) (x ∷ xs) y e = ap (◌∷◌ x) (remove_at-set i xs y e)

  remove_at_last : (i : ℕ) (xs : List A) → suc i ≡ length xs → remove_at i xs ≡ drop_last xs
  remove_at_last i [] e = absurd (omega arith)
  remove_at_last zero (x ∷ []) e = refl
  remove_at_last zero (x ∷ y ∷ xs) e = absurd (omega arith)
  remove_at_last (suc i) (x ∷ []) e = absurd (omega arith)
  remove_at_last (suc i) (x ∷ y ∷ xs) e = ap (◌∷◌ x) (remove_at_last i (y ∷ xs) (omega arith))

  Removed : Outcome (CircArray A) → ℕ → List A → Type 0
  Removed m n xs = (c' : CircArray A) × (m ≡ ok c') × Holds c' xs × (c'.capacity ≡ n)

  shift_left_done : (fuel i : ℕ) (c : CircArray A) → c.size ≤ i → shift_left (suc fuel) i c ≡ ok c
  unfolding shift_left
  shift_left_done fuel i c h = ground arith

  shift_left_last :
      (fuel i : ℕ) (c : CircArray A) {y : A} {c' : CircArray A}
      → suc i ≡ c.size
      → c.size < 2 ^ 31
      → pop_back c ≡ ok (y, c')
      → shift_left (suc fuel) i c ≡ shift_left fuel (i + 1) c'
  unfolding shift_left
  shift_left_last fuel i c e small p = ground arith

  shift_left_move :
      (fuel i : ℕ) (c : CircArray A) {y : A} {c' : CircArray A}
      → suc i < c.size
      → c.size < 2 ^ 31
      → get c (suc i) ≡ ok y
      → put c i y ≡ ok c'
      → shift_left (suc fuel) i c ≡ shift_left fuel (suc i) c'
  unfolding shift_left
  shift_left_move fuel i c lt small g p = let e : i + 1 ≡ suc i = omega arith in ground (arith, e)

  shift_left_removes :
      (fuel i : ℕ) (c : CircArray A) (xs : List A)
      → Holds c xs
      → i < length xs
      → length xs < fuel + i
      → Removed (shift_left fuel i c) c.capacity (remove_at i xs)
  unfolding Removed
  shift_left_removes zero i c xs h lt f = absurd (omega arith)
  shift_left_removes (suc zero) i c xs h lt f = absurd (omega arith)
  shift_left_removes (suc (suc fuel)) i c [] h lt f = absurd (omega arith)
  shift_left_removes (suc (suc fuel)) i c (x ∷ xs) h lt f = elim (dec_lt (suc i) c.size) [
    | no last ↦
        let (y, _, p, h') = pop_back_step h in
        let e : suc i ≡ c.size = omega (arith, h.len) in
        rw (remove_at_last i (x ∷ xs) (omega (arith, h.len))) (
          _,
          shift_left_last (suc fuel) i c e (omega (arith, h.fits, h.small)) p
              ∙ shift_left_done fuel (i + 1) _ (omega arith),
          h',
          refl,
        )
    | yes more ↦
        let (y, g) = get_elem?-lt (x ∷ xs) (suc i) (omega (arith, h.len)) in
        let (c', p, h', n) = put_refines i y h (omega (arith, h.len)) in
        let (d, q, h'', n') =
          shift_left_removes (suc fuel) (suc i) c' (set (x ∷ xs) i y) h'
            (omega (arith, length-set (x ∷ xs) i y, h.len))
            (omega (arith, length-set (x ∷ xs) i y)) in
        (
          d,
          shift_left_move (suc fuel) i c more (omega (arith, h.fits, h.small))
                (get_refines (suc i) h g (omega (arith, h.len))) p
              ∙ q,
          subst (Holds d) (remove_at-set i (x ∷ xs) y g) h'',
          n' ∙ n,
        )
  ]

  -- pop_at hands out the element in that position and leaves the others in their order.
  pub pop_at_refines :
      {c : CircArray A} {xs : List A} (i : ℕ) {x : A}
      → Holds c xs
      → get_elem? xs i ≡ some x
      → i < length xs
      → (c' : CircArray A) × (pop_at c i ≡ ok (x, c'))
        × Holds c' (remove_at i xs)
        × (c'.capacity ≡ c.capacity)
  unfolding pop_at Removed
  pop_at_refines {c} {xs} i h e lt =
      let (c', q, h', n) = shift_left_removes (suc c.size) i c xs h lt (omega (arith, h.len)) in
      let g = get_refines i h e lt in (c', ground (arith, q, g, h.len, h.fits, h.small), h', n)
