-- ===== src/Common/Middle.antt =====
-- Lists with an element in the middle, behind `xs`.
use Prim.Native.Nat.{◌+◌, ◌<◌}
use mathlib.Core.Path.{◌≡◌, refl, ap}
use mathlib.Core.List.{List, [], ◌∷◌, ◌++◌}
use mathlib.Core.Option.{some}
use native.Mathlib.Omega.{arith}
use fpgaml.Common.Lists.{length, get_elem?, get_or, set}

module _ {A : Type 0} where
  pub get_middle : (xs ys : List A) (y : A) → get_elem? (xs ++ (y ∷ ys)) (length xs) ≡ some y
  get_middle [] ys y = refl
  get_middle (x ∷ xs) ys y = get_middle xs ys y

  pub or_middle : (xs ys : List A) (y d : A) → get_or (xs ++ (y ∷ ys)) (length xs) d ≡ y
  or_middle [] ys y d = refl
  or_middle (x ∷ xs) ys y d = or_middle xs ys y d

  pub set_middle :
      (xs ys : List A) (y z : A) → set (xs ++ (y ∷ ys)) (length xs) z ≡ (xs ++ (z ∷ [])) ++ ys
  set_middle [] ys y z = refl
  set_middle (x ∷ xs) ys y z = ap (λ k. x ∷ k) (set_middle xs ys y z)

  pub length-middle : (xs ys : List A) (y : A) → length xs < length (xs ++ (y ∷ ys))
  length-middle [] ys y = omega arith
  length-middle (x ∷ xs) ys y = omega (arith, length-middle xs ys y)

  pub append_shift : (xs ys : List A) (y : A) → xs ++ (y ∷ ys) ≡ (xs ++ (y ∷ [])) ++ ys
  append_shift [] ys y = refl
  append_shift (x ∷ xs) ys y = ap (λ k. x ∷ k) (append_shift xs ys y)

  pub length-snoc : (xs : List A) (y : A) → length (xs ++ (y ∷ [])) ≡ length xs + 1
  length-snoc [] y = refl
  length-snoc (x ∷ xs) y = omega (arith, length-snoc xs y)
