-- ===== src/CircArray/Deque.antt =====
-- The abstract view of a circular buffer: a double-ended queue of at most `cap` elements, oldest
-- first. It is written without the code's arrays and indices.
use fpgaml.Common.{
  ℕ, Bool, List, [], ◌∷◌, ◌++◌, Option, none, some, if◌then◌else◌, ◌==◌, length, drop_last,
}
use fpgaml.CircArray.{Rc, success, no_space_error, buffer_empty_error}

module _ {ℓ} {A : Type ℓ} where
  abbrev pub tail : List A → List A
  tail [] = []
  tail (x ∷ xs) = xs

  abbrev pub last? : List A → Option A
  last? [] = none
  last? (x ∷ []) = some x
  last? (x ∷ y ∷ xs) = last? (y ∷ xs)

  unfoldable pub pop_front_rc : List A → Rc × Option A × List A
  pop_front_rc [] = (buffer_empty_error, none, [])
  pop_front_rc (x ∷ xs) = (success, some x, xs)

  unfoldable pub pop_back_rc : List A → Rc × Option A × List A
  pop_back_rc [] = (buffer_empty_error, none, [])
  pop_back_rc (x ∷ xs) = (success, last? (x ∷ xs), drop_last (x ∷ xs))

  -- A full queue refuses the element, or gives up the one at the other end.
  unfoldable pub push_back : ℕ → List A → A → Bool → Rc × List A
  push_back cap xs v overwrite =
      if length xs == cap
      then if overwrite then (success, tail xs ++ (v ∷ [])) else (no_space_error, xs)
      else (success, xs ++ (v ∷ []))

  unfoldable pub push_front : ℕ → List A → A → Bool → Rc × List A
  push_front cap xs v overwrite =
      if length xs == cap
      then if overwrite then (success, v ∷ drop_last xs) else (no_space_error, xs)
      else (success, v ∷ xs)
