-- ===== src/Common/Names.antt =====
-- Strings as lists of the numbers of their characters, and maps keyed by them (std::map): lists of
-- pairs, in which the first pair of a key counts.
use fpgaml.Common.Tests.{◌==◌, Bool-cases, if◌then◌else◌}
use Prim.Native.Nat.{ℕ}
use mathlib.Core.Path.{◌≡◌, ◌∙◌, refl, ap, sym}
use mathlib.Core.Logic.{inl, inr}
use mathlib.Core.Bool.{Bool, true, false, ◌&&◌}
use mathlib.Core.List.{List, [], ◌∷◌}
use mathlib.Core.Option.{Option, none, some}
use native.Mathlib.Omega.{arith}

abbrev pub Name : Type 0
Name = List ℕ

abbrev pub same : Name → Name → Bool
same [] [] = true
same [] (y ∷ ys) = false
same (x ∷ xs) [] = false
same (x ∷ xs) (y ∷ ys) = (x == y) && same xs ys

module _ {A : Type 0} where
  abbrev pub find : Name → List (Name × A) → Option A
  find k [] = none
  find k ((l, v) ∷ m) = if same k l then some v else find k m

  -- `map[k] = v`
  abbrev pub put : Name → A → List (Name × A) → List (Name × A)
  put k v [] = (k, v) ∷ []
  put k v ((l, w) ∷ m) = let rest = put k v m in if same k l then (l, v) ∷ m else (l, w) ∷ rest

  -- `map.insert ({k, v})`, which leaves a value that is there
  abbrev pub insert_new : Name → A → List (Name × A) → List (Name × A)
  insert_new k v m = elim (find k m) [ some w ↦ m | none ↦ put k v m ]

pub same_refl : (k : Name) → same k k ≡ true
same_refl [] = refl
same_refl (x ∷ xs) = ground (arith, same_refl xs)

pub same→≡ : (k l : Name) → same k l ≡ true → k ≡ l
same→≡ [] [] h = refl
same→≡ [] (y ∷ ys) h = cc
same→≡ (x ∷ xs) [] h = cc
same→≡ (x ∷ xs) (y ∷ ys) h =
    let ih : same xs ys ≡ true → xs ≡ ys = same→≡ xs ys in ground (arith, ih, h)

module _ {A : Type 0} where
  pub find-put_self : (k : Name) (v : A) (m : List (Name × A)) → find k (put k v m) ≡ some v
  find-put_self k v [] = ground (arith, same_refl k)
  find-put_self k v ((l, w) ∷ m) = ground (arith, find-put_self k v m)

  pub find-put_ne :
      (k l : Name) (v : A) (m : List (Name × A)) → same k l ≡ false → find k (put l v m) ≡ find k m
  find-put_ne k l v [] h = ground (arith, h)
  find-put_ne k l v ((n, w) ∷ m) h =
      let e : same l n ≡ true → l ≡ n = same→≡ l n in
      elim (Bool-cases (same l n)) [
        | inl q ↦ let f : same k n ≡ false = sym (ap (same k) (e q)) ∙ h in ground (arith, f, q)
        | inr q ↦ ground (arith, q, find-put_ne k l v m h)
      ]
