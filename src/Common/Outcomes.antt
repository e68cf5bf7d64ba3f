-- ===== src/Common/Outcomes.antt =====
-- What a C++ call can do: return, throw, fail an assertion, or leave the defined behaviour.
use Prim.Native.Nat.{ℕ, ◌%◌}
use mathlib.Core.Bool.{Bool, true, false}
use mathlib.Core.List.{List}
use mathlib.Core.Option.{Option, none, some}
use mathlib.Core.Path.{◌≡◌, refl, ap}
use fpgaml.Common.Tests.{ltb, ◌==◌, if◌then◌else◌}
use fpgaml.Common.Lists.{length, get_elem?, set}

-- The exceptions that the program throws, or that the standard library throws at it.
pub data Exception : Type 0 where
  invalid_index empty_buffer runtime_error out_of_range : Exception

-- `fault` is undefined behaviour: an access outside an array, a null or dangling pointer, a
-- division by zero.
pub data Outcome {ℓ} (A : Type ℓ) : Type ℓ where
  ok : A → Outcome A
  throw : Exception → Outcome A
  assert_failed : Outcome A
  fault : Outcome A

infixl 5 ◌>>=◌ ◌>>◌
abbrev pub ◌>>=◌ {ℓ κ} : {A : Type ℓ} {B : Type κ} → Outcome A → (A → Outcome B) → Outcome B
ok a >>= f = f a
throw e >>= f = throw e
assert_failed >>= f = assert_failed
fault >>= f = fault

abbrev pub ◌>>◌ {ℓ} : {B : Type ℓ} → Outcome (Unit {0}) → Outcome B → Outcome B
m >> k = m >>= λ _. k

-- `assert (b)`
abbrev pub assert : Bool → Outcome (Unit {0})
assert true = ok tt
assert false = assert_failed

-- `a % b`
abbrev pub checked_mod : ℕ → ℕ → Outcome ℕ
checked_mod a b = if b == 0 then fault else ok (a % b)

module _ {ℓ} {A : Type ℓ} where
  -- `array[i]` as a value
  abbrev pub read_cell : List A → ℕ → Outcome A
  read_cell xs i = elim (get_elem? xs i) [ none ↦ fault | some x ↦ ok x ]

  -- `array[i] = v`
  abbrev pub write_cell : List A → ℕ → A → Outcome (List A)
  write_cell xs i v = if ltb i (length xs) then ok (set xs i v) else fault

-- A call of two steps that returns has returned from both.
pub bind-ok {ℓ κ} :
    {A : Type ℓ} {B : Type κ} (m : Outcome A) (f : A → Outcome B) (b : B)
    → (m >>= f) ≡ ok b
    → (a : A) × (m ≡ ok a) × (f a ≡ ok b)
bind-ok (ok a) f b e = (a, refl, e)
bind-ok (throw x) f b e = absurd cc
bind-ok assert_failed f b e = absurd cc
bind-ok fault f b e = absurd cc

module _ {ℓ} {A : Type ℓ} where
  abbrev result_or : A → Outcome A → A
  result_or d (ok a) = a
  result_or d _ = d

  abbrev value_or : A → Option A → A
  value_or d none = d
  value_or d (some a) = a

  pub ok-injective : {a b : A} → ok a ≡ ok b → a ≡ b
  ok-injective {a} e = ap (result_or a) e

  pub some-injective : {a b : A} → some a ≡ some b → a ≡ b
  some-injective {a} e = ap (value_or a) e
