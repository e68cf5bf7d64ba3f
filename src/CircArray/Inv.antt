-- ===== src/CircArray/Inv.antt =====
-- The representation invariant of a circular buffer, and the list of elements that it holds.
use native.Mathlib.Nat.{mod-eq_of_lt, mod-eq-sub-mod}
use native.Mathlib.Decide.{dec_lt}
use fpgaml.Common.{
  ℕ, suc, ◌+◌, ◌-◌, ◌%◌, ◌^◌, ◌≤◌, ◌<◌, ◌≡◌, ◌≢◌, ◌⊎◌, inl, inr, refl, List, [], length, get_elem?,
  some, ok, arith, read_cell, write_cell, set, checked_mod, length-replicate,
}
use fpgaml.CircArray.{CircArray, create}

-- `Holds c xs`: the object is well formed and its elements, oldest first, are `xs`.
pub record Holds {ℓ} {A : Type ℓ} (c : CircArray A) (xs : List A) : Type ℓ where
  pub storage : length c.array ≡ c.capacity
  pub small : c.capacity < 2 ^ 31
  pub start_in : c.start < c.capacity
  pub fits : c.size ≤ c.capacity
  pub len : length xs ≡ c.size
  pub cells : (i : ℕ) → i < c.size → get_elem? c.array ((c.start + i) % c.capacity) ≡ get_elem? xs i

-- Going round the array once at most.
pub slot_cases :
    (h i cap : ℕ)
    → h < cap
    → i ≤ cap
    → ((h + i < cap) × ((h + i) % cap ≡ h + i)) ⊎ ((cap ≤ h + i) × ((h + i) % cap + cap ≡ h + i))
slot_cases h i cap hh hi = elim (dec_lt (h + i) cap) [
  | yes p ↦ inl (p, mod-eq_of_lt p)
  | no p ↦ inr (
    omega arith,
    omega (
      arith,
      mod-eq-sub-mod {n = h + i} {m = cap} (omega arith),
      mod-eq_of_lt {n = h + i - cap} {m = cap} (omega arith),
    ),
  )
]

pub slot-lt : (h i cap : ℕ) → h < cap → i ≤ cap → (h + i) % cap < cap
slot-lt h i cap hh hi = omega (arith, slot_cases h i cap hh hi)

-- Different positions lie in different cells.
pub slot-ne : (h i j cap : ℕ) → h < cap → i < cap → j < cap → i ≢ j → (h + i) % cap ≢ (h + j) % cap
slot-ne h i j cap hh hi hj ne =
    omega (arith, slot_cases h i cap hh (omega arith), slot_cases h j cap hh (omega arith))

-- One position further on is the next cell.
pub slot-suc : (h i cap : ℕ) → h < cap → i < cap → ((h + 1) % cap + i) % cap ≡ (h + suc i) % cap
slot-suc h i cap hh hi = omega (
  arith,
  slot_cases h 1 cap hh (omega arith),
  slot_cases ((h + 1) % cap) i cap (slot-lt h 1 cap hh (omega arith)) (omega arith),
  slot_cases h (suc i) cap hh (omega arith),
)

module _ {ℓ} {A : Type ℓ} where
  pub read_cell-some :
      (xs : List A) (i : ℕ) {x : A} → get_elem? xs i ≡ some x → read_cell xs i ≡ ok x
  read_cell-some xs i e = rw (read_cell, e)

  pub write_cell-ok :
      (xs : List A) (i : ℕ) (v : A) → i < length xs → write_cell xs i v ≡ ok (set xs i v)
  write_cell-ok xs i v h = ground arith

  -- A new buffer of a positive capacity is well formed and empty.
  pub create-Holds : (blank : A) (n : ℕ) → 0 < n → n < 2 ^ 31 → Holds (create blank n) []
  unfolding create
  create-Holds blank n pos small = record {
    storage = length-replicate n blank;
    small = small;
    start_in = pos;
    fits = omega arith;
    len = refl;
    cells = λ i h. absurd (omega arith);
  }

pub checked_mod-ok : (a b : ℕ) → 0 < b → checked_mod a b ≡ ok (a % b)
checked_mod-ok a b h = ground arith
