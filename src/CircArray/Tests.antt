-- ===== src/CircArray/Tests.antt =====
-- Runs of cpp/circ_array.hpp in the manner of cpp/test_circ_array, and the theorems at inputs.
use fpgaml.Common.{
  ℕ, zero, suc, ◌+◌, ◌%◌, get_elem?, ◌<◌, ◌≡◌, refl, true, false, List, [], ◌∷◌, ok, throw, fault,
  Exception, arith,
}
use fpgaml.CircArray.{CircArray, success, create, push_back, push_front, get, pop_at}
use fpgaml.CircArray.Inv.{Holds}
use fpgaml.CircArray.PopAt.{pop_at_refines}
use fpgaml.CircArray.Runs.{Op, push_back_op, pop_front_op, pop_back_op, run, queue_run, run_refines}

-- 8, 4 and 3 in an array of four cells, 8 in the last one.
abbrev wrapped : CircArray ℕ
wrapped = record { array = 4 ∷ 3 ∷ 0 ∷ 8 ∷ []; start = 3; size = 3; capacity = 4 }

wrapped_built :
    (r : CircArray ℕ) × (push_back {A = ℕ} (create 0 4) 4 false
      ≡ ok (success, record { array = 4 ∷ 0 ∷ 0 ∷ 0 ∷ []; start = 0; size = 1; capacity = 4 }))
    × (push_front {A = ℕ}
          (record { array = 4 ∷ 3 ∷ 0 ∷ 0 ∷ []; start = 0; size = 2; capacity = 4 })
          8
          false
        ≡ ok (success, r))
    × (r ≡ wrapped)
unfolding create push_back push_front
wrapped_built = (wrapped, refl, refl, refl)

wrapped-Holds : Holds wrapped (8 ∷ 4 ∷ 3 ∷ [])
wrapped-Holds = record {
  storage = refl;
  small = omega arith;
  start_in = omega arith;
  fits = omega arith;
  len = refl;
  cells = cells;
}
  where
    cells :
        (i : ℕ)
        → i < 3
        → get_elem? {A = ℕ} (4 ∷ 3 ∷ 0 ∷ 8 ∷ []) ((3 + i) % 4)
          ≡ get_elem? {A = ℕ} (8 ∷ 4 ∷ 3 ∷ []) i
    cells zero h = refl
    cells (suc zero) h = refl
    cells (suc (suc zero)) h = refl
    cells (suc (suc (suc i))) h = absurd (omega arith)

pop_at_runs : pop_at wrapped 1 ≡ ok (4, record wrapped { array = 3 ∷ 3 ∷ 0 ∷ 8 ∷ []; size = 2 })
unfolding pop_at
pop_at_runs = refl

-- The bound `_size - 1` of the index test wraps on an empty buffer: nothing is thrown.
get_on_empty : get {A = ℕ} (create 7 4) 2 ≡ ok 7
unfolding get create
get_on_empty = refl

-- A buffer of capacity 0 divides by it.
get_on_null : get {A = ℕ} (create 7 0) 0 ≡ fault
unfolding get create
get_on_null = refl

-- The case of the FIXME in push_back.
overwrite_on_null : push_back {A = ℕ} (create 7 0) 1 true ≡ throw Exception.empty_buffer
unfolding push_back create
overwrite_on_null = refl

pop_at_refines_example :
    (c' : CircArray ℕ) × (pop_at wrapped 1 ≡ ok (4, c')) × Holds c' (8 ∷ 3 ∷ []) × (c'.capacity ≡ 4)
pop_at_refines_example = pop_at_refines 1 wrapped-Holds refl (omega arith)

abbrev script : List (Op ℕ)
script = push_back_op 5 false ∷ push_back_op 6 true ∷ pop_front_op ∷ pop_back_op ∷ []

run_refines_example : run wrapped script ≡ ok (queue_run 4 (8 ∷ 4 ∷ 3 ∷ []) script)
run_refines_example = run_refines script wrapped-Holds
