-- ===== src/AlgoSimple/Tests.antt =====
-- The theorems on the search at inputs.
use fpgaml.Common.{◌≡◌, zero, suc, arith, refl, [], ◌∷◌}
use fpgaml.Common.Int.{pos, negsuc, ◌+ℤ◌, ◌*ℤ◌, wrap_int}
use fpgaml.AlgoSimple.{AlgoSimple, unsuitable_island, recursive_function, island_cost}
use fpgaml.AlgoSimple.Least.{IsBounded, IsLeast, recursive_function-IsLeast}

-- Three islands, of which the second cannot run the kernel.
abbrev three_islands : AlgoSimple
three_islands = record {
  num_islands = 3;
  wgs_per_islands = pos 0 ∷ unsuitable_island ∷ pos 0 ∷ [];
  work_in_progress_cost = pos 0 ∷ unsuitable_island ∷ pos 5 ∷ [];
  current_work_potential_cost = pos 3 ∷ unsuitable_island ∷ pos 2 ∷ [];
  current_work_reconf_cost = pos 0 ∷ unsuitable_island ∷ pos 0 ∷ [];
  result = pos 0 ∷ unsuitable_island ∷ pos 0 ∷ [];
  current_min = negsuc 0;
}

-- Four workgroups: three for the first island, at 9, and one for the third, at 2 after 5.
four_wgs :
    ((recursive_function 3 4 0 three_islands).result ≡ pos 3 ∷ unsuitable_island ∷ pos 1 ∷ [])
    × ((recursive_function 3 4 0 three_islands).current_min ≡ pos 9)
unfolding recursive_function ◌+ℤ◌ ◌*ℤ◌ island_cost wrap_int
four_wgs = (refl, refl)

recursive_function-IsLeast_example :
    let s' = recursive_function 3 4 0 three_islands in
    IsLeast three_islands 4 s'.result s'.current_min
recursive_function-IsLeast_example =
    recursive_function-IsLeast three_islands 4 refl refl refl (omega arith) bounded
  where
    bounded : IsBounded three_islands 4
    bounded zero lt u = (3, 0, 0, refl, refl, refl, omega arith)
    bounded (suc zero) lt u = cc
    bounded (suc (suc zero)) lt u = (2, 5, 0, refl, refl, refl, omega arith)
    bounded (suc (suc (suc j))) lt u = absurd (omega (arith, lt))
