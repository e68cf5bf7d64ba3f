-- ===== src/NdRange/Tests.antt =====
-- Runs of cpp/ndrange.cc in the manner of cpp/test_ndrange, and the theorems at inputs.
use fpgaml.Common.{◌+◌, ◌*◌, ◌<◌, ◌≡◌, refl, true, false, [], ◌∷◌, arith, some, none}
use fpgaml.NdRange.{NdRange, carve_wgs, has_more_wgs, get_3d_from_1d}
use fpgaml.NdRange.Carve.{carve_all, Contiguous, TotalIsEnd, carve_all_covers}
use fpgaml.NdRange.Coordinates.{get_3d_from_1d_lem}
use fpgaml.NdRange.Life.{
  Step, carve, Reach, here, next, IsCounted, Reach-IsCounted, completes_early,
}
use fpgaml.NdRange.Completion.{IsDone, end_more, end_more_lem}
use fpgaml.Common.{ok, ◌⊎◌, All}
use fpgaml.Objects.{Objects, Event, Kernel, new_event}
use fpgaml.Samples.{ten_wgs, ten_wgs-IsValid}

-- A request for more than is left gets what is left.
carve_rest :
    ((carve_wgs 7 ten_wgs 9).1.next_wgr ≡ 10) × (has_more_wgs (carve_wgs 7 ten_wgs 9).1 ≡ false)
unfolding carve_wgs has_more_wgs
carve_rest = (refl, refl)

carve_all_covers_example :
    let (ws, r') = carve_all 7 ten_wgs (2 ∷ 1 ∷ 3 ∷ []) in
    Contiguous 4 ws 10
    × All TotalIsEnd ws
    × (has_more_wgs r' ≡ false)
    × (r'.wgrs_in_the_wild ≡ 1 + 3)
carve_all_covers_example =
    carve_all_covers 7 ten_wgs (2 ∷ 1 ∷ 3 ∷ []) ten_wgs-IsValid (omega arith) (omega arith)
      (omega arith)

get_3d_from_1d_lem_example :
    let (x, y, z) = get_3d_from_1d ten_wgs 6 in
    ((x * 1 + y) * 1 + z ≡ 6) × (x < 10) × (y < 1) × (z < 1)
get_3d_from_1d_lem_example = get_3d_from_1d_lem ten_wgs 6 (omega arith) (omega arith) (omega arith)

-- Ten workgroups, of which none has been handed out.
abbrev untouched : NdRange
untouched = record ten_wgs { next_wgr = 0; wgrs_in_the_wild = 0 }

untouched-IsCounted : IsCounted 10 0 untouched
untouched-IsCounted = record {
  valid = record { bounded = omega arith; fits = omega arith };
  size = refl;
  some_wgs = omega arith;
  held_is = refl;
  counted = omega arith;
}

four_carved : Reach 7 0 untouched 1 (carve_wgs 7 untouched 4).1
unfolding has_more_wgs
four_carved = next here (carve 0 untouched 4 (omega arith) (omega arith) refl) refl

Reach-IsCounted_example : IsCounted 10 1 (carve_wgs 7 untouched 4).1
Reach-IsCounted_example = Reach-IsCounted 7 10 untouched-IsCounted four_carved

completes_early_example :
    (t : NdRange) × Reach 7 0 untouched 1 t × Step 7 1 t 0 none × (has_more_wgs t ≡ true)
completes_early_example = completes_early 7 untouched untouched-IsCounted refl (omega arith)

-- An ndrange with two ranges in the wild, whose event has a callback for the queue 4.
abbrev two_out : NdRange
two_out = record ten_wgs { wgrs_in_the_wild = 2 }

abbrev its_event : Event
its_event = record new_event { counter = 2; on_complete = some 4 }

abbrev its_kernel : Kernel
its_kernel = record { counter = 2; program = none; args = [] }

abbrev its_objects : Objects
its_objects = record {
  events = some its_event ∷ [];
  mems = [];
  kernels = some its_kernel ∷ [];
  pending = [];
}

end_more_lem_example :
    ((r' : NdRange) × (2 < two_out.wgrs_in_the_wild)
      × (end_more 1 two_out its_objects ≡ ok (some r', its_objects))
      × (r'.wgrs_in_the_wild + 2 ≡ two_out.wgrs_in_the_wild))
    ⊎ ((o' : Objects) × (2 ≡ two_out.wgrs_in_the_wild)
        × (end_more 1 two_out its_objects ≡ ok (none, o'))
        × IsDone two_out its_event its_kernel 4 0 0 o')
end_more_lem_example =
    end_more_lem 1 two_out its_objects its_event its_kernel 4 0 0 (omega arith) (omega arith) refl
      refl refl refl refl
