-- ===== src/NdRange/Coordinates.antt =====
-- get_3d_from_1d: the coordinates of a workgroup lie in the ndrange and name no other workgroup.
use native.Mathlib.Nat.{div-add-mod', div-lt_iff_lt-mul, mod-lt}
use fpgaml.Common.{ℕ, ◌+◌, ◌*◌, ◌/◌, ◌<◌, ◌≡◌}
use fpgaml.NdRange.{NdRange, get_3d_from_1d}

-- The coordinates are in range, and the number can be computed back from them.
pub get_3d_from_1d_lem :
    (r : NdRange) (n : ℕ)
    → 0 < r.size_y
    → 0 < r.size_z
    → n < r.size_x * r.size_y * r.size_z
    → let (x, y, z) = get_3d_from_1d r n in
      ((x * r.size_y + y) * r.size_z + z ≡ n) × (x < r.size_x) × (y < r.size_y) × (z < r.size_z)
unfolding get_3d_from_1d
get_3d_from_1d_lem r n hy hz h =
    let in_plane : n / r.size_z < r.size_x * r.size_y = (div-lt_iff_lt-mul hz).1 h in
    let in_line : n / r.size_z / r.size_y < r.size_x = (div-lt_iff_lt-mul hy).1 in_plane in
    let y_back = div-add-mod' (n / r.size_z) r.size_y in
    let z_back = div-add-mod' n r.size_z in (rw y_back z_back, in_line, mod-lt _ hy, mod-lt _ hz)
