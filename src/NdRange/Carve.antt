-- ===== src/NdRange/Carve.antt =====
-- carve_wgs: the ranges that are handed out cover the workgroups in order, without a gap.
use fpgaml.Common.{
  All, ℕ, ◌+◌, ◌-◌, ◌^◌, ◌≤◌, ◌<◌, ◌≡◌, sym, refl, false, List, [], ◌∷◌, arith, ok, throw,
  Exception, if◌then◌else◌, length, mul_u32, none, some, ◌==◌,
}
use Prim.Native.Nat.{min}
use mathlib.Core.Path.{subst₂}
use fpgaml.Common.Names.{Name}
use fpgaml.NdRange.{
  WorkGroupRange, NdRange, new_ndrange, has_more_wgs, carve_wgs, wgs_to_carve,
  decrement_wgrs_counter, count_dimensions,
}

-- What every operation keeps: no more is handed out than there is, and the sizes fit an `unsigned`.
pub record IsValid (r : NdRange) : Type 0 where
  pub bounded : r.next_wgr ≤ r.total_size
  pub fits : r.total_size < 2 ^ 32

-- A constructed ndrange is valid, has handed out nothing, and holds size_x workgroups where the
-- other sizes are 1.
pub new_ndrange-IsValid :
    (kernel event : ℕ) (resource : Name) (size_x : ℕ)
    → size_x < 2 ^ 32
    → (r : NdRange) × (new_ndrange kernel event resource size_x 1 1 ≡ ok r)
      × IsValid r
      × (r.next_wgr ≡ 0)
      × (r.wgrs_in_the_wild ≡ 0)
      × (r.total_size ≡ size_x)
unfolding new_ndrange
new_ndrange-IsValid kernel event resource size_x h = (
  record {
    kernel = kernel;
    event = event;
    resource_string = resource;
    size_x = size_x;
    size_y = 1;
    size_z = 1;
    next_wgr = 0;
    total_size = mul_u32 (mul_u32 size_x 1) 1;
    wgrs_in_the_wild = 0;
    dimensions = count_dimensions size_x 1 1;
  },
  ground arith,
  omega arith,
  refl,
  refl,
  omega arith,
)

-- Two sizes above 1 are refused.
pub new_ndrange_dims :
    (kernel event : ℕ) (resource : Name) (x y z : ℕ)
    → 1 < count_dimensions x y z
    → new_ndrange kernel event resource x y z ≡ throw Exception.runtime_error
unfolding new_ndrange
new_ndrange_dims kernel event resource x y z h = ground arith

-- A request takes what it asks for, or what is left.
pub wgs_to_carve_lem :
    (r : NdRange) (n : ℕ)
    → IsValid r
    → 0 < r.total_size
    → n < 2 ^ 32
    → wgs_to_carve r n ≡ min n (r.total_size - r.next_wgr)
unfolding wgs_to_carve
wgs_to_carve_lem r n v pos h = ground (arith, v)

-- carve_wgs hands out the next workgroups: the range starts where the last one ended, its `size_x`
-- holds where it ends, the counter of ranges in the wild goes up, and the ndrange stays valid.
pub carve_wgs_lem :
    (self : ℕ) (r : NdRange) (n : ℕ)
    → IsValid r
    → 0 < r.total_size
    → n < 2 ^ 32
    → r.wgrs_in_the_wild + 1 < 2 ^ 32
    → let (w, r') = carve_wgs self r n in
      (w.start_x ≡ r.next_wgr)
      × (w.size_x ≡ r'.next_wgr)
      × (r'.next_wgr ≡ r.next_wgr + min n (r.total_size - r.next_wgr))
      × (r'.wgrs_in_the_wild ≡ r.wgrs_in_the_wild + 1)
      × (r'.total_size ≡ r.total_size)
      × (w.parent ≡ some self)
      × IsValid r'
unfolding carve_wgs
carve_wgs_lem self r n v pos h wild = let e = wgs_to_carve_lem r n v pos h in ground (arith, v, e)

-- The total size that a carved range reports is where it ends: it is larger than the number of
-- workgroups carved, by the start of the range.
pub carve_wgs_oversized :
    (self : ℕ) (r : NdRange) (n : ℕ)
    → IsValid r
    → 0 < r.total_size
    → n < 2 ^ 32
    → (carve_wgs self r n).0.total_size ≡ r.next_wgr + min n (r.total_size - r.next_wgr)
unfolding carve_wgs
carve_wgs_oversized self r n v pos h = let e = wgs_to_carve_lem r n v pos h in ground (arith, v, e)

-- An ndrange without workgroups hands out whatever is asked for.
pub carve_wgs_from_empty :
    (self : ℕ) (r : NdRange) (n : ℕ)
    → r.total_size ≡ 0
    → r.next_wgr ≡ 0
    → n < 2 ^ 32
    → (carve_wgs self r n).0.size_x ≡ n
unfolding carve_wgs wgs_to_carve
carve_wgs_from_empty self r n empty start h = ground arith

-- The last range to finish completes and deletes the ndrange, whether or not workgroups are left to
-- be handed out; before that the counter goes down and nothing else changes.
pub decrement_wgrs_counter_lem :
    (r : NdRange)
    → 0 < r.wgrs_in_the_wild
    → r.wgrs_in_the_wild < 2 ^ 32
    → decrement_wgrs_counter r ≡ (
        if r.wgrs_in_the_wild == 1
        then none
        else some (record r { wgrs_in_the_wild = r.wgrs_in_the_wild - 1 }))
unfolding decrement_wgrs_counter
decrement_wgrs_counter_lem r pos fit = ground arith

-- carve_wgs for each of a list of requests, in order.
pub carve_all : ℕ → NdRange → List ℕ → List WorkGroupRange × NdRange
carve_all self r [] = ([], r)
carve_all self r (n ∷ ns) =
    let (w, r') = carve_wgs self r n in let (ws, r'') = carve_all self r' ns in (w ∷ ws, r'')

abbrev pub sum : List ℕ → ℕ
sum [] = 0
sum (n ∷ ns) = n + sum ns

-- Each range starts where the one before it ended.
abbrev pub Contiguous : ℕ → List WorkGroupRange → ℕ → Type 0
Contiguous a [] b = a ≡ b
Contiguous a (w ∷ ws) b = (w.start_x ≡ a) × Contiguous w.size_x ws b

-- The range's total size, which is the product of its sizes, is where it ends.
abbrev pub TotalIsEnd : WorkGroupRange → Type 0
TotalIsEnd w = w.total_size ≡ w.size_x

-- Requests for all that is left: where `size_x` is read as the end of a range, the ranges cover it
-- without gap or overlap, and nothing is left after them. It is declared as a size, and so taken for
-- the total size of the range, which is where the range ends and not how many workgroups it has.
pub carve_all_covers :
    (self : ℕ) (r : NdRange) (ns : List ℕ)
    → IsValid r
    → 0 < r.total_size
    → r.next_wgr + sum ns ≡ r.total_size
    → r.wgrs_in_the_wild + length ns < 2 ^ 32
    → let (ws, r') = carve_all self r ns in
      Contiguous r.next_wgr ws r.total_size
      × All TotalIsEnd ws
      × (has_more_wgs r' ≡ false)
      × (r'.wgrs_in_the_wild ≡ r.wgrs_in_the_wild + length ns)
unfolding carve_all has_more_wgs
carve_all_covers self r [] v pos e fit = (omega arith, tt, ground (arith, v, e), omega arith)
carve_all_covers self r (n ∷ ns) v pos e fit =
    let c = carve_wgs_lem self r n v pos (omega (arith, v.fits)) (omega arith) in
    let ih =
      carve_all_covers self (carve_wgs self r n).1 ns c.6 (omega (arith, c))
        (omega (arith, c, v.bounded)) (omega (arith, c)) in
    (
      (
        c.0,
        subst₂ (λ a b. Contiguous a (carve_all self (carve_wgs self r n).1 ns).0 b) (sym c.1) c.4
            ih.0,
      ),
      (omega (arith, c, carve_wgs_oversized self r n v pos (omega (arith, v.fits))), ih.1),
      ih.2,
      omega (arith, ih, c),
    )
