-- ===== src/NdRange.antt =====
-- WorkGroupRange and NDRange of cpp/ndrange.h and cpp/ndrange.cc: an ndrange hands out ("carves")
-- ranges of its workgroups, and counts those that are still being executed. An object that another
-- one points to is found by its number: `parent`, `kernel` and `event` are such numbers. `unsigned`
-- is 32 bits wide and wraps; `size_t` is 64 bits wide.
pub mod Carve
pub mod Life
pub mod Completion
pub mod Coordinates
mod Tests
use fpgaml.Common.{
  ℕ, ◌+◌, ◌/◌, ◌%◌, ◌^◌, Bool, true, false, not, ◌&&◌, if◌then◌else◌, ltb, ◌==◌, add_u32, sub_u32,
  mul_u32, u32_max, add_size, Outcome, ok, throw, Exception, fault, Option, none, some,
}
use fpgaml.Common.Names.{Name}

-- `parent` is the ndrange that the completion is reported to, if there is one.
pub record WorkGroupRange : Type 0 where
  pub parent : Option ℕ
  pub start_x : ℕ
  pub size_x : ℕ
  pub start_y : ℕ
  pub size_y : ℕ
  pub start_z : ℕ
  pub size_z : ℕ
  pub execution_cost : ℕ
  pub execution_start_time : ℕ
  pub total_size : ℕ

-- WorkGroupRange (), which leaves m_total_size unset; it is 0 here.
abbrev pub no_range : WorkGroupRange
no_range = record {
  parent = none;
  start_x = 0;
  size_x = 0;
  start_y = 0;
  size_y = 0;
  start_z = 0;
  size_z = 0;
  execution_cost = 0;
  execution_start_time = 0;
  total_size = 0;
}

-- WorkGroupRange (NDRange&, start_x, size_x, start_y, size_y, start_z, size_z)
unfoldable pub new_range : ℕ → ℕ → ℕ → ℕ → ℕ → ℕ → ℕ → WorkGroupRange
new_range ndrange start_x size_x start_y size_y start_z size_z = record {
  parent = some ndrange;
  start_x = start_x;
  size_x = size_x;
  start_y = start_y;
  size_y = size_y;
  start_z = start_z;
  size_z = size_z;
  execution_cost = 0;
  execution_start_time = 0;
  total_size = mul_u32 (mul_u32 size_x size_y) size_z;
}

unfoldable pub set_execution_cost : WorkGroupRange → ℕ → WorkGroupRange
set_execution_cost w cost = record w { execution_cost = cost }

pub record NdRange : Type 0 where
  pub kernel : ℕ
  pub event : ℕ
  pub resource_string : Name
  pub size_x : ℕ
  pub size_y : ℕ
  pub size_z : ℕ
  pub next_wgr : ℕ
  pub total_size : ℕ
  pub wgrs_in_the_wild : ℕ
  pub dimensions : ℕ

-- One dimension for each size above 1.
abbrev pub count_dimensions : ℕ → ℕ → ℕ → ℕ
count_dimensions x y z =
    (if ltb 1 x then 1 else 0) + (if ltb 1 y then 1 else 0) + (if ltb 1 z then 1 else 0)

-- NDRange (kernel, event, resource_string, size_x, size_y, size_z); the counters that it takes on
-- its kernel and its event are kept with those objects (Objects).
unfoldable pub new_ndrange : ℕ → ℕ → Name → ℕ → ℕ → ℕ → Outcome NdRange
new_ndrange kernel event resource_string size_x size_y size_z =
    if ltb 1 (count_dimensions size_x size_y size_z)
    then throw Exception.runtime_error
    else ok (record {
      kernel = kernel;
      event = event;
      resource_string = resource_string;
      size_x = size_x;
      size_y = size_y;
      size_z = size_z;
      next_wgr = 0;
      total_size = mul_u32 (mul_u32 size_x size_y) size_z;
      wgrs_in_the_wild = 0;
      dimensions = count_dimensions size_x size_y size_z;
    })

unfoldable pub has_more_wgs : NdRange → Bool
has_more_wgs r = ltb r.next_wgr r.total_size

unfoldable pub is_finished : NdRange → Bool
unfolding has_more_wgs
is_finished r = not (has_more_wgs r) && (r.wgrs_in_the_wild == 0)

-- get_3d_from_1d: the x, y and z coordinate of a workgroup's number.
unfoldable pub get_3d_from_1d : NdRange → ℕ → ℕ × ℕ × ℕ
get_3d_from_1d r one_d_coord =
    let start_z = one_d_coord % r.size_z in
    let xy_coord = one_d_coord / r.size_z in (xy_coord / r.size_y, xy_coord % r.size_y, start_z)

-- The number of workgroups that carve_wgs hands out. The sum is of a `size_t`; `_total_size - 1` is
-- an `unsigned`, and wraps at 0.
unfoldable pub wgs_to_carve : NdRange → ℕ → ℕ
wgs_to_carve r num_wgs =
    if ltb (sub_u32 r.total_size 1) (add_size r.next_wgr num_wgs)
    then sub_u32 r.total_size r.next_wgr
    else num_wgs % u32_max

-- carve_wgs of the ndrange with the number `self`. The range is built with its end in the place of
-- its size, as the source does.
unfoldable pub carve_wgs : ℕ → NdRange → ℕ → WorkGroupRange × NdRange
unfolding wgs_to_carve new_range
carve_wgs self r num_wgs =
    let start_coord = r.next_wgr in
    let n = wgs_to_carve r num_wgs in
    (
      new_range self start_coord (add_u32 start_coord n) 0 1 0 1,
      record r { next_wgr = add_u32 r.next_wgr n; wgrs_in_the_wild = add_u32 r.wgrs_in_the_wild 1 },
    )

-- decrement_wgrs_counter: the ndrange, or `none` where it deletes itself. What the last range does
-- to the event and the kernel, before and in the destructor, is `end_range` of NdRange/Completion.
unfoldable pub decrement_wgrs_counter : NdRange → Option NdRange
decrement_wgrs_counter r =
    let left = sub_u32 r.wgrs_in_the_wild 1 in
    if left == 0 then none else some (record r { wgrs_in_the_wild = left })
