-- ===== src/CircArray.antt =====
-- The class template CircArray of cpp/circ_array.hpp: a circular buffer over an array of
-- `_capacity` elements. The element type is a parameter; `blank` is the element that `new T[n]`
-- fills an array with. `size_t` arithmetic wraps; the `int` counters of the loops do not, for the
-- capacities below 2^31 that `Inv.IsValid` asks for. A method that changes the object returns the
-- new object beside its result.
pub mod Deque
pub mod Inv
pub mod Push
pub mod PushFront
pub mod Pop
pub mod Index
pub mod PopAt
pub mod Grow
pub mod Runs
mod Tests
use fpgaml.Common.{
  ℕ, zero, suc, ◌+◌, ◌*◌, ◌-◌, ◌%◌, ◌^◌, Bool, true, false, not, List, Option, none, some,
  if◌then◌else◌, ltb, ◌==◌, replicate, add_size, sub_size, size_max, Outcome, ok, throw, fault,
  assert_failed, Exception, ◌>>=◌, ◌>>◌, assert, checked_mod, read_cell, write_cell,
}

-- enum RC
pub data Rc : Type 0 where
  success no_space_error buffer_empty_error : Rc

pub record CircArray {ℓ} (A : Type ℓ) : Type ℓ where
  pub array : List A
  pub start : ℕ
  pub size : ℕ
  pub capacity : ℕ

module _ {ℓ} {A : Type ℓ} where
  -- CircArray (const size_t capacity), by way of set_initial_values
  unfoldable pub create : A → ℕ → CircArray A
  create blank capacity = record {
    array = replicate capacity blank;
    start = 0;
    size = 0;
    capacity = capacity;
  }

  unfoldable pub occupancy : CircArray A → ℕ
  occupancy c = c.size

  unfoldable pub is_full : CircArray A → Bool
  is_full c = c.size == c.capacity

  unfoldable pub empty : CircArray A → Bool
  empty c = c.size == 0

  -- The test at the head of operator[] and of pop_at, built without NO_THROW.
  unfoldable pub check_index : CircArray A → ℕ → Outcome (Unit {0})
  check_index c index =
      if ltb (sub_size c.size 1) index then throw Exception.invalid_index else ok tt

  -- operator[], read
  unfoldable pub get : CircArray A → ℕ → Outcome A
  unfolding check_index
  get c index = do
    check_index c index
    k ← checked_mod (add_size c.start index) c.capacity
    read_cell c.array k

  -- operator[], assigned through the reference
  unfoldable pub put : CircArray A → ℕ → A → Outcome (CircArray A)
  unfolding check_index
  put c index value = do
    check_index c index
    k ← checked_mod (add_size c.start index) c.capacity
    array ← write_cell c.array k value
    ok (record c { array = array })

  -- RC pop_front (T& value); the option is what goes through `value`.
  unfoldable pub pop_front_rc : CircArray A → Outcome (Rc × Option A × CircArray A)
  pop_front_rc c = if c.size == 0 then ok (buffer_empty_error, none, c) else do
    value ← read_cell c.array c.start
    start ← checked_mod (add_size c.start 1) c.capacity
    ok (success, some value, record c { size = c.size - 1; start = start })

  -- RC pop_back (T& value)
  unfoldable pub pop_back_rc : CircArray A → Outcome (Rc × Option A × CircArray A)
  pop_back_rc c = if c.size == 0 then ok (buffer_empty_error, none, c) else do
    k ← checked_mod (sub_size (add_size c.start c.size) 1) c.capacity
    value ← read_cell c.array k
    ok (success, some value, record c { size = c.size - 1 })

  -- The popped value is returned where the RC is SUCCESS; any other RC throws.
  abbrev pub value_or_throw : Rc × Option A × CircArray A → Outcome (A × CircArray A)
  value_or_throw (success, some value, c) = ok (value, c)
  value_or_throw (success, none, c) = fault
  value_or_throw (_, _, _) = throw Exception.empty_buffer

  -- T pop_front ()
  unfoldable pub pop_front : CircArray A → Outcome (A × CircArray A)
  unfolding pop_front_rc
  pop_front c = do r ← pop_front_rc c; value_or_throw r

  -- T pop_back ()
  unfoldable pub pop_back : CircArray A → Outcome (A × CircArray A)
  unfolding pop_back_rc
  pop_back c = do r ← pop_back_rc c; value_or_throw r

  -- What push_back does once there is room.
  unfoldable pub store_back : CircArray A → A → Outcome (Rc × CircArray A)
  store_back c value = do
    k ← checked_mod (add_size c.start c.size) c.capacity
    array ← write_cell c.array k value
    ok (success, record c { array = array; size = add_size c.size 1 })

  -- What push_front does once there is room.
  unfoldable pub store_front : CircArray A → A → Outcome (Rc × CircArray A)
  store_front c value = do
    let start = if c.start == 0 then sub_size c.capacity 1 else c.start - 1
    array ← write_cell c.array start value
    ok (success, record c { array = array; start = start; size = add_size c.size 1 })

  unfoldable pub push_back : CircArray A → A → Bool → Outcome (Rc × CircArray A)
  unfolding pop_front store_back
  push_back c value overwrite_when_full =
      if c.size == c.capacity
      then if not overwrite_when_full
        then ok (no_space_error, c)
        else (pop_front c >>= λ r. assert (ltb r.1.size r.1.capacity) >> store_back r.1 value)
      else store_back c value

  unfoldable pub push_front : CircArray A → A → Bool → Outcome (Rc × CircArray A)
  unfolding pop_back store_front
  push_front c value overwrite_when_full =
      if c.size == c.capacity
      then if not overwrite_when_full
        then ok (no_space_error, c)
        else (pop_back c >>= λ r. assert (ltb r.1.size r.1.capacity) >> store_front r.1 value)
      else store_front c value

  -- The loop of pop_at from `i` on, with fuel for the rounds; without fuel it gives a fault.
  unfoldable pub shift_left : ℕ → ℕ → CircArray A → Outcome (CircArray A)
  unfolding pop_back get put
  shift_left zero i c = fault
  shift_left (suc fuel) i c = elim (ltb i c.size) [
    | false ↦ ok c
    | true ↦ elim (i == sub_size c.size 1) [
      | true ↦ pop_back c >>= λ r. shift_left fuel (i + 1) r.1
      | false ↦ get c (i + 1) >>= λ next. put c i next >>= λ c'. shift_left fuel (i + 1) c'
    ]
  ]

  -- A round for each element and one for the test that ends the loop.
  unfoldable pub pop_at : CircArray A → ℕ → Outcome (A × CircArray A)
  unfolding check_index get shift_left
  pop_at c index = do
    check_index c index
    element ← get c index
    c' ← shift_left (suc c.size) index c
    ok (element, c')

  -- The loop of resize_by_two: `rounds` elements, from `i` on, into the array `temp`.
  unfoldable pub copy_cells : ℕ → ℕ → CircArray A → List A → Outcome (List A)
  unfolding get
  copy_cells zero i c temp = ok temp
  copy_cells (suc rounds) i c temp =
      get c i >>= λ x. write_cell temp i x >>= λ temp'. copy_cells rounds (i + 1) c temp'

  unfoldable pub resize_by_two : A → CircArray A → Outcome (CircArray A)
  unfolding copy_cells
  resize_by_two blank c = do
    let doubled = c.capacity * 2 % size_max
    temp ← copy_cells c.size 0 c (replicate doubled blank)
    ok (record c { array = temp; start = 0; capacity = doubled })

  -- The loop of deep_copy, `lhs[i] = rhs[i]`.
  unfoldable pub assign_cells : ℕ → ℕ → CircArray A → CircArray A → Outcome (CircArray A)
  unfolding get put
  assign_cells zero i rhs lhs = ok lhs
  assign_cells (suc rounds) i rhs lhs =
      get rhs i >>= λ x. put lhs i x >>= λ lhs'. assign_cells rounds (i + 1) rhs lhs'

  -- deep_copy onto another object: every field of `lhs` is overwritten, so only `rhs` is read.
  unfoldable pub deep_copy : A → CircArray A → Outcome (CircArray A)
  unfolding assign_cells
  deep_copy blank rhs =
      assign_cells rhs.size 0 rhs (record rhs { array = replicate rhs.capacity blank })
