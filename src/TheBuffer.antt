-- ===== src/TheBuffer.antt =====
-- TheBuffer of cpp/the_buffer.h and cpp/the_buffer.cc: a ring buffer of ndranges behind a lock. The
-- methods hold the lock throughout, so that each is one step.
use fpgaml.Common.{ℕ, Bool, false, not, if◌then◌else◌, ◌==◌, Option, none, some, Outcome, ok, ◌>>=◌}
use fpgaml.CircArray.{CircArray, create, get, pop_front, push_back, is_full, occupancy}

-- TheBuffer ()
unfoldable pub new_buffer : CircArray ℕ
new_buffer = create 0 100

-- What the ring buffer returns is dropped.
unfoldable pub buffer_push_back : CircArray ℕ → ℕ → Outcome (CircArray ℕ)
buffer_push_back b ndrange = push_back b ndrange false >>= λ r. ok r.1

unfoldable pub buffer_pop_front : CircArray ℕ → Outcome (Option ℕ × CircArray ℕ)
unfolding occupancy
buffer_pop_front b =
    if not (occupancy b == 0) then (pop_front b >>= λ r. ok (some r.0, r.1)) else ok (none, b)

unfoldable pub buffer_peek_front : CircArray ℕ → Outcome (Option ℕ)
unfolding occupancy
buffer_peek_front b = if not (occupancy b == 0) then (get b 0 >>= λ x. ok (some x)) else ok none

unfoldable pub buffer_is_full : CircArray ℕ → Bool
unfolding is_full
buffer_is_full b = is_full b

-- is_empty compares the capacity with the occupancy.
unfoldable pub buffer_is_empty : CircArray ℕ → Bool
unfolding occupancy
buffer_is_empty b = b.capacity == occupancy b
