-- ===== src/Common/Words.antt =====
-- Machine words as native numbers: `size_t` has 64 bits, `unsigned` has 32, and both wrap.
use Prim.Native.Nat.{ℕ, ◌+◌, ◌-◌, ◌*◌, ◌%◌, ◌^◌}

abbrev pub size_max : ℕ
size_max = 2 ^ 64

abbrev pub u32_max : ℕ
u32_max = 2 ^ 32

abbrev pub add_size : ℕ → ℕ → ℕ
add_size a b = (a + b) % size_max

abbrev pub sub_size : ℕ → ℕ → ℕ
sub_size a b = (a + size_max - b) % size_max

abbrev pub add_u32 : ℕ → ℕ → ℕ
add_u32 a b = (a + b) % u32_max

abbrev pub sub_u32 : ℕ → ℕ → ℕ
sub_u32 a b = (a + u32_max - b) % u32_max

abbrev pub mul_u32 : ℕ → ℕ → ℕ
mul_u32 a b = a * b % u32_max
