-- ===== src/Unimem.antt =====
-- The client of the unimem driver of cpp/unimem_utils.h, cpp/unimem_manager.h and
-- cpp/unimem_manager.cc: messages of bytes are written to the driver's file and read from it. A
-- `char` is a number below 256, an address in memory a number below 2 ^ 64, and both it and a
-- `size_t` take 8 bytes, the lowest first.
pub mod Messages
pub mod Allocation
mod Tests
use fpgaml.Common.{
  ℕ, zero, suc, ◌+◌, ◌*◌, ◌/◌, ◌%◌, Bool, true, false, not, if◌then◌else◌, ltb, ◌==◌, Option, none,
  some, List, [], ◌∷◌, ◌++◌, length, Outcome, ok, throw, fault, Exception, ◌>>=◌,
}
use fpgaml.Common.Int.{ℤ, pos, ltb_ℤ}

-- What the program uses of the operating system: `write`, `read` and `malloc`. A negative result is
-- `none`, a count of bytes is `some`; `read` gives the bytes themselves, at most as many as asked.
pub record System : Type 1 where
  pub State : Type 0
  pub write : State → List ℕ → Option ℕ × State
  pub read : State → ℕ → Option (List ℕ) × State
  pub malloc_succeeds : State → ℕ → Bool

-- A size or an address as memcpy copies it: `width` bytes, the lowest first.
unfoldable pub little_endian : ℕ → ℕ → List ℕ
little_endian zero v = []
little_endian (suc width) v = v % 256 ∷ little_endian width (v / 256)

-- RD_WR_LEN, the size of s_read_write_buffer
abbrev pub read_write_length : ℕ
read_write_length = 100

-- The codes of the letters 'C', 'z', 'D', 'W' and 'R'.
abbrev pub letter_create : ℕ
letter_create = 67

abbrev pub letter_address : ℕ
letter_address = 122

abbrev pub letter_destroy : ℕ
letter_destroy = 68

abbrev pub letter_write : ℕ
letter_write = 87

abbrev pub letter_read : ℕ
letter_read = 82

-- UnimemPtr: `ptr` is the copy of the address structure that m_ptr points to, `none` for NULL.
pub record UnimemPtr : Type 0 where
  pub ptr : Option (List ℕ)
  pub ptr_size : ℕ

abbrev pub empty_ptr : UnimemPtr
empty_ptr = record { ptr = none; ptr_size = 0 }

-- The message of copy_user_buffer_to_unimem and of copy_unimem_buffer_to_user; past the end of the
-- static buffer the behaviour is undefined.
unfoldable pub copy_message : ℕ → List ℕ → ℕ → ℕ → Outcome (List ℕ)
unfolding little_endian
copy_message letter unimem_addr user_buffer user_buffer_len =
    if ltb read_write_length (1 + length unimem_addr + 8 + 8)
    then fault
    else ok
        ((letter ∷ unimem_addr) ++ (little_endian 8 user_buffer ++ little_endian 8 user_buffer_len))

-- UnimemManager (config): the path from the configuration, if it has one, and what `open` returns
-- for it. The result is m_fd.
unfoldable pub new_manager : Option (List ℕ) → (List ℕ → ℤ) → Outcome ℤ
new_manager none open_file = throw Exception.runtime_error
new_manager (some driver_path) open_file =
    if ltb_ℤ (open_file driver_path) (pos 1)
    then throw Exception.runtime_error
    else ok (open_file driver_path)

module _ (sys : System) where
  open sys use {State}

  unfoldable pub write_alloc_request : State → ℕ → Option ℕ × State
  unfolding little_endian
  write_alloc_request d alloc_request =
      let (rc, d') = sys.write d (letter_create ∷ little_endian 8 alloc_request) in
      (elim rc [ none ↦ none | some n ↦ if n == 0 then none else some n ], d')

  -- The checks of read_alloc_response on what `read` gave.
  unfoldable pub check_response : ℕ → Option (List ℕ) → Option (List ℕ)
  check_response unimem_addr_len none = none
  check_response unimem_addr_len (some []) = none
  check_response unimem_addr_len (some (b ∷ bs)) =
      if not (b == letter_address)
      then none
      else if ltb unimem_addr_len (suc (length bs))
      then none
      else some bs

  unfoldable pub read_alloc_response : State → ℕ → Option (List ℕ) × State
  unfolding check_response
  read_alloc_response d unimem_addr_len =
      let (rc, d') = sys.read d read_write_length in (check_response unimem_addr_len rc, d')

  -- The result of the write is only logged.
  unfoldable pub write_destroy_request : State → List ℕ → Outcome State
  write_destroy_request d unimem_addr =
      if ltb read_write_length (length unimem_addr + 1)
      then fault
      else ok (sys.write d (letter_destroy ∷ unimem_addr)).1

  unfoldable pub copy_user_buffer_to_unimem : State → List ℕ → ℕ → ℕ → Outcome (Option ℕ × State)
  unfolding copy_message
  copy_user_buffer_to_unimem d unimem_addr user_buffer user_buffer_len = do
    message ← copy_message letter_write unimem_addr user_buffer user_buffer_len
    ok (sys.write d message)

  unfoldable pub copy_unimem_buffer_to_user : State → ℕ → ℕ → List ℕ → Outcome (Option ℕ × State)
  unfolding copy_message
  copy_unimem_buffer_to_user d user_buffer user_buffer_len unimem_addr = do
    message ← copy_message letter_read unimem_addr user_buffer user_buffer_len
    ok (sys.write d message)

  -- allocate_unimem of the manager with the file `fd`.
  unfoldable pub allocate_unimem : ℤ → State → ℕ → UnimemPtr × State
  unfolding write_alloc_request read_alloc_response
  allocate_unimem fd d size =
      if ltb_ℤ fd (pos 1)
      then (empty_ptr, d)
      else let (written, d1) = write_alloc_request d size in
        elim written [
          | none ↦ (empty_ptr, d1)
          | some n ↦
              let (response, d2) = read_alloc_response d1 100 in
              elim response [
                | none ↦ (empty_ptr, d2)
                | some addr ↦
                    if not (sys.malloc_succeeds d2 (length addr))
                    then (empty_ptr, d2)
                    else (record { ptr = some addr; ptr_size = length addr }, d2)
              ]
        ]

  -- An empty pointer is copied from with its size 0, so that nothing of it is read.
  abbrev pub address_of : UnimemPtr → List ℕ
  address_of p = elim p.ptr [ none ↦ [] | some addr ↦ addr ]

  unfoldable pub release_unimem : State → UnimemPtr → Outcome State
  unfolding write_destroy_request
  release_unimem d p = write_destroy_request d (address_of p)

  abbrev succeeded : Option ℕ → Bool
  succeeded none = false
  succeeded (some n) = true

  unfoldable pub copy_to_unimem : State → UnimemPtr → ℕ → ℕ → Outcome (Bool × State)
  unfolding copy_user_buffer_to_unimem
  copy_to_unimem d p buf_ptr buf_size = do
    r ← copy_user_buffer_to_unimem d (address_of p) buf_ptr buf_size
    ok (succeeded r.0, r.1)

  unfoldable pub copy_from_unimem : State → ℕ → UnimemPtr → ℕ → Outcome (Bool × State)
  unfolding copy_unimem_buffer_to_user
  copy_from_unimem d buf_ptr p buf_size = do
    r ← copy_unimem_buffer_to_user d buf_ptr buf_size (address_of p)
    ok (succeeded r.0, r.1)
