-- ===== src/Unimem/Allocation.antt =====
-- When an allocation gives a pointer.
use fpgaml.Common.{ℕ, suc, ◌<◌, ◌≡◌, true, some, List, ◌∷◌, length, arith}
use fpgaml.Common.Int.{ℤ, pos, ◌≤ℤ◌}
use fpgaml.Unimem.{
  System, little_endian, letter_create, letter_address, allocate_unimem, write_alloc_request,
  read_alloc_response, check_response,
}

module _ (sys : System) where
  -- A response of the letter `z` and at most 99 bytes more, to a request that was written, gives a
  -- pointer to a copy of those bytes where malloc has memory for it.
  pub allocate_unimem_lem :
      (fd : ℤ) (d : sys.State) (size n : ℕ) (addr : List ℕ)
      → pos 1 ≤ℤ fd
      → let d1 = (sys.write d (letter_create ∷ little_endian 8 size)).1 in
        (sys.write d (letter_create ∷ little_endian 8 size)).0 ≡ some (suc n)
        → (sys.read d1 100).0 ≡ some (letter_address ∷ addr)
        → length addr < 100
        → sys.malloc_succeeds (sys.read d1 100).1 (length addr) ≡ true
        → (allocate_unimem sys fd d size)
          ≡ (record { ptr = some addr; ptr_size = length addr }, (sys.read d1 100).1)
  unfolding allocate_unimem write_alloc_request read_alloc_response check_response
  allocate_unimem_lem fd d size n addr opened written answer short memory =
      ground (arith, opened, written, answer, short, memory)

  -- A pointer that is given has the bytes of such a response behind it.
  pub allocate_unimem_sound :
      (fd : ℤ) (d : sys.State) (size : ℕ) (addr : List ℕ)
      → (allocate_unimem sys fd d size).0.ptr ≡ some addr
      → let d1 = (sys.write d (letter_create ∷ little_endian 8 size)).1 in
        ((allocate_unimem sys fd d size).0.ptr_size ≡ length addr)
        × (length addr < 100)
        × ((sys.read d1 100).0 ≡ some (letter_address ∷ addr))
  unfolding allocate_unimem write_alloc_request read_alloc_response check_response
  allocate_unimem_sound fd d size addr got = ground (arith, got)
