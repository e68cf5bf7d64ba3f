-- ===== src/Driver/Copies.antt =====
-- What each message of the client makes the driver do.
use fpgaml.Common.{
  ℕ, suc, ◌-◌, ◌<◌, ◌≤◌, ◌≡◌, ◌∙◌, ◌^◌, refl, ap, sym, List, [], ◌∷◌, ◌++◌, length, arith, some,
  length-append, replicate,
}
use mathlib.Core.List.{append_assoc}
use fpgaml.Unimem.{
  little_endian, letter_create, letter_address, letter_destroy, letter_write, letter_read,
}
use fpgaml.Driver.{
  Kernel, Device, UnimemAddr, address_bytes, number_at, address_at, blit, dev_write, dev_read,
  handle_write_C, handle_write_D, handle_write_W, handle_write_R,
}
use fpgaml.Driver.Layout.{
  IsWord, length-address_bytes, length-little_endian, number_at-append, address_at-address_bytes,
}

-- The bytes of a message of a copy, behind the letter.
abbrev copy_bytes : UnimemAddr → ℕ → ℕ → List ℕ
copy_bytes a u n = address_bytes a ++ (little_endian 8 u ++ little_endian 8 n)

length-copy_bytes : (a : UnimemAddr) (u n : ℕ) → length (copy_bytes a u n) ≡ 40
length-copy_bytes a u n = omega (
  arith,
  length-append (address_bytes a) (little_endian 8 u ++ little_endian 8 n),
  length-append (little_endian 8 u) (little_endian 8 n),
  length-address_bytes a,
  length-little_endian 8 u,
  length-little_endian 8 n,
)

copy_address :
    (c : ℕ) (a : UnimemAddr) (u n : ℕ) (pad : List ℕ)
    → IsWord a
    → address_at (c ∷ (copy_bytes a u n ++ pad)) ≡ a
copy_address c a u n pad w =
    ap (λ l. address_at (c ∷ l))
      (append_assoc (address_bytes a) (little_endian 8 u ++ little_endian 8 n) pad)
    ∙ address_at-address_bytes c a ((little_endian 8 u ++ little_endian 8 n) ++ pad) w

copy_pointer :
    (c : ℕ) (a : UnimemAddr) (u n : ℕ) (pad : List ℕ)
    → u < 2 ^ 64
    → number_at (c ∷ (copy_bytes a u n ++ pad)) 25 ≡ u
copy_pointer c a u n pad h =
    ap (λ l. number_at (c ∷ l) 25)
      (append_assoc (address_bytes a) (little_endian 8 u ++ little_endian 8 n) pad
        ∙ ap (λ l. address_bytes a ++ l) (append_assoc (little_endian 8 u) (little_endian 8 n) pad))
    ∙ number_at-append (c ∷ address_bytes a) (little_endian 8 n ++ pad) 25 u
        (ap suc (length-address_bytes a)) h

copy_size :
    (c : ℕ) (a : UnimemAddr) (u n : ℕ) (pad : List ℕ)
    → n < 2 ^ 64
    → number_at (c ∷ (copy_bytes a u n ++ pad)) 33 ≡ n
copy_size c a u n pad h =
    ap (λ l. number_at (c ∷ l) 33)
      (append_assoc (address_bytes a) (little_endian 8 u ++ little_endian 8 n) pad
        ∙ ap (λ l. address_bytes a ++ l) (append_assoc (little_endian 8 u) (little_endian 8 n) pad)
        ∙ sym (append_assoc (address_bytes a) (little_endian 8 u) (little_endian 8 n ++ pad)))
    ∙ number_at-append (c ∷ (address_bytes a ++ little_endian 8 u)) pad 33 n
        (omega (
          arith,
          length-append (address_bytes a) (little_endian 8 u),
          length-address_bytes a,
          length-little_endian 8 u,
        ))
        h

module _ (kernel : Kernel) where
  -- A message `C` allocates, and the response waits to be read.
  pub dev_write_create :
      (d : Device kernel) (size virt : ℕ) (heap' : kernel.Heap)
      → size < 2 ^ 64
      → kernel.vmalloc d.heap size ≡ (virt, heap')
      → 0 < virt
      → dev_write kernel d (letter_create ∷ little_endian 8 size) ≡ (
        some 9,
        record d {
          heap = heap';
          return_addr = record { kernel_virt_addr = virt; bus_addr = 13; size = size };
          return_type = letter_address;
        },
      )
  unfolding dev_write handle_write_C
  dev_write_create d size virt heap' fit v pos =
      let l = length-little_endian 8 size in
      let pad : List ℕ = replicate (41 - length (letter_create ∷ little_endian 8 size)) 0 in
      let n = number_at-append (letter_create ∷ []) pad 1 size refl fit in
      ground (arith, l, n, v, pos)

  -- A message `W` copies from the process to the buffer.
  pub dev_write_copy :
      (d : Device kernel) (a : UnimemAddr) (host n : ℕ)
      → IsWord a
      → host < 2 ^ 64
      → n < 2 ^ 64
      → kernel.accessible host n ≡ n
      → dev_write kernel d (letter_write ∷ copy_bytes a host n) ≡ (
        some 41,
        record d { kernel_memory = blit n host a.kernel_virt_addr d.user_memory d.kernel_memory },
      )
  unfolding dev_write handle_write_W
  dev_write_copy d a host n w hh hn acc =
      let l = length-copy_bytes a host n in
      let pad : List ℕ = replicate (41 - length (letter_write ∷ copy_bytes a host n)) 0 in
      let ea = copy_address letter_write a host n pad w in
      let eu = copy_pointer letter_write a host n pad hh in
      let en = copy_size letter_write a host n pad hn in ground (arith, l, ea, eu, en, acc)

  -- A message `R` copies from the buffer to the process.
  pub dev_write_copy_back :
      (d : Device kernel) (a : UnimemAddr) (host n : ℕ)
      → IsWord a
      → host < 2 ^ 64
      → n < 2 ^ 64
      → kernel.accessible host n ≡ n
      → dev_write kernel d (letter_read ∷ copy_bytes a host n) ≡ (
        some 41,
        record d { user_memory = blit n a.kernel_virt_addr host d.kernel_memory d.user_memory },
      )
  unfolding dev_write handle_write_R
  dev_write_copy_back d a host n w hh hn acc =
      let l = length-copy_bytes a host n in
      let pad : List ℕ = replicate (41 - length (letter_read ∷ copy_bytes a host n)) 0 in
      let ea = copy_address letter_read a host n pad w in
      let eu = copy_pointer letter_read a host n pad hh in
      let en = copy_size letter_read a host n pad hn in ground (arith, l, ea, eu, en, acc)

  -- A message `D` frees the buffer whose address it holds.
  pub dev_write_destroy :
      (d : Device kernel) (a : UnimemAddr)
      → IsWord a
      → dev_write kernel d (letter_destroy ∷ address_bytes a)
        ≡ (some 25, record d { heap = kernel.vfree d.heap a.kernel_virt_addr })
  unfolding dev_write handle_write_D
  dev_write_destroy d a w =
      let l = length-address_bytes a in
      let pad : List ℕ = replicate (41 - length (letter_destroy ∷ address_bytes a)) 0 in
      let ea = address_at-address_bytes letter_destroy a pad w in ground (arith, l, ea)

  -- A response that waits is handed out once.
  pub dev_read_response :
      (d : Device kernel) (n : ℕ)
      → d.return_type ≡ letter_address
      → 25 ≤ n
      → dev_read kernel d n
        ≡ (some (letter_address ∷ address_bytes d.return_addr), record d { return_type = 0 })
  unfolding dev_read
  dev_read_response d n h le = ground (arith, h, le)
