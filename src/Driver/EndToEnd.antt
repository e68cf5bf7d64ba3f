-- ===== src/Driver/EndToEnd.antt =====
-- The client against the driver: a buffer is allocated, written, read and released.
use fpgaml.Common.{ℕ, ◌+◌, ◌-◌, ◌<◌, ◌≤◌, ◌≡◌, ◌∙◌, ◌^◌, ◌⊎◌, refl, ap, arith, some, true, Bool, ok}
use fpgaml.Common.Int.{ℤ, pos, ◌≤ℤ◌}
use fpgaml.EvTimer.{LibEv}
use fpgaml.Unimem.{
  UnimemPtr, allocate_unimem, copy_to_unimem, copy_from_unimem, copy_message,
  copy_user_buffer_to_unimem, copy_unimem_buffer_to_user, release_unimem, write_destroy_request,
  letter_address,
}
use fpgaml.Unimem.Allocation.{allocate_unimem_lem}
use fpgaml.Bitstreams.{Documents}
use fpgaml.Objects.{Mem, load, cl_success}
use fpgaml.Dispatcher.{Engine, handle_write_command, handle_read_command}
use fpgaml.Dispatcher.Handling.{handle_read_command-handle_write_command}
use fpgaml.Driver.{Kernel, Device, UnimemAddr, address_bytes, blit, device_system, dev_read}
use fpgaml.Driver.Layout.{IsWord, length-address_bytes}
use fpgaml.Driver.Copies.{
  dev_write_create, dev_write_copy, dev_write_copy_back, dev_write_destroy, dev_read_response,
}

-- The address structure of a buffer, with the driver's stand-in for its bus address.
abbrev pub buffer_at : ℕ → ℕ → UnimemAddr
buffer_at virt size = record { kernel_virt_addr = virt; bus_addr = 13; size = size }

-- The pointer that the client holds for a buffer.
abbrev pub pointer_to : UnimemAddr → UnimemPtr
pointer_to a = record { ptr = some (address_bytes a); ptr_size = 24 }

blit-inside :
    (n from to : ℕ) (source target : ℕ → ℕ) (i : ℕ)
    → i < n
    → blit n from to source target (to + i) ≡ source (from + i)
blit-inside n from to source target i lt =
    let e : to + i - to ≡ i = omega arith in ground (arith, e, lt)

blit-outside :
    (n from to : ℕ) (source target : ℕ → ℕ) (a : ℕ)
    → (a < to) ⊎ (to + n ≤ a)
    → blit n from to source target a ≡ target a
blit-outside n from to source target a h = ground (arith, h)

module _ (kernel : Kernel) (malloc : ℕ → Bool) where
  -- Through an open file, where vmalloc and malloc have memory, an allocation gives a pointer to the
  -- new buffer.
  pub allocate_unimem-device :
      (fd : ℤ) (d : Device kernel) (size virt : ℕ) (heap' : kernel.Heap)
      → pos 1 ≤ℤ fd
      → size < 2 ^ 64
      → kernel.vmalloc d.heap size ≡ (virt, heap')
      → 0 < virt
      → malloc 24 ≡ true
      → let a = buffer_at virt size in
        allocate_unimem (device_system kernel malloc) fd d size
        ≡ (pointer_to a, record d { heap = heap'; return_addr = a; return_type = 0 })
  allocate_unimem-device fd d size virt heap' opened fit v pos_ memory =
      let a = buffer_at virt size in
      let d1 : Device kernel = record d {
        heap = heap';
        return_addr = a;
        return_type = letter_address;
      } in
      let w = dev_write_create kernel d size virt heap' fit v pos_ in
      let r = dev_read_response kernel d1 100 refl (omega arith) in
      let r' = ap (λ p. dev_read kernel p.1 100) w ∙ r in
      let len = length-address_bytes a in
      allocate_unimem_lem (device_system kernel malloc) fd d size 8 (address_bytes a) opened
        (ap (λ p. p.0) w) (ap (λ p. p.0) r') (omega arith) (ap malloc len ∙ memory)
      ∙ (λ i. (record { ptr = some (address_bytes a); ptr_size = len i }, (r' i).1))

  copies_to :
      (d : Device kernel) (a : UnimemAddr) (host n : ℕ)
      → IsWord a
      → host < 2 ^ 64
      → n < 2 ^ 64
      → kernel.accessible host n ≡ n
      → copy_to_unimem (device_system kernel malloc) d (pointer_to a) host n
        ≡ ok (
          true,
          record d { kernel_memory = blit n host a.kernel_virt_addr d.user_memory d.kernel_memory },
        )
  unfolding copy_to_unimem copy_user_buffer_to_unimem copy_message
  copies_to d a host n w hh hn acc =
      let len = length-address_bytes a in
      let e = dev_write_copy kernel d a host n w hh hn acc in ground (arith, len, e)

  copies_from :
      (d : Device kernel) (a : UnimemAddr) (host n : ℕ)
      → IsWord a
      → host < 2 ^ 64
      → n < 2 ^ 64
      → kernel.accessible host n ≡ n
      → copy_from_unimem (device_system kernel malloc) d host (pointer_to a) n
        ≡ ok (
          true,
          record d { user_memory = blit n a.kernel_virt_addr host d.kernel_memory d.user_memory },
        )
  unfolding copy_from_unimem copy_unimem_buffer_to_user copy_message
  copies_from d a host n w hh hn acc =
      let len = length-address_bytes a in
      let e = dev_write_copy_back kernel d a host n w hh hn acc in ground (arith, len, e)

  -- A release frees the buffer.
  pub release_unimem-device :
      (d : Device kernel) (a : UnimemAddr)
      → IsWord a
      → release_unimem (device_system kernel malloc) d (pointer_to a)
        ≡ ok (record d { heap = kernel.vfree d.heap a.kernel_virt_addr })
  unfolding release_unimem write_destroy_request
  release_unimem-device d a w =
      let len = length-address_bytes a in
      let e = dev_write_destroy kernel d a w in ground (arith, len, e)

  module _ (ev : LibEv) (docs : Documents) where
    -- A write command followed by a read command of the same size on the same memory object, where
    -- vmalloc and malloc have memory and both ranges of the process can be accessed: both succeed,
    -- the target range then holds what the host range held, and the rest of the process's memory is
    -- as before.
    pub write_then_read :
        (mem size host target virt : ℕ) (s : Engine ev (device_system kernel malloc) docs) (m : Mem)
        (heap' : kernel.Heap)
        → pos 1 ≤ℤ s.fd
        → load s.objects.mems mem ≡ ok m
        → 0 < size
        → size < 2 ^ 64
        → host < 2 ^ 64
        → target < 2 ^ 64
        → kernel.vmalloc s.unimem.heap size ≡ (virt, heap')
        → 0 < virt
        → virt < 2 ^ 64
        → malloc 24 ≡ true
        → kernel.accessible host size ≡ size
        → kernel.accessible target size ≡ size
        → (s1 : Engine ev (device_system kernel malloc) docs) × (s2 : Engine ev
            (device_system kernel malloc)
            docs)
          × (handle_write_command ev (device_system kernel malloc) docs mem size (some host) s
              ≡ ok (cl_success, s1))
          × (handle_read_command ev (device_system kernel malloc) docs mem size (some target) s1
              ≡ ok (cl_success, s2))
          × ((i : ℕ)
              → i < size
              → s2.unimem.user_memory (target + i) ≡ s.unimem.user_memory (host + i))
          × ((a : ℕ)
              → (a < target) ⊎ (target + size ≤ a)
              → s2.unimem.user_memory a ≡ s.unimem.user_memory a)
    write_then_read mem size host target virt s m heap' opened at pos_ hs hh ht v vpos hv memory
          acch acct =
        let a = buffer_at virt size in
        let w : IsWord a = record { virt = hv; bus = omega arith; length_of = hs } in
        let d1 : Device kernel = record s.unimem {
          heap = heap';
          return_addr = a;
          return_type = 0;
        } in
        let d2 : Device kernel = record d1 {
          kernel_memory = blit size host virt d1.user_memory d1.kernel_memory;
        } in
        let d3 : Device kernel = record d2 {
          user_memory = blit size virt target d2.kernel_memory d2.user_memory;
        } in
        let e1 = allocate_unimem-device s.fd s.unimem size virt heap' opened hs v vpos memory in
        let e2 = copies_to d1 a host size w hh hs acch in
        let e3 = copies_from d2 a target size w ht hs acct in
        let (s1, ew, er) =
          handle_read_command-handle_write_command ev (device_system kernel malloc) docs mem size
            host target s m (address_bytes a) (pointer_to a) d1 d2 d3 true pos_ at e1 refl e2 e3 in
        (
          s1,
          record s1 { unimem = d3 },
          ew,
          er,
          λ i lt.
              blit-inside size virt target d2.kernel_memory d2.user_memory i lt
              ∙ blit-inside size host virt d1.user_memory d1.kernel_memory i lt,
          λ b out. blit-outside size virt target d2.kernel_memory d2.user_memory b out,
        )
