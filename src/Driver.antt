-- ===== src/Driver.antt =====
-- The unimem driver of unimem/driver_buffer/unimem_buffer_alloc.c and
-- unimem/driver_buffer/buffer_ops.h: a device that allocates buffers in the kernel and copies
-- between them and the memory of the process. Both memories are functions from an address to a
-- byte. Registration of the device and the logs are left out.
pub mod Layout
pub mod Copies
pub mod EndToEnd
mod Tests
use fpgaml.Common.{
  ℕ, zero, suc, ◌+◌, ◌-◌, ◌*◌, ◌/◌, ◌%◌, Bool, true, false, not, ◌&&◌, ◌||◌, if◌then◌else◌, ltb,
  leb, ◌==◌, Option, none, some, List, [], ◌∷◌, ◌++◌, length, replicate, take, drop, u32_max,
}
use fpgaml.Unimem.{
  System, little_endian, letter_create, letter_address, letter_destroy, letter_write, letter_read,
}

-- What the driver uses of the kernel: `vmalloc`, which gives 0 for NULL, `vfree`, and how many
-- bytes of a range of the process's memory can be copied from or to before a fault.
pub record Kernel : Type 1 where
  pub Heap : Type 0
  pub vmalloc : Heap → ℕ → ℕ × Heap
  pub vfree : Heap → ℕ → Heap
  pub accessible : ℕ → ℕ → ℕ

-- struct unimem_addr
pub record UnimemAddr : Type 0 where
  pub kernel_virt_addr : ℕ
  pub bus_addr : ℕ
  pub size : ℕ

-- The structure as its bytes in memory.
unfoldable pub address_bytes : UnimemAddr → List ℕ
unfolding little_endian
address_bytes a =
    little_endian 8 a.kernel_virt_addr ++ (little_endian 8 a.bus_addr ++ little_endian 8 a.size)

abbrev pub of_little_endian : List ℕ → ℕ
of_little_endian [] = 0
of_little_endian (b ∷ bs) = b + 256 * of_little_endian bs

-- The pointer or size of 8 bytes at an offset: `*(size_t*)(k_buf + offset)`.
unfoldable pub number_at : List ℕ → ℕ → ℕ
number_at k_buf offset = of_little_endian (take 8 (drop offset k_buf))

-- `(struct unimem_addr*)(k_buf + 1)`
unfoldable pub address_at : List ℕ → UnimemAddr
unfolding number_at
address_at k_buf = record {
  kernel_virt_addr = number_at k_buf 1;
  bus_addr = number_at k_buf 9;
  size = number_at k_buf 17;
}

-- s_C_msg_len, s_D_msg_len, s_W_msg_len, s_R_msg_len and s_z_msg_len
abbrev pub create_length : ℕ
create_length = 9

abbrev pub destroy_length : ℕ
destroy_length = 25

abbrev pub write_length : ℕ
write_length = 41

abbrev pub read_length : ℕ
read_length = 41

abbrev pub response_length : ℕ
response_length = 25

-- `n` bytes of `source` from `from` on are written to `target` from `to` on.
abbrev pub blit : ℕ → ℕ → ℕ → (ℕ → ℕ) → (ℕ → ℕ) → ℕ → ℕ
blit n from to source target a =
    if leb to a && ltb a (to + n) then source (from + (a - to)) else target a

module _ (kernel : Kernel) where
  pub record Device : Type 0 where
    pub dev_opened : ℕ
    pub return_type : ℕ
    pub return_addr : UnimemAddr
    pub heap : kernel.Heap
    pub kernel_memory : ℕ → ℕ
    pub user_memory : ℕ → ℕ

  unfoldable pub handle_write_C : List ℕ → ℕ → Device → Option ℕ × Device
  unfolding number_at
  handle_write_C k_buf len d =
      if not (len == create_length)
      then (none, d)
      else let alloc_len = number_at k_buf 1 in
        let (virt, heap') = kernel.vmalloc d.heap alloc_len in
        if virt == 0
        then (
          none,
          record d {
            heap = heap';
            return_addr = record d.return_addr { kernel_virt_addr = 0; bus_addr = 13 };
          },
        )
        else (
          some len,
          record d {
            heap = heap';
            return_addr = record { kernel_virt_addr = virt; bus_addr = 13; size = alloc_len };
            return_type = letter_address;
          },
        )

  unfoldable pub handle_write_D : List ℕ → ℕ → Device → Option ℕ × Device
  unfolding address_at
  handle_write_D k_buf len d =
      if not (len == destroy_length)
      then (none, d)
      else (some len, record d { heap = kernel.vfree d.heap (address_at k_buf).kernel_virt_addr })

  -- The count of bytes that were not copied is kept in an `unsigned`.
  unfoldable pub handle_write_W : List ℕ → ℕ → Device → Option ℕ × Device
  unfolding address_at number_at
  handle_write_W k_buf len d =
      if not (len == write_length)
      then (none, d)
      else let user_buffer_ptr = number_at k_buf 25 in
        let user_buf_len = number_at k_buf 33 in
        let copied = kernel.accessible user_buffer_ptr user_buf_len in
        (
          if (user_buf_len - copied) % u32_max == 0 then some write_length else none,
          record d {
            kernel_memory =
                blit copied user_buffer_ptr (address_at k_buf).kernel_virt_addr d.user_memory
                  d.kernel_memory;
          },
        )

  unfoldable pub handle_write_R : List ℕ → ℕ → Device → Option ℕ × Device
  unfolding address_at number_at
  handle_write_R k_buf len d =
      if not (len == read_length)
      then (none, d)
      else let user_buffer_ptr = number_at k_buf 25 in
        let user_buf_len = number_at k_buf 33 in
        let copied = kernel.accessible user_buffer_ptr user_buf_len in
        (
          if (user_buf_len - copied) % u32_max == 0 then some read_length else none,
          record d {
            user_memory =
                blit copied (address_at k_buf).kernel_virt_addr user_buffer_ptr d.kernel_memory
                  d.user_memory;
          },
        )

  -- The first byte of k_buf, which is cleared before the message is copied to it.
  abbrev pub first_byte : List ℕ → ℕ
  first_byte [] = 0
  first_byte (b ∷ bs) = b

  -- dev_write, for a message that the kernel can read
  unfoldable pub dev_write : Device → List ℕ → Option ℕ × Device
  unfolding handle_write_C handle_write_D handle_write_W handle_write_R
  dev_write d message =
      let len = length message in
      let k_buf = message ++ replicate (write_length - len) 0 in
      if ltb write_length len
      then (none, d)
      else if first_byte k_buf == letter_create
      then handle_write_C k_buf len d
      else if first_byte k_buf == letter_destroy
      then handle_write_D k_buf len d
      else if first_byte k_buf == letter_write
      then handle_write_W k_buf len d
      else if first_byte k_buf == letter_read
      then handle_write_R k_buf len d
      else (none, d)

  -- dev_read, into a buffer of `len` bytes that the kernel can write
  unfoldable pub dev_read : Device → ℕ → Option (List ℕ) × Device
  unfolding address_bytes
  dev_read d len =
      if not (d.return_type == letter_address)
      then (none, d)
      else if ltb len response_length
      then (none, d)
      else (some (letter_address ∷ address_bytes d.return_addr), record d { return_type = 0 })

  -- dev_open and dev_release; the result is whether the device could be opened.
  unfoldable pub dev_open : Device → Bool × Device
  dev_open d = if ltb 0 d.dev_opened then (false, d) else (true, record d { dev_opened = 1 })

  unfoldable pub dev_release : Device → Device
  dev_release d = record d { dev_opened = 0 }

  -- The device as the process sees it through its file, with malloc given by `malloc_succeeds`.
  abbrev pub device_system : (ℕ → Bool) → System
  device_system malloc_succeeds = record {
    State = Device;
    write = dev_write;
    read = dev_read;
    malloc_succeeds = λ d n. malloc_succeeds n;
  }
