-- ===== src/OclApi/Checked.antt =====
-- What the checks of clEnqueueNDRangeKernel let through.
use native.Mathlib.Nat.{div-add-mod}
use fpgaml.Common.{
  ℕ, ◌*◌, ◌/◌, ◌%◌, ◌<◌, ◌≡◌, refl, inl, inr, true, false, Option, none, some, List, [], ◌∷◌, ◌++◌,
  length, get_elem?, set, ok, fault, arith, Bool-cases, Option-cases, ◌⊎◌, add_u32,
}
use fpgaml.Common.Names.{Name}
use fpgaml.CircArray.{CircArray}
use fpgaml.CircArray.Inv.{Holds}
use fpgaml.Objects.{
  Objects, Kernel, cl_success, load, ndrange, Command, new_event, new_command, kernel_up,
  ref_cnt_up, feed,
}
use fpgaml.Bitstreams.{check_wg_size}
use fpgaml.CmdQueue.{CommandQueue}
use fpgaml.CmdQueue.Order.{submit_cmd_lem}
use fpgaml.OclApi.{Api}
use fpgaml.OclApi.Enqueue.{submit, enqueue_ndrange_kernel}

-- A command that is submitted to a queue with room stands at its end.
pub submit_lem :
    (queue : ℕ) (cmd : Command) (a : Api) (q : CommandQueue) {cmds : List Command}
    → load a.queues queue ≡ ok q
    → Holds q.ring_buffer cmds
    → 0 < q.ref_counter
    → length cmds < q.ring_buffer.capacity
    → a.unreturned ≡ false
    → let id = add_u32 a.unique_command_id 1 in
      (c : CircArray Command) × (submit queue cmd a
        ≡ ok (
          false,
          record a {
            unique_command_id = id;
            queues = set a.queues queue (some (record q { ring_buffer = c }));
            objects = feed q.number a.objects;
          },
        ))
      × Holds c (cmds ++ (record cmd { command_id = id } ∷ []))
unfolding submit
submit_lem queue cmd a q at h alive room given =
    let (c, e, h') = submit_cmd_lem a.unreturned a.unique_command_id q cmd a.objects h alive room in
    (c, ground (arith, at, e, given), h')

-- A kernel whose program's bitstream is on record with the workgroup size `l`, on a global size that
-- `l` divides, is accepted where the value that push_back does not return is not the code of a
-- released queue: the command is the last of the queue's.
pub enqueue_ndrange_kernel_accepts :
    (queue kernel work_dim offset g l : ℕ) (name : Name) (k : Kernel) (q : CommandQueue) (a : Api)
    {cmds : List Command}
    → load a.queues queue ≡ ok q
    → Holds q.ring_buffer cmds
    → 0 < q.ref_counter
    → length cmds < q.ring_buffer.capacity
    → a.unreturned ≡ false
    → load a.objects.kernels kernel ≡ ok k
    → k.program ≡ some name
    → check_wg_size a.wg_size_check name l ≡ true
    → 0 < l
    → g % l ≡ 0
    → work_dim < 2
    → let cmd : Command = record {
      command_id = add_u32 a.unique_command_id 1;
      event = length a.objects.events;
      body = ndrange kernel work_dim offset g l;
    } in
      (a' : Api) × (c : CircArray Command) × (enqueue_ndrange_kernel
          (some queue)
          (some kernel)
          work_dim
          (some offset)
          (some g)
          (some l)
          a
        ≡ ok (cl_success, a'))
      × (a'.queues ≡ set a.queues queue (some (record q { ring_buffer = c })))
      × Holds c (cmds ++ (cmd ∷ []))
unfolding enqueue_ndrange_kernel new_command kernel_up
enqueue_ndrange_kernel_accepts queue kernel work_dim offset g l name k q a at h alive room given at'
      prog size pos div one =
    let o : Objects = record a.objects {
      events = a.objects.events ++ (some new_event ∷ []);
      kernels = set a.objects.kernels kernel (some (record k { counter = ref_cnt_up k.counter }));
    } in
    let made : Command = record {
      command_id = 0;
      event = length a.objects.events;
      body = ndrange kernel work_dim offset g l;
    } in
    let (c, e, h') = submit_lem queue made (record a { objects = o }) q at h alive room given in
    (
      record a {
        unique_command_id = add_u32 a.unique_command_id 1;
        queues = set a.queues queue (some (record q { ring_buffer = c }));
        objects = feed q.number o;
      },
      c,
      ground (arith, at', prog, size, pos, div, one, e),
      refl,
      h',
    )

load-cases :
    {A : Type 0} (xs : List (Option A)) (i : ℕ)
    → ((x : A) × (load xs i ≡ ok x)) ⊎ (load xs i ≡ fault)
load-cases xs i = elim (Option-cases (get_elem? xs i)) [
  | inl e ↦ inr (ground (arith, e))
  | inr (none, e) ↦ inr (ground (arith, e))
  | inr (some x, e) ↦ inl (x, ground (arith, e))
]

-- The other way round: where clEnqueueNDRangeKernel succeeds there are both sizes, the local one is
-- positive, is the one on record for the bitstream of the kernel's program, and divides the global
-- one, so that the dispatcher's division is defined and leaves no rest; and there is one dimension
-- at most.
pub enqueue_ndrange_kernel_sound :
    (queue kernel work_dim : ℕ) (offset global_size local_size : Option ℕ) (a a' : Api)
    → enqueue_ndrange_kernel (some queue) (some kernel) work_dim offset global_size local_size a
      ≡ ok (cl_success, a')
    → (g : ℕ) × (l : ℕ) × (k : Kernel) × (name : Name) × (global_size ≡ some g)
      × (local_size ≡ some l)
      × (load a.objects.kernels kernel ≡ ok k)
      × (k.program ≡ some name)
      × (check_wg_size a.wg_size_check name l ≡ true)
      × (0 < l)
      × (l * (g / l) ≡ g)
      × (work_dim < 2)
unfolding enqueue_ndrange_kernel
enqueue_ndrange_kernel_sound queue kernel work_dim offset global_size none a a' h =
    absurd (ground (arith, h))
enqueue_ndrange_kernel_sound queue kernel work_dim offset global_size (some l) a a' h =
    elim (load-cases a.objects.kernels kernel) [
      | inr bad ↦ absurd (ground (arith, h, bad))
      | inl (k, at) ↦ elim (Option-cases k.program) [
        | inl bad ↦ absurd (ground (arith, h, at, bad))
        | inr (name, prog) ↦ elim (Bool-cases (check_wg_size a.wg_size_check name l)) [
          | inr bad ↦ absurd (ground (arith, h, at, prog, bad))
          | inl size ↦ elim (Option-cases global_size) [
            | inl bad ↦ absurd (ground (arith, h, at, prog, size, bad))
            | inr (g, there) ↦
                let pos : 0 < l = ground (arith, h) in
                let one : work_dim < 2 = ground (arith, h) in
                let rest : g % l ≡ 0 = ground (arith, h, at, prog, size, there) in
                (
                  g,
                  l,
                  k,
                  name,
                  there,
                  refl,
                  at,
                  prog,
                  size,
                  pos,
                  omega (arith, div-add-mod g l, rest),
                  one,
                )
          ]
        ]
      ]
    ]
