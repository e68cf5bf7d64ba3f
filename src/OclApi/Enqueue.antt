-- ===== src/OclApi/Enqueue.antt =====
-- The functions on command queues and kernels, and the enqueueing of a kernel.
use fpgaml.Common.{
  ℕ, ◌%◌, Bool, true, false, if◌then◌else◌, ltb, ◌==◌, Option, none, some, List, [], ◌∷◌, ◌++◌,
  length, set, Outcome, ok, fault, ◌>>=◌,
}
use fpgaml.Objects.{
  ClCode, cl_success, cl_invalid_program, cl_invalid_kernel, cl_invalid_command_queue,
  cl_invalid_work_dimension, cl_invalid_work_group_size, cl_invalid_global_work_size, load,
  new_counter, Kernel, set_args, Command, ndrange, new_command, kernel_down,
}
use fpgaml.Bitstreams.{check_wg_size}
use fpgaml.CmdQueue.{new_queue, submit_cmd, queue_ref_cnt_down}
use fpgaml.OclApi.{Api}

-- clCreateCommandQueue and ml_create_cmd_q; `*errcode_ret` is left as it is.
unfoldable pub create_command_queue : Api → ℕ × Api
unfolding new_queue
create_command_queue a =
    (length a.queues, record a { queues = a.queues ++ (some (new_queue (length a.queues)) ∷ []) })

-- clReleaseCommandQueue and ml_cmd_q_ref_cnt_down. No code is returned where there is a queue.
unfoldable pub release_command_queue : Option ℕ → Api → Outcome (Option ClCode × Api)
unfolding queue_ref_cnt_down
release_command_queue none a = ok (some cl_invalid_command_queue, a)
release_command_queue (some i) a = load a.queues i >>= λ q.
    ok (none, record a { queues = set a.queues i (some (queue_ref_cnt_down q)) })

-- clCreateKernel, for a program that is not deleted: the kernel, and what is stored in
-- `*errcode_ret` where that place is there.
unfoldable pub create_kernel : Option ℕ → Bool → Api → Outcome (Option ℕ × Option ClCode × Api)
create_kernel none errcode_ret a =
    ok (none, if errcode_ret then some cl_invalid_program else none, a)
create_kernel (some i) errcode_ret a = load a.programs i >>= λ p.
    let k : Kernel = record { counter = new_counter; program = some p.xml_name; args = [] } in
    ok (
      some (length a.objects.kernels),
      none,
      record a { objects = record a.objects { kernels = a.objects.kernels ++ (some k ∷ []) } },
    )

-- clSetKernelArg
unfoldable pub set_kernel_arg : Option ℕ → ℕ → ℕ → Option (List ℕ) → Api → Outcome (ClCode × Api)
unfolding set_args
set_kernel_arg none arg_index arg_size arg_value a = ok (cl_invalid_kernel, a)
set_kernel_arg (some i) arg_index arg_size arg_value a = load a.objects.kernels i >>= λ k.
    set_args k arg_index arg_size arg_value >>= λ k'. ok (
      cl_success,
      record a { objects = record a.objects { kernels = set a.objects.kernels i (some k') } },
    )

-- clReleaseKernel, which returns a code only where there is no kernel
unfoldable pub release_kernel : Option ℕ → Api → Outcome (Option ClCode × Api)
unfolding kernel_down
release_kernel none a = ok (some cl_invalid_kernel, a)
release_kernel (some i) a = kernel_down i a.objects >>= λ o. ok (none, record a { objects = o })

-- A command is made and given to ml_submit_cmd: whether the queue refuses it, its event, and the
-- state. An event that the caller keeps has one more reference.
unfoldable pub submit : ℕ → Command → Api → Outcome (Bool × Api)
unfolding submit_cmd
submit queue cmd a = load a.queues queue >>= λ q.
    submit_cmd a.unreturned a.unique_command_id q cmd a.objects >>= λ (id, refused, q', o). ok (
      refused,
      record a { unique_command_id = id; queues = set a.queues queue (some q'); objects = o },
    )

-- The name of a kernel's program.
abbrev pub program_name : Kernel → Outcome (List ℕ)
program_name k = elim k.program [ none ↦ fault | some name ↦ ok name ]

-- The first element of an array of sizes, where the array is there.
abbrev pub first_size : Option ℕ → Outcome ℕ
first_size none = fault
first_size (some n) = ok n

-- clEnqueueNDRangeKernel; of each array of sizes the first element is given, if it is there.
unfoldable pub enqueue_ndrange_kernel :
    Option ℕ → Option ℕ → ℕ → Option ℕ → Option ℕ → Option ℕ → Api → Outcome (ClCode × Api)
unfolding submit
enqueue_ndrange_kernel command_queue kernel work_dim global_work_offset global_work_size
      local_work_size a =
    elim command_queue [
      | none ↦ ok (cl_invalid_command_queue, a)
      | some queue ↦ elim kernel [
        | none ↦ ok (cl_invalid_kernel, a)
        | some i ↦ elim (ltb 1 work_dim) [
          | true ↦ ok (cl_invalid_work_dimension, a)
          | false ↦ elim local_work_size [
            | none ↦ ok (cl_invalid_work_group_size, a)
            | some l ↦ elim (ltb l 1) [
              | true ↦ ok (cl_invalid_work_group_size, a)
              | false ↦ load a.objects.kernels i >>= λ k. program_name k >>= λ name.
                  elim (check_wg_size a.wg_size_check name l) [
                    | false ↦ ok (cl_invalid_work_group_size, a)
                    | true ↦ first_size global_work_size >>= λ g. elim (g % l == 0) [
                      | false ↦ ok (cl_invalid_global_work_size, a)
                      | true ↦
                          let offset : ℕ = elim global_work_offset [ none ↦ 0 | some n ↦ n ] in
                          new_command (ndrange i work_dim offset g l) a.objects >>= λ (cmd, o).
                          submit queue cmd (record a { objects = o }) >>= λ (refused, a').
                          ok (if refused then cl_invalid_command_queue else cl_success, a')
                    ]
                  ]
            ]
          ]
        ]
      ]
    ]
