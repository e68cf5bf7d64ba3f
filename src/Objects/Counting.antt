-- ===== src/Objects/Counting.antt =====
-- References are given back, and arguments land in their places.
use fpgaml.Common.{
  ℕ, zero, suc, ◌+◌, ◌-◌, ◌<◌, ◌≡◌, ◌≢◌, ◌∙◌, ◌^◌, refl, sym, ap, Option, none, some, List, [], ◌∷◌,
  ◌++◌, length, set, get_elem?, replicate, ok, arith, length-append, length-replicate,
  get_elem?-set_self, get_elem?-set_ne, get_elem?-append_left, if◌then◌else◌, ltb, ◌>>=◌,
}
use fpgaml.Common.{take, ◌≤◌}
use fpgaml.Common.Int.{pos}
use fpgaml.Objects.{
  Objects, Event, Mem, Kernel, KernelArg, Body, write_buffer, read_buffer, ndrange, empty_command,
  new_event, mem_up, mem_down, kernel_up, kernel_down, event_down, ref_cnt_up, ref_cnt_down,
  new_command, delete_command, new_kernel_arg, set_args, resize,
}

-- An argument of at least one byte, whose size is an `int`, with as many bytes at its address and an
-- index that has a successor in 32 bits, is found in its place, with its bytes and its size, and the
-- arguments that were there before stay.
pub set_args_lem :
    (k : Kernel) (index size : ℕ) (bytes : List ℕ)
    → index + 1 < 2 ^ 32
    → 0 < size
    → size < 2 ^ 31
    → size ≤ length bytes
    → (k' : Kernel) × (set_args k index size (some bytes) ≡ ok k')
      × (get_elem? k'.args index
          ≡ some (some (record { value = some (take size bytes); value_size = pos size })))
      × ((j : ℕ) → j ≢ index → j < length k.args → get_elem? k'.args j ≡ get_elem? k.args j)
unfolding set_args new_kernel_arg
set_args_lem k index size bytes small some_bytes is_int enough =
    let args = if ltb (length k.args) (index + 1) then resize (index + 1) k.args else k.args in
    let long : index < length args = long_enough in
    let a : Option KernelArg =
      some (record { value = some (take size bytes); value_size = pos size }) in
    (
      record k { args = set args index a },
      ground (arith, long, small, some_bytes, is_int, enough),
      get_elem?-set_self args index a long,
      λ j ne lt. get_elem?-set_ne args index j a (λ e. ne (sym e)) ∙ kept j lt,
    )
  where
    long_enough :
        index
        < length (if ltb (length k.args) (index + 1) then resize (index + 1) k.args else k.args)
    long_enough =
        let e = length-append k.args (replicate (index + 1 - length k.args) none) in
        let f = length-replicate {A = Option KernelArg} (index + 1 - length k.args) none in
        ground (arith, e, f)

    kept :
        (j : ℕ)
        → j < length k.args
        → get_elem?
            (if ltb (length k.args) (index + 1) then resize (index + 1) k.args else k.args)
            j
          ≡ get_elem? k.args j
    kept j lt =
        let e = get_elem?-append_left k.args (replicate (index + 1 - length k.args) none) j lt in
        ground (arith, e)

module _ {A : Type 0} where
  set_back : (xs : List A) (i : ℕ) (v w : A) → get_elem? xs i ≡ some v → set (set xs i w) i v ≡ xs
  set_back [] i v w h = refl
  set_back (x ∷ xs) zero v w h = cc
  set_back (x ∷ xs) (suc i) v w h = ap (λ k. x ∷ k) (set_back xs i v w h)

  pub get_set :
      (xs : List A) (i : ℕ) (v w : A) → get_elem? xs i ≡ some v → get_elem? (set xs i w) i ≡ some w
  get_set [] i v w h = cc
  get_set (x ∷ xs) zero v w h = refl
  get_set (x ∷ xs) (suc i) v w h = get_set xs i v w h

  pub get_last : (xs : List A) (v : A) → get_elem? (xs ++ (v ∷ [])) (length xs) ≡ some v
  get_last [] v = refl
  get_last (x ∷ xs) v = get_last xs v

  pub set_last : (xs : List A) (v w : A) → set (xs ++ (v ∷ [])) (length xs) w ≡ xs ++ (w ∷ [])
  set_last [] v w = refl
  set_last (x ∷ xs) v w = ap (λ k. x ∷ k) (set_last xs v w)

-- The object that a command is about has a reference, and room for one more.
abbrev pub Refers : Body → Objects → Type 0
Refers (write_buffer mem _ _ _) o =
    (m : Mem) × (get_elem? o.mems mem ≡ some (some m)) × (0 < m.counter) × (m.counter + 1 < 2 ^ 32)
Refers (read_buffer mem _ _ _) o =
    (m : Mem) × (get_elem? o.mems mem ≡ some (some m)) × (0 < m.counter) × (m.counter + 1 < 2 ^ 32)
Refers (ndrange kernel work_dim _ _ _) o =
    (k : Kernel) × (get_elem? o.kernels kernel ≡ some (some k))
    × (0 < k.counter)
    × (k.counter + 1 < 2 ^ 32)
    × (work_dim < 2)
Refers empty_command o = Unit

up_down : (c : ℕ) → 0 < c → c + 1 < 2 ^ 32 → ref_cnt_down (ref_cnt_up c) ≡ some c
unfolding ref_cnt_down ref_cnt_up
up_down c alive fit = ground (arith, alive, fit)

mem-up_down :
    (i : ℕ) (o : Objects) (m : Mem)
    → get_elem? o.mems i ≡ some (some m)
    → 0 < m.counter
    → m.counter + 1 < 2 ^ 32
    → (mem_up i o >>= mem_down i) ≡ ok o
unfolding mem_up mem_down
mem-up_down i o m at alive fit =
    let m' = some (record m { counter = ref_cnt_up m.counter }) in
    let e = get_set o.mems i (some m) m' at in
    let f = set_back o.mems i (some m) m' at in
    let g = up_down m.counter alive fit in ground (arith, at, e, f, g)

kernel-up_down :
    (i : ℕ) (o : Objects) (k : Kernel)
    → get_elem? o.kernels i ≡ some (some k)
    → 0 < k.counter
    → k.counter + 1 < 2 ^ 32
    → (kernel_up i o >>= kernel_down i) ≡ ok o
unfolding kernel_up kernel_down
kernel-up_down i o m at alive fit =
    let m' = some (record m { counter = ref_cnt_up m.counter }) in
    let e = get_set o.kernels i (some m) m' at in
    let f = set_back o.kernels i (some m) m' at in
    let g = up_down m.counter alive fit in ground (arith, at, e, f, g)

event-down_new :
    (es : List (Option Event)) (o : Objects)
    → o.events ≡ es ++ (some new_event ∷ [])
    → event_down (length es) o ≡ ok (record o { events = es ++ (none ∷ []) })
unfolding event_down ref_cnt_down
event-down_new es o q =
    let e : get_elem? o.events (length es) ≡ some (some new_event) =
      ap (λ k. get_elem? k (length es)) q ∙ get_last es (some new_event) in
    let f : set o.events (length es) none ≡ es ++ (none ∷ []) =
      ap (λ k. set k (length es) none) q ∙ set_last es (some new_event) none in
    ground (arith, e, f)

-- A command that is made and deleted leaves the counter of its object as it was, and its event
-- deleted.
pub delete_command-new_command :
    (b : Body) (o : Objects)
    → Refers b o
    → (new_command b o >>= λ r. delete_command r.0 r.1)
      ≡ ok (record o { events = o.events ++ (none ∷ []) })
unfolding new_command delete_command mem_up mem_down kernel_up kernel_down
delete_command-new_command (write_buffer mem x y z) o (m, at, alive, fit) =
    let o' = record o { events = o.events ++ (some new_event ∷ []) } in
    let e = mem-up_down mem o' m at alive fit in
    let f = event-down_new o.events o' refl in ground (arith, at, e, f)
delete_command-new_command (read_buffer mem x y z) o (m, at, alive, fit) =
    let o' = record o { events = o.events ++ (some new_event ∷ []) } in
    let e = mem-up_down mem o' m at alive fit in
    let f = event-down_new o.events o' refl in ground (arith, at, e, f)
delete_command-new_command (ndrange kernel dim x y z) o (k, at, alive, fit, one) =
    let o' = record o { events = o.events ++ (some new_event ∷ []) } in
    let e = kernel-up_down kernel o' k at alive fit in
    let f = event-down_new o.events o' refl in ground (arith, at, e, f, one)
delete_command-new_command empty_command o u =
    let o' = record o { events = o.events ++ (some new_event ∷ []) } in
    event-down_new o.events o' refl
