-- ===== src/Dispatcher/Handling.antt =====
-- What the dispatcher leaves behind: events that are complete, and buffers that can be read.
use fpgaml.Common.{
  ℕ, zero, suc, ◌<◌, ◌≡◌, refl, Bool, true, false, if◌then◌else◌, Option, none, some, List, [], ◌∷◌,
  ◌++◌, set, get_elem?, Outcome, ok, ◌>>=◌, arith,
}
use fpgaml.EvTimer.{LibEv}
use fpgaml.Unimem.{
  System, UnimemPtr, allocate_unimem, copy_to_unimem, copy_from_unimem, release_unimem,
}
use fpgaml.Bitstreams.{Documents}
use fpgaml.Objects.{
  Objects, Mem, Event, Command, write_buffer, ClCode, cl_success, cl_one,
  cl_mem_object_allocation_failure, load, complete, set_event_error, complete_event,
  set_as_complete, set_error, feed, has, set_unimem_ptr,
}
use fpgaml.Dispatcher.{
  Engine, handle_a_cmd, handle_write_command, handle_read_command, params_error,
  check_read_write_params, attach,
}

module _ {A : Type 0} where
  pub load→get :
      (xs : List (Option A)) (i : ℕ) (a : A) → load xs i ≡ ok a → get_elem? xs i ≡ some (some a)
  load→get xs i a h = elim_get (get_elem? xs i) refl
    where
      elim_get : (o : Option (Option A)) → get_elem? xs i ≡ o → get_elem? xs i ≡ some (some a)
      elim_get none e = cc
      elim_get (some none) e = cc
      elim_get (some (some b)) e = cc

  get_set-some :
      (xs : List A) (i : ℕ) (a b : A) → get_elem? xs i ≡ some a → get_elem? (set xs i b) i ≡ some b
  get_set-some [] i a b h = cc
  get_set-some (x ∷ xs) zero a b h = refl
  get_set-some (x ∷ xs) (suc i) a b h = get_set-some xs i a b h

module _ {A : Type 0} where
  load-set :
      (xs : List (Option A)) (i : ℕ) (a b : A)
      → load xs i ≡ ok a
      → load (set xs i (some b)) i ≡ ok b
  load-set xs i a b h =
      let e = get_set-some xs i (some a) (some b) (load→get xs i a h) in ground (arith, e)

has-append : (q : ℕ) (ps : List ℕ) → has q (ps ++ (q ∷ [])) ≡ true
has-append q [] = ground arith
has-append q (p ∷ ps) = ground (arith, has-append q ps)

pub has-feed : (q : ℕ) (o : Objects) → has q (feed q o).pending ≡ true
has-feed q o = ground (arith, has-append q o.pending)

-- An event that is completed with a code shows both, and its queue's watcher is pending.
pub finish_event :
    (i : ℕ) (code : ClCode) (o : Objects) (e : Event) (q : ℕ)
    → load o.events i ≡ ok e
    → e.on_complete ≡ some q
    → (o' : Objects) × ((set_event_error i code o >>= complete_event i) ≡ ok o')
      × (load o'.events i ≡ ok (record e { error_code = code; event_state = complete }))
      × (has q o'.pending ≡ true)
      × (o'.mems ≡ o.mems)
unfolding set_event_error complete_event set_as_complete set_error
finish_event i code o e q at cb =
    let e1 = record e { error_code = code } in
    let e2 = record e { error_code = code; event_state = complete } in
    let o1 = record o { events = set o.events i (some e1) } in
    let o2 = record o1 { events = set o1.events i (some e2) } in
    let at1 = load-set o.events i e e1 at in
    let at2 = load-set o1.events i e1 e2 at1 in
    (feed q o2, ground (arith, at, at1, cb), at2, has-feed q o2, refl)

module _ (ev : LibEv) (sys : System) (docs : Documents) where
  -- A write that is handled, with success or an error, completes its command's event with the code,
  -- and feeds the queue that the event is registered for.
  pub handle_a_cmd_write :
      (now : ℕ) (cmd : Command) (mem offset size : ℕ) (ptr : Option ℕ) (s s' : Engine ev sys docs)
      (code : ClCode) (e : Event) (q : ℕ)
      → cmd.body ≡ write_buffer mem offset size ptr
      → handle_write_command ev sys docs mem size ptr s ≡ ok (code, s')
      → load s'.objects.events cmd.event ≡ ok e
      → e.on_complete ≡ some q
      → (s'' : Engine ev sys docs) × (handle_a_cmd ev sys docs now cmd s ≡ ok s'')
        × (load s''.objects.events cmd.event
            ≡ ok (record e { error_code = code; event_state = complete }))
        × (has q s''.objects.pending ≡ true)
        × (s''.objects.mems ≡ s'.objects.mems)
  unfolding handle_a_cmd
  handle_a_cmd_write now cmd mem offset size ptr s s' code e q body run at cb =
      let (o', f, at', p, m) = finish_event cmd.event code s'.objects e q at cb in
      (record s' { objects = o' }, chain o' f, at', p, m)
    where
      chain :
          (o' : Objects)
          → (set_event_error cmd.event code s'.objects >>= complete_event cmd.event) ≡ ok o'
          → handle_a_cmd ev sys docs now cmd s ≡ ok (record s' { objects = o' })
      chain o' f = steps (set_event_error cmd.event code s'.objects) refl
        where
          steps :
              (m : Outcome Objects)
              → set_event_error cmd.event code s'.objects ≡ m
              → handle_a_cmd ev sys docs now cmd s ≡ ok (record s' { objects = o' })
          steps m g = ground (arith, body, run, f, g)

  -- A write with data: where the allocation and the copy succeed, the memory object has the pointer
  -- and the size, and a read of that size into the host's memory succeeds as the driver's copy does.
  pub handle_read_command-handle_write_command :
      (mem size host target : ℕ) (s : Engine ev sys docs) (m : Mem) (addr : List ℕ)
      (u_ptr : UnimemPtr) (d1 d2 d3 : sys.State) (copied : Bool)
      → 0 < size
      → load s.objects.mems mem ≡ ok m
      → allocate_unimem sys s.fd s.unimem size ≡ (u_ptr, d1)
      → u_ptr.ptr ≡ some addr
      → copy_to_unimem sys d1 u_ptr host size ≡ ok (true, d2)
      → copy_from_unimem sys d2 target u_ptr size ≡ ok (copied, d3)
      → (s1 : Engine ev sys docs) × (handle_write_command ev sys docs mem size (some host) s
          ≡ ok (cl_success, s1))
        × (handle_read_command ev sys docs mem size (some target) s1
            ≡ ok (
              if copied then cl_success else cl_mem_object_allocation_failure,
              record s1 { unimem = d3 },
            ))
  unfolding handle_write_command handle_read_command params_error check_read_write_params attach
      set_unimem_ptr
  handle_read_command-handle_write_command mem size host target s m addr u_ptr d1 d2 d3 copied pos
        at a p w r =
      let at' = load-set s.objects.mems mem m (record m { unimem_ptr = u_ptr; size = size }) at in
      let mems' = set s.objects.mems mem (some (record m { unimem_ptr = u_ptr; size = size })) in
      (
        record s { objects = record s.objects { mems = mems' }; unimem = d2 },
        ground (arith, pos, at, a, p, w),
        ground (arith, pos, p, r, at'),
      )

  -- A write whose copy fails gives the allocation back, and leaves the memory objects alone.
  pub handle_write_command_rollback :
      (mem size host : ℕ) (s : Engine ev sys docs) (addr : List ℕ) (u_ptr : UnimemPtr)
      (d1 d2 d3 : sys.State)
      → 0 < size
      → allocate_unimem sys s.fd s.unimem size ≡ (u_ptr, d1)
      → u_ptr.ptr ≡ some addr
      → copy_to_unimem sys d1 u_ptr host size ≡ ok (false, d2)
      → release_unimem sys d2 u_ptr ≡ ok d3
      → handle_write_command ev sys docs mem size (some host) s
        ≡ ok (cl_mem_object_allocation_failure, record s { unimem = d3 })
  unfolding handle_write_command params_error check_read_write_params
  handle_write_command_rollback mem size host s addr u_ptr d1 d2 d3 pos a p w r =
      ground (arith, pos, a, p, w, r)

  -- A read or a write of size 0 is refused with the code 1, not with CL_INVALID_VALUE.
  pub handle_commands_empty :
      (mem : ℕ) (ptr : Option ℕ) (s : Engine ev sys docs)
      → (handle_write_command ev sys docs mem 0 ptr s ≡ ok (cl_one, s))
        × (handle_read_command ev sys docs mem 0 ptr s ≡ ok (cl_one, s))
  unfolding handle_write_command handle_read_command params_error check_read_write_params
  handle_commands_empty mem ptr s = (refl, refl)
