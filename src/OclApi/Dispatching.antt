-- ===== src/OclApi/Dispatching.antt =====
-- The dispatcher as the handler of the event loop: what a command does to the API's state. The rest
-- of the dispatcher's state is given, as it is when the command comes.
use fpgaml.Common.{
  ℕ, ◌<◌, ◌≤◌, ◌≡◌, ◌∙◌, refl, ap, Bool, true, false, Option, none, some, ◌∷◌, length, set,
  get_elem?, Outcome, ok, throw, assert_failed, fault, List, ◌⊎◌, ◌>>=◌, arith, Bool-cases,
  Option-cases, inl, inr, ltb,
}
use fpgaml.EvTimer.{LibEv}
use fpgaml.Unimem.{
  System, UnimemPtr, allocate_unimem, copy_to_unimem, release_unimem, copy_user_buffer_to_unimem,
  copy_message, write_destroy_request,
}
use fpgaml.Bitstreams.{Documents}
use fpgaml.Objects.{
  Mem, Command, write_buffer, empty_command, ClCode, cl_success, cl_one, complete,
  cl_mem_object_allocation_failure, set_unimem_ptr,
}
use fpgaml.Objects.Counting.{get_set}
use fpgaml.Dispatcher.{
  Engine, handle_a_cmd, handle_write_command, params_error, check_read_write_params, attach,
}
use fpgaml.Dispatcher.Handling.{load→get, handle_a_cmd_write}
use fpgaml.OclApi.{Api}
use fpgaml.OclApi.Watcher.{load-get}
use fpgaml.OclApi.Serving.{Serves}

module _ (ev : LibEv) (sys : System) (docs : Documents) where
  -- handle_a_cmd at the time `now` on the objects of the API.
  unfoldable pub dispatch : ℕ → Engine ev sys docs → Command → Api → Outcome Api
  unfolding handle_a_cmd
  dispatch now eng cmd a =
      handle_a_cmd ev sys docs now cmd (record eng { objects = a.objects }) >>= λ eng'.
      ok (record a { objects = eng'.objects })

  -- An empty command does nothing at all.
  pub dispatch_empty :
      (now : ℕ) (eng : Engine ev sys docs) (cmd : Command) (a : Api)
      → cmd.body ≡ empty_command
      → dispatch now eng cmd a ≡ ok a
  unfolding dispatch handle_a_cmd
  dispatch_empty now eng cmd a e = ground (arith, e)

  -- The address that the driver gives for `size` bytes, if any, fits a message to it.
  abbrev pub HasShortAddress : Engine ev sys docs → ℕ → Type 0
  HasShortAddress eng size =
      (addr : List ℕ)
      → (allocate_unimem sys eng.fd eng.unimem size).0.ptr ≡ some addr
      → length addr ≤ 83

  attach_lem :
      (mem size : ℕ) (u : UnimemPtr) (s : Engine ev sys docs) (m : Mem)
      → get_elem? s.objects.mems mem ≡ some (some m)
      → attach ev sys docs mem u size s
        ≡ ok (
          cl_success,
          record s {
            objects = record s.objects {
              mems = set s.objects.mems mem (some (set_unimem_ptr m u size));
            };
          },
        )
  unfolding attach
  attach_lem mem size u s m at = ground (arith, at)

  copy_returns :
      (d : sys.State) (u : UnimemPtr) (addr : List ℕ) (host size : ℕ)
      → u.ptr ≡ some addr
      → length addr ≤ 83
      → (b : Bool) × (d2 : sys.State) × (copy_to_unimem sys d u host size ≡ ok (b, d2))
  unfolding copy_to_unimem copy_user_buffer_to_unimem copy_message
  copy_returns d u addr host size e short = by_result (copy_to_unimem sys d u host size) refl
    where
      by_result :
          (r : Outcome (Bool × sys.State))
          → copy_to_unimem sys d u host size ≡ r
          → (b : Bool) × (d2 : sys.State) × (copy_to_unimem sys d u host size ≡ ok (b, d2))
      by_result (ok (b, d2)) q = (b, d2, q)
      by_result (throw x) q = absurd (ground (arith, e, short, q))
      by_result assert_failed q = absurd (ground (arith, e, short, q))
      by_result fault q = absurd (ground (arith, e, short, q))

  release_returns :
      (d : sys.State) (u : UnimemPtr) (addr : List ℕ)
      → u.ptr ≡ some addr
      → length addr ≤ 83
      → (d2 : sys.State) × (release_unimem sys d u ≡ ok d2)
  unfolding release_unimem write_destroy_request
  release_returns d u addr e short = ((sys.write d (68 ∷ addr)).1, ground (arith, e, short))

  -- What a write does to the objects: the events stay, and the memory object is there.
  abbrev Wrote : ℕ → ℕ → Option ℕ → Engine ev sys docs → Type 0
  Wrote mem size ptr s =
      (code : ClCode) × (s' : Engine ev sys docs) × (handle_write_command ev sys docs mem size ptr s
        ≡ ok (code, s'))
      × (s'.objects.events ≡ s.objects.events)
      × ((m' : Mem) × (get_elem? s'.objects.mems mem ≡ some (some m')))

  module _ (mem size : ℕ) (ptr : Option ℕ) (s : Engine ev sys docs) (m : Mem)
      (at : get_elem? s.objects.mems mem ≡ some (some m)) where
    write_empty : size ≡ 0 → Wrote mem size ptr s
    unfolding handle_write_command params_error check_read_write_params
    write_empty z = (cl_one, s, ground (arith, z), refl, (m, at))

    write_unallocated :
        (u : UnimemPtr) (d : sys.State)
        → 0 < size
        → allocate_unimem sys s.fd s.unimem size ≡ (u, d)
        → u.ptr ≡ none
        → Wrote mem size ptr s
    unfolding handle_write_command params_error check_read_write_params
    write_unallocated u d some_size e n = (
      cl_mem_object_allocation_failure,
      record s { unimem = d },
      ground (arith, some_size, e, n),
      refl,
      (m, at),
    )

    write_attached :
        (u : UnimemPtr) (d d2 : sys.State) (addr : List ℕ)
        → 0 < size
        → allocate_unimem sys s.fd s.unimem size ≡ (u, d)
        → u.ptr ≡ some addr
        → ((ptr ≡ none) × (d2 ≡ d))
          ⊎ ((host : ℕ) × (ptr ≡ some host) × (copy_to_unimem sys d u host size ≡ ok (true, d2)))
        → Wrote mem size ptr s
    unfolding handle_write_command params_error check_read_write_params
    write_attached u d d2 addr some_size e a way =
        let al = attach_lem mem size u (record s { unimem = d2 }) m at in
        (
          cl_success,
          record s {
            unimem = d2;
            objects = record s.objects {
              mems = set s.objects.mems mem (some (set_unimem_ptr m u size));
            };
          },
          elim way [
            | inl (np, same) ↦ ground (arith, some_size, e, a, np, same, al)
            | inr (host, hp, c) ↦ ground (arith, some_size, e, a, hp, c, al)
          ],
          refl,
          (
            set_unimem_ptr m u size,
            get_set s.objects.mems mem (some m) (some (set_unimem_ptr m u size)) at,
          ),
        )

    write_refused :
        (u : UnimemPtr) (d d2 d3 : sys.State) (addr : List ℕ) (host : ℕ)
        → 0 < size
        → allocate_unimem sys s.fd s.unimem size ≡ (u, d)
        → u.ptr ≡ some addr
        → ptr ≡ some host
        → copy_to_unimem sys d u host size ≡ ok (false, d2)
        → release_unimem sys d2 u ≡ ok d3
        → Wrote mem size ptr s
    unfolding handle_write_command params_error check_read_write_params
    write_refused u d d2 d3 addr host some_size e a hp c r = (
      cl_mem_object_allocation_failure,
      record s { unimem = d3 },
      ground (arith, some_size, e, a, hp, c, r),
      refl,
      (m, at),
    )

    -- A write always returns, whether it succeeds or not.
    write_returns : HasShortAddress s size → Wrote mem size ptr s
    write_returns short = elim (Bool-cases (ltb size 1)) [
      | inl z ↦ write_empty (ground (arith, z))
      | inr nz ↦
          allocated (ground (arith, nz))
            (Option-cases (allocate_unimem sys s.fd s.unimem size).0.ptr)
    ]
      where
        u : UnimemPtr
        u = (allocate_unimem sys s.fd s.unimem size).0

        d : sys.State
        d = (allocate_unimem sys s.fd s.unimem size).1

        copied :
            (addr : List ℕ) (host : ℕ)
            → 0 < size
            → u.ptr ≡ some addr
            → ptr ≡ some host
            → (b : Bool) × (d2 : sys.State) × (copy_to_unimem sys d u host size ≡ ok (b, d2))
            → Wrote mem size ptr s
        copied addr host some_size a hp (true, d2, c) =
            write_attached u d d2 addr some_size refl a (inr (host, hp, c))
        copied addr host some_size a hp (false, d2, c) =
            let (d3, r) = release_returns d2 u addr a (short addr a) in
            write_refused u d d2 d3 addr host some_size refl a hp c r

        allocated :
            0 < size
            → (u.ptr ≡ none) ⊎ ((addr : List ℕ) × (u.ptr ≡ some addr))
            → Wrote mem size ptr s
        allocated some_size (inl n) = write_unallocated u d some_size refl n
        allocated some_size (inr (addr, a)) = elim (Option-cases ptr) [
          | inl np ↦ write_attached u d d addr some_size refl a (inl (np, refl))
          | inr (host, hp) ↦
              copied addr host some_size a hp (copy_returns d u addr host size a (short addr a))
        ]

  dispatch_steps :
      (now : ℕ) (eng s2 : Engine ev sys docs) (cmd : Command) (s : Api)
      → handle_a_cmd ev sys docs now cmd (record eng { objects = s.objects }) ≡ ok s2
      → dispatch now eng cmd s ≡ ok (record s { objects = s2.objects })
  unfolding dispatch
  dispatch_steps now eng s2 cmd s e = ground (arith, e)

  -- The dispatcher serves every write, where the driver's address for it is a short one.
  pub dispatch-Serves :
      (now mem offset size : ℕ) (ptr : Option ℕ) (eng : Engine ev sys docs)
      → HasShortAddress eng size
      → Serves (dispatch now eng) (write_buffer mem offset size ptr) mem
  dispatch-Serves now mem offset size ptr eng short cmd s e m number body at cb there =
      let (code, s1, run, events, (m', there')) =
        write_returns mem size ptr (record eng { objects = s.objects }) m there short in
      let at1 = ap (λ l. get_elem? l cmd.event) events ∙ at in
      let (s2, handled, finished, _, kept) =
        handle_a_cmd_write ev sys docs now cmd mem offset size ptr
          (record eng { objects = s.objects }) s1 code e number body run
          (load-get s1.objects.events cmd.event e at1) cb in
      (
        code,
        record s { objects = s2.objects },
        dispatch_steps now eng s2 cmd s handled,
        record {
          event = record e { error_code = code; event_state = complete };
          stored =
              load→get s2.objects.events cmd.event
                (record e { error_code = code; event_state = complete }) finished;
          done = refl;
          with_code = refl;
          references = refl;
          object = m';
          there = ap (λ x. get_elem? x mem) kept ∙ there';
        },
      )
