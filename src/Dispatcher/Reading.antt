-- ===== src/Dispatcher/Reading.antt =====
-- The dispatcher's own state, and read_from_the_buffer, the way in for ndranges that came before the
-- command queues. The logs are left out.
use fpgaml.Common.{
  ℕ, ◌+◌, ◌-◌, ◌%◌, ◌≡◌, refl, Bool, true, false, not, if◌then◌else◌, none, some, List, ◌∷◌,
  Outcome, ok, ◌>>=◌, arith,
}
use fpgaml.Common.Names.{Name}
use fpgaml.CircArray.{CircArray}
use fpgaml.CircArray.Inv.{Holds}
use fpgaml.CircArray.Pop.{pop_front_step}
use fpgaml.CircArray.Index.{get_refines}
use fpgaml.NdRange.{NdRange}
use fpgaml.AlgoSimple.{AlgoSimple}
use fpgaml.AlgoSimple
use fpgaml.Slicing.{AlgoSlicing, new_slicing}
use fpgaml.Slicing
use fpgaml.Route
use fpgaml.EvTimer.{LibEv, start_timer}
use fpgaml.World.{World}
use fpgaml.Bitstreams.{Rc, ml_success}
use fpgaml.TheBuffer.{buffer_peek_front, buffer_pop_front, buffer_is_empty}

pub data SchedAlgoType : Type 0 where
  algo_slicing algo_simple : SchedAlgoType

abbrev is_success : Rc → Bool
is_success ml_success = true
is_success _ = false

module _ (ev : LibEv) where
  pub record Dispatcher : Type 0 where
    pub read_timer : ev.Timer
    pub algo_type : SchedAlgoType
    pub slicing : AlgoSlicing
    pub simple : AlgoSimple

  -- Dispatcher (free_sched_mgr, num_sched). That the slicing algorithm is called back for free
  -- schedulers is how the timer of FreeSchedulers is used (Slicing).
  unfoldable pub new_dispatcher : ℕ → Dispatcher
  unfolding new_slicing
  new_dispatcher num_sched = record {
    read_timer = ev.init;
    algo_type = algo_simple;
    slicing = new_slicing 30 2;
    simple = AlgoSimple.create num_sched;
  }

  unfoldable pub try_invoke_algo_slicing : ℕ → Dispatcher → Outcome (Rc × Dispatcher)
  try_invoke_algo_slicing ndrange d =
      Slicing.route_ndrange d.slicing ndrange >>= λ (rc, a). ok (rc, record d { slicing = a })

  unfoldable pub try_invoke_algo_simple :
      (NdRange → Name × Name) → ℕ → ℕ → Dispatcher → World ev → Outcome (Rc × Dispatcher × World ev)
  try_invoke_algo_simple names now ndrange d w =
      Route.route_ndrange ev names now (some ndrange) d.simple w >>= λ (rc, a, w').
      ok (rc, record d { simple = a }, w')

  -- The end of read_from_the_buffer: the ndrange is taken off, and the timer is started for 1 ms.
  unfoldable pub after_routing : CircArray ℕ → Dispatcher → Outcome (CircArray ℕ × Dispatcher)
  unfolding buffer_pop_front buffer_is_empty start_timer
  after_routing b d = buffer_pop_front b >>= λ (_, b'). ok (
    b',
    if not (buffer_is_empty b')
        then record d { read_timer = start_timer ev d.read_timer 1000 0 }
        else d,
  )

  -- read_from_the_buffer
  unfoldable pub read_from_the_buffer :
      (NdRange → Name × Name)
      → ℕ
      → CircArray ℕ
      → Dispatcher
      → World ev
      → Outcome (CircArray ℕ × Dispatcher × World ev)
  unfolding buffer_peek_front try_invoke_algo_slicing try_invoke_algo_simple after_routing
  read_from_the_buffer names now b d w = buffer_peek_front b >>= λ front. elim front [
    | none ↦ ok (b, d, w)
    | some ndrange ↦ elim d.algo_type [
      | algo_slicing ↦ try_invoke_algo_slicing ndrange d >>= λ (rc, d'). elim (is_success rc) [
        | false ↦ ok (b, d', w)
        | true ↦ after_routing b d' >>= λ (b', d2). ok (b', d2, w)
      ]
      | algo_simple ↦ try_invoke_algo_simple names now ndrange d w >>= λ (rc, d', w').
          elim (is_success rc) [
            | false ↦ ok (b, d', w')
            | true ↦ after_routing b d' >>= λ (b', d2). ok (b', d2, w')
          ]
    ]
  ]

  peek :
      {b : CircArray ℕ} {n : ℕ} {ns : List ℕ} → Holds b (n ∷ ns) → buffer_peek_front b ≡ ok (some n)
  unfolding buffer_peek_front
  peek h = let g = get_refines 0 h refl (omega arith) in ground (arith, g, h.len)

  -- Once an ndrange is routed, the timer is started for the next one, also where none is left: the
  -- test that should tell is true only of a full buffer, which one is not that has lost an element.
  after_routing_lem :
      (b : CircArray ℕ) (d : Dispatcher) {n : ℕ} {ns : List ℕ}
      → Holds b (n ∷ ns)
      → (b' : CircArray ℕ) × (after_routing b d
          ≡ ok (b', record d { read_timer = ev.start d.read_timer 1000 0 }))
        × Holds b' ns
  unfolding after_routing
  after_routing_lem b d h =
      let (e, h') = pop_front_step h in
      (
        record b { size = b.size - 1; start = (b.start + 1) % b.capacity },
        ground (arith, e, h.len, h.fits),
        h',
      )

  -- read_from_the_buffer with the simple algorithm, where that routes the ndrange at the front: it is
  -- taken off the buffer, and the timer runs, even with nothing left to read.
  pub read_from_the_buffer_lem :
      (names : NdRange → Name × Name) (now : ℕ) (b : CircArray ℕ) (d : Dispatcher) (w w' : World ev)
      (a : AlgoSimple) {n : ℕ} {ns : List ℕ}
      → Holds b (n ∷ ns)
      → d.algo_type ≡ algo_simple
      → Route.route_ndrange ev names now (some n) d.simple w ≡ ok (ml_success, a, w')
      → (b' : CircArray ℕ) × (d' : Dispatcher) × (read_from_the_buffer names now b d w
          ≡ ok (b', d', w'))
        × Holds b' ns
        × (d'.simple ≡ a)
        × (ev.is_active d'.read_timer ≡ true)
  unfolding read_from_the_buffer
  read_from_the_buffer_lem names now b d w w' a h kind routed =
      let (b', e, h') = after_routing_lem b (record d { simple = a }) h in
      let p = peek h in
      (
        b',
        record d { simple = a; read_timer = ev.start d.read_timer 1000 0 },
        ground (arith, p, kind, routed, e),
        h',
        refl,
        ev.is_active-start d.read_timer 1000 0,
      )
