-- ===== src/OclApi/Waiting.antt =====
-- clFinish waits for ever.
use fpgaml.Common.{
  ℕ, zero, suc, ◌<◌, ◌≡◌, ◌∙◌, refl, sym, false, none, some, [], ◌∷◌, ◌++◌, length, get_elem?, set,
  replicate, Outcome, ok, arith, add_u32,
}
use fpgaml.CircArray.{CircArray}
use fpgaml.CircArray.Inv.{Holds}
use fpgaml.Objects.{
  Objects, Event, Command, empty_command, feed, new_event, new_command, event_up, ref_cnt_up,
  delete_command,
}
use fpgaml.Objects.Counting.{get_set, get_last}
use fpgaml.CmdQueue.{CommandQueue}
use fpgaml.OclApi.{Api}
use fpgaml.OclApi.Enqueue.{submit}
use fpgaml.OclApi.Checked.{submit_lem}
use fpgaml.OclApi.Buffers.{
  Steps, wait_until_complete, handle_blocking_non_blocking, enqueue, finish, run_watcher,
}
use fpgaml.OclApi.Watcher.{
  load-get, marked, marked-get, delete_empty, wait_ends, wait_goes_on, wait-Stuck, run_watcher_only,
}
use fpgaml.EvTimer.{LibEv}
use fpgaml.Unimem.{System}
use fpgaml.Bitstreams.{Documents}
use fpgaml.Dispatcher.{Engine}
use fpgaml.OclApi.Dispatching.{dispatch, dispatch_empty}

module _ (handle : Command → Api → Outcome Api) where
  -- The command of clFinish, as it stands in the queue.
  abbrev finish_command : Api → Command
  finish_command a = record {
    command_id = add_u32 a.unique_command_id 1;
    event = length a.objects.events;
    body = empty_command;
  }

  -- The state after an empty command has been submitted to the queue, with the event's two
  -- references.
  abbrev finishing : ℕ → CommandQueue → CircArray Command → Api → Api
  finishing queue q c a = record a {
    unique_command_id = add_u32 a.unique_command_id 1;
    queues = set a.queues queue (some (record q { ring_buffer = c }));
    objects = feed q.number (record a.objects {
      events =
          set (a.objects.events ++ (some new_event ∷ [])) (length a.objects.events)
            (some (record new_event { counter = 2 }));
    });
  }

  finishing_waits :
      (n queue : ℕ) (a : Api) (q : CommandQueue) (c : CircArray Command)
      → ((cmd : Command) (s : Api) → cmd.body ≡ empty_command → handle cmd s ≡ ok s)
      → get_elem? a.queues queue ≡ some (some q)
      → Holds c (finish_command a ∷ [])
      → 0 < q.ref_counter
      → q.last_event ≡ none
      → get_elem? (finishing queue q c a).objects.events (length a.objects.events)
        ≡ some (some (record new_event { counter = 2 }))
      → (a' : Api) × (wait_until_complete
            (length a.objects.events)
            (replicate n (run_watcher handle queue))
            (finishing queue q c a)
          ≡ ok (false, a'))
  unfolding ref_cnt_up
  finishing_waits zero queue a q c idle at h alive fresh there = (
    finishing queue q c a,
    wait_ends (length a.objects.events) (finishing queue q c a) (record new_event { counter = 2 })
        there,
  )
  finishing_waits (suc n) queue a q c idle at h alive fresh there =
      let i = length a.objects.events in
      let b = finishing queue q c a in
      let e : Event = record new_event { counter = 2 } in
      let e3 : Event = record new_event { counter = 3; on_complete = some q.number } in
      let o : Objects = marked i q.number e b.objects in
      let s2 : Api = record b { objects = o } in
      let q1 : CommandQueue = record q { ring_buffer = c } in
      let at1 = get_set a.queues queue (some q) (some q1) at in
      let at3 : get_elem? o.events i ≡ some (some e3) = marked-get i q.number e b.objects there in
      let o3 : Objects = record o { events = set o.events i (some (record e3 { counter = 2 })) } in
      let d : delete_command (finish_command a) o ≡ ok o3 =
        delete_empty (finish_command a) o e3 refl at3 refl in
      let (c2, h2, r) =
        run_watcher_only handle queue b s2 q1 (finish_command a) e o3 at1 h alive fresh there
          (idle (finish_command a) s2 refl) d in
      let q2 : CommandQueue = record q { ring_buffer = c2; last_event = some i } in
      let b2 : Api = record s2 { objects = o3; queues = set b.queues queue (some q2) } in
      let (a', w) = wait-Stuck handle n queue i b2 (
        q2,
        record e3 { counter = 2 },
        get_set b.queues queue (some q1) (some q2) at1,
        sym h2.len,
        alive,
        get_set o.events i (some e3) (some (record e3 { counter = 2 })) at3,
        refl,
      ) in
      (
        a',
        wait_goes_on i b b2 e (run_watcher handle queue) (replicate n (run_watcher handle queue))
              there refl r
            ∙ w,
      )

  finish_steps :
      (queue : ℕ) (q : CommandQueue) (c : CircArray Command) (a a' : Api) (others : Steps)
      → submit queue
          (record { command_id = 0; event = length a.objects.events; body = empty_command })
          (record a {
            objects = record a.objects {
              events =
                  set
                    (a.objects.events ++ (some new_event ∷ []))
                    (length a.objects.events)
                    (some (record new_event { counter = 2 }));
            };
          })
        ≡ ok (false, finishing queue q c a)
      → wait_until_complete (length a.objects.events) others (finishing queue q c a)
        ≡ ok (false, a')
      → finish (some queue) others a ≡ ok (none, a')
  unfolding finish enqueue handle_blocking_non_blocking new_command event_up ref_cnt_up
  finish_steps queue q c a a' others s w =
      let l = get_last a.objects.events (some new_event) in ground (arith, s, w, l)

  finish_waits :
      (n queue : ℕ) (a : Api) (q : CommandQueue)
      → ((cmd : Command) (s : Api) → cmd.body ≡ empty_command → handle cmd s ≡ ok s)
      → get_elem? a.queues queue ≡ some (some q)
      → Holds q.ring_buffer []
      → 0 < q.ref_counter
      → 0 < q.ring_buffer.capacity
      → q.last_event ≡ none
      → a.unreturned ≡ false
      → (a' : Api) × (finish (some queue) (replicate n (run_watcher handle queue)) a
          ≡ ok (none, a'))
  finish_waits n queue a q idle at h alive room fresh given =
      let i = length a.objects.events in
      let up : Objects = record a.objects {
        events =
            set (a.objects.events ++ (some new_event ∷ [])) i
              (some (record new_event { counter = 2 }));
      } in
      let made : Command = record { command_id = 0; event = i; body = empty_command } in
      let (c, s, h') =
        submit_lem queue made (record a { objects = up }) q (load-get a.queues queue q at) h alive
          room given in
      let there =
        get_set (a.objects.events ++ (some new_event ∷ [])) i (some new_event)
          (some (record new_event { counter = 2 })) (get_last a.objects.events (some new_event)) in
      let (a', w) = finishing_waits n queue a q c idle at h' alive fresh there in
      (a', finish_steps queue q c a a' (replicate n (run_watcher handle queue)) s w)

module _ (ev : LibEv) (sys : System) (docs : Documents) where
  -- clFinish on an idle queue with room, which is alive and has had no command before, where the value
  -- that push_back does not return is not the code of a released queue, waits for ever: with the dispatcher as the handler, its event is never completed, however often the watcher
  -- runs.
  pub finish_blocks :
      (n now queue : ℕ) (eng : Engine ev sys docs) (a : Api) (q : CommandQueue)
      → get_elem? a.queues queue ≡ some (some q)
      → Holds q.ring_buffer []
      → 0 < q.ref_counter
      → 0 < q.ring_buffer.capacity
      → q.last_event ≡ none
      → a.unreturned ≡ false
      → (a' : Api) × (finish
            (some queue)
            (replicate n (run_watcher (dispatch ev sys docs now eng) queue))
            a
          ≡ ok (none, a'))
  finish_blocks n now queue eng a q =
      finish_waits (dispatch ev sys docs now eng) n queue a q
        (λ cmd s e. dispatch_empty ev sys docs now eng cmd s e)
