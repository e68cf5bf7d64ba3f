-- ===== src/OclApi/Returning.antt =====
-- A blocking write returns once the event loop has handled its command.
use fpgaml.Common.{
  ℕ, ◌<◌, ◌≡◌, ◌∙◌, refl, ap, true, false, Option, none, some, [], ◌∷◌, ◌++◌, length, get_elem?,
  set, Outcome, ok, arith, add_u32,
}
use fpgaml.CircArray.Inv.{Holds}
use fpgaml.Objects.{
  Body, Objects, Event, ClCode, Mem, Command, write_buffer, new_event, event_up, event_down,
  ref_cnt_up,
}
use fpgaml.Objects.Counting.{get_set, get_last}
use fpgaml.CmdQueue.{CommandQueue}
use fpgaml.OclApi.{Api}
use fpgaml.OclApi.Enqueue.{submit}
use fpgaml.OclApi.Checked.{submit_lem}
use fpgaml.OclApi.Buffers.{
  Steps, wait_until_complete, handle_blocking_non_blocking, enqueue, enqueue_write_buffer,
  run_watcher,
}
use fpgaml.OclApi.Watcher.{
  load-get, marked, marked-get, wait_goes_on, run_watcher_only, wait_returns,
}
use fpgaml.EvTimer.{LibEv}
use fpgaml.Unimem.{System}
use fpgaml.Bitstreams.{Documents}
use fpgaml.Dispatcher.{Engine}
use fpgaml.OclApi.Dispatching.{dispatch, dispatch-Serves, HasShortAddress}
use fpgaml.OclApi.Serving.{
  IsServed, IsOn, write_buffer-IsOn, event_down_two, submitted, Serves, Returned,
}

module _ (handle : Command → Api → Outcome Api) where
  -- The steps of the call, with the one that waits.
  enqueue_steps :
      (queue mem : ℕ) (b : Body) (m : Mem) (a s b2 : Api) (e2 : Event) (o4 : Objects)
      (others : Steps)
      → IsOn b mem
      → get_elem? a.objects.mems mem ≡ some (some m)
      → submit queue
          (record { command_id = 0; event = length a.objects.events; body = b })
          (record a {
            objects = record a.objects {
              events =
                  set
                    (a.objects.events ++ (some new_event ∷ []))
                    (length a.objects.events)
                    (some (record new_event { counter = 2 }));
              mems = set a.objects.mems mem (some (record m { counter = ref_cnt_up m.counter }));
            };
          })
        ≡ ok (false, s)
      → wait_until_complete (length a.objects.events) others s ≡ ok (true, b2)
      → get_elem? b2.objects.events (length a.objects.events) ≡ some (some e2)
      → event_down (length a.objects.events) b2.objects ≡ ok o4
      → enqueue queue b true false others a
        ≡ ok (some e2.error_code, none, record b2 { objects = o4 })
  unfolding enqueue handle_blocking_non_blocking event_up ref_cnt_up
  enqueue_steps queue mem b m a s b2 e2 o4 others on at sub w at2 down =
      let l = get_last a.objects.events (some new_event) in
      let made = on.made a.objects m at in ground (arith, made, sub, w, at2, down, l)

  -- What follows when the watcher has the command: it is handled and deleted, and the wait is over.
  handled_returns :
      (queue mem : ℕ) (cmd : Command) (others : Steps) (s : Api) (q : CommandQueue) (m : Mem)
      → Serves handle cmd.body mem
      → IsOn cmd.body mem
      → get_elem? s.queues queue ≡ some (some q)
      → Holds q.ring_buffer (cmd ∷ [])
      → 0 < q.ref_counter
      → q.last_event ≡ none
      → get_elem? s.objects.events cmd.event ≡ some (some (record new_event { counter = 2 }))
      → get_elem? s.objects.mems mem ≡ some (some m)
      → (code : ClCode) × (b2 : Api) × (s2 : Api) × (e5 : Event) × (handle cmd (record s {
        objects = marked cmd.event q.number (record new_event { counter = 2 }) s.objects;
      })
          ≡ ok s2)
        × IsServed cmd mem code (record new_event { counter = 3; on_complete = some q.number }) s2
        × (wait_until_complete cmd.event (run_watcher handle queue ∷ others) s ≡ ok (true, b2))
        × (get_elem? b2.objects.events cmd.event ≡ some (some e5))
        × (e5.counter ≡ 2)
        × (e5.error_code ≡ code)
  unfolding ref_cnt_up
  handled_returns queue mem cmd others s q m serves on at h alive fresh there atm =
      let e : Event = record new_event { counter = 2 } in
      let (code, s2, served, is) =
        serves cmd (record s { objects = marked cmd.event q.number e s.objects })
          (record new_event { counter = 3; on_complete = some q.number }) m q.number refl
          (marked-get cmd.event q.number e s.objects there) refl atm in
      let (o3, gone, left) =
        on.deleted cmd s2.objects is.object is.event refl is.there is.stored is.references in
      let (c2, h2, r) =
        run_watcher_only handle queue s s2 q cmd e o3 at h alive fresh there served gone in
      let b2 : Api = record s2 {
        objects = o3;
        queues =
            set s2.queues queue (some (record q { ring_buffer = c2; last_event = some cmd.event }));
      } in
      let e5 : Event = record is.event { counter = 2 } in
      let at5 : get_elem? o3.events cmd.event ≡ some (some e5) =
        ap (λ x. get_elem? x cmd.event) left
        ∙ get_set s2.objects.events cmd.event (some is.event) (some e5) is.stored in
      let w =
        wait_goes_on cmd.event s b2 e (run_watcher handle queue) others there refl r
        ∙ wait_returns cmd.event b2 e5 others at5 is.done in
      (code, b2, s2, e5, served, is, w, at5, refl, is.with_code)

  enqueue_returns :
      (queue mem : ℕ) (b : Body) (others : Steps) (a : Api) (q : CommandQueue) (m : Mem)
      → Serves handle b mem
      → IsOn b mem
      → get_elem? a.queues queue ≡ some (some q)
      → Holds q.ring_buffer []
      → 0 < q.ref_counter
      → 0 < q.ring_buffer.capacity
      → q.last_event ≡ none
      → a.unreturned ≡ false
      → get_elem? a.objects.mems mem ≡ some (some m)
      → Returned handle b mem (enqueue queue b true false (run_watcher handle queue ∷ others) a)
  enqueue_returns queue mem b others a q m serves on at h alive room fresh given atm =
      let i = length a.objects.events in
      let e : Event = record new_event { counter = 2 } in
      let m1 : Mem = record m { counter = ref_cnt_up m.counter } in
      let events = a.objects.events ++ (some new_event ∷ []) in
      let up : Objects = record a.objects {
        events = set events i (some e);
        mems = set a.objects.mems mem (some m1);
      } in
      let made : Command = record { command_id = 0; event = i; body = b } in
      let cmd : Command = record made { command_id = add_u32 a.unique_command_id 1 } in
      let (c, s, h') =
        submit_lem queue made (record a { objects = up }) q (load-get a.queues queue q at) h alive
          room given in
      let q1 : CommandQueue = record q { ring_buffer = c } in
      let b1 = submitted queue mem m q c a in
      let there =
        get_set events i (some new_event) (some e) (get_last a.objects.events (some new_event)) in
      let (code, b2, s2, e5, served, is, w, at5, two, with_code) =
        handled_returns queue mem cmd others b1 q1 m1 serves on
          (get_set a.queues queue (some q) (some q1) at) h' alive fresh there
          (get_set a.objects.mems mem (some m) (some m1) atm) in
      let o4 : Objects = record b2.objects {
        events = set b2.objects.events i (some (record e5 { counter = 1 }));
      } in
      (
        code,
        record b2 { objects = o4 },
        cmd,
        record new_event { counter = 3; on_complete = some q.number },
        record b1 { objects = marked i q.number e b1.objects },
        s2,
        served,
        refl,
        is,
        enqueue_steps queue mem b m a b1 b2 e5 o4 (run_watcher handle queue ∷ others) on atm s w at5
              (event_down_two i b2.objects e5 at5 two)
            ∙ ap (λ k. ok (some k, none, record b2 { objects = o4 })) with_code,
      )

module _ (ev : LibEv) (sys : System) (docs : Documents) where
  -- A blocking write on an idle queue with room, which is alive and has had no command before, where
  -- the value that push_back does not return is not the code of a released queue, and an address that the driver gives for its size has 83 bytes at most, returns once the event loop
  -- has run the queue's watcher, whose handler is the dispatcher: with the code that the dispatcher
  -- has given to the command's event, whether the write succeeds or not.
  pub enqueue_write_buffer_returns :
      (now queue mem offset size : ℕ) (ptr : Option ℕ) (eng : Engine ev sys docs) (others : Steps)
      (a : Api) (q : CommandQueue) (m : Mem)
      → HasShortAddress ev sys docs eng size
      → get_elem? a.queues queue ≡ some (some q)
      → Holds q.ring_buffer []
      → 0 < q.ref_counter
      → 0 < q.ring_buffer.capacity
      → q.last_event ≡ none
      → a.unreturned ≡ false
      → get_elem? a.objects.mems mem ≡ some (some m)
      → Returned (dispatch ev sys docs now eng) (write_buffer mem offset size ptr) mem (
          enqueue_write_buffer
            (some queue)
            (some mem)
            true
            offset
            size
            ptr
            false
            (run_watcher (dispatch ev sys docs now eng) queue ∷ others)
            a)
  unfolding enqueue_write_buffer
  enqueue_write_buffer_returns now queue mem offset size ptr eng others a q m short =
      enqueue_returns (dispatch ev sys docs now eng) queue mem (write_buffer mem offset size ptr)
        others a q m (dispatch-Serves ev sys docs now mem offset size ptr eng short)
        (write_buffer-IsOn mem offset size ptr)
