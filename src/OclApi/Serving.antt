-- ===== src/OclApi/Serving.antt =====
-- What serving a command for a memory object is, and the references that such a command holds.
use fpgaml.Common.{
  ℕ, ◌≡◌, refl, true, Option, none, some, [], ◌∷◌, ◌++◌, length, get_elem?, set, Outcome, ok, arith,
  add_u32,
}
use fpgaml.CircArray.{CircArray}
use fpgaml.Objects.{
  Body, read_buffer, Objects, Event, ClCode, Mem, Command, write_buffer, feed, new_event,
  new_command, mem_up, mem_down, event_down, ref_cnt_up, ref_cnt_down, delete_command,
}
use fpgaml.CmdQueue.{CommandQueue, is_complete}
use fpgaml.OclApi.{Api}
use fpgaml.OclApi.Buffers.{Waited}

-- What a handler makes of a command for a memory object: its event is complete with the code, no
-- reference to the event is taken or given up, and the memory object is still there.
pub record IsServed (cmd : Command) (mem : ℕ) (code : ClCode) (e : Event) (s : Api) : Type 0 where
  pub event : Event
  pub stored : get_elem? s.objects.events cmd.event ≡ some (some event)
  pub done : is_complete event.event_state ≡ true
  pub with_code : event.error_code ≡ code
  pub references : event.counter ≡ e.counter
  pub object : Mem
  pub there : get_elem? s.objects.mems mem ≡ some (some object)

-- A command with the body `b` holds a reference to the memory object and one to its own event, which
-- it gives up when it is deleted.
pub record IsOn (b : Body) (mem : ℕ) : Type 0 where
  pub made :
      (o : Objects) (m : Mem)
      → get_elem? o.mems mem ≡ some (some m)
      → new_command b o
        ≡ ok (
          record { command_id = 0; event = length o.events; body = b },
          record o {
            events = o.events ++ (some new_event ∷ []);
            mems = set o.mems mem (some (record m { counter = ref_cnt_up m.counter }));
          },
        )
  pub deleted :
      (cmd : Command) (o : Objects) (m : Mem) (e : Event)
      → cmd.body ≡ b
      → get_elem? o.mems mem ≡ some (some m)
      → get_elem? o.events cmd.event ≡ some (some e)
      → e.counter ≡ 3
      → (o' : Objects) × (delete_command cmd o ≡ ok o')
        × (o'.events ≡ set o.events cmd.event (some (record e { counter = 2 })))

-- The objects when the memory object has lost a reference and the event has two left.
abbrev deleted_from : ℕ → Mem → ℕ → Event → Objects → Objects
deleted_from mem m event e o = record o {
  mems =
      set o.mems mem
        (elim (ref_cnt_down m.counter) [ none ↦ none | some c ↦ some (record m { counter = c }) ]);
  events = set o.events event (some (record e { counter = 2 }));
}

pub write_buffer-IsOn :
    (mem offset size : ℕ) (ptr : Option ℕ) → IsOn (write_buffer mem offset size ptr) mem
unfolding delete_command mem_down event_down ref_cnt_down new_command mem_up
write_buffer-IsOn mem offset size ptr = record {
  made = λ o m at. ground (arith, at);
  deleted = λ cmd o m e b at at' three.
      (deleted_from mem m cmd.event e o, ground (arith, b, at, at', three), refl);
}

pub read_buffer-IsOn :
    (mem offset size : ℕ) (ptr : Option ℕ) → IsOn (read_buffer mem offset size ptr) mem
unfolding delete_command mem_down event_down ref_cnt_down new_command mem_up
read_buffer-IsOn mem offset size ptr = record {
  made = λ o m at. ground (arith, at);
  deleted = λ cmd o m e b at at' three.
      (deleted_from mem m cmd.event e o, ground (arith, b, at, at', three), refl);
}

-- The state after the command has been submitted.
abbrev pub submitted : ℕ → ℕ → Mem → CommandQueue → CircArray Command → Api → Api
submitted queue mem m q c a = record a {
  unique_command_id = add_u32 a.unique_command_id 1;
  queues = set a.queues queue (some (record q { ring_buffer = c }));
  objects = feed q.number (record a.objects {
    events =
        set (a.objects.events ++ (some new_event ∷ [])) (length a.objects.events)
          (some (record new_event { counter = 2 }));
    mems = set a.objects.mems mem (some (record m { counter = ref_cnt_up m.counter }));
  });
}

pub event_down_two :
    (i : ℕ) (o : Objects) (e : Event)
    → get_elem? o.events i ≡ some (some e)
    → e.counter ≡ 2
    → event_down i o ≡ ok (record o { events = set o.events i (some (record e { counter = 1 })) })
unfolding event_down ref_cnt_down
event_down_two i o e at two = ground (arith, at, two)

-- What is asked of a handler: it serves every command with this body whose event has a callback and
-- whose memory object is there.
abbrev pub Serves : (Command → Api → Outcome Api) → Body → ℕ → Type 0
Serves handle b mem =
    (cmd : Command) (s : Api) (e : Event) (m : Mem) (number : ℕ)
    → cmd.body ≡ b
    → get_elem? s.objects.events cmd.event ≡ some (some e)
    → e.on_complete ≡ some number
    → get_elem? s.objects.mems mem ≡ some (some m)
    → (code : ClCode) × (s' : Api) × (handle cmd s ≡ ok s') × IsServed cmd mem code e s'

-- The handler carries out a command with this body with the code, and the call, with `waited` for its
-- result, returns the code.
abbrev pub Returned : (Command → Api → Outcome Api) → Body → ℕ → Outcome Waited → Type 0
Returned handle b mem waited =
    (code : ClCode) × (a' : Api) × (cmd : Command) × (e : Event) × (s1 : Api) × (s2 : Api) × (handle
        cmd s1
      ≡ ok s2)
    × (cmd.body ≡ b)
    × IsServed cmd mem code e s2
    × (waited ≡ ok (some code, none, a'))
