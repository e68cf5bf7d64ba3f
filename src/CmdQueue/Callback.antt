-- ===== src/CmdQueue/Callback.antt =====
-- What a callback that returns has done to the queue.
use fpgaml.Common.{
  ℕ, ◌+◌, ◌-◌, ◌%◌, ◌≡◌, ◌∙◌, ◌⊎◌, inl, inr, refl, sym, ap, true, false, if◌then◌else◌, ltb, Option,
  none, some, List, [], ◌∷◌, ◌++◌, Outcome, ok, ◌>>=◌, bind-ok, ok-injective, some-injective, arith,
  Bool-cases,
}
use mathlib.Core.Path.{subst}
use fpgaml.CircArray.{CircArray, empty, pop_front}
use fpgaml.CircArray.Inv.{Holds}
use fpgaml.CircArray.Pop.{pop_front_step}
use fpgaml.Objects.{Objects, Command, load, event_up, event_down, delete_command, feed}
use fpgaml.CmdQueue.{
  CommandQueue, on_new_cmd_cb, is_waiting, set_last_event, after_command, queue_is_empty,
  check_self_destroy,
}

-- A callback's result: the queue, if it is still there, and the state.
abbrev back : {S : Type 0} → Option CommandQueue → S → Outcome (Option CommandQueue × S)
back q s = ok (q, s)

set_last_event_keeps :
    (q q' : CommandQueue) (event : ℕ) (o o' : Objects)
    → set_last_event q event o ≡ ok (q', o')
    → q'.ring_buffer ≡ q.ring_buffer
unfolding set_last_event
set_last_event_keeps q q' event o o' e =
    let (o1, e1, r1) =
      bind-ok (elim q.last_event [ none ↦ ok o | some l ↦ event_down l o ]) _ (q', o') e in
    let (o2, e2, r2) = bind-ok (event_up event o1) _ (q', o') r1 in
    let (l, e3, r3) = bind-ok (load o2.events event) _ (q', o') r2 in
    ap (λ x. x.0.ring_buffer) (sym (ok-injective r3))

self_destroy_keeps : (q q' : CommandQueue) → check_self_destroy q ≡ some q' → q' ≡ q
unfolding check_self_destroy
self_destroy_keeps q q' e = elim (Bool-cases (ltb q.ref_counter 1)) [
  | inl z ↦ absurd (ground (arith, e, z))
  | inr z ↦ let f : some q ≡ some q' = ground (arith, e, z) in sym (some-injective f)
]

after_command_keeps :
    (q q' : CommandQueue) (o o' : Objects) → after_command q o ≡ ok (some q', o') → q' ≡ q
unfolding after_command
after_command_keeps q q' o o' e = elim (Bool-cases (queue_is_empty q)) [
  | inl z ↦
      let f : back (check_self_destroy q) o ≡ back (some q') o' = ground (arith, e, z) in
      self_destroy_keeps q q' (ap (λ x. x.0) (ok-injective f))
  | inr z ↦
      let f : (is_waiting q o >>= λ w.
      if w then back (check_self_destroy q) o else back (some q) (feed q.number o))
          ≡ back (some q') o' =
        ground (arith, e, z) in
      let (w, _, g) = bind-ok (is_waiting q o) _ (some q', o') f in
      elim (Bool-cases w) [
        | inl t ↦
            let k : back (check_self_destroy q) o ≡ back (some q') o' = ground (arith, g, t) in
            self_destroy_keeps q q' (ap (λ x. x.0) (ok-injective k))
        | inr t ↦
            let k : back (some q) (feed q.number o) ≡ back (some q') o' = ground (arith, g, t) in
            sym (some-injective (ap (λ x. x.0) (ok-injective k)))
      ]
]

not_empty :
    (q : CommandQueue) {cmd : Command} {cmds : List Command}
    → Holds q.ring_buffer (cmd ∷ cmds)
    → queue_is_empty q ≡ false
unfolding queue_is_empty empty
not_empty q h = ground (arith, h.len)

pub no_commands : (q : CommandQueue) → Holds q.ring_buffer [] → queue_is_empty q ≡ true
unfolding queue_is_empty empty
no_commands q h = ground (arith, h.len)

-- The handler, with a log of the commands that it has handled.
abbrev pub Logged : Type 0 → Type 0
Logged T = List Command × T

abbrev pub logging :
    {T : Type 0} → (Command → T → Outcome T) → Command → Logged T → Outcome (Logged T)
logging handle cmd (log, t) = handle cmd t >>= λ t'. ok (log ++ (cmd ∷ []), t')

module _ {T : Type 0} (objects : T → Objects) (with_objects : T → Objects → T)
    (handle : Command → T → Outcome T) where
  -- on_new_cmd_cb, with the log.
  abbrev pub callback : CommandQueue → Logged T → Outcome (Option CommandQueue × Logged T)
  callback = on_new_cmd_cb (λ x. objects x.1) (λ x o. (x.0, with_objects x.1 o)) (logging handle)

  pub callback_empty :
      (q q' : CommandQueue) (s s' : Logged T)
      → queue_is_empty q ≡ true
      → callback q s ≡ back (some q') s'
      → (q' ≡ q) × (s' ≡ s)
  unfolding on_new_cmd_cb
  callback_empty q q' s s' z e =
      let f : back (check_self_destroy q) s ≡ back (some q') s' = ground (arith, e, z) in
      (
        self_destroy_keeps q q' (ap (λ x. x.0) (ok-injective f)),
        sym (ap (λ x. x.1) (ok-injective f)),
      )

  -- What is left of the callback once the command has been taken off.
  abbrev handled : CommandQueue → Command → Logged T → Outcome (Option CommandQueue × Logged T)
  handled p cmd s = set_last_event p cmd.event (objects s.1) >>= λ r.
      logging handle cmd (s.0, with_objects s.1 r.1) >>= λ s2.
      after_command r.0 (objects s2.1) >>= λ t.
      delete_command cmd t.1 >>= λ o3. back t.0 (s2.0, with_objects s2.1 o3)

  callback_steps :
      (q : CommandQueue) (cmd : Command) (c : CircArray Command) (s : Logged T)
      → queue_is_empty q ≡ false
      → pop_front q.ring_buffer ≡ ok (cmd, c)
      → callback q s ≡ (
          is_waiting q (objects s.1) >>= λ w.
          if w then back (some q) s else handled (record q { ring_buffer = c }) cmd s)
  unfolding on_new_cmd_cb
  callback_steps q cmd c s z pop = rw (z, pop) refl

  handled_lem :
      (q' p : CommandQueue) (cmd : Command) (s s' : Logged T)
      → handled p cmd s ≡ back (some q') s'
      → (q'.ring_buffer ≡ p.ring_buffer) × (s'.0 ≡ s.0 ++ (cmd ∷ []))
  handled_lem q' p cmd s s' e =
      let (r, e1, f1) = bind-ok (set_last_event p cmd.event (objects s.1)) _ (some q', s') e in
      let (s2, e2, f2) =
        bind-ok (logging handle cmd (s.0, with_objects s.1 r.1)) _ (some q', s') f1 in
      let (t2, _, logged) = bind-ok (handle cmd (with_objects s.1 r.1)) _ s2 e2 in
      let (t, e3, f3) = bind-ok (after_command r.0 (objects s2.1)) _ (some q', s') f2 in
      let (o3, _, f4) = bind-ok (delete_command cmd t.1) _ (some q', s') f3 in
      let same : t.0 ≡ some q' = ap (λ x. x.0) (ok-injective f4) in
      let kept = after_command_keeps r.0 q' (objects s2.1) t.1 (e3 ∙ (λ i. ok (same i, t.1))) in
      (
        ap (λ x. x.ring_buffer) kept ∙ set_last_event_keeps p r.0 cmd.event (objects s.1) r.1 e1,
        sym (ap (λ x. x.1.0) (ok-injective f4)) ∙ sym (ap (λ x. x.0) (ok-injective logged)),
      )

  -- A callback that returns, with the queue still there, has either left everything as it was, or
  -- handled the first command and taken it off.
  pub callback_lem :
      (q q' : CommandQueue) (s s' : Logged T) {cmd : Command} {cmds : List Command}
      → Holds q.ring_buffer (cmd ∷ cmds)
      → callback q s ≡ ok (some q', s')
      → ((q' ≡ q) × (s' ≡ s)) ⊎ (Holds q'.ring_buffer cmds × (s'.0 ≡ s.0 ++ (cmd ∷ [])))
  callback_lem q q' s s' {cmd} {cmds} h e =
      let (pop, h') = pop_front_step h in
      let c : CircArray Command = record q.ring_buffer {
        size = q.ring_buffer.size - 1;
        start = (q.ring_buffer.start + 1) % q.ring_buffer.capacity;
      } in
      let (w, _, f) =
        bind-ok (is_waiting q (objects s.1)) _ (some q', s')
          (sym (callback_steps q cmd c s (not_empty q h) pop) ∙ e) in
      elim (Bool-cases w) [
        | inl t ↦
            let k : back (some q) s ≡ back (some q') s' = ground (arith, f, t) in
            inl (
              sym (some-injective (ap (λ x. x.0) (ok-injective k))),
              sym (ap (λ x. x.1) (ok-injective k)),
            )
        | inr t ↦
            let k : handled (record q { ring_buffer = c }) cmd s ≡ back (some q') s' =
              ground (arith, f, t) in
            let (ring, log) = handled_lem q' (record q { ring_buffer = c }) cmd s s' k in
            inr (subst (λ b. Holds b cmds) (sym ring) h', log)
      ]
