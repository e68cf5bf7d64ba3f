-- ===== src/CmdQueue/Fifo.antt =====
-- However submissions and callbacks interleave, the commands of a queue are handled in the order of
-- their submission, each once.
use fpgaml.Common.{
  ℕ, ◌<◌, ◌≡◌, ◌∙◌, inl, inr, refl, sym, ap, Bool, some, List, [], ◌∷◌, ◌++◌, Outcome, ok,
  ok-injective, arith,
}
use mathlib.Core.List.{append_assoc}
use mathlib.Core.Path.{subst}
use fpgaml.CircArray.Inv.{Holds}
use fpgaml.Objects.{Objects, Command}
use fpgaml.CmdQueue.{CommandQueue, submit_cmd}
use fpgaml.CmdQueue.Order.{submit_cmd_lem}
use fpgaml.CmdQueue.Callback.{Logged, callback, callback_empty, callback_lem, no_commands}

module _ {T : Type 0} (objects : T → Objects) (with_objects : T → Objects → T)
    (handle : Command → T → Outcome T) where
  -- The queue, its state with the log, and the numbers given so far.
  abbrev pub Machine : Type 0
  Machine = CommandQueue × Logged T × ℕ

  -- The application submits a command while the queue has room, or the event loop runs the callback.
  -- `submitted` is what has been submitted so far, under the numbers that it got.
  pub data Step : Machine × List Command → Machine × List Command → Type 0 where
    submits :
        (q q' : CommandQueue) (log : List Command) (t : T) (o' : Objects) (id id' : ℕ)
        (cmd : Command) (submitted : List Command) (unreturned refused : Bool)
        → 0 < q.ref_counter
        → q.ring_buffer.size < q.ring_buffer.capacity
        → submit_cmd unreturned id q cmd (objects t) ≡ ok (id', refused, q', o')
        → Step
            ((q, (log, t), id), submitted)
            (
              (q', (log, with_objects t o'), id'),
              submitted ++ (record cmd { command_id = id' } ∷ []),
            )
    calls_back :
        (q q' : CommandQueue) (s s' : Logged T) (id : ℕ) (submitted : List Command)
        → callback objects with_objects handle q s ≡ ok (some q', s')
        → Step ((q, s, id), submitted) ((q', s', id), submitted)

  pub data Reach (from : Machine × List Command) : Machine × List Command → Type 0 where
    here : Reach from from
    next : {m n : Machine × List Command} → Reach from m → Step m n → Reach from n

  -- What has been handled, and then what is in the queue, is what has been submitted.
  abbrev pub IsFifo : Machine × List Command → Type 0
  IsFifo n = (waiting : List Command) × Holds n.0.0.ring_buffer waiting × (n.1 ≡ n.0.1.0 ++ waiting)

  Step-IsFifo : {m n : Machine × List Command} → Step m n → IsFifo m → IsFifo n
  Step-IsFifo (submits q q' log t o' id id' cmd submitted u refused alive room e)
        (waiting, h, all) =
      let (c, f, h') = submit_cmd_lem u id q cmd (objects t) h alive (omega (arith, h.len, room)) in
      let same = ok-injective (sym f ∙ e) in
      (
        waiting ++ (record cmd { command_id = id' } ∷ []),
        subst
            (λ (x : ℕ × Bool × CommandQueue × Objects).
              Holds x.2.ring_buffer (waiting ++ (record cmd { command_id = x.0 } ∷ [])))
            same h',
        ap (λ x. x ++ (record cmd { command_id = id' } ∷ [])) all
            ∙ append_assoc log waiting (record cmd { command_id = id' } ∷ []),
      )
  Step-IsFifo (calls_back q q' s s' id submitted e) ([], h, all) =
      let (same_q, same_s) =
        callback_empty objects with_objects handle q q' s s' (no_commands q h) e in
      (
        [],
        subst (λ x. Holds x.ring_buffer []) (sym same_q) h,
        all ∙ ap (λ x. x.0 ++ []) (sym same_s),
      )
  Step-IsFifo (calls_back q q' s s' id submitted e) (cmd ∷ cmds, h, all) =
      elim (callback_lem objects with_objects handle q q' s s' h e) [
        | inl (same_q, same_s) ↦ (
          cmd ∷ cmds,
          subst (λ x. Holds x.ring_buffer (cmd ∷ cmds)) (sym same_q) h,
          all ∙ ap (λ x. x.0 ++ (cmd ∷ cmds)) (sym same_s),
        )
        | inr (h', log) ↦
            (cmds, h', all ∙ sym (ap (λ x. x ++ cmds) log ∙ append_assoc s.0 (cmd ∷ []) cmds))
      ]

  -- From an empty queue on, however submissions and callbacks interleave: the commands that have been
  -- handled, followed by those in the queue, are all that has been submitted, in order.
  pub Reach-IsFifo :
      (q : CommandQueue) (t : T) (id : ℕ) {n : Machine × List Command}
      → Holds q.ring_buffer []
      → Reach ((q, ([], t), id), []) n
      → IsFifo n
  Reach-IsFifo q t id h here = ([], h, refl)
  Reach-IsFifo q t id h (next r st) = Step-IsFifo st (Reach-IsFifo q t id h r)
