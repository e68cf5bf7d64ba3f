-- ===== src/CircArray/Runs.antt =====
-- A client that only calls the buffer cannot tell it from the abstract queue.
use fpgaml.Common.{ℕ, ◌≡◌, refl, Bool, List, [], ◌∷◌, Option, none, Outcome, ok, arith, ◌>>=◌}
use fpgaml.CircArray.{CircArray, Rc, push_back, push_front, pop_front_rc, pop_back_rc}
use fpgaml.CircArray.Deque
use fpgaml.CircArray.Inv.{Holds}
use fpgaml.CircArray.Push.{push_back_refines}
use fpgaml.CircArray.PushFront.{push_front_refines}
use fpgaml.CircArray.Pop.{pop_front_rc_refines, pop_back_rc_refines}

-- What a client can ask.
pub data Op {ℓ} (A : Type ℓ) : Type ℓ where
  push_back_op push_front_op : A → Bool → Op A
  pop_front_op pop_back_op : Op A

abbrev pub Reply {ℓ} : Type ℓ → Type ℓ
Reply A = Rc × Option A

module _ {A : Type 0} where
  abbrev no_value : Rc × CircArray A → Rc × Option A × CircArray A
  no_value (rc, c) = (rc, none, c)

  pub step : CircArray A → Op A → Outcome (Rc × Option A × CircArray A)
  step c (push_back_op v b) = push_back c v b >>= λ r. ok (no_value r)
  step c (push_front_op v b) = push_front c v b >>= λ r. ok (no_value r)
  step c pop_front_op = pop_front_rc c
  step c pop_back_op = pop_back_rc c

  -- The replies to a client's calls in order.
  pub run : CircArray A → List (Op A) → Outcome (List (Reply A))
  unfolding step
  run c [] = ok []
  run c (op ∷ ops) = step c op >>= λ r. run r.2 ops >>= λ rest. ok ((r.0, r.1) ∷ rest)

  pub queue_step : ℕ → List A → Op A → Rc × Option A × List A
  queue_step n xs (push_back_op v b) = let (rc, ys) = Deque.push_back n xs v b in (rc, none, ys)
  queue_step n xs (push_front_op v b) = let (rc, ys) = Deque.push_front n xs v b in (rc, none, ys)
  queue_step n xs pop_front_op = Deque.pop_front_rc xs
  queue_step n xs pop_back_op = Deque.pop_back_rc xs

  pub queue_run : ℕ → List A → List (Op A) → List (Reply A)
  unfolding queue_step
  queue_run n xs [] = []
  queue_run n xs (op ∷ ops) =
      let (rc, out, ys) = queue_step n xs op in (rc, out) ∷ queue_run n ys ops

  step_refines :
      {c : CircArray A} {xs : List A} (op : Op A)
      → Holds c xs
      → let (rc, out, ys) = queue_step c.capacity xs op in
        (c' : CircArray A) × (step c op ≡ ok (rc, out, c'))
        × Holds c' ys
        × (c'.capacity ≡ c.capacity)
  unfolding step queue_step
  step_refines {c} {xs} (push_back_op v b) h =
      let (c', e, h', n) = push_back_refines xs v b h in (c', ground (arith, e), h', n)
  step_refines {c} {xs} (push_front_op v b) h =
      let (c', e, h', n) = push_front_refines xs v b h in (c', ground (arith, e), h', n)
  step_refines {c} {xs} pop_front_op h = pop_front_rc_refines xs h
  step_refines {c} {xs} pop_back_op h = pop_back_rc_refines xs h

  -- Every sequence of pushes and pops on a well-formed buffer returns, with the replies that the
  -- abstract queue of its elements gives.
  pub run_refines :
      (ops : List (Op A)) {c : CircArray A} {xs : List A}
      → Holds c xs
      → run c ops ≡ ok (queue_run c.capacity xs ops)
  unfolding run queue_run
  run_refines [] h = refl
  run_refines (op ∷ ops) {c} {xs} h =
      let (c', e, h', n) = step_refines op h in rw (e, ◌>>=◌, run_refines ops h', n)
