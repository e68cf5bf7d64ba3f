-- ===== src/CircArray/PushFront.antt =====
-- push_front adds an element in front, or overwrites the newest one.
use fpgaml.Common.{
  ℕ, zero, suc, ◌+◌, ◌-◌, ◌%◌, ◌<◌, ◌≡◌, ◌∙◌, ap, refl, inl, inr, Bool, true, false, List, [], ◌∷◌,
  length, get_elem?, set, ok, arith, drop_last, ◌==◌, if◌then◌else◌, length-set, get_elem?-set_self,
  get_elem?-set_ne, Bool-cases,
}
use native.Mathlib.Decide.{dec_lt}
use fpgaml.CircArray.{CircArray, success, no_space_error, pop_back, store_front, push_front}
use fpgaml.CircArray.Deque
use fpgaml.CircArray.Inv.{Holds, slot_cases, slot-ne}
use fpgaml.CircArray.Pop.{pop_back_step}
use fpgaml.CircArray.Push.{PushesTo}

-- `_start` one step back round the array
abbrev before : ℕ → ℕ → ℕ
before start n = if start == 0 then n - 1 else start - 1

before-slot : (s i n : ℕ) → s < n → i < n → (before s n + suc i) % n ≡ (s + i) % n
before-slot s i n hs hi =
    ground (arith, slot_cases s i n hs, slot_cases (n - 1) (suc i) n, slot_cases (s - 1) (suc i) n)

before-lt : (s n : ℕ) → s < n → before s n < n
before-lt s n h = ground arith

module _ {A : Type 0} where
  front_cells :
      {c : CircArray A} {xs : List A} (v : A)
      → Holds c xs
      → c.size < c.capacity
      → (i : ℕ) → i < c.size + 1
      → get_elem?
          (set c.array (before c.start c.capacity) v)
          ((before c.start c.capacity + i) % c.capacity)
        ≡ get_elem? (v ∷ xs) i
  front_cells {c} {xs} v h room zero lt =
      let b = before c.start c.capacity in
      let b_in : b < c.capacity = before-lt c.start c.capacity h.start_in in
      let e : (b + 0) % c.capacity ≡ b = omega (arith, slot_cases b 0 c.capacity b_in) in
      ap (get_elem? (set c.array b v)) e ∙ get_elem?-set_self c.array b v (omega (arith, h.storage))
  front_cells {c} {xs} v h room (suc i) lt =
      let b = before c.start c.capacity in
      let b_in : b < c.capacity = before-lt c.start c.capacity h.start_in in
      let e : (b + 0) % c.capacity ≡ b = omega (arith, slot_cases b 0 c.capacity b_in) in
      get_elem?-set_ne c.array b ((b + suc i) % c.capacity) v (
        omega
          (arith, slot-ne b 0 (suc i) c.capacity b_in (omega arith) (omega arith) (omega arith)))
      ∙ ap (get_elem? c.array) (before-slot c.start i c.capacity h.start_in (omega arith))
      ∙ h.cells i (omega arith)

  store_front_eq :
      {c : CircArray A} {xs : List A} (v : A)
      → Holds c xs
      → store_front c v
        ≡ ok (
          success,
          record c {
            array = set c.array (before c.start c.capacity) v;
            start = before c.start c.capacity;
            size = c.size + 1;
          },
        )
  unfolding store_front
  store_front_eq {c} v h = elim (Bool-cases (c.start == 0)) [
    | inl e ↦ ground arith
    | inr e ↦ ground arith
  ]

  pub store_front_step :
      {c : CircArray A} {xs : List A} (v : A)
      → Holds c xs
      → c.size < c.capacity
      → let c' = record c {
        array = set c.array (before c.start c.capacity) v;
        start = before c.start c.capacity;
        size = c.size + 1;
      } in
        (store_front c v ≡ ok (success, c')) × Holds c' (v ∷ xs)
  store_front_step {c} {xs} v h room = (
    store_front_eq v h,
    record {
      storage = length-set c.array _ v ∙ h.storage;
      small = h.small;
      start_in = before-lt c.start c.capacity h.start_in;
      fits = omega arith;
      len = omega arith;
      cells = front_cells v h room;
    },
  )

  room-push_front :
      (n : ℕ) (xs : List A) (v : A) (overwrite : Bool)
      → length xs < n
      → Deque.push_front n xs v overwrite ≡ (success, v ∷ xs)
  unfolding Deque.push_front
  room-push_front n xs v overwrite h = ground arith

  full-push_front :
      (n : ℕ) (xs : List A) (v : A) (overwrite : Bool)
      → length xs ≡ n
      → Deque.push_front n xs v overwrite
        ≡ (if overwrite then (success, v ∷ drop_last xs) else (no_space_error, xs))
  unfolding Deque.push_front
  full-push_front n xs v overwrite h = ground arith

  push_front_room :
      (c : CircArray A) (v : A) (overwrite : Bool)
      → c.size < c.capacity
      → push_front c v overwrite ≡ store_front c v
  unfolding push_front
  push_front_room c v overwrite h = ground arith

  push_front_full :
      (c : CircArray A) (v : A)
      → c.size ≡ c.capacity
      → push_front c v false ≡ ok (no_space_error, c)
  unfolding push_front
  push_front_full c v e = ground arith

  push_front_over :
      (c : CircArray A) {c' : CircArray A} {x : A} (v : A)
      → c.size ≡ c.capacity
      → pop_back c ≡ ok (x, c')
      → c'.size < c'.capacity
      → push_front c v true ≡ store_front c' v
  unfolding push_front
  push_front_over c v e p h = ground arith

  -- push_front behaves as the queue's on every branch: it puts the element first where there is
  -- room, refuses where there is none, and with `overwrite_when_full` drops the newest element first.
  pub push_front_refines :
      {c : CircArray A} (xs : List A) (v : A) (overwrite : Bool)
      → Holds c xs
      → PushesTo (push_front c v overwrite) c.capacity (Deque.push_front c.capacity xs v overwrite)
  push_front_refines {c} xs v overwrite h = elim (dec_lt c.size c.capacity) [
    | yes p ↦
        let (e, h') = store_front_step v h p in
        rw (room-push_front c.capacity xs v overwrite (omega (arith, h.len)))
          (_, push_front_room c v overwrite p ∙ e, h', refl)
    | no p ↦ full xs overwrite h (omega (arith, h.fits))
  ]
    where
      full :
          (ys : List A) (b : Bool)
          → Holds c ys
          → c.size ≡ c.capacity
          → PushesTo (push_front c v b) c.capacity (Deque.push_front c.capacity ys v b)
      full ys false g e =
          rw (full-push_front c.capacity ys v false (omega (arith, g.len)))
            (c, push_front_full c v e, g, refl)
      full [] true g e = absurd (omega (arith, g.len, g.start_in))
      full (y ∷ ys) true g e =
          let (_, _, q, g') = pop_back_step g in
          let less : c.size - 1 < c.capacity = omega (arith, g.start_in) in
          let (e', k) = store_front_step v g' less in
          rw (full-push_front c.capacity (y ∷ ys) v true (omega (arith, g.len)))
            (_, push_front_over c v e q less ∙ e', k, refl)
