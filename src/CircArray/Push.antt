-- ===== src/CircArray/Push.antt =====
-- push_back adds an element at the end, or overwrites the oldest one.
use fpgaml.Common.{
  ℕ, ◌+◌, ◌-◌, ◌%◌, ◌<◌, ◌≡◌, ◌∙◌, sym, ap, refl, inl, inr, Bool, true, false, List, [], ◌∷◌, ◌++◌,
  length, get_elem?, set, Outcome, ok, arith, ◌==◌, if◌then◌else◌, length-set, length-append,
  get_elem?-set_self, get_elem?-set_ne, get_elem?-append_left, get_elem?-append_last, Bool-cases,
  ==_iff,
}
use mathlib.Core.Path.{subst}
use native.Mathlib.Decide.{dec_lt}
use fpgaml.CircArray.{CircArray, Rc, success, no_space_error, pop_front, store_back, push_back}
use fpgaml.CircArray.Deque
use fpgaml.CircArray.Inv.{Holds, slot-lt, slot-ne}
use fpgaml.CircArray.Pop.{pop_front_step}

-- The call returns the status of the queue's, and leaves the object holding the queue's elements.
abbrev pub PushesTo {ℓ} : {A : Type ℓ} → Outcome (Rc × CircArray A) → ℕ → Rc × List A → Type ℓ
PushesTo {A} m cap (rc, xs) =
    (c' : CircArray A) × (m ≡ ok (rc, c')) × Holds c' xs × (c'.capacity ≡ cap)

module _ {A : Type 0} where
  -- The element in position `i` after a write just past the end.
  back_cells :
      {c : CircArray A} {xs : List A} (v : A)
      → Holds c xs
      → c.size < c.capacity
      → (i : ℕ) → i < c.size + 1
      → get_elem? (set c.array ((c.start + c.size) % c.capacity) v) ((c.start + i) % c.capacity)
        ≡ get_elem? (xs ++ (v ∷ [])) i
  back_cells {c} {xs} v h room i lt = elim (Bool-cases (i == c.size)) [
    | inl e ↦
        let e' : i ≡ c.size = (==_iff i c.size).0 e in
        ap
          (λ k.
            get_elem? (set c.array ((c.start + c.size) % c.capacity) v)
              ((c.start + k) % c.capacity))
          e'
        ∙ get_elem?-set_self c.array ((c.start + c.size) % c.capacity) v
            (omega (arith, h.storage, slot-lt c.start c.size c.capacity h.start_in h.fits))
        ∙ sym (get_elem?-append_last xs i v (omega (arith, h.len)))
    | inr e ↦
        let lt' : i < c.size = ground (arith, lt) in
        get_elem?-set_ne c.array ((c.start + c.size) % c.capacity) ((c.start + i) % c.capacity) v
          (slot-ne c.start c.size i c.capacity h.start_in room (omega arith) (omega arith))
        ∙ h.cells i lt'
        ∙ sym (get_elem?-append_left xs (v ∷ []) i (omega (arith, h.len)))
  ]

  pub store_back_step :
      {c : CircArray A} {xs : List A} (v : A)
      → Holds c xs
      → c.size < c.capacity
      → let c' = record c {
        array = set c.array ((c.start + c.size) % c.capacity) v;
        size = c.size + 1;
      } in
        (store_back c v ≡ ok (success, c')) × Holds c' (xs ++ (v ∷ []))
  unfolding store_back
  store_back_step {c} {xs} v h room = (
    ground (arith, slot-lt c.start c.size c.capacity h.start_in h.fits),
    record {
      storage = length-set c.array _ v ∙ h.storage;
      small = h.small;
      start_in = h.start_in;
      fits = omega arith;
      len = omega (arith, length-append xs (v ∷ []));
      cells = back_cells v h room;
    },
  )

  room-push_back :
      (n : ℕ) (xs : List A) (v : A) (overwrite : Bool)
      → length xs < n
      → Deque.push_back n xs v overwrite ≡ (success, xs ++ (v ∷ []))
  unfolding Deque.push_back
  room-push_back n xs v overwrite h = ground arith

  full-push_back :
      (n : ℕ) (xs : List A) (v : A) (overwrite : Bool)
      → length xs ≡ n
      → Deque.push_back n xs v overwrite
        ≡ (if overwrite then (success, Deque.tail xs ++ (v ∷ [])) else (no_space_error, xs))
  unfolding Deque.push_back
  full-push_back n xs v overwrite h = ground arith

  push_back_room :
      (c : CircArray A) (v : A) (overwrite : Bool)
      → c.size < c.capacity
      → push_back c v overwrite ≡ store_back c v
  unfolding push_back
  push_back_room c v overwrite h = ground arith

  push_back_full :
      (c : CircArray A) (v : A) → c.size ≡ c.capacity → push_back c v false ≡ ok (no_space_error, c)
  unfolding push_back
  push_back_full c v e = ground arith

  push_back_over :
      (c : CircArray A) {c' : CircArray A} {x : A} (v : A)
      → c.size ≡ c.capacity
      → pop_front c ≡ ok (x, c')
      → c'.size < c'.capacity
      → push_back c v true ≡ store_back c' v
  unfolding push_back
  push_back_over c v e p h = ground arith

  -- push_back behaves as the queue's on every branch: it appends where there is room, refuses where
  -- there is none, and with `overwrite_when_full` drops the oldest element first.
  pub push_back_refines :
      {c : CircArray A} (xs : List A) (v : A) (overwrite : Bool)
      → Holds c xs
      → PushesTo (push_back c v overwrite) c.capacity (Deque.push_back c.capacity xs v overwrite)
  push_back_refines {c} xs v overwrite h = elim (dec_lt c.size c.capacity) [
    | yes p ↦
        let (e, h') = store_back_step v h p in
        rw (room-push_back c.capacity xs v overwrite (omega (arith, h.len)))
          (_, push_back_room c v overwrite p ∙ e, h', refl)
    | no p ↦ full xs overwrite h (omega (arith, h.fits))
  ]
    where
      full :
          (ys : List A) (b : Bool)
          → Holds c ys
          → c.size ≡ c.capacity
          → PushesTo (push_back c v b) c.capacity (Deque.push_back c.capacity ys v b)
      full ys false g e =
          rw (full-push_back c.capacity ys v false (omega (arith, g.len)))
            (c, push_back_full c v e, g, refl)
      full [] true g e = absurd (omega (arith, g.len, g.start_in))
      full (y ∷ ys) true g e =
          let (q, g') = pop_front_step g in
          let less : c.size - 1 < c.capacity = omega (arith, g.start_in) in
          let (e', k) = store_back_step v g' less in
          rw (full-push_back c.capacity (y ∷ ys) v true (omega (arith, g.len)))
            (_, push_back_over c v e q less ∙ e', k, refl)

  -- Where there is room, push_back appends.
  pub push_back_appends :
      {c : CircArray A} {xs : List A} (v : A) (overwrite : Bool)
      → Holds c xs
      → length xs < c.capacity
      → PushesTo (push_back c v overwrite) c.capacity (success, xs ++ (v ∷ []))
  push_back_appends {c} {xs} v overwrite h room =
      subst (PushesTo (push_back c v overwrite) c.capacity)
        (room-push_back c.capacity xs v overwrite room) (push_back_refines xs v overwrite h)

  -- Where there is none, it refuses.
  pub push_back_refused :
      {c : CircArray A} {xs : List A} (v : A)
      → Holds c xs
      → length xs ≡ c.capacity
      → push_back c v false ≡ ok (no_space_error, c)
  push_back_refused {c} v h full = push_back_full c v (sym h.len ∙ full)
