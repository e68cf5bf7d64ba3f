-- ===== src/CircArray/Pop.antt =====
-- pop_front and pop_back take the oldest and the newest element.
use fpgaml.Common.{
  ℕ, suc, ◌+◌, ◌-◌, ◌%◌, ◌≡◌, ◌∙◌, sym, ap, refl, List, [], ◌∷◌, length, get_elem?, Option, some,
  Outcome, ok, arith, drop_last, get_elem?-drop_last, length-drop_last,
}
use fpgaml.CircArray.{CircArray, Rc, success, pop_front_rc, pop_back_rc, pop_front, pop_back}
use fpgaml.CircArray.Deque
use fpgaml.CircArray.Deque.{last?}
use fpgaml.CircArray.Inv.{Holds, slot_cases, slot-lt, slot-suc}

abbrev pub PopsTo {ℓ} :
    {A : Type ℓ} → Outcome (Rc × Option A × CircArray A) → ℕ → Rc × Option A × List A → Type ℓ
PopsTo {A} m cap (rc, out, xs) =
    (c' : CircArray A) × (m ≡ ok (rc, out, c')) × Holds c' xs × (c'.capacity ≡ cap)

module _ {A : Type 0} where
  last?-get_elem? : (xs : List A) → last? xs ≡ get_elem? xs (length xs - 1)
  last?-get_elem? [] = refl
  last?-get_elem? (x ∷ []) =
      let e : 0 ≡ length (x ∷ []) - 1 = omega arith in ap (get_elem? (x ∷ [])) e
  last?-get_elem? (x ∷ y ∷ xs) =
      let e : suc (length (y ∷ xs) - 1) ≡ length (x ∷ y ∷ xs) - 1 = omega arith in
      last?-get_elem? (y ∷ xs) ∙ ap (get_elem? (x ∷ y ∷ xs)) e

  head_cell :
      {c : CircArray A} {x : A} {xs : List A}
      → Holds c (x ∷ xs)
      → get_elem? c.array c.start ≡ some x
  head_cell {c} {x} {xs} v =
      let e : c.start ≡ (c.start + 0) % c.capacity =
        omega (arith, slot_cases c.start 0 c.capacity v.start_in (omega arith)) in
      ap (get_elem? c.array) e ∙ v.cells 0 (omega arith)

  pub pop_front_rc_step :
      {c : CircArray A} {x : A} {xs : List A}
      → Holds c (x ∷ xs)
      → let c' = record c { size = c.size - 1; start = (c.start + 1) % c.capacity } in
        (pop_front_rc c ≡ ok (success, some x, c')) × Holds c' xs
  unfolding pop_front_rc
  pop_front_rc_step {c} {x} {xs} v = (
    ground (arith, head_cell v),
    record {
      storage = v.storage;
      small = v.small;
      start_in = slot-lt c.start 1 c.capacity v.start_in (omega arith);
      fits = omega arith;
      len = omega arith;
      cells = λ i h.
          ap (get_elem? c.array) (slot-suc c.start i c.capacity v.start_in (omega arith))
          ∙ v.cells (suc i) (omega arith);
    },
  )

  -- The cell that pop_back reads holds the last element.
  last_cell :
      {c : CircArray A} {x : A} {xs : List A}
      → Holds c (x ∷ xs)
      → get_elem? c.array ((c.start + c.size - 1) % c.capacity) ≡ last? (x ∷ xs)
  last_cell {c} {x} {xs} v =
      let e : (c.start + c.size - 1) % c.capacity ≡ (c.start + (c.size - 1)) % c.capacity =
        ap (λ k. k % c.capacity) (omega arith) in
      let e' : c.size - 1 ≡ length (x ∷ xs) - 1 = omega arith in
      ap (get_elem? c.array) e
      ∙ v.cells (c.size - 1) (omega arith)
      ∙ ap (get_elem? (x ∷ xs)) e'
      ∙ sym (last?-get_elem? (x ∷ xs))

  last?-some : (x : A) (xs : List A) → (y : A) × (last? (x ∷ xs) ≡ some y)
  last?-some x [] = (x, refl)
  last?-some x (y ∷ xs) = last?-some y xs

  pub pop_back_rc_step :
      {c : CircArray A} {x : A} {xs : List A}
      → Holds c (x ∷ xs)
      → let c' = record c { size = c.size - 1 } in
        (pop_back_rc c ≡ ok (success, last? (x ∷ xs), c')) × Holds c' (drop_last (x ∷ xs))
  unfolding pop_back_rc
  pop_back_rc_step {c} {x} {xs} v = (
    ground (arith, last_cell v, last?-some x xs),
    record {
      storage = v.storage;
      small = v.small;
      start_in = v.start_in;
      fits = omega arith;
      len = omega (arith, length-drop_last (x ∷ xs));
      cells = λ i h. v.cells i (omega arith) ∙ sym (get_elem?-drop_last (x ∷ xs) i (omega arith));
    },
  )

  -- pop_front (T&) behaves as the queue's: on an empty buffer it reports it and changes nothing, on
  -- any other it hands out the oldest element.
  pub pop_front_rc_refines :
      {c : CircArray A} (xs : List A)
      → Holds c xs
      → PopsTo (pop_front_rc c) c.capacity (Deque.pop_front_rc xs)
  unfolding pop_front_rc Deque.pop_front_rc
  pop_front_rc_refines {c} [] v = (c, ground arith, v, refl)
  pop_front_rc_refines {c} (x ∷ xs) v =
      let (e, h) = pop_front_rc_step v in
      (record c { size = c.size - 1; start = (c.start + 1) % c.capacity }, e, h, refl)

  -- pop_back (T&) likewise at the other end.
  pub pop_back_rc_refines :
      {c : CircArray A} (xs : List A)
      → Holds c xs
      → PopsTo (pop_back_rc c) c.capacity (Deque.pop_back_rc xs)
  unfolding pop_back_rc Deque.pop_back_rc
  pop_back_rc_refines {c} [] v = (c, ground arith, v, refl)
  pop_back_rc_refines {c} (x ∷ xs) v =
      let (e, h) = pop_back_rc_step v in (record c { size = c.size - 1 }, e, h, refl)

  pub pop_front_step :
      {c : CircArray A} {x : A} {xs : List A}
      → Holds c (x ∷ xs)
      → let c' = record c { size = c.size - 1; start = (c.start + 1) % c.capacity } in
        (pop_front c ≡ ok (x, c')) × Holds c' xs
  unfolding pop_front
  pop_front_step v = let (e, h) = pop_front_rc_step v in (ground (arith, e), h)

  pub pop_back_step :
      {c : CircArray A} {x : A} {xs : List A}
      → Holds c (x ∷ xs)
      → let c' = record c { size = c.size - 1 } in
        (y : A) × (last? (x ∷ xs) ≡ some y)
        × (pop_back c ≡ ok (y, c'))
        × Holds c' (drop_last (x ∷ xs))
  unfolding pop_back
  pop_back_step {c} {x} {xs} v =
      let (e, h) = pop_back_rc_step v in
      let (y, l) = last?-some x xs in (y, l, ground (arith, e, l), h)
