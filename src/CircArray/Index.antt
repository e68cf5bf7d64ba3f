-- ===== src/CircArray/Index.antt =====
-- operator[] and pop_at: reading, assigning and removing by position.
use fpgaml.Common.{
  ℕ, ◌+◌, ◌%◌, ◌<◌, ◌≤◌, ◌≡◌, ◌≢◌, ◌∙◌, sym, ap, refl, inl, inr, List, length, get_elem?, set, some,
  ok, throw, Exception, arith, ◌==◌, length-set, get_elem?-set_self, get_elem?-set_ne, Bool-cases,
  ==_iff,
}
use fpgaml.CircArray.{CircArray, get, put}
use fpgaml.CircArray.Inv.{Holds, slot-lt, slot-ne}

module _ {A : Type 0} where
  -- operator[] hands out the element in that position.
  pub get_refines :
      {c : CircArray A} {xs : List A} (i : ℕ) {x : A}
      → Holds c xs
      → get_elem? xs i ≡ some x
      → i < length xs
      → get c i ≡ ok x
  unfolding get
  get_refines {c} {xs} i {x} h e lt =
      let e' : get_elem? c.array ((c.start + i) % c.capacity) ≡ some x =
        h.cells i (omega (arith, h.len)) ∙ e in
      ground (arith, h.len, h.start_in, h.small, e')

  -- operator[] throws past the end of a buffer that is not empty.
  pub get_past_end :
      {c : CircArray A} {xs : List A} (i : ℕ)
      → Holds c xs
      → 0 < length xs
      → length xs ≤ i
      → get c i ≡ throw Exception.invalid_index
  unfolding get
  get_past_end {c} {xs} i h some_left past = ground (arith, h.len, h.start_in, h.small)

  put_step :
      {c : CircArray A} {xs : List A} (i : ℕ) (v : A)
      → Holds c xs
      → i < length xs
      → let c' = record c { array = set c.array ((c.start + i) % c.capacity) v } in
        (put c i v ≡ ok c') × Holds c' (set xs i v)
  unfolding put
  put_step {c} {xs} i v h lt = (
    ground (arith, h.len, h.storage, slot-lt c.start i c.capacity h.start_in),
    record {
      storage = length-set c.array _ v ∙ h.storage;
      small = h.small;
      start_in = h.start_in;
      fits = h.fits;
      len = length-set xs i v ∙ h.len;
      cells = cells;
    },
  )
    where
      cells :
          (j : ℕ)
          → j < c.size
          → get_elem? (set c.array ((c.start + i) % c.capacity) v) ((c.start + j) % c.capacity)
            ≡ get_elem? (set xs i v) j
      cells j hj = elim (Bool-cases (i == j)) [
        | inl e ↦
            let e' : i ≡ j = (==_iff i j).0 e in
            ap
              (λ k.
                get_elem? (set c.array ((c.start + i) % c.capacity) v) ((c.start + k) % c.capacity))
              (sym e')
            ∙ get_elem?-set_self c.array ((c.start + i) % c.capacity) v
                (omega (arith, h.storage, h.fits, h.len, slot-lt c.start i c.capacity h.start_in))
            ∙ sym (get_elem?-set_self xs i v lt)
            ∙ ap (get_elem? (set xs i v)) e'
        | inr e ↦
            let ne : i ≢ j = ground (arith, e) in
            get_elem?-set_ne c.array ((c.start + i) % c.capacity) ((c.start + j) % c.capacity) v (
              slot-ne c.start i j c.capacity h.start_in (omega (arith, h.fits, h.len))
                (omega (arith, h.fits)) ne)
            ∙ h.cells j hj
            ∙ sym (get_elem?-set_ne xs i j v ne)
      ]

  -- Assigning through operator[] replaces the element in that position and no other.
  pub put_refines :
      {c : CircArray A} {xs : List A} (i : ℕ) (v : A)
      → Holds c xs
      → i < length xs
      → (c' : CircArray A) × (put c i v ≡ ok c')
        × Holds c' (set xs i v)
        × (c'.capacity ≡ c.capacity)
  put_refines i v h lt = let (e, h') = put_step i v h lt in (_, e, h', refl)
