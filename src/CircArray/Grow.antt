-- ===== src/CircArray/Grow.antt =====
-- resize_by_two and deep_copy move the elements to a new array.
use fpgaml.Common.{
  ℕ, zero, suc, ◌+◌, ◌*◌, ◌%◌, ◌^◌, ◌<◌, ◌≤◌, ◌≡◌, ◌∙◌, sym, ap, refl, inl, inr, List, [], ◌∷◌,
  length, get_elem?, set, some, ok, arith, length-set, get_elem?-lt, length-replicate, replicate,
  get_elem?-set_self, get_elem?-set_ne, Bool-cases, ◌==◌, ==_iff, ◌≢◌,
}
use mathlib.Core.Path.{subst}
use native.Mathlib.Nat.{mod-eq_of_lt}
use fpgaml.CircArray.{CircArray, get, put, copy_cells, resize_by_two, assign_cells, deep_copy}
use fpgaml.CircArray.Inv.{Holds, slot-lt}
use fpgaml.CircArray.Index.{get_refines, put_refines}

shift : (i n : ℕ) → i < n → (0 + i) % n ≡ i
shift i n h = omega (arith, mod-eq_of_lt {n = 0 + i} {m = n} (omega arith))

module _ {A : Type 0} where
  -- The first `i` cells hold the first `i` elements.
  abbrev Copied : List A → List A → ℕ → Type 0
  Copied temp xs i = (j : ℕ) → j < i → get_elem? temp j ≡ get_elem? xs j

  Copied-set :
      (temp xs : List A) (i : ℕ) {x : A}
      → i < length temp
      → get_elem? xs i ≡ some x
      → Copied temp xs i
      → Copied (set temp i x) xs (suc i)
  Copied-set temp xs i {x} lt e h j hj = elim (Bool-cases (i == j)) [
    | inl same ↦
        let same' : i ≡ j = (==_iff i j).0 same in
        ap (get_elem? (set temp i x)) (sym same')
        ∙ get_elem?-set_self temp i x lt
        ∙ sym e
        ∙ ap (get_elem? xs) same'
    | inr other ↦
        let ne : i ≢ j = ground (arith, other) in get_elem?-set_ne temp i j x ne ∙ h j (omega arith)
  ]

  copy_cells_step :
      (rounds i : ℕ) (c : CircArray A) (temp : List A) {x : A}
      → get c i ≡ ok x
      → i < length temp
      → copy_cells (suc rounds) i c temp ≡ copy_cells rounds (suc i) c (set temp i x)
  unfolding copy_cells
  copy_cells_step rounds i c temp g lt =
      let e : i + 1 ≡ suc i = omega arith in ground (arith, e, lt)

  copy_cells_copies :
      (rounds i : ℕ) {c : CircArray A} {xs : List A} (temp : List A)
      → Holds c xs
      → i + rounds ≡ length xs
      → length xs ≤ length temp
      → Copied temp xs i
      → (temp' : List A) × (copy_cells rounds i c temp ≡ ok temp')
        × (length temp' ≡ length temp)
        × Copied temp' xs (length xs)
  unfolding copy_cells
  copy_cells_copies zero i {c} {xs} temp h e fit k = (temp, refl, refl, λ j hj. k j (omega arith))
  copy_cells_copies (suc rounds) i {c} {xs} temp h e fit k =
      let (x, g) = get_elem?-lt xs i (omega arith) in
      let (t, q, l, k') =
        copy_cells_copies rounds (suc i) (set temp i x) h (omega arith)
          (omega (arith, length-set temp i x)) (Copied-set temp xs i (omega arith) g k) in
      (
        t,
        copy_cells_step rounds i c temp (get_refines i h g (omega arith)) (omega arith) ∙ q,
        l ∙ length-set temp i x,
        k',
      )

  -- resize_by_two doubles the capacity and keeps the elements in their order, starting at cell 0.
  pub resize_by_two_refines :
      {c : CircArray A} {xs : List A} (blank : A)
      → Holds c xs
      → c.capacity * 2 < 2 ^ 31
      → (c' : CircArray A) × (resize_by_two blank c ≡ ok c')
        × Holds c' xs
        × (c'.capacity ≡ c.capacity * 2)
        × (c'.start ≡ 0)
  unfolding resize_by_two
  resize_by_two_refines {c} {xs} blank h small =
      let n = c.capacity * 2 in
      let fresh = length-replicate n blank in
      let (t, q, l, k) =
        copy_cells_copies c.size 0 {c = c} {xs = xs} (replicate n blank) h (omega (arith, h.len))
          (omega (arith, fresh, h.len, h.fits)) (λ j hj. absurd (omega arith)) in
      let no_wrap : n % 2 ^ 64 ≡ n = omega arith in
      (
        record c { array = t; start = 0; capacity = n },
        rw (no_wrap, q),
        record {
          storage = l ∙ fresh;
          small = small;
          start_in = omega (arith, h.start_in);
          fits = omega (arith, h.fits);
          len = h.len;
          cells = λ i hi.
              let e : (0 + i) % n ≡ i = shift i n (omega (arith, h.fits)) in
              ap (get_elem? t) e ∙ k i (omega (arith, h.len));
        },
        refl,
        refl,
      )

module _ {A : Type 0} where
  ext : (xs ys : List A) → length xs ≡ length ys → Copied xs ys (length ys) → xs ≡ ys
  ext [] [] l h = refl
  ext [] (y ∷ ys) l h = absurd (omega arith)
  ext (x ∷ xs) [] l h = absurd (omega arith)
  ext (x ∷ xs) (y ∷ ys) l h =
      let e : some x ≡ some y = h 0 (omega arith) in
      ground (arith, e, ext xs ys (omega arith) (λ j hj. h (suc j) (omega arith)))

  get_elem?-replicate : (n i : ℕ) (blank : A) → i < n → get_elem? (replicate n blank) i ≡ some blank
  get_elem?-replicate zero i blank h = elim h [ ]
  get_elem?-replicate (suc n) zero blank h = refl
  get_elem?-replicate (suc n) (suc i) blank h = get_elem?-replicate n i blank (omega arith)

  assign_cells_step :
      (rounds i : ℕ) (rhs lhs : CircArray A) {lhs' : CircArray A} {x : A}
      → get rhs i ≡ ok x
      → put lhs i x ≡ ok lhs'
      → assign_cells (suc rounds) i rhs lhs ≡ assign_cells rounds (suc i) rhs lhs'
  unfolding assign_cells
  assign_cells_step rounds i rhs lhs g p = let e : i + 1 ≡ suc i = omega arith in ground (arith, e)

  assign_cells_copies :
      (rounds i : ℕ) {rhs lhs : CircArray A} {xs zs : List A}
      → Holds rhs xs
      → Holds lhs zs
      → length zs ≡ length xs
      → i + rounds ≡ length xs
      → Copied zs xs i
      → (c' : CircArray A) × (assign_cells rounds i rhs lhs ≡ ok c')
        × Holds c' xs
        × (c'.capacity ≡ lhs.capacity)
  unfolding assign_cells
  assign_cells_copies zero i {rhs} {lhs} {xs} {zs} h g l e k =
      (lhs, refl, subst (Holds lhs) (ext zs xs l (λ j hj. k j (omega arith))) g, refl)
  assign_cells_copies (suc rounds) i {rhs} {lhs} {xs} {zs} h g l e k =
      let (x, r) = get_elem?-lt xs i (omega arith) in
      let (c', p, g', n) = put_refines i x g (omega arith) in
      let (d, q, g'', n') =
        assign_cells_copies rounds (suc i) h g' (length-set zs i x ∙ l) (omega arith)
          (Copied-set zs xs i (omega arith) r k) in
      (d, assign_cells_step rounds i rhs lhs (get_refines i h r (omega arith)) p ∙ q, g'', n' ∙ n)

  -- The object that deep_copy starts from holds blanks.
  blank-Holds :
      {c : CircArray A} {xs : List A} (blank : A)
      → Holds c xs
      → Holds (record c { array = replicate c.capacity blank }) (replicate c.size blank)
  blank-Holds {c} {xs} blank h = record {
    storage = length-replicate c.capacity blank;
    small = h.small;
    start_in = h.start_in;
    fits = h.fits;
    len = length-replicate c.size blank;
    cells = λ i hi.
        get_elem?-replicate c.capacity ((c.start + i) % c.capacity) blank
          (slot-lt c.start i c.capacity h.start_in (omega (arith, h.fits)))
        ∙ sym (get_elem?-replicate c.size i blank hi);
  }

  -- Copying onto another object gives a buffer with the same elements and capacity.
  pub deep_copy_refines :
      {c : CircArray A} {xs : List A} (blank : A)
      → Holds c xs
      → (c' : CircArray A) × (deep_copy blank c ≡ ok c') × Holds c' xs × (c'.capacity ≡ c.capacity)
  unfolding deep_copy
  deep_copy_refines {c} {xs} blank h =
      assign_cells_copies c.size 0 h (blank-Holds blank h)
        (length-replicate c.size blank ∙ sym h.len) (omega (arith, h.len))
        (λ j hj. absurd (omega arith))
