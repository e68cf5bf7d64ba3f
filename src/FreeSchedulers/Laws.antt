-- ===== src/FreeSchedulers/Laws.antt =====
-- What adding and removing do to the list of free schedulers.
use fpgaml.Common.{
  ℕ, zero, suc, ◌+◌, ◌<◌, ◌≤◌, ◌≡◌, ◌∙◌, sym, ap, refl, inl, inr, true, false, not, List, [], ◌∷◌,
  ◌++◌, length, arith, if◌then◌else◌, ◌==◌, ok, get_elem?, some, get_elem?-lt, Bool-cases,
  remove_at, ◌>>=◌, assert_failed,
}
use native.Mathlib.Decide.{dec_lt}
use mathlib.Core.Path.{subst}
use native.Mathlib.Nat.{zero-add}
use fpgaml.CircArray.{CircArray, occupancy, empty, get, pop_at}
use fpgaml.CircArray.Inv.{Holds}
use fpgaml.CircArray.Push.{push_back_appends}
use fpgaml.CircArray.Index.{get_refines}
use fpgaml.CircArray.PopAt.{pop_at_refines}
use fpgaml.EvTimer.{LibEv}
use fpgaml.FreeSchedulers.{
  FreeSchedulers, find_scheduler, remove_first, add_free_scheduler, remove_free_scheduler,
}

-- The list without the first occurrence of `id`.
abbrev pub erase : ℕ → List ℕ → List ℕ
erase id [] = []
erase id (x ∷ xs) = if x == id then xs else x ∷ erase id xs

-- The position of the first occurrence, or the length.
abbrev pub index_of : ℕ → List ℕ → ℕ
index_of id [] = 0
index_of id (x ∷ xs) = if x == id then 0 else suc (index_of id xs)

index_of-le : (id : ℕ) (xs : List ℕ) → index_of id xs ≤ length xs
index_of-le id [] = omega arith
index_of-le id (x ∷ xs) = ground (arith, index_of-le id xs)

erase_eq : (id : ℕ) (xs : List ℕ) → erase id xs ≡ remove_at (index_of id xs) xs
erase_eq id [] = refl
erase_eq id (x ∷ xs) = elim (Bool-cases (x == id)) [
  | inl e ↦ rw e
  | inr e ↦ rw e (ap (◌∷◌ x) (erase_eq id xs))
]

erase_absent : (id : ℕ) (xs : List ℕ) → index_of id xs ≡ length xs → erase id xs ≡ xs
erase_absent id [] e = refl
erase_absent id (x ∷ xs) e = elim (Bool-cases (x == id)) [
  | inl t ↦ absurd (ground (arith, t, e))
  | inr t ↦ rw t (ap (◌∷◌ x) (erase_absent id xs (ground (arith, t, e))))
]

-- The elements before `i` are not `id`; those from `i` on are `ys`.
abbrev From : List ℕ → ℕ → List ℕ → Type 0
From xs i ys = (length xs ≡ i + length ys) × ((j : ℕ) → get_elem? xs (i + j) ≡ get_elem? ys j)

find_scheduler_lem :
    (fuel i id : ℕ) {c : CircArray ℕ} {xs : List ℕ} (ys : List ℕ)
    → Holds c xs
    → From xs i ys
    → length ys < fuel
    → find_scheduler fuel i id c ≡ ok (i + index_of id ys)
unfolding find_scheduler occupancy
find_scheduler_lem zero i id ys h f lt = elim lt [ ]
find_scheduler_lem (suc fuel) i id {c} {xs} [] h f lt = ground (arith, f.0, h.len)
find_scheduler_lem (suc fuel) i id {c} {xs} (y ∷ ys) h f lt =
    let e0 : i ≡ i + 0 = omega arith in
    let g : get_elem? xs i ≡ some y = ap (get_elem? xs) e0 ∙ f.1 0 in
    let r : get c i ≡ ok y = get_refines i h g (omega (arith, f.0)) in
    let later : From xs (i + 1) ys =
      (omega (arith, f.0), λ j. ap (get_elem? xs) (shift i j) ∙ f.1 (suc j)) in
    let ih = find_scheduler_lem fuel (i + 1) id ys h later (omega arith) in
    ground (arith, r, ih, f.0, h.len)
  where
    shift : (a b : ℕ) → a + 1 + b ≡ a + suc b
    shift a b = omega arith

remove_first_hit :
    (id : ℕ) (c : CircArray ℕ) {c' : CircArray ℕ} (i : ℕ) {x : ℕ}
    → find_scheduler (suc c.size) 0 id c ≡ ok i
    → i < c.size
    → pop_at c i ≡ ok (x, c')
    → remove_first id c ≡ ok c'
unfolding remove_first
remove_first_hit id c i e lt p = ground arith

remove_first_miss :
    (id : ℕ) (c : CircArray ℕ) (i : ℕ)
    → find_scheduler (suc c.size) 0 id c ≡ ok i
    → c.size ≤ i
    → remove_first id c ≡ ok c
unfolding remove_first
remove_first_miss id c i e ge = ground arith

-- remove_free_scheduler's loop takes out the first occurrence of the number, if there is one.
pub remove_first_lem :
    (id : ℕ) {c : CircArray ℕ} {xs : List ℕ}
    → Holds c xs
    → (c' : CircArray ℕ) × (remove_first id c ≡ ok c')
      × Holds c' (erase id xs)
      × (c'.capacity ≡ c.capacity)
remove_first_lem id {c} {xs} h =
    let all : From xs 0 xs = (omega arith, λ j. ap (get_elem? xs) (zero-add j)) in
    let f : find_scheduler (suc c.size) 0 id c ≡ ok (index_of id xs) =
      find_scheduler_lem (suc c.size) 0 id xs h all (omega (arith, h.len))
      ∙ ap ok (zero-add (index_of id xs)) in
    elim (dec_lt (index_of id xs) c.size) [
      | yes lt ↦
          let (x, g) = get_elem?-lt xs (index_of id xs) (omega (arith, h.len)) in
          let (c', p, h', n) = pop_at_refines (index_of id xs) h g (omega (arith, h.len)) in
          (
            c',
            remove_first_hit id c (index_of id xs) f lt p,
            subst (Holds c') (sym (erase_eq id xs)) h',
            n,
          )
      | no ge ↦ (
        c,
        remove_first_miss id c (index_of id xs) f (omega arith),
        subst (Holds c) (sym (erase_absent id xs (omega (arith, h.len, index_of-le id xs)))) h,
        refl,
      )
    ]

module _ (ev : LibEv) where
  -- remove_free_scheduler returns; it takes the number out of the list, and its timer is
  -- stopped if that leaves the list empty.
  pub remove_free_scheduler_lem :
      (id : ℕ) (m : FreeSchedulers ev) {xs : List ℕ}
      → Holds m.free_schedulers xs
      → (m' : FreeSchedulers ev) × (remove_free_scheduler ev id m ≡ ok m')
        × Holds m'.free_schedulers (erase id xs)
        × (m'.free_schedulers.capacity ≡ m.free_schedulers.capacity)
        × (length (erase id xs) ≡ 0 → ev.is_active m'.free_sched_timer ≡ false)
  unfolding remove_free_scheduler empty
  remove_free_scheduler_lem id m {xs} h =
      let (c', e, h', n) = remove_first_lem id h in
      (
        record {
          free_schedulers = c';
          free_sched_timer =
              if c'.size == 0 then ev.stop m.free_sched_timer else m.free_sched_timer;
        },
        rw (e, ◌>>=◌),
        h',
        n,
        λ z. ground (arith, h'.len, z, ev.is_active-stop m.free_sched_timer),
      )

  -- With room in the list, add_free_scheduler appends the number and sees that the timer runs; the
  -- list's capacity stays.
  pub add_free_scheduler_lem :
      (id : ℕ) (m : FreeSchedulers ev) {xs : List ℕ}
      → Holds m.free_schedulers xs
      → length xs < m.free_schedulers.capacity
      → (m' : FreeSchedulers ev) × (add_free_scheduler ev id m ≡ ok m')
        × Holds m'.free_schedulers (xs ++ (id ∷ []))
        × (ev.is_active m'.free_sched_timer ≡ true)
        × (m'.free_schedulers.capacity ≡ m.free_schedulers.capacity)
  unfolding add_free_scheduler
  add_free_scheduler_lem id m {xs} h room =
      let (c', e, h', n) = push_back_appends id false h room in
      (
        record {
          free_schedulers = c';
          free_sched_timer =
              if not (ev.is_active m.free_sched_timer)
              then ev.start m.free_sched_timer 0 1
              else m.free_sched_timer;
        },
        ground (arith, e, room, h.len),
        h',
        ground (arith, ev.is_active-start m.free_sched_timer 0 1),
        n,
      )

  -- add_free_scheduler fails its assertion where the list is full.
  pub add_free_scheduler_full :
      (id : ℕ) (m : FreeSchedulers ev) {xs : List ℕ}
      → Holds m.free_schedulers xs
      → length xs ≡ m.free_schedulers.capacity
      → add_free_scheduler ev id m ≡ assert_failed
  unfolding add_free_scheduler
  add_free_scheduler_full id m h full = ground (arith, h.len)
