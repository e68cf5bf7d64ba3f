-- ===== src/Bitstreams/Checks.antt =====
-- A bitstream that BitstreamCheck lets through can be looked up.
use mathlib.Core.Path.{subst}
use fpgaml.Common.{
  ℕ, ◌≡◌, ◌∙◌, refl, sym, ap, true, false, if◌then◌else◌, ltb, Option, none, some, List, [], ◌∷◌,
  arith, Bool-cases, Option-cases, inl, inr, ◌==◌,
}
use fpgaml.Common.Names.{Name, same, find, put, insert_new, same→≡, find-put_self, find-put_ne}
use fpgaml.Bitstreams.{
  ml_success, ml_error, Documents, BitstreamManager, Bitstream, extract_all, extract_xml_file,
  load_document, parse_bitstream, get_field, check_bitstream_exists, insert_sizes, check_wg_size,
}

module _ (docs : Documents) where
  abbrev with_struct : BitstreamManager docs → Name → docs.Node → BitstreamManager docs
  with_struct m g d = record m {
    kernel_bitstream_struct_map =
        put g (parse_bitstream docs m.enabled_mmap d) m.kernel_bitstream_struct_map;
  }

  extract_all_step :
      (g : Name) (gs : List Name) (m : BitstreamManager docs) (d : docs.Node)
      → load_document docs m g ≡ some d
      → extract_all docs (g ∷ gs) m ≡ extract_all docs gs (with_struct m g d)
  unfolding extract_all extract_xml_file
  extract_all_step g gs m d e = ground (arith, e)

  extract_all_stop :
      (g : Name) (gs : List Name) (m : BitstreamManager docs)
      → load_document docs m g ≡ none
      → extract_all docs (g ∷ gs) m ≡ (ml_error, m)
  unfolding extract_all
  extract_all_stop g gs m e = ground (arith, e)

  load-with_struct :
      (m : BitstreamManager docs) (g f : Name) (d : docs.Node)
      → load_document docs (with_struct m g d) f ≡ load_document docs m f
  unfolding load_document
  load-with_struct m g f d = refl

  extract_all_empty :
      {o : Option Bitstream} (f' : Name) (m' : BitstreamManager docs)
      → find f' m'.kernel_bitstream_struct_map ≡ o
      → find f' (extract_all docs [] m').1.kernel_bitstream_struct_map ≡ o
  unfolding extract_all
  extract_all_empty f' m' h' = h'

  -- What has been stored for a file stays.
  extract_all-keeps :
      (f : Name) (doc : docs.Node) (fs : List Name) (m : BitstreamManager docs)
      → load_document docs m f ≡ some doc
      → find f m.kernel_bitstream_struct_map ≡ some (parse_bitstream docs m.enabled_mmap doc)
      → find f (extract_all docs fs m).1.kernel_bitstream_struct_map
        ≡ some (parse_bitstream docs m.enabled_mmap doc)
  extract_all-keeps f doc [] m l h = extract_all_empty f m h
  extract_all-keeps f doc (g ∷ gs) m l h = elim (Option-cases (load_document docs m g)) [
    | inl e ↦ ap (λ r. find f r.1.kernel_bitstream_struct_map) (extract_all_stop g gs m e) ∙ h
    | inr (d, e) ↦
        let step = ap (λ r. find f r.1.kernel_bitstream_struct_map) (extract_all_step g gs m d e) in
        let still : find f (with_struct m g d).kernel_bitstream_struct_map
            ≡ some (parse_bitstream docs m.enabled_mmap doc) =
          overwritten g d e in
        step ∙ extract_all-keeps f doc gs (with_struct m g d) (load-with_struct m g f d ∙ l) still
  ]
    where
      overwritten :
          (g : Name) (d : docs.Node)
          → load_document docs m g ≡ some d
          → find f (with_struct m g d).kernel_bitstream_struct_map
            ≡ some (parse_bitstream docs m.enabled_mmap doc)
      overwritten g d e = elim (Bool-cases (same f g)) [
        | inr ne ↦
            find-put_ne f g (parse_bitstream docs m.enabled_mmap d) m.kernel_bitstream_struct_map ne
            ∙ h
        | inl q ↦
            let eq = same→≡ f g q in
            let dd : d ≡ doc = cc in
            subst
              (λ k.
                find k (put g (parse_bitstream docs m.enabled_mmap d) m.kernel_bitstream_struct_map)
                ≡ some (parse_bitstream docs m.enabled_mmap doc))
              (sym eq)
              (find-put_self g (parse_bitstream docs m.enabled_mmap d) m.kernel_bitstream_struct_map
                ∙ ap (λ k. some (parse_bitstream docs m.enabled_mmap k)) dd)
      ]

  exists_cases :
      (f g : Name) (gs : List Name)
      → check_bitstream_exists (g ∷ gs) f ≡ true
      → same f g ≡ false
      → check_bitstream_exists gs f ≡ true
  unfolding check_bitstream_exists
  exists_cases f g gs h ne = ground (arith, h, ne)

  nothing_exists : (f : Name) → check_bitstream_exists [] f ≡ true → ⊥
  unfolding check_bitstream_exists
  nothing_exists f h = cc

  -- Once all files have been extracted, a name that the check finds among them is in the map, with
  -- what its document says.
  pub extract_all-found :
      (f : Name) (fs : List Name) (m : BitstreamManager docs)
      → (extract_all docs fs m).0 ≡ ml_success
      → check_bitstream_exists fs f ≡ true
      → (doc : docs.Node) × (load_document docs m f ≡ some doc)
        × (find f (extract_all docs fs m).1.kernel_bitstream_struct_map
            ≡ some (parse_bitstream docs m.enabled_mmap doc))
  extract_all-found f [] m s h = absurd (nothing_exists f h)
  extract_all-found f (g ∷ gs) m s h = elim (Option-cases (load_document docs m g)) [
    | inl e ↦ let bad = ap (λ r. r.0) (extract_all_stop g gs m e) in cc
    | inr (d, e) ↦
        let step = extract_all_step g gs m d e in
        elim (Bool-cases (same f g)) [
          | inr ne ↦
              let (doc, l, found) =
                extract_all-found f gs (with_struct m g d) (sym (ap (λ r. r.0) step) ∙ s)
                  (exists_cases f g gs h ne) in
              (
                doc,
                sym (load-with_struct m g f d) ∙ l,
                ap (λ r. find f r.1.kernel_bitstream_struct_map) step ∙ found,
              )
          | inl q ↦
              let l = ap (load_document docs m) (same→≡ f g q) ∙ e in
              (
                d,
                l,
                ap (λ r. find f r.1.kernel_bitstream_struct_map) step
                    ∙ extract_all-keeps f d gs (with_struct m g d) (load-with_struct m g f d ∙ l)
                        (stored f g m d (same→≡ f g q)),
              )
        ]
  ]
    where
      stored :
          (f g : Name) (m : BitstreamManager docs) (d : docs.Node)
          → f ≡ g
          → find f (with_struct m g d).kernel_bitstream_struct_map
            ≡ some (parse_bitstream docs m.enabled_mmap d)
      stored f g m d q =
          ap (λ k. find k (with_struct m g d).kernel_bitstream_struct_map) q
          ∙ find-put_self g (parse_bitstream docs m.enabled_mmap d) m.kernel_bitstream_struct_map

  -- So the getters succeed on it, with the fields of its document.
  pub get_field-found :
      {A : Type 0} (field : Bitstream → A) (f : Name) (fs : List Name) (m : BitstreamManager docs)
      (old : A)
      → (extract_all docs fs m).0 ≡ ml_success
      → check_bitstream_exists fs f ≡ true
      → (doc : docs.Node) × (load_document docs m f ≡ some doc)
        × (get_field docs field (extract_all docs fs m).1 f old
            ≡ (ml_success, field (parse_bitstream docs m.enabled_mmap doc)))
  unfolding get_field
  get_field-found field f fs m old s h =
      let (doc, l, found) = extract_all-found f fs m s h in (doc, l, rw (get_field, found) refl)

-- No entry of the map has the name.
abbrev pub Absent : {A : Type 0} → Name → List (Name × A) → Type 0
Absent k m = find k m ≡ none

abbrev pub Distinct : List (Name × Bitstream) → Type 0
Distinct [] = Unit
Distinct ((name, entry) ∷ rest) = Absent name rest × Distinct rest

-- The size that is on record: the entry's, where it is positive.
abbrev pub recorded_size : Name → List (Name × Bitstream) → Option ℕ
recorded_size k entries = elim (find k entries) [
  | none ↦ none
  | some b ↦ if ltb 0 b.wgroup_size then some b.wgroup_size else none
]

find-insert_sizes :
    (k : Name) (entries : List (Name × Bitstream)) (sizes : List (Name × ℕ))
    → Distinct entries
    → find k (insert_sizes entries sizes)
      ≡ elim (find k sizes) [ some s ↦ some s | none ↦ recorded_size k entries ]
unfolding insert_sizes
find-insert_sizes k [] sizes d = ground (arith)
find-insert_sizes k ((name, entry) ∷ rest) sizes (a, d) =
    elim (Bool-cases (ltb 0 entry.wgroup_size)) [
      | inr z ↦
          let ih = find-insert_sizes k rest sizes d in
          let e : same k name ≡ true → k ≡ name = same→≡ k name in
          let e' : same k name ≡ true → find k rest ≡ none = λ q. ap (λ n. find n rest) (e q) ∙ a in
          ground (arith, ih, z, e')
      | inl p ↦
          let ih = find-insert_sizes k rest (insert_new name entry.wgroup_size sizes) d in
          let e : same k name ≡ true → k ≡ name = same→≡ k name in
          let self = find-put_self name entry.wgroup_size sizes in
          let other = find-put_ne k name entry.wgroup_size sizes in
          elim (Bool-cases (same k name)) [
            | inr ne ↦ let o = other ne in ground (arith, ih, p, ne, o)
            | inl q ↦
                let kn = e q in
                let fk : find k sizes ≡ find name sizes = ap (λ n. find n sizes) kn in
                let fp : find k (put name entry.wgroup_size sizes) ≡ some entry.wgroup_size =
                  ap (λ n. find n (put name entry.wgroup_size sizes)) kn ∙ self in
                ground (arith, ih, p, q, fk, fp)
          ]
    ]

-- The workgroup size of a kernel is accepted exactly where the map has its bitstream with that
-- size, and the size is not 0.
pub check_wg_size_lem :
    (k : Name) (entries : List (Name × Bitstream)) (size : ℕ)
    → Distinct entries
    → check_wg_size (insert_sizes entries []) k size
      ≡ elim (recorded_size k entries) [ none ↦ false | some s ↦ size == s ]
unfolding check_wg_size
check_wg_size_lem k entries size d =
    let e = find-insert_sizes k entries [] d in rw (check_wg_size, e) refl
