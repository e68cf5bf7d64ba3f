-- ===== src/Bitstreams/Files.antt =====
-- What the directory and the files give.
use fpgaml.Common.{
  ◌≡◌, refl, sym, ap, true, false, if◌then◌else◌, List, [], ◌∷◌, ◌++◌, length, ok, throw, Exception,
  arith, ◌⊎◌, ◌≤◌, ◌<◌, All,
}
use fpgaml.Common.{Bool, not, ◌&&◌, ◌||◌, ◌==◌, inl, inr, drop, ◌-◌, suc, ◌∙◌}
use fpgaml.Common.Names.{Name, same}
use fpgaml.Bitstreams.{ml_success, Documents, BitstreamManager, is_hidden, is_xml, list_entries}

-- Hidden names, which begin with a dot.
abbrev pub dotted : Name → Bool
dotted [] = false
dotted (c ∷ cs) = c == 46

-- The name ends in ".xml": one of its ends is ".xml".
abbrev pub ends_in_xml : Name → Bool
ends_in_xml [] = false
ends_in_xml (c ∷ cs) = same (c ∷ cs) (46 ∷ 120 ∷ 109 ∷ 108 ∷ []) || ends_in_xml cs

-- The names that begin with no dot and end in ".xml".
abbrev pub xml_names : List Name → List Name
xml_names [] = []
xml_names (f ∷ fs) =
    let rest = xml_names fs in if not (dotted f) && ends_in_xml f then f ∷ rest else rest

-- A name that begins with a dot, or is long enough for an extension.
abbrev pub HasExtension : Name → Type 0
HasExtension f = (dotted f ≡ true) ⊎ (4 ≤ length f)

dotted-is_hidden : (f : Name) → is_hidden f ≡ dotted f
dotted-is_hidden [] = refl
dotted-is_hidden (c ∷ []) = ground arith
dotted-is_hidden (c ∷ d ∷ []) = ground arith
dotted-is_hidden (c ∷ d ∷ e ∷ cs) = ground arith

same_long : (f : Name) → 4 < length f → same f (46 ∷ 120 ∷ 109 ∷ 108 ∷ []) ≡ false
same_long (a ∷ b ∷ c ∷ d ∷ e ∷ f) h = ground arith
same_long (a ∷ b ∷ c ∷ d ∷ []) h = absurd (omega (arith, h))
same_long (a ∷ b ∷ c ∷ []) h = absurd (omega (arith, h))
same_long (a ∷ b ∷ []) h = absurd (omega (arith, h))
same_long (a ∷ []) h = absurd (omega (arith, h))
same_long [] h = absurd (omega (arith, h))

-- The last four characters are compared with the extension.
last_four :
    (f : Name)
    → 4 ≤ length f
    → same (drop (length f - 4) f) (46 ∷ 120 ∷ 109 ∷ 108 ∷ []) ≡ ends_in_xml f
last_four (a ∷ b ∷ c ∷ d ∷ []) h = ground arith
last_four (a ∷ b ∷ c ∷ []) h = absurd (omega (arith, h))
last_four (a ∷ b ∷ []) h = absurd (omega (arith, h))
last_four (a ∷ []) h = absurd (omega (arith, h))
last_four [] h = absurd (omega (arith, h))
last_four (a ∷ b ∷ c ∷ d ∷ e ∷ f) h =
    let g = b ∷ c ∷ d ∷ e ∷ f in
    let n : length (a ∷ g) - 4 ≡ suc (length g - 4) = omega arith in
    let s : same (a ∷ g) (46 ∷ 120 ∷ 109 ∷ 108 ∷ []) ≡ false = same_long (a ∷ g) (omega arith) in
    ap (λ k. same (drop k (a ∷ g)) (46 ∷ 120 ∷ 109 ∷ 108 ∷ [])) n
    ∙ last_four (b ∷ c ∷ d ∷ e ∷ f) (omega arith)
    ∙ ap (λ k. k || ends_in_xml g) (sym s)

ends_in_xml-is_xml : (f : Name) → 4 ≤ length f → is_xml f ≡ ok (ends_in_xml f)
unfolding is_xml
ends_in_xml-is_xml f h = let e = last_four f h in ground (arith, e, h)

module _ (docs : Documents) where
  append_one : (xs ys : List Name) (x : Name) → (xs ++ (x ∷ [])) ++ ys ≡ xs ++ (x ∷ ys)
  append_one [] ys x = refl
  append_one (z ∷ xs) ys x = ap (λ k. z ∷ k) (append_one xs ys x)

  append_nil : (xs : List Name) → xs ++ [] ≡ xs
  append_nil [] = refl
  append_nil (x ∷ xs) = ap (λ k. x ∷ k) (append_nil xs)

  -- Without mapping, and on names of four characters or more where they begin with no dot, the
  -- directory's names that begin with no dot and end in ".xml" are listed, in its order.
  pub list_entries_lem :
      (fs : List Name) (m : BitstreamManager docs)
      → m.enabled_mmap ≡ false
      → All HasExtension fs
      → list_entries docs fs m
        ≡ ok (ml_success, record m { xml_files_list = m.xml_files_list ++ xml_names fs })
  unfolding list_entries
  list_entries_lem [] m off h =
      ap (λ k. ok (ml_success, record m { xml_files_list = k })) (sym (append_nil m.xml_files_list))
  list_entries_lem (f ∷ fs) m off (h, hs) =
      let listed = record m { xml_files_list = m.xml_files_list ++ (f ∷ []) } in
      let ih = list_entries_lem fs m off hs in
      let ih' = list_entries_lem fs listed off hs in
      let e = append_one m.xml_files_list (xml_names fs) f in
      let d = dotted-is_hidden f in
      elim h [
        | inl hidden ↦ ground (arith, d, hidden, ih)
        | inr long ↦ let x = ends_in_xml-is_xml f long in ground (arith, off, d, x, ih, ih', e)
      ]

  -- A visible name of fewer than four characters ends the scan with an exception.
  pub list_entries_short :
      (f : Name) (fs : List Name) (m : BitstreamManager docs)
      → is_hidden f ≡ false
      → length f < 4
      → list_entries docs (f ∷ fs) m ≡ throw Exception.out_of_range
  unfolding list_entries is_xml
  list_entries_short f fs m h short = ground (arith, h, short)
