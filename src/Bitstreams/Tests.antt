-- ===== src/Bitstreams/Tests.antt =====
-- The theorems on the bitstreams at inputs.
use fpgaml.Common.{ℕ, ◌≡◌, inl, inr, refl, true, false, [], ◌∷◌, ok, some, arith}
use fpgaml.Common.Names.{Name}
use fpgaml.Bitstreams.{
  Bitstream, ml_success, list_entries, extract_all, check_bitstream_exists, load_document,
  parse_bitstream, get_field, insert_sizes, check_wg_size,
}
use fpgaml.Bitstreams.Files.{list_entries_lem, xml_names}
use fpgaml.Bitstreams.Checks.{get_field-found, check_wg_size_lem}
use fpgaml.Samples.{two_files, no_bitstreams}

-- "..", "a.xml" and "b.txt"
abbrev dots : Name
dots = 46 ∷ 46 ∷ []

abbrev a_xml : Name
a_xml = 97 ∷ 46 ∷ 120 ∷ 109 ∷ 108 ∷ []

abbrev b_txt : Name
b_txt = 98 ∷ 46 ∷ 116 ∷ 120 ∷ 116 ∷ []

list_entries_lem_example :
    list_entries two_files (dots ∷ a_xml ∷ b_txt ∷ []) no_bitstreams
    ≡ ok (
      ml_success,
      record no_bitstreams { xml_files_list = xml_names (dots ∷ a_xml ∷ b_txt ∷ []) },
    )
list_entries_lem_example =
    list_entries_lem two_files (dots ∷ a_xml ∷ b_txt ∷ []) no_bitstreams refl
      (inl refl, (inr (omega arith), (inr (omega arith), tt)))

all_extracted : (extract_all two_files (a_xml ∷ []) no_bitstreams).0 ≡ ml_success
unfolding extract_all load_document
all_extracted = refl

a_xml_exists : check_bitstream_exists (a_xml ∷ []) a_xml ≡ true
unfolding check_bitstream_exists
a_xml_exists = refl

get_field-found_example :
    (doc : Unit) × (load_document two_files no_bitstreams a_xml ≡ some doc)
    × (get_field two_files
          (λ b. b.local_cost)
          (extract_all two_files (a_xml ∷ []) no_bitstreams).1
          a_xml
          7
        ≡ (ml_success, (parse_bitstream two_files false doc).local_cost))
get_field-found_example =
    get_field-found two_files (λ b. b.local_cost) a_xml (a_xml ∷ []) no_bitstreams 7 all_extracted
      a_xml_exists

abbrev with_size : ℕ → Bitstream
with_size n = record {
  resource_string = [];
  offset_address = [];
  target = [];
  num_accs = 1;
  wgroup_size = n;
  local_cost = 2;
  remote_cost = 3;
  bitstream = [];
  bs_length = 0;
}

check_wg_size_lem_example :
    check_wg_size (insert_sizes ((a_xml, with_size 64) ∷ (b_txt, with_size 0) ∷ []) []) a_xml 64
    ≡ true
check_wg_size_lem_example =
    check_wg_size_lem a_xml ((a_xml, with_size 64) ∷ (b_txt, with_size 0) ∷ []) 64
      (refl, (refl, tt))
