-- ===== src/Bitstreams.antt =====
-- BitstreamManager of cpp/bitstream_manager.h and cpp/bitstream_manager.cc, BitstreamCheck and
-- WorkGroupSizeCheck of cpp/bitstream_check.h, and the return codes of cpp/fpgaml_rc.h. The XML
-- parser, the directory and the mapped files are a parameter.
pub mod Files
pub mod Checks
mod Tests
use fpgaml.Common.{
  ℕ, zero, suc, ◌+◌, ◌-◌, ◌%◌, Bool, true, false, not, ◌||◌, if◌then◌else◌, ltb, ◌==◌, Option, none,
  some, List, [], ◌∷◌, ◌++◌, length, drop, Outcome, ok, throw, Exception, ◌>>=◌, u32_max,
}
use fpgaml.Common.Int.{ℤ, pos, negsuc, to_unsigned}
use fpgaml.Common.Names.{Name, same, find, put, insert_new}

pub data Rc : Type 0 where
  ml_success ml_error ml_init_error ml_wrong_param ml_route_error ml_hmap_insert_error : Rc
  ml_hmap_not_found_error ml_error_too_many_ndr ml_error_cmdq_released : Rc

-- bitstream_s
pub record Bitstream : Type 0 where
  pub resource_string : Name
  pub offset_address : List ℕ
  pub target : Name
  pub num_accs : ℕ
  pub wgroup_size : ℕ
  pub local_cost : ℕ
  pub remote_cost : ℕ
  pub bitstream : Name
  pub bs_length : ℕ

-- The names of the elements that are looked for; `offset_address i` is "offset_address_" with `i`
-- in decimals.
pub data Tag : Type 0 where
  data_tag header target num_accelerators workgroup_size local_cost remote_cost : Tag
  resource_string n_args body length_tag bitstream : Tag
  offset_address : ℕ → Tag

-- pugixml, in which a missing child is an empty node with an empty value, the C library's numbers,
-- and the files: `read_dir` lists a directory, `map_file` maps a file into memory.
pub record Documents : Type 1 where
  pub Node : Type 0
  pub Mapping : Type 0
  pub child : Node → Tag → Node
  pub child_value : Node → Name
  pub load_file : Name → Option Node
  pub load_string : Mapping → Option Node
  pub atoi : Name → ℤ
  pub strtoul_hex : Name → ℕ
  pub read_dir : Name → Option (List Name)
  pub map_file : Name → Option Mapping

-- The test for special directories and hidden files: equal to ".", to "..", or "." in front.
abbrev pub is_hidden : Name → Bool
is_hidden f = same f (46 ∷ []) || same f (46 ∷ 46 ∷ []) || elim f [ [] ↦ false | c ∷ cs ↦ c == 46 ]

-- `stmp.substr (stmp.size() - 4, 4)` compared with ".xml"; on a shorter name the position wraps and
-- is out of range.
unfoldable pub is_xml : Name → Outcome Bool
is_xml f =
    if ltb (length f) 4
    then throw Exception.out_of_range
    else ok (same (drop (length f - 4) f) (46 ∷ 120 ∷ 109 ∷ 108 ∷ []))

module _ (docs : Documents) where
  open docs use {Node, Mapping}

  pub record BitstreamManager : Type 0 where
    pub kernel_bitstream_struct_map : List (Name × Bitstream)
    pub kernel_mmap_ptr_map : List (Name × Mapping)
    pub working_dir_path : Name
    pub enabled_mmap : Bool
    pub xml_files_list : List Name

  -- working_dir_path + "/" + xml_file
  abbrev pub full_path : BitstreamManager → Name → Name
  full_path m f = m.working_dir_path ++ (47 ∷ f)

  -- The loop of get_xml_files_list (xml_files_vec) over the directory's entries.
  unfoldable pub list_entries : List Name → BitstreamManager → Outcome (Rc × BitstreamManager)
  unfolding is_xml
  list_entries [] m = ok (ml_success, m)
  list_entries (f ∷ fs) m = elim (is_hidden f) [
    | true ↦ list_entries fs m
    | false ↦ is_xml f >>= λ xml. elim xml [
      | false ↦ list_entries fs m
      | true ↦
          let listed = record m { xml_files_list = m.xml_files_list ++ (f ∷ []) } in
          elim m.enabled_mmap [
            | false ↦ list_entries fs listed
            | true ↦ elim (docs.map_file (full_path m f)) [
              | none ↦ ok (ml_error, listed)
              | some p ↦
                  list_entries fs
                    (record listed { kernel_mmap_ptr_map = put f p m.kernel_mmap_ptr_map })
            ]
          ]
    ]
  ]

  unfoldable pub get_xml_files_list : BitstreamManager → Outcome (Rc × BitstreamManager)
  unfolding list_entries
  get_xml_files_list m = elim (docs.read_dir m.working_dir_path) [
    | none ↦ ok (ml_error, m)
    | some entries ↦ list_entries entries m
  ]

  -- The offset addresses of the arguments `i`, ..., `i + n - 1`.
  unfoldable pub offset_addresses : ℕ → ℕ → Node → List ℕ
  offset_addresses zero i head = []
  offset_addresses (suc n) i head =
      docs.strtoul_hex (docs.child_value (docs.child head (offset_address i))) % u32_max
      ∷ offset_addresses n (i + 1) head

  abbrev pub non_negative : ℤ → ℕ
  non_negative (pos n) = n
  non_negative (negsuc n) = 0

  -- What extract_xml_file takes from a document; the bitstream itself only where it is not mapped.
  unfoldable pub parse_bitstream : Bool → Node → Bitstream
  unfolding offset_addresses
  parse_bitstream mmap doc =
      let top = docs.child doc data_tag in
      let head = docs.child top header in
      let text : Tag → Name = λ t. docs.child_value (docs.child head t) in
      let number : Tag → ℕ = λ t. to_unsigned (docs.atoi (text t)) in
      record {
        resource_string = text Tag.resource_string;
        offset_address = offset_addresses (non_negative (docs.atoi (text n_args))) 0 head;
        target = text Tag.target;
        num_accs = number num_accelerators;
        wgroup_size = number workgroup_size;
        local_cost = number Tag.local_cost;
        remote_cost = number Tag.remote_cost;
        bitstream =
            if mmap then [] else docs.child_value (docs.child (docs.child top body) Tag.bitstream);
        bs_length =
            to_unsigned
              (docs.atoi (docs.child_value (docs.child (docs.child top body) length_tag)));
      }

  -- The document of a file: parsed from the mapping, or from the file.
  unfoldable pub load_document : BitstreamManager → Name → Option Node
  load_document m f =
      if m.enabled_mmap
      then elim (find f m.kernel_mmap_ptr_map) [ none ↦ none | some p ↦ docs.load_string p ]
      else docs.load_file (full_path m f)

  unfoldable pub extract_xml_file : BitstreamManager → Name → Rc × BitstreamManager
  unfolding load_document parse_bitstream
  extract_xml_file m f = elim (load_document m f) [
    | none ↦ (ml_error, m)
    | some doc ↦ (
      ml_success,
      record m {
        kernel_bitstream_struct_map =
            put f (parse_bitstream m.enabled_mmap doc) m.kernel_bitstream_struct_map;
      },
    )
  ]

  -- The loop of read_xml_files, which ends at the first file that cannot be parsed.
  unfoldable pub extract_all : List Name → BitstreamManager → Rc × BitstreamManager
  unfolding extract_xml_file
  extract_all [] m = (ml_success, m)
  extract_all (f ∷ fs) m = elim (load_document m f) [
    | none ↦ (ml_error, m)
    | some doc ↦ extract_all fs (extract_xml_file m f).1
  ]

  unfoldable pub read_xml_files : BitstreamManager → Outcome (Rc × BitstreamManager)
  unfolding get_xml_files_list extract_all
  read_xml_files m = get_xml_files_list m >>= λ r. elim r.0 [
    | ml_success ↦ ok (extract_all r.1.xml_files_list r.1)
    | _ ↦ ok (ml_error, r.1)
  ]

  -- BitstreamManager (config), on the values of the keys "BitstreamsPath" and
  -- "EnableBitstreamMmap". What read_xml_files returns is dropped.
  unfoldable pub new_manager : Option Name → Option Bool → Outcome BitstreamManager
  unfolding read_xml_files
  new_manager path mmap =
      read_xml_files (record {
        kernel_bitstream_struct_map = [];
        kernel_mmap_ptr_map = [];
        working_dir_path = elim path [ none ↦ [] | some p ↦ p ];
        enabled_mmap = elim mmap [ none ↦ false | some b ↦ b ];
        xml_files_list = [];
      })
      >>= λ r. ok r.1

  -- The getters: the code, and the value of the reference that is passed, `old` before the call.
  unfoldable pub get_field : {A : Type 0} → (Bitstream → A) → BitstreamManager → Name → A → Rc × A
  get_field field m fname old = elim (find fname m.kernel_bitstream_struct_map) [
    | some b ↦ (ml_success, field b)
    | none ↦ (ml_error, old)
  ]

  unfoldable pub get_resource_string : BitstreamManager → Name → Name → Rc × Name
  unfolding get_field
  get_resource_string = get_field (λ b. b.resource_string)

  unfoldable pub get_offset_addresses : BitstreamManager → Name → List ℕ → Rc × List ℕ
  unfolding get_field
  get_offset_addresses = get_field (λ b. b.offset_address)

  unfoldable pub get_target : BitstreamManager → Name → Name → Rc × Name
  unfolding get_field
  get_target = get_field (λ b. b.target)

  unfoldable pub get_num_accs : BitstreamManager → Name → ℕ → Rc × ℕ
  unfolding get_field
  get_num_accs = get_field (λ b. b.num_accs)

  unfoldable pub get_wg_size : BitstreamManager → Name → ℕ → Rc × ℕ
  unfolding get_field
  get_wg_size = get_field (λ b. b.wgroup_size)

  unfoldable pub get_local_cost : BitstreamManager → Name → ℕ → Rc × ℕ
  unfolding get_field
  get_local_cost = get_field (λ b. b.local_cost)

  unfoldable pub get_remote_cost : BitstreamManager → Name → ℕ → Rc × ℕ
  unfolding get_field
  get_remote_cost = get_field (λ b. b.remote_cost)

  unfoldable pub get_bs_length : BitstreamManager → Name → ℕ → Rc × ℕ
  unfolding get_field
  get_bs_length = get_field (λ b. b.bs_length)

  unfoldable pub get_bit_stream : BitstreamManager → Name → Name → Rc × Name
  unfolding get_field
  get_bit_stream m fname old =
      if m.enabled_mmap
      then elim (find fname m.kernel_mmap_ptr_map) [
        | none ↦ (ml_error, old)
        | some p ↦ elim (docs.load_string p) [
          | none ↦ (ml_error, old)
          | some doc ↦ (
            ml_success,
            docs.child_value (docs.child (docs.child (docs.child doc data_tag) body) Tag.bitstream),
          )
        ]
      ]
      else get_field (λ b. b.bitstream) m fname old

-- check_bitstream_exists of a BitstreamCheck that holds the names.
unfoldable pub check_bitstream_exists : List Name → Name → Bool
check_bitstream_exists [] xml_file_name = false
check_bitstream_exists (n ∷ names) xml_file_name =
    same xml_file_name n || check_bitstream_exists names xml_file_name

-- The loop of WorkGroupSizeCheck (begin, end), on the map that it has built so far.
unfoldable pub insert_sizes : List (Name × Bitstream) → List (Name × ℕ) → List (Name × ℕ)
insert_sizes [] sizes = sizes
insert_sizes ((name, entry) ∷ rest) sizes =
    insert_sizes rest
      (if ltb 0 entry.wgroup_size then insert_new name entry.wgroup_size sizes else sizes)

unfoldable pub check_wg_size : List (Name × ℕ) → Name → ℕ → Bool
check_wg_size sizes xml_file_name wg_size = elim (find xml_file_name sizes) [
  | none ↦ false
  | some size ↦ wg_size == size
]
