-- ===== src/Global/Tests.antt =====
-- The theorems on the start of the program at inputs.
use fpgaml.Common.{◌≡◌, refl, false, some, none, List, [], ◌∷◌, ok, arith}
use fpgaml.Common.Int.{ℤ, pos}
use fpgaml.Common.Names.{Name}
use fpgaml.AlgoSimple.{AlgoSimple}
use fpgaml.World.{World}
use fpgaml.Bitstreams.{Documents, BitstreamManager}
use fpgaml.Bitstreams
use fpgaml.Unimem
use fpgaml.Config.{
  Tuple3, default_root, new_config, get_string, get_bool, bitstreams_path, enable_bitstream_mmap,
  unimem_driver_path, get_values_for_key, prs, pr_extractors,
}
use fpgaml.Config.Schedulers.{ids_of}
use fpgaml.Config.Samples.{digits}
use fpgaml.Global.{Global, new_global}
use fpgaml.Global.Ready.{IsReady, new_global-IsReady}
use fpgaml.Samples.{flags, two_files}

-- A directory without files.
abbrev no_files : Documents
no_files = record two_files { read_dir = λ d. some [] }

abbrev bits : BitstreamManager no_files
bits = record {
  kernel_bitstream_struct_map = [];
  kernel_mmap_ptr_map = [];
  working_dir_path = b'1' ∷ [];
  enabled_mmap = false;
  xml_files_list = [];
}

abbrev opens : Name → ℤ
opens path = pos 3

abbrev one_region : List Tuple3
one_region = record { board_id = 0; fpga_id = 1; pr_id = 1 } ∷ []

top_found : new_config digits none (some default_root) ≡ ok 1
unfolding new_config
top_found = refl

regions : (get_values_for_key digits 1 prs (pr_extractors digits) []).1 ≡ one_region
unfolding get_values_for_key
regions = refl

no_bits :
    Bitstreams.new_manager no_files
      (get_string digits 1 bitstreams_path none).1
      (some (get_bool digits 1 enable_bitstream_mmap false).1)
    ≡ ok bits
unfolding Bitstreams.new_manager get_string get_bool
no_bits = refl

driver_opened :
    Unimem.new_manager (get_string digits 1 unimem_driver_path none).1 opens ≡ ok (pos 3)
unfolding Unimem.new_manager get_string
driver_opened = refl

new_global-IsReady_example :
    (g : Global flags no_files digits) × (new_global flags no_files digits none opens ≡ ok g)
    × IsReady flags no_files digits g (ids_of one_region)
new_global-IsReady_example =
    new_global-IsReady flags no_files digits none opens 1 one_region bits (pos 3) top_found regions
      (omega arith, tt) (omega arith) (omega arith) no_bits driver_opened
