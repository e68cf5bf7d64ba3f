-- ===== src/Config.antt =====
-- WeeConfig of cpp/wee_config.h and cpp/wee_config.cc, the extractors of
-- cpp/sched_config_extractors.h, and SchedConfig of cpp/sched_config.h, cpp/sched_config_common.cc
-- and cpp/sched_config_emu.cc. The XML parser and the C library's conversions are a parameter.
pub mod Schedulers
pub mod Samples
mod Tests
use fpgaml.Common.{
  ℕ, zero, suc, ◌+◌, ◌%◌, Bool, true, false, not, if◌then◌else◌, ◌==◌, Option, none, some, List, [],
  ◌∷◌, ◌++◌, Outcome, ok, throw, Exception, ◌>>=◌, size_max, add_u32,
}
use fpgaml.Common.Int.{ℤ, to_unsigned}
use fpgaml.Common.Names.{Name, same}
use fpgaml.EvTimer.{LibEv}
use fpgaml.Scheduler.{Scheduler, new_scheduler}

-- The names that the program asks for.
pub data Key : Type 0 where
  log_level bitstreams_path enable_bitstream_mmap unimem_driver_path : Key
  sched_polling_interval prs board_id_key fpga_id_key pr_id_key : Key

-- pugixml, in which a missing child is an empty node with an empty value, and the conversions.
pub record ConfigXml : Type 1 where
  pub Node : Type 0
  pub Real : Type 0
  pub load_file : Name → Option Node
  pub root_child : Node → Name → Node
  pub child : Node → Key → Node
  pub is_empty : Node → Bool
  pub child_value : Node → Name
  pub elements : Node → List Node
  pub atoi : Name → ℤ
  pub strtoull : Name → ℕ
  pub strtod : Name → Real

-- "./default_config.xml", "ConfigParams" and "true"
abbrev pub default_file : Name
default_file =
    b'.' ∷ b'/' ∷ b'd' ∷ b'e' ∷ b'f' ∷ b'a' ∷ b'u' ∷ b'l' ∷ b't' ∷ b'_' ∷ b'c' ∷ b'o' ∷ b'n' ∷ b'f'
    ∷ b'i' ∷ b'g' ∷ b'.' ∷ b'x' ∷ b'm' ∷ b'l' ∷ []

abbrev pub default_root : Name
default_root =
    b'C' ∷ b'o' ∷ b'n' ∷ b'f' ∷ b'i' ∷ b'g' ∷ b'P' ∷ b'a' ∷ b'r' ∷ b'a' ∷ b'm' ∷ b's' ∷ []

abbrev true_text : Name
true_text = b't' ∷ b'r' ∷ b'u' ∷ b'e' ∷ []

-- tuple_3, which starts with zeros
pub record Tuple3 : Type 0 where
  pub board_id : ℕ
  pub fpga_id : ℕ
  pub pr_id : ℕ

abbrev pub zero_tuple : Tuple3
zero_tuple = record { board_id = 0; fpga_id = 0; pr_id = 0 }

pub record Extractor : Type 0 where
  pub key_name : Key
  pub output_position : ℕ

module _ (xml : ConfigXml) where
  open xml use {Node}

  -- WeeConfig (file_path, root_node): the top node.
  unfoldable pub new_config : Option Name → Option Name → Outcome Node
  new_config file_path root_node =
      elim (xml.load_file (elim file_path [ none ↦ default_file | some p ↦ p ])) [
        | none ↦ throw Exception.runtime_error
        | some doc ↦
            let top = xml.root_child doc (elim root_node [ none ↦ default_root | some r ↦ r ]) in
            if xml.is_empty top then throw Exception.runtime_error else ok top
      ]

  -- get_value_for_key, for each type of value: whether the key is there, and the reference after
  -- the call, which was `old`.
  unfoldable pub get_int : Node → Key → ℤ → Bool × ℤ
  get_int top key old =
      let n = xml.child top key in
      if xml.is_empty n then (false, old) else (true, xml.atoi (xml.child_value n))

  unfoldable pub get_double : Node → Key → xml.Real → Bool × xml.Real
  get_double top key old =
      let n = xml.child top key in
      if xml.is_empty n then (false, old) else (true, xml.strtod (xml.child_value n))

  unfoldable pub get_string : Node → Key → Option Name → Bool × Option Name
  get_string top key old =
      let n = xml.child top key in
      if xml.is_empty n then (false, old) else (true, some (xml.child_value n))

  unfoldable pub get_bool : Node → Key → Bool → Bool × Bool
  get_bool top key old =
      let n = xml.child top key in
      if xml.is_empty n then (false, old) else (true, same (xml.child_value n) true_text)

  unfoldable pub set_tuple_value : Tuple3 → ℕ → Name → Tuple3
  set_tuple_value t index value =
      if index == 0
      then record t { board_id = xml.strtoull value % size_max }
      else if index == 1
      then record t { fpga_id = to_unsigned (xml.atoi value) }
      else if index == 2
      then record t { pr_id = to_unsigned (xml.atoi value) }
      else t

  abbrev is_blank : Name → Bool
  is_blank [] = true
  is_blank (c ∷ cs) = false

  -- The extractors at one element of the array: an empty value is passed over.
  unfoldable pub extract : List Extractor → Node → Tuple3 → Tuple3
  unfolding set_tuple_value
  extract [] current_child output = output
  extract (ex ∷ extractors) current_child output =
      let value = xml.child_value (xml.child current_child ex.key_name) in
      extract extractors current_child
        (if is_blank value then output else set_tuple_value output ex.output_position value)

  unfoldable pub extract_all : List Extractor → List Node → List Tuple3
  unfolding extract
  extract_all extractors [] = []
  extract_all extractors (n ∷ nodes) =
      extract extractors n zero_tuple ∷ extract_all extractors nodes

  -- get_values_for_key
  unfoldable pub get_values_for_key : Node → Key → List Extractor → List Tuple3 → Bool × List Tuple3
  unfolding extract_all
  get_values_for_key top key extractors values =
      let array_node = xml.child top key in
      if xml.is_empty array_node
      then (false, values)
      else (true, values ++ extract_all extractors (xml.elements array_node))

  -- The extractors of SchedConfig.
  abbrev pub pr_extractors : List Extractor
  pr_extractors =
      record { key_name = board_id_key; output_position = 0 }
      ∷ record { key_name = fpga_id_key; output_position = 1 }
      ∷ record { key_name = pr_id_key; output_position = 2 }
      ∷ []

  module _ (ev : LibEv) where
    pub record SchedConfig : Type 0 where
      pub opcode : ℕ
      pub schedulers : List (Scheduler ev)

    -- The loop of SchedConfig (config), which ends where a scheduler throws.
    unfoldable pub create_schedulers : List Tuple3 → Outcome (List (Scheduler ev))
    create_schedulers [] = ok []
    create_schedulers (ids ∷ rest) = new_scheduler ev ids.board_id ids.fpga_id ids.pr_id >>= λ s.
        create_schedulers rest >>= λ ss. ok (s ∷ ss)

    -- SchedConfig (config). The polling interval, which the simulated scheduler does not use, and
    -- the drivers, which the simulator does not open, are left out.
    unfoldable pub new_sched_config : Node → Outcome SchedConfig
    unfolding create_schedulers get_values_for_key
    new_sched_config top =
        create_schedulers (get_values_for_key top prs pr_extractors []).1 >>= λ ss.
        ok (record { opcode = 0; schedulers = ss })

    unfoldable pub get_next_opcode : SchedConfig → ℕ × SchedConfig
    get_next_opcode c = (c.opcode, record c { opcode = add_u32 c.opcode 1 })
