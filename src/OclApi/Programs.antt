-- ===== src/OclApi/Programs.antt =====
-- The functions on programs: their creation from a source, whose first line names the bitstream's
-- XML file, the build, and the build's log.
use fpgaml.Common.{
  ℕ, suc, ◌+◌, ◌-◌, Bool, true, false, not, ◌&&◌, if◌then◌else◌, ltb, leb, ◌==◌, Option, none, some,
  List, [], ◌∷◌, ◌++◌, length, set, take, drop, replicate, Outcome, ok, fault, ◌>>=◌, write_cell,
  sub_size,
}
use fpgaml.Common.Names.{Name}
use fpgaml.Objects.{
  ClCode, cl_success, cl_invalid_value, cl_invalid_context, cl_invalid_program,
  cl_build_program_failure, load, ref_cnt_down, new_counter,
}
use fpgaml.Bitstreams.{check_bitstream_exists}
use fpgaml.OclApi.{Api, Program}

-- X_LEN
abbrev pub x_len : ℕ
x_len = 64

-- strlen of what is in memory from a pointer on, which is undefined without a 0.
unfoldable pub strlen : List ℕ → Outcome ℕ
strlen [] = fault
strlen (c ∷ cs) = elim (c == 0) [ true ↦ ok 0 | false ↦ strlen cs >>= λ n. ok (suc n) ]

-- The characters before the first 0.
abbrev pub c_string : List ℕ → List ℕ
c_string [] = []
c_string (c ∷ cs) = let rest = c_string cs in if c == 0 then [] else c ∷ rest

-- The loop of clCreateProgramWithSource from the index `i` on, where `text` is what is in memory from
-- that character on.
unfoldable pub copy_name : List ℕ → ℕ → ℕ → ℕ → List ℕ → Outcome (List ℕ)
copy_name [] i first_line_len copy_counter xml_file_name = fault
copy_name (cp ∷ text) i first_line_len copy_counter xml_file_name =
    elim (not (cp == b'\n') && (ltb i (x_len - 1) && ltb i first_line_len)) [
      | false ↦ ok xml_file_name
      | true ↦ elim (not (cp == b'\n') && (not (cp == b'/') && not (cp == b' '))) [
        | false ↦ copy_name text (i + 1) first_line_len copy_counter xml_file_name
        | true ↦ write_cell xml_file_name copy_counter cp >>= λ b.
            copy_name text (i + 1) first_line_len (copy_counter + 1) b
      ]
    ]

-- clCreateProgramWithSource. `strings` is the array and its first element, each there or not, and
-- `first_length` the first of the lengths, if there are any. The result is the program, what is
-- stored in `*errcode_ret`, and the state; that place must be there only where a check fails.
unfoldable pub create_program_with_source :
    Option ℕ
    → ℕ
    → Option (Option (List ℕ))
    → Option ℕ
    → Bool
    → Api
    → Outcome (Option ℕ × Option ClCode × Api)
unfolding strlen copy_name
create_program_with_source context count strings first_length errcode_ret a =
    let refuse : ClCode → Outcome (Option ℕ × Option ClCode × Api) =
      λ code. if errcode_ret then ok (none, some code, a) else fault in
    elim (if count == 0 then none else (elim strings [ none ↦ none | some s ↦ s ])) [
      | none ↦ refuse cl_invalid_value
      | some text ↦ elim context [
        | none ↦ refuse cl_invalid_context
        | some ctx ↦
            (elim first_length [
              | none ↦ strlen text
              | some n ↦ if n == 0 then strlen text else ok n
            ])
            >>= λ first_line_len.
                copy_name text 0 first_line_len 0 (replicate x_len 0) >>= λ xml_file_name. ok (
                  some (length a.programs),
                  none,
                  record a {
                    programs =
                        a.programs
                        ++ (some (record {
                          counter = new_counter;
                          xml_name = c_string xml_file_name;
                          build_log = [];
                          context = ctx;
                        })
                            ∷ []);
                  },
                )
      ]
    ]

-- "ERROR No bitstream file ", " exists", "Bitstream " and " is present in bitstream manager"
abbrev missing_text : Name
missing_text =
    b'E' ∷ b'R' ∷ b'R' ∷ b'O' ∷ b'R' ∷ b' ' ∷ b'N' ∷ b'o' ∷ b' ' ∷ b'b' ∷ b'i' ∷ b't' ∷ b's' ∷ b't'
    ∷ b'r' ∷ b'e' ∷ b'a' ∷ b'm' ∷ b' ' ∷ b'f' ∷ b'i' ∷ b'l' ∷ b'e' ∷ b' ' ∷ []

abbrev exists_text : Name
exists_text = b' ' ∷ b'e' ∷ b'x' ∷ b'i' ∷ b's' ∷ b't' ∷ b's' ∷ []

abbrev bitstream_text : Name
bitstream_text = b'B' ∷ b'i' ∷ b't' ∷ b's' ∷ b't' ∷ b'r' ∷ b'e' ∷ b'a' ∷ b'm' ∷ b' ' ∷ []

abbrev present_text : Name
present_text =
    b' ' ∷ b'i' ∷ b's' ∷ b' ' ∷ b'p' ∷ b'r' ∷ b'e' ∷ b's' ∷ b'e' ∷ b'n' ∷ b't' ∷ b' ' ∷ b'i' ∷ b'n'
    ∷ b' ' ∷ b'b' ∷ b'i' ∷ b't' ∷ b's' ∷ b't' ∷ b'r' ∷ b'e' ∷ b'a' ∷ b'm' ∷ b' ' ∷ b'm' ∷ b'a'
    ∷ b'n' ∷ b'a' ∷ b'g' ∷ b'e' ∷ b'r' ∷ []

-- ml_check_bitstream_exists
unfoldable pub program_has_bitstream : List Name → Program → Bool
program_has_bitstream bits_check p = check_bitstream_exists bits_check p.xml_name

-- clBuildProgram, whose program is not checked for NULL
unfoldable pub build_program : Option ℕ → Api → Outcome (ClCode × Api)
unfolding program_has_bitstream
build_program none a = fault
build_program (some i) a = load a.programs i >>= λ p.
    let found = program_has_bitstream a.bits_check p in
    let log =
      if found
      then bitstream_text ++ (p.xml_name ++ present_text)
      else missing_text ++ (p.xml_name ++ exists_text) in
    ok (
      if found then cl_success else cl_build_program_failure,
      record a { programs = set a.programs i (some (record p { build_log = log })) },
    )

-- cl_program_build_info
pub data BuildInfo : Type 0 where
  program_build_log program_build_status program_build_options program_binary_type : BuildInfo
  other_build_info : BuildInfo

-- memset and strncpy of `n` bytes at the start of an array; `source` has no 0 within `n`.
abbrev pub overwrite : List ℕ → List ℕ → Outcome (List ℕ)
overwrite source target =
    if leb (length source) (length target)
    then ok (source ++ drop (length source) target)
    else fault

-- clGetProgramBuildInfo: the code, if one is returned, the array after the call, and what is stored
-- in `*param_value_size_ret`.
unfoldable pub get_program_build_info :
    Option ℕ
    → BuildInfo
    → ℕ
    → Option (List ℕ)
    → Bool
    → Api
    → Outcome (Option ClCode × Option (List ℕ) × Option ℕ)
get_program_build_info none param_name param_value_size param_value param_value_size_ret a =
    ok (some cl_invalid_program, param_value, none)
get_program_build_info (some i) program_build_log param_value_size param_value param_value_size_ret
      a =
    load a.programs i >>= λ p.
    if ltb param_value_size 1 && param_value_size_ret
    then ok (some cl_success, param_value, some (length p.build_log))
    else (elim param_value [
      | none ↦ ok (some cl_invalid_value, none, none)
      | some target ↦
          let log_size = length p.build_log in
          let room = sub_size param_value_size 1 in
          let copy_size = if ltb room log_size then room else log_size in
          overwrite (replicate param_value_size 0) target >>= λ cleared.
          overwrite (take copy_size p.build_log) cleared >>= λ copied. ok (none, some copied, none)
    ])
get_program_build_info (some i) program_build_status param_value_size param_value
      param_value_size_ret a =
    ok (none, param_value, none)
get_program_build_info (some i) program_build_options param_value_size param_value
      param_value_size_ret a =
    ok (none, param_value, none)
get_program_build_info (some i) program_binary_type param_value_size param_value
      param_value_size_ret a =
    ok (none, param_value, none)
get_program_build_info (some i) other_build_info param_value_size param_value param_value_size_ret
      a =
    ok (some cl_invalid_value, param_value, none)

-- clReleaseProgram, which returns a code only where there is no program
unfoldable pub release_program : Option ℕ → Api → Outcome (Option ClCode × Api)
unfolding ref_cnt_down
release_program none a = ok (some cl_invalid_program, a)
release_program (some i) a = load a.programs i >>= λ p. ok (
  none,
  record a {
    programs =
        set a.programs i (elim (ref_cnt_down p.counter) [
          | none ↦ none
          | some n ↦ some (record p { counter = n })
        ]);
  },
)
