-- ===== src/OclApi/Names.antt =====
-- The name that clCreateProgramWithSource takes from the first line of a source.
use mathlib.Core.Path.{subst}
use mathlib.Core.List.{append_assoc}
use fpgaml.Common.{
  ℕ, zero, suc, ◌+◌, ◌-◌, ◌<◌, ◌≤◌, ◌≡◌, ◌∙◌, ◌≢◌, ◌⊎◌, refl, sym, ap, inl, inr, Bool, true, false,
  ◌||◌, if◌then◌else◌, ◌==◌, none, some, List, [], ◌∷◌, ◌++◌, length, set, replicate, length-append,
  append_nil, length-replicate, All, ok, fault, write_cell, arith, Bool-cases,
}
use fpgaml.Common.Names.{Name}
use fpgaml.Objects.{new_counter}
use fpgaml.OclApi.{Api, Program}
use fpgaml.OclApi.Programs.{x_len, strlen, c_string, copy_name, create_program_with_source}

-- The first line of a text, of at most `n` characters.
abbrev pub line : ℕ → List ℕ → List ℕ
line n [] = []
line zero (c ∷ cs) = []
line (suc n) (c ∷ cs) = let rest = line n cs in if c == b'\n' then [] else c ∷ rest

-- A text without its slashes and blanks.
abbrev pub keep : List ℕ → List ℕ
keep [] = []
keep (c ∷ cs) = let rest = keep cs in if c == b'/' || c == b' ' then rest else c ∷ rest

abbrev pub IsPositive : ℕ → Type 0
IsPositive c = 0 < c

-- A character that can be in the name of a file in the directory of the bitstreams.
abbrev pub IsPlain : ℕ → Type 0
IsPlain c = (0 < c) × (c ≢ b'\n') × (c ≢ b'/') × (c ≢ b' ')

-- A name in the array of 64 characters, which was cleared.
abbrev pad : Name → List ℕ
pad name = name ++ replicate (x_len - length name) 0

set-append : (xs ys : List ℕ) (y v : ℕ) → set (xs ++ (y ∷ ys)) (length xs) v ≡ xs ++ (v ∷ ys)
set-append [] ys y v = refl
set-append (x ∷ xs) ys y v = ap (◌∷◌ x) (set-append xs ys y v)

length-pad : (name : Name) → length name < x_len → length (pad name) ≡ x_len
length-pad name lt =
    let a = length-append name (replicate (x_len - length name) 0) in
    let b = length-replicate {A = ℕ} (x_len - length name) 0 in omega (arith, a, b)

write_pad :
    (name : Name) (c : ℕ)
    → length name < x_len
    → write_cell (pad name) (length name) c ≡ ok (pad (name ++ (c ∷ [])))
write_pad name c lt =
    let left = x_len - suc (length name) in
    let e : x_len - length name ≡ suc left = omega arith in
    let l = length-append name (c ∷ []) in
    let e' : left ≡ x_len - length (name ++ (c ∷ [])) = omega (arith, l) in
    let written : set (pad name) (length name) c ≡ pad (name ++ (c ∷ [])) =
      ap (λ k. set (name ++ replicate k 0) (length name) c) e
      ∙ set-append name (replicate left 0) 0 c
      ∙ sym (append_assoc name (c ∷ []) (replicate left 0))
      ∙ ap (λ k. (name ++ (c ∷ [])) ++ replicate k 0) e' in
    let long = length-pad name lt in ground (arith, long, written, lt)

copy_stops :
    (c : ℕ) (text : List ℕ) (i len k : ℕ) (b : List ℕ)
    → (c ≡ b'\n') ⊎ ((63 ≤ i) ⊎ (len ≤ i))
    → copy_name (c ∷ text) i len k b ≡ ok b
unfolding copy_name
copy_stops c text i len k b h = ground (arith, h)

copy_skips :
    (c : ℕ) (text : List ℕ) (i len k : ℕ) (b : List ℕ)
    → (c ≡ b'/') ⊎ (c ≡ b' ')
    → i < 63
    → i < len
    → copy_name (c ∷ text) i len k b ≡ copy_name text (i + 1) len k b
unfolding copy_name
copy_skips c text i len k b h lt lt' = ground (arith, h, lt, lt')

copy_copies :
    (c : ℕ) (text : List ℕ) (i len k : ℕ) (b b' : List ℕ)
    → c ≢ b'\n'
    → c ≢ b'/'
    → c ≢ b' '
    → i < 63
    → i < len
    → write_cell b k c ≡ ok b'
    → copy_name (c ∷ text) i len k b ≡ copy_name text (i + 1) len (k + 1) b'
unfolding copy_name
copy_copies c text i len k b b' n1 n2 n3 lt lt' w = ground (arith, n1, n2, n3, lt, lt', w)

line_ends : (n c : ℕ) (s : List ℕ) → (c == b'\n') ≡ true → [] ≡ keep (line (suc n) (c ∷ s))
line_ends n c s e = ground (arith, e)

line_drops :
    (n c : ℕ) (s : List ℕ)
    → (c == b'\n') ≡ false
    → (c == b'/' || c == b' ') ≡ true
    → keep (line n s) ≡ keep (line (suc n) (c ∷ s))
line_drops n c s nl e = ground (arith, nl, e)

line_keeps :
    (n c : ℕ) (s : List ℕ)
    → (c == b'\n') ≡ false
    → (c == b'/' || c == b' ') ≡ false
    → c ∷ keep (line n s) ≡ keep (line (suc n) (c ∷ s))
line_keeps n c s nl e = ground (arith, nl, e)

-- The loop on a source `s`, after which there is a 0: it copies the rest of the first line, up to
-- the length of the array, without the slashes and blanks.
copy_name_lem :
    (n : ℕ) (s rest : List ℕ) (name : Name) (i len : ℕ)
    → i + n ≡ 63
    → i + length s ≡ len
    → length name ≤ i
    → copy_name (s ++ (0 ∷ rest)) i len (length name) (pad name)
      ≡ ok (pad (name ++ keep (line n s)))
copy_name_lem n [] rest name i len e e' le =
    copy_stops 0 rest i len (length name) (pad name) (inr (inr (omega arith)))
    ∙ ap (λ x. ok (pad x)) (sym (append_nil name))
copy_name_lem zero (c ∷ s) rest name i len e e' le =
    copy_stops c (s ++ (0 ∷ rest)) i len (length name) (pad name) (inr (inl (omega arith)))
    ∙ ap (λ x. ok (pad x)) (sym (append_nil name))
copy_name_lem (suc n) (c ∷ s) rest name i len e e' le = elim (Bool-cases (c == b'\n')) [
  | inl nl ↦
      copy_stops c (s ++ (0 ∷ rest)) i len (length name) (pad name) (inl (ground (arith, nl)))
      ∙ ap (λ x. ok (pad x)) (sym (append_nil name) ∙ ap (◌++◌ name) (line_ends n c s nl))
  | inr nl ↦ elim (Bool-cases (c == b'/' || c == b' ')) [
    | inl drop ↦
        copy_skips c (s ++ (0 ∷ rest)) i len (length name) (pad name) (ground (arith, drop))
          (omega arith) (omega arith)
        ∙ copy_name_lem n s rest name (i + 1) len (omega arith) (omega arith) (omega arith)
        ∙ ap (λ x. ok (pad (name ++ x))) (line_drops n c s nl drop)
    | inr plain ↦
        let l = length-append name (c ∷ []) in
        let ih =
          copy_name_lem n s rest (name ++ (c ∷ [])) (i + 1) len (omega arith) (omega arith)
            (omega (arith, l)) in
        copy_copies c (s ++ (0 ∷ rest)) i len (length name) (pad name) (pad (name ++ (c ∷ [])))
          (ground (arith, nl)) (ground (arith, plain)) (ground (arith, plain)) (omega arith)
          (omega arith) (write_pad name c (omega arith))
        ∙ ap (λ k. copy_name (s ++ (0 ∷ rest)) (i + 1) len k (pad (name ++ (c ∷ [])))) (sym l)
        ∙ ih
        ∙ ap (λ x. ok (pad x))
            (append_assoc name (c ∷ []) (keep (line n s))
              ∙ ap (◌++◌ name) (line_keeps n c s nl plain))
  ]
]

strlen_lem : (s rest : List ℕ) → All IsPositive s → strlen (s ++ (0 ∷ rest)) ≡ ok (length s)
unfolding strlen
strlen_lem [] rest p = refl
strlen_lem (c ∷ s) rest (pos, p) = ground (arith, pos, strlen_lem s rest p)

length-keep-line : (n : ℕ) (s : List ℕ) → length (keep (line n s)) ≤ n
length-keep-line n [] = omega arith
length-keep-line zero (c ∷ s) = omega arith
length-keep-line (suc n) (c ∷ s) = ground (arith, length-keep-line n s)

keep-line-IsPlain : (n : ℕ) (s : List ℕ) → All IsPositive s → All IsPlain (keep (line n s))
keep-line-IsPlain n [] p = tt
keep-line-IsPlain zero (c ∷ s) p = tt
keep-line-IsPlain (suc n) (c ∷ s) (pos, p) = elim (Bool-cases (c == b'\n')) [
  | inl nl ↦ subst (All IsPlain) (line_ends n c s nl) tt
  | inr nl ↦ elim (Bool-cases (c == b'/' || c == b' ')) [
    | inl drop ↦ subst (All IsPlain) (line_drops n c s nl drop) (keep-line-IsPlain n s p)
    | inr plain ↦ subst (All IsPlain) (line_keeps n c s nl plain) (
      (pos, ground (arith, nl), ground (arith, plain), ground (arith, plain)),
      keep-line-IsPlain n s p,
    )
  ]
]

c_string-pad :
    (name : Name) (k : ℕ) → All IsPlain name → c_string (name ++ replicate (suc k) 0) ≡ name
c_string-pad [] k p = refl
c_string-pad (c ∷ name) k ((pos, _, _, _), p) = ground (arith, pos, c_string-pad name k p)

-- The program of a name, without a log.
abbrev pub program_of : Name → ℕ → Program
program_of name context = record {
  counter = new_counter;
  xml_name = name;
  build_log = [];
  context = context;
}

create_steps :
    (ctx count n : ℕ) (text file_name : List ℕ) (errcode_ret : Bool) (a : Api)
    → 0 < count
    → strlen text ≡ ok n
    → copy_name text 0 n 0 (pad []) ≡ ok file_name
    → create_program_with_source (some ctx) count (some (some text)) none errcode_ret a
      ≡ ok (
        some (length a.programs),
        none,
        record a { programs = a.programs ++ (some (program_of (c_string file_name) ctx) ∷ []) },
      )
unfolding create_program_with_source
create_steps ctx count n text file_name errcode_ret a pos e1 e2 = ground (arith, pos, e1, e2)

-- A source that ends with a 0, without lengths, always gives a program. Its XML name is the first
-- line of the source, of which at most 63 characters count, without the slashes and blanks: so it
-- is a plain file name that fits the array of 64 characters.
pub create_program_with_source_lem :
    (ctx count : ℕ) (s rest : List ℕ) (errcode_ret : Bool) (a : Api)
    → 0 < count
    → All IsPositive s
    → (create_program_with_source
          (some ctx)
          count
          (some (some (s ++ (0 ∷ rest))))
          none
          errcode_ret
          a
        ≡ ok (
          some (length a.programs),
          none,
          record a { programs = a.programs ++ (some (program_of (keep (line 63 s)) ctx) ∷ []) },
        ))
      × All IsPlain (keep (line 63 s))
      × (length (keep (line 63 s)) < 64)
create_program_with_source_lem ctx count s rest errcode_ret a pos p =
    let name = keep (line 63 s) in
    let plain = keep-line-IsPlain 63 s p in
    let short = length-keep-line 63 s in
    let e = copy_name_lem 63 s rest [] 0 (length s) refl (omega arith) (omega arith) in
    let left : x_len - length name ≡ suc (63 - length name) = omega (arith, short) in
    let cut : c_string (pad name) ≡ name =
      ap (λ k. c_string (name ++ replicate k 0)) left
      ∙ c_string-pad name (63 - length name) plain in
    (
      create_steps ctx count (length s) (s ++ (0 ∷ rest)) (pad name) errcode_ret a pos
            (strlen_lem s rest p) e
          ∙ ap
              (λ x. ok (
                some (length a.programs),
                none,
                record a { programs = a.programs ++ (some (program_of x ctx) ∷ []) },
              ))
              cut,
      plain,
      omega (arith, short),
    )

copy_overruns : (i len k : ℕ) (b : List ℕ) → copy_name [] i len k b ≡ fault
unfolding copy_name
copy_overruns i len k b = refl

copy_name_overruns :
    (s : List ℕ) (name : Name) (i len : ℕ)
    → All (λ c. c ≢ b'\n') s
    → i + length s ≡ len
    → len ≤ 63
    → length name ≤ i
    → copy_name s i len (length name) (pad name) ≡ fault
copy_name_overruns [] name i len p e small le = copy_overruns i len (length name) (pad name)
copy_name_overruns (c ∷ s) name i len (nl, p) e small le =
    elim (Bool-cases (c == b'/' || c == b' ')) [
      | inl drop ↦
          copy_skips c s i len (length name) (pad name) (ground (arith, drop)) (omega arith)
            (omega arith)
          ∙ copy_name_overruns s name (i + 1) len p (omega arith) small (omega arith)
      | inr plain ↦
          let l = length-append name (c ∷ []) in
          copy_copies c s i len (length name) (pad name) (pad (name ++ (c ∷ []))) nl
            (ground (arith, plain)) (ground (arith, plain)) (omega arith) (omega arith)
            (write_pad name c (omega arith))
          ∙ ap (λ k. copy_name s (i + 1) len k (pad (name ++ (c ∷ [])))) (sym l)
          ∙ copy_name_overruns s (name ++ (c ∷ [])) (i + 1) len p (omega arith) small
              (omega (arith, l))
    ]

-- A source of at most 63 characters in one line, which is given with its length and has nothing
-- after it, is read past its end: the loop looks at a character before it compares the index with
-- the length.
pub create_program_with_source_overruns :
    (ctx count : ℕ) (s : List ℕ) (errcode_ret : Bool) (a : Api)
    → 0 < count
    → All (λ c. c ≢ b'\n') s
    → 0 < length s
    → length s ≤ 63
    → create_program_with_source (some ctx) count (some (some s)) (some (length s)) errcode_ret a
      ≡ fault
unfolding create_program_with_source
create_program_with_source_overruns ctx count s errcode_ret a pos p long small =
    let e : copy_name s 0 (length s) 0 (pad []) ≡ fault =
      copy_name_overruns s [] 0 (length s) p (omega arith) small (omega arith) in
    ground (arith, pos, long, e)
