-- ===== src/OclApi/BuildLog.antt =====
-- What clGetProgramBuildInfo gives of the log of clBuildProgram.
use fpgaml.Common.{
  ℕ, zero, suc, ◌-◌, ◌<◌, ◌≤◌, ◌≡◌, ◌∙◌, ◌^◌, refl, sym, ap, Bool, true, if◌then◌else◌, ltb, none,
  some, List, [], ◌∷◌, ◌++◌, length, take, drop, replicate, length-append, length-replicate, ok,
  arith, sub_size,
}
use fpgaml.Common.Names.{Name}
use fpgaml.Objects.{cl_success, load}
use fpgaml.OclApi.{Api, Program}
use fpgaml.OclApi.Programs.{get_program_build_info, program_build_log, overwrite}

length-take : (n : ℕ) (xs : List ℕ) → length (take n xs) ≤ n
length-take zero xs = omega arith
length-take (suc n) [] = omega arith
length-take (suc n) (x ∷ xs) = omega (arith, length-take n xs)

take_all : (n : ℕ) (xs : List ℕ) → length xs ≤ n → take n xs ≡ xs
take_all zero [] le = refl
take_all zero (x ∷ xs) le = absurd (omega arith)
take_all (suc n) [] le = refl
take_all (suc n) (x ∷ xs) le = ap (◌∷◌ x) (take_all n xs (omega arith))

drop-replicate :
    (k n : ℕ) (rest : List ℕ) → k ≤ n → drop k (replicate n 0 ++ rest) ≡ replicate (n - k) 0 ++ rest
drop-replicate zero n rest le = ap (λ m. replicate m 0 ++ rest) (omega arith)
drop-replicate (suc k) zero rest le = absurd (omega arith)
drop-replicate (suc k) (suc n) rest le =
    drop-replicate k n rest (omega arith) ∙ ap (λ m. replicate m 0 ++ rest) (omega arith)

-- As much of the log as fits before a 0, the zeros, and the rest of the array.
abbrev pub filled : Name → ℕ → List ℕ → List ℕ
filled log n target =
    take (n - 1) log ++ (replicate (n - length (take (n - 1) log)) 0 ++ drop n target)

overwrite_fits :
    (source target : List ℕ)
    → length source ≤ length target
    → overwrite source target ≡ ok (source ++ drop (length source) target)
overwrite_fits source target le = ground (arith, le)

length-drop : (n : ℕ) (xs : List ℕ) → length (drop n xs) ≡ length xs - n
length-drop zero xs = omega arith
length-drop (suc n) [] = omega arith
length-drop (suc n) (x ∷ xs) = omega (arith, length-drop n xs)

log_copied :
    (log target : List ℕ) (n : ℕ)
    → 0 < n
    → n ≤ length target
    → overwrite (take (n - 1) log) (replicate n 0 ++ drop n target) ≡ ok (filled log n target)
log_copied log target n pos le =
    let short = length-take (n - 1) log in
    let a = length-append (replicate n 0) (drop n target) in
    let b = length-replicate {A = ℕ} n 0 in
    overwrite_fits (take (n - 1) log) (replicate n 0 ++ drop n target) (omega (arith, short, a, b))
    ∙ ap (λ x. ok (take (n - 1) log ++ x))
        (drop-replicate (length (take (n - 1) log)) n (drop n target) (omega (arith, short)))

cleared :
    (target : List ℕ) (n : ℕ)
    → n ≤ length target
    → overwrite (replicate n 0) target ≡ ok (replicate n 0 ++ drop n target)
cleared target n le =
    let b = length-replicate {A = ℕ} n 0 in
    overwrite_fits (replicate n 0) target (omega (arith, b))
    ∙ ap (λ k. ok (replicate n 0 ++ drop k target)) b

copy_size :
    (log : List ℕ) (n : ℕ) → take (if ltb n (length log) then n else length log) log ≡ take n log
copy_size log n =
    let e = take_all n log in
    let f = take_all (length log) log (omega arith) in ground (arith, e, f)

room_for : (n : ℕ) → 0 < n → n < 2 ^ 64 → sub_size n 1 ≡ n - 1
room_for n pos small = omega arith

-- In an array with room for `n` characters, one at least, the query for the log stores its first
-- n - 1 characters, then zeros up to the n-th, and touches nothing after that. No code is returned.
pub get_program_build_info_lem :
    (i n : ℕ) (target : List ℕ) (size_ret : Bool) (a : Api) (p : Program)
    → load a.programs i ≡ ok p
    → 0 < n
    → n < 2 ^ 64
    → n ≤ length target
    → get_program_build_info (some i) program_build_log n (some target) size_ret a
      ≡ ok (none, some (filled p.build_log n target), none)
unfolding get_program_build_info
get_program_build_info_lem i n target size_ret a p at pos small le =
    let room = room_for n pos small in
    let wiped = cleared target n le in
    let size : take
          (if ltb (sub_size n 1) (length p.build_log) then sub_size n 1 else length p.build_log)
          p.build_log
        ≡ take (n - 1) p.build_log =
      ap (λ k. take (if ltb k (length p.build_log) then k else length p.build_log) p.build_log) room
      ∙ copy_size p.build_log (n - 1) in
    let copied = log_copied p.build_log target n pos le in
    ground (arith, at, pos, wiped, size, copied)

take-append : (xs ys : List ℕ) → take (length xs) (xs ++ ys) ≡ xs
take-append [] [] = refl
take-append [] (y ∷ ys) = refl
take-append (x ∷ xs) ys = ap (◌∷◌ x) (take-append xs ys)

drop_all : (xs : List ℕ) → drop (length xs) xs ≡ []
drop_all [] = refl
drop_all (x ∷ xs) = drop_all xs

filled_short :
    (log : Name) (c : ℕ) (target : List ℕ)
    → length target ≡ suc (length log)
    → filled (log ++ (c ∷ [])) (length target) target ≡ log ++ (0 ∷ [])
filled_short log c target e =
    let k : length target - 1 ≡ length log = omega (arith, e) in
    let t : take (length target - 1) (log ++ (c ∷ [])) ≡ log =
      ap (λ j. take j (log ++ (c ∷ []))) k ∙ take-append log (c ∷ []) in
    let one : length target - length log ≡ 1 = omega (arith, e) in
    ap (λ x. x ++ (replicate (length target - length x) 0 ++ drop (length target) target)) t
    ∙ ap (λ j. log ++ (replicate j 0 ++ drop (length target) target)) one
    ∙ ap (λ x. log ++ (0 ∷ x)) (drop_all target)

size_query :
    (i : ℕ) (a : Api) (p : Program)
    → load a.programs i ≡ ok p
    → get_program_build_info (some i) program_build_log 0 none true a
      ≡ ok (some cl_success, none, some (length p.build_log))
unfolding get_program_build_info
size_query i a p at = ground (arith, at)

-- A caller that asks for the size of the log, and then for the log at that size, gets it without its
-- last character, which a 0 stands for.
pub get_program_build_info_truncates :
    (i c : ℕ) (log : Name) (target : List ℕ) (a : Api) (p : Program)
    → load a.programs i ≡ ok p
    → p.build_log ≡ log ++ (c ∷ [])
    → length p.build_log < 2 ^ 64
    → length target ≡ length p.build_log
    → (get_program_build_info (some i) program_build_log 0 none true a
        ≡ ok (some cl_success, none, some (length target)))
      × (get_program_build_info (some i) program_build_log (length target) (some target) true a
          ≡ ok (none, some (log ++ (0 ∷ [])), none))
get_program_build_info_truncates i c log target a p at e small len =
    let l = length-append log (c ∷ []) in
    let n : length p.build_log ≡ suc (length log) = ap length e ∙ l ∙ omega arith in
    (
      size_query i a p at ∙ ap (λ k. ok (some cl_success, none, some k)) (sym len),
      get_program_build_info_lem i (length target) target true a p at (omega (arith, len, n))
            (omega (arith, len)) (omega arith)
          ∙ ap (λ x. ok (none, some (filled x (length target) target), none)) e
          ∙ ap (λ x. ok (none, some x, none)) (filled_short log c target (len ∙ n)),
    )
