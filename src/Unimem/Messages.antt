-- ===== src/Unimem/Messages.antt =====
-- What the driver can read back from the messages that it is sent.
use fpgaml.Common.{
  ℕ, zero, suc, ◌+◌, ◌*◌, ◌/◌, ◌%◌, ◌<◌, ◌≤◌, ◌≡◌, ◌^◌, refl, ap, Option, none, some, List, [], ◌∷◌,
  ◌++◌, length, ok, arith,
}
use fpgaml.Unimem.{little_endian, copy_message}

-- The number that `width` bytes at the front stand for, and the bytes behind them.
abbrev pub take_number : ℕ → List ℕ → Option (ℕ × List ℕ)
take_number zero bs = some (0, bs)
take_number (suc width) [] = none
take_number (suc width) (b ∷ bs) = elim (take_number width bs) [
  | none ↦ none
  | some r ↦ some (b + 256 * r.0, r.1)
]

abbrev pub take_bytes : ℕ → List ℕ → Option (List ℕ × List ℕ)
take_bytes zero bs = some ([], bs)
take_bytes (suc n) [] = none
take_bytes (suc n) (b ∷ bs) = elim (take_bytes n bs) [ none ↦ none | some r ↦ some (b ∷ r.0, r.1) ]

-- The bound of a number of `width` bytes.
abbrev pub bytes_max : ℕ → ℕ
bytes_max zero = 1
bytes_max (suc width) = 256 * bytes_max width

-- A message of an address of `len` bytes, a pointer and a size, as a reader takes it apart.
abbrev pub read_copy_message : ℕ → List ℕ → Option (ℕ × List ℕ × ℕ × ℕ)
read_copy_message len [] = none
read_copy_message len (letter ∷ bs) = elim (take_bytes len bs) [
  | none ↦ none
  | some (addr, bs1) ↦ elim (take_number 8 bs1) [
    | none ↦ none
    | some (buffer, bs2) ↦ elim (take_number 8 bs2) [
      | none ↦ none
      | some (size, bs3) ↦ some (letter, addr, buffer, size)
    ]
  ]
]

take_number-little_endian :
    (width v : ℕ) (rest : List ℕ)
    → v < bytes_max width
    → take_number width (little_endian width v ++ rest) ≡ some (v, rest)
unfolding little_endian
take_number-little_endian zero v rest h = let e : 0 ≡ v = omega arith in rw e refl
take_number-little_endian (suc width) v rest h =
    let ih = take_number-little_endian width (v / 256) rest (omega arith) in
    let e : v % 256 + 256 * (v / 256) ≡ v = omega arith in rw (ih) (ap (λ k. some (k, rest)) e)

take_bytes-append : (xs rest : List ℕ) → take_bytes (length xs) (xs ++ rest) ≡ some (xs, rest)
take_bytes-append [] rest = refl
take_bytes-append (x ∷ xs) rest = rw (take_bytes-append xs rest) refl

append_nil : (xs : List ℕ) → xs ++ [] ≡ xs
append_nil [] = refl
append_nil (x ∷ xs) = ap (λ k. x ∷ k) (append_nil xs)

-- An address structure of at most 83 bytes fits: the message is built, and a reader that knows how
-- long the address is finds in it the letter, the address, the pointer and the size.
pub copy_message-read_copy_message :
    (letter : ℕ) (addr : List ℕ) (buffer size : ℕ)
    → length addr ≤ 83
    → buffer < 2 ^ 64
    → size < 2 ^ 64
    → (message : List ℕ) × (copy_message letter addr buffer size ≡ ok message)
      × (read_copy_message (length addr) message ≡ some (letter, addr, buffer, size))
unfolding copy_message
copy_message-read_copy_message letter addr buffer size short hb hs =
    let tail = little_endian 8 buffer ++ little_endian 8 size in
    let e1 = take_bytes-append addr tail in
    let e2 = take_number-little_endian 8 buffer (little_endian 8 size) hb in
    let e3 = take_number-little_endian 8 size [] hs in
    let e4 = append_nil (little_endian 8 size) in
    ((letter ∷ addr) ++ tail, ground (arith, short), ground (arith, e1, e2, e3, e4))
