-- ===== src/Driver/Layout.antt =====
-- What the driver finds in a message is what the client put there.
use fpgaml.Common.{
  ℕ, zero, suc, ◌/◌, ◌<◌, ◌≡◌, ◌∙◌, ◌^◌, refl, ap, sym, List, [], ◌∷◌, ◌++◌, length, take, drop,
  arith, length-append,
}
use mathlib.Core.List.{append_assoc}
use fpgaml.Unimem.{little_endian}
use fpgaml.Unimem.Messages.{bytes_max}
use fpgaml.Driver.{UnimemAddr, address_bytes, of_little_endian, number_at, address_at}

pub length-little_endian : (width v : ℕ) → length (little_endian width v) ≡ width
unfolding little_endian
length-little_endian zero v = refl
length-little_endian (suc width) v = ap suc (length-little_endian width (v / 256))

of-little_endian :
    (width v : ℕ) (rest : List ℕ)
    → v < bytes_max width
    → of_little_endian (take width (little_endian width v ++ rest)) ≡ v
unfolding little_endian
of-little_endian zero v rest h = omega arith
of-little_endian (suc width) v rest h = omega (arith, of-little_endian width (v / 256) rest)

drop-append : (xs ys : List ℕ) → drop (length xs) (xs ++ ys) ≡ ys
drop-append [] ys = refl
drop-append (x ∷ xs) ys = drop-append xs ys

-- The number behind a prefix of `offset` bytes.
pub number_at-append :
    (xs rest : List ℕ) (offset v : ℕ)
    → length xs ≡ offset
    → v < 2 ^ 64
    → number_at (xs ++ (little_endian 8 v ++ rest)) offset ≡ v
unfolding number_at
number_at-append xs rest offset v e h =
    ap (λ k. of_little_endian (take 8 (drop k (xs ++ (little_endian 8 v ++ rest))))) (sym e)
    ∙ ap (λ l. of_little_endian (take 8 l)) (drop-append xs (little_endian 8 v ++ rest))
    ∙ of-little_endian 8 v rest h

-- The fields are words.
pub record IsWord (a : UnimemAddr) : Type 0 where
  pub virt : a.kernel_virt_addr < 2 ^ 64
  pub bus : a.bus_addr < 2 ^ 64
  pub length_of : a.size < 2 ^ 64

pub length-address_bytes : (a : UnimemAddr) → length (address_bytes a) ≡ 24
unfolding address_bytes
length-address_bytes a =
    let v = little_endian 8 a.kernel_virt_addr in
    let b = little_endian 8 a.bus_addr in
    let s = little_endian 8 a.size in
    omega (
      arith,
      length-append v (b ++ s),
      length-append b s,
      length-little_endian 8 a.kernel_virt_addr,
      length-little_endian 8 a.bus_addr,
      length-little_endian 8 a.size,
    )

-- The structure is read back from behind the letter, whatever follows it.
pub address_at-address_bytes :
    (letter : ℕ) (a : UnimemAddr) (rest : List ℕ)
    → IsWord a
    → address_at (letter ∷ (address_bytes a ++ rest)) ≡ a
unfolding address_at address_bytes
address_at-address_bytes letter a rest w =
    let v = little_endian 8 a.kernel_virt_addr in
    let b = little_endian 8 a.bus_addr in
    let s = little_endian 8 a.size in
    let split : (v ++ (b ++ s)) ++ rest ≡ v ++ (b ++ (s ++ rest)) =
      append_assoc v (b ++ s) rest ∙ ap (λ l. v ++ l) (append_assoc b s rest) in
    let n1 = number_at-append (letter ∷ []) (b ++ (s ++ rest)) 1 a.kernel_virt_addr refl w.virt in
    let n2 =
      number_at-append (letter ∷ v) (s ++ rest) 9 a.bus_addr
        (ap suc (length-little_endian 8 a.kernel_virt_addr)) w.bus in
    let n3 =
      number_at-append (letter ∷ (v ++ b)) rest 17 a.size
        (omega (
          arith,
          length-append v b,
          length-little_endian 8 a.kernel_virt_addr,
          length-little_endian 8 a.bus_addr,
        ))
        w.length_of in
    let r2 : v ++ (b ++ (s ++ rest)) ≡ (v ++ b) ++ (s ++ rest) =
      sym (append_assoc v b (s ++ rest)) in
    λ i. record {
      kernel_virt_addr = (ap (λ l. number_at (letter ∷ l) 1) split ∙ n1) i;
      bus_addr = (ap (λ l. number_at (letter ∷ l) 9) split ∙ n2) i;
      size = (ap (λ l. number_at (letter ∷ l) 17) (split ∙ r2) ∙ n3) i;
    }
