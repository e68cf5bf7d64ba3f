-- ===== src/NdRange/Life.antt =====
-- The life of an ndrange: ranges are carved and ranges end, in any order, until it deletes itself.
use fpgaml.Common.{
  ℕ, suc, ◌-◌, ◌^◌, ◌≤◌, ◌<◌, ◌≡◌, ◌∙◌, sym, refl, true, arith, Option, none, some, some-injective,
}
use native.Mathlib.Decide.{dec_lt}
use mathlib.Core.Path.{subst}
use fpgaml.NdRange.{NdRange, has_more_wgs, carve_wgs, decrement_wgrs_counter}
use fpgaml.NdRange.Carve.{IsValid, carve_wgs_lem, decrement_wgrs_counter_lem}

-- A step of the ndrange with the number `self`, beside the number of ranges that the schedulers
-- hold: a range of `n` workgroups is asked for where there are workgroups left, and handed to a
-- scheduler, or a range that a scheduler holds ends. The ndrange after it is `none` once deleted.
pub data Step (self : ℕ) : ℕ → NdRange → ℕ → Option NdRange → Type 0 where
  carve :
      (held : ℕ) (r : NdRange) (n : ℕ)
      → 0 < n
      → n < 2 ^ 32
      → has_more_wgs r ≡ true
      → Step self held r (suc held) (some (carve_wgs self r n).1)
  finish : (held : ℕ) (r : NdRange) → Step self (suc held) r held (decrement_wgrs_counter r)

pub data Reach (self h : ℕ) (s : NdRange) : ℕ → NdRange → Type 0 where
  here : Reach self h s h s
  next :
      {i j : ℕ} {t u : NdRange} {o : Option NdRange}
      → Reach self h s i t
      → Step self i t j o
      → o ≡ some u
      → Reach self h s j u

-- No more of the `total` workgroups is handed out than there is, the counter of the ranges in the
-- wild is the number of those that the schedulers hold, and there is a workgroup for each of them: so
-- no counter wraps.
pub record IsCounted (total held : ℕ) (r : NdRange) : Type 0 where
  pub valid : IsValid r
  pub size : r.total_size ≡ total
  pub some_wgs : 0 < total
  pub held_is : r.wgrs_in_the_wild ≡ held
  pub counted : r.wgrs_in_the_wild ≤ r.next_wgr

more_left : (r : NdRange) → has_more_wgs r ≡ true → r.next_wgr < r.total_size
unfolding has_more_wgs
more_left r h = ground (arith, h)

carve-IsCounted :
    (self n total held : ℕ) (r : NdRange)
    → 0 < n
    → n < 2 ^ 32
    → has_more_wgs r ≡ true
    → IsCounted total held r
    → IsCounted total (suc held) (carve_wgs self r n).1
carve-IsCounted self n total held r pos h more c =
    let m = more_left r more in
    let (_, _, next_is, wild_is, total_is, _, v) =
      carve_wgs_lem self r n c.valid (omega arith) h (omega (arith, m, c.counted, c.valid.fits)) in
    record {
      valid = v;
      size = total_is ∙ c.size;
      some_wgs = c.some_wgs;
      held_is = omega (arith, wild_is, c.held_is);
      counted = omega (arith, next_is, wild_is, m, c.counted);
    }

pub decrement_some :
    (r : NdRange)
    → 1 < r.wgrs_in_the_wild
    → r.wgrs_in_the_wild < 2 ^ 32
    → decrement_wgrs_counter r ≡ some (record r { wgrs_in_the_wild = r.wgrs_in_the_wild - 1 })
decrement_some r big fit =
    let e = decrement_wgrs_counter_lem r (omega arith) fit in ground (arith, e, big)

pub decrement_last : (r : NdRange) → r.wgrs_in_the_wild ≡ 1 → decrement_wgrs_counter r ≡ none
decrement_last r one =
    let e = decrement_wgrs_counter_lem r (omega arith) (omega arith) in ground (arith, e, one)

finish-IsCounted :
    (total held : ℕ) (r u : NdRange)
    → decrement_wgrs_counter r ≡ some u
    → IsCounted total (suc held) r
    → IsCounted total held u
finish-IsCounted total held r u e c = elim (dec_lt 1 r.wgrs_in_the_wild) [
  | no last ↦ let d = decrement_last r (omega (arith, c.held_is)) in absurd (cc)
  | yes big ↦
      let d = decrement_some r big (omega (arith, c.counted, c.valid.bounded, c.valid.fits)) in
      subst (IsCounted total held) (some-injective (sym d ∙ e)) (record {
        valid = record { bounded = c.valid.bounded; fits = c.valid.fits };
        size = c.size;
        some_wgs = c.some_wgs;
        held_is = omega (arith, c.held_is);
        counted = omega (arith, c.counted);
      })
]

Step-IsCounted :
    (self total : ℕ) {i j : ℕ} {t u : NdRange} {o : Option NdRange}
    → Step self i t j o
    → o ≡ some u
    → IsCounted total i t
    → IsCounted total j u
Step-IsCounted self total (carve held r n pos h more) e c =
    subst (IsCounted total (suc held)) (some-injective e)
      (carve-IsCounted self n total held r pos h more c)
Step-IsCounted self total {u = u} (finish held r) e c = finish-IsCounted total held r u e c

-- Whatever ranges are carved from an ndrange with workgroups, and in whatever order those that the
-- schedulers hold end: what has been handed out is within its workgroups, and its counter is the
-- number of ranges that the schedulers hold, which is no more than what has been handed out.
pub Reach-IsCounted :
    (self total : ℕ) {h : ℕ} {s : NdRange} {i : ℕ} {t : NdRange}
    → IsCounted total h s
    → Reach self h s i t
    → IsCounted total i t
Reach-IsCounted self total c here = c
Reach-IsCounted self total c (next r st e) =
    Step-IsCounted self total st e (Reach-IsCounted self total c r)

still_more : (r : NdRange) → r.next_wgr < r.total_size → has_more_wgs r ≡ true
unfolding has_more_wgs
still_more r lt = ground (arith, lt)

-- An ndrange of two or more workgroups can be gone before they are all handed out: it deletes itself
-- where its first range ends before the second one is carved.
pub completes_early :
    (self : ℕ) (s : NdRange)
    → IsCounted s.total_size 0 s
    → s.next_wgr ≡ 0
    → 1 < s.total_size
    → (t : NdRange) × Reach self 0 s 1 t × Step self 1 t 0 none × (has_more_wgs t ≡ true)
completes_early self s c fresh big =
    let more : has_more_wgs s ≡ true = still_more s (omega arith) in
    let (_, _, next_is, wild_is, total_is, _, v) =
      carve_wgs_lem self s 1 c.valid (omega arith) (omega arith) (omega (arith, c.held_is)) in
    let t = (carve_wgs self s 1).1 in
    (
      t,
      next here (carve 0 s 1 (omega arith) (omega arith) more) refl,
      subst (Step self 1 t 0) (decrement_last t (omega (arith, wild_is, c.held_is))) (finish 0 t),
      still_more t (omega (arith, next_is, total_is)),
    )
