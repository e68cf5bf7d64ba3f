-- ===== src/Slicing/Rounds.antt =====
-- A round of the slicing algorithm keeps every ndrange that has workgroups left in its queue.
use fpgaml.Common.{
  ℕ, ◌+◌, ◌-◌, ◌%◌, ◌<◌, ◌≡◌, false, none, List, [], ◌∷◌, ◌++◌, length, ok, arith, read_cell,
}
use fpgaml.Common.Names.{Name}
use fpgaml.CircArray.{CircArray}
use fpgaml.CircArray.Inv.{Holds}
use fpgaml.CircArray.Pop.{pop_front_step}
use fpgaml.CircArray.Push.{push_back_appends}
use fpgaml.EvTimer.{LibEv}
use fpgaml.NdRange.{NdRange}
use fpgaml.World.{World}
use fpgaml.Slicing.Select.{In}
use fpgaml.Slicing.Retry.{select_with_retry-IsBest}
use fpgaml.Common.{Option, Outcome, mul_u32, inl, inr}
use fpgaml.Slicing.{AlgoSlicing, Offer, on_free_schedulers, select_with_retry, offer_of}

-- Where no scheduler has an offer, in either quantum, the selection gives none.
select_with_retry-none :
    (offer : ℕ → ℕ → Outcome (Option Offer)) (a : AlgoSlicing) (c : CircArray ℕ) {ids : List ℕ}
    → Holds c ids
    → ((x : ℕ) → In x ids → offer a.min_quant x ≡ ok none)
    → ((x : ℕ) → In x ids → offer (mul_u32 a.min_quant a.max_idle_threshold) x ≡ ok none)
    → select_with_retry offer a c ≡ ok none
select_with_retry-none offer a c {ids} h none1 none2 =
    elim (select_with_retry-IsBest offer a c (λ x. none) (λ x. none) ids (λ x f e. cc) (λ x f e. cc)
      h none1 none2) [
        | inl (idx, f, e, i, at, best) ↦ absurd (cc)
        | inr (inl (nothing, t, (idx, f, e, i, at, best))) ↦ absurd (cc)
        | inr (inr (nothing, t, e)) ↦ e
      ]

module _ (ev : LibEv) where
  -- Where no free scheduler has room in time for a workgroup of the ndrange at the front, neither in
  -- the quantum nor in the larger one, the ndrange goes to the back of the queue, and nothing else
  -- changes.
  pub on_free_schedulers-none :
      (names : NdRange → Name × Name) (now : ℕ) (a : AlgoSlicing) (w : World ev) (r : NdRange)
      {n : ℕ} {ns ids : List ℕ}
      → Holds a.ndranges (n ∷ ns)
      → Holds w.free.free_schedulers ids
      → 0 < length ids
      → read_cell w.store n ≡ ok r
      → ((x : ℕ)
          → In x ids
          → offer_of ev w.tracker w.schedulers (names r).0 (names r).1 a.min_quant x ≡ ok none)
      → ((x : ℕ)
          → In x ids
          → offer_of ev w.tracker w.schedulers
              (names r).0
              (names r).1
              (mul_u32 a.min_quant a.max_idle_threshold)
              x
            ≡ ok none)
      → (c : CircArray ℕ) × (on_free_schedulers ev names now a w
          ≡ ok (record a { ndranges = c }, w))
        × Holds c (ns ++ (n ∷ []))
  unfolding on_free_schedulers
  on_free_schedulers-none names now a w r {n} {ns} {ids} h hf some_free at none1 none2 =
      let (e, h') = pop_front_step h in
      let c1 = record a.ndranges {
        size = a.ndranges.size - 1;
        start = (a.ndranges.start + 1) % a.ndranges.capacity;
      } in
      let room : length ns < c1.capacity = omega (arith, h.len, h.fits) in
      let (c, p, h'', _) = push_back_appends n false h' room in
      let nf =
        select_with_retry-none (offer_of ev w.tracker w.schedulers (names r).0 (names r).1)
          (record a { ndranges = c1 }) w.free.free_schedulers hf none1 none2 in
      (c, ground (arith, e, at, nf, p, h.len, hf.len), h'')
