-- ===== src/Slicing/Retry.antt =====
-- The selection with its second try: the larger quantum is taken where nothing fits the first one.
use fpgaml.Common.{
  ℕ, ◌≡◌, ◌≢◌, ◌⊎◌, inl, inr, Option, none, some, List, Outcome, ok, arith, mul_u32, ◌==◌,
  Bool-cases,
}
use fpgaml.CircArray.{CircArray}
use fpgaml.CircArray.Inv.{Holds}
use fpgaml.Slicing.{AlgoSlicing, Offer, select_best_scheduler, select_with_retry}
use fpgaml.Slicing.Select.{Fits, In, NoBetter, select_best_scheduler-best}

-- The result is the best offer of the schedulers.
abbrev pub IsBest : (ℕ → Option Offer) → List ℕ → Outcome (Option (ℕ × ℕ × ℕ × ℕ)) → Type 0
IsBest o ids result =
    (idx : ℕ) × (f : Offer) × (result ≡ ok (some (idx, f.num_wgs, f.wg_cost, f.reconf_cost)))
    × In idx ids
    × (o idx ≡ some f)
    × ((x : ℕ) (g : Offer) → In x ids → o x ≡ some g → NoBetter f g)

abbrev pub NoOffer : (ℕ → Option Offer) → List ℕ → Type 0
NoOffer o ids = (x : ℕ) → In x ids → o x ≡ none

module _ (offer : ℕ → ℕ → Outcome (Option Offer)) (a : AlgoSlicing) (c : CircArray ℕ) where
  first_try :
      (choice : ℕ × ℕ × ℕ × ℕ)
      → select_best_scheduler (offer a.min_quant) c ≡ ok (some choice)
      → select_with_retry offer a c ≡ ok (some choice)
  unfolding select_with_retry
  first_try choice e = ground (arith, e)

  second_try :
      (r : Option (ℕ × ℕ × ℕ × ℕ))
      → select_best_scheduler (offer a.min_quant) c ≡ ok none
      → a.max_idle_threshold ≢ 0
      → select_best_scheduler (offer (mul_u32 a.min_quant a.max_idle_threshold)) c ≡ ok r
      → select_with_retry offer a c ≡ ok r
  unfolding select_with_retry
  second_try r e t e2 = ground (arith, e, t, e2)

  no_second_try :
      select_best_scheduler (offer a.min_quant) c ≡ ok none
      → a.max_idle_threshold ≡ 0
      → select_with_retry offer a c ≡ ok none
  unfolding select_with_retry
  no_second_try e t = ground (arith, e, t)

  -- Where the loop's body computes the offers `o1` in the first quantum and `o2` in the larger one:
  -- the selection gives the best offer in the first quantum; or, where no free scheduler has one and
  -- there is a threshold, the best offer in the larger quantum; or nothing, where no free scheduler
  -- has an offer in the first quantum, nor in the larger one if there is a threshold.
  pub select_with_retry-IsBest :
      (o1 o2 : ℕ → Option Offer) (ids : List ℕ)
      → Fits o1
      → Fits o2
      → Holds c ids
      → ((x : ℕ) → In x ids → offer a.min_quant x ≡ ok (o1 x))
      → ((x : ℕ) → In x ids → offer (mul_u32 a.min_quant a.max_idle_threshold) x ≡ ok (o2 x))
      → IsBest o1 ids (select_with_retry offer a c)
        ⊎ ((NoOffer o1 ids
              × (a.max_idle_threshold ≢ 0)
              × IsBest o2 ids (select_with_retry offer a c))
            ⊎ (NoOffer o1 ids
                × ((a.max_idle_threshold ≡ 0) ⊎ NoOffer o2 ids)
                × (select_with_retry offer a c ≡ ok none)))
  select_with_retry-IsBest o1 o2 ids f1 f2 h off1 off2 =
      elim (select_best_scheduler-best o1 (offer a.min_quant) c ids f1 h off1) [
        | inr (idx, f, e, i, at, best) ↦ inl (idx, f, first_try _ e, i, at, best)
        | inl (e, nothing) ↦ elim (Bool-cases (a.max_idle_threshold == 0)) [
          | inl z ↦
              let t : a.max_idle_threshold ≡ 0 = ground (arith, z) in
              inr (inr (nothing, inl t, no_second_try e t))
          | inr nz ↦
              let t : a.max_idle_threshold ≢ 0 = λ q. ground (arith, nz, q) in
              elim (select_best_scheduler-best o2 (offer (mul_u32 a.min_quant a.max_idle_threshold))
                c ids f2 h off2) [
                  | inr (idx, f, e2, i, at, best) ↦
                      inr (inl (nothing, t, (idx, f, second_try _ e t e2, i, at, best)))
                  | inl (e2, nothing2) ↦ inr (inr (nothing, inr nothing2, second_try none e t e2))
                ]
        ]
      ]
