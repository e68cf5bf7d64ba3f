-- ===== src/Slicing/Tests.antt =====
-- The theorems on the slicing algorithm at inputs.
use fpgaml.Common.{
  ℕ, ◌≡◌, ◌≢◌, ◌⊎◌, ap, ◌∙◌, Outcome, inl, inr, refl, true, false, [], ◌∷◌, ok, some, none, Option,
  arith, if◌then◌else◌, ◌==◌,
}
use fpgaml.Common.Names.{Name}
use fpgaml.CircArray.{CircArray, get}
use fpgaml.Tracker.{get_wg_cost_on_island}
use fpgaml.CircArray.Inv.{Holds}
use fpgaml.NdRange.{NdRange}
use fpgaml.World.{World}
use fpgaml.Slicing.{
  AlgoSlicing, Offer, select_best_scheduler, on_free_schedulers, select_with_retry, offer_of,
}
use fpgaml.Slicing.Select.{Fits, In, NoBetter, select_best_scheduler-best}
use fpgaml.Slicing.Retry.{IsBest, NoOffer, select_with_retry-IsBest}
use fpgaml.Slicing.Rounds.{on_free_schedulers-none}
use fpgaml.Slicing.Give.{HasGiven, on_free_schedulers-give_wgs}
use fpgaml.Scheduler.{Scheduler}
use fpgaml.Scheduler.Laws.{Runs}
use fpgaml.Samples.{
  flags, ring, ring-Holds_one, ring-Holds_two, ten_wgs, ten_wgs-IsValid, scheduler_with,
  range_of_cost, free_two,
}

-- The scheduler 6 can do three workgroups, all others two.
abbrev offers : ℕ → Option Offer
offers x =
    some
      (record { num_wgs = if x == 6 then 3 else 2; wg_cost = 10; reconf_cost = 0; total_cost = 30 })

offers-Fits : Fits offers
offers-Fits x f e = ground (arith, e)

select_best_scheduler-best_example :
    ((select_best_scheduler (λ x. ok (offers x)) (ring 5 6 0 0 2) ≡ ok none)
      × ((x : ℕ) → In x (5 ∷ 6 ∷ []) → offers x ≡ none))
    ⊎ ((idx : ℕ) × (f : Offer) × (select_best_scheduler (λ x. ok (offers x)) (ring 5 6 0 0 2)
          ≡ ok (some (idx, f.num_wgs, f.wg_cost, f.reconf_cost)))
        × In idx (5 ∷ 6 ∷ [])
        × (offers idx ≡ some f)
        × ((x : ℕ) (g : Offer) → In x (5 ∷ 6 ∷ []) → offers x ≡ some g → NoBetter f g))
select_best_scheduler-best_example =
    select_best_scheduler-best offers (λ x. ok (offers x)) (ring 5 6 0 0 2) (5 ∷ 6 ∷ []) offers-Fits
      (ring-Holds_two 5 6 0 0) (λ x i. refl)

-- A kernel without costs takes 1000, which is more than the quantum.
abbrev short_quantum : AlgoSlicing
short_quantum = record { ndranges = ring 0 0 0 0 2; min_quant = 10; max_idle_threshold = 2 }

abbrev seven : World flags
seven = record {
  store = ten_wgs ∷ [];
  schedulers =
      (let s =
          scheduler_with
            (ring (range_of_cost 1) (range_of_cost 1) (range_of_cost 1) (range_of_cost 1) 0)
            false in
        s ∷ s ∷ s ∷ s ∷ s ∷ s ∷ s ∷ []);
  free = free_two;
  tracker = record { wg_cost_mapping = []; reconf_cost_mapping = [] };
}

abbrev unnamed : NdRange → Name × Name
unnamed r = ([], [])

abbrev seven_offer : ℕ → ℕ → Outcome (Option Offer)
seven_offer quant x = offer_of flags seven.tracker seven.schedulers [] [] quant x

no_offers :
    (seven_offer 10 5 ≡ ok none)
    × (seven_offer 10 6 ≡ ok none)
    × (seven_offer 20 5 ≡ ok none)
    × (seven_offer 20 6 ≡ ok none)
unfolding offer_of get_wg_cost_on_island
no_offers = (refl, refl, refl, refl)

neither_fits :
    (quant : ℕ)
    → seven_offer quant 5 ≡ ok none
    → seven_offer quant 6 ≡ ok none
    → (x : ℕ) → In x (5 ∷ 6 ∷ [])
    → seven_offer quant x ≡ ok none
neither_fits quant five six x (inl e) = ap (seven_offer quant) e ∙ five
neither_fits quant five six x (inr (inl e)) = ap (seven_offer quant) e ∙ six
neither_fits quant five six x (inr (inr e)) = elim e [ ]

on_free_schedulers-none_example :
    (c : CircArray ℕ) × (on_free_schedulers flags unnamed 0 short_quantum seven
      ≡ ok (record short_quantum { ndranges = c }, seven))
    × Holds c (0 ∷ 0 ∷ [])
on_free_schedulers-none_example =
    on_free_schedulers-none flags unnamed 0 short_quantum seven ten_wgs (ring-Holds_two 0 0 0 0)
      (ring-Holds_two 5 6 0 0) (omega arith) refl (neither_fits 10 (no_offers.0) (no_offers.1))
      (neither_fits 20 (no_offers.2) (no_offers.3))

-- Offers in the quantum of 10, which are none, and in that of 20.
abbrev by_quant : ℕ → ℕ → Option Offer
by_quant quant x = if quant == 10 then none else offers x

select_with_retry-IsBest_example :
    IsBest
      (by_quant 10)
      (5 ∷ 6 ∷ [])
      (select_with_retry (λ quant x. ok (by_quant quant x)) short_quantum (ring 5 6 0 0 2))
    ⊎ ((NoOffer (by_quant 10) (5 ∷ 6 ∷ [])
          × (short_quantum.max_idle_threshold ≢ 0)
          × IsBest
              (by_quant 20)
              (5 ∷ 6 ∷ [])
              (select_with_retry (λ quant x. ok (by_quant quant x)) short_quantum (ring 5 6 0 0 2)))
        ⊎ (NoOffer (by_quant 10) (5 ∷ 6 ∷ [])
            × ((short_quantum.max_idle_threshold ≡ 0) ⊎ NoOffer (by_quant 20) (5 ∷ 6 ∷ []))
            × (select_with_retry (λ quant x. ok (by_quant quant x)) short_quantum (ring 5 6 0 0 2)
                ≡ ok none)))
select_with_retry-IsBest_example =
    select_with_retry-IsBest (λ quant x. ok (by_quant quant x)) short_quantum (ring 5 6 0 0 2)
      (by_quant 10) (by_quant 20) (5 ∷ 6 ∷ []) (λ x f e. cc) offers-Fits (ring-Holds_two 5 6 0 0)
      (λ x i. refl) (λ x i. refl)

-- Schedulers that are listed as free, each with one range in its queue, and a kernel of which a
-- workgroup takes 5 everywhere.
abbrev one_range : Scheduler flags
one_range =
    scheduler_with (ring (range_of_cost 1) (range_of_cost 1) (range_of_cost 1) (range_of_cost 1) 1)
      true

one_range-Runs : Runs flags one_range (range_of_cost 1 ∷ [])
one_range-Runs = record {
  queue = ring-Holds_one (range_of_cost 1) (range_of_cost 1) (range_of_cost 1) (range_of_cost 1);
  busy = λ ne. refl;
}

abbrev seven_known : World flags
seven_known = record seven {
  schedulers =
      one_range ∷ one_range ∷ one_range ∷ one_range ∷ one_range ∷ one_range ∷ one_range ∷ [];
  tracker = record {
    wg_cost_mapping = ([], 5 ∷ 5 ∷ 5 ∷ 5 ∷ 5 ∷ 5 ∷ 5 ∷ []) ∷ [];
    reconf_cost_mapping = [];
  };
}

five_chosen :
    (c : CircArray ℕ)
    → select_with_retry
        (offer_of flags seven_known.tracker seven_known.schedulers [] [])
        (record short_quantum { ndranges = c })
        free_two.free_schedulers
      ≡ ok (some (5, 2, 5, 0))
unfolding select_with_retry select_best_scheduler offer_of get get_wg_cost_on_island
five_chosen c = refl

on_free_schedulers-give_wgs_example :
    (a' : AlgoSlicing) × (w' : World flags) × (on_free_schedulers flags unnamed 0 short_quantum
        seven_known
      ≡ ok (a', w'))
    × HasGiven flags 0 5 2 5 0 ten_wgs one_range (range_of_cost 1 ∷ []) (5 ∷ 6 ∷ []) (0 ∷ []) a' w'
on_free_schedulers-give_wgs_example =
    on_free_schedulers-give_wgs flags unnamed 0 0 5 2 5 0 short_quantum seven_known ten_wgs
      one_range (range_of_cost 1 ∷ []) (ring-Holds_two 0 0 0 0) (ring-Holds_two 5 6 0 0)
      (omega arith) refl (omega arith) refl (omega arith) one_range-Runs (omega arith)
      ten_wgs-IsValid (omega arith) (omega arith) (omega arith) five_chosen
