-- ===== src/Route/Whole.antt =====
-- route_ndrange as a whole: it succeeds, and the whole ndrange is handed out, to the schedulers that
-- the search has chosen.
use mathlib.Core.Path.{subst}
use fpgaml.Common.{
  ℕ, suc, ◌+◌, ◌-◌, ◌<◌, ◌≡◌, ◌∙◌, ◌^◌, refl, sym, ap, Bool, true, false, some, List, [], ◌∷◌,
  length, get_elem?, All, ok, arith,
}
use fpgaml.Common.Int.{ℤ, pos, negsuc, eqb_ℤ, to_int}
use fpgaml.Common.Names.{Name}
use fpgaml.CircArray.Inv.{Holds}
use fpgaml.NdRange.{NdRange, has_more_wgs}
use fpgaml.NdRange.Carve.{IsValid}
use fpgaml.AlgoSimple.{AlgoSimple, recursive_function, search, unsuitable_island}
use fpgaml.AlgoSimple.Visit.{shape, best}
use fpgaml.AlgoSimple.Search.{recursive_function-Walks}
use fpgaml.AlgoSimple.Distributions.{IsDistribution}
use fpgaml.AlgoSimple.Optimal.{any_suitable, recursive_function-optimal}
use fpgaml.EvTimer.{LibEv}
use fpgaml.World.{World}
use fpgaml.Bitstreams.{ml_success}
use fpgaml.Route.{fill_vectors, submit_all, route_ndrange}
use fpgaml.Route.Shares.{Shares}
use fpgaml.Route.Fill.{HasCosts, fill_vectors_lem}
use fpgaml.Route.Submit.{HasRoom, submit_all_lem}

length-shape : (v : List ℤ) → length (shape v) ≡ length v
length-shape [] = refl
length-shape (x ∷ v) = ap suc (length-shape v)

IsDistribution-length :
    (m : List Bool) (n : ℕ) (v : List ℤ) → IsDistribution m n v → length v ≡ length m
IsDistribution-length [] n [] d = refl
IsDistribution-length [] n (x ∷ v) d = elim d [ ]
IsDistribution-length (b ∷ m) n [] d = elim d [ ]
IsDistribution-length (true ∷ m) n (x ∷ v) (e, d) = ap suc (IsDistribution-length m n v d)
IsDistribution-length (false ∷ m) n (x ∷ v) (k, le, e, d) =
    ap suc (IsDistribution-length m (n - k) v d)

first_suitable : (v : List ℤ) → get_elem? v 0 ≡ some (pos 0) → any_suitable (shape v) ≡ true
first_suitable [] h = cc
first_suitable (x ∷ v) h =
    let e : x ≡ pos 0 = cc in
    let f = ap (λ y. any_suitable (eqb_ℤ y unsuitable_island ∷ shape v)) e in f

-- The search does not change the number of islands.
num_islands_kept :
    (s : AlgoSimple) (n : ℕ)
    → length s.wgs_per_islands ≡ s.num_islands
    → (recursive_function s.num_islands n 0 s).num_islands ≡ s.num_islands
num_islands_kept s n l =
    let (_, _, walk) =
      recursive_function-Walks s s.num_islands n [] s.wgs_per_islands (best s) (sym l) in
    ap (λ t. t.num_islands) walk

all_given : (r : NdRange) → r.next_wgr ≡ r.total_size → has_more_wgs r ≡ false
unfolding has_more_wgs
all_given r e = ground (arith, e)

module _ (ev : LibEv) where
  -- What route_ndrange has done, from the search's state `s` and the world `w` to `s'` and `w'`: the
  -- vectors have been filled, the search has chosen a distribution of the workgroups over the islands
  -- that suit, each scheduler has its share of them, and there are none left.
  pub record IsRouted (names : NdRange → Name × Name) (now nd : ℕ) (s : AlgoSimple) (w : World ev)
      (r : NdRange) (s' : AlgoSimple) (w' : World ev) : Type 0 where
    pub filled : AlgoSimple
    pub ndrange : NdRange
    pub fills :
        fill_vectors ev
          (names r).0
          (names r).1
          now
          w
          s.num_islands
          0
          (record s { current_min = negsuc 0 })
        ≡ ok filled
    pub searched : s' ≡ recursive_function filled.num_islands r.total_size 0 filled
    pub chosen : IsDistribution (shape filled.wgs_per_islands) r.total_size s'.result
    pub shared : Shares ev nd s' 0 r.next_wgr s'.result w.schedulers w'.schedulers
    pub stored : get_elem? w'.store nd ≡ some ndrange
    pub no_more : has_more_wgs ndrange ≡ false
    pub handed_out : ndrange.next_wgr ≡ r.total_size

  search_small :
      (n : ℕ) (s : AlgoSimple)
      → n + 1 < 2 ^ 31
      → search (to_int n) s ≡ recursive_function s.num_islands n 0 s
  unfolding search
  search_small n s h = ground (arith, h)

  route_ndrange_steps :
      (names : NdRange → Name × Name) (now nd : ℕ) (s filled s' : AlgoSimple) (w w' : World ev)
      (r r' : NdRange)
      → get_elem? w.store nd ≡ some r
      → fill_vectors ev
          (names r).0
          (names r).1
          now
          w
          s.num_islands
          0
          (record s { current_min = negsuc 0 })
        ≡ ok filled
      → search (to_int r.total_size) filled ≡ s'
      → submit_all ev now nd s' s'.num_islands 0 w ≡ ok w'
      → get_elem? w'.store nd ≡ some r'
      → has_more_wgs r' ≡ false
      → route_ndrange ev names now (some nd) s w ≡ ok (ml_success, s', w')
  unfolding route_ndrange
  route_ndrange_steps names now nd s filled s' w w' r r' er fill found give er' more =
      ground (arith, er, fill, found, give, er', more)

  pub route_ndrange_lem :
      (names : NdRange → Name × Name) (now nd : ℕ) (s : AlgoSimple) (w : World ev) (r : NdRange)
      {ids : List ℕ}
      → s.num_islands ≡ length w.schedulers
      → length s.wgs_per_islands ≡ length w.schedulers
      → 0 < length w.schedulers
      → HasCosts w.tracker (names r).0 (length w.schedulers)
      → All (HasRoom ev) w.schedulers
      → Holds w.free.free_schedulers ids
      → get_elem? w.store nd ≡ some r
      → nd < length w.store
      → IsValid r
      → 0 < r.total_size
      → r.total_size + 1 < 2 ^ 31
      → r.next_wgr ≡ 0
      → r.wgrs_in_the_wild + length w.schedulers < 2 ^ 32
      → (s' : AlgoSimple) × (w' : World ev) × (route_ndrange ev names now (some nd) s w
          ≡ ok (ml_success, s', w'))
        × IsRouted names now nd s w r s' w'
  route_ndrange_lem names now nd s w r {ids} ns len some_island costs rooms hf er lt v pos_ small
        fresh wild =
      let n = r.total_size in
      let (f, e, (k1, k2, k3), first) =
        fill_vectors_lem ev (names r).0 (names r).1 now w (record s { current_min = negsuc 0 })
          some_island len costs in
      let lf : length f.wgs_per_islands ≡ f.num_islands = k3 ∙ len ∙ sym (k1 ∙ ns) in
      let (d, _, _) =
        recursive_function-optimal f n lf k2 (first_suitable f.wgs_per_islands first) in
      let s' = recursive_function f.num_islands n 0 f in
      let lr : length s'.result ≡ length w.schedulers =
        IsDistribution-length (shape f.wgs_per_islands) n s'.result d
        ∙ length-shape f.wgs_per_islands
        ∙ k3
        ∙ len in
      let (w', r', give, er', full, total, (ts, ets, shares)) =
        submit_all_lem ev now nd n s' (shape f.wgs_per_islands) w r [] s'.result [] w.schedulers
          {ids = ids} refl d refl lr refl rooms er lt hf v pos_ (omega arith) (omega arith) in
      let count : s'.num_islands ≡ length s'.result = num_islands_kept f n lf ∙ k1 ∙ ns ∙ sym lr in
      let give' : submit_all ev now nd s' s'.num_islands 0 w ≡ ok w' =
        ap (λ k. submit_all ev now nd s' k 0 w) count ∙ give in
      let fill' =
        ap
          (λ k.
            fill_vectors ev (names r).0 (names r).1 now w k 0 (record s { current_min = negsuc 0 }))
          ns
        ∙ e in
      (
        s',
        w',
        route_ndrange_steps names now nd s f s' w w' r r' er fill' (search_small n f small) give'
            er' (all_given r' full),
        record {
          filled = f;
          ndrange = r';
          fills = fill';
          searched = refl;
          chosen = d;
          shared = subst (Shares ev nd s' 0 r.next_wgr s'.result w.schedulers) (sym ets) shares;
          stored = er';
          no_more = all_given r' full;
          handed_out = full ∙ total;
        },
      )
